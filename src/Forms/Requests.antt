-- ===== src/Forms/Requests.antt =====
-- Settings.tsx: the requests of the connection card that are under way.
use pumpy_v.Common.{
  ℕ, suc, ◌-◌, ◌≡◌, refl, ap, ◌∙◌, Bool, true, false, none, some, List, [], ◌∷◌, ◌||◌,
  if◌then◌else◌, ltb, length, arith, by_if,
}
use pumpy_v.Text.{Text, is_empty, trim}
use pumpy_v.Forms.{
  Connection, ConnectionEvent, loads, types_rpc_url, types_rpc_urls, types_jito_url, saves_it,
  save_answers, tests_it, test_answers, TestResult, save_connection, connection_saved,
  handle_test_rpc, rpc_tested, type_rpc_url, drop_first, connection_step, run, initial_connection,
}
use pumpy_v.Settings.{Env}

-- The flags say how many requests of each kind are under way: one or none.
abbrev pub Counts : Bool → ℕ → Type 0
Counts b n = n ≡ (if b then 1 else 0)

record IsSingle (c : Connection) : Type 0 where
  one_save : Counts c.is_saving c.saves
  one_test : Counts c.is_testing (length c.tests)
  -- while a test is under way no result is shown
  no_result : c.is_testing ≡ true → c.test_result ≡ none

pub none_left : (b : Bool) (n : ℕ) → Counts b n → n - 1 ≡ 0
none_left true n h = ap (λ m. m - 1) h
none_left false n h = ap (λ m. m - 1) h

pub first_one : (b : Bool) (n : ℕ) → Counts b n → b ≡ false → suc n ≡ 1
first_one b n h e = ap suc (h ∙ ap (λ x. if x then 1 else 0) e)

length-drop_first : (us : List Text) → length (drop_first us) ≡ length us - 1
length-drop_first [] = refl
length-drop_first (u ∷ us) = omega arith

either_false : (a b : Bool) → (a || b) ≡ false → a ≡ false
either_false true b h = h
either_false false b h = refl

step-IsSingle : (e : ConnectionEvent) (c : Connection) → IsSingle c → IsSingle (connection_step e c)
unfolding connection_step save_connection connection_saved handle_test_rpc rpc_tested type_rpc_url
step-IsSingle (loads config) c h = record {
  one_save = h.one_save;
  one_test = h.one_test;
  no_result = h.no_result;
}
step-IsSingle (types_rpc_url t) c h = record {
  one_save = h.one_save;
  one_test = h.one_test;
  no_result = λ b. refl;
}
step-IsSingle (types_rpc_urls t) c h = record {
  one_save = h.one_save;
  one_test = h.one_test;
  no_result = h.no_result;
}
step-IsSingle (types_jito_url t) c h = record {
  one_save = h.one_save;
  one_test = h.one_test;
  no_result = h.no_result;
}
step-IsSingle saves_it c h =
    by_if IsSingle c.is_saving (λ e. h)
      (λ e. record {
        one_save = first_one c.is_saving c.saves h.one_save e;
        one_test = h.one_test;
        no_result = h.no_result;
      })
step-IsSingle (save_answers ok) c h =
    by_if IsSingle (ltb 0 c.saves)
      (λ e. record {
        one_save = none_left c.is_saving c.saves h.one_save;
        one_test = h.one_test;
        no_result = h.no_result;
      })
      (λ e. h)
step-IsSingle tests_it c h =
    by_if IsSingle (c.is_testing || is_empty (trim c.rpc_url)) (λ e. h)
      (λ e. record {
        one_save = h.one_save;
        one_test =
            first_one c.is_testing (length c.tests) h.one_test
              (either_false c.is_testing (is_empty (trim c.rpc_url)) e);
        no_result = λ b. refl;
      })
step-IsSingle (test_answers a) c h =
    by_if IsSingle (ltb 0 (length c.tests))
      (λ e. record {
        one_save = h.one_save;
        one_test = length-drop_first c.tests ∙ none_left c.is_testing (length c.tests) h.one_test;
        no_result = λ b. ground arith;
      })
      (λ e. h)

run-IsSingle : (es : List ConnectionEvent) (c : Connection) → IsSingle c → IsSingle (run es c)
unfolding run
run-IsSingle [] c h = h
run-IsSingle (e ∷ es) c h = run-IsSingle es (connection_step e c) (step-IsSingle e c h)

-- Whatever the user does and in whatever order the answers come, the connection card has at most one save and at
-- most one test under way, each exactly while its flag is set, and it shows no result during a test.
pub run-initial_connection :
    (config : Env) (es : List ConnectionEvent)
    → let c = run es (initial_connection config) in
      Counts c.is_saving c.saves
      × Counts c.is_testing (length c.tests)
      × (c.is_testing ≡ true → c.test_result ≡ none)
run-initial_connection config es =
    let single =
      run-IsSingle es (initial_connection config)
        (record { one_save = refl; one_test = refl; no_result = λ b. refl }) in
    (single.one_save, single.one_test, single.no_result)

-- A result can be shown beside a URL that was not tested: if the text is changed while a test is under way, the
-- answer for the old text is shown with the new one.
pub stale_result :
    (c : Connection) (typed : Text) (answer : TestResult)
    → c.tests ≡ []
    → c.is_testing ≡ false
    → is_empty (trim c.rpc_url) ≡ false
    → let after_test = run (tests_it ∷ []) c in
      let shown = run (types_rpc_url typed ∷ test_answers (some answer) ∷ []) after_test in
      (after_test.tests ≡ trim c.rpc_url ∷ [])
      × (shown.rpc_url ≡ typed)
      × (shown.test_result ≡ some answer)
unfolding run connection_step handle_test_rpc rpc_tested type_rpc_url
stale_result c typed answer none_open idle text = rw (none_open, idle, text) (refl, refl, refl)
