-- ===== src/Resume/Outcome.antt =====
-- Wallets.tsx over wallets.ts: what the toasts of the card say of the tables.
use pumpy_v.Common.{
  ℕ, suc, ◌<◌, ◌≡◌, refl, sym, ◌∙◌, ◌⊎◌, inl, inr, String, Bool, true, false, Option, none, some,
  List, [], ◌∷◌, ◌++◌, length, Bool-cases, Option-cases, arith, if◌then◌else◌, subst, ◌||◌, by_if,
}
use pumpy_v.Js.{Js}
use pumpy_v.AdminAuth.{require_admin_key, Verdict-cases}
use pumpy_v.KeyPrompt.{step}
use pumpy_v.Wallets.{
  Db, Response, resume, resumes, handle, request, status_update, set_registry_status, update_config,
  error, registry_rows, config_row, status_is, preset_is, uncaught, list_wallets, get_config,
}
use pumpy_v.Wallets.Gate.{failed, request-failed}
use pumpy_v.Wallets.Effects.{HasStatus, config-HasStatus, registry-HasStatus}
use pumpy_v.Resume.{
  Toast, Touch, Page, PageEvent, Network, arrives, unreachable, response_lost, is_seen, reject,
  touches, refetches, event_of, effective_status, is_paused, sent_since, thrown, settle, post,
  serve, touch, refetch, page_step, page_run, resumed_toast, failed_toast,
}

-- The toasts that tell of a success.
abbrev pub successes : List Toast → ℕ
successes [] = 0
successes (t ∷ ts) = if t.destructive then successes ts else suc (successes ts)

successes-resumed :
    (ts : List Toast) (i : String) → successes (ts ++ resumed_toast i ∷ []) ≡ suc (successes ts)
successes-resumed [] i = refl
successes-resumed (t ∷ ts) i = ground (arith, successes-resumed ts i)

successes-failed :
    (ts : List Toast) (m : String) → successes (ts ++ failed_toast m ∷ []) ≡ successes ts
successes-failed [] m = refl
successes-failed (t ∷ ts) m = ground (arith, successes-failed ts m)

-- A response of the events' requests is lost.
abbrev pub is_lost : Network → Bool
is_lost arrives = false
is_lost (unreachable m) = false
is_lost (response_lost m) = true

abbrev pub any_lost : List (ℕ × PageEvent) → Bool
any_lost [] = false
any_lost ((now, touches t net) ∷ es) = is_lost net || any_lost es
any_lost ((now, refetches a b) ∷ es) = any_lost es

-- No new toast tells of a success and the tables are the same; or the wallet is enabled, and a new toast tells of a
-- success or a response was lost.
abbrev pub Told : {N : Type 0} → String → Bool → Page N → Page N → Type 0
Told i lost p q =
    ((successes q.toasts ≡ successes p.toasts) × (q.server.0 ≡ p.server.0))
    ⊎ (HasStatus i "enabled" q.server.0
        × ((successes p.toasts < successes q.toasts) ⊎ (lost ≡ true)))

Told-again :
    {N : Type 0} (i : String) (a b : Bool) (p q r : Page N)
    → Told i a p q
    → Told i b q r
    → Told i (a || b) p r
Told-again i a b p q r (inl (t, d)) (inl (u, e)) = inl (u ∙ t, e ∙ d)
Told-again i a b p q r (inl (t, d)) (inr (h, inl u)) = inr (h, inl (omega (arith, t, u)))
Told-again i a b p q r (inl (t, d)) (inr (h, inr u)) = inr (h, inr (ground (arith, u)))
Told-again i a b p q r (inr (h, inl t)) (inl (u, e)) =
    inr (subst (λ d. HasStatus i "enabled" d) (sym e) h, inl (omega (arith, t, u)))
Told-again i a b p q r (inr (h, inr t)) (inl (u, e)) =
    inr (subst (λ d. HasStatus i "enabled" d) (sym e) h, inr (ground (arith, t)))
Told-again i a b p q r (inr (h, inl t)) (inr (k, inl u)) = inr (k, inl (omega (arith, t, u)))
Told-again i a b p q r (inr (h, inr t)) (inr (k, u)) = inr (k, inr (ground (arith, t)))
Told-again i a b p q r (inr (h, t)) (inr (k, inr u)) = inr (k, inr (ground (arith, u)))

-- A response with no message to throw is that of a success.
failed-thrown :
    {N : Type 0} (not_json : String) (r : Response N) (m : String)
    → thrown not_json r ≡ some m
    → failed r ≡ true
failed-thrown not_json (error code text) m h = refl
failed-thrown not_json uncaught m h = refl
failed-thrown not_json (registry_rows rows) m h = cc
failed-thrown not_json (config_row r) m h = cc
failed-thrown not_json (status_is i s) m h = cc
failed-thrown not_json (preset_is s i ps) m h = cc

enabled :
    {N : Type 0} (i : String) (now : ℕ) (d : Db N)
    → HasStatus i "enabled" (record {
      registry = set_registry_status i "enabled" d.registry;
      config = update_config i (status_update "enabled" now) d.config;
    })
enabled i now d = (
  config-HasStatus i "enabled" (status_update "enabled" now) d.config refl,
  registry-HasStatus i "enabled" d.registry,
)

resume-HasStatus :
    {N : Type 0} (not_json i : String) (now : ℕ) (d : Db N) (fs : List Bool)
    → thrown not_json (resume i now (d, fs)).0 ≡ none
    → HasStatus i "enabled" (resume i now (d, fs)).1
unfolding resume
resume-HasStatus not_json i now d [] h = enabled i now d
resume-HasStatus not_json i now d (true ∷ fs) h = cc
resume-HasStatus not_json i now d (false ∷ []) h = enabled i now d
resume-HasStatus not_json i now d (false ∷ true ∷ fs) h = cc
resume-HasStatus not_json i now d (false ∷ false ∷ []) h = enabled i now d
resume-HasStatus not_json i now d (false ∷ false ∷ true ∷ fs) h = cc
resume-HasStatus not_json i now d (false ∷ false ∷ false ∷ fs) h = enabled i now d

request-HasStatus :
    (js : Js) (k provided : Option String) (not_json i : String) (now : ℕ) (d : Db js.Number)
    (fs : List Bool)
    → thrown not_json (request js k provided (resumes i) now (d, fs)).0 ≡ none
    → HasStatus i "enabled" (request js k provided (resumes i) now (d, fs)).1
unfolding request handle
request-HasStatus js k provided not_json i now d fs =
    elim (Verdict-cases (require_admin_key k provided)) [
      | inl e ↦ rw e (resume-HasStatus not_json i now d fs)
      | inr (code, text, e) ↦ rw e (λ h. cc)
    ]

list_wallets-same : {N : Type 0} (d : Db N) (fs : List Bool) → (list_wallets (d, fs)).1 ≡ d
unfolding list_wallets
list_wallets-same d [] = refl
list_wallets-same d (false ∷ fs) = refl
list_wallets-same d (true ∷ fs) = refl

get_config-same :
    {N : Type 0} (i : String) (d : Db N) (fs : List Bool) → (get_config i (d, fs)).1 ≡ d
unfolding get_config
get_config-same i d [] = refl
get_config-same i d (false ∷ fs) = refl
get_config-same i d (true ∷ fs) = refl

module _ (js : Js) (admin_key : Option String) (not_json i : String) where
  settle-Told :
      (now : ℕ) (key : String) (r : Response js.Number) (p : Page js.Number) (d : Db js.Number)
      (fs : List Bool)
      → (thrown not_json r ≡ none → HasStatus i "enabled" d)
      → (failed r ≡ true → d ≡ p.server.0)
      → Told i false p (settle js admin_key not_json i now key r (record p { server = (d, fs) }))
  unfolding settle
  settle-Told now key r p d fs ok same = elim (Option-cases (thrown not_json r)) [
    | inl e ↦ rw (e, settle) (inr (ok e, inl (rw (successes-resumed p.toasts i) (omega arith))))
    | inr (m, e) ↦
        rw (e, settle) (inl (successes-failed p.toasts m, same (failed-thrown not_json r m e)))
  ]

  -- The page that has lost a response does not know whether its wallet was resumed.
  lost-Told :
      (now : ℕ) (m : String) (r : Response js.Number) (p : Page js.Number) (d : Db js.Number)
      (fs : List Bool)
      → (thrown not_json r ≡ none → HasStatus i "enabled" d)
      → (failed r ≡ true → d ≡ p.server.0)
      → Told i true p (reject js admin_key not_json i now m (record p { server = (d, fs) }))
  lost-Told now m r p d fs ok same = elim (Option-cases (thrown not_json r)) [
    | inl e ↦ inr (ok e, inr refl)
    | inr (n, e) ↦ inl (successes-failed p.toasts m, same (failed-thrown not_json r n e))
  ]

  post-Told :
      (now : ℕ) (net : Network) (key : String) (p : Page js.Number)
      → Told i (is_lost net) p (post js admin_key not_json i now net key p)
  unfolding post
  post-Told now arrives key p =
      let (r, d, fs) = request js admin_key (some key) (resumes i) now p.server in
      settle-Told now key r p d fs
        (request-HasStatus js admin_key (some key) not_json i now p.server.0 p.server.1)
        (request-failed js admin_key (some key) (resumes i) now p.server.0 p.server.1)
  post-Told now (unreachable m) key p = inl (successes-failed p.toasts m, refl)
  post-Told now (response_lost m) key p =
      let (r, d, fs) = request js admin_key (some key) (resumes i) now p.server in
      lost-Told now m r p d fs
        (request-HasStatus js admin_key (some key) not_json i now p.server.0 p.server.1)
        (request-failed js admin_key (some key) (resumes i) now p.server.0 p.server.1)

  either : (b : Bool) → (b || b) ≡ b
  either true = refl
  either false = refl

  serve-Told :
      (now : ℕ) (net : Network) (rs : List (Unit {0} × String)) (p : Page js.Number)
      → Told i (is_lost net) p (serve js admin_key not_json i now net rs p)
  unfolding serve
  serve-Told now net [] p = inl (refl, refl)
  serve-Told now net (r ∷ rs) p =
      let q = post js admin_key not_json i now net r.1 p in
      let both =
        Told-again i (is_lost net) (is_lost net) p q (serve js admin_key not_json i now net rs q)
          (post-Told now net r.1 p) (serve-Told now net rs q) in
      subst (λ b. Told i b p (serve js admin_key not_json i now net rs q)) (either (is_lost net))
        both

  touch-Told :
      (now : ℕ) (t : Touch) (net : Network) (p : Page js.Number)
      → Told i (is_lost net) p (touch js admin_key not_json i now t net p)
  unfolding touch
  touch-Told now t net p =
      elim (Bool-cases (is_paused (effective_status p.wallet_status p.config_status))) [
        | inl h ↦ rw h (
            let card = step (λ x. false) now (event_of t) p.card in
            serve-Told now net (sent_since (length p.card.sent) card.sent)
              (record p { card = card }))
        | inr h ↦ rw h (inl (refl, refl))
      ]

  pub refetch-same :
      (a b : Network) (p : Page js.Number)
      → (refetch js admin_key not_json i a b p).server.0 ≡ p.server.0
  unfolding refetch
  refetch-same a b p =
      let (wallets, d, fs) = list_wallets p.server in
      let listed = if is_seen a then (d, fs) else p.server in
      let listed_same : listed.0 ≡ p.server.0 =
        by_if (λ (s : Db js.Number × List Bool). s.0 ≡ p.server.0) (is_seen a)
          (λ _. list_wallets-same p.server.0 p.server.1) (λ _. refl) in
      by_if (λ (s : Db js.Number × List Bool). s.0 ≡ p.server.0) (is_seen b)
        (λ _. get_config-same i listed.0 listed.1 ∙ listed_same) (λ _. listed_same)

  refetch-Told :
      (a b : Network) (p : Page js.Number) → Told i false p (refetch js admin_key not_json i a b p)
  unfolding refetch
  refetch-Told a b p = inl (refl, refetch-same a b p)

  -- After any events on the card, with any keys, any faults of the database and any failures of the network: either no
  -- further toast tells of a success and the tables are as they were; or every row of the wallet in both tables has the
  -- status "enabled", and a further toast tells of a success or the response to a request was lost.
  pub page_run-Told :
      (es : List (ℕ × PageEvent)) (p : Page js.Number)
      → Told i (any_lost es) p (page_run js admin_key not_json i es p)
  unfolding page_run page_step
  page_run-Told [] p = inl (refl, refl)
  page_run-Told ((now, touches t net) ∷ es) p =
      let q = touch js admin_key not_json i now t net p in
      Told-again i (is_lost net) (any_lost es) p q (page_run js admin_key not_json i es q)
        (touch-Told now t net p) (page_run-Told es q)
  page_run-Told ((now, refetches a b) ∷ es) p =
      let q = refetch js admin_key not_json i a b p in
      Told-again i false (any_lost es) p q (page_run js admin_key not_json i es q)
        (refetch-Told a b p) (page_run-Told es q)
