-- ===== src/Resume/Post.antt =====
-- Wallets.tsx over wallets.ts: a request that is accepted or refused, and the queries after it.
use pumpy_v.Common.{
  ℕ, ◌≡◌, refl, String, Bool, true, Option, some, List, [], ◌∷◌, ◌++◌, length, any, arith, str_eq,
}
use pumpy_v.Js.{Js}
use pumpy_v.AdminAuth.{require_admin_key, next}
use pumpy_v.KeyPrompt.{on_success, on_error}
use pumpy_v.Wallets.{
  Db, ConfigRow, RegistryRow, resume, resumes, handle, request, status_update, update_config,
  rows_of, first_or_404, set_registry_status, error, registry_rows,
}
use pumpy_v.Resume.{
  Page, arrives, sent_since, listed_status, fetched_status, settle, post, resumed_toast,
  failed_toast,
}

pub sent_since-append : {A : Type 0} (xs ys : List A) → sent_since (length xs) (xs ++ ys) ≡ ys
sent_since-append [] ys = refl
sent_since-append (x ∷ xs) ys = sent_since-append xs ys

abbrev pub in_registry : String → List RegistryRow → Bool
in_registry i = any (λ r. str_eq r.wallet_id i)

abbrev pub in_config : {N : Type 0} → String → List (ConfigRow N) → Bool
in_config i = any (λ r. str_eq r.wallet_id i)

pub listed_enabled :
    (N : Type 0) (i : String) (rs : List RegistryRow) (old : Option String)
    → in_registry i rs ≡ true
    → listed_status {N = N} i (registry_rows (set_registry_status i "enabled" rs)) old
      ≡ some "enabled"
listed_enabled N i [] old h = cc
listed_enabled N i (r ∷ rs) old h = ground (arith, listed_enabled N i rs old)

pub fetched_enabled :
    {N : Type 0} (i : String) (now : ℕ) (rs : List (ConfigRow N)) (old : Option String)
    → in_config i rs ≡ true
    → fetched_status
        (first_or_404 (rows_of i (update_config i (status_update "enabled" now) rs)))
        old
      ≡ some "enabled"
fetched_enabled i now [] old h = cc
fetched_enabled i now (r ∷ rs) old h = ground (arith, fetched_enabled i now rs old)

-- The tables after a resume with no faults.
abbrev pub enabled : {N : Type 0} → String → ℕ → Db N → Db N
enabled i now d = record {
  registry = set_registry_status i "enabled" d.registry;
  config = update_config i (status_update "enabled" now) d.config;
}

pub post_accepted :
    (js : Js) (admin_key : Option String) (not_json i : String) (now : ℕ) (key : String)
    (q : Page js.Number)
    → require_admin_key admin_key (some key) ≡ next
    → q.server.1 ≡ []
    → post js admin_key not_json i now arrives key q ≡ record q {
      card = on_success now key q.card;
      toasts = q.toasts ++ resumed_toast i ∷ [];
      server = (enabled i now q.server.0, []);
    }
unfolding post settle handle resume
post_accepted js admin_key not_json i now key q ok h = rw (ok, h) refl

pub post_denied :
    (js : Js) (admin_key : Option String) (not_json i : String) (now code : ℕ) (text key : String)
    (q : Page js.Number)
    → (request js admin_key (some key) (resumes i) now q.server
        ≡ (error code text, q.server.0, q.server.1))
    → post js admin_key not_json i now arrives key q
      ≡ record q { card = on_error now q.card; toasts = q.toasts ++ failed_toast text ∷ [] }
unfolding post settle
post_denied js admin_key not_json i now code text key q h = rw h refl
