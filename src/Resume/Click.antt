-- ===== src/Resume/Click.antt =====
-- Wallets.tsx over wallets.ts: a click on Resume while a key is remembered.
use pumpy_v.Common.{ℕ, ◌≡◌, ◌⊎◌, String, true, Option, none, some, [], ◌∷◌, ◌++◌, truthy}
use pumpy_v.Js.{Js}
use pumpy_v.AdminKey.{read_key, get_valid_admin_key}
use pumpy_v.KeyPrompt.{mutate, on_success}
use pumpy_v.Resume.{Page, effective_status, is_paused, resumed_toast, failed_toast}
use pumpy_v.Resume.Post.{enabled}

-- The card as it is when a click has sent the key that the cache gives.
abbrev sending : {N : Type 0} → ℕ → Page N → Page N
sending now p = record p {
  card =
      mutate tt (get_valid_admin_key now p.card.cache).0
        (record p.card { cache = (get_valid_admin_key now p.card.cache).1 });
}

-- The wallet is shown as enabled, one toast says that it was resumed, the key that the cache gave was sent
-- once, and the cache is left as it was read.
abbrev pub IsResumed : {N : Type 0} → String → ℕ → Page N → Page N → Type 0
IsResumed i now p q =
    (effective_status q.wallet_status q.config_status ≡ some "enabled")
    × (q.toasts ≡ p.toasts ++ resumed_toast i ∷ [])
    × (q.card.sent ≡ p.card.sent ++ (tt, (get_valid_admin_key now p.card.cache).0) ∷ [])
    × (q.card.cache ≡ (get_valid_admin_key now p.card.cache).1)
    × (q.card.in_flight ≡ 0)

-- The tables are as they were, one toast says why, and no key is left in the cache at the time `u`.
abbrev pub IsRefused : {N : Type 0} → ℕ → Page N → Page N → Type 0
IsRefused u p q =
    (q.server ≡ p.server)
    × ((q.toasts
          ≡ p.toasts
            ++ failed_toast "Admin endpoints are disabled: ADMIN_API_KEY is not configured" ∷ [])
        ⊎ (q.toasts
            ≡ p.toasts ++ failed_toast "Unauthorized: valid X-Admin-Key header required" ∷ []))
    × ((read_key u q.card.cache).0 ≡ "")

module _ (js : Js) (admin_key : Option String) (not_json i : String) (now : ℕ) (p : Page js.Number)
    (paused : is_paused (effective_status p.wallet_status p.config_status) ≡ true)
    (idle : p.card.in_flight ≡ 0) (closed : p.card.pending ≡ none)
    (remembered : truthy (get_valid_admin_key now p.card.cache).0 ≡ true) where
  key : String
  key = (get_valid_admin_key now p.card.cache).0

  accepted_page : Page js.Number
  accepted_page = record (sending now p) {
    card = on_success now key (sending now p).card;
    toasts = p.toasts ++ resumed_toast i ∷ [];
    server = (enabled i now p.server.0, []);
  }
