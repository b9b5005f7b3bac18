-- ===== src/Resume/Keys.antt =====
-- Wallets.tsx over wallets.ts: no change of the tables without the configured key.
use pumpy_v.Common.{◌≡◌, ◌⊎◌, String, Bool, true, Option, List, any, str_eq}
use pumpy_v.Js.{Js}
use pumpy_v.AdminAuth.{text_of}
use pumpy_v.Resume.{Page}
use pumpy_v.KeyPrompt.Sent.{Grows}

-- One of the requests has the configured key.
abbrev pub has_key : Option String → List (Unit {0} × String) → Bool
has_key k = any (λ r. str_eq r.1 (text_of k))

module _ (js : Js) (k : Option String) (not_json i : String) where
  -- The tables are the same, or the configured key was sent; and nothing sent is forgotten.
  Keyed : Page js.Number → Page js.Number → Type 0
  Keyed p q =
      ((q.server.0 ≡ p.server.0) ⊎ (has_key k q.card.sent ≡ true)) × Grows p.card.sent q.card.sent
