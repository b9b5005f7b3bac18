-- ===== src/AdminAuth.antt =====
-- artifacts/api-server/src/lib/admin-auth.ts: the guard in front of the operator's endpoints.
use pumpy_v.Common.{
  ℕ, ◌≡◌, ◌≢◌, refl, ◌↔◌, ◌⊎◌, inl, inr, String, Option, none, some, if◌then◌else◌, str_eq, eq_iff,
  truthy, arith,
}

-- `next` calls the handler; `deny` answers with a status and an error text.
pub data Verdict : Type 0 where
  next : Verdict
  deny : ℕ → String → Verdict

abbrev pub disabled : Verdict
disabled = deny 503 "Admin endpoints are disabled: ADMIN_API_KEY is not configured"

abbrev pub unauthorized : Verdict
unauthorized = deny 401 "Unauthorized: valid X-Admin-Key header required"

-- The text of an environment variable or a header, "" where there is none: both are falsy.
abbrev pub text_of : Option String → String
text_of none = ""
text_of (some s) = s

-- `requireAdminKey`: the variable ADMIN_API_KEY and the header X-Admin-Key.
unfoldable pub require_admin_key : Option String → Option String → Verdict
require_admin_key admin_key provided =
    if truthy (text_of admin_key)
    then (if truthy (text_of provided)
        then (if str_eq (text_of provided) (text_of admin_key) then next else unauthorized)
        else unauthorized)
    else disabled

-- The handler runs exactly when a nonempty key is configured and the header is that key.
pub require_admin_key-next_iff :
    (admin_key provided : Option String)
    → (require_admin_key admin_key provided ≡ next)
      ↔ ((text_of admin_key ≢ "") × (provided ≡ admin_key))
unfolding require_admin_key
require_admin_key-next_iff none none = ground arith
require_admin_key-next_iff none (some p) = ground arith
require_admin_key-next_iff (some k) none = ground (arith, eq_iff k "")
require_admin_key-next_iff (some k) (some p) = ground (arith, eq_iff p k, eq_iff p "", eq_iff k "")

pub Verdict-cases :
    (v : Verdict) → (v ≡ next) ⊎ ((code : ℕ) × (text : String) × (v ≡ deny code text))
Verdict-cases next = inl refl
Verdict-cases (deny code text) = inr (code, text, refl)

pub denied-cases :
    (admin_key provided : Option String)
    → (text_of admin_key ≡ "") ⊎ (provided ≢ admin_key)
    → (require_admin_key admin_key provided ≡ disabled)
      ⊎ (require_admin_key admin_key provided ≡ unauthorized)
unfolding require_admin_key
denied-cases none p h = inl refl
denied-cases (some k) none h = ground arith
denied-cases (some k) (some p) h = ground (arith, eq_iff p k, eq_iff p "", eq_iff k "")
