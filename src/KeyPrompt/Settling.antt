-- ===== src/KeyPrompt/Settling.antt =====
-- Wallets.tsx, Strategies.tsx and Settings.tsx: the key that is left when a request settles.
use pumpy_v.Common.{
  ℕ, ◌+◌, ◌≤◌, String, ◌≡◌, refl, ◌∙◌, Bool, true, false, if◌then◌else◌, ltb, is_some,
}
use pumpy_v.AdminKey.{hour_ms, Cache, read_key}
use pumpy_v.AdminKey.Expiry.{remembered-Agrees, cleared-Agrees, read_key-good}
use pumpy_v.KeyPrompt.{Card, settled_cache, on_success, on_error}

-- The key that is valid at a later time after a success: from a prompt it is kept for an hour or not at
-- all, and otherwise the cache stays as it was.
abbrev pub left_over : Bool → Bool → ℕ → ℕ → String → Cache → String
left_over false remember now u key cache = (read_key u cache).0
left_over true true now u key cache = if ltb u (now + hour_ms) then key else ""
left_over true false now u key cache = ""

no_key : (b : Bool) → ◌≡◌ {A = String} (if b then "" else "") ""
no_key true = refl
no_key false = refl

settled-left_over :
    (prompted remember : Bool) (now u : ℕ) (key : String) (cache : Cache)
    → now ≤ u
    → (read_key u (settled_cache now key prompted remember cache)).0
      ≡ left_over prompted remember now u key cache
settled-left_over false remember now u key cache h = refl
settled-left_over true true now u key cache h =
    read_key-good now u _ _ h (remembered-Agrees now key cache)
settled-left_over true false now u key cache h =
    read_key-good now u _ _ h (cleared-Agrees now cache) ∙ no_key (ltb u 0)

-- A request that succeeds leaves a key behind only as the check box says, if the prompt is open, and else what the
-- cache had; a request that fails leaves none, and the box is unchecked.
pub settled_key :
    {P : Type 0} (now u : ℕ) (key : String) (c : Card P)
    → now ≤ u
    → ((read_key u (on_success now key c).cache).0
        ≡ left_over (is_some c.pending) c.remember_key now u key c.cache)
      × ((read_key u (on_error now c).cache).0 ≡ "")
      × ((on_error now c).remember_key ≡ false)
unfolding on_success on_error
settled_key now u key c h = (
  settled-left_over (is_some c.pending) c.remember_key now u key c.cache h,
  settled-left_over true false now u key c.cache h,
  refl,
)
