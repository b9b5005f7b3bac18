-- ===== src/Display/Tests.antt =====
-- utils.ts and Tokens.tsx: an address and two ages.
use pumpy_v.Common.{ℕ, ◌≡◌, refl, codes, [], ◌∷◌}
use pumpy_v.Text.{Text}
use pumpy_v.Display.{shorten_address}

shortened : shorten_address (codes "So11111111111111112") 4 ≡ codes "So11...1112"
unfolding shorten_address
shortened = refl

kept : shorten_address (codes "0123456789") 4 ≡ codes "0123456789"
unfolding shorten_address
kept = refl

abbrev numeral : ℕ → Text
numeral n = n ∷ []
