-- ===== src/Base58/Alphabet.antt =====
-- settings.ts: the alphabet is injective, so decoding reads back the digits that were written.
use pumpy_v.Common.{
  ℕ, zero, suc, ◌<◌, ◌≡◌, refl, ap, Bool, true, false, Option, none, some, List, [], ◌∷◌, map,
  replicate, arith, ◌==◌, ◌&&◌,
}
use pumpy_v.Base58.{absorb, absorb_all, symbol, index_of, lead, decode_all}
use pumpy_v.Base58.Value.{Below}

-- The alphabet is injective: each digit's symbol is found at the digit, and only digit 0 has the symbol
-- of 0.
found_at : Option ℕ → ℕ → Bool
found_at none d = false
found_at (some i) d = i == d

eq-some_of_found_at : (o : Option ℕ) (d : ℕ) → found_at o d ≡ true → o ≡ some d
unfolding found_at
eq-some_of_found_at none d h = cc
eq-some_of_found_at (some i) d h = ground arith

-- The first `digits` symbols stand at their own places.
table_ok : ℕ → Bool
unfolding found_at
table_ok zero = true
table_ok (suc digits) = table_ok digits && found_at (index_of (symbol digits)) digits

whole_table : table_ok 58 ≡ true
unfolding table_ok index_of symbol
whole_table = refl

table_entry :
    (digits d : ℕ) → d < digits → table_ok digits ≡ true → found_at (index_of (symbol d)) d ≡ true
unfolding table_ok found_at
table_entry zero d less ok = absurd (omega arith)
table_entry (suc digits) d less ok = ground (arith, table_entry digits d)

index_of-symbol : (d : ℕ) → d < 58 → index_of (symbol d) ≡ some d
index_of-symbol d h = eq-some_of_found_at (index_of (symbol d)) d (table_entry 58 d h whole_table)

symbol_zero : (d : ℕ) → d < 58 → (symbol d == symbol 0) ≡ (d == 0)
symbol_zero d h = ground (arith, index_of-symbol d h, index_of-symbol 0 (omega arith))

pub decode_all-symbol :
    (bytes xs : List ℕ)
    → Below 58 xs
    → decode_all bytes (map symbol xs) ≡ some (absorb_all 58 256 bytes xs)
unfolding decode_all absorb_all
decode_all-symbol bytes [] b = refl
decode_all-symbol bytes (x ∷ xs) b =
    rw (index_of-symbol x b.0, decode_all) (decode_all-symbol (absorb 58 256 x bytes) xs b.1)

pub lead-symbol : (xs : List ℕ) → Below 58 xs → lead (symbol 0) (map symbol xs) ≡ lead 0 xs
unfolding lead
lead-symbol [] b = refl
lead-symbol (x ∷ []) b = refl
lead-symbol (x ∷ y ∷ ys) b = rw (symbol_zero x b.0, lead-symbol (y ∷ ys) b.1)

pub map-symbol_zeros : (k : ℕ) → map symbol (replicate k 0) ≡ replicate k (symbol 0)
map-symbol_zeros zero = refl
map-symbol_zeros (suc k) = ap (◌∷◌ (symbol 0)) (map-symbol_zeros k)
