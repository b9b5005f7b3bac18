-- ===== src/Base58.antt =====
-- artifacts/api-server/src/routes/settings.ts, the Base58 helpers and the public key of a keypair.
-- Bytes and code units are numbers; digit lists have the least digit first, as in the code.
pub mod Value
pub mod Canonical
pub mod Alphabet
pub mod Zeros
pub mod Digits
pub mod RoundTrip
mod Tests
use pumpy_v.Common.{
  ℕ, zero, suc, ◌+◌, ◌-◌, ◌*◌, ◌/◌, ◌%◌, Bool, true, false, Option, none, some, List, [], ◌∷◌, ◌++◌,
  map, reverse, replicate, if◌then◌else◌, ◌==◌, codes, length,
}

-- `while (carry > 0) { push(carry % base); carry = floor(carry / base); }` with fuel.
unfoldable pub spill : ℕ → ℕ → ℕ → List ℕ
spill zero base carry = []
spill (suc fuel) base carry =
    if carry == 0 then [] else carry % base ∷ spill fuel base (carry / base)

-- The inner loop of both functions, then their `while`: multiply the number by `m` and add `carry`.
unfoldable pub absorb : ℕ → ℕ → ℕ → List ℕ → List ℕ
unfolding spill
absorb m base carry [] = spill carry base carry
absorb m base carry (d ∷ ds) = (carry + d * m) % base ∷ absorb m base ((carry + d * m) / base) ds

-- The outer loop over the input.
unfoldable pub absorb_all : ℕ → ℕ → List ℕ → List ℕ → List ℕ
unfolding absorb
absorb_all m base ds [] = ds
absorb_all m base ds (x ∷ xs) = absorb_all m base (absorb m base x ds) xs

abbrev pub alphabet : List ℕ
alphabet = codes "123456789ABCDEFGHJKLMNPQRSTUVWXYZabcdefghijkmnopqrstuvwxyz"

abbrev pub get_or : List ℕ → ℕ → ℕ → ℕ
get_or [] i d = d
get_or (x ∷ xs) zero d = x
get_or (x ∷ xs) (suc i) d = get_or xs i d

-- `BASE58_ALPHABET[d]`
unfoldable pub symbol : ℕ → ℕ
symbol d = get_or alphabet d 0

abbrev pub index_from : ℕ → ℕ → List ℕ → Option ℕ
index_from i c [] = none
index_from i c (x ∷ xs) = if x == c then some i else index_from (suc i) c xs

-- `BASE58_ALPHABET.indexOf(c)`, `none` for -1
unfoldable pub index_of : ℕ → Option ℕ
index_of c = index_from 0 c alphabet

-- The rounds of `for (let k = 0; xs[k] === z && k < xs.length - 1; k++)`.
unfoldable pub lead : ℕ → List ℕ → ℕ
lead z [] = 0
lead z (x ∷ []) = 0
lead z (x ∷ y ∷ ys) = if x == z then suc (lead z (y ∷ ys)) else 0

unfoldable pub base58_encode : List ℕ → List ℕ
unfolding absorb_all symbol lead
base58_encode bytes =
    replicate (lead 0 bytes) (symbol 0) ++ map symbol (reverse (absorb_all 256 58 (0 ∷ []) bytes))

-- The loop of `base58Decode`; `none` is the error of an invalid character.
unfoldable pub decode_all : List ℕ → List ℕ → Option (List ℕ)
unfolding absorb index_of
decode_all bytes [] = some bytes
decode_all bytes (c ∷ str) = elim (index_of c) [
  | none ↦ none
  | some i ↦ decode_all (absorb 58 256 i bytes) str
]

abbrev finish : List ℕ → Option (List ℕ) → Option (List ℕ)
finish str none = none
finish str (some bytes) = some (reverse (bytes ++ replicate (lead (symbol 0) str) 0))

unfoldable pub base58_decode : List ℕ → Option (List ℕ)
unfolding decode_all lead symbol
base58_decode str = finish str (decode_all (0 ∷ []) str)

abbrev pub drop : ℕ → List ℕ → List ℕ
drop zero xs = xs
drop (suc n) [] = []
drop (suc n) (x ∷ xs) = drop n xs

-- `pubkeyFromKeypairBytes`: the second half of 64 bytes.
unfoldable pub pubkey_from_keypair_bytes : List ℕ → Option (List ℕ)
unfolding base58_encode
pubkey_from_keypair_bytes bytes =
    if length bytes == 64 then some (base58_encode (drop 32 bytes)) else none
