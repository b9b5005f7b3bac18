-- ===== src/Base58/RoundTrip.antt =====
-- settings.ts: decoding undoes encoding, and encoding undoes decoding.
use pumpy_v.Common.{
  ℕ, ◌≡◌, sym, ap, ◌∙◌, some, List, ◌∷◌, [], ◌++◌, map, reverse, replicate, arith, reverse-append,
  reverse-reverse, map-append,
}
use pumpy_v.Base58.{absorb_all, symbol, lead, base58_encode, base58_decode}
use pumpy_v.Base58.Value.{Below}
use pumpy_v.Base58.Alphabet.{decode_all-symbol, lead-symbol, map-symbol_zeros}
use pumpy_v.Base58.Zeros.{core, zeros-core, reverse-replicate}
use pumpy_v.Base58.Digits.{padded, padded-Below, lead-padded, absorb_all-padded, rebuilt}

-- A text of `k` first symbols and the symbols of `xs`.
symbols_of_zeros :
    (k : ℕ) (xs : List ℕ)
    → replicate k (symbol 0) ++ map symbol xs ≡ map symbol (replicate k 0 ++ xs)
symbols_of_zeros k xs = sym (
    map-append symbol (replicate k 0) xs
    ∙ ap (λ (zs : List ℕ). zs ++ map symbol xs) (map-symbol_zeros k))

encode_padded :
    (x : ℕ) (xs : List ℕ)
    → base58_encode (x ∷ xs) ≡ map symbol (padded 256 58 (omega arith) (omega arith) x xs)
unfolding base58_encode
encode_padded x xs =
    symbols_of_zeros (lead 0 (x ∷ xs)) (reverse (absorb_all 256 58 (0 ∷ []) (x ∷ xs)))

-- Encoding any nonempty list of bytes, leading zeros included, and decoding the text gives the bytes
-- back.
pub decode-encode :
    (x : ℕ) (xs : List ℕ)
    → Below 256 (x ∷ xs)
    → base58_decode (base58_encode (x ∷ xs)) ≡ some (x ∷ xs)
unfolding base58_decode
decode-encode x xs b =
    let ok = padded-Below 256 58 (omega arith) (omega arith) x xs in
    let digits = padded 256 58 (omega arith) (omega arith) x xs in
    rw
      (
        encode_padded x xs,
        decode_all-symbol (0 ∷ []) digits ok,
        lead-symbol digits ok,
        lead-padded 256 58 (omega arith) (omega arith) x xs,
        absorb_all-padded 256 58 (omega arith) (omega arith) x xs b,
      )
      (ap some (rebuilt (x ∷ xs)))

-- The text of 58-digits is read as their bytes, leading zeros included.
decode_padded :
    (x : ℕ) (xs : List ℕ)
    → Below 58 (x ∷ xs)
    → base58_decode (map symbol (x ∷ xs)) ≡ some (padded 58 256 (omega arith) (omega arith) x xs)
unfolding base58_decode
decode_padded x xs b =
    rw (decode_all-symbol (0 ∷ []) (x ∷ xs) b, lead-symbol (x ∷ xs) b)
      (ap some (
        reverse-append (absorb_all 58 256 (0 ∷ []) (x ∷ xs)) (replicate (lead 0 (x ∷ xs)) 0)
        ∙ ap (λ (zs : List ℕ). zs ++ reverse (absorb_all 58 256 (0 ∷ []) (x ∷ xs)))
            (reverse-replicate (lead 0 (x ∷ xs)))))

-- Encoding the bytes of 58-digits gives the text of the digits.
encode_bytes :
    (x : ℕ) (xs : List ℕ)
    → Below 58 (x ∷ xs)
    → base58_encode (padded 58 256 (omega arith) (omega arith) x xs) ≡ map symbol (x ∷ xs)
unfolding base58_encode
encode_bytes x xs b =
    rw
      (
        lead-padded 58 256 (omega arith) (omega arith) x xs,
        absorb_all-padded 58 256 (omega arith) (omega arith) x xs b,
        reverse-reverse (core (x ∷ xs)),
        symbols_of_zeros (lead 0 (x ∷ xs)) (core (x ∷ xs)),
      )
      (ap (map symbol) (sym (zeros-core (x ∷ xs))))

-- Every nonempty text over the alphabet, leading "1"s included, is read as bytes below 256 whose encoding
-- is the text.
pub encode-decode :
    (x : ℕ) (xs : List ℕ)
    → Below 58 (x ∷ xs)
    → (bytes : List ℕ) × (base58_decode (map symbol (x ∷ xs)) ≡ some bytes)
      × Below 256 bytes
      × (base58_encode bytes ≡ map symbol (x ∷ xs))
encode-decode x xs b = (
  padded 58 256 (omega arith) (omega arith) x xs,
  decode_padded x xs b,
  padded-Below 58 256 (omega arith) (omega arith) x xs,
  encode_bytes x xs b,
)
