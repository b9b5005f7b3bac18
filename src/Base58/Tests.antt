-- ===== src/Base58/Tests.antt =====
-- settings.ts: a short text, and one with leading zeros.
use pumpy_v.Common.{ℕ, List, map, ◌≡◌, refl, none, some, [], ◌∷◌, codes, arith}
use pumpy_v.Base58.{symbol, base58_encode, base58_decode, pubkey_from_keypair_bytes}
use pumpy_v.Base58.Value.{Below}
use pumpy_v.Base58.RoundTrip.{decode-encode, encode-decode}

hello : base58_encode (104 ∷ 105 ∷ []) ≡ codes "8wr"
unfolding base58_encode
hello = refl

zeros_kept : base58_encode (0 ∷ 0 ∷ 255 ∷ []) ≡ codes "115Q"
unfolding base58_encode
zeros_kept = refl

-- The empty list is the exception: it is written as "1", which reads back as one zero byte.
empty_text : (base58_encode [] ≡ codes "1") × (base58_decode (codes "1") ≡ some (0 ∷ []))
unfolding base58_encode base58_decode
empty_text = (refl, refl)

bad_character : base58_decode (codes "0") ≡ none
unfolding base58_decode
bad_character = refl

short_key : pubkey_from_keypair_bytes (1 ∷ 2 ∷ []) ≡ none
unfolding pubkey_from_keypair_bytes
short_key = refl

decode-encode_example : base58_decode (base58_encode (0 ∷ 7 ∷ 255 ∷ [])) ≡ some (0 ∷ 7 ∷ 255 ∷ [])
decode-encode_example = decode-encode 0 (7 ∷ 255 ∷ []) (omega arith)

encode-decode_example :
    (bytes : List ℕ) × (base58_decode (map symbol (0 ∷ 57 ∷ 8 ∷ [])) ≡ some bytes)
    × Below 256 bytes
    × (base58_encode bytes ≡ map symbol (0 ∷ 57 ∷ 8 ∷ []))
encode-decode_example = encode-decode 0 (57 ∷ 8 ∷ []) (omega arith)
