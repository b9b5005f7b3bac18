-- ===== src/Base58/Digits.antt =====
-- settings.ts: writing the digits of one base in another and back, the step that both functions share.
use pumpy_v.Common.{
  ℕ, ◌≡◌, refl, ◌≤◌, sym, ap, ap₂, ◌∙◌, inl, List, [], ◌∷◌, ◌++◌, reverse, replicate, arith,
  reverse-append, reverse-reverse,
}
use pumpy_v.Base58.{absorb_all, lead}
use pumpy_v.Base58.Value.{value, read, Below, value-absorb_all, read-reverse, absorb_all-Below}
use pumpy_v.Base58.Canonical.{IsCanonical, absorb_all-IsCanonical, canonical_unique}
use pumpy_v.Base58.Zeros.{
  core, zeros-core, reverse-core-IsCanonical, core-Below, Below-append, Below-reverse, Below-zeros,
  read-zeros, lead-IsCanonical, reverse-replicate,
}

module _ (m base : ℕ) (m_ok : 2 ≤ m) (base_ok : 2 ≤ base) (x : ℕ) (xs : List ℕ) where
  -- The digits in `base` of a list of digits in `m`, the leading zeros kept.
  abbrev pub padded : List ℕ
  padded = replicate (lead 0 (x ∷ xs)) 0 ++ reverse (absorb_all m base (0 ∷ []) (x ∷ xs))

  digits-IsCanonical : IsCanonical (absorb_all m base (0 ∷ []) (x ∷ xs))
  digits-IsCanonical =
      absorb_all-IsCanonical m base (0 ∷ []) (x ∷ xs) base_ok (omega arith) (inl refl)

  pub padded-Below : Below base padded
  padded-Below =
      Below-append base (replicate (lead 0 (x ∷ xs)) 0)
        (reverse (absorb_all m base (0 ∷ []) (x ∷ xs)))
        (Below-zeros base (lead 0 (x ∷ xs)) (omega arith))
        (Below-reverse base (absorb_all m base (0 ∷ []) (x ∷ xs))
          (absorb_all-Below m base (0 ∷ []) (x ∷ xs) base_ok (omega arith, tt)))

  pub lead-padded : lead 0 padded ≡ lead 0 (x ∷ xs)
  lead-padded =
      lead-IsCanonical (lead 0 (x ∷ xs)) (absorb_all m base (0 ∷ []) (x ∷ xs)) digits-IsCanonical

  input_value : read m 0 (x ∷ xs) ≡ value m (reverse (core (x ∷ xs)))
  input_value =
      ap (read m 0) (zeros-core (x ∷ xs))
      ∙ read-zeros m (lead 0 (x ∷ xs)) (core (x ∷ xs))
      ∙ ap (read m 0) (sym (reverse-reverse (core (x ∷ xs))))
      ∙ read-reverse m (reverse (core (x ∷ xs)))

  zero_start : (n : ℕ) → value n (0 ∷ []) ≡ 0
  zero_start n = omega arith

  value-padded : value m (absorb_all base m (0 ∷ []) padded) ≡ value m (reverse (core (x ∷ xs)))
  value-padded =
      value-absorb_all base m (0 ∷ []) padded m_ok
      ∙ ap (λ (v : ℕ). read base v padded) (zero_start m)
      ∙ read-zeros base (lead 0 (x ∷ xs)) (reverse (absorb_all m base (0 ∷ []) (x ∷ xs)))
      ∙ read-reverse base (absorb_all m base (0 ∷ []) (x ∷ xs))
      ∙ value-absorb_all m base (0 ∷ []) (x ∷ xs) base_ok
      ∙ ap (λ (v : ℕ). read m v (x ∷ xs)) (zero_start base)
      ∙ input_value

  -- Writing the digits back in the first base gives the list without its leading zeros.
  pub absorb_all-padded :
      Below m (x ∷ xs) → absorb_all base m (0 ∷ []) padded ≡ reverse (core (x ∷ xs))
  absorb_all-padded below =
      canonical_unique m _ _ m_ok (absorb_all-Below base m (0 ∷ []) padded m_ok (omega arith, tt))
        (Below-reverse m (core (x ∷ xs)) (core-Below m (x ∷ xs) below))
        (absorb_all-IsCanonical base m (0 ∷ []) padded m_ok (omega arith) (inl refl))
        (reverse-core-IsCanonical x xs) value-padded

-- The leading zeros and the rest, both in the order of the text.
pub rebuilt : (xs : List ℕ) → reverse (reverse (core xs) ++ replicate (lead 0 xs) 0) ≡ xs
rebuilt xs =
    reverse-append (reverse (core xs)) (replicate (lead 0 xs) 0)
    ∙ ap₂ ◌++◌ (reverse-replicate (lead 0 xs)) (reverse-reverse (core xs))
    ∙ sym (zeros-core xs)
