-- ===== src/Base58/Value.antt =====
-- settings.ts: the number that a digit list stands for, and that the loops compute it.
use native.Mathlib.Nat.{div-lt_self, mod-add-div, mod-lt}
use pumpy_v.Common.{
  ℕ, zero, suc, ◌+◌, ◌*◌, ◌/◌, ◌%◌, ◌≤◌, ◌<◌, ◌≡◌, refl, ap, ◌∙◌, List, [], ◌∷◌, ◌++◌, reverse,
  arith, ◌==◌, All, Bool-cases, inl, inr, false, reverse-cons,
}
use pumpy_v.Base58.{spill, absorb, absorb_all}

-- Least digit first.
abbrev pub value : ℕ → List ℕ → ℕ
value base [] = 0
value base (d ∷ ds) = d + base * value base ds

-- Greatest digit first, behind what was read before.
abbrev pub read : ℕ → ℕ → List ℕ → ℕ
read m acc [] = acc
read m acc (x ∷ xs) = read m (x + m * acc) xs

abbrev pub Below : ℕ → List ℕ → Type 0
Below base ds = All (λ d. d < base) ds

pub smaller :
    (fuel base carry : ℕ) → 2 ≤ base → carry ≤ suc fuel → (carry == 0) ≡ false → carry / base ≤ fuel
smaller fuel base carry h k e =
    let positive : 1 ≤ carry = ground arith in
    let less : carry / base < carry = div-lt_self positive h in omega arith

-- Enough fuel: the carry itself.
pub value-spill :
    (fuel base carry : ℕ) → 2 ≤ base → carry ≤ fuel → value base (spill fuel base carry) ≡ carry
unfolding spill
value-spill zero base carry h k = omega arith
value-spill (suc fuel) base carry h k = elim (Bool-cases (carry == 0)) [
  | inl e ↦ rw e (ground arith)
  | inr e ↦
      rw (e, value-spill fuel base (carry / base) h (smaller fuel base carry h k e))
        (mod-add-div carry base)
]

regroup :
    (x y q base m v d carry : ℕ)
    → x ≡ carry + d * m
    → y + base * q ≡ x
    → y + base * (q + m * v) ≡ carry + m * (d + base * v)
regroup x y q base m v d carry e f = grind (arith, e, f)

pub value-absorb :
    (m base carry : ℕ) (ds : List ℕ)
    → 2 ≤ base
    → value base (absorb m base carry ds) ≡ carry + m * value base ds
unfolding absorb
value-absorb m base carry [] h = rw (value-spill carry base carry h (omega arith)) (omega arith)
value-absorb m base carry (d ∷ ds) h = rw (value-absorb m base ((carry + d * m) / base) ds h) (
    regroup (carry + d * m) ((carry + d * m) % base) ((carry + d * m) / base) base m (value base ds)
      d carry refl (mod-add-div (carry + d * m) base))

pub value-absorb_all :
    (m base : ℕ) (ds xs : List ℕ)
    → 2 ≤ base
    → value base (absorb_all m base ds xs) ≡ read m (value base ds) xs
unfolding absorb_all
value-absorb_all m base ds [] h = refl
value-absorb_all m base ds (x ∷ xs) h =
    value-absorb_all m base (absorb m base x ds) xs h
    ∙ ap (λ (v : ℕ). read m v xs) (value-absorb m base x ds h)

pub read-append : (m acc : ℕ) (xs ys : List ℕ) → read m acc (xs ++ ys) ≡ read m (read m acc xs) ys
read-append m acc [] ys = refl
read-append m acc (x ∷ xs) ys = read-append m (x + m * acc) xs ys

-- Reading a number from its greatest digit on is its value.
pub read-reverse : (m : ℕ) (ds : List ℕ) → read m 0 (reverse ds) ≡ value m ds
read-reverse m [] = refl
read-reverse m (d ∷ ds) =
    rw (reverse-cons d ds, read-append m 0 (reverse ds) (d ∷ []), read-reverse m ds)

pub spill-Below : (fuel base carry : ℕ) → 2 ≤ base → Below base (spill fuel base carry)
unfolding spill
spill-Below zero base carry h = tt
spill-Below (suc fuel) base carry h = elim (Bool-cases (carry == 0)) [
  | inl e ↦ rw e tt
  | inr e ↦ rw e (mod-lt carry (omega arith), spill-Below fuel base (carry / base) h)
]

pub absorb-Below : (m base carry : ℕ) (ds : List ℕ) → 2 ≤ base → Below base (absorb m base carry ds)
unfolding absorb
absorb-Below m base carry [] h = spill-Below carry base carry h
absorb-Below m base carry (d ∷ ds) h =
    (mod-lt (carry + d * m) (omega arith), absorb-Below m base ((carry + d * m) / base) ds h)

pub absorb_all-Below :
    (m base : ℕ) (ds xs : List ℕ) → 2 ≤ base → Below base ds → Below base (absorb_all m base ds xs)
unfolding absorb_all
absorb_all-Below m base ds [] h b = b
absorb_all-Below m base ds (x ∷ xs) h b =
    absorb_all-Below m base (absorb m base x ds) xs h (absorb-Below m base x ds h)
