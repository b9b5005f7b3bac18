-- ===== src/Base58/Canonical.antt =====
-- settings.ts: the loops leave no superfluous digit, and such a digit list is the only one of its value.
use native.Mathlib.Nat.{mod-add-div, zero-div, zero-mod}
use pumpy_v.Common.{
  ℕ, zero, suc, ◌+◌, ◌*◌, ◌/◌, ◌%◌, ◌≤◌, ◌<◌, ◌≡◌, ◌≢◌, refl, sym, ap, ap₂, ◌∙◌, ◌⊎◌, inl, inr,
  List, [], ◌∷◌, ◌++◌, arith, ◌==◌, Bool-cases, false, subst,
}
use pumpy_v.Base58.{spill, absorb, absorb_all}
use pumpy_v.Base58.Value.{value, Below, smaller}

-- The greatest digit is not zero.
abbrev pub IsTop : List ℕ → Type 0
IsTop [] = ⊥
IsTop (d ∷ []) = 0 < d
IsTop (d ∷ e ∷ ds) = IsTop (e ∷ ds)

abbrev pub IsCanonical : List ℕ → Type 0
IsCanonical ds = (ds ≡ 0 ∷ []) ⊎ IsTop ds

pub IsTop-cons : (d : ℕ) (ds : List ℕ) → IsTop ds → IsTop (d ∷ ds)
IsTop-cons d [] t = elim t [ ]
IsTop-cons d (e ∷ ds) t = t

pub IsTop-append : (ds : List ℕ) (d : ℕ) → 0 < d → IsTop (ds ++ d ∷ [])
IsTop-append [] d h = h
IsTop-append (e ∷ ds) d h = IsTop-cons e (ds ++ d ∷ []) (IsTop-append ds d h)

spill_zero : (fuel base : ℕ) → spill fuel base 0 ≡ []
unfolding spill
spill_zero zero base = refl
spill_zero (suc fuel) base = refl

all_low : (x base : ℕ) → 2 ≤ base → x / base ≡ 0 → x % base ≡ x
all_low x base h e = omega (arith, mod-add-div x base, ap (λ (t : ℕ). base * t) e)

-- A nonzero carry is spilled with a nonzero digit at the top.
spill-IsTop :
    (fuel base carry : ℕ) → 2 ≤ base → 0 < carry → carry ≤ fuel → IsTop (spill fuel base carry)
unfolding spill
spill-IsTop zero base carry h p k = absurd (omega arith)
spill-IsTop (suc fuel) base carry h p k =
    let some_left : (carry == 0) ≡ false = ground arith in
    elim (Bool-cases (carry / base == 0)) [
      | inl e ↦
          let none_left : carry / base ≡ 0 = ground arith in
          rw (some_left, none_left, spill_zero fuel base, all_low carry base h none_left) p
      | inr e ↦ rw some_left (
          IsTop-cons (carry % base) (spill fuel base (carry / base)) (
            spill-IsTop fuel base (carry / base) h (ground arith)
              (smaller fuel base carry h k some_left)))
    ]

-- One digit that is not zero, and what is left of it.
last-IsTop : (x base : ℕ) → 2 ≤ base → 0 < x → IsTop (x % base ∷ spill (x / base) base (x / base))
last-IsTop x base h p = elim (Bool-cases (x / base == 0)) [
  | inl e ↦
      let none_left : x / base ≡ 0 = ground arith in
      rw (none_left, spill_zero 0 base, all_low x base h none_left) p
  | inr e ↦
      IsTop-cons (x % base) (spill (x / base) base (x / base))
        (spill-IsTop (x / base) base (x / base) h (ground arith) (omega arith))
]

absorb-IsTop :
    (m base carry : ℕ) (ds : List ℕ) → 2 ≤ base → 1 ≤ m → IsTop ds → IsTop (absorb m base carry ds)
unfolding absorb
absorb-IsTop m base carry [] h k t = elim t [ ]
absorb-IsTop m base carry (d ∷ []) h k t = last-IsTop (carry + d * m) base h (grind arith)
absorb-IsTop m base carry (d ∷ e ∷ ds) h k t =
    IsTop-cons ((carry + d * m) % base) (absorb m base ((carry + d * m) / base) (e ∷ ds))
      (absorb-IsTop m base ((carry + d * m) / base) (e ∷ ds) h k t)

zero_case : (m base carry : ℕ) → 2 ≤ base → IsCanonical (absorb m base carry (0 ∷ []))
unfolding absorb
zero_case m base carry h = elim (Bool-cases (carry == 0)) [
  | inl e ↦
      let none : carry + 0 * m ≡ 0 = ground arith in
      rw (none, zero-div base, spill_zero 0 base, zero-mod base) (inl refl)
  | inr e ↦ inr (last-IsTop (carry + 0 * m) base h (ground arith))
]

pub absorb-IsCanonical :
    (m base carry : ℕ) (ds : List ℕ)
    → 2 ≤ base
    → 1 ≤ m
    → IsCanonical ds
    → IsCanonical (absorb m base carry ds)
absorb-IsCanonical m base carry ds h k (inr t) = inr (absorb-IsTop m base carry ds h k t)
absorb-IsCanonical m base carry ds h k (inl e) =
    subst (λ (xs : List ℕ). IsCanonical (absorb m base carry xs)) (sym e) (zero_case m base carry h)

pub absorb_all-IsCanonical :
    (m base : ℕ) (ds xs : List ℕ)
    → 2 ≤ base
    → 1 ≤ m
    → IsCanonical ds
    → IsCanonical (absorb_all m base ds xs)
unfolding absorb_all
absorb_all-IsCanonical m base ds [] h k c = c
absorb_all-IsCanonical m base ds (x ∷ xs) h k c =
    absorb_all-IsCanonical m base (absorb m base x ds) xs h k (absorb-IsCanonical m base x ds h k c)

value_pos : (base : ℕ) (ds : List ℕ) → 1 ≤ base → IsTop ds → 0 < value base ds
value_pos base [] h t = elim t [ ]
value_pos base (d ∷ []) h t = omega arith
value_pos base (d ∷ e ∷ ds) h t =
    let rest : 0 < value base (e ∷ ds) = value_pos base (e ∷ ds) h t in grind (arith, rest)

not_less : (base d e v w : ℕ) → d < base → v < w → d + base * v ≢ e + base * w
not_less base d e v w h l p =
    let step : base * v + base ≤ base * w = grind (arith, l) in omega arith

same_low :
    (base d e v w : ℕ) → d < base → e < base → d + base * v ≡ e + base * w → (d ≡ e) × (v ≡ w)
same_low base d e v w h k p =
    let above : ¬ (v < w) = λ l. not_less base d e v w h l p in
    let below : ¬ (w < v) = λ l. not_less base e d w v k l (sym p) in
    let same : v ≡ w = omega arith in (omega (arith, ap (λ (x : ℕ). base * x) same, p), same)

zero_value : (base : ℕ) → value base (0 ∷ []) ≡ 0
zero_value base = omega arith

top_unique :
    (base : ℕ) (ds es : List ℕ)
    → 2 ≤ base
    → Below base ds
    → Below base es
    → IsTop ds
    → IsTop es
    → value base ds ≡ value base es
    → ds ≡ es
top_unique base [] es h b c t u p = elim t [ ]
top_unique base (d ∷ ds) [] h b c t u p = elim u [ ]
top_unique base (d ∷ []) (e ∷ []) h b c t u p =
    ap (λ (x : ℕ). x ∷ []) (same_low base d e 0 0 b.0 c.0 p).0
top_unique base (d ∷ []) (e ∷ f ∷ es) h b c t u p = absurd (
    omega (
      arith,
      value_pos base (f ∷ es) (omega arith) u,
      same_low base d e 0 (value base (f ∷ es)) b.0 c.0 p,
    ))
top_unique base (d ∷ g ∷ ds) (e ∷ []) h b c t u p = absurd (
    omega (
      arith,
      value_pos base (g ∷ ds) (omega arith) t,
      same_low base d e (value base (g ∷ ds)) 0 b.0 c.0 p,
    ))
top_unique base (d ∷ g ∷ ds) (e ∷ f ∷ es) h b c t u p =
    let (low, high) = same_low base d e (value base (g ∷ ds)) (value base (f ∷ es)) b.0 c.0 p in
    ap₂ ◌∷◌ low (top_unique base (g ∷ ds) (f ∷ es) h b.1 c.1 t u high)

-- Two canonical digit lists of one value are the same.
pub canonical_unique :
    (base : ℕ) (ds es : List ℕ)
    → 2 ≤ base
    → Below base ds
    → Below base es
    → IsCanonical ds
    → IsCanonical es
    → value base ds ≡ value base es
    → ds ≡ es
canonical_unique base ds es h b c (inl d) (inl e) p = d ∙ sym e
canonical_unique base ds es h b c (inr t) (inr u) p = top_unique base ds es h b c t u p
canonical_unique base ds es h b c (inl d) (inr u) p =
    absurd (omega (arith, value_pos base es (omega arith) u, p, ap (value base) d, zero_value base))
canonical_unique base ds es h b c (inr t) (inl e) p =
    absurd (omega (arith, value_pos base ds (omega arith) t, p, ap (value base) e, zero_value base))
