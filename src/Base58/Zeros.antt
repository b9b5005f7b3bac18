-- ===== src/Base58/Zeros.antt =====
-- settings.ts: leading zeros, and what is left without them.
use pumpy_v.Common.{
  ℕ, zero, suc, ◌+◌, ◌*◌, ◌<◌, ◌≡◌, refl, ap, ◌∙◌, ◌⊎◌, inl, inr, List, [], ◌∷◌, ◌++◌, reverse,
  replicate, arith, ◌==◌, if◌then◌else◌, Bool-cases, reverse-cons,
}
use pumpy_v.Base58.{lead}
use pumpy_v.Base58.Value.{read, Below}
use pumpy_v.Base58.Canonical.{IsTop, IsCanonical, IsTop-append}

-- What is left of a list without its leading zeros, its last element kept.
pub core : List ℕ → List ℕ
core [] = []
core (x ∷ []) = x ∷ []
core (x ∷ y ∷ ys) = if x == 0 then core (y ∷ ys) else x ∷ y ∷ ys

pub zeros-core : (xs : List ℕ) → xs ≡ replicate (lead 0 xs) 0 ++ core xs
unfolding core lead
zeros-core [] = refl
zeros-core (x ∷ []) = refl
zeros-core (x ∷ y ∷ ys) = ground (arith, zeros-core (y ∷ ys))

pub reverse-core-IsCanonical : (x : ℕ) (xs : List ℕ) → IsCanonical (reverse (core (x ∷ xs)))
unfolding core
reverse-core-IsCanonical x [] = elim (Bool-cases (x == 0)) [
  | inl e ↦ inl (ap (λ (d : ℕ). d ∷ []) (ground arith))
  | inr e ↦ inr (ground arith)
]
reverse-core-IsCanonical x (y ∷ ys) = elim (Bool-cases (x == 0)) [
  | inl e ↦ rw e (reverse-core-IsCanonical y ys)
  | inr e ↦ rw (e, reverse-cons x (y ∷ ys)) (inr (IsTop-append (reverse (y ∷ ys)) x (ground arith)))
]

pub core-Below : (n : ℕ) (xs : List ℕ) → Below n xs → Below n (core xs)
unfolding core
core-Below n [] b = tt
core-Below n (x ∷ []) b = b
core-Below n (x ∷ y ∷ ys) b = ground (arith, core-Below n (y ∷ ys) b.1)

pub Below-append : (n : ℕ) (xs ys : List ℕ) → Below n xs → Below n ys → Below n (xs ++ ys)
Below-append n [] ys b c = c
Below-append n (x ∷ xs) ys b c = (b.0, Below-append n xs ys b.1 c)

pub Below-reverse : (n : ℕ) (xs : List ℕ) → Below n xs → Below n (reverse xs)
Below-reverse n [] b = tt
Below-reverse n (x ∷ xs) b =
    rw (reverse-cons x xs) (Below-append n (reverse xs) (x ∷ []) (Below-reverse n xs b.1) (b.0, tt))

pub Below-zeros : (n k : ℕ) → 0 < n → Below n (replicate k 0)
Below-zeros n zero h = tt
Below-zeros n (suc k) h = (h, Below-zeros n k h)

pub read-zeros : (m k : ℕ) (xs : List ℕ) → read m 0 (replicate k 0 ++ xs) ≡ read m 0 xs
read-zeros m zero xs = refl
read-zeros m (suc k) xs =
    let start : 0 + m * 0 ≡ 0 = omega arith in
    ap (λ (v : ℕ). read m v (replicate k 0 ++ xs)) start ∙ read-zeros m k xs

lead-zeros : (k h : ℕ) (t : List ℕ) → (t ≡ []) ⊎ (0 < h) → lead 0 (replicate k 0 ++ h ∷ t) ≡ k
unfolding lead
lead-zeros zero h [] c = refl
lead-zeros zero h (x ∷ t) c = ground arith
lead-zeros (suc zero) h t c = ap suc (lead-zeros zero h t c)
lead-zeros (suc (suc k)) h t c = ap suc (lead-zeros (suc k) h t c)

reverse-IsTop : (ds : List ℕ) → IsTop ds → (h : ℕ) × (t : List ℕ) × (reverse ds ≡ h ∷ t) × (0 < h)
reverse-IsTop [] t = elim t [ ]
reverse-IsTop (d ∷ []) t = (d, [], refl, t)
reverse-IsTop (d ∷ e ∷ ds) t =
    let (h, rest, shape, pos) = reverse-IsTop (e ∷ ds) t in
    (h, rest ++ d ∷ [], reverse-cons d (e ∷ ds) ∙ ap (λ (r : List ℕ). r ++ d ∷ []) shape, pos)

pub lead-IsCanonical :
    (k : ℕ) (ds : List ℕ) → IsCanonical ds → lead 0 (replicate k 0 ++ reverse ds) ≡ k
lead-IsCanonical k ds (inl e) = rw e (lead-zeros k 0 [] (inl refl))
lead-IsCanonical k ds (inr t) =
    let (h, rest, shape, pos) = reverse-IsTop ds t in rw shape (lead-zeros k h rest (inr pos))

replicate-snoc : (k : ℕ) → replicate {A = ℕ} k 0 ++ 0 ∷ [] ≡ 0 ∷ replicate k 0
replicate-snoc zero = refl
replicate-snoc (suc k) = ap (◌∷◌ 0) (replicate-snoc k)

pub reverse-replicate : (k : ℕ) → reverse (replicate {A = ℕ} k 0) ≡ replicate k 0
reverse-replicate zero = refl
reverse-replicate (suc k) =
    reverse-cons 0 (replicate k 0)
    ∙ ap (λ (r : List ℕ). r ++ 0 ∷ []) (reverse-replicate k)
    ∙ replicate-snoc k
