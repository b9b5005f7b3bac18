-- ===== src/Backtest/Drawdown.antt =====
-- Strategies.tsx: the drawdown of a curve is the largest of its falls.
use pumpy_v.Common.{
  ◌≡◌, refl, ap, ◌∙◌, ◌⊎◌, inl, inr, true, false, List, [], ◌∷◌, if◌then◌else◌, Bool-cases,
}
use pumpy_v.Backtest.{Doubles, drawdown_from, peak_to_trough_drawdown_sol}

module _ {N : Type 0} (d : Doubles N) where
  -- `a <= b` among numbers that are not NaN.
  abbrev pub NotAbove : N → N → Type 0
  NotAbove a b = d.greater a b ≡ false

  -- What the loop relies on, `N` being the numbers that are not NaN: the order is one, and rounding keeps
  -- it under a difference.
  pub record Laws : Type 0 where
    pub reflexive : (a : N) → NotAbove a a
    pub transitive : (a b c : N) → NotAbove a b → NotAbove b c → NotAbove a c
    pub asymmetric : (a b : N) → d.greater a b ≡ true → NotAbove b a
    pub monotone : (a b c : N) → NotAbove a b → NotAbove (d.minus a c) (d.minus b c)

  pub data Occurs : N → List N → Type 0 where
    first : (v : N) (vs : List N) → Occurs v (v ∷ vs)
    later : (v w : N) (vs : List N) → Occurs v vs → Occurs v (w ∷ vs)

  -- `a` stands in the curve, and `b` at the same place or after it.
  pub data Falls : N → N → List N → Type 0 where
    from_here : (a b : N) (vs : List N) → Occurs b (a ∷ vs) → Falls a b (a ∷ vs)
    from_later : (a b w : N) (vs : List N) → Falls a b vs → Falls a b (w ∷ vs)

  larger : N → N → N
  larger a b = if d.greater a b then a else b

  module _ (laws : Laws) where
    larger_left : (a b : N) → NotAbove a (larger a b)
    unfolding larger
    larger_left a b = elim (Bool-cases (d.greater a b)) [
      | inl e ↦ rw (larger, e) (laws.reflexive a)
      | inr e ↦ rw (larger, e) e
    ]

    larger_right : (a b : N) → NotAbove b (larger a b)
    unfolding larger
    larger_right a b = elim (Bool-cases (d.greater a b)) [
      | inl e ↦ rw (larger, e) (laws.asymmetric a b e)
      | inr e ↦ rw (larger, e) (laws.reflexive b)
    ]

    at_least_start :
        (vs : List N) (peak max_dd : N) → NotAbove max_dd (drawdown_from d peak max_dd vs)
    unfolding drawdown_from larger
    at_least_start [] peak max_dd = laws.reflexive max_dd
    at_least_start (v ∷ vs) peak max_dd =
        laws.transitive _ _ _ (larger_right (d.minus (larger v peak) v) max_dd)
          (at_least_start vs (larger v peak) (larger (d.minus (larger v peak) v) max_dd))

    -- A value that is no higher than the peak falls no further than the result.
    at_least_peak :
        (vs : List N) (peak max_dd a b : N)
        → NotAbove a peak
        → Occurs b vs
        → NotAbove (d.minus a b) (drawdown_from d peak max_dd vs)
    unfolding drawdown_from larger
    at_least_peak _ peak max_dd a _ h (first v vs) =
        laws.transitive _ _ _
          (laws.monotone a (larger v peak) v (laws.transitive a peak _ h (larger_right v peak)))
          (laws.transitive _ _ _ (larger_left (d.minus (larger v peak) v) max_dd)
            (at_least_start vs (larger v peak) (larger (d.minus (larger v peak) v) max_dd)))
    at_least_peak _ peak max_dd a _ h (later b w vs o) =
        at_least_peak vs (larger w peak) (larger (d.minus (larger w peak) w) max_dd) a b
          (laws.transitive a peak _ h (larger_right w peak)) o

    at_least_drops :
        (vs : List N) (peak max_dd a b : N)
        → Falls a b vs
        → NotAbove (d.minus a b) (drawdown_from d peak max_dd vs)
    unfolding drawdown_from larger
    at_least_drops _ peak max_dd _ _ (from_here _ _ _ (first a vs)) =
        laws.transitive _ _ _ (laws.monotone a (larger a peak) a (larger_left a peak)) (
          laws.transitive _ _ _ (larger_left (d.minus (larger a peak) a) max_dd)
            (at_least_start vs (larger a peak) (larger (d.minus (larger a peak) a) max_dd)))
    at_least_drops _ peak max_dd _ _ (from_here _ _ _ (later b a vs o)) =
        at_least_peak vs (larger a peak) (larger (d.minus (larger a peak) a) max_dd) a b
          (larger_left a peak) o
    at_least_drops _ peak max_dd _ _ (from_later a b w vs f) =
        at_least_drops vs (larger w peak) (larger (d.minus (larger w peak) w) max_dd) a b f

  -- The result is the start, a fall from the peak, or a fall of the curve.
  data Reached (peak max_dd : N) (vs : List N) (r : N) : Type 0 where
    at_start : r ≡ max_dd → Reached peak max_dd vs r
    from_peak : (b : N) → Occurs b vs → r ≡ d.minus peak b → Reached peak max_dd vs r
    a_fall : (a b : N) → Falls a b vs → r ≡ d.minus a b → Reached peak max_dd vs r

  larger-cases : (a b : N) → (larger a b ≡ a) ⊎ (larger a b ≡ b)
  unfolding larger
  larger-cases a b = elim (Bool-cases (d.greater a b)) [
    | inl e ↦ inl (rw (larger, e) refl)
    | inr e ↦ inr (rw (larger, e) refl)
  ]

  extend :
      (peak max_dd v r : N) (vs : List N)
      → Reached (larger v peak) (larger (d.minus (larger v peak) v) max_dd) vs r
      → Reached peak max_dd (v ∷ vs) r
  extend peak max_dd v r vs (a_fall a b f e) = a_fall a b (from_later a b v vs f) e
  extend peak max_dd v r vs (from_peak b o e) = elim (larger-cases v peak) [
    | inl l ↦ a_fall v b (from_here v b vs (later b v vs o)) (e ∙ ap (λ x. d.minus x b) l)
    | inr l ↦ from_peak b (later b v vs o) (e ∙ ap (λ x. d.minus x b) l)
  ]
  extend peak max_dd v r vs (at_start e) = elim (larger-cases (d.minus (larger v peak) v) max_dd) [
    | inl l ↦ elim (larger-cases v peak) [
      | inl k ↦ a_fall v v (from_here v v vs (first v vs)) (e ∙ l ∙ ap (λ x. d.minus x v) k)
      | inr k ↦ from_peak v (first v vs) (e ∙ l ∙ ap (λ x. d.minus x v) k)
    ]
    | inr l ↦ at_start (e ∙ l)
  ]

  reached :
      (vs : List N) (peak max_dd : N) → Reached peak max_dd vs (drawdown_from d peak max_dd vs)
  unfolding drawdown_from larger
  reached [] peak max_dd = at_start refl
  reached (v ∷ vs) peak max_dd =
      extend peak max_dd v _ vs
        (reached vs (larger v peak) (larger (d.minus (larger v peak) v) max_dd))

  IsLargest : List N → N → Type 0
  IsLargest curve r = (r ≡ d.zero_) ⊎ ((a : N) × (b : N) × Falls a b curve × (r ≡ d.minus a b))

  from_first :
      (v r : N) (vs : List N) → Reached v (larger (d.minus v v) d.zero_) vs r → IsLargest (v ∷ vs) r
  unfolding IsLargest
  from_first v r vs (a_fall a b f e) = inr (a, b, from_later a b v vs f, e)
  from_first v r vs (from_peak b o e) = inr (v, b, from_here v b vs (later b v vs o), e)
  from_first v r vs (at_start e) = elim (larger-cases (d.minus v v) d.zero_) [
    | inl l ↦ inr (v, v, from_here v v vs (first v vs), e ∙ l)
    | inr l ↦ inl (e ∙ l)
  ]

  -- For a curve of finite numbers, under the laws above: the drawdown is at least the difference between any value and
  -- any value that does not come before it, and it is zero or one of those differences.
  pub drawdown_largest :
      (curve : List N)
      → Laws
      → ((v : N) → Occurs v curve → d.greater v d.neg_infinity ≡ true)
      → ((a b : N) → Falls a b curve → NotAbove (d.minus a b) (peak_to_trough_drawdown_sol d curve))
        × ((peak_to_trough_drawdown_sol d curve ≡ d.zero_)
            ⊎ ((a : N) × (b : N) × Falls a b curve
                × (peak_to_trough_drawdown_sol d curve ≡ d.minus a b)))
  unfolding peak_to_trough_drawdown_sol IsLargest larger
  drawdown_largest [] laws finite =
      (λ a b f. at_least_drops laws [] d.neg_infinity d.zero_ a b f, inl refl)
  drawdown_largest (v ∷ vs) laws finite = (
    λ a b f. at_least_drops laws (v ∷ vs) d.neg_infinity d.zero_ a b f,
    from_first v _ vs (rw (finite v (first v vs)) (reached vs v (larger (d.minus v v) d.zero_))),
  )
