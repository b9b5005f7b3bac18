-- ===== src/Metrics/Bounds.antt =====
-- token-metrics.ts: the days and the limit of a query.
use pumpy_v.Common.{ℕ, ◌≡◌, refl, ◌≤◌, inl, inr, true, false, Option, some, Bool-cases, arith}
use pumpy_v.Metrics.{Num, nan, number, Order, min_of, max_of, param, days_of, limit_of}

-- What the proofs take of the comparison of finite numbers.
pub record Laws {N : Type 0} (order : Order N) : Type 0 where
  pub asymmetric : (a b : N) → order.less a b ≡ true → order.less b a ≡ false
  pub monotone : (m n : ℕ) → m ≤ n → order.less (order.literal n) (order.literal m) ≡ false

module _ {N : Type 0} (order : Order N) where
  -- A number that is NaN, or between the two literals.
  abbrev pub Within : ℕ → ℕ → Num N → Type 0
  Within low high nan = Unit {0}
  Within low high (number n) =
      (order.less n (order.literal low) ≡ false) × (order.less (order.literal high) n ≡ false)

  AtMost : ℕ → Num N → Type 0
  AtMost high nan = Unit {0}
  AtMost high (number n) = order.less (order.literal high) n ≡ false

  min_of-AtMost : (high : ℕ) (x : Num N) → Laws order → AtMost high (min_of order high x)
  unfolding AtMost
  min_of-AtMost high nan laws = tt
  min_of-AtMost high (number x) laws = elim (Bool-cases (order.less x (order.literal high))) [
    | inl e ↦ rw (min_of, e) (laws.asymmetric x (order.literal high) e)
    | inr e ↦ rw (min_of, e) (laws.monotone high high (omega arith))
  ]

  max_of-Within :
      (low high : ℕ) (x : Num N)
      → Laws order
      → low ≤ high
      → AtMost high x
      → Within low high (max_of order low x)
  unfolding AtMost
  max_of-Within low high nan laws le h = tt
  max_of-Within low high (number x) laws le h =
      elim (Bool-cases (order.less x (order.literal low))) [
        | inl e ↦ rw (max_of, e) (laws.monotone low low (omega arith), laws.monotone low high le)
        | inr e ↦ rw (max_of, e) (e, h)
      ]

  -- Whatever a query asks for, it looks back between 1 and 30 days and has a limit between 1 and 5000, or one that is NaN; a
  -- parameter that is NaN stays NaN.
  pub query_bounds :
      (days limit : Option (Num N))
      → Laws order
      → Within 1 30 (days_of order days)
        × Within 1 5000 (limit_of order limit)
        × (limit_of order (some nan) ≡ nan)
        × (days_of order (some nan) ≡ nan)
  unfolding days_of limit_of
  query_bounds days limit laws = (
    max_of-Within 1 30 _ laws (omega arith) (min_of-AtMost 30 (param order days 7) laws),
    max_of-Within 1 5000 _ laws (omega arith) (min_of-AtMost 5000 (param order limit 1000) laws),
    refl,
    refl,
  )
