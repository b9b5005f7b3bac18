-- ===== src/Chart/Window.antt =====
-- Dashboard.tsx: the trades that the "24h" chart counts.
use pumpy_v.Common.{
  ℕ, zero, suc, ◌+◌, ◌-◌, ◌*◌, ◌≤◌, ◌<◌, ◌≡◌, refl, ap, subst, ◌∙◌, inl, inr, Bool, true, false,
  Option, none, some, List, [], ◌∷◌, ◌++◌, if◌then◌else◌, Bool-cases, arith, ltb, ◌==◌, or_else,
}
use pumpy_v.Chart.{
  Trade, Clock, Point, ms_per_hour, epoch_hour_of, pnl_of, add_hour, in_window, enter_hour,
  hour_map, hour_points, day_chart,
}

module _ {N : Type 0} (c : Clock N) where
  -- The two maps agree on the buckets from `low` on.
  abbrev SameFrom : ℕ → (ℕ → Option N) → (ℕ → Option N) → Type 0
  SameFrom low m m' = (k : ℕ) → low ≤ k → m k ≡ m' k

  bucket_of : (k ts : ℕ) → (k == epoch_hour_of ts) ≡ true → k ≡ epoch_hour_of ts
  bucket_of k ts e = ground arith

  later_bucket : (low k ts : ℕ) → epoch_hour_of ts < low → low ≤ k → (k == epoch_hour_of ts) ≡ false
  later_bucket low k ts h l = ground arith

  hour_points-SameFrom :
      (n low bucket : ℕ) (cumulative : N) (m m' : ℕ → Option N)
      → SameFrom low m m'
      → low ≤ bucket
      → hour_points c n bucket cumulative m ≡ hour_points c n bucket cumulative m'
  unfolding hour_points
  hour_points-SameFrom zero low bucket cumulative m m' h l = refl
  hour_points-SameFrom (suc n) low bucket cumulative m m' h l =
      let sum_of : Option N → N = λ o. c.plus cumulative (or_else o c.zero_) in
      let point_of : N → Point N =
        λ sum. record { time = c.hour_label (bucket * ms_per_hour); pnl = sum } in
      ap (λ o. point_of (sum_of o) ∷ hour_points c n (suc bucket) (sum_of o) m) (h bucket l)
      ∙ ap (λ ps. point_of (sum_of (m' bucket)) ∷ ps)
          (hour_points-SameFrom n low (suc bucket) (sum_of (m' bucket)) m m' h (omega arith))

  enter_hour-SameFrom :
      (low : ℕ) (t : Option ℕ) (pnl : N) (m m' : ℕ → Option N)
      → SameFrom low m m'
      → SameFrom low (enter_hour c t pnl m) (enter_hour c t pnl m')
  enter_hour-SameFrom low none pnl m m' h = h
  enter_hour-SameFrom low (some ts) pnl m m' h = λ k l. elim (Bool-cases (k == epoch_hour_of ts)) [
    | inl e ↦
        rw (add_hour, e)
          (ap (λ o. some (c.plus (or_else o c.zero_) pnl))
            (h (epoch_hour_of ts) (subst (λ b. low ≤ b) (bucket_of k ts e) l)))
    | inr e ↦ rw (add_hour, e) (h k l)
  ]

  hour_map-SameFrom :
      (low cutoff : ℕ) (ts : List (Trade N)) (m m' : ℕ → Option N)
      → SameFrom low m m'
      → SameFrom low (hour_map c cutoff ts m) (hour_map c cutoff ts m')
  unfolding hour_map
  hour_map-SameFrom low cutoff [] m m' h = h
  hour_map-SameFrom low cutoff (t ∷ ts) m m' h =
      hour_map-SameFrom low cutoff ts _ _
        (enter_hour-SameFrom low (in_window c cutoff t.created_at) (pnl_of c t) m m' h)

  early_entry :
      (low : ℕ) (t : Trade N) (early : Bool) (ts : ℕ) (m : ℕ → Option N) (k : ℕ)
      → epoch_hour_of ts < low
      → low ≤ k
      → enter_hour c (if early then none else some ts) (pnl_of c t) m k ≡ m k
  early_entry low t true ts m k h l = refl
  early_entry low t false ts m k h l = rw (add_hour, later_bucket low k ts h l) refl

  -- A trade before the bucket `low` makes no difference from there on.
  early-SameFrom :
      (low cutoff : ℕ) (t : Trade N) (ts : ℕ) (m : ℕ → Option N)
      → t.created_at ≡ some ts
      → epoch_hour_of ts < low
      → SameFrom low (enter_hour c (in_window c cutoff t.created_at) (pnl_of c t) m) m
  early-SameFrom low cutoff t ts m e h =
      λ k l. rw (e) (early_entry low t (ltb ts cutoff) ts m k h l)

  drop_early :
      (low cutoff : ℕ) (before after : List (Trade N)) (t : Trade N) (ts : ℕ) (m : ℕ → Option N)
      → t.created_at ≡ some ts
      → epoch_hour_of ts < low
      → SameFrom low
          (hour_map c cutoff (before ++ t ∷ after) m)
          (hour_map c cutoff (before ++ after) m)
  unfolding hour_map
  drop_early low cutoff [] after t ts m e h =
      hour_map-SameFrom low cutoff after _ _ (early-SameFrom low cutoff t ts m e h)
  drop_early low cutoff (b ∷ before) after t ts m e h =
      drop_early low cutoff before after t ts _ e h

  -- A trade of the hour 24 hours before the present one is left out of the "24h" chart, also if less
  -- than 24 hours have passed since.
  pub day_chart_drops :
      (now ts : ℕ) (before after : List (Trade N)) (t : Trade N)
      → 24 * ms_per_hour ≤ now
      → t.created_at ≡ some ts
      → epoch_hour_of ts + 24 ≡ epoch_hour_of now
      → day_chart c now (before ++ t ∷ after) ≡ day_chart c now (before ++ after)
  unfolding day_chart
  day_chart_drops now ts before after t late e h =
      hour_points-SameFrom 24 (epoch_hour_of now - 23) (epoch_hour_of now - 23) c.zero_ _ _
        (drop_early (epoch_hour_of now - 23) (now - 24 * ms_per_hour) before after t ts (λ k. none)
          e (omega arith))
        (omega arith)
