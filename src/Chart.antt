-- ===== src/Chart.antt =====
-- The profit chart of artifacts/dashboard/src/pages/Dashboard.tsx. Times are milliseconds since the epoch; `N` is the type of
-- JavaScript's numbers, and the labels of hours and days are the platform's.
pub mod Window
mod Tests
use pumpy_v.Common.{
  ℕ, zero, suc, ◌+◌, ◌-◌, ◌*◌, ◌/◌, String, Bool, true, false, Option, none, some, List, [], ◌∷◌,
  if◌then◌else◌, ◌==◌, ltb, str_eq, map, or_else,
}

-- A trade, with its time if it has one.
pub record Trade (N : Type 0) : Type 0 where
  pub created_at : Option ℕ
  pub pnl_sol : Option N

pub record Clock (N : Type 0) : Type 0 where
  pub zero_ : N
  pub plus : N → N → N
  -- the label "HH:00" of a time, and its date as `toLocaleDateString` writes it
  pub hour_label : ℕ → String
  pub day_of : ℕ → String

abbrev pub ms_per_hour : ℕ
ms_per_hour = 60 * 60 * 1000

abbrev pub ms_per_day : ℕ
ms_per_day = 24 * 60 * 60 * 1000

abbrev pub epoch_hour_of : ℕ → ℕ
epoch_hour_of ms = ms / ms_per_hour

pub record Point (N : Type 0) : Type 0 where
  pub time : String
  pub pnl : N

module _ {N : Type 0} (c : Clock N) where
  abbrev pub pnl_of : Trade N → N
  pnl_of t = or_else t.pnl_sol c.zero_

  -- `hourMap`, with undefined as `none`.
  abbrev pub add_hour : ℕ → N → (ℕ → Option N) → ℕ → Option N
  add_hour bucket pnl m k =
      if k == bucket then some (c.plus (or_else (m bucket) c.zero_) pnl) else m k

  -- The time of a trade in the window, which begins at `cutoff`.
  abbrev pub in_window : ℕ → Option ℕ → Option ℕ
  in_window cutoff none = none
  in_window cutoff (some ts) = if ltb ts cutoff then none else some ts

  abbrev pub enter_hour : Option ℕ → N → (ℕ → Option N) → ℕ → Option N
  enter_hour none pnl m = m
  enter_hour (some ts) pnl m = add_hour (epoch_hour_of ts) pnl m

  -- The loop over the trades.
  unfoldable pub hour_map : ℕ → List (Trade N) → (ℕ → Option N) → ℕ → Option N
  hour_map cutoff [] m = m
  hour_map cutoff (t ∷ ts) m =
      hour_map cutoff ts (enter_hour (in_window cutoff t.created_at) (pnl_of t) m)

  -- The points from `bucket` on, `n` of them.
  unfoldable pub hour_points : ℕ → ℕ → N → (ℕ → Option N) → List (Point N)
  hour_points zero bucket cumulative m = []
  hour_points (suc n) bucket cumulative m =
      let sum : N = c.plus cumulative (or_else (m bucket) c.zero_) in
      record { time = c.hour_label (bucket * ms_per_hour); pnl = sum }
      ∷ hour_points n (suc bucket) sum m

  -- The "24h" chart at the time `now`, which is later than the first day of the epoch.
  unfoldable pub day_chart : ℕ → List (Trade N) → List (Point N)
  unfolding hour_map hour_points
  day_chart now trades =
      hour_points 24 (epoch_hour_of now - 23) c.zero_
        (hour_map (now - 24 * ms_per_hour) trades (λ k. none))

  abbrev pub add_day : String → N → (String → Option N) → String → Option N
  add_day day pnl m k = if str_eq k day then some (c.plus (or_else (m day) c.zero_) pnl) else m k

  abbrev pub enter_day : Option ℕ → N → (String → Option N) → String → Option N
  enter_day none pnl m = m
  enter_day (some ts) pnl m = add_day (c.day_of ts) pnl m

  unfoldable pub day_map : ℕ → List (Trade N) → (String → Option N) → String → Option N
  day_map cutoff [] m = m
  day_map cutoff (t ∷ ts) m =
      day_map cutoff ts (enter_day (in_window cutoff t.created_at) (pnl_of t) m)

  -- The names of the last `n` days.
  abbrev pub days_back : ℕ → ℕ → List String
  days_back zero now = []
  days_back (suc i) now = c.day_of (now - i * ms_per_day) ∷ days_back i now

  unfoldable pub day_points : List String → N → (String → Option N) → List (Point N)
  day_points [] cumulative m = []
  day_points (day ∷ days) cumulative m =
      let sum : N = c.plus cumulative (or_else (m day) c.zero_) in
      record { time = day; pnl = sum } ∷ day_points days sum m

  -- The "7d" chart.
  unfoldable pub week_chart : ℕ → List (Trade N) → List (Point N)
  unfolding day_map day_points
  week_chart now trades =
      day_points (days_back 7 now) c.zero_ (day_map (now - 7 * ms_per_day) trades (λ k. none))
