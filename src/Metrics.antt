-- ===== src/Metrics.antt =====
-- artifacts/api-server/src/routes/token-metrics.ts over the table of lib/db/src/schema/token-metrics.ts. JavaScript's finite numbers
-- are the type `N`; the comparison of times, the order and the limit of a query are the database's (Sql).
pub mod Batches
pub mod Bounds
mod Tests
use pumpy_v.Common.{
  ℕ, zero, suc, ◌+◌, String, Bool, true, false, Option, none, some, List, [], ◌∷◌, ◌++◌,
  if◌then◌else◌, ◌&&◌, keep, any, map, length, str_eq, is_some,
}
use pumpy_v.Tx.{Run, Tx, statement}

pub data Num (N : Type 0) : Type 0 where
  nan : Num N
  number : N → Num N

pub record Order (N : Type 0) : Type 0 where
  pub less : N → N → Bool
  pub literal : ℕ → N

-- An element of `snapshots`; a field that is undefined or null is `none`.
pub record Snapshot (N : Type 0) : Type 0 where
  pub mint : Option String
  pub price : Option N
  pub liquidity_sol : Option N
  pub market_cap_sol : Option N
  pub volume_24h_sol : Option N
  pub holder_count : Option N
  pub bonding_curve_progress : Option N

-- What POST /token-metrics is sent: no body, one whose `snapshots` is no array, or an array.
pub data Body (N : Type 0) : Type 0 where
  no_body : Body N
  no_array : Body N
  snapshots : List (Option (Snapshot N)) → Body N

pub record Row (N : Type 0) : Type 0 where
  pub mint : String
  pub price : N
  pub liquidity_sol : Option N
  pub market_cap_sol : Option N
  pub volume_24h_sol : Option N
  pub holder_count : Option N
  pub bonding_curve_progress : Option N
  pub recorded_at : ℕ

pub data MintParam : Type 0 where
  -- neither a text nor an array
  no_mint : MintParam
  one_mint : String → MintParam
  more_mints : List String → MintParam

pub record Sql (N : Type 0) : Type 0 where
  -- the types of the columns
  pub accepts : Row N → Bool
  -- `recorded_at >= new Date(now - days)`, `none` if that date cannot be sent
  pub since : ℕ → Num N → Option (ℕ → Bool)
  -- ORDER BY recorded_at DESC
  pub newest_first : List (Row N) → List (Row N)
  -- LIMIT, `none` if it is refused
  pub limited : Num N → List (Row N) → Option (List (Row N))

pub data Response (N : Type 0) : Type 0 where
  error : ℕ → String → Response N
  inserted : ℕ → Response N
  found : List (Row N) → Response N

module _ {N : Type 0} (order : Order N) where
  -- `Math.min(m, x)` and `Math.max(m, x)` for a literal `m`
  abbrev pub min_of : ℕ → Num N → Num N
  min_of m nan = nan
  min_of m (number x) =
      if order.less x (order.literal m) then number x else number (order.literal m)

  abbrev pub max_of : ℕ → Num N → Num N
  max_of m nan = nan
  max_of m (number x) =
      if order.less x (order.literal m) then number (order.literal m) else number x

  -- `Number(query ?? value)`, for a query parameter that is read as a number
  abbrev pub param : Option (Num N) → ℕ → Num N
  param none value = number (order.literal value)
  param (some n) value = n

  unfoldable pub days_of : Option (Num N) → Num N
  days_of days = max_of 1 (min_of 30 (param days 7))

  unfoldable pub limit_of : Option (Num N) → Num N
  limit_of limit = max_of 1 (min_of 5000 (param limit 1000))

abbrev pub mints_of : MintParam → List String
mints_of no_mint = []
mints_of (one_mint m) = m ∷ []
mints_of (more_mints ms) = ms

module _ {N : Type 0} (sql : Sql N) where
  -- The row of a snapshot, `none` where a column that must not be null is.
  abbrev pub row_of : ℕ → Option String → Option N → Snapshot N → Option (Row N)
  row_of now none price s = none
  row_of now (some mint) none s = none
  row_of now (some mint) (some price) s = some (record {
    mint = mint;
    price = price;
    liquidity_sol = s.liquidity_sol;
    market_cap_sol = s.market_cap_sol;
    volume_24h_sol = s.volume_24h_sol;
    holder_count = s.holder_count;
    bonding_curve_progress = s.bonding_curve_progress;
    recorded_at = now;
  })

  abbrev accepted : Option (Row N) → Option (Row N)
  accepted none = none
  accepted (some r) = if sql.accepts r then some r else none

  abbrev both : Option (Row N) → Option (List (Row N)) → Option (List (Row N))
  both none rs = none
  both (some r) none = none
  both (some r) (some rs) = some (r ∷ rs)

  -- The rows of a batch, `none` if one of them is refused; an element that is null throws before.
  abbrev pub rows_of : ℕ → List (Option (Snapshot N)) → Option (List (Row N))
  rows_of now [] = some []
  rows_of now (none ∷ ss) = none
  rows_of now (some s ∷ ss) = both (accepted (row_of now s.mint s.price s)) (rows_of now ss)

  abbrev pub insert_rows :
      ℕ → Option (List (Row N)) → List (Row N) × List Bool → Response N × List (Row N) × List Bool
  insert_rows n none (rows, fs) = (error 500 "Failed to record token metrics", rows, fs)
  insert_rows n (some new) s = answered (statement (λ rows. (inserted n, rows ++ new)) s)
    where
      answered : Run (List (Row N)) (Response N) → Response N × List (Row N) × List Bool
      answered (none, rows, fs) = (error 500 "Failed to record token metrics", rows, fs)
      answered (some r, rows, fs) = (r, rows, fs)

  -- POST /token-metrics: one statement for the batch. Reading `snapshots` of no body throws.
  unfoldable pub post_metrics :
      ℕ → Body N → List (Row N) × List Bool → Response N × List (Row N) × List Bool
  post_metrics now no_body (rows, fs) = (error 500 "Failed to record token metrics", rows, fs)
  post_metrics now no_array (rows, fs) = (error 400 "snapshots array is required", rows, fs)
  post_metrics now (snapshots []) (rows, fs) = (error 400 "snapshots array is required", rows, fs)
  post_metrics now (snapshots (x ∷ xs)) s = insert_rows (length (x ∷ xs)) (rows_of now (x ∷ xs)) s

  abbrev pub has_mint : List String → Row N → Bool
  has_mint [] r = true
  has_mint (m ∷ ms) r = any (λ i. str_eq r.mint i) (m ∷ ms)

  abbrev or_error : Option (List (Row N)) → Response N
  or_error none = error 500 "Failed to query token metrics"
  or_error (some rows) = found rows

  abbrev select : Num N → List String → Option (ℕ → Bool) → List (Row N) → Response N
  select limit mints none rows = error 500 "Failed to query token metrics"
  select limit mints (some recent) rows = or_error (
      sql.limited limit
        (sql.newest_first (keep (λ r. recent r.recorded_at && has_mint mints r) rows)))

  abbrev answer : Run (List (Row N)) (Response N) → Response N
  answer (none, rows, fs) = error 500 "Failed to query token metrics"
  answer (some r, rows, fs) = r

  -- GET /token-metrics
  unfoldable pub get_metrics :
      Order N
      → ℕ
      → Option (Num N)
      → Option (Num N)
      → MintParam
      → List (Row N) × List Bool
      → Response N
  unfolding days_of limit_of
  get_metrics order now days limit mint s = answer (
      statement
        (λ rows. (
          select (limit_of order limit) (mints_of mint) (sql.since now (days_of order days)) rows,
          rows,
        ))
        s)
