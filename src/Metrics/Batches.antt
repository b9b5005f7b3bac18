-- ===== src/Metrics/Batches.antt =====
-- token-metrics.ts: a batch is recorded as a whole or not at all.
use pumpy_v.Common.{
  ℕ, String, ◌≡◌, refl, ◌⊎◌, inl, inr, Bool, true, false, Option, none, some, List, [], ◌∷◌, ◌++◌,
  length, if◌then◌else◌,
}
use pumpy_v.Metrics.{
  Snapshot, Body, no_body, no_array, snapshots, Row, Sql, Response, error, inserted, rows_of,
  row_of, accepted, both, insert_rows, post_metrics,
}

module _ {N : Type 0} (sql : Sql N) where
  -- A row tells what a snapshot does, column by column, at a time; a snapshot that is null has no row.
  abbrev pub Records : ℕ → Option (Snapshot N) → Row N → Type 0
  Records now none r = ⊥
  Records now (some s) r =
      (s.mint ≡ some r.mint)
      × (s.price ≡ some r.price)
      × (r.liquidity_sol ≡ s.liquidity_sol)
      × (r.market_cap_sol ≡ s.market_cap_sol)
      × (r.volume_24h_sol ≡ s.volume_24h_sol)
      × (r.holder_count ≡ s.holder_count)
      × (r.bonding_curve_progress ≡ s.bonding_curve_progress)
      × (r.recorded_at ≡ now)

  -- One row for each snapshot, in their order.
  abbrev pub Rows : ℕ → List (Option (Snapshot N)) → List (Row N) → Type 0
  Rows now [] [] = Unit {0}
  Rows now [] (r ∷ rs) = ⊥
  Rows now (s ∷ ss) [] = ⊥
  Rows now (s ∷ ss) (r ∷ rs) = Records now s r × Rows now ss rs

  abbrev Batch : ℕ → List (Option (Snapshot N)) → Option (List (Row N)) → Type 0
  Batch now ss none = Unit {0}
  Batch now ss (some new) = Rows now ss new

  Recorded : ℕ → Option (Snapshot N) → Option (Row N) → Type 0
  Recorded now s none = Unit {0}
  Recorded now s (some r) = Records now s r

  both-Batch :
      (now : ℕ) (s : Option (Snapshot N)) (ss : List (Option (Snapshot N))) (o : Option (Row N))
      (p : Option (List (Row N)))
      → Recorded now s o
      → Batch now ss p
      → Batch now (s ∷ ss) (both sql o p)
  unfolding Recorded
  both-Batch now s ss none p h k = tt
  both-Batch now s ss (some r) none h k = tt
  both-Batch now s ss (some r) (some rs) h k = (h, k)

  by_accepts :
      (now : ℕ) (s : Option (Snapshot N)) (b : Bool) (r : Row N)
      → Records now s r
      → Recorded now s (if b then some r else none)
  unfolding Recorded
  by_accepts now s true r h = h
  by_accepts now s false r h = tt

  row_of-Recorded :
      (now : ℕ) (m : Option String) (p : Option N) (s : Snapshot N)
      → s.mint ≡ m
      → s.price ≡ p
      → Recorded now (some s) (accepted sql (row_of sql now m p s))
  unfolding Recorded
  row_of-Recorded now none p s hm hp = tt
  row_of-Recorded now (some m) none s hm hp = tt
  row_of-Recorded now (some m) (some p) s hm hp =
      by_accepts now (some s) (sql.accepts _) _ (hm, hp, refl, refl, refl, refl, refl, refl)

  rows_of-Batch : (now : ℕ) (ss : List (Option (Snapshot N))) → Batch now ss (rows_of sql now ss)
  rows_of-Batch now [] = tt
  rows_of-Batch now (none ∷ ss) = tt
  rows_of-Batch now (some s ∷ ss) =
      both-Batch now (some s) ss _ _ (row_of-Recorded now s.mint s.price s refl refl)
        (rows_of-Batch now ss)

  abbrev pub sent : Body N → List (Option (Snapshot N))
  sent (snapshots ss) = ss
  sent no_body = []
  sent no_array = []

  -- The table after a batch: a row for each of its snapshots is added and their number is answered, or none and an
  -- error is answered.
  abbrev pub Atomic :
      ℕ → List (Option (Snapshot N)) → List (Row N) → Response N × List (Row N) × List Bool → Type 0
  Atomic now ss rows res =
      ((res.0 ≡ inserted (length ss))
        × (new : List (Row N)) × (res.1 ≡ rows ++ new)
        × Rows now ss new)
      ⊎ ((res.1 ≡ rows) × (status : ℕ) × (text : String) × (res.0 ≡ error status text))

  insert_rows-Atomic :
      (now : ℕ) (ss : List (Option (Snapshot N))) (new : Option (List (Row N)))
      (rows : List (Row N)) (fs : List Bool)
      → Batch now ss new
      → Atomic now ss rows (insert_rows sql (length ss) new (rows, fs))
  insert_rows-Atomic now ss none rows fs h = inr (refl, 500, _, refl)
  insert_rows-Atomic now ss (some new) rows [] h = inl (refl, new, refl, h)
  insert_rows-Atomic now ss (some new) rows (false ∷ fs) h = inl (refl, new, refl, h)
  insert_rows-Atomic now ss (some new) rows (true ∷ fs) h = inr (refl, 500, _, refl)

  -- Whatever the body is and whichever statement throws: a row for each snapshot is added to the end of the table, in
  -- their order, with its columns from the snapshot and the time of the request, and their number is answered; or the
  -- table stays as it was, and an error is answered.
  pub post_metrics-Atomic :
      (now : ℕ) (body : Body N) (rows : List (Row N)) (fs : List Bool)
      → Atomic now (sent body) rows (post_metrics sql now body (rows, fs))
  unfolding post_metrics
  post_metrics-Atomic now no_body rows fs = inr (refl, 500, _, refl)
  post_metrics-Atomic now no_array rows fs = inr (refl, 400, _, refl)
  post_metrics-Atomic now (snapshots []) rows fs = inr (refl, 400, _, refl)
  post_metrics-Atomic now (snapshots (s ∷ ss)) rows fs =
      insert_rows-Atomic now (s ∷ ss) (rows_of sql now (s ∷ ss)) rows fs
        (rows_of-Batch now (s ∷ ss))
