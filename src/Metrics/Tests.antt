-- ===== src/Metrics/Tests.antt =====
-- token-metrics.ts: a batch of two snapshots, one that is refused, and a query.
use pumpy_v.Common.{ℕ, ◌≡◌, refl, String, true, Option, none, some, List, [], ◌∷◌, ltb, arith}
use pumpy_v.Metrics.{
  Order, Snapshot, snapshots, Sql, inserted, found, one_mint, post_metrics, get_metrics,
}
use pumpy_v.Metrics.Batches.{Atomic, post_metrics-Atomic}
use pumpy_v.Metrics.Bounds.{Laws}

abbrev naturals : Order ℕ
naturals = record { less = ltb; literal = λ n. n }

abbrev sql : Sql ℕ
sql = record {
  accepts = λ r. true;
  since = λ now days. some (λ at. true);
  newest_first = λ rows. rows;
  limited = λ limit rows. some rows;
}

abbrev snapshot : Option String → Snapshot ℕ
snapshot mint = record {
  mint = mint;
  price = some 5;
  liquidity_sol = none;
  market_cap_sol = none;
  volume_24h_sol = none;
  holder_count = none;
  bonding_curve_progress = none;
}

abbrev batch : List (Option (Snapshot ℕ))
batch = some (snapshot (some "a")) ∷ some (snapshot (some "b")) ∷ []

two_inserted : (post_metrics sql 9 (snapshots batch) ([], [])).0 ≡ inserted 2
unfolding post_metrics
two_inserted = refl

all_refused : (post_metrics sql 9 (snapshots (some (snapshot none) ∷ batch)) ([], [])).1 ≡ []
unfolding post_metrics
all_refused = refl

one_found :
    get_metrics sql naturals 9 none none
      (one_mint "z")
      ((post_metrics sql 9 (snapshots batch) ([], [])).1, [])
    ≡ found []
unfolding get_metrics post_metrics
one_found = refl

post_metrics-Atomic_example : Atomic sql 9 batch [] (post_metrics sql 9 (snapshots batch) ([], []))
post_metrics-Atomic_example = post_metrics-Atomic sql 9 (snapshots batch) [] []

naturals-Laws : Laws naturals
naturals-Laws = record { asymmetric = λ a b h. ground arith; monotone = λ m n h. ground arith }
