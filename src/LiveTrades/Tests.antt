-- ===== src/LiveTrades/Tests.antt =====
-- use-live-trades.ts: the feed on concrete messages.
use pumpy_v.Common.{ℕ, ◌≡◌, refl, none, some, List, [], ◌∷◌}
use pumpy_v.LiveTrades.{
  Update, Event, mounts, opens, receives, closes, to_trade, upsert, step, run, initial,
}
use pumpy_v.LiveTrades.Feed.{IsFeed, run-initial-IsFeed}

abbrev update : Update ℕ
update = record {
  id = some "a";
  mint = none;
  token_name = none;
  token_symbol = none;
  side = none;
  amount_sol = none;
  price = some 3;
  status = none;
  strategy = none;
  signature = none;
  pnl_sol = none;
  created_at = none;
  executed_at = none;
}

abbrev other : Update ℕ
other = record update { id = some "b"; status = some "Filled" }

abbrev session : List (Event ℕ)
session =
    mounts none
    ∷ opens 0
    ∷ receives "t0" (some update)
    ∷ receives "t1" (some other)
    ∷ receives "t2" (some update)
    ∷ receives "t3" none
    ∷ closes
    ∷ []

two_trades :
    (run 0 (initial ℕ) session).trades ≡ to_trade 0 "t1" "b" other ∷ to_trade 0 "t2" "a" update ∷ []
unfolding run step upsert
two_trades = refl

run-initial-IsFeed_example : IsFeed (run 0 (initial ℕ) session).trades
run-initial-IsFeed_example = run-initial-IsFeed ℕ 0 session
