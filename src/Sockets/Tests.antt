-- ===== src/Sockets/Tests.antt =====
-- index.ts: clients, filters and pings in a short run.
use pumpy_v.Common.{ℕ, ◌≡◌, refl, String, none, some, List, [], ◌∷◌, map}
use pumpy_v.Sockets.{
  OrderUpdate, TradeRow, Client, Event, orders, pongs, ticks, messages, connected, step, run,
  upgrade,
}
use pumpy_v.Sockets.Delivery.{served, run-orders}

abbrev name_of : String → String
name_of s = s

abbrev clients : List (Client String)
clients = connected 1 [] ∷ connected 2 ("b" ∷ []) ∷ []

-- A client without a filter is sent all, a client with one its own, until it changes the filter.
sent_tests :
    map
      (λ c. c.sent)
      (run name_of clients
        (orders "a" ∷ orders "b" ∷ messages 2 (some ("a" ∷ [])) ∷ orders "b" ∷ []))
    ≡ ("a" ∷ "b" ∷ "b" ∷ []) ∷ ("b" ∷ []) ∷ []
unfolding run step
sent_tests = refl

upgrade_tests :
    (upgrade (λ u. []) (some "/api/bot/stream?x") ≡ some [])
    × (upgrade (λ u. []) (some "/api/bot") ≡ none)
upgrade_tests = (refl, refl)

run-orders_example :
    run name_of clients (map orders ("a" ∷ "b" ∷ []))
    ≡ map (served name_of ("a" ∷ "b" ∷ [])) clients
run-orders_example = run-orders String name_of ("a" ∷ "b" ∷ []) clients

abbrev update : OrderUpdate ℕ
update = record {
  order_id = "a";
  token_mint = none;
  status = "Filled";
  signature = none;
  executed_at = none;
  executed_price = some 2;
  executed_amount = some 5;
}

abbrev row : TradeRow ℕ
row = record {
  side = "BUY";
  token_symbol = none;
  token_name = none;
  strategy = "sniper";
  pnl_sol = none;
  trace_id = none;
  amount_sol = 9;
}

abbrev answering : List (Event String)
answering = ticks 1 ∷ pongs 1 ∷ orders "a" ∷ ticks 1 ∷ pongs 2 ∷ []
