-- ===== src/Trades/Tests.antt =====
-- trades.ts: UUIDs, limits and a filtered listing.
use pumpy_v.Common.{ℕ, ◌≤◌, ◌≡◌, refl, true, false, none, some, List, [], ◌∷◌, All, length, codes}
use pumpy_v.Text.{same}
use pumpy_v.Trades.{Trade, Sql, minus, plus, parse_limit, is_uuid, list_trades, trades, matches}
use pumpy_v.Trades.Query.{list_trades_rows}

uuid_accepted : is_uuid (codes "0123abcd-89AB-cdef-0123-456789abcdef") ≡ true
unfolding is_uuid
uuid_accepted = refl

short_refused : is_uuid (codes "0123abcd-89AB-cdef-0123-456789abcde") ≡ false
unfolding is_uuid
short_refused = refl

limit_cut : parse_limit (λ s. plus 5000) (some (codes "5000")) ≡ 1000
unfolding parse_limit
limit_cut = refl

limit_default : parse_limit (λ s. minus 3) (some (codes "-3")) ≡ 50
unfolding parse_limit
limit_default = refl

-- A table that is in order already.
abbrev sql : Sql ℕ
sql = record { newest_first = λ ts. ts; same_uuid = same }

abbrev sniped : Trade ℕ
sniped = record { strategy = codes "sniper"; client_order_id = none; other = 1 }

abbrev manual : Trade ℕ
manual = record { strategy = codes "manual"; client_order_id = none; other = 2 }

list_trades_rows_example :
    (found : List (Trade ℕ)) × (list_trades sql
        (λ s. plus 10)
        (some (codes "10"))
        (some (codes "sniper"))
        none
        (manual ∷ sniped ∷ [], [])
      ≡ trades found)
    × (length found ≤ 1000)
    × All (λ t. matches sql none (some (codes "sniper")) t ≡ true) found
list_trades_rows_example =
    list_trades_rows sql (λ s. plus 10) (some (codes "10")) (some (codes "sniper")) none
      (manual ∷ sniped ∷ []) (λ p ts h. h) refl
