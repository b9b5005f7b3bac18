-- ===== src/Trades/Query.antt =====
-- trades.ts: what a listing of the trades holds.
use pumpy_v.Common.{
  ◌≤◌, ◌≡◌, refl, inl, inr, Bool, true, false, Option, none, some, List, [], ◌∷◌, Bool-cases, arith,
  codes, length, take, keep, All, All-take, length-take-le,
}
use pumpy_v.Text.{Text}
use pumpy_v.Trades.{
  Trade, Sql, Parsed, nan, minus, plus, limit_of, parse_limit, trades, matches, bad_uuid,
  list_trades,
}

limit_of-le : (p : Parsed) → limit_of p ≤ 1000
limit_of-le nan = omega arith
limit_of-le (minus n) = omega arith
limit_of-le (plus n) = ground arith

parse_limit-le : (parse_int : Text → Parsed) (raw : Option Text) → parse_limit parse_int raw ≤ 1000
unfolding parse_limit
parse_limit-le parse_int none = limit_of-le (parse_int (codes "50"))
parse_limit-le parse_int (some raw) = limit_of-le (parse_int raw)

keep-Holds : {A : Type 0} (p : A → Bool) (xs : List A) → All (λ x. p x ≡ true) (keep p xs)
keep-Holds p [] = tt
keep-Holds p (x ∷ xs) = elim (Bool-cases (p x)) [
  | inl h ↦ rw (keep, h) (h, keep-Holds p xs)
  | inr h ↦ rw (keep, h) (keep-Holds p xs)
]

module _ {R : Type 0} (sql : Sql R) where
  -- If ordering adds no row and the database answers, a query without a client order id or with a
  -- UUID gives at most 1000 rows, whatever limit it asks for, and each of them has the strategy and
  -- the client order id that the query names.
  pub list_trades_rows :
      (parse_int : Text → Parsed) (limit strategy i : Option Text) (rows : List (Trade R))
      → ((p : Trade R → Bool) (ts : List (Trade R))
          → All (λ t. p t ≡ true) ts
          → All (λ t. p t ≡ true) (sql.newest_first ts))
      → bad_uuid i ≡ false
      → (found : List (Trade R)) × (list_trades sql parse_int limit strategy i (rows, [])
          ≡ trades found)
        × (length found ≤ 1000)
        × All (λ t. matches sql i strategy t ≡ true) found
  unfolding list_trades
  list_trades_rows parse_int limit strategy i rows ordered h = (
    take (parse_limit parse_int limit) (sql.newest_first (keep (matches sql i strategy) rows)),
    rw (list_trades, h) refl,
    omega (
      arith,
      parse_limit-le parse_int limit,
      length-take-le (parse_limit parse_int limit)
          (sql.newest_first (keep (matches sql i strategy) rows)),
    ),
    All-take (λ t. matches sql i strategy t ≡ true) (parse_limit parse_int limit)
        (sql.newest_first (keep (matches sql i strategy) rows))
        (ordered (matches sql i strategy) (keep (matches sql i strategy) rows)
          (keep-Holds (matches sql i strategy) rows)),
  )
