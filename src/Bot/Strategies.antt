-- ===== src/Bot/Strategies.antt =====
-- bot.ts: listing and updating the strategies.
use pumpy_v.Common.{String, true, Option, none, some, List, [], ◌∷◌, map, if◌then◌else◌, cat}
use pumpy_v.Json.{
  Value, undefined, boolean, number, text, array, object, Numbers, defined, fields_of, array_of,
  reader, or_default, is_truthy, elements, map_or_throw,
}
use pumpy_v.Bot.{
  Engines, Io, Reply, StrategyRow, http_patch, Request, done, ◌>>=◌, fetch_python, call_database,
  get_request, json, error,
}

module _ {N : Type 0} (num : Numbers N) where
  abbrev pub zero_value : Value N
  zero_value = number (num.literal 0 0)

  abbrev strategy_value :
      Value N → Value N → Value N → Value N → Value N → Value N → Value N → Value N
  strategy_value name enabled executed won rate pnl buy = object (
      fields_of (
        ("name", name)
        ∷ ("enabled", enabled)
        ∷ ("tradesExecuted", executed)
        ∷ ("tradesWon", won)
        ∷ ("winRate", rate)
        ∷ ("totalPnlSol", pnl)
        ∷ ("buyAmountSol", buy)
        ∷ []))

  -- An entry of Python's list; reading a null entry throws.
  abbrev pub map_strategy : Value N → Option (Value N)
  map_strategy s = elim (reader s) [
    | none ↦ none
    | some read ↦ some (
        strategy_value (read "name") (read "enabled")
          (or_default (read "trades_executed") zero_value)
          (or_default (read "trades_won") zero_value) (or_default (read "win_rate") zero_value)
          (or_default (read "total_pnl_sol") zero_value) (read "buy_amount_sol"))
  ]

  abbrev pub row_value : StrategyRow N → Value N
  row_value r =
      strategy_value (text r.name) (boolean r.enabled) (number r.trades_executed)
        (number r.trades_won)
        (if num.positive r.trades_executed
          then number (num.times (num.over r.trades_won r.trades_executed) (num.literal 100 0))
          else zero_value)
        (number r.total_pnl_sol) (number r.buy_amount_sol)

  abbrev default_strategies : Value N
  default_strategies = array (
      array_of (
        strategy_value (text "sniper") (boolean true) zero_value zero_value zero_value zero_value
          (number (num.literal 5 2))
        ∷ strategy_value (text "momentum") (boolean true) zero_value zero_value zero_value
            zero_value (number (num.literal 1 1))
        ∷ []))

  abbrev mapped_strategies : Option (List (Value N)) → Reply N
  mapped_strategies none = error 500 "Failed to list strategies"
  mapped_strategies (some vs) = json (array (array_of vs))

  abbrev listed_rows : Option (List (StrategyRow N)) → Reply N
  listed_rows none = json default_strategies
  listed_rows (some rows) = json (array (array_of (map row_value rows)))

  abbrev patch_request : String → (String → Value N) → Request N
  patch_request name body = record {
    method = http_patch;
    path = cat "/api/strategies/" name;
    body = some (
        object (
          defined (
            ("strategy_name", text name)
            ∷ ("enabled", body "enabled")
            ∷ ("buy_amount_sol", body "buyAmountSol")
            ∷ ("slippage_bps", body "slippageBps")
            ∷ ("take_profit_pct", body "takeProfitPct")
            ∷ ("stop_loss_pct", body "stopLossPct")
            ∷ ("trailing_stop_pct", body "trailingStopPct")
            ∷ ("min_liquidity_sol", body "minLiquiditySol")
            ∷ [])));
  }

  -- `pyData?.strategy`
  abbrev strategy_of : Value N → Value N
  strategy_of py = elim (reader py) [ none ↦ undefined | some read ↦ read "strategy" ]

  abbrev offline_strategy : String → Value N → Value N
  offline_strategy name enabled = object (
      fields_of (
        ("name", text name)
        ∷ ("enabled", or_default enabled (boolean true))
        ∷ ("tradesExecuted", zero_value)
        ∷ ("tradesWon", zero_value)
        ∷ ("winRate", zero_value)
        ∷ ("totalPnlSol", zero_value)
        ∷ []))

  module _ {W : Type 0} (e : Engines N W) where
    abbrev from_database : Io N W (Reply N)
    from_database = call_database e >>= λ rows. done (listed_rows rows)

    abbrev pub list_from : Option (List (Value N)) → Io N W (Reply N)
    list_from none = from_database
    list_from (some entries) = done (mapped_strategies (map_or_throw map_strategy entries))

    unfoldable pub list_strategies : Io N W (Reply N)
    list_strategies =
        fetch_python e (get_request "/api/strategies") >>= λ py. list_from (elements py)

    -- `message` is the text of the error that reading a missing body throws.
    unfoldable pub patch_strategy : String → Value N → String → Io N W (Reply N)
    patch_strategy name sent message = elim (reader sent) [
      | none ↦ done (error 400 message)
      | some body ↦ fetch_python e (patch_request name body) >>= λ py. done (
          if is_truthy num (strategy_of py)
          then json (strategy_of py)
          else json (offline_strategy name (body "enabled")))
    ]
