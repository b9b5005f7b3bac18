-- ===== src/Bot/Portfolio.antt =====
-- bot.ts: GET /bot/portfolio, /bot/metrics, /bot/status and /bot/mev-stats.
use pumpy_v.Common.{
  String, Bool, true, false, Option, none, some, List, [], ◌∷◌, map, if◌then◌else◌, ◌||◌, or_else,
  keep, truthy,
}
use pumpy_v.Json.{
  Value, boolean, number, text, array, object, Fields, Numbers, set_field, spread, fields_of,
  array_of, get, reader, or_default, is_truthy, elements, map_or_throw,
}
use pumpy_v.Bot.{
  Engines, Io, Reply, get_portfolio_summary, done, ◌>>=◌, try_rust, call_rust, fetch_python,
  get_request, json, error,
}

-- `process.env` and `process.uptime()`, as far as the routes read them.
pub record Process (N : Type 0) : Type 0 where
  pub wallet_address : Option String
  pub node_env : Option String
  pub jito_bundle_url : Option String
  pub uptime : N

module _ {N : Type 0} where
  abbrev pub some_listed : List (Value N) → Bool
  some_listed [] = false
  some_listed (n ∷ ns) = true

module _ {N : Type 0} (num : Numbers N) where
  abbrev pub zero_value : Value N
  zero_value = number (num.literal 0 0)

  abbrev summary_value : Fields N → Value N
  summary_value grpc = object (
      fields_of (
        ("totalValueSol", get grpc "total_value_sol")
        ∷ ("cashBalanceSol", get grpc "cash_balance_sol")
        ∷ ("positionsValueSol", get grpc "positions_value_sol")
        ∷ ("dailyPnlSol", get grpc "daily_pnl_sol")
        ∷ ("totalPnlSol", get grpc "total_pnl_sol")
        ∷ ("openPositionsCount", get grpc "open_positions_count")
        ∷ ("winRate", get grpc "win_rate")
        ∷ ("source", text "rust")
        ∷ []))

  abbrev mock_portfolio : Value N
  mock_portfolio = object (
      fields_of (
        ("totalValueSol", number (num.literal 10 0))
        ∷ ("cashBalanceSol", number (num.literal 95 1))
        ∷ ("positionsValueSol", number (num.literal 5 1))
        ∷ ("dailyPnlSol", zero_value)
        ∷ ("totalPnlSol", zero_value)
        ∷ ("openPositionsCount", zero_value)
        ∷ ("winRate", zero_value)
        ∷ ("source", text "mock")
        ∷ []))

  abbrev pub empty_metrics : Value N
  empty_metrics = object (
      fields_of (
        ("ordersSubmitted", zero_value)
        ∷ ("ordersExecuted", zero_value)
        ∷ ("ordersFailed", zero_value)
        ∷ ("ordersPending", zero_value)
        ∷ ("jitoLanded", zero_value)
        ∷ ("sandwichAttacks", zero_value)
        ∷ ("avgExecutionMs", zero_value)
        ∷ ("rpcErrorRate", zero_value)
        ∷ ("tokensDiscovered", zero_value)
        ∷ ("tokensSniped", zero_value)
        ∷ []))

  abbrev mev_value : N → N → N → N → Bool → Value N
  mev_value submitted landed rate saved jito = object (
      fields_of (
        ("bundlesSubmitted", number submitted)
        ∷ ("bundlesLanded", number landed)
        ∷ ("landedRate", number rate)
        ∷ ("mevSavedSol", number saved)
        ∷ ("jitoEnabled", boolean jito)
        ∷ []))

  abbrev landed_rate : N → N → N
  landed_rate submitted landed =
      if num.positive submitted
      then num.times (num.over landed submitted) (num.literal 100 0)
      else num.literal 0 0

  -- The three coercions, each of which may throw, and the answer.
  abbrev mev_numbers : Bool → Option N → Option N → Option N → Reply N
  mev_numbers jito (some submitted) (some landed) (some saved) = json (
      mev_value submitted landed (landed_rate submitted landed) saved
        (jito || num.positive submitted))
  mev_numbers jito _ _ _ = error 500 "Failed to get MEV stats"

  abbrev mev_metrics : Bool → Option (String → Value N) → Reply N
  mev_metrics jito none = error 500 "Failed to get MEV stats"
  mev_metrics jito (some read) =
      mev_numbers jito (num.number_of (or_default (read "bundles_submitted") zero_value))
        (num.number_of (or_default (read "bundles_landed") zero_value))
        (num.number_of
          (or_default (or_default (read "mev_saved_sol") (read "mevSavedSol")) zero_value))

  abbrev no_engine : Bool → Value N
  no_engine jito = object (
      fields_of (
        ("bundlesSubmitted", zero_value)
        ∷ ("bundlesLanded", zero_value)
        ∷ ("landedRate", zero_value)
        ∷ ("mevSavedSol", zero_value)
        ∷ ("jitoEnabled", boolean jito)
        ∷ ("_source", text "no-engine")
        ∷ []))

  -- The names of the enabled entries; none if an entry cannot be read.
  abbrev pub enabled_name : Value N → Option (Bool × Value N)
  enabled_name s = elim (reader s) [
    | none ↦ none
    | some read ↦ some (is_truthy num (read "enabled"), read "name")
  ]

  abbrev pub active_names : Value N → List (Value N)
  active_names strategies = elim (elements strategies) [
    | none ↦ []
    | some entries ↦ elim (map_or_throw enabled_name entries) [
      | none ↦ []
      | some named ↦ map (λ p. p.1) (keep (λ p. p.0) named)
    ]
  ]

  abbrev status_value : Process N → Bool → Bool → List (Value N) → Value N
  status_value process rust python active = object (
      fields_of (
        ("running", boolean (some_listed active))
        ∷ ("rustEngineConnected", boolean rust)
        ∷ ("pythonEngineRunning", boolean python)
        ∷ ("walletAddress", text (or_else process.wallet_address ""))
        ∷ ("solBalance", zero_value)
        ∷ ("activeStrategies", array (array_of active))
        ∷ ("environment", text (or_else process.node_env "development"))
        ∷ ("uptime", number process.uptime)
        ∷ []))

  abbrev connected : Option (Fields N) → Bool
  connected none = false
  connected (some fs) = true

  module _ {W : Type 0} (e : Engines N W) where
    unfoldable pub get_portfolio : Io N W (Reply N)
    get_portfolio =
        try_rust e get_portfolio_summary (λ grpc. json (summary_value grpc))
          (fetch_python e (get_request "/api/portfolio") >>= λ py. done (
            if is_truthy num py
            then json (object (set_field "source" (text "python") (spread num py)))
            else json mock_portfolio))

    unfoldable pub get_metrics : Io N W (Reply N)
    get_metrics = fetch_python e (get_request "/api/metrics") >>= λ py.
        done (json (or_default py empty_metrics))

    unfoldable pub get_mev_stats : Process N → Io N W (Reply N)
    get_mev_stats process = fetch_python e (get_request "/api/metrics") >>= λ py. done (
        let jito = truthy (or_else process.jito_bundle_url "") in
        if is_truthy num py then mev_metrics jito (reader py) else json (no_engine jito))

    -- The second request is made only if the first found the engine.
    abbrev pub list_active : Bool → Io N W (List (Value N))
    list_active false = done []
    list_active true = fetch_python e (get_request "/api/strategies") >>= λ strategies.
        done (active_names strategies)

    unfoldable pub get_status : Process N → Io N W (Reply N)
    get_status process = call_rust e get_portfolio_summary >>= λ rust.
        (fetch_python e (get_request "/api/health") >>= λ health.
        (list_active (is_truthy num health) >>= λ active.
        done (json (status_value process (connected rust) (is_truthy num health) active))))
