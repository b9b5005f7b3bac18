-- ===== src/Bot/Tokens.antt =====
-- bot.ts: the token list, one token, and the backtest proxy.
use pumpy_v.Common.{String, Option, none, some, List, [], ◌∷◌, if◌then◌else◌, cat}
use pumpy_v.Json.{
  Value, null, number, text, array, object, Fields, Numbers, fields_of, array_of, get, reader,
  or_default, is_truthy, items_of, values_of, map_or_throw,
}
use pumpy_v.Bot.{
  Engines, Io, Reply, get_token_info, http_post, done, ◌>>=◌, try_rust, fetch_python, get_request,
  json, error,
}

module _ {N : Type 0} (num : Numbers N) where
  abbrev zero_value : Value N
  zero_value = number (num.literal 0 0)

  abbrev pub map_token : Value N → Option (Value N)
  map_token t = elim (reader t) [
    | none ↦ none
    | some read ↦ some (
        object (
          fields_of (
            ("mint", read "mint")
            ∷ ("name", read "name")
            ∷ ("symbol", read "symbol")
            ∷ ("price", or_default (read "price") zero_value)
            ∷ ("liquiditySol", or_default (read "liquidity_sol") zero_value)
            ∷ ("marketCapSol", or_default (read "market_cap_sol") zero_value)
            ∷ ("volume24hSol", read "volume_24h_sol")
            ∷ ("holderCount", read "holder_count")
            ∷ ("bondingCurveProgress", or_default (read "bonding_curve_progress") zero_value)
            ∷ ("mlScore", or_default (read "ml_score") (or_default (read "sniper_score") null))
            ∷ ("detectedAt", or_default (read "detected_at") (or_default (read "created_at") null))
            ∷ ("actionTaken", or_default (read "action_taken") (or_default (read "action") null))
            ∷ [])))
  ]

  -- The tokens of a truthy object or array; none for any other value.
  abbrev pub token_values : Value N → Option (List (Value N))
  token_values (object fs) = some (values_of fs)
  token_values (array vs) = some (items_of vs)
  token_values _ = none

  abbrev mapped_tokens : Option (List (Value N)) → Reply N
  mapped_tokens none = error 500 "Failed to list tokens"
  mapped_tokens (some vs) = json (array (array_of vs))

  abbrev listed_tokens : Option (List (Value N)) → Reply N
  listed_tokens none = json (array (array_of []))
  listed_tokens (some ts) = mapped_tokens (map_or_throw map_token ts)

  abbrev rust_token : Fields N → Reply N
  rust_token info = json (
      object (
        fields_of (
          ("mint", get info "mint")
          ∷ ("name", get info "name")
          ∷ ("symbol", get info "symbol")
          ∷ ("price", get info "price")
          ∷ ("liquiditySol", get info "liquidity_sol")
          ∷ ("marketCapSol", get info "market_cap_sol")
          ∷ ("volume24hSol", get info "volume_24h_sol")
          ∷ ("holderCount", get info "holder_count")
          ∷ ("bondingCurveProgress", get info "bonding_curve_progress")
          ∷ ("source", text "rust")
          ∷ [])))

  abbrev python_token : Value N → Reply N
  python_token py = elim (reader py) [
    | none ↦ error 404 "Token not found"
    | some read ↦ json (
        object (
          fields_of (
            ("mint", read "mint")
            ∷ ("name", read "name")
            ∷ ("symbol", read "symbol")
            ∷ ("price", or_default (read "price") zero_value)
            ∷ ("liquiditySol", or_default (read "liquidity_sol") zero_value)
            ∷ ("marketCapSol", or_default (read "market_cap_sol") zero_value)
            ∷ ("volume24hSol", read "volume_24h_sol")
            ∷ ("holderCount", read "holder_count")
            ∷ ("bondingCurveProgress", or_default (read "bonding_curve_progress") zero_value)
            ∷ ("source", text "python")
            ∷ [])))
  ]

  module _ {W : Type 0} (e : Engines N W) where
    unfoldable pub list_tokens : Io N W (Reply N)
    list_tokens =
        fetch_python e (get_request "/api/tokens") >>= λ py. done (listed_tokens (token_values py))

    unfoldable pub get_token : String → Io N W (Reply N)
    get_token mint = try_rust e (get_token_info mint) rust_token (
        fetch_python e (get_request (cat "/api/tokens/" mint)) >>= λ py.
        done (if is_truthy num py then python_token py else error 404 "Token not found"))

    -- The body is sent on as it came. `message` is the text of the error that reading a missing body throws.
    unfoldable pub post_backtest : Value N → String → Io N W (Reply N)
    post_backtest sent message = elim (reader sent) [
      | none ↦ done (error 500 message)
      | some body ↦
          if is_truthy num (body "strategy_name")
          then (fetch_python e
                (record { method = http_post; path = "/api/backtest"; body = some sent })
              >>= λ py. done (
                  if is_truthy num py
                  then json py
                  else error 503 "Python strategy engine not available"))
          else done (error 400 "Missing required field: strategy_name")
    ]
