-- ===== src/Bot/Control.antt =====
-- bot.ts: starting and stopping all strategies. A name that is not a text is sent as it came.
use pumpy_v.Common.{
  ℕ, suc, String, Bool, true, false, Option, none, some, List, [], ◌∷◌, if◌then◌else◌, ltb, cat,
}
use pumpy_v.Json.{
  Value, boolean, text, object, defined, fields_of, reader, elements, map_or_throw, is_null,
}
use pumpy_v.Bot.{
  Engines, Io, Reply, http_post, Request, done, ◌>>=◌, fetch_python, get_request, json,
}

module _ {N : Type 0} where
  abbrev pub name_of : Value N → Option (Value N)
  name_of s = elim (reader s) [ none ↦ none | some read ↦ some (read "name") ]

  -- `fetchStrategyNames`: none if an entry cannot be read.
  abbrev pub names_in : Value N → Option (List (Value N))
  names_in py = elim (elements py) [
    | none ↦ some (text "sniper" ∷ text "momentum" ∷ [])
    | some entries ↦ map_or_throw name_of entries
  ]

  abbrev pub activate_request : Bool → Value N → Request N
  activate_request enabled name = record {
    method = http_post;
    path = "/api/strategy/activate";
    body = some (object (defined (("strategy_name", name) ∷ ("enabled", boolean enabled) ∷ [])));
  }

  abbrev pub count_if : Value N → ℕ → ℕ
  count_if result n = if is_null result then n else suc n

  -- `some n` is `succeeded = n`. The numeral of `n` is `show n`.
  abbrev control_reply : (ℕ → String) → String → String → String → Option ℕ → Reply N
  control_reply show did offline failed none =
      json (object (fields_of (("success", boolean false) ∷ ("message", text failed) ∷ [])))
  control_reply show did offline failed (some n) = json (
      object (
        fields_of (
          ("success", boolean (ltb 0 n))
          ∷ ("message", text (if ltb 0 n then cat (show n) did else offline))
          ∷ [])))

module _ {N W : Type 0} (e : Engines N W) where
  abbrev pub fetch_strategy_names : Io N W (Option (List (Value N)))
  fetch_strategy_names = fetch_python e (get_request "/api/strategies") >>= λ py. done (names_in py)

  unfoldable pub activate_each : Bool → ℕ → List (Value N) → Io N W ℕ
  activate_each enabled succeeded [] = done succeeded
  activate_each enabled succeeded (name ∷ names) =
      fetch_python e (activate_request enabled name) >>= λ result.
      activate_each enabled (count_if result succeeded) names

  abbrev activate_named : Bool → Option (List (Value N)) → Io N W (Option ℕ)
  activate_named enabled none = done none
  activate_named enabled (some names) = activate_each enabled 0 names >>= λ n. done (some n)

  unfoldable pub set_all_strategies : Bool → Io N W (Option ℕ)
  unfolding activate_each
  set_all_strategies enabled = fetch_strategy_names >>= λ names. activate_named enabled names

  unfoldable pub start : (ℕ → String) → Io N W (Reply N)
  unfolding set_all_strategies
  start show = set_all_strategies true >>= λ n. done (
      control_reply show " strategy/strategies activated"
        "Python engine unreachable — start the python-strategy service first" "Start request failed"
        n)

  unfoldable pub stop : (ℕ → String) → Io N W (Reply N)
  unfolding set_all_strategies
  stop show = set_all_strategies false >>= λ n. done (
      control_reply show " strategy/strategies deactivated"
        "Python engine unreachable — engine may already be stopped" "Stop request failed" n)
