-- ===== src/Bot/Sources.antt =====
-- bot.ts: what a reply says of the engine it came from, and of the engines that run.
use pumpy_v.Common.{
  String, ◌≡◌, refl, ap, Bool, true, false, List, is_some, str_eq, eq_refl, Bool-cases,
  Option-cases, inl, inr,
}
use pumpy_v.Json.{
  Value, undefined, boolean, text, object, Fields, no_fields, field, Numbers, get, set_field,
  spread, is_truthy,
}
use pumpy_v.Bot.{Engines, Call, get_portfolio_summary, get_request, body_or_null}
use pumpy_v.Bot.Portfolio.{Process, get_portfolio, get_status, list_active, some_listed}

-- A field of a value; undefined if it has none.
module _ {N : Type 0} where
  abbrev pub field_in : Value N → String → Value N
  field_in (object fs) k = get fs k
  field_in _ k = undefined

  get-set_field : (k : String) (v : Value N) (fs : Fields N) → get (set_field k v fs) k ≡ v
  get-set_field k v no_fields = rw (eq_refl k) refl
  get-set_field k v (field k' v' fs) = elim (Bool-cases (str_eq k' k)) [
    | inl h ↦ rw (set_field, h, eq_refl k) refl
    | inr h ↦ rw (set_field, h) (rw (get, h) (get-set_field k v fs))
  ]

abbrev as_boolean : {N : Type 0} → Value N → Bool
as_boolean (boolean b) = b
as_boolean _ = false

-- The engine whose numbers the portfolio shows.
abbrev pub portfolio_source : Bool → Bool → String
portfolio_source true python = "rust"
portfolio_source false true = "python"
portfolio_source false false = "mock"

module _ {N W : Type 0} (num : Numbers N) (e : Engines N W) where
  -- The portfolio names its source truly: Rust if its call returns, else Python if it sends a truthy
  -- value, whatever source that value names, and else the mock.
  pub get_portfolio_source :
      (w : W) (cs : List (Call N))
      → field_in (get_portfolio num e (w, cs)).0.body "source"
        ≡ text (
            portfolio_source (is_some (e.grpc get_portfolio_summary w).0) (
              is_truthy num (
                body_or_null
                  (e.fetch (get_request "/api/portfolio") (e.grpc get_portfolio_summary w).1).0)))
  unfolding get_portfolio
  get_portfolio_source w cs = elim (Option-cases (e.grpc get_portfolio_summary w).0) [
    | inl hr ↦
        elim (Bool-cases (
          is_truthy num (
            body_or_null
              (e.fetch (get_request "/api/portfolio") (e.grpc get_portfolio_summary w).1).0))) [
                | inl hp ↦
                    rw (hr, hp)
                      (get-set_field "source" (text "python") (
                        spread num (
                          body_or_null
                            (e.fetch (get_request "/api/portfolio")
                              (e.grpc get_portfolio_summary w).1).0)))
                | inr hp ↦ rw (hr, hp) refl
              ]
    | inr (fs, hr) ↦ rw hr refl
  ]

  list_active_running :
      (python : Bool) (w : W) (cs : List (Call N))
      → some_listed (list_active num e python (w, cs)).0 ≡ true
      → python ≡ true
  list_active_running false w cs h = h
  list_active_running true w cs h = refl

  -- The status says that the bot runs only if it says that the Python engine does.
  pub get_status_running :
      (process : Process N) (w : W) (cs : List (Call N))
      → field_in (get_status num e process (w, cs)).0.body "running" ≡ boolean true
      → field_in (get_status num e process (w, cs)).0.body "pythonEngineRunning" ≡ boolean true
  unfolding get_status
  get_status_running process w cs h = ap boolean (list_active_running _ _ _ (ap as_boolean h))
