-- ===== src/Controls/Press.antt =====
-- Dashboard.tsx over bot.ts: what a click on the start and stop button does to the strategies.
use pumpy_v.Common.{
  ℕ, ◌≡◌, inl, inr, true, false, some, List, ◌∷◌, ◌++◌, map, not, String, Bool-cases,
}
use pumpy_v.Json.{Value, Numbers}
use pumpy_v.Bot.{Engines, Call, to_python, get_request, body_or_null}
use pumpy_v.Bot.Control.{names_in, activate_request, start, stop}
use pumpy_v.Bot.Activation.{set_all_strategies_calls}
use pumpy_v.Controls.{Controls, ctrl_pending, is_running, press}

module _ {N W : Type 0} (num : Numbers N) (shown : Value N → String) (e : Engines N W) where
  -- A click while no request is under way sets every strategy that the engine names: off if the bot runs, and on if it
  -- does not or its status is not known. If the names can be read, these are all the calls.
  pub press_calls :
      (numeral : ℕ → String) (c : Controls) (names : List (Value N)) (w : W) (cs : List (Call N))
      → ctrl_pending c ≡ false
      → names_in (body_or_null (e.fetch (get_request "/api/strategies") w).0) ≡ some names
      → (press num shown e numeral c (w, cs)).2
        ≡ cs
          ++ to_python (get_request "/api/strategies")
            ∷ map (λ name. to_python (activate_request (not (is_running c)) name)) names
  unfolding press start stop
  press_calls numeral c names w cs idle h = elim (Bool-cases (is_running c)) [
    | inl r ↦ rw (press, idle, r) (set_all_strategies_calls e false names w cs h).0
    | inr r ↦ rw (press, idle, r) (set_all_strategies_calls e true names w cs h).0
  ]
