-- ===== src/Controls/Tests.antt =====
-- Dashboard.tsx: a double click, a start whose answer is false, and a click with the Python engine behind it.
use pumpy_v.Common.{◌+◌, ◌≤◌, ◌≡◌, refl, true, false, some, List, [], ◌∷◌, ◌++◌, map, length, not}
use pumpy_v.Json.{text}
use pumpy_v.Bot.{to_python, get_request}
use pumpy_v.Bot.Control.{activate_request}
use pumpy_v.Bot.Tests.{whole, python_only}
use pumpy_v.Controls.{
  Controls, Event, clicks, start_settles, answered, initial, run, press, is_running, start_toast,
}
use pumpy_v.Controls.Requests.{run-initial-single}
use pumpy_v.Controls.Press.{press_calls}

abbrev double_click : List Event
double_click = clicks ∷ clicks ∷ start_settles (answered false "Python engine unreachable") ∷ []

one_start :
    (run double_click initial).toasts
    ≡ start_toast (answered false "Python engine unreachable") ∷ []
unfolding run
one_start = refl

run-initial-single_example :
    let c = run double_click initial in
    (c.starts + c.stops ≤ 1) × (length c.sent ≡ length c.toasts + (c.starts + c.stops))
run-initial-single_example = run-initial-single double_click

-- The bot runs, so that the click stops it.
abbrev running : Controls
running = record initial { status = some (record { running = true; python_engine_running = true }) }

press_calls_example :
    (press whole (λ v. "") python_only (λ n. "2") running (tt, [])).2
    ≡ []
      ++ to_python (get_request "/api/strategies")
        ∷ map
            (λ name. to_python (activate_request (not (is_running running)) name))
            (text "sniper" ∷ text "momentum" ∷ [])
press_calls_example =
    press_calls whole (λ v. "") python_only (λ n. "2") running
      (text "sniper" ∷ text "momentum" ∷ []) tt [] refl refl
