-- ===== src/Controls.antt =====
-- The start and stop button of artifacts/dashboard/src/pages/Dashboard.tsx over POST /bot/start and /bot/stop (Bot/Control.antt).
-- A request that is under way is counted in the state, and its outcome is an event. The refetch of the
-- status is an event of its own.
pub mod Requests
pub mod Press
mod Tests
use pumpy_v.Common.{
  ℕ, suc, ◌-◌, String, Bool, true, false, Option, none, some, List, [], ◌∷◌, ◌++◌, if◌then◌else◌,
  not, ◌&&◌, ◌||◌, ltb, ◌==◌,
}
use pumpy_v.Json.{Value, Numbers, reader, is_truthy}
use pumpy_v.Bot.{Engines, Io, Reply, done, ◌>>=◌}
use pumpy_v.Bot.Control.{start, stop}

pub record Status : Type 0 where
  pub running : Bool
  pub python_engine_running : Bool

pub record Toast : Type 0 where
  pub title : String
  pub description : String
  pub destructive : Bool

pub data Action : Type 0 where
  to_start to_stop : Action

pub record Controls : Type 0 where
  pub status : Option Status
  -- the requests under way
  pub starts : ℕ
  pub stops : ℕ
  -- what was sent and what was shown, the latest last
  pub sent : List Action
  pub toasts : List Toast

-- What `botControl` settles with: `data.success` and `data.message`, or the message of an error.
pub data Outcome : Type 0 where
  answered : Bool → String → Outcome
  threw : String → Outcome

abbrev pub is_running : Controls → Bool
is_running c = elim c.status [ none ↦ false | some s ↦ s.running ]

unfoldable pub engine_offline : Controls → Bool
engine_offline c =
    not (is_running c) && not (elim c.status [ none ↦ false | some s ↦ s.python_engine_running ])

abbrev pub ctrl_pending : Controls → Bool
ctrl_pending c = ltb 0 c.starts || ltb 0 c.stops

-- `onClick`, behind the button's `disabled`.
unfoldable pub click : Controls → Controls
click c =
    if ctrl_pending c
    then c
    else if is_running c
    then record c { stops = suc c.stops; sent = c.sent ++ to_stop ∷ [] }
    else record c { starts = suc c.starts; sent = c.sent ++ to_start ∷ [] }

abbrev pub start_toast : Outcome → Toast
start_toast (answered true message) = record {
  title = "Bot started";
  description = message;
  destructive = false;
}
start_toast (answered false message) = record {
  title = "Could not start bot";
  description = message;
  destructive = true;
}
start_toast (threw message) = record {
  title = "Start failed";
  description = message;
  destructive = true;
}

abbrev pub stop_toast : Outcome → Toast
stop_toast (answered true message) = record {
  title = "Bot stopped";
  description = message;
  destructive = false;
}
stop_toast (answered false message) = record {
  title = "Could not stop bot";
  description = message;
  destructive = true;
}
stop_toast (threw message) = record {
  title = "Stop failed";
  description = message;
  destructive = true;
}

-- `onSuccess` and `onError` of the two mutations.
unfoldable pub start_settled : Outcome → Controls → Controls
start_settled o c = record c { starts = c.starts - 1; toasts = c.toasts ++ start_toast o ∷ [] }

unfoldable pub stop_settled : Outcome → Controls → Controls
stop_settled o c = record c { stops = c.stops - 1; toasts = c.toasts ++ stop_toast o ∷ [] }

pub data Event : Type 0 where
  polls : Option Status → Event
  clicks : Event
  start_settles : Outcome → Event
  stop_settles : Outcome → Event

-- An outcome comes only of a request that is under way.
unfoldable pub step : Event → Controls → Controls
unfolding click start_settled stop_settled
step (polls s) c = record c { status = s }
step clicks c = click c
step (start_settles o) c = if ltb 0 c.starts then start_settled o c else c
step (stop_settles o) c = if ltb 0 c.stops then stop_settled o c else c

unfoldable pub run : List Event → Controls → Controls
unfolding step
run [] c = c
run (e ∷ es) c = run es (step e c)

abbrev pub initial : Controls
initial = record { status = none; starts = 0; stops = 0; sent = []; toasts = [] }

module _ {N : Type 0} (num : Numbers N) (shown : Value N → String) where
  -- `data.success` and `data.message`; `shown` is the text that a toast makes of a value.
  abbrev pub outcome_of : Reply N → Outcome
  outcome_of reply = elim (reader reply.body) [
    | none ↦ threw "no body"
    | some data_ ↦ answered (is_truthy num (data_ "success")) (shown (data_ "message"))
  ]

  module _ {W : Type 0} (e : Engines N W) where
    -- A click with the server behind it; `numeral` is the numeral of a number.
    unfoldable pub press : (ℕ → String) → Controls → Io N W Controls
    unfolding click start_settled stop_settled
    press numeral c =
        if ctrl_pending c
        then done c
        else if is_running c
        then (stop e numeral >>= λ reply. done (stop_settled (outcome_of reply) (click c)))
        else (start e numeral >>= λ reply. done (start_settled (outcome_of reply) (click c)))
