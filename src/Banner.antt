-- ===== src/Banner.antt =====
-- artifacts/dashboard/src/components/OfflineBanner.tsx: the probe socket, its reconnect timers and the buttons. A socket is
-- a number; its handlers fire as events, `closed` once for each. A socket that `close()` is called on
-- closes later, like any other.
pub mod Progress
pub mod Leaks
mod Tests
use pumpy_v.Common.{
  ℕ, zero, suc, Bool, true, false, Option, none, some, List, [], ◌∷◌, ◌++◌, if◌then◌else◌, not,
  ◌&&◌, ◌==◌, any,
}

abbrev pub reconnect_delay_ms : ℕ
reconnect_delay_ms = 5000

pub data ConnectionState : Type 0 where
  connecting : ConnectionState
  online : ConnectionState
  offline : ConnectionState

-- `open_sockets` have not closed yet, `timers` are pending, by their numbers. `ws_ref` and `timer_ref` are the refs;
-- `next` is the number of the next socket or timer.
pub record Banner : Type 0 where
  pub conn_state : ConnectionState
  pub dismissed : Bool
  pub ws_ref : Option ℕ
  pub timer_ref : Option ℕ
  pub open_sockets : List ℕ
  pub timers : List ℕ
  pub next : ℕ

abbrev pub mem : ℕ → List ℕ → Bool
mem k ks = any (λ j. j == k) ks

abbrev pub without : ℕ → List ℕ → List ℕ
without k [] = []
without k (j ∷ js) = if j == k then js else j ∷ without k js

abbrev cleared : Option ℕ → List ℕ → List ℕ
cleared none ts = ts
cleared (some t) ts = without t ts

-- `clearTimer`
unfoldable pub clear_timer : Banner → Banner
clear_timer b = record b { timers = cleared b.timer_ref b.timers; timer_ref = none }

-- `connect`: the old socket is told to close, and a new one is made.
unfoldable pub connect : Banner → Banner
connect b = record b {
  ws_ref = some b.next;
  open_sockets = b.open_sockets ++ b.next ∷ [];
  next = suc b.next;
}

abbrev initial : Banner
initial = record {
  conn_state = connecting;
  dismissed = false;
  ws_ref = none;
  timer_ref = none;
  open_sockets = [];
  timers = [];
  next = 0;
}

-- The effect of mounting: `connect()`.
unfoldable pub mount : Banner
unfolding connect
mount = connect initial

-- The clean-up: the socket is told to close, and its handlers stay.
unfoldable pub unmount : Banner → Banner
unfolding clear_timer
unmount b = clear_timer b

pub data Event : Type 0 where
  opened : ℕ → Event
  errored : ℕ → Event
  closed : ℕ → Event
  fired : ℕ → Event
  retry : Event
  dismiss : Event

-- `ws.onclose`
unfoldable pub on_close : ℕ → Banner → Banner
on_close k b = record b {
  conn_state = offline;
  open_sockets = without k b.open_sockets;
  timer_ref = some b.next;
  timers = b.timers ++ b.next ∷ [];
  next = suc b.next;
}

unfoldable pub step : Event → Banner → Banner
unfolding clear_timer connect on_close
step (opened k) b =
    if mem k b.open_sockets then record b { conn_state = online; dismissed = false } else b
step (errored k) b = if mem k b.open_sockets then record b { conn_state = offline } else b
step (closed k) b = if mem k b.open_sockets then on_close k b else b
step (fired t) b = if mem t b.timers then connect (record b { timers = without t b.timers }) else b
step retry b = connect (clear_timer b)
step dismiss b = record b { dismissed = true }

unfoldable pub run : List Event → Banner → Banner
unfolding step
run [] b = b
run (e ∷ es) b = run es (step e b)

abbrev is_offline : ConnectionState → Bool
is_offline offline = true
is_offline _ = false

unfoldable pub show_banner : Banner → Bool
show_banner b = is_offline b.conn_state && not b.dismissed
