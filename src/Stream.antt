-- ===== src/Stream.antt =====
-- artifacts/api-server/src/index.ts, the singleton gRPC stream: one StreamOrders call that is
-- restarted with exponential backoff. Timers are the times at which they are due; `now` is the time of
-- an event. `Math.random()` is the fraction r / d with r < d, taken exactly.
pub mod Backoff
pub mod Recovery
mod Tests
use pumpy_v.Common.{
  ℕ, suc, ◌+◌, ◌*◌, ◌/◌, ◌^◌, ◌<◌, min, Bool, true, false, Option, none, some, List, [], ◌∷◌,
  if◌then◌else◌, leb, is_some,
}

abbrev pub backoff_base_ms : ℕ
backoff_base_ms = 1_000

abbrev pub backoff_max_ms : ℕ
backoff_max_ms = 60_000

abbrev pub backoff_multiplier : ℕ
backoff_multiplier = 2

abbrev pub backoff_reset_after_ms : ℕ
backoff_reset_after_ms = 30_000

-- A draw of `Math.random()`.
pub record Draw : Type 0 where
  pub r : ℕ
  pub d : ℕ
  pub in_range : r < d

pub record Stream : Type 0 where
  pub active : Bool
  pub cancel_fn : Bool
  pub attempt : ℕ
  pub health_timer : Option ℕ
  pub reconnect_timer : Option ℕ

abbrev pub initial : Stream
initial = record {
  active = false;
  cancel_fn = false;
  attempt = 0;
  health_timer = none;
  reconnect_timer = none;
}

-- `base` of `computeBackoffDelay`
unfoldable pub backoff_base : ℕ → ℕ
backoff_base attempt = min (backoff_base_ms * backoff_multiplier ^ min attempt 10) backoff_max_ms

-- `Math.round(base + base * 0.25 * (Math.random() * 2 - 1))`: the sum is base * (3 d + 2 r) / (4 d),
-- and rounding adds a half.
unfoldable pub compute_backoff_delay : ℕ → Draw → ℕ
unfolding backoff_base
compute_backoff_delay attempt x = (backoff_base attempt * (3 * x.d + 2 * x.r) + 2 * x.d) / (4 * x.d)

unfoldable pub reset_backoff : Stream → Stream
reset_backoff s = record s { attempt = 0; health_timer = none }

-- `scheduleReconnect`: nothing if a timer is pending.
unfoldable pub schedule_reconnect : ℕ → Draw → Stream → Stream
schedule_reconnect now x s = if is_some s.reconnect_timer then s else record s {
  attempt = suc s.attempt;
  reconnect_timer = some (now + compute_backoff_delay (suc s.attempt) x);
}

-- `startSingletonStream`; `throws` says whether `streamOrders` throws at once.
unfoldable pub start_singleton_stream : ℕ → Draw → Bool → Stream → Stream
unfolding schedule_reconnect
start_singleton_stream now x throws s =
    if s.active
    then s
    else if throws
    then schedule_reconnect now x (record s { active = false })
    else record s { active = true; cancel_fn = true }

-- The `onUpdate` callback, up to the relay of the update.
unfoldable pub on_update : ℕ → Stream → Stream
on_update now s =
    if is_some s.health_timer
    then s
    else record s { health_timer = some (now + backoff_reset_after_ms) }

-- The `onEnd` callback, on the stream's end or error.
unfoldable pub on_end : ℕ → Draw → Stream → Stream
unfolding schedule_reconnect
on_end now x s =
    schedule_reconnect now x (record s { health_timer = none; active = false; cancel_fn = false })

abbrev pub due : Option ℕ → ℕ → Bool
due none now = false
due (some t) now = leb t now

pub data Event : Type 0 where
  updates ends health_fires : Event
  -- The reconnect timer fires; `streamOrders` throws at once or not.
  reconnect_fires : Bool → Event

-- A timer fires no earlier than it is due.
unfoldable pub step : ℕ → Draw → Event → Stream → Stream
unfolding on_update on_end reset_backoff start_singleton_stream
step now x updates s = on_update now s
step now x ends s = on_end now x s
step now x health_fires s = if due s.health_timer now then reset_backoff s else s
step now x (reconnect_fires throws) s =
    if due s.reconnect_timer now
    then start_singleton_stream now x throws (record s { reconnect_timer = none })
    else s

pub run : List (ℕ × Draw × Event) → Stream → Stream
run [] s = s
run ((now, x, e) ∷ es) s = run es (step now x e s)

-- The server boots: `startSingletonStream()` at the end of the module.
unfoldable pub boot : ℕ → Draw → Bool → Stream
unfolding start_singleton_stream
boot now x throws = start_singleton_stream now x throws initial
