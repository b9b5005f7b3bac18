-- ===== src/Stream/Recovery.antt =====
-- index.ts: the stream is never lost, and never started twice.
use pumpy_v.Common.{
  ℕ, suc, ◌+◌, ◌≤◌, ◌<◌, ◌≡◌, ◌⊎◌, Bool, true, false, Option, none, some, List, [], ◌∷◌, arith,
  is_some, or_else, length,
}
use pumpy_v.Stream.{
  Draw, Stream, backoff_reset_after_ms, due, Event, updates, ends, health_fires, reconnect_fires,
  step, run, boot,
}

-- Either a stream is running and no reconnect is pending, or no stream is and one is pending.
abbrev pub IsLive : Stream → Type 0
IsLive s =
    ((s.active ≡ true) × (s.reconnect_timer ≡ none))
    ⊎ ((s.active ≡ false) × (s.cancel_fn ≡ false) × (is_some s.reconnect_timer ≡ true))

step-IsLive : (now : ℕ) (x : Draw) (e : Event) (s : Stream) → IsLive s → IsLive (step now x e s)
unfolding step
step-IsLive now x updates s h = ground arith
step-IsLive now x ends s h = ground arith
step-IsLive now x health_fires s h = ground arith
step-IsLive now x (reconnect_fires throws) s h = ground arith

run-IsLive : (es : List (ℕ × Draw × Event)) (s : Stream) → IsLive s → IsLive (run es s)
unfolding run
run-IsLive [] s h = h
run-IsLive ((now, x, e) ∷ es) s h = run-IsLive es (step now x e s) (step-IsLive now x e s h)

boot-IsLive : (now : ℕ) (x : Draw) (throws : Bool) → IsLive (boot now x throws)
unfolding boot
boot-IsLive now x throws = ground arith

-- From the boot on, whatever the engine and the timers do, in any order, and however often the start
-- throws: a stream is running and no reconnect is pending, or none is running and one reconnect is.
pub run-boot-IsLive :
    (now : ℕ) (x : Draw) (throws : Bool) (es : List (ℕ × Draw × Event))
    → IsLive (run es (boot now x throws))
run-boot-IsLive now x throws es = run-IsLive es (boot now x throws) (boot-IsLive now x throws)

-- Every attempt to restart, made when its timer is due, throws.
pub outage : Stream → List Draw → Stream
outage s [] = s
outage s (x ∷ xs) = outage (step (or_else s.reconnect_timer 0) x (reconnect_fires true) s) xs

due_self : (t : Option ℕ) → is_some t ≡ true → due t (or_else t 0) ≡ true
due_self none h = cc
due_self (some t) h = ground arith

-- What an outage keeps: no stream, and a pending reconnect.
abbrev IsDown : Stream → Type 0
IsDown s = (s.active ≡ false) × (is_some s.reconnect_timer ≡ true)

retry-IsDown :
    (s : Stream) (x : Draw)
    → IsDown s
    → IsDown (step (or_else s.reconnect_timer 0) x (reconnect_fires true) s)
      × ((step (or_else s.reconnect_timer 0) x (reconnect_fires true) s).attempt ≡ suc s.attempt)
unfolding step
retry-IsDown s x h = ground (arith, due_self s.reconnect_timer h.1)

outage-IsDown :
    (s : Stream) (xs : List Draw)
    → IsDown s
    → IsDown (outage s xs) × ((outage s xs).attempt ≡ s.attempt + length xs)
unfolding outage
outage-IsDown s [] h = (h, omega arith)
outage-IsDown s (x ∷ xs) h =
    let (down, counted) = retry-IsDown s x h in
    let (later, total) =
      outage-IsDown (step (or_else s.reconnect_timer 0) x (reconnect_fires true) s) xs down in
    (later, omega (arith, counted, total))

-- A stream that has ended comes back: however many restarts throw, each counts one attempt and leaves
-- the next one pending, and the first restart that does not throw makes the stream active.
pub outage-recovers :
    (s : Stream) (xs : List Draw) (x : Draw)
    → s.active ≡ false
    → is_some s.reconnect_timer ≡ true
    → ((outage s xs).attempt ≡ s.attempt + length xs)
      × ((step
            (or_else (outage s xs).reconnect_timer 0)
            x
            (reconnect_fires false)
            (outage s xs)).active
          ≡ true)
unfolding step
outage-recovers s xs x inactive pending =
    let (down, total) = outage-IsDown s xs (inactive, pending) in
    (total, ground (arith, due_self (outage s xs).reconnect_timer down.1))

-- All events fall into the 30 seconds from `t` on.
abbrev pub Within : ℕ → List (ℕ × Draw × Event) → Type 0
Within t [] = Unit
Within t ((now, x, e) ∷ es) = (t ≤ now) × (now < t + backoff_reset_after_ms) × Within t es

abbrev TooSoon : ℕ → Option ℕ → Type 0
TooSoon t none = Unit {0}
TooSoon t (some at) = t + backoff_reset_after_ms ≤ at

step-TooSoon :
    (t now : ℕ) (x : Draw) (e : Event) (s : Stream)
    → t ≤ now
    → now < t + backoff_reset_after_ms
    → TooSoon t s.health_timer
    → TooSoon t (step now x e s).health_timer × (s.attempt ≤ (step now x e s).attempt)
unfolding step
step-TooSoon t now x updates s h k q = ground arith
step-TooSoon t now x ends s h k q = ground arith
step-TooSoon t now x health_fires s h k q = ground arith
step-TooSoon t now x (reconnect_fires throws) s h k q = ground arith

run-TooSoon :
    (t : ℕ) (es : List (ℕ × Draw × Event)) (s : Stream)
    → Within t es
    → TooSoon t s.health_timer
    → s.attempt ≤ (run es s).attempt
unfolding run
run-TooSoon t [] s w q = omega arith
run-TooSoon t ((now, x, e) ∷ es) s w q =
    let (later, grows) = step-TooSoon t now x e s w.0 w.1 q in
    omega (arith, grows, run-TooSoon t es (step now x e s) w.2 later)

-- The number of attempts is not reset too soon: from a state with no pending health timer, no events
-- within 30 seconds make it smaller.
pub run-attempt-le :
    (t : ℕ) (es : List (ℕ × Draw × Event)) (s : Stream)
    → s.health_timer ≡ none
    → Within t es
    → s.attempt ≤ (run es s).attempt
run-attempt-le t es s h w = run-TooSoon t es s w (rw h tt)
