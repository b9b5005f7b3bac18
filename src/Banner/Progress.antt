-- ===== src/Banner/Progress.antt =====
-- OfflineBanner.tsx: while it is mounted, the banner never waits for nothing.
use pumpy_v.Common.{ℕ, ◌+◌, ◌≤◌, inl, inr, List, [], ◌∷◌, Bool-cases, arith, length, length-append}
use pumpy_v.Banner.{
  Banner, Event, opened, errored, closed, fired, retry, dismiss, connect, clear_timer, on_close,
  step, run, mount, mem,
}

-- What can still happen: the sockets that have not closed and the timers that are pending.
abbrev pub pending : Banner → ℕ
pending b = length b.open_sockets + length b.timers

step-pending : (e : Event) (b : Banner) → 1 ≤ pending b → 1 ≤ pending (step e b)
unfolding step connect clear_timer on_close
step-pending (opened k) b h = elim (Bool-cases (mem k b.open_sockets)) [
  | inl e ↦ rw (step, e) h
  | inr e ↦ rw (step, e) h
]
step-pending (errored k) b h = elim (Bool-cases (mem k b.open_sockets)) [
  | inl e ↦ rw (step, e) h
  | inr e ↦ rw (step, e) h
]
step-pending (closed k) b h = elim (Bool-cases (mem k b.open_sockets)) [
  | inl e ↦ rw (step, e) (omega (arith, length-append b.timers (b.next ∷ [])))
  | inr e ↦ rw (step, e) h
]
step-pending (fired t) b h = elim (Bool-cases (mem t b.timers)) [
  | inl e ↦ rw (step, e) (omega (arith, length-append b.open_sockets (b.next ∷ [])))
  | inr e ↦ rw (step, e) h
]
step-pending retry b h = omega (arith, length-append b.open_sockets (b.next ∷ []))
step-pending dismiss b h = h

run-pending : (es : List Event) (b : Banner) → 1 ≤ pending b → 1 ≤ pending (run es b)
unfolding run
run-pending [] b h = h
run-pending (e ∷ es) b h = run-pending es (step e b) (step-pending e b h)

-- After any history of a mounted banner a socket is open or a reconnect is pending.
pub run-mount-pending : (es : List Event) → 1 ≤ pending (run es mount)
unfolding mount
run-mount-pending es = run-pending es mount (omega arith)
