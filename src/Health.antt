-- ===== src/Health.antt =====
-- artifacts/api-server/src/routes/health.ts: the readiness probe and its pooled connection. Times are
-- in milliseconds from the request on.
mod Tests
use pumpy_v.Common.{
  ℕ, ◌+◌, ◌≡◌, refl, ◌≤◌, ◌<◌, ◌↔◌, ◌⊎◌, inl, inr, Bool, true, false, Option, none, some,
  if◌then◌else◌, ltb, arith, ◌&&◌,
}

abbrev pub connect_timeout_ms : ℕ
connect_timeout_ms = 3000

-- What `pool.connect()` does: it yields a client, rejects, or stays pending.
pub data Connection : Type 0 where
  yields rejects : ℕ → Connection
  pending : Connection

-- What `Promise.race` settles to: the client, the rejection of the pool, or that of the timer.
pub data Raced : Type 0 where
  client rejected timed_out : Raced

unfoldable pub race : Connection → Raced
race (yields t) = if ltb t connect_timeout_ms then client else timed_out
race (rejects t) = if ltb t connect_timeout_ms then rejected else timed_out
race pending = timed_out

pub record Outcome : Type 0 where
  pub status : ℕ
  -- Clients that the pool gave out for the request, and how often one was released.
  pub acquired : ℕ
  pub released : ℕ

abbrev pub given_out : Connection → ℕ
given_out (yields t) = 1
given_out _ = 0

-- The `try` block: the two queries succeed or throw.
abbrev pub answer : Raced → Bool → Bool → ℕ
answer client limited selected = if limited && selected then 200 else 503
answer rejected limited selected = 503
answer timed_out limited selected = 503

-- The `finally` block: a client that came too late is released when it comes.
abbrev pub release : Raced → Connection → ℕ
release client c = 1
release rejected c = 0
release timed_out c = given_out c

unfoldable pub readiness : Connection → Bool → Bool → Outcome
unfolding race
readiness c limited selected = record {
  status = answer (race c) limited selected;
  acquired = given_out c;
  released = release (race c) c;
}

-- The pool yields a client before the timer.
abbrev pub in_time : Connection → Bool
in_time (yields t) = ltb t connect_timeout_ms
in_time _ = false

-- The probe answers 200 exactly if the pool yields a client in time and both queries succeed, and 503
-- otherwise; in every case each client that the pool gives out is released exactly once.
pub readiness_lem :
    (c : Connection) (limited selected : Bool)
    → let o = readiness c limited selected in
      (o.status ≡ (if in_time c && limited && selected then 200 else 503))
      × (o.released ≡ o.acquired)
unfolding readiness
readiness_lem (yields t) limited selected = ground arith
readiness_lem (rejects t) limited selected = ground arith
readiness_lem pending limited selected = ground arith
