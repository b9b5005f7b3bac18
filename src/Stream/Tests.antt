-- ===== src/Stream/Tests.antt =====
-- index.ts: the stream through an outage.
use pumpy_v.Common.{ℕ, ◌*◌, ◌≤◌, ◌≡◌, refl, true, false, none, some, List, [], ◌∷◌, arith, or_else}
use pumpy_v.Stream.{
  Draw, Stream, Event, updates, ends, reconnect_fires, compute_backoff_delay, step, run, boot,
}
use pumpy_v.Stream.Backoff.{planned_base, compute_backoff_delay_bounds}
use pumpy_v.Stream.Recovery.{IsLive, outage, run-boot-IsLive, outage-recovers}

abbrev half : Draw
half = record { r = 1; d = 2; in_range = omega arith }

abbrev session : List (ℕ × Draw × Event)
session =
    (10, half, updates)
    ∷ (20, half, ends)
    ∷ (21, half, ends)
    ∷ (2_020, half, reconnect_fires true)
    ∷ []

-- An error and an end start one timer; a restart that throws starts the next, with twice the base.
attempts :
    ((run session (boot 0 half false)).attempt ≡ 2)
    × ((run session (boot 0 half false)).reconnect_timer ≡ some 6_020)
unfolding run step boot compute_backoff_delay
attempts = (refl, refl)

compute_backoff_delay_bounds_example :
    (3 * planned_base 7 ≤ 4 * compute_backoff_delay 7 half)
    × (4 * compute_backoff_delay 7 half ≤ 5 * planned_base 7)
compute_backoff_delay_bounds_example = compute_backoff_delay_bounds 7 half

run-boot-IsLive_example : IsLive (run session (boot 0 half false))
run-boot-IsLive_example = run-boot-IsLive 0 half false session

abbrev down : Stream
down = record {
  active = false;
  cancel_fn = false;
  attempt = 1;
  health_timer = none;
  reconnect_timer = some 2_020;
}

outage-recovers_example :
    ((outage down (half ∷ [])).attempt ≡ 2)
    × ((step
          (or_else (outage down (half ∷ [])).reconnect_timer 0)
          half
          (reconnect_fires false)
          (outage down (half ∷ []))).active
        ≡ true)
outage-recovers_example = outage-recovers down (half ∷ []) half refl refl
