-- ===== src/Stream/Backoff.antt =====
-- index.ts: the delay before a reconnect.
use native.Mathlib.Nat.{le-div_iff_mul-le, div-lt_iff_lt-mul}
use pumpy_v.Common.{
  ℕ, zero, suc, ◌+◌, ◌*◌, ◌/◌, ◌^◌, ◌≤◌, ◌<◌, min, ◌≡◌, refl, arith, ltb, if◌then◌else◌,
}
use pumpy_v.Stream.{Draw, backoff_base, compute_backoff_delay, backoff_max_ms, backoff_base_ms}

-- The intended schedule: the base doubles with each attempt, and is capped from the sixth on.
abbrev pub planned_base : ℕ → ℕ
planned_base a = if ltb a 6 then backoff_base_ms * 2 ^ a else backoff_max_ms

capped : (m : ℕ) → 6 ≤ m → m ≤ 10 → min (1000 * 2 ^ m) 60000 ≡ 60000
capped zero h k = absurd (omega arith)
capped (suc zero) h k = absurd (omega arith)
capped (suc (suc zero)) h k = absurd (omega arith)
capped (suc (suc (suc zero))) h k = absurd (omega arith)
capped (suc (suc (suc (suc zero)))) h k = absurd (omega arith)
capped (suc (suc (suc (suc (suc zero))))) h k = absurd (omega arith)
capped (suc (suc (suc (suc (suc (suc zero)))))) h k = refl
capped (suc (suc (suc (suc (suc (suc (suc zero))))))) h k = refl
capped (suc (suc (suc (suc (suc (suc (suc (suc zero)))))))) h k = refl
capped (suc (suc (suc (suc (suc (suc (suc (suc (suc zero))))))))) h k = refl
capped (suc (suc (suc (suc (suc (suc (suc (suc (suc (suc zero)))))))))) h k = refl
capped (suc (suc (suc (suc (suc (suc (suc (suc (suc (suc (suc m))))))))))) h k =
    absurd (omega arith)

-- A base that is a multiple of 4, in the form that the bounds use.
base_table : (a : ℕ) → (q : ℕ) × (backoff_base a ≡ 4 * q) × (planned_base a ≡ 4 * q)
unfolding backoff_base
base_table zero = (250, refl, refl)
base_table (suc zero) = (500, refl, refl)
base_table (suc (suc zero)) = (1000, refl, refl)
base_table (suc (suc (suc zero))) = (2000, refl, refl)
base_table (suc (suc (suc (suc zero)))) = (4000, refl, refl)
base_table (suc (suc (suc (suc (suc zero))))) = (8000, refl, refl)
base_table (suc (suc (suc (suc (suc (suc a)))))) = (
  15000,
  capped (min (suc (suc (suc (suc (suc (suc a)))))) 10) (omega arith) (omega arith),
  ground arith,
)

delay_above : (q : ℕ) (x : Draw) → 3 * q ≤ (4 * q * (3 * x.d + 2 * x.r) + 2 * x.d) / (4 * x.d)
delay_above q x = (le-div_iff_mul-le (omega (arith, x.in_range))).1 (omega arith)

delay_below : (q : ℕ) (x : Draw) → (4 * q * (3 * x.d + 2 * x.r) + 2 * x.d) / (4 * x.d) < 5 * q + 1
delay_below q x = (div-lt_iff_lt-mul (omega (arith, x.in_range))).1 (grind (arith, x.in_range))

-- For every number of attempts and every draw, the delay lies within a quarter of the planned base on
-- either side.
pub compute_backoff_delay_bounds :
    (attempt : ℕ) (x : Draw)
    → (3 * planned_base attempt ≤ 4 * compute_backoff_delay attempt x)
      × (4 * compute_backoff_delay attempt x ≤ 5 * planned_base attempt)
unfolding compute_backoff_delay
compute_backoff_delay_bounds attempt x =
    let (q, base, planned) = base_table attempt in
    rw (base, planned) (omega (arith, delay_above q x), omega (arith, delay_below q x))
