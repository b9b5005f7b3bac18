-- ===== src/SystemConfig/Tests.antt =====
-- seed-system-config.ts and admin.ts: an empty table, a changed row, and the guard.
use pumpy_v.Common.{◌≡◌, refl, none, some, [], ◌∷◌}
use pumpy_v.AdminAuth.{require_admin_key}
use pumpy_v.SystemConfig.{Row, seed, get_system_config, error}
use pumpy_v.SystemConfig.Seeding.{seed_twice}

abbrev tuned : Row
tuned = record {
  key = "max_retries";
  value = "9";
  version = 4;
  description = none;
  updated_by = some "admin";
  updated_at = none;
}

all_new : (seed 7 ([], [])).0 ≡ some 17
unfolding seed
all_new = refl

one_there : (seed 7 (tuned ∷ [], [])).0 ≡ some 16
unfolding seed
one_there = refl

refused :
    get_system_config (λ rows. rows) (some "k") (some "x") (tuned ∷ [], [])
    ≡ error 401 "Unauthorized: valid X-Admin-Key header required"
unfolding get_system_config require_admin_key
refused = refl

seed_twice_example :
    seed 8 ((seed 7 (tuned ∷ [], [])).1, []) ≡ (some 0, (seed 7 (tuned ∷ [], [])).1, [])
seed_twice_example = seed_twice 7 8 (tuned ∷ [])
