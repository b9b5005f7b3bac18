-- ===== src/AdminKey/Tests.antt =====
-- use-admin-key.ts: the cache at concrete times.
use pumpy_v.Common.{ℕ, ◌≡◌, refl, List, [], ◌∷◌, arith}
use pumpy_v.AdminKey.{Event, sets, remembers, fires, mounts, initial, read_key, run, step}
use pumpy_v.AdminKey.Expiry.{good, grants, run-read_key}

abbrev session : List (ℕ × Event)
session = (10, mounts 1) ∷ (20, sets "k") ∷ (30, remembers "k") ∷ (300_020, fires) ∷ []

-- A mounted hook shows the key while it is good, and nothing once the timer has fired.
shown : (run session initial).views 1 ≡ "k"
unfolding run step
shown = refl

expired : (run ((3_600_030, fires) ∷ []) (run session initial)).views 1 ≡ ""
unfolding run step
expired = refl

run-read_key_example :
    (read_key 300_025 (run session initial)).0
    ≡ good 300_025 (grants session (record { key = ""; until = 0 }))
run-read_key_example = run-read_key session 300_025 (omega arith)
