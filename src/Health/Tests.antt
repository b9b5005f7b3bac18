-- ===== src/Health/Tests.antt =====
-- health.ts: a client that comes too late.
use pumpy_v.Common.{◌≡◌, refl, true}
use pumpy_v.Health.{yields, rejects, readiness}

late :
    ((readiness (yields 4000) true true).status ≡ 503)
    × ((readiness (rejects 10) true true).released ≡ 0)
unfolding readiness
late = (refl, refl)
