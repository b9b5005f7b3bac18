-- ===== src/Banner/Tests.antt =====
-- OfflineBanner.tsx: a lost connection, an unmounted banner, and a retry while connecting.
use pumpy_v.Common.{◌≤◌, ◌≡◌, refl, true, false, some, [], ◌∷◌}
use pumpy_v.Banner.{opened, closed, fired, retry, dismiss, mount, run, show_banner}
use pumpy_v.Banner.Progress.{pending, run-mount-pending}

lost :
    (show_banner (run (opened 0 ∷ closed 0 ∷ []) mount) ≡ true)
    × (show_banner (run (closed 0 ∷ dismiss ∷ []) mount) ≡ false)
unfolding run mount show_banner
lost = (refl, refl)

-- Retry while the first socket is connecting: it closes later, and its timer replaces the second socket.
churn : (run (retry ∷ opened 1 ∷ closed 0 ∷ fired 2 ∷ []) mount).ws_ref ≡ some 3
unfolding run mount
churn = refl

run-mount-pending_example : 1 ≤ pending (run (opened 0 ∷ closed 0 ∷ fired 1 ∷ retry ∷ []) mount)
run-mount-pending_example = run-mount-pending (opened 0 ∷ closed 0 ∷ fired 1 ∷ retry ∷ [])
