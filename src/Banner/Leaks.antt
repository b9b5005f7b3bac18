-- ===== src/Banner/Leaks.antt =====
-- OfflineBanner.tsx: a socket that was replaced or outlived the banner still reconnects.
use pumpy_v.Common.{ℕ, suc, ◌≡◌, refl, true, some, List, [], ◌∷◌, ◌++◌, arith}
use pumpy_v.Banner.{Banner, closed, fired, connect, on_close, step, run, mem}

mem-last : (k : ℕ) (ks : List ℕ) → mem k (ks ++ k ∷ []) ≡ true
mem-last k [] = ground arith
mem-last k (j ∷ js) = ground (arith, mem-last k js)

-- A socket that closes arms a timer, and when it fires a new socket replaces the present one, whichever
-- that is: also after the banner was unmounted, and also when the closed socket was not the present one.
pub closed_reconnects :
    (k : ℕ) (b : Banner)
    → mem k b.open_sockets ≡ true
    → (run (closed k ∷ fired b.next ∷ []) b).ws_ref ≡ some (suc b.next)
unfolding run on_close connect
closed_reconnects k b h = rw (run, step, h, mem-last b.next b.timers) refl
