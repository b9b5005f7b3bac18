-- ===== src/Python/Status.antt =====
-- python-status.ts and index.ts: the reported status is that of the child's last event.
use pumpy_v.Common.{ℕ, ◌≡◌, refl, Bool, true, false, Option, none, List, [], ◌∷◌, ◌++◌, arith}
use pumpy_v.Python.{
  PythonStatus, is_python_healthy, Host, boot, ChildEvent, spawns, errs, exits, on_child, run,
}

abbrev pub is_spawn : ChildEvent → Bool
is_spawn (spawns pid now) = true
is_spawn _ = false

-- The process id that an event leaves, from that before it.
abbrev pub pid_after : ChildEvent → Option ℕ → Option ℕ
pid_after (spawns pid now) old = pid
pid_after (errs message) old = old
pid_after (exits code signal now) old = none

run-append :
    (es : List ChildEvent) (e : ChildEvent) (s : PythonStatus)
    → run (es ++ e ∷ []) s ≡ on_child e (run es s)
unfolding run
run-append [] e s = refl
run-append (x ∷ es) e s = run-append es e (on_child x s)

-- The paths of the boot.
pub record SamePaths (s t : PythonStatus) : Type 0 where
  pub bin : t.bin ≡ s.bin
  pub bin_source : t.bin_source ≡ s.bin_source
  pub cwd : t.cwd ≡ s.cwd
  pub cwd_exists : t.cwd_exists ≡ s.cwd_exists
  pub bin_exists : t.bin_exists ≡ s.bin_exists

run-SamePaths : (es : List ChildEvent) (s : PythonStatus) → SamePaths s (run es s)
unfolding run on_child
run-SamePaths [] s = ground arith
run-SamePaths (spawns pid now ∷ es) s =
    ground (arith, run-SamePaths es (on_child (spawns pid now) s))
run-SamePaths (errs m ∷ es) s = ground (arith, run-SamePaths es (on_child (errs m) s))
run-SamePaths (exits c g now ∷ es) s = ground (arith, run-SamePaths es (on_child (exits c g now) s))

on_child-healthy :
    (e : ChildEvent) (s : PythonStatus)
    → (is_python_healthy (on_child e s) ≡ is_spawn e) × ((on_child e s).pid ≡ pid_after e s.pid)
unfolding on_child is_python_healthy
on_child-healthy (spawns pid now) s = (refl, refl)
on_child-healthy (errs message) s = (refl, refl)
on_child-healthy (exits code signal now) s = (refl, refl)

-- However often the engine was spawned, failed and exited before, it is reported healthy exactly if
-- the last event was a spawn; an exit leaves no process id; and the interpreter, its source and the
-- paths stay those of the boot.
pub run_last :
    (h : Host) (es : List ChildEvent) (e : ChildEvent)
    → let s = run (es ++ e ∷ []) (boot h) in
      (is_python_healthy s ≡ is_spawn e)
      × (s.pid ≡ pid_after e (run es (boot h)).pid)
      × SamePaths (boot h) s
run_last h es e =
    let (health, pid) = on_child-healthy e (run es (boot h)) in
    (
      rw (run-append es e (boot h)) health,
      rw (run-append es e (boot h)) pid,
      run-SamePaths (es ++ e ∷ []) (boot h),
    )
