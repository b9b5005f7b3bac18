-- ===== src/Python/Tests.antt =====
-- python-status.ts: a boot and a crash.
use pumpy_v.Common.{◌≡◌, refl, true, none, some, [], ◌∷◌}
use pumpy_v.Python.{starting, exited, Host, boot, spawns, exits, run, on_child}

abbrev host : Host
host = record {
  production = true;
  python_bin = "";
  python_cwd = "py";
  venv_python = "venv";
  exists = λ f. true;
  is_path = λ b. true;
}

booted : ((boot host).state ≡ starting) × ((boot host).bin ≡ some "venv")
unfolding boot
booted = (refl, refl)

crash : (run (spawns (some 7) 1 ∷ exits (some 1) none 2 ∷ []) (boot host)).state ≡ exited
unfolding run on_child
crash = refl
