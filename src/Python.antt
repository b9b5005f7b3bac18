-- ===== src/Python.antt =====
-- artifacts/api-server/src/lib/python-status.ts, and the part of index.ts that runs the Python engine
-- as a child process in production. Paths are texts; joining them is left to the environment.
pub mod Status
mod Tests
use pumpy_v.Common.{
  ℕ, String, Bool, true, false, Option, none, some, List, [], ◌∷◌, if◌then◌else◌, or_else, truthy,
  ◌||◌,
}

pub data PythonState : Type 0 where
  disabled starting running exited failed : PythonState

-- A field that may be null is an `Option`.
pub record PythonStatus : Type 0 where
  pub state : PythonState
  pub bin : Option String
  pub bin_source : Option String
  pub pid : Option ℕ
  pub cwd : Option String
  pub cwd_exists : Option Bool
  pub bin_exists : Option Bool
  pub last_error : Option String
  pub exit_code : Option ℕ
  pub exit_signal : Option String
  pub started_at : Option ℕ
  pub exited_at : Option ℕ

-- A `Partial<PythonStatus>`: `none` is a key that is absent.
pub record Patch : Type 0 where
  pub state : Option PythonState
  pub bin : Option (Option String)
  pub bin_source : Option (Option String)
  pub pid : Option (Option ℕ)
  pub cwd : Option (Option String)
  pub cwd_exists : Option (Option Bool)
  pub bin_exists : Option (Option Bool)
  pub last_error : Option (Option String)
  pub exit_code : Option (Option ℕ)
  pub exit_signal : Option (Option String)
  pub started_at : Option (Option ℕ)
  pub exited_at : Option (Option ℕ)

abbrev pub initial : PythonStatus
initial = record {
  state = disabled;
  bin = none;
  bin_source = none;
  pid = none;
  cwd = none;
  cwd_exists = none;
  bin_exists = none;
  last_error = none;
  exit_code = none;
  exit_signal = none;
  started_at = none;
  exited_at = none;
}

-- `{}`
abbrev pub no_patch : Patch
no_patch = record {
  state = none;
  bin = none;
  bin_source = none;
  pid = none;
  cwd = none;
  cwd_exists = none;
  bin_exists = none;
  last_error = none;
  exit_code = none;
  exit_signal = none;
  started_at = none;
  exited_at = none;
}

unfoldable pub set_python_status : Patch → PythonStatus → PythonStatus
set_python_status p s = record {
  state = or_else p.state s.state;
  bin = or_else p.bin s.bin;
  bin_source = or_else p.bin_source s.bin_source;
  pid = or_else p.pid s.pid;
  cwd = or_else p.cwd s.cwd;
  cwd_exists = or_else p.cwd_exists s.cwd_exists;
  bin_exists = or_else p.bin_exists s.bin_exists;
  last_error = or_else p.last_error s.last_error;
  exit_code = or_else p.exit_code s.exit_code;
  exit_signal = or_else p.exit_signal s.exit_signal;
  started_at = or_else p.started_at s.started_at;
  exited_at = or_else p.exited_at s.exited_at;
}

abbrev is_running : PythonState → Bool
is_running running = true
is_running _ = false

unfoldable pub is_python_healthy : PythonStatus → Bool
is_python_healthy s = is_running s.state

-- What the boot reads of the process and the file system. `is_path` is true of an interpreter that is
-- absolute or holds a slash, and `exists` is `existsSync`.
pub record Host : Type 0 where
  pub production : Bool
  pub python_bin : String
  pub python_cwd : String
  pub venv_python : String
  pub exists : String → Bool
  pub is_path : String → Bool

-- The interpreter and its source.
unfoldable pub resolve_bin : Host → String × String
resolve_bin h =
    if truthy h.python_bin
    then (h.python_bin, "PYTHON_BIN env")
    else if h.exists h.venv_python
    then (h.venv_python, ".pythonlibs/bin/python3")
    else ("python3", "PATH")

-- `binExists`: null for a bare name, which is left to PATH.
abbrev pub bin_exists : Host → String → Option Bool
bin_exists h b = if h.is_path b then some (h.exists b) else none

unfoldable pub boot : Host → PythonStatus
unfolding resolve_bin set_python_status
boot h =
    let (b, source) = resolve_bin h in
    if h.production
    then set_python_status
        (record no_patch {
          state = some starting;
          bin = some (some b);
          bin_source = some (some source);
          cwd = some (some h.python_cwd);
          cwd_exists = some (some (h.exists h.python_cwd));
          bin_exists = some (bin_exists h b);
        })
        initial
    else initial

-- The events of the child process.
pub data ChildEvent : Type 0 where
  -- `py.pid ?? null`, and the time
  spawns : Option ℕ → ℕ → ChildEvent
  errs : String → ChildEvent
  exits : Option ℕ → Option String → ℕ → ChildEvent

unfoldable pub on_child : ChildEvent → PythonStatus → PythonStatus
unfolding set_python_status
on_child (spawns pid now) s =
    set_python_status
      (record no_patch { state = some running; pid = some pid; started_at = some (some now) }) s
on_child (errs message) s =
    set_python_status (record no_patch { state = some failed; last_error = some (some message) }) s
on_child (exits code signal now) s =
    set_python_status
      (record no_patch {
        state = some exited;
        exit_code = some code;
        exit_signal = some signal;
        exited_at = some (some now);
        pid = some none;
      })
      s

pub run : List ChildEvent → PythonStatus → PythonStatus
run [] s = s
run (e ∷ es) s = run es (on_child e s)
