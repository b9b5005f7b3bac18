-- ===== src/Forms.antt =====
-- The forms of artifacts/dashboard/src/pages/Settings.tsx that save the configuration: `ConnectionCard`,
-- `ServiceUrlsCard` and `JitoMevSettingsCard`. A request that is under way is counted in the state, and
-- its answer is an event; an answer is `true` if it came with success. The toasts are left out.
pub mod Reload
pub mod Requests
pub mod Saves
pub mod Cards
mod Tests
use pumpy_v.Common.{
  ℕ, suc, ◌-◌, String, Bool, true, false, Option, none, some, List, [], ◌∷◌, if◌then◌else◌, not,
  ◌||◌, or_else, codes, ltb, length,
}
use pumpy_v.Text.{Text, is_empty, trim, same}
use pumpy_v.Settings.{Env}

-- `config[key] ?? value`
abbrev pub config_or : Env → String → Text → Text
config_or config key value = or_else (config key) value

pub record TestResult : Type 0 where
  pub ok : Bool
  pub latency_ms : Option ℕ

pub record Connection : Type 0 where
  pub rpc_url : Text
  pub rpc_urls : Text
  pub jito_url : Text
  pub is_saving : Bool
  pub is_testing : Bool
  pub test_result : Option TestResult
  pub show_restart : Bool
  -- the requests under way: saves, and the URLs of tests
  pub saves : ℕ
  pub tests : List Text

-- The effect on `config`.
abbrev pub load_connection : Env → Connection → Connection
load_connection config c = record c {
  rpc_url = config_or config "SOLANA_RPC_URL" [];
  rpc_urls = config_or config "SOLANA_RPC_URLS" [];
  jito_url = config_or config "JITO_BUNDLE_URL" [];
}

abbrev pub connection_body : Connection → List (String × Text)
connection_body c =
    ("SOLANA_RPC_URL", trim c.rpc_url)
    ∷ ("SOLANA_RPC_URLS", trim c.rpc_urls)
    ∷ ("JITO_BUNDLE_URL", trim c.jito_url)
    ∷ []

-- `handleSave`, behind the button's `disabled`, up to its request.
unfoldable pub save_connection : Connection → Connection
save_connection c = if c.is_saving then c else record c { is_saving = true; saves = suc c.saves }

unfoldable pub connection_saved : Bool → Connection → Connection
connection_saved ok c = record c {
  is_saving = false;
  show_restart = ok || c.show_restart;
  saves = c.saves - 1;
}

-- `handleTestRpc`, behind the button's `disabled`, up to its request.
unfoldable pub handle_test_rpc : Connection → Connection
handle_test_rpc c =
    if c.is_testing || is_empty (trim c.rpc_url)
    then c
    else record c { is_testing = true; test_result = none; tests = trim c.rpc_url ∷ c.tests }

abbrev pub failed_test : TestResult
failed_test = record { ok = false; latency_ms = none }

abbrev pub drop_first : List Text → List Text
drop_first [] = []
drop_first (u ∷ us) = us

-- Its answer, `none` if the fetch or the reading of the body throws.
unfoldable pub rpc_tested : Option TestResult → Connection → Connection
rpc_tested answer c = record c {
  is_testing = false;
  test_result = some (or_else answer failed_test);
  tests = drop_first c.tests;
}

unfoldable pub type_rpc_url : Text → Connection → Connection
type_rpc_url t c = record c { rpc_url = t; test_result = none }

pub data ConnectionEvent : Type 0 where
  loads : Env → ConnectionEvent
  types_rpc_url : Text → ConnectionEvent
  types_rpc_urls : Text → ConnectionEvent
  types_jito_url : Text → ConnectionEvent
  saves_it : ConnectionEvent
  save_answers : Bool → ConnectionEvent
  tests_it : ConnectionEvent
  test_answers : Option TestResult → ConnectionEvent

-- An answer comes only to a request that is under way.
unfoldable pub connection_step : ConnectionEvent → Connection → Connection
unfolding save_connection connection_saved handle_test_rpc rpc_tested type_rpc_url
connection_step (loads config) c = load_connection config c
connection_step (types_rpc_url t) c = type_rpc_url t c
connection_step (types_rpc_urls t) c = record c { rpc_urls = t }
connection_step (types_jito_url t) c = record c { jito_url = t }
connection_step saves_it c = save_connection c
connection_step (save_answers ok) c = if ltb 0 c.saves then connection_saved ok c else c
connection_step tests_it c = handle_test_rpc c
connection_step (test_answers answer) c = if ltb 0 (length c.tests) then rpc_tested answer c else c

unfoldable pub run : List ConnectionEvent → Connection → Connection
unfolding connection_step
run [] c = c
run (e ∷ es) c = run es (connection_step e c)

-- The card as it is first shown.
abbrev pub initial_connection : Env → Connection
initial_connection config = record {
  rpc_url = config_or config "SOLANA_RPC_URL" [];
  rpc_urls = config_or config "SOLANA_RPC_URLS" [];
  jito_url = config_or config "JITO_BUNDLE_URL" [];
  is_saving = false;
  is_testing = false;
  test_result = none;
  show_restart = false;
  saves = 0;
  tests = [];
}

pub record ServiceUrls : Type 0 where
  pub grpc_url : Text
  pub python_url : Text
  pub is_saving : Bool
  -- the saves under way
  pub saves : ℕ

abbrev pub load_service_urls : Env → ServiceUrls → ServiceUrls
load_service_urls config c = record c {
  grpc_url = config_or config "RUST_GRPC_URL" [];
  python_url = config_or config "PYTHON_STRATEGY_URL" [];
}

abbrev pub service_urls_body : ServiceUrls → List (String × Text)
service_urls_body c =
    ("RUST_GRPC_URL", trim c.grpc_url) ∷ ("PYTHON_STRATEGY_URL", trim c.python_url) ∷ []

pub record JitoMev : Type 0 where
  pub tip_percent : Text
  pub tip_floor : Text
  pub tip_ceiling : Text
  pub sim_enabled : Bool
  pub is_saving : Bool
  pub saved_ok : Bool
  -- the saves under way
  pub saves : ℕ

abbrev pub load_jito_mev : Env → JitoMev → JitoMev
load_jito_mev config c = record c {
  tip_percent = config_or config "JITO_TIP_PERCENT" (codes "0.001");
  tip_floor = config_or config "JITO_TIP_FLOOR_LAMPORTS" (codes "5000");
  tip_ceiling = config_or config "JITO_TIP_CEILING_LAMPORTS" (codes "10000000");
  sim_enabled = same (config_or config "JITO_SIMULATION_ENABLED" (codes "true")) (codes "true");
}

abbrev pub jito_mev_body : JitoMev → List (String × Text)
jito_mev_body c =
    ("JITO_TIP_PERCENT", trim c.tip_percent)
    ∷ ("JITO_TIP_FLOOR_LAMPORTS", trim c.tip_floor)
    ∷ ("JITO_TIP_CEILING_LAMPORTS", trim c.tip_ceiling)
    ∷ ("JITO_SIMULATION_ENABLED", if c.sim_enabled then codes "true" else codes "false")
    ∷ []
