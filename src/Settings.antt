-- ===== src/Settings.antt =====
-- artifacts/api-server/src/routes/settings.ts over the table of lib/db/src/schema/bot-config.ts: masking, the wallet's
-- public key, and the routes. `fetch` of the RPC ping, the file system and JSON.parse are the record
-- Outside; a database statement may throw (Tx.antt). Logging is left out.
pub mod Catalogue
pub mod Config
pub mod Secrecy
pub mod Saving
pub mod Table
pub mod Service
pub mod View
mod Tests
use pumpy_v.Common.{
  ℕ, String, Bool, true, false, Option, none, some, List, [], ◌∷◌, ◌++◌, map, if◌then◌else◌, not,
  ◌&&◌, ◌||◌, str_eq, codes, keep, any, leb, length, take, is_some, ◌==◌,
}
use pumpy_v.Text.{Text, is_empty, trim, starts_with, split, last_units}
use pumpy_v.Tx.{Run, Tx, pure, ◌>>=◌, ◌>>◌, statement}
use pumpy_v.Base58.{base58_decode, pubkey_from_keypair_bytes}
use pumpy_v.RpcUrl.{Platform, is_safe_rpc_url}
use pumpy_v.Settings.Catalogue.{EnvVarDef, allowed_config_keys, env_var_defs, is_allowed, is_secret}

pub record ConfigRow : Type 0 where
  pub key : String
  pub value : Text
  pub updated_at : Option ℕ

-- `process.env`, and other records of texts.
abbrev pub Env : Type 0
Env = String → Option Text

pub record Outside : Type 0 where
  -- `readFileSync(path, "utf8")`, `none` if it throws
  pub read_file : Text → Option Text
  -- `new Uint8Array(JSON.parse(s))`, `none` if it throws
  pub parse_bytes : Text → Option (List ℕ)
  -- the milliseconds that the RPC server took to answer, `none` if it did not answer with success
  pub ping_rpc : Text → Option ℕ

-- A value that is present and not empty.
abbrev pub is_set : Option Text → Bool
is_set none = false
is_set (some v) = not (is_empty v)

-- `a || b` on texts
abbrev pub or_text : Option Text → Option Text → Option Text
or_text a b = if is_set a then a else b

unfoldable pub mask_string : Option Text → Text
mask_string none = []
mask_string (some val) =
    if is_empty val
    then []
    else if leb (length val) 8
    then codes "****"
    else take 4 val ++ codes "****" ++ last_units 4 val

pub record WalletInfo : Type 0 where
  pub pubkey : Option Text
  pub source : Option String

abbrev key_of_bytes : Option (List ℕ) → Option Text
key_of_bytes none = none
key_of_bytes (some bytes) = pubkey_from_keypair_bytes bytes

abbrev parse_file : Outside → Option Text → Option (List ℕ)
parse_file o none = none
parse_file o (some raw) = o.parse_bytes (trim raw)

abbrev key_bytes : Outside → Text → Option (List ℕ)
key_bytes o trimmed =
    if starts_with trimmed (codes "[") then o.parse_bytes trimmed else base58_decode trimmed

abbrev text_or_empty : Option Text → Text
text_or_empty none = []
text_or_empty (some t) = t

unfoldable pub derive_wallet_pubkey : Outside → Env → WalletInfo
derive_wallet_pubkey o env =
    if is_set (env "WALLET_PRIVATE_KEY")
    then record {
      pubkey = key_of_bytes (key_bytes o (trim (text_or_empty (env "WALLET_PRIVATE_KEY"))));
      source = some "WALLET_PRIVATE_KEY";
    }
    else if is_set (env "KEYPAIR_PATH")
    then record {
      pubkey = key_of_bytes (parse_file o (o.read_file (text_or_empty (env "KEYPAIR_PATH"))));
      source = some "KEYPAIR_PATH";
    }
    else record { pubkey = none; source = none }

-- `Object.fromEntries`: the last row of a key counts.
abbrev pub from_rows : List ConfigRow → Env
from_rows [] k = none
from_rows (r ∷ rs) k =
    let later = from_rows rs k in
    let here = if str_eq r.key k then some r.value else none in
    if is_some later then later else here

-- `loadDbConfig`: a query that throws counts as an empty table.
abbrev pub load_db_config : Run (List ConfigRow) (List ConfigRow) → Env
load_db_config (none, rows, fs) = from_rows []
load_db_config (some found, rows, fs) = from_rows found

pub record EnvVar : Type 0 where
  pub def : EnvVarDef
  pub set : Bool
  pub source : Option String
  pub masked : Text

abbrev pub db_val : Env → String → Option Text
db_val config key = if is_allowed key then config key else none

-- An entry, from the variable's value in the table and in the environment.
abbrev pub env_var_of : EnvVarDef → Option Text → Option Text → EnvVar
env_var_of def in_db in_env = record {
  def = def;
  set = is_set (or_text in_db in_env);
  source = if is_set in_db then some "db" else if is_set in_env then some "env" else none;
  masked =
      if is_set (or_text in_db in_env)
      then (if is_secret def.key then codes "****" else mask_string (or_text in_db in_env))
      else [];
}

abbrev pub env_var : Env → Env → EnvVarDef → EnvVar
env_var env config def = env_var_of def (db_val config def.key) (env def.key)

abbrev pub env_vars : Env → Env → List EnvVar
env_vars env config = map (env_var env config) env_var_defs

-- `list?.split(",")[0]?.trim()`
abbrev first_part : List Text → Option Text
first_part [] = none
first_part (t ∷ ts) = some (trim t)

abbrev first_url : Option Text → Option Text
first_url none = none
first_url (some list) = first_part (split b',' list)

abbrev pub non_empty : Option Text → Option Text
non_empty v = if is_set v then v else none

unfoldable pub rpc_url : Env → Env → Option Text
rpc_url env config = non_empty (
    or_text (config "SOLANA_RPC_URL") (
      or_text (env "SOLANA_RPC_URL")
        (or_text (first_url (config "SOLANA_RPC_URLS")) (first_url (env "SOLANA_RPC_URLS")))))

abbrev ping : Outside → Option Text → Option ℕ
ping o none = none
ping o (some url) = o.ping_rpc url

abbrev mask_url : Option Text → Option Text
mask_url none = none
mask_url (some url) = some (mask_string (some url))

pub record Status : Type 0 where
  pub wallet : WalletInfo
  pub wallet_configured : Bool
  pub rpc_masked : Option Text
  pub rpc_configured : Bool
  pub latency_ms : Option ℕ
  pub online : Bool
  pub vars : List EnvVar

abbrev pub select_rows : Tx (List ConfigRow) (List ConfigRow)
select_rows = statement (λ rows. (rows, rows))

abbrev pub full_status : Outside → Env → Env → Status
full_status o env config = record {
  wallet = derive_wallet_pubkey o env;
  wallet_configured = is_set (env "WALLET_PRIVATE_KEY") || is_set (env "KEYPAIR_PATH");
  rpc_masked = mask_url (rpc_url env config);
  rpc_configured = is_some (rpc_url env config);
  latency_ms = ping o (rpc_url env config);
  online = is_some (ping o (rpc_url env config));
  vars = env_vars env config;
}

-- GET /settings/status
unfoldable pub get_status : Outside → Env → List ConfigRow × List Bool → Status
get_status o env s = full_status o env (load_db_config (select_rows s))

abbrev pub merged : Env → Env → List String → List (String × Text)
merged env config [] = []
merged env config (k ∷ ks) =
    let rest = merged env config ks in
    elim (config k) [
      | some v ↦ (k, v) ∷ rest
      | none ↦ elim (env k) [ some v ↦ (k, v) ∷ rest | none ↦ rest ]
    ]

-- GET /settings/config
unfoldable pub get_config : Env → List ConfigRow × List Bool → List (String × Text)
get_config env s = merged env (load_db_config (select_rows s)) allowed_config_keys
