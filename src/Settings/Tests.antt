-- ===== src/Settings/Tests.antt =====
-- settings.ts: masks, a wallet key, a saved body and a failed one.
use pumpy_v.Common.{
  String, ◌≡◌, refl, Option, none, some, List, [], ◌∷◌, codes, str_eq, if◌then◌else◌, arith,
}
use pumpy_v.Text.{Text}
use pumpy_v.Settings.{Env, Outside, ConfigRow, mask_string, derive_wallet_pubkey, env_vars}
use pumpy_v.Settings.Config.{config_saved, put_config}
use pumpy_v.Settings.Secrecy.{env_vars_secret}
use pumpy_v.Settings.Service.{Table, put_object, get_object, get_object-put_object, served}

short_hidden : mask_string (some (codes "12345678")) ≡ codes "****"
unfolding mask_string
short_hidden = refl

long_masked : mask_string (some (codes "https://rpc.example")) ≡ codes "http****mple"
unfolding mask_string
long_masked = refl

abbrev with_key : String → Env
with_key secret k = if str_eq "WALLET_PRIVATE_KEY" k then some (codes secret) else none

abbrev outside : Outside
outside = record { read_file = λ p. none; parse_bytes = λ t. none; ping_rpc = λ u. none }

bad_key : (derive_wallet_pubkey outside (with_key "not base58")).source ≡ some "WALLET_PRIVATE_KEY"
unfolding derive_wallet_pubkey
bad_key = refl

abbrev row : ConfigRow
row = record { key = "OTHER"; value = codes "x"; updated_at = none }

abbrev body : List (String × Option Text)
body =
    ("JITO_TIP_PERCENT", some (codes "1"))
    ∷ ("OTHER", some (codes "y"))
    ∷ ("RUST_GRPC_URL", some (codes "u"))
    ∷ ("STOP_LOSS_PERCENT", none)
    ∷ []

saved_both :
    (put_config (some body) 5 ([], [])).0 ≡ config_saved ("JITO_TIP_PERCENT" ∷ "RUST_GRPC_URL" ∷ [])
unfolding put_config
saved_both = refl

env_vars_secret_example :
    env_vars (with_key "abc") (λ k. none) ≡ env_vars (with_key "xyz") (λ k. none)
env_vars_secret_example =
    env_vars_secret (with_key "abc") (with_key "xyz") (λ k. none) (λ k h. ground arith)
      (λ k. ground arith)

abbrev nothing_set : Env
nothing_set k = none

abbrev table : Table nothing_set 5
table = (row ∷ [], (refl, tt))

get_object-put_object_example :
    get_object nothing_set 5
      (put_object nothing_set 5 (("RUST_GRPC_URL", codes "u") ∷ []) table)
      "RUST_GRPC_URL"
    ≡ served (some (codes "u")) none (get_object nothing_set 5 table "RUST_GRPC_URL")
get_object-put_object_example =
    get_object-put_object nothing_set 5 (("RUST_GRPC_URL", codes "u") ∷ []) table "RUST_GRPC_URL"
      (tt, tt) (refl, tt)
