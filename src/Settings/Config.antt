-- ===== src/Settings/Config.antt =====
-- settings.ts: saving the configuration, and the test of an RPC server.
use pumpy_v.Common.{
  ℕ, String, Bool, Option, none, some, List, [], ◌∷◌, map, if◌then◌else◌, not, str_eq, keep,
}
use pumpy_v.Text.{Text, is_empty}
use pumpy_v.Tx.{Run, Tx, pure, ◌>>=◌, statement}
use pumpy_v.RpcUrl.{Platform, is_safe_rpc_url}
use pumpy_v.Settings.Catalogue.{is_allowed}
use pumpy_v.Settings.{ConfigRow, Outside}

pub data Response : Type 0 where
  error : ℕ → String → Response
  config_saved : List String → Response
  tested : Option ℕ → Response

abbrev pub delete_row : String → List ConfigRow → List ConfigRow
delete_row k = keep (λ r. not (str_eq r.key k))

-- `insert ... onConflictDoUpdate`
abbrev pub upsert_row : String → Text → ℕ → List ConfigRow → List ConfigRow
upsert_row k v now [] = record { key = k; value = v; updated_at = some now } ∷ []
upsert_row k v now (r ∷ rs) =
    let rest = upsert_row k v now rs in
    if str_eq r.key k then record { key = k; value = v; updated_at = some now } ∷ rs else r ∷ rest

abbrev pub write_entry : ℕ → String × Text → List ConfigRow → List ConfigRow
write_entry now (k, v) rows = if is_empty v then delete_row k rows else upsert_row k v now rows

-- The loop of PUT /settings/config: a statement for each entry, outside a transaction.
unfoldable pub save_entries : ℕ → List (String × Text) → Tx (List ConfigRow) (Unit {0})
save_entries now [] = pure tt
save_entries now (e ∷ es) =
    statement (λ rows. (tt, write_entry now e rows)) >>= λ u. save_entries now es

-- An entry of the body whose value is not a text has `none`.
abbrev pub valid_entries : List (String × Option Text) → List (String × Text)
valid_entries [] = []
valid_entries ((k, none) ∷ es) = valid_entries es
valid_entries ((k, some v) ∷ es) =
    let rest = valid_entries es in if is_allowed k then (k, v) ∷ rest else rest

abbrev pub saved :
    List (String × Text) → Run (List ConfigRow) (Unit {0}) → Response × List ConfigRow × List Bool
saved entries (none, rows, fs) = (error 500 "Failed to save config", rows, fs)
saved entries (some u, rows, fs) = (config_saved (map (λ e. e.0) entries), rows, fs)

abbrev pub save_valid :
    ℕ → List (String × Text) → List ConfigRow × List Bool → Response × List ConfigRow × List Bool
save_valid now [] (rows, fs) = (error 400 "No valid config keys provided", rows, fs)
save_valid now (e ∷ es) s = saved (e ∷ es) (save_entries now (e ∷ es) s)

-- PUT /settings/config; a body that is no object is `none`.
unfoldable pub put_config :
    Option (List (String × Option Text))
    → ℕ
    → List ConfigRow × List Bool
    → Response × List ConfigRow × List Bool
unfolding save_entries
put_config none now (rows, fs) = (error 400 "Request body must be a JSON object", rows, fs)
put_config (some body) now s = save_valid now (valid_entries body) s

-- POST /settings/config/test-rpc. A request without a body throws at the destructuring (`none`), and a body
-- whose `url` is not a text has `some none`.
unfoldable pub test_rpc : Platform → Outside → Option (Option Text) → Response
test_rpc p o none = error 500 "Test failed"
test_rpc p o (some none) = error 400 "A URL string is required"
test_rpc p o (some (some url)) =
    if is_empty url
    then error 400 "A URL string is required"
    else if is_safe_rpc_url p url
    then tested (o.ping_rpc url)
    else error 400
        "URL must be an external https:// or http:// address. Private/local addresses are not allowed."
