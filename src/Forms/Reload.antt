-- ===== src/Forms/Reload.antt =====
-- Settings.tsx over the server's routes of settings.ts: what a card shows after a save and the reload that follows. The body
-- arrives as it was sent, and the reload sees the table that the save left.
use pumpy_v.Common.{
  ℕ, String, ◌≡◌, refl, ap, ◌∙◌, Bool, true, false, Option, some, List, [], ◌∷◌, if◌then◌else◌,
  or_else, codes,
}
use pumpy_v.Text.{Text, trim, same}
use pumpy_v.Settings.{Env, ConfigRow, from_rows, get_config}
use pumpy_v.Settings.Catalogue.{allowed_config_keys, is_allowed}
use pumpy_v.Settings.Config.{valid_entries, put_config}
use pumpy_v.Settings.Service.{or_env, config_map, entry_of-merged, present}
use pumpy_v.Settings.Table.{IsKeyed, IsObject, entry_of, value_of, overridden, put_config_saved}
use pumpy_v.Forms.{
  Connection, load_connection, connection_body, ServiceUrls, load_service_urls, service_urls_body,
  JitoMev, load_jito_mev, jito_mev_body,
}

-- What GET /settings/config answers after the save of a body.
abbrev pub reloaded : Env → ℕ → List (String × Text) → List ConfigRow → Env
reloaded env now body rows =
    config_map (get_config env ((put_config (some (present body)) now (rows, [])).1, []))

-- A key that the table may hold has, after the save of a body, the body's value, or without one the
-- environment's.
reloaded_lem :
    (env : Env) (now : ℕ) (e : String × Text) (es : List (String × Text)) (rows : List ConfigRow)
    (k : String)
    → IsKeyed rows
    → IsObject (e ∷ es)
    → valid_entries (present (e ∷ es)) ≡ e ∷ es
    → is_allowed k ≡ true
    → reloaded env now (e ∷ es) rows k
      ≡ or_env (overridden (entry_of k (e ∷ es)) (from_rows rows k)) (env k)
unfolding get_config
reloaded_lem env now e es rows k keyed object valid allowed =
    entry_of-merged env (from_rows (put_config (some (present (e ∷ es))) now (rows, [])).1) k
      allowed_config_keys
    ∙ rw (allowed) (
        ap (λ o. or_env o (env k))
          ((put_config_saved (present (e ∷ es)) e es now rows keyed object valid).1 k))

-- What a field shows that was saved with a text: the text without white space around it, or if nothing is
-- left the environment's value or the field's default.
abbrev pub shown : Env → String → Text → Text → Text
shown env k default typed = or_else (or_env (value_of (trim typed)) (env k)) default

-- After a save without faults and the reload that follows, the connection card shows each of its texts
-- trimmed, or if that is empty the environment's value or nothing, whatever is typed meanwhile.
pub load_connection-connection_body :
    (env : Env) (now : ℕ) (rows : List ConfigRow) (c typed : Connection)
    → IsKeyed rows
    → load_connection (reloaded env now (connection_body c) rows) typed ≡ record typed {
      rpc_url = shown env "SOLANA_RPC_URL" [] c.rpc_url;
      rpc_urls = shown env "SOLANA_RPC_URLS" [] c.rpc_urls;
      jito_url = shown env "JITO_BUNDLE_URL" [] c.jito_url;
    }
load_connection-connection_body env now rows c typed keyed =
    let object : IsObject (connection_body c) = ((refl, (refl, tt)), ((refl, tt), (tt, tt))) in
    let field : (k : String)
        → is_allowed k ≡ true
        → reloaded env now (connection_body c) rows k
          ≡ or_env (overridden (entry_of k (connection_body c)) (from_rows rows k)) (env k) =
      λ k allowed.
        reloaded_lem env now ("SOLANA_RPC_URL", trim c.rpc_url)
          (("SOLANA_RPC_URLS", trim c.rpc_urls) ∷ ("JITO_BUNDLE_URL", trim c.jito_url) ∷ []) rows k
          keyed object refl allowed in
    rw (field "SOLANA_RPC_URL" refl, field "SOLANA_RPC_URLS" refl, field "JITO_BUNDLE_URL" refl)
      refl

-- The same of the card of the service URLs.
pub load_service_urls-service_urls_body :
    (env : Env) (now : ℕ) (rows : List ConfigRow) (c typed : ServiceUrls)
    → IsKeyed rows
    → load_service_urls (reloaded env now (service_urls_body c) rows) typed ≡ record typed {
      grpc_url = shown env "RUST_GRPC_URL" [] c.grpc_url;
      python_url = shown env "PYTHON_STRATEGY_URL" [] c.python_url;
    }
load_service_urls-service_urls_body env now rows c typed keyed =
    let object : IsObject (service_urls_body c) = ((refl, tt), (tt, tt)) in
    let field : (k : String)
        → is_allowed k ≡ true
        → reloaded env now (service_urls_body c) rows k
          ≡ or_env (overridden (entry_of k (service_urls_body c)) (from_rows rows k)) (env k) =
      λ k allowed.
        reloaded_lem env now ("RUST_GRPC_URL", trim c.grpc_url)
          (("PYTHON_STRATEGY_URL", trim c.python_url) ∷ []) rows k keyed object refl allowed in
    rw (field "RUST_GRPC_URL" refl, field "PYTHON_STRATEGY_URL" refl) refl

switch_kept :
    (b : Bool) (e : Option Text)
    → same
        (or_else (or_env (value_of (if b then codes "true" else codes "false")) e) (codes "true"))
        (codes "true")
      ≡ b
switch_kept true e = refl
switch_kept false e = refl

-- After a save without faults and the reload that follows, the Jito card has its switch as it was saved, and
-- shows each of its texts trimmed, or if that is empty the environment's value or the default.
pub load_jito_mev-jito_mev_body :
    (env : Env) (now : ℕ) (rows : List ConfigRow) (c typed : JitoMev)
    → IsKeyed rows
    → load_jito_mev (reloaded env now (jito_mev_body c) rows) typed ≡ record typed {
      tip_percent = shown env "JITO_TIP_PERCENT" (codes "0.001") c.tip_percent;
      tip_floor = shown env "JITO_TIP_FLOOR_LAMPORTS" (codes "5000") c.tip_floor;
      tip_ceiling = shown env "JITO_TIP_CEILING_LAMPORTS" (codes "10000000") c.tip_ceiling;
      sim_enabled = c.sim_enabled;
    }
load_jito_mev-jito_mev_body env now rows c typed keyed =
    let object : IsObject (jito_mev_body c) =
      ((refl, (refl, (refl, tt))), ((refl, (refl, tt)), ((refl, tt), (tt, tt)))) in
    let field : (k : String)
        → is_allowed k ≡ true
        → reloaded env now (jito_mev_body c) rows k
          ≡ or_env (overridden (entry_of k (jito_mev_body c)) (from_rows rows k)) (env k) =
      λ k allowed.
        reloaded_lem env now ("JITO_TIP_PERCENT", trim c.tip_percent)
          (("JITO_TIP_FLOOR_LAMPORTS", trim c.tip_floor)
            ∷ ("JITO_TIP_CEILING_LAMPORTS", trim c.tip_ceiling)
            ∷ ("JITO_SIMULATION_ENABLED", if c.sim_enabled then codes "true" else codes "false")
            ∷ [])
          rows k keyed object refl allowed in
    rw
      (
        field "JITO_TIP_PERCENT" refl,
        field "JITO_TIP_FLOOR_LAMPORTS" refl,
        field "JITO_TIP_CEILING_LAMPORTS" refl,
        field "JITO_SIMULATION_ENABLED" refl,
        switch_kept c.sim_enabled (env "JITO_SIMULATION_ENABLED"),
      )
      refl
