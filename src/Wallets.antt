-- ===== src/Wallets.antt =====
-- artifacts/api-server/src/routes/wallets.ts, over the tables of lib/db/src/schema/wallet-config.ts
-- and wallet-registry.ts. A handler takes the database with its faults to come (Tx.antt) and gives
-- the response; `now` is `new Date()`. Logging is left out.
pub mod Gate
pub mod Effects
pub mod Domain
pub mod Tests
use pumpy_v.Common.{
  ℕ, String, Bool, true, false, Option, none, some, List, [], ◌∷◌, map, if◌then◌else◌, ◌||◌, ◌&&◌,
  not, str_eq, any, keep, or_else, cat,
}
use pumpy_v.AdminAuth.{Verdict, next, deny, require_admin_key, text_of}
use pumpy_v.Js.{Js}
use pumpy_v.Tx.{Run, Tx, pure, ◌>>=◌, ◌>>◌, statement, transaction, resume_with}

pub record RegistryRow : Type 0 where
  pub wallet_id : String
  pub keypair_path : Option String
  pub status : String
  pub owner_pubkey : Option String
  pub last_active_at : Option ℕ
  pub created_at : Option ℕ

pub record ConfigRow (N : Type 0) : Type 0 where
  pub wallet_id : String
  pub risk_per_trade_sol : N
  pub daily_loss_limit_sol : N
  pub strategy_preset : String
  pub status : String
  pub owner_pubkey : Option String
  pub created_at : Option ℕ
  pub updated_at : Option ℕ

pub record Db (N : Type 0) : Type 0 where
  pub registry : List RegistryRow
  pub config : List (ConfigRow N)

pub record PresetParams (N : Type 0) : Type 0 where
  pub risk_per_trade_sol : N
  pub stop_loss_pct : N
  pub take_profit_pct : N
  pub max_positions : ℕ

-- The body of PUT /wallets/:id/config: `none` is a key that is undefined.
pub record ConfigBody (V : Type 0) : Type 0 where
  pub risk_per_trade_sol : Option V
  pub daily_loss_limit_sol : Option V
  pub strategy_preset : Option V
  pub status : Option V

-- `configUpdate`: `none` is a column that the update leaves out.
pub record ConfigUpdate (N : Type 0) : Type 0 where
  pub risk_per_trade_sol : Option N
  pub daily_loss_limit_sol : Option N
  pub strategy_preset : Option String
  pub status : Option String
  pub updated_at : ℕ

pub record PresetBody : Type 0 where
  pub preset : Option String
  pub wallet_id : Option String

pub data Response (N : Type 0) : Type 0 where
  error : ℕ → String → Response N
  registry_rows : List RegistryRow → Response N
  config_row : ConfigRow N → Response N
  status_is : String → String → Response N
  preset_is : String → String → PresetParams N → Response N
  -- The handler threw outside its `try`; Express answers with 500.
  uncaught : Response N

abbrev pub valid_presets : List String
valid_presets = "conservative" ∷ "balanced" ∷ "aggressive" ∷ []

abbrev pub valid_statuses : List String
valid_statuses = "enabled" ∷ "paused" ∷ "halted" ∷ []

abbrev pub among : List String → String → Bool
among xs s = any (λ x. str_eq x s) xs

-- `update(table).set(...).where(eq(walletId, id))` on the registry.
abbrev pub set_registry_status : String → String → List RegistryRow → List RegistryRow
set_registry_status i status =
    map (λ r. if str_eq r.wallet_id i then record r { status = status } else r)

module _ {N : Type 0} where
  abbrev pub update_row : ConfigUpdate N → ConfigRow N → ConfigRow N
  update_row u r = record r {
    risk_per_trade_sol = or_else u.risk_per_trade_sol r.risk_per_trade_sol;
    daily_loss_limit_sol = or_else u.daily_loss_limit_sol r.daily_loss_limit_sol;
    strategy_preset = or_else u.strategy_preset r.strategy_preset;
    status = or_else u.status r.status;
    updated_at = some u.updated_at;
  }

  abbrev pub update_config : String → ConfigUpdate N → List (ConfigRow N) → List (ConfigRow N)
  update_config i u = map (λ r. if str_eq r.wallet_id i then update_row u r else r)

  abbrev pub rows_of : String → List (ConfigRow N) → List (ConfigRow N)
  rows_of i = keep (λ r. str_eq r.wallet_id i)

  abbrev pub status_update : String → ℕ → ConfigUpdate N
  status_update status now = record {
    risk_per_trade_sol = none;
    daily_loss_limit_sol = none;
    strategy_preset = none;
    status = some status;
    updated_at = now;
  }

  abbrev pub write_registry : String → String → Tx (Db N) (Unit {0})
  write_registry i status =
      statement (λ d. (tt, record d { registry = set_registry_status i status d.registry }))

  -- With `.returning()`: the rows that were updated.
  abbrev pub write_config : String → ConfigUpdate N → Tx (Db N) (List (ConfigRow N))
  write_config i u = statement (λ d.
      (rows_of i (update_config i u d.config), record d { config = update_config i u d.config }))

  -- `catch`: status 500 with a text.
  abbrev pub or_500 : String → Run (Db N) (Response N) → Response N × Db N × List Bool
  or_500 text (none, d, fs) = (error 500 text, d, fs)
  or_500 text (some r, d, fs) = (r, d, fs)

  -- GET /wallets, in the order of the table.
  unfoldable pub list_wallets : Db N × List Bool → Response N × Db N × List Bool
  list_wallets s =
      or_500 "Failed to list wallets" (statement (λ d. (registry_rows d.registry, d)) s)

  abbrev pub first_or_404 : List (ConfigRow N) → Response N
  first_or_404 [] = error 404 "Wallet config not found"
  first_or_404 (r ∷ rs) = config_row r

  -- GET /wallets/:id/config
  unfoldable pub get_config : String → Db N × List Bool → Response N × Db N × List Bool
  get_config i s =
      or_500 "Failed to load wallet config"
        (statement (λ d. (first_or_404 (rows_of i d.config), d)) s)

  -- The transaction that pause, resume and halt share.
  abbrev pub set_both : String → String → ℕ → Tx (Db N) (Response N)
  set_both i status now = transaction (do
    write_registry i status
    write_config i (status_update status now)
    pure (status_is i status))

  unfoldable pub pause : String → ℕ → Db N × List Bool → Response N × Db N × List Bool
  pause i now s = or_500 "Failed to pause wallet" (set_both i "paused" now s)

  unfoldable pub resume : String → ℕ → Db N × List Bool → Response N × Db N × List Bool
  resume i now s = or_500 "Failed to resume wallet" (set_both i "enabled" now s)

  -- The body's `confirm` is true or false as it is truthy; `none` is a request with no body.
  unfoldable pub halt : String → Option Bool → ℕ → Db N × List Bool → Response N × Db N × List Bool
  halt i none now (d, fs) = (uncaught, d, fs)
  halt i (some false) now (d, fs) =
      (error 400 "Halting a wallet requires { confirm: true } in the request body", d, fs)
  halt i (some true) now s = or_500 "Failed to halt wallet" (set_both i "halted" now s)

module _ (js : Js) where
  open js use {Value, Number, to_number, to_string, is_nan, le_zero, literal}

  abbrev pub preset_params : String → PresetParams Number
  preset_params preset =
      if str_eq preset "conservative"
      then record {
        risk_per_trade_sol = literal 5 2;
        stop_loss_pct = literal 5 0;
        take_profit_pct = literal 20 0;
        max_positions = 2;
      }
      else if str_eq preset "balanced"
      then record {
        risk_per_trade_sol = literal 15 2;
        stop_loss_pct = literal 10 0;
        take_profit_pct = literal 50 0;
        max_positions = 5;
      }
      else record {
        risk_per_trade_sol = literal 5 1;
        stop_loss_pct = literal 20 0;
        take_profit_pct = literal 100 0;
        max_positions = 10;
      }

  -- What comes of a key of the body: its coercion throws, it is not valid, or its value, `none` where it is
  -- undefined.
  pub data Field (A : Type 0) : Type 0 where
    throws : Field A
    invalid : Field A
    given : Option A → Field A

  -- A key that is given must be a positive number.
  abbrev pub positive : Option Value → Field Number
  positive none = given none
  positive (some v) = elim (to_number v) [
    | none ↦ throws
    | some n ↦ if is_nan n || le_zero n then invalid else given (some n)
  ]

  abbrev pub one_of : List String → Option Value → Field String
  one_of xs none = given none
  one_of xs (some v) = elim (to_string v) [
    | none ↦ throws
    | some s ↦ if among xs s then given (some s) else invalid
  ]

  pub data Checked : Type 0 where
    fails : Checked
    refused : String → Checked
    update : ConfigUpdate Number → Checked

  -- The four checks before the transaction, in order; an error that one throws is not caught.
  unfoldable pub check_body : ℕ → ConfigBody Value → Checked
  check_body now b = elim (positive b.risk_per_trade_sol) [
    | throws ↦ fails
    | invalid ↦ refused "risk_per_trade_sol must be a positive number"
    | given risk ↦ elim (positive b.daily_loss_limit_sol) [
      | throws ↦ fails
      | invalid ↦ refused "daily_loss_limit_sol must be a positive number"
      | given daily ↦ elim (one_of valid_presets b.strategy_preset) [
        | throws ↦ fails
        | invalid ↦ refused "strategy_preset must be conservative, balanced, or aggressive"
        | given preset ↦ elim (one_of valid_statuses b.status) [
          | throws ↦ fails
          | invalid ↦ refused "status must be enabled, paused, or halted"
          | given status ↦ update (record {
            risk_per_trade_sol = risk;
            daily_loss_limit_sol = daily;
            strategy_preset = preset;
            status = status;
            updated_at = now;
          })
        ]
      ]
    ]
  ]

  -- The rest of the callback, once the config table was updated.
  abbrev pub mirror_status :
      String → Option String → List (ConfigRow Number) → Tx (Db Number) (List (ConfigRow Number))
  mirror_status i status [] = pure []
  mirror_status i none (r ∷ rs) = pure (r ∷ rs)
  mirror_status i (some status) (r ∷ rs) = do write_registry i status; pure (r ∷ rs)

  abbrev pub save_config : String → ConfigUpdate Number → Tx (Db Number) (Response Number)
  save_config i u = do
    rows ← transaction (write_config i u >>= mirror_status i u.status)
    pure (first_or_404 rows)

  -- PUT /wallets/:id/config
  unfoldable pub put_config :
      String
      → Option (ConfigBody Value)
      → ℕ
      → Db Number × List Bool
      → Response Number × Db Number × List Bool
  unfolding check_body
  put_config i none now (d, fs) = (uncaught, d, fs)
  put_config i (some b) now s = elim (check_body now b) [
    | fails ↦ (uncaught, s.0, s.1)
    | refused text ↦ (error 400 text, s.0, s.1)
    | update u ↦ or_500 "Failed to update wallet config" (save_config i u s)
  ]

  abbrev pub preset_update : String → ℕ → ConfigUpdate Number
  preset_update preset now = record {
    risk_per_trade_sol = some (preset_params preset).risk_per_trade_sol;
    daily_loss_limit_sol = none;
    strategy_preset = some preset;
    status = none;
    updated_at = now;
  }

  abbrev pub preset_reply : String → String → List (ConfigRow Number) → Response Number
  preset_reply preset i [] = error 404 (cat "Wallet config for '" (cat i "' not found"))
  preset_reply preset i (r ∷ rs) = preset_is preset i (preset_params preset)

  abbrev pub save_preset : String → String → ℕ → Tx (Db Number) (Response Number)
  save_preset i preset now = do
    rows ← write_config i (preset_update preset now)
    pure (preset_reply preset i rows)

  -- PUT /strategy/preset. The call that tells the Python engine changes neither the tables nor the
  -- response, whatever comes of it.
  unfoldable pub put_preset :
      Option PresetBody → ℕ → Db Number × List Bool → Response Number × Db Number × List Bool
  put_preset none now (d, fs) = (uncaught, d, fs)
  put_preset (some b) now s =
      let i = or_else b.wallet_id "wallet_001" in
      let preset = text_of b.preset in
      if among valid_presets preset
      then or_500 "Failed to save preset" (save_preset i preset now s)
      else (error 400 "preset must be conservative, balanced, or aggressive", s.0, s.1)

  -- The routes that the admin key guards.
  pub data Mutation : Type 0 where
    puts_config : String → Option (ConfigBody Value) → Mutation
    puts_preset : Option PresetBody → Mutation
    pauses resumes : String → Mutation
    halts : String → Option Bool → Mutation

  unfoldable pub handle :
      Mutation → ℕ → Db Number × List Bool → Response Number × Db Number × List Bool
  unfolding put_config put_preset pause resume halt
  handle (puts_config i b) now s = put_config i b now s
  handle (puts_preset b) now s = put_preset b now s
  handle (pauses i) now s = pause i now s
  handle (resumes i) now s = resume i now s
  handle (halts i c) now s = halt i c now s

  abbrev pub guarded :
      Verdict → Mutation → ℕ → Db Number × List Bool → Response Number × Db Number × List Bool
  guarded next m now s = handle m now s
  guarded (deny code text) m now (d, fs) = (error code text, d, fs)

  -- A request with the configured key and the header, through `requireAdminKey`.
  unfoldable pub request :
      Option String
      → Option String
      → Mutation
      → ℕ
      → Db Number × List Bool
      → Response Number × Db Number × List Bool
  unfolding handle require_admin_key
  request admin_key provided m now s = guarded (require_admin_key admin_key provided) m now s
