-- ===== src/SystemConfig.antt =====
-- artifacts/api-server/src/db/seed-system-config.ts and artifacts/api-server/src/routes/admin.ts, over the table of
-- lib/db/src/schema/system-config.ts. Logging is left out.
pub mod Seeding
mod Tests
use pumpy_v.Common.{
  ℕ, zero, suc, String, Bool, true, false, Option, none, some, List, [], ◌∷◌, ◌++◌, if◌then◌else◌,
  str_eq, any,
}
use pumpy_v.AdminAuth.{Verdict, next, deny, require_admin_key}
use pumpy_v.Tx.{Run, Tx, pure, ◌>>=◌, statement}

pub record Row : Type 0 where
  pub key : String
  pub value : String
  pub version : ℕ
  pub description : Option String
  pub updated_by : Option String
  pub updated_at : Option ℕ

pub record SeedRow : Type 0 where
  pub key : String
  pub value : String
  pub description : String

abbrev pub seed_rows : List SeedRow
seed_rows =
    record {
      key = "max_position_size_sol";
      value = "1.0";
      description = "Maximum SOL per individual trade position";
    }
    ∷ record {
      key = "max_portfolio_exposure_sol";
      value = "5.0";
      description = "Maximum total SOL exposure across all open positions";
    }
    ∷ record {
      key = "max_daily_loss_sol";
      value = "2.0";
      description = "Maximum SOL loss allowed in a 24-hour window before halting";
    }
    ∷ record {
      key = "max_slippage_bps";
      value = "1000";
      description = "Maximum allowed slippage in basis points (1000 = 10%)";
    }
    ∷ record {
      key = "max_sandwich_risk_score";
      value = "70";
      description = "Maximum sandwich attack risk score (0-100) before rejecting trade";
    }
    ∷ record {
      key = "jito_tip_lamports";
      value = "10000";
      description = "Default Jito bundle tip in lamports";
    }
    ∷ record {
      key = "jito_bundle_timeout_ms";
      value = "5000";
      description = "Jito bundle submission timeout in milliseconds";
    }
    ∷ record {
      key = "mev_protection_enabled";
      value = "true";
      description = "Whether MEV protection via Jito is enabled by default";
    }
    ∷ record {
      key = "min_liquidity_sol";
      value = "5.0";
      description = "Minimum liquidity (SOL) required for a token to be considered for sniping";
    }
    ∷ record {
      key = "min_market_cap_usd";
      value = "1000";
      description = "Minimum market cap USD for token discovery filter";
    }
    ∷ record {
      key = "max_token_age_seconds";
      value = "30";
      description = "Maximum age in seconds for auto-snipe eligibility";
    }
    ∷ record {
      key = "strategy_sniper_enabled";
      value = "true";
      description = "Whether the sniper strategy is available for activation";
    }
    ∷ record {
      key = "strategy_momentum_enabled";
      value = "true";
      description = "Whether the momentum strategy is available for activation";
    }
    ∷ record {
      key = "strategy_scalp_enabled";
      value = "false";
      description = "Whether the scalp strategy is available for activation";
    }
    ∷ record {
      key = "default_snipe_amount_sol";
      value = "0.1";
      description = "Default SOL amount for auto-snipe orders";
    }
    ∷ record {
      key = "max_retries";
      value = "3";
      description = "Maximum order retry attempts before marking as failed";
    }
    ∷ record {
      key = "retry_delay_ms";
      value = "1000";
      description = "Delay in milliseconds between order retries";
    }
    ∷ []

abbrev pub has_key : String → List Row → Bool
has_key k = any (λ r. str_eq r.key k)

abbrev pub new_row : ℕ → SeedRow → Row
new_row now s = record {
  key = s.key;
  value = s.value;
  version = 1;
  description = some s.description;
  updated_by = some "system:seed";
  updated_at = some now;
}

-- `insert ... onConflictDoNothing().returning()`: whether a row was inserted, and the table.
abbrev pub insert_new : ℕ → SeedRow → List Row → Bool × List Row
insert_new now s rows =
    if has_key s.key rows then (false, rows) else (true, rows ++ new_row now s ∷ [])

abbrev pub counted : Bool → ℕ → ℕ
counted true n = suc n
counted false n = n

-- The loop of `seed`, with `inserted` so far.
unfoldable pub seed_all : ℕ → ℕ → List SeedRow → Tx (List Row) ℕ
seed_all now inserted [] = pure inserted
seed_all now inserted (s ∷ ss) =
    statement (insert_new now s) >>= λ fresh. seed_all now (counted fresh inserted) ss

-- `seed`: the rows inserted, `none` if a statement throws and the script exits with 1.
unfoldable pub seed : ℕ → Tx (List Row) ℕ
unfolding seed_all
seed now = seed_all now 0 seed_rows

pub data Response : Type 0 where
  error : ℕ → String → Response
  config : List Row → Response

abbrev pub listed : (List Row → List Row) → Run (List Row) (List Row) → Response
listed by_key (none, d, fs) = error 500 "Failed to load system config"
listed by_key (some rows, d, fs) = config (by_key rows)

abbrev guarded : (List Row → List Row) → List Row × List Bool → Verdict → Response
guarded by_key s (deny code text) = error code text
guarded by_key s next = listed by_key (statement (λ rows. (rows, rows)) s)

-- GET /admin/system-config with the configured key and the header; `by_key` is ORDER BY key.
unfoldable pub get_system_config :
    (List Row → List Row) → Option String → Option String → List Row × List Bool → Response
get_system_config by_key admin_key provided s =
    guarded by_key s (require_admin_key admin_key provided)
