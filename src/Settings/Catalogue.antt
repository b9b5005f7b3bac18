-- ===== src/Settings/Catalogue.antt =====
-- settings.ts: the catalogue of environment variables and the keys that the settings page may change.
use pumpy_v.Common.{String, Bool, true, false, List, [], ◌∷◌, str_eq, any}

pub record EnvVarDef : Type 0 where
  pub key : String
  pub required : Bool
  pub description : String
  pub set_in : String

abbrev pub allowed_config_keys : List String
allowed_config_keys =
    "SOLANA_RPC_URL" ∷ "SOLANA_RPC_URLS" ∷ "JITO_BUNDLE_URL" ∷ "JITO_TIP_PERCENT"
    ∷ "JITO_TIP_FLOOR_LAMPORTS" ∷ "JITO_TIP_CEILING_LAMPORTS" ∷ "JITO_SIMULATION_ENABLED"
    ∷ "MAX_POSITION_SIZE_SOL" ∷ "STOP_LOSS_PERCENT" ∷ "TAKE_PROFIT_PERCENT" ∷ "RUST_GRPC_URL"
    ∷ "PYTHON_STRATEGY_URL" ∷ []

abbrev pub env_var_defs : List EnvVarDef
env_var_defs =
    record {
      key = "SOLANA_RPC_URL";
      required = true;
      description = "Solana JSON-RPC endpoint (e.g. your Helius / QuickNode URL).";
      set_in = "Settings page or Replit Secrets panel";
    }
    ∷ record {
      key = "SOLANA_RPC_URLS";
      required = false;
      description = "Comma-separated RPC endpoints for automatic failover.";
      set_in = "Settings page or Replit Secrets panel";
    }
    ∷ record {
      key = "WALLET_PRIVATE_KEY";
      required = true;
      description = "Wallet private key as a base58 string or JSON byte array (64 bytes).";
      set_in = "Replit Secrets panel";
    }
    ∷ record {
      key = "KEYPAIR_PATH";
      required = false;
      description = "Path to a Solana keypair JSON file on disk.";
      set_in = "Replit Files panel — upload the file, then set the path here";
    }
    ∷ record {
      key = "DATABASE_URL";
      required = true;
      description =
          "PostgreSQL connection string. Auto-provided when you attach a Replit database.";
      set_in = "Replit Database tab (auto-injected)";
    }
    ∷ record {
      key = "JITO_BUNDLE_URL";
      required = false;
      description = "Jito MEV bundle submission endpoint. Enables front-running protection.";
      set_in = "Settings page or Replit Secrets panel";
    }
    ∷ record {
      key = "JITO_TIP_PERCENT";
      required = false;
      description =
          "Jito tip as a fraction of trade value (e.g. 0.001 = 0.1%). Clamped to floor/ceiling.";
      set_in = "Settings page";
    }
    ∷ record {
      key = "JITO_TIP_FLOOR_LAMPORTS";
      required = false;
      description =
          "Minimum Jito tip in lamports regardless of trade size (e.g. 5000 = 0.000005 SOL).";
      set_in = "Settings page";
    }
    ∷ record {
      key = "JITO_TIP_CEILING_LAMPORTS";
      required = false;
      description =
          "Maximum Jito tip in lamports regardless of trade size (e.g. 10000000 = 0.01 SOL).";
      set_in = "Settings page";
    }
    ∷ record {
      key = "JITO_SIMULATION_ENABLED";
      required = false;
      description = "Pre-submission transaction simulation gate. Set to 'true' or 'false'.";
      set_in = "Settings page";
    }
    ∷ record {
      key = "PYTHON_STRATEGY_URL";
      required = false;
      description = "URL of the Python strategy engine. Defaults to http://localhost:8001.";
      set_in = "Settings page or Replit Secrets panel";
    }
    ∷ record {
      key = "RUST_GRPC_URL";
      required = false;
      description = "gRPC address of the Rust trading engine. Defaults to localhost:50051.";
      set_in = "Settings page or Replit Secrets panel";
    }
    ∷ record {
      key = "GRPC_PORT";
      required = false;
      description = "Port the Rust gRPC server listens on (default: 50051).";
      set_in = "Replit Secrets panel";
    }
    ∷ record {
      key = "METRICS_PORT";
      required = false;
      description = "Port for the Prometheus /metrics endpoint (default: 9091).";
      set_in = "Replit Secrets panel";
    }
    ∷ record {
      key = "MAX_POSITION_SIZE_SOL";
      required = false;
      description = "Maximum SOL amount allowed per individual trade position.";
      set_in = "Settings page or Replit Secrets panel";
    }
    ∷ record {
      key = "STOP_LOSS_PERCENT";
      required = false;
      description = "Stop-loss exit threshold as a percentage (e.g. 10 = exit at −10%).";
      set_in = "Settings page or Replit Secrets panel";
    }
    ∷ record {
      key = "TAKE_PROFIT_PERCENT";
      required = false;
      description = "Take-profit exit threshold as a percentage (e.g. 50 = exit at +50%).";
      set_in = "Settings page or Replit Secrets panel";
    }
    ∷ []

abbrev pub among : List String → String → Bool
among ks k = any (λ j. str_eq j k) ks

abbrev pub is_allowed : String → Bool
is_allowed = among allowed_config_keys

abbrev pub secret_keys : List String
secret_keys = "WALLET_PRIVATE_KEY" ∷ "DATABASE_URL" ∷ []

abbrev pub is_secret : String → Bool
is_secret = among secret_keys
