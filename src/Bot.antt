-- ===== src/Bot.antt =====
-- artifacts/api-server/src/routes/bot.ts with the unary calls of artifacts/api-server/src/lib/grpc-client.ts:
-- the engines behind the routes, the calls that reach them and `fetchPython`. The routes are in the
-- children. Logging is left out.
pub mod Portfolio
pub mod Orders
pub mod Strategies
pub mod Tokens
pub mod Control
pub mod Calls
pub mod Sources
pub mod Offline
pub mod Activation
pub mod Tests
use pumpy_v.Common.{ℕ, String, Bool, true, false, Option, none, some, List, [], ◌∷◌, ◌++◌}
use pumpy_v.Json.{
  Value, undefined, null, boolean, number, text, array, object, Fields, Numbers, fields_of,
}

-- `SubmitOrderRequest`, with the fields that the route sets; a field is what the client sent.
pub record SubmitOrderRequest (N : Type 0) : Type 0 where
  pub token_mint : Value N
  pub order_type : Value N
  pub side : Value N
  pub amount : N
  pub slippage_bps : Value N
  pub strategy_name : Value N
  pub client_order_id : Value N
  pub trace_id : Value N

pub data GrpcCall (N : Type 0) : Type 0 where
  submit_order : SubmitOrderRequest N → GrpcCall N
  cancel_order : String → GrpcCall N
  get_order_status : String → GrpcCall N
  get_token_info : String → GrpcCall N
  get_portfolio_summary : GrpcCall N

pub data Method : Type 0 where
  http_get : Method
  http_post : Method
  http_patch : Method
  http_delete : Method

-- `fetch(PYTHON_API + path, init)`
pub record Request (N : Type 0) : Type 0 where
  pub method : Method
  pub path : String
  pub body : Option (Value N)

-- What `fetch` gives: it throws, or `resp.ok` and the parsed body, `none` if that does not parse.
pub data Fetched (N : Type 0) : Type 0 where
  unreachable : Fetched N
  answered : Bool → Option (Value N) → Fetched N

pub record StrategyRow (N : Type 0) : Type 0 where
  pub name : String
  pub enabled : Bool
  pub trades_executed : N
  pub trades_won : N
  pub total_pnl_sol : N
  pub buy_amount_sol : N

-- The world outside the routes: its state may change with every call, and the answers with it. A gRPC
-- call and a query give `none` if they throw.
pub record Engines (N W : Type 0) : Type 0 where
  pub grpc : GrpcCall N → W → Option (Fields N) × W
  pub fetch : Request N → W → Fetched N × W
  pub select_strategies : W → Option (List (StrategyRow N)) × W

-- A call that left the server.
pub data Call (N : Type 0) : Type 0 where
  to_rust : GrpcCall N → Call N
  to_python : Request N → Call N
  to_database : Call N

pub record Reply (N : Type 0) : Type 0 where
  pub status : ℕ
  pub body : Value N

-- A computation that calls the engines: the world and the calls so far, the latest last.
abbrev pub Io : Type 0 → Type 0 → Type 0 → Type 0
Io N W A = W × List (Call N) → A × W × List (Call N)

module _ {N : Type 0} where
  abbrev pub body_or_null : Fetched N → Value N
  body_or_null unreachable = null
  body_or_null (answered false body) = null
  body_or_null (answered true none) = null
  body_or_null (answered true (some v)) = v

module _ {N W : Type 0} where
  abbrev pub done : {A : Type 0} → A → Io N W A
  done a s = (a, s.0, s.1)

  infixl 5 ◌>>=◌
  abbrev pub ◌>>=◌ : {A B : Type 0} → Io N W A → (A → Io N W B) → Io N W B
  ◌>>=◌ m f s = f (m s).0 ((m s).1, (m s).2)

  abbrev pub call_rust : Engines N W → GrpcCall N → Io N W (Option (Fields N))
  call_rust e c (w, calls) = ((e.grpc c w).0, (e.grpc c w).1, calls ++ to_rust c ∷ [])

  abbrev pub call_fetch : Engines N W → Request N → Io N W (Fetched N)
  call_fetch e r (w, calls) = ((e.fetch r w).0, (e.fetch r w).1, calls ++ to_python r ∷ [])

  abbrev pub call_database : Engines N W → Io N W (Option (List (StrategyRow N)))
  call_database e (w, calls) =
      ((e.select_strategies w).0, (e.select_strategies w).1, calls ++ to_database ∷ [])

  abbrev pub fetch_python : Engines N W → Request N → Io N W (Value N)
  fetch_python e r = call_fetch e r >>= λ fetched. done (body_or_null fetched)

  abbrev pub settle : (Fields N → Reply N) → Io N W (Reply N) → Option (Fields N) → Io N W (Reply N)
  settle answer fallback none = fallback
  settle answer fallback (some fields) = done (answer fields)

  -- `try { const reply = await grpcBot...; res.json(...); return; } catch { }`, then what follows.
  abbrev pub try_rust :
      Engines N W → GrpcCall N → (Fields N → Reply N) → Io N W (Reply N) → Io N W (Reply N)
  try_rust e c answer fallback = call_rust e c >>= settle answer fallback

module _ {N : Type 0} where
  abbrev pub get_request : String → Request N
  get_request path = record { method = http_get; path = path; body = none }

  abbrev pub json : Value N → Reply N
  json v = record { status = 200; body = v }

  abbrev pub error : ℕ → String → Reply N
  error status message = record {
    status = status;
    body = object (fields_of (("error", text message) ∷ []));
  }
