-- ===== src/Grpc.antt =====
-- artifacts/api-server/src/lib/grpc-client.ts: the client that is made once, and the calls that go to it. A client of the gRPC library
-- is a value of `C`; making one can throw, and then the next call tries again.
pub mod Client
mod Tests
use pumpy_v.Common.{
  String, Bool, true, false, Option, none, some, List, [], ◌∷◌, ◌++◌, if◌then◌else◌, cat,
}
use pumpy_v.Json.{Value, text, array, no_items, Fields, fields_of, no_fields, defined, number}
use pumpy_v.Bot.{
  GrpcCall, SubmitOrderRequest, submit_order, cancel_order, get_order_status, get_token_info,
  get_portfolio_summary,
}
use pumpy_v.Stream.{Event, updates, ends}

-- A call as it leaves: the client, the method and the request.
pub record Sent (N C : Type 0) : Type 0 where
  pub client : C
  pub method : String
  pub request : Fields N

pub record Library (N C : Type 0) : Type 0 where
  -- whether `client[method]` is a function
  pub has_method : C → String → Bool
  -- the error or the response that the callback gets
  pub respond : Sent N C → Option (Fields N)

-- `_client`, and the calls that left.
pub record Channel (N C : Type 0) : Type 0 where
  pub client : Option C
  pub sent : List (Sent N C)

pub data Outcome (N : Type 0) : Type 0 where
  -- `getClient` throws
  no_client : Outcome N
  no_method : String → Outcome N
  service_error : Outcome N
  resolved : Fields N → Outcome N

-- `getClient`; `made` is what making a client gives, `none` if it throws.
abbrev pub get_client : {C : Type 0} → Option C → Option C → Option C
get_client made none = made
get_client made (some c) = some c

module _ {N C : Type 0} (library : Library N C) where
  abbrev pub callback : Option (Fields N) → Outcome N
  callback none = service_error
  callback (some fields) = resolved fields

  abbrev pub call_method : C → String → Fields N → List (Sent N C) → Outcome N × Channel N C
  call_method c method request sent =
      let s : Sent N C = record { client = c; method = method; request = request } in
      if library.has_method c method
      then (callback (library.respond s), record { client = some c; sent = sent ++ s ∷ [] })
      else (
        no_method (cat "gRPC method not found: " method),
        record { client = some c; sent = sent },
      )

  -- `callUnary`
  unfoldable pub call_unary : Option C → String → Fields N → Channel N C → Outcome N × Channel N C
  call_unary made method request ch = elim (get_client made ch.client) [
    | none ↦ (no_client, ch)
    | some c ↦ call_method c method request ch.sent
  ]

module _ {N : Type 0} where
  -- The request of an order, without the fields that are undefined.
  abbrev pub order_request : SubmitOrderRequest N → Fields N
  order_request r = defined (
      ("token_mint", r.token_mint)
      ∷ ("order_type", r.order_type)
      ∷ ("side", r.side)
      ∷ ("amount", number r.amount)
      ∷ ("slippage_bps", r.slippage_bps)
      ∷ ("strategy_name", r.strategy_name)
      ∷ ("client_order_id", r.client_order_id)
      ∷ ("trace_id", r.trace_id)
      ∷ [])

  -- The method and the request of each of the unary calls of `grpcBot`.
  unfoldable pub unary_call : GrpcCall N → String × Fields N
  unary_call (submit_order r) = ("SubmitOrder", order_request r)
  unary_call (cancel_order i) = ("CancelOrder", fields_of (("order_id", text i) ∷ []))
  unary_call (get_order_status i) = ("GetOrderStatus", fields_of (("order_id", text i) ∷ []))
  unary_call (get_token_info mint) = ("GetTokenInfo", fields_of (("token_mint", text mint) ∷ []))
  unary_call get_portfolio_summary = ("GetPortfolioSummary", no_fields)

-- What the stream of StreamOrders emits, and the callback that each is passed on to.
pub data Emitted : Type 0 where
  data_ end error : Emitted

unfoldable pub passed_on : Emitted → Event
passed_on data_ = updates
passed_on end = ends
passed_on error = ends
