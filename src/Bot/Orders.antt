-- ===== src/Bot/Orders.antt =====
-- bot.ts: submitting an order, its status, and cancelling it. `fresh_order` and `fresh_trace` are the
-- UUIDs that the handler would draw; `message` is the text of the error that reading a missing body throws.
use pumpy_v.Common.{
  String, Bool, true, false, Option, none, some, [], ◌∷◌, if◌then◌else◌, not, ◌||◌, cat,
}
use pumpy_v.Json.{
  Value, null, boolean, number, text, object, Fields, Numbers, defined, fields_of, get, reader,
  or_default, or_falsy, is_truthy,
}
use pumpy_v.Bot.{
  Engines, Io, Reply, Request, SubmitOrderRequest, submit_order, cancel_order, get_order_status,
  http_post, http_delete, done, ◌>>=◌, try_rust, fetch_python, get_request, json, error,
}

module _ {N : Type 0} (num : Numbers N) where
  abbrev pub order_missing : (String → Value N) → Bool
  order_missing body =
      not (is_truthy num (body "tokenMint"))
      || not (is_truthy num (body "side"))
      || not (is_truthy num (body "amountSol"))

  abbrev pub rust_order : (String → Value N) → N → Value N → Value N → SubmitOrderRequest N
  rust_order body amount order trace = record {
    token_mint = body "tokenMint";
    order_type = or_default (body "orderType") (text "MARKET");
    side = body "side";
    amount = amount;
    slippage_bps = or_default (body "slippageBps") (number (num.literal 100 0));
    strategy_name = or_default (body "strategyName") (text "manual");
    client_order_id = order;
    trace_id = trace;
  }

  abbrev pub python_order : (String → Value N) → Value N → Request N
  python_order body trace = record {
    method = http_post;
    path = "/api/orders";
    body = some (
        object (
          defined (
            ("token_mint", body "tokenMint")
            ∷ ("side", body "side")
            ∷ ("amount_sol", body "amountSol")
            ∷ ("order_type", or_default (body "orderType") (text "MARKET"))
            ∷ ("slippage_bps", or_default (body "slippageBps") (number (num.literal 100 0)))
            ∷ ("strategy_name", or_default (body "strategyName") (text "manual"))
            ∷ ("trace_id", trace)
            ∷ [])));
  }

  abbrev submitted : Value N → Value N → Fields N → Reply N
  submitted order trace grpc = json (
      object (
        fields_of (
          ("orderId", get grpc "order_id")
          ∷ ("success", get grpc "success")
          ∷ ("message", get grpc "message")
          ∷ ("clientOrderId", order)
          ∷ ("traceId", trace)
          ∷ ("source", text "rust")
          ∷ [])))

  abbrev not_available : Value N → Value N
  not_available trace = object (
      fields_of (
        ("success", boolean false)
        ∷ ("orderId", text "")
        ∷ ("message", text "Engine not available")
        ∷ ("traceId", trace)
        ∷ []))

  abbrev status_of : Fields N → Reply N
  status_of status = json (
      object (
        fields_of (
          ("orderId", get status "order_id")
          ∷ ("status", get status "status")
          ∷ ("signature", or_falsy num (get status "signature") null)
          ∷ ("error", or_falsy num (get status "error") null)
          ∷ ("executedAt", or_default (get status "executed_at") null)
          ∷ ("source", text "rust")
          ∷ [])))

  abbrev pub cancelled : Fields N → Reply N
  cancelled resp = json (
      object (
        fields_of (
          ("success", get resp "success")
          ∷ ("message", get resp "message")
          ∷ ("source", text "rust")
          ∷ [])))

  abbrev pub cancelled_offline : Value N
  cancelled_offline =
      object (fields_of (("success", boolean true) ∷ ("message", text "Cancelled (offline)") ∷ []))

  -- `Math.round(body.amountSol * 1_000_000_000)`
  abbrev pub lamports : Value N → Option N
  lamports amount = elim (num.number_of amount) [
    | none ↦ none
    | some n ↦ some (num.round (num.times n (num.literal 1000000000 0)))
  ]

  module _ {W : Type 0} (e : Engines N W) where
    abbrev pub python_submit : (String → Value N) → Value N → Io N W (Reply N)
    python_submit body trace = fetch_python e (python_order body trace) >>= λ py.
        done (json (or_default py (not_available trace)))

    -- An amount whose coercion throws falls through to Python like a failed call.
    abbrev pub rust_submit : (String → Value N) → Option N → Value N → Value N → Io N W (Reply N)
    rust_submit body none order trace = python_submit body trace
    rust_submit body (some amount) order trace =
        try_rust e (submit_order (rust_order body amount order trace)) (submitted order trace)
          (python_submit body trace)

    unfoldable pub post_order : Value N → String → String → String → Io N W (Reply N)
    post_order sent fresh_order fresh_trace message = elim (reader sent) [
      | none ↦ done (error 400 message)
      | some body ↦
          if order_missing body
          then done (error 400 "Missing required fields: tokenMint, side, amountSol")
          else rust_submit body (lamports (body "amountSol"))
              (or_default (body "clientOrderId") (text fresh_order))
              (or_default (body "traceId") (text fresh_trace))
    ]

    unfoldable pub get_order : String → Io N W (Reply N)
    get_order i = try_rust e (get_order_status i) status_of (
        fetch_python e (get_request (cat "/api/orders/" i)) >>= λ py.
        done (if is_truthy num py then json py else error 404 "Order not found"))

    unfoldable pub delete_order : String → Io N W (Reply N)
    delete_order i = try_rust e (cancel_order i) cancelled (
        fetch_python e (record { method = http_delete; path = cat "/api/orders/" i; body = none })
        >>= λ py. done (json (or_default py cancelled_offline)))
