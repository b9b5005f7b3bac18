-- ===== src/Bot/Offline.antt =====
-- bot.ts: what the routes answer when no engine can be reached.
use pumpy_v.Common.{String, ◌≡◌, refl, true, false, Option, none, some, List}
use pumpy_v.Json.{Value, boolean, Numbers, reader}
use pumpy_v.Bot.{Engines, Call, GrpcCall, Request, unreachable, error}
use pumpy_v.Bot.Orders.{post_order, get_order, delete_order, order_missing, rust_submit, lamports}
use pumpy_v.Bot.Sources.{field_in}

-- Every gRPC call throws and every request to the Python engine fails.
pub record IsDown {N W : Type 0} (e : Engines N W) : Type 0 where
  pub rust : (c : GrpcCall N) (w : W) → (e.grpc c w).0 ≡ none
  pub python : (r : Request N) (w : W) → (e.fetch r w).0 ≡ unreachable

module _ {N W : Type 0} (num : Numbers N) (e : Engines N W) where
  submit_down :
      (body : String → Value N) (amount : Option N) (order trace : Value N) (w : W)
      (cs : List (Call N))
      → IsDown e
      → field_in (rust_submit num e body amount order trace (w, cs)).0.body "success"
        ≡ boolean false
  submit_down body none order trace w cs down = rw (down.python) refl
  submit_down body (some amount) order trace w cs down =
      rw (rust_submit, down.rust, down.python) refl

  -- With both engines down a complete order is answered with success false and the status of an order with
  -- 404, but cancelling any order is answered with success true.
  pub offline_replies :
      (sent : Value N) (body : String → Value N) (i fresh_order fresh_trace message : String)
      (w : W) (cs : List (Call N))
      → IsDown e
      → reader sent ≡ some body
      → order_missing num body ≡ false
      → (field_in (post_order num e sent fresh_order fresh_trace message (w, cs)).0.body "success"
          ≡ boolean false)
        × ((get_order num e i (w, cs)).0 ≡ error 404 "Order not found")
        × (field_in (delete_order num e i (w, cs)).0.body "success" ≡ boolean true)
  unfolding post_order get_order delete_order
  offline_replies sent body i fresh_order fresh_trace message w cs down hr hm = (
    rw (post_order, hr, hm) (submit_down body (lamports num (body "amountSol")) _ _ w cs down),
    rw (get_order, down.rust, down.python) refl,
    rw (delete_order, down.rust, down.python) refl,
  )
