-- ===== src/Bot/Tests.antt =====
-- bot.ts: an engine that answers everything, one that answers nothing, and one where Rust is down.
use pumpy_v.Common.{
  ℕ, ◌*◌, ◌/◌, ◌≤◌, ◌≡◌, refl, true, false, Option, none, some, [], ◌∷◌, ltb, str_eq, if◌then◌else◌,
}
use pumpy_v.Json.{
  Value, null, boolean, number, text, array, object, Fields, no_fields, Numbers, fields_of,
  array_of, get,
}
use pumpy_v.Bot.{
  Engines, Request, unreachable, answered, to_rust, to_python, submit_order, get_request, error,
}
use pumpy_v.Bot.Portfolio.{Process}
use pumpy_v.Bot.Orders.{post_order, get_order, delete_order, rust_order, python_order}
use pumpy_v.Bot.Control.{activate_request, set_all_strategies, start}
use pumpy_v.Bot.Calls.{post_order_calls, post_order_refused}
use pumpy_v.Bot.Sources.{field_in}
use pumpy_v.Bot.Offline.{offline_replies}
use pumpy_v.Bot.Activation.{set_all_strategies_calls}

abbrev pub coerce : Value ℕ → Option ℕ
coerce (number n) = some n
coerce _ = some 0

abbrev pub whole : Numbers ℕ
whole = record {
  literal = λ m k. m;
  truthy_number = λ n. ltb 0 n;
  positive = λ n. ltb 0 n;
  times = ◌*◌;
  over = ◌/◌;
  round = λ n. n;
  number_of = coerce;
  spread_other = λ v. no_fields;
}

abbrev pub strategies : Value ℕ
strategies = array (
    array_of (
      object (fields_of (("name", text "sniper") ∷ ("enabled", boolean true) ∷ []))
      ∷ object (fields_of (("name", text "momentum") ∷ ("enabled", boolean false) ∷ []))
      ∷ []))

abbrev pub page : Request ℕ → Value ℕ
page r =
    if str_eq r.path "/api/strategies"
    then strategies
    else object (fields_of (("source", text "cache") ∷ []))

abbrev pub python_only : Engines ℕ Unit
python_only = record {
  grpc = λ c w. (none, w);
  fetch = λ r w. (answered true (some (page r)), w);
  select_strategies = λ w. (none, w);
}

abbrev dead : Engines ℕ Unit
dead = record {
  grpc = λ c w. (none, w);
  fetch = λ r w. (unreachable, w);
  select_strategies = λ w. (some [], w);
}

abbrev process : Process ℕ
process = record { wallet_address = none; node_env = none; jito_bundle_url = none; uptime = 7 }

abbrev order_fields : Fields ℕ
order_fields = fields_of (
    ("tokenMint", text "mint")
    ∷ ("side", text "BUY")
    ∷ ("amountSol", number 2)
    ∷ ("clientOrderId", text "c1")
    ∷ [])

abbrev order : Value ℕ
order = object order_fields

started :
    (start python_only (λ n. "2") (tt, [])).0.body
    ≡ object (
        fields_of
          (("success", boolean true) ∷ ("message", text "2 strategy/strategies activated") ∷ []))
unfolding start
started = refl

post_order_calls_example :
    (post_order whole python_only order "u1" "u2" "m" (tt, [])).2
    ≡ to_rust
        (submit_order (rust_order whole (get order_fields) 2000000000 (text "c1") (text "u2")))
      ∷ to_python (python_order whole (get order_fields) (text "u2"))
      ∷ []
post_order_calls_example =
    post_order_calls whole python_only order (get order_fields) 2000000000 "u1" "u2" "m" tt [] refl
      refl refl

post_order_refused_example :
    ((post_order whole python_only null "u1" "u2" "m" (tt, [])).1 ≡ tt)
    × ((post_order whole python_only null "u1" "u2" "m" (tt, [])).2 ≡ [])
unfolding post_order
post_order_refused_example = post_order_refused whole python_only null "u1" "u2" "m" tt [] refl

offline_replies_example :
    (field_in (post_order whole dead order "u1" "u2" "m" (tt, [])).0.body "success" ≡ boolean false)
    × ((get_order whole dead "o1" (tt, [])).0 ≡ error 404 "Order not found")
    × (field_in (delete_order whole dead "o1" (tt, [])).0.body "success" ≡ boolean true)
offline_replies_example =
    offline_replies whole dead order (get order_fields) "o1" "u1" "u2" "m" tt []
      (record { rust = λ c w. refl; python = λ r w. refl }) refl refl

set_all_strategies_calls_example :
    ((set_all_strategies python_only true (tt, [])).2
      ≡ to_python (get_request "/api/strategies")
        ∷ to_python (activate_request true (text "sniper"))
        ∷ to_python (activate_request true (text "momentum"))
        ∷ [])
    × ((n : ℕ) × ((set_all_strategies python_only true (tt, [])).0 ≡ some n) × (n ≤ 2))
set_all_strategies_calls_example =
    set_all_strategies_calls python_only true (text "sniper" ∷ text "momentum" ∷ []) tt [] refl
