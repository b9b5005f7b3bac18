-- ===== src/OrderForm/Tests.antt =====
-- Trades.tsx: an order that Rust takes, one whose slippage was cleared, and one without an amount.
use pumpy_v.Common.{
  ℕ, ◌*◌, ◌/◌, ◌≡◌, refl, true, none, some, [], ◌∷◌, ◌++◌, ltb, str_eq, if◌then◌else◌, ◌==◌, not,
  is_some,
}
use pumpy_v.Json.{boolean, number, text, object, undefined, no_fields, Numbers, fields_of, get}
use pumpy_v.Bot.{Engines, unreachable, to_rust, to_python, submit_order}
use pumpy_v.Bot.Orders.{post_order, python_order}
use pumpy_v.OrderForm.{
  Platform, Page, initial, handle_submit, on_settled, order_fields, edit, types_slippage,
}
use pumpy_v.OrderForm.Submission.{
  asked, Shows, Told, handle_submit_calls, handle_submit-Told, handle_submit-Shows,
}

abbrev whole : Numbers ℕ
whole = record {
  literal = λ m k. m;
  truthy_number = λ n. ltb 0 n;
  positive = λ n. ltb 0 n;
  times = ◌*◌;
  over = ◌/◌;
  round = λ n. n;
  number_of = λ v. elim v [ number n ↦ some n | _ ↦ some 0 ];
  spread_other = λ v. no_fields;
}

-- 7 stands for NaN, the only number that is not finite, and every text but "2" is it.
abbrev platform : Platform ℕ
platform = record {
  numbers = whole;
  is_finite = λ n. not (n == 7);
  parse_float = λ s. if str_eq s "2" then 2 else 7;
  parse_int = λ s. if str_eq s "2" then 2 else 7;
  shown = λ v. "o1";
  refusal = λ r. "bad request";
  no_property = "no property";
}

-- Rust accepts every order.
abbrev accepting : Engines ℕ Unit
accepting = record {
  grpc = λ c w. (some (fields_of (("order_id", text "o1") ∷ ("success", boolean true) ∷ [])), w);
  fetch = λ r w. (unreachable, w);
  select_strategies = λ w. (none, w);
}

abbrev filled : Page ℕ
filled = record (initial platform) {
  form = record {
    token_mint = "mint";
    side = "SELL";
    amount_sol = "2";
    order_type = "LIMIT";
    slippage_bps = 50;
  };
}

order_shown :
    (handle_submit platform accepting "u1" "u2" "m" filled (tt, [])).0.form_msg
    ≡ some "Order submitted: o1"
unfolding handle_submit post_order on_settled
order_shown = refl

-- The field of the slippage is emptied: the order asks for 100 basis points.
cleared_slippage :
    (asked platform (edit platform (types_slippage "") filled).form "u1" "u2").slippage_bps
    ≡ number 100
unfolding edit
cleared_slippage = refl

handle_submit_calls_example :
    (handle_submit platform accepting "u1" "u2" "m" filled (tt, [])).2
    ≡ []
      ++ to_rust (submit_order (asked platform filled.form "u1" "u2"))
        ∷ (if is_some (accepting.grpc (submit_order (asked platform filled.form "u1" "u2")) tt).0
            then []
            else to_python
                (python_order whole (get (order_fields platform filled.form)) (text "u2"))
              ∷ [])
handle_submit_calls_example =
    handle_submit_calls platform accepting "u1" "u2" "m" filled tt [] (λ n. refl)
      (refl, refl, refl, refl)

handle_submit-Told_example :
    Told platform
      (post_order whole accepting
        (object (order_fields platform filled.form))
        "u1"
        "u2"
        "m"
        (tt, [])).0
      filled
      (handle_submit platform accepting "u1" "u2" "m" filled (tt, [])).0
handle_submit-Told_example = handle_submit-Told platform accepting "u1" "u2" "m" filled tt []

handle_submit-Shows_example :
    Shows platform
      (boolean true)
      (text "o1")
      undefined
      filled
      (handle_submit platform accepting "u1" "u2" "m" filled (tt, [])).0
handle_submit-Shows_example =
    handle_submit-Shows platform accepting "u1" "u2" "m" filled tt []
      (fields_of (("order_id", text "o1") ∷ ("success", boolean true) ∷ [])) (λ n. refl)
      (refl, refl, refl, refl) refl
