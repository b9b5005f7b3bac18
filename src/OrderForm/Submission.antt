-- ===== src/OrderForm/Submission.antt =====
-- Trades.tsx over bot.ts: what a submission of the order form does, on the page and at the engines.
use pumpy_v.Common.{
  String, ◌≡◌, refl, ap, ◌∙◌, ◌⊎◌, inl, inr, true, false, Option, none, some, List, [], ◌∷◌, ◌++◌,
  if◌then◌else◌, cat, ◌==◌, subst, sym, false, truthy, is_some, Bool-cases, by_if,
}
use pumpy_v.Json.{
  Value, Fields, fields_of, number, text, object, get, reader, is_truthy, or_default,
}
use pumpy_v.Bot.{Engines, Call, Reply, to_rust, to_python, submit_order, SubmitOrderRequest}
use pumpy_v.Bot.Orders.{post_order, order_missing, rust_order, python_order, lamports}
use pumpy_v.Bot.Calls.{post_order_calls}
use pumpy_v.OrderForm.{
  Platform, Form, Page, Settled, empty_form, json_number, order_fields, error_message, on_result,
  on_settled, client_result, handle_submit,
}

module _ {N : Type 0} (p : Platform N) where
  -- The page after an answer with these `success`, `orderId` and `message`: a success clears the form and shows the
  -- order's id, and anything else keeps the form and shows the message.
  abbrev pub Shows : Value N → Value N → Value N → Page N → Page N → Type 0
  Shows success order why before after =
      ((is_truthy p.numbers success ≡ true)
        × (after.form ≡ empty_form p)
        × (after.form_msg ≡ some (cat "Order submitted: " (p.shown order))))
      ⊎ ((is_truthy p.numbers success ≡ false)
          × (after.form ≡ before.form)
          × (after.form_msg ≡ some (cat "Error: " (p.shown why))))

  -- The page after a reply: a status of 200 with a body that has properties is shown, and any other reply keeps the form
  -- and shows an error.
  abbrev pub Told : Reply N → Page N → Page N → Type 0
  Told reply before after =
      (((reply.status == 200) ≡ true)
        × (result : String → Value N) × (reader reply.body ≡ some result)
        × Shows (result "success") (result "orderId") (result "message") before after)
      ⊎ ((((reply.status == 200) ≡ false) ⊎ (reader reply.body ≡ none))
          × (after.form ≡ before.form)
          × (why : String) × (after.form_msg ≡ some (cat "Error: " why)))

  on_result-Shows :
      (result : String → Value N) (page : Page N)
      → Shows
          (result "success")
          (result "orderId")
          (result "message")
          page
          (on_result p result page)
  on_result-Shows result page =
      by_if (Shows (result "success") (result "orderId") (result "message") page)
        (is_truthy p.numbers (result "success")) (λ e. inl (e, refl, refl))
        (λ e. inr (e, refl, refl))

  read-Told :
      (reply : Reply N) (o : Option (String → Value N)) (page : Page N)
      → (reply.status == 200) ≡ true
      → reader reply.body ≡ o
      → Told reply page (elim o [
        | none ↦ record page { form_msg = some (error_message p (some p.no_property)) }
        | some result ↦ on_result p result page
      ])
  read-Told reply none page ok e = inr (inr e, refl, p.no_property, refl)
  read-Told reply (some result) page ok e = inl (ok, result, e, on_result-Shows result page)

  client_result-Told :
      (reply : Reply N) (page : Page N)
      → Told reply page (on_settled p (client_result p reply) page)
  unfolding on_settled
  client_result-Told reply page =
      by_if (λ (o : Settled N). Told reply page (on_settled p o page)) (reply.status == 200)
        (λ ok. read-Told reply (reader reply.body) page ok refl)
        (λ no. inr (inl no, refl, p.refusal reply, refl))

  either_order :
      (n : N)
      → or_default (json_number p n) (number (p.numbers.literal 100 0))
        ≡ number (if p.is_finite n then n else p.numbers.literal 100 0)
  either_order n = elim (Bool-cases (p.is_finite n)) [ inl e ↦ rw (e) refl | inr e ↦ rw (e) refl ]

  -- The order that Rust is asked for: the form's, with 100 basis points where the slippage is not finite.
  abbrev pub asked : Form N → String → String → SubmitOrderRequest N
  asked f order trace = record {
    token_mint = text f.token_mint;
    order_type = text f.order_type;
    side = text f.side;
    amount =
        p.numbers.round
          (p.numbers.times (p.parse_float f.amount_sol) (p.numbers.literal 1000000000 0));
    slippage_bps =
        number (if p.is_finite f.slippage_bps then f.slippage_bps else p.numbers.literal 100 0);
    strategy_name = text "manual";
    client_order_id = text order;
    trace_id = text trace;
  }

  -- A form that the server takes as complete.
  abbrev pub IsComplete : Form N → Type 0
  IsComplete f =
      (truthy f.token_mint ≡ true)
      × (truthy f.side ≡ true)
      × (p.is_finite (p.parse_float f.amount_sol) ≡ true)
      × (p.numbers.truthy_number (p.parse_float f.amount_sol) ≡ true)

  IsComplete-order :
      (f : Form N) → IsComplete f → order_missing p.numbers (get (order_fields p f)) ≡ false
  IsComplete-order f c = rw (order_missing, json_number, c.2, c.0, c.1) (rw (c.3) refl)

  lamports-amount :
      (f : Form N)
      → ((n : N) → p.numbers.number_of (number n) ≡ some n)
      → IsComplete f
      → lamports p.numbers (json_number p (p.parse_float f.amount_sol))
        ≡ some (asked f "" "").amount
  lamports-amount f law c =
      rw (json_number, c.2) (rw (lamports, law (p.parse_float f.amount_sol)) refl)

  rust_order-asked :
      (f : Form N) (order trace : String)
      → rust_order p.numbers
          (get (order_fields p f))
          (asked f "" "").amount
          (text order)
          (text trace)
        ≡ asked f order trace
  rust_order-asked f order trace =
      ap (λ v. record (asked f order trace) { slippage_bps = v }) (either_order f.slippage_bps)

  module _ {W : Type 0} (e : Engines N W) where
    -- A complete form that is submitted asks Rust for the form's order, with a fresh id and "manual" as its strategy, and if Rust
    -- does not answer Python as well, without the id; `Number` of a number is that number.
    pub handle_submit_calls :
        (order trace message : String) (page : Page N) (w : W) (cs : List (Call N))
        → ((n : N) → p.numbers.number_of (number n) ≡ some n)
        → IsComplete page.form
        → let sent = submit_order (asked page.form order trace) in
          (handle_submit p e order trace message page (w, cs)).2
          ≡ cs
            ++ to_rust sent
              ∷ (if is_some (e.grpc sent w).0
                  then []
                  else to_python
                      (python_order p.numbers (get (order_fields p page.form)) (text trace))
                    ∷ [])
    unfolding handle_submit
    handle_submit_calls order trace message page w cs law c =
        let f = page.form in
        post_order_calls p.numbers e (object (order_fields p f)) (get (order_fields p f))
          (asked f "" "").amount order trace message w cs refl (IsComplete-order f c)
          (lamports-amount f law c)
        ∙ ap
            (λ o.
              cs
              ++ to_rust (submit_order o)
                ∷ (if is_some (e.grpc (submit_order o) w).0
                    then []
                    else to_python (python_order p.numbers (get (order_fields p f)) (text trace))
                      ∷ []))
            (rust_order-asked f order trace)

    -- Whatever POST /bot/orders replies: to status 200 and a body with properties, the page clears the form and shows the
    -- order's id if `success` is truthy, and else keeps the form and shows the message; to any other reply it keeps the
    -- form and shows an error.
    pub handle_submit-Told :
        (order trace message : String) (page : Page N) (w : W) (cs : List (Call N))
        → let reply =
            (post_order p.numbers e
              (object (order_fields p page.form))
              order
              trace
              message
              (w, cs)).0 in
          Told reply page (handle_submit p e order trace message page (w, cs)).0
    unfolding handle_submit
    handle_submit-Told order trace message page w cs =
        client_result-Told
          (post_order p.numbers e (object (order_fields p page.form)) order trace message (w, cs)).0
          (record page { form_msg = none })

    -- For a complete form whose order Rust answers: the page clears the form and shows Rust's id of the order if Rust's
    -- `success` is truthy, and else keeps the form and shows Rust's message; `Number` of a number is that number.
    pub handle_submit-Shows :
        (order trace message : String) (page : Page N) (w : W) (cs : List (Call N))
        (answer : Fields N)
        → ((n : N) → p.numbers.number_of (number n) ≡ some n)
        → IsComplete page.form
        → (e.grpc (submit_order (asked page.form order trace)) w).0 ≡ some answer
        → Shows
            (get answer "success")
            (get answer "order_id")
            (get answer "message")
            page
            (handle_submit p e order trace message page (w, cs)).0
    unfolding handle_submit post_order
    handle_submit-Shows order trace message page w cs answer law c h =
        let body = get (order_fields p page.form) in
        let at =
          subst (λ o. (e.grpc (submit_order o) w).0 ≡ some answer)
            (sym (rust_order-asked page.form order trace)) h in
        rw (post_order, IsComplete-order page.form c, lamports-amount page.form law c, at)
          (on_result-Shows
            (get (
              fields_of (
                ("orderId", get answer "order_id")
                ∷ ("success", get answer "success")
                ∷ ("message", get answer "message")
                ∷ ("clientOrderId", text order)
                ∷ ("traceId", text trace)
                ∷ ("source", text "rust")
                ∷ [])))
            (record page { form_msg = none }))

    -- An amount that is not finite reaches no engine: the calls and the form stay, and an error is shown.
    pub handle_submit_refused :
        (order trace message : String) (page : Page N) (w : W) (cs : List (Call N))
        → p.is_finite (p.parse_float page.form.amount_sol) ≡ false
        → let res = handle_submit p e order trace message page (w, cs) in
          (res.1 ≡ w) × (res.2 ≡ cs) × (res.0.form ≡ page.form)
    unfolding handle_submit post_order on_settled
    handle_submit_refused order trace message page w cs h =
        elim (Bool-cases (truthy page.form.token_mint)) [
          | inl m ↦ elim (Bool-cases (truthy page.form.side)) [
            | inl d ↦ rw (post_order, order_missing, json_number, h, m, d) (refl, refl, refl)
            | inr d ↦ rw (post_order, order_missing, json_number, h, m, d) (refl, refl, refl)
          ]
          | inr m ↦ rw (post_order, order_missing, json_number, h, m) (refl, refl, refl)
        ]
