-- ===== src/Bot/Calls.antt =====
-- bot.ts: which engines a request reaches.
use pumpy_v.Common.{
  String, ◌≡◌, refl, ◌∙◌, inl, inr, false, Option, none, some, List, [], ◌∷◌, ◌++◌, if◌then◌else◌,
  is_some, append_assoc, Bool-cases, Option-cases, arith,
}
use pumpy_v.Json.{Value, text, Fields, Numbers, reader, or_default, elements}
use pumpy_v.Bot.{
  Engines, Call, Io, GrpcCall, settle, to_rust, to_python, to_database, Reply, submit_order,
  get_request, body_or_null,
}
use pumpy_v.Bot.Orders.{
  post_order, order_missing, lamports, rust_order, python_order, rust_submit, python_submit,
}
use pumpy_v.Bot.Strategies.{list_strategies, list_from}

module _ {N W : Type 0} (num : Numbers N) (e : Engines N W) where
  settle_calls :
      (answer : Fields N → Reply N) (fallback : Io N W (Reply N)) (rest : List (Call N))
      (c : GrpcCall N) (o : Option (Fields N)) (w : W) (cs : List (Call N))
      → ((v : W) (ds : List (Call N)) → (fallback (v, ds)).2 ≡ ds ++ rest)
      → (settle answer fallback o (w, cs ++ to_rust c ∷ [])).2
        ≡ cs ++ to_rust c ∷ (if is_some o then [] else rest)
  settle_calls answer fallback rest c none w cs h =
      h w (cs ++ to_rust c ∷ []) ∙ append_assoc cs (to_rust c ∷ []) rest
  settle_calls answer fallback rest c (some fs) w cs h = refl

  settle_status :
      (answer : Fields N → Reply N) (fallback : Io N W (Reply N)) (o : Option (Fields N)) (w : W)
      (cs : List (Call N))
      → ((fs : Fields N) → (answer fs).status ≡ 200)
      → ((v : W) (ds : List (Call N)) → (fallback (v, ds)).0.status ≡ 200)
      → (settle answer fallback o (w, cs)).0.status ≡ 200
  settle_status answer fallback none w cs ha hf = hf w cs
  settle_status answer fallback (some fs) w cs ha hf = ha fs

  rust_submit_status :
      (body : String → Value N) (amount : Option N) (order trace : Value N) (w : W)
      (cs : List (Call N))
      → (rust_submit num e body amount order trace (w, cs)).0.status ≡ 200
  rust_submit_status body none order trace w cs = refl
  rust_submit_status body (some amount) order trace w cs =
      settle_status _ (python_submit num e body trace)
        (e.grpc (submit_order (rust_order num body amount order trace)) w).0 _ _ (λ fs. refl)
        (λ v ds. refl)

  -- For an order with a mint, a side and an amount whose coercion to a number does not throw: it goes to
  -- Rust, and to Python as well exactly if the call of Rust throws; the second request is the order
  -- without its client order id.
  pub post_order_calls :
      (sent : Value N) (body : String → Value N) (amount : N)
      (fresh_order fresh_trace message : String) (w : W) (cs : List (Call N))
      → reader sent ≡ some body
      → order_missing num body ≡ false
      → lamports num (body "amountSol") ≡ some amount
      → (post_order num e sent fresh_order fresh_trace message (w, cs)).2
        ≡ cs
          ++ to_rust (
              submit_order (
                rust_order num body amount
                  (or_default (body "clientOrderId") (text fresh_order))
                  (or_default (body "traceId") (text fresh_trace))))
            ∷ (if is_some
                  (e.grpc
                    (submit_order (
                      rust_order num body amount
                        (or_default (body "clientOrderId") (text fresh_order))
                        (or_default (body "traceId") (text fresh_trace))))
                    w).0
                then []
                else to_python
                    (python_order num body (or_default (body "traceId") (text fresh_trace)))
                  ∷ [])
  unfolding post_order
  post_order_calls sent body amount fresh_order fresh_trace message w cs hr hm hl =
      rw (post_order, hr, hm, hl)
        (settle_calls _ (python_submit num e body (or_default (body "traceId") (text fresh_trace)))
          _ _ _ _ cs (λ v ds. refl))

  post_order_sent :
      (sent : Value N) (body : String → Value N) (fresh_order fresh_trace message : String) (w : W)
      (cs : List (Call N))
      → reader sent ≡ some body
      → order_missing num body ≡ false
      → (post_order num e sent fresh_order fresh_trace message (w, cs)).0.status ≡ 200
  unfolding post_order
  post_order_sent sent body fresh_order fresh_trace message w cs hr hm =
      rw (post_order, hr, hm) (rust_submit_status body (lamports num (body "amountSol")) _ _ w cs)

  -- A request that is answered with 400 has reached no engine.
  pub post_order_refused :
      (sent : Value N) (fresh_order fresh_trace message : String) (w : W) (cs : List (Call N))
      → (post_order num e sent fresh_order fresh_trace message (w, cs)).0.status ≡ 400
      → ((post_order num e sent fresh_order fresh_trace message (w, cs)).1 ≡ w)
        × ((post_order num e sent fresh_order fresh_trace message (w, cs)).2 ≡ cs)
  unfolding post_order
  post_order_refused sent fresh_order fresh_trace message w cs h =
      elim (Option-cases (reader sent)) [
        | inl er ↦ rw (post_order, er) (refl, refl)
        | inr (body, er) ↦ elim (Bool-cases (order_missing num body)) [
          | inl hm ↦ rw (post_order, er, hm) (refl, refl)
          | inr hm ↦ absurd (
              omega
                (arith, post_order_sent sent body fresh_order fresh_trace message w cs er hm, h))
        ]
      ]

  list_from_calls :
      (o : Option (List (Value N))) (w : W) (cs : List (Call N))
      → (list_from num e o (w, cs ++ to_python (get_request "/api/strategies") ∷ [])).2
        ≡ cs
          ++ to_python (get_request "/api/strategies")
            ∷ (if is_some o then [] else to_database ∷ [])
  list_from_calls none w cs = append_assoc cs _ _
  list_from_calls (some vs) w cs = refl

  -- The database is asked for the strategies exactly if Python's answer is not an array.
  pub list_strategies_calls :
      (w : W) (cs : List (Call N))
      → (list_strategies num e (w, cs)).2
        ≡ cs
          ++ to_python (get_request "/api/strategies")
            ∷ (if is_some (elements (body_or_null (e.fetch (get_request "/api/strategies") w).0))
                then []
                else to_database ∷ [])
  unfolding list_strategies
  list_strategies_calls w cs =
      list_from_calls (elements (body_or_null (e.fetch (get_request "/api/strategies") w).0)) _ cs
