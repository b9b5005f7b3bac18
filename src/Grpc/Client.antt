-- ===== src/Grpc/Client.antt =====
-- grpc-client.ts: one client serves every call.
use pumpy_v.Common.{
  String, ◌≡◌, refl, sym, subst, Option, none, some, List, [], ◌∷◌, All, All-append, by_if, arith,
}
use pumpy_v.Json.{Fields}
use pumpy_v.Bot.{GrpcCall}
use pumpy_v.Grpc.{Sent, Library, Channel, Outcome, call_method, call_unary, unary_call}

module _ {N C : Type 0} (library : Library N C) where
  -- A history of calls, each with what making a client would give.
  abbrev pub run : List (Option C × GrpcCall N) → Channel N C → Channel N C
  run [] ch = ch
  run ((made, call) ∷ calls) ch =
      run calls (call_unary library made (unary_call call).0 (unary_call call).1 ch).1

  -- Every call that left went to the client that is kept; without one none left.
  abbrev ServedBy : Option C → List (Sent N C) → Type 0
  ServedBy none sent = sent ≡ []
  ServedBy (some c) sent = All (λ (s : Sent N C). s.client ≡ c) sent

  call_method-ServedBy :
      (c : C) (method : String) (request : Fields N) (sent : List (Sent N C))
      → ServedBy (some c) sent
      → ServedBy
          (call_method library c method request sent).1.client
          (call_method library c method request sent).1.sent
  call_method-ServedBy c method request sent h =
      by_if (λ (res : Outcome N × Channel N C). ServedBy res.1.client res.1.sent)
        (library.has_method c method)
        (λ e. All-append (λ (s : Sent N C). s.client ≡ c) sent _ h (refl, tt)) (λ e. h)

  call_unary-ServedBy :
      (made o : Option C) (method : String) (request : Fields N) (sent : List (Sent N C))
      → ServedBy o sent
      → let ch = (call_unary library made method request (record { client = o; sent = sent })).1 in
        ServedBy ch.client ch.sent
  unfolding call_unary
  call_unary-ServedBy none none method request sent h = h
  call_unary-ServedBy (some c) none method request sent h =
      call_method-ServedBy c method request sent (subst (ServedBy (some c)) (sym h) tt)
  call_unary-ServedBy none (some c) method request sent h =
      call_method-ServedBy c method request sent h
  call_unary-ServedBy (some d) (some c) method request sent h =
      call_method-ServedBy c method request sent h

  run-ServedBy :
      (calls : List (Option C × GrpcCall N)) (ch : Channel N C)
      → ServedBy ch.client ch.sent
      → ServedBy (run calls ch).client (run calls ch).sent
  run-ServedBy [] ch h = h
  run-ServedBy ((made, call) ∷ calls) ch h =
      run-ServedBy calls _
        (call_unary-ServedBy made ch.client (unary_call call).0 (unary_call call).1 ch.sent h)

  Kept : C → Outcome N × Channel N C → Type 0
  Kept c res = res.1.client ≡ some c

  call_unary-Kept :
      (made o : Option C) (method : String) (request : Fields N) (sent : List (Sent N C)) (c : C)
      → o ≡ some c
      → Kept c (call_unary library made method request (record { client = o; sent = sent }))
  unfolding call_unary Kept
  call_unary-Kept none none method request sent c h = h
  call_unary-Kept (some d) none method request sent c h = ground arith
  call_unary-Kept none (some d) method request sent c h =
      by_if (Kept c) (library.has_method d method) (λ e. h) (λ e. h)
  call_unary-Kept (some b) (some d) method request sent c h =
      by_if (Kept c) (library.has_method d method) (λ e. h) (λ e. h)

  run-Kept :
      (calls : List (Option C × GrpcCall N)) (ch : Channel N C) (c : C)
      → ch.client ≡ some c
      → (run calls ch).client ≡ some c
  unfolding Kept
  run-Kept [] ch c h = h
  run-Kept ((made, call) ∷ calls) ch c h =
      run-Kept calls _ c
        (call_unary-Kept made ch.client (unary_call call).0 (unary_call call).1 ch.sent c h)

  -- Whenever making a client succeeds or throws: the first client that is made is kept, and all calls that have left, before and
  -- after, went to it.
  pub run_one_client :
      (before after : List (Option C × GrpcCall N)) (c : C)
      → (run before (record { client = none; sent = [] })).client ≡ some c
      → let last = run after (run before (record { client = none; sent = [] })) in
        (last.client ≡ some c) × All (λ (s : Sent N C). s.client ≡ c) last.sent
  run_one_client before after c h =
      let first : Channel N C = run before (record { client = none; sent = [] }) in
      let kept = run-Kept after first c h in
      (
        kept,
        subst (λ o. ServedBy o (run after first).sent) kept
            (run-ServedBy after first
              (run-ServedBy before (record { client = none; sent = [] }) refl)),
      )
