-- ===== src/Sockets/Delivery.antt =====
-- index.ts: which updates a client is sent, and what an update says.
use pumpy_v.Common.{
  ℕ, ◌≡◌, refl, ap, ap₂, ◌∙◌, sym, String, false, Option, none, some, List, [], ◌∷◌, ◌++◌, map,
  keep, All, if◌then◌else◌, arith, not, ◌⊎◌, ◌==◌, Bool-cases, inl, inr, All-keep, All-append,
  append-nil, append_assoc,
}
use pumpy_v.Sockets.{
  OrderUpdate, TradeRow, map_some, base_payload, enrich_update, Client, Event, connects, orders,
  pongs, ticks, closes, messages, shuts, wants, on_order, on_tick, connected, step, run,
}

module _ {P : Type 0} (id_of : P → String) where
  -- The payloads among these that the client selects.
  abbrev pub selected : Client P → List P → List P
  selected c ps = if c.open_ then keep (λ p. wants c.filter_ids (id_of p)) ps else []

  abbrev pub served : List P → Client P → Client P
  served ps c = record c { sent = c.sent ++ selected c ps }

  map-map_of :
      (f g h : Client P → Client P)
      → ((c : Client P) → f (g c) ≡ h c)
      → (cs : List (Client P)) → map f (map g cs) ≡ map h cs
  map-map_of f g h e [] = refl
  map-map_of f g h e (c ∷ cs) = ap₂ ◌∷◌ (e c) (map-map_of f g h e cs)

  served_nil : (c : Client P) → served [] c ≡ c
  served_nil c = elim (Bool-cases c.open_) [
    | inl e ↦ ap (λ (s : List P). record c { sent = s }) (rw e (append-nil c.sent))
    | inr e ↦ ap (λ (s : List P). record c { sent = s }) (rw e (append-nil c.sent))
  ]

  nobody_served : (cs : List (Client P)) → cs ≡ map (served []) cs
  nobody_served [] = refl
  nobody_served (c ∷ cs) = ap₂ ◌∷◌ (sym (served_nil c)) (nobody_served cs)

  served_cons :
      (p : P) (ps : List P) (c : Client P) → served ps (on_order id_of p c) ≡ served (p ∷ ps) c
  unfolding on_order
  served_cons p ps c =
      ground
        (arith, append_assoc c.sent (p ∷ []) (keep (λ (q : P). wants c.filter_ids (id_of q)) ps))

-- A burst of updates reaches each client as exactly those updates that it selects, in order: all of
-- them if its filter is empty, those whose id is in the filter otherwise, and none if its socket is
-- not open. Nothing else changes.
pub run-orders :
    (P : Type 0) (id_of : P → String) (ps : List P) (cs : List (Client P))
    → run id_of cs (map orders ps) ≡ map (served id_of ps) cs
unfolding run step
run-orders P id_of [] cs = nobody_served id_of cs
run-orders P id_of (p ∷ ps) cs =
    run-orders P id_of ps (map (on_order id_of p) cs)
    ∙ map-map_of id_of (served id_of ps) (on_order id_of p) (served id_of (p ∷ ps))
        (served_cons id_of p ps) cs

-- No later event of the list connects the client `k`.
abbrev pub NoConnect : {P : Type 0} → ℕ → List (Event P) → Type 0
NoConnect k [] = Unit
NoConnect k (connects j ids ∷ es) = ((j == k) ≡ false) × NoConnect k es
NoConnect k (_ ∷ es) = NoConnect k es

module _ {P : Type 0} (id_of : P → String) where
  abbrev pub Gone : ℕ → List (Client P) → Type 0
  Gone k cs = All (λ c. (c.name == k) ≡ false) cs

  keep-Gone :
      (k : ℕ) (cs : List (Client P)) → Gone k (keep (λ (c : Client P). not (c.name == k)) cs)
  keep-Gone k [] = tt
  keep-Gone k (c ∷ cs) = ground (arith, keep-Gone k cs)

  map-Gone :
      (k : ℕ) (f : Client P → Client P)
      → ((c : Client P) → (f c).name ≡ c.name)
      → (cs : List (Client P)) → Gone k cs
      → Gone k (map f cs)
  map-Gone k f same [] g = tt
  map-Gone k f same (c ∷ cs) g = (rw (same c) g.0, map-Gone k f same cs g.1)

  step-Gone :
      (k : ℕ) (e : Event P) (es : List (Event P)) (cs : List (Client P))
      → NoConnect k (e ∷ es)
      → Gone k cs
      → Gone k (step id_of cs e) × NoConnect k es
  unfolding step on_order on_tick
  step-Gone k (connects j ids) es cs n g = (
    All-append (λ (c : Client P). (c.name == k) ≡ false) cs (connected j ids ∷ []) g (n.0, tt),
    n.1,
  )
  step-Gone k (orders p) es cs n g = (map-Gone k (on_order id_of p) (λ c. ground arith) cs g, n)
  step-Gone k (pongs j) es cs n g = (map-Gone k _ (λ c. ground arith) cs g, n)
  step-Gone k (ticks j) es cs n g = (map-Gone k _ (λ c. ground arith) cs g, n)
  step-Gone k (closes j) es cs n g =
      (All-keep (λ (c : Client P). (c.name == k) ≡ false) (λ c. not (c.name == j)) cs g, n)
  step-Gone k (messages j none) es cs n g = (map-Gone k _ (λ c. ground arith) cs g, n)
  step-Gone k (messages j (some m)) es cs n g = (map-Gone k _ (λ c. ground arith) cs g, n)
  step-Gone k (shuts j) es cs n g = (map-Gone k _ (λ c. ground arith) cs g, n)

  run-Gone :
      (k : ℕ) (es : List (Event P)) (cs : List (Client P))
      → NoConnect k es
      → Gone k cs
      → Gone k (run id_of cs es)
  unfolding run
  run-Gone k [] cs n g = g
  run-Gone k (e ∷ es) cs n g =
      let (g', n') = step-Gone k e es cs n g in run-Gone k es (step id_of cs e) n' g'

-- When a client closes, its listener and its timer are taken away for good: until a client of that
-- name connects again, no event finds or brings it back.
pub run-closes_absent :
    (P : Type 0) (id_of : P → String) (k : ℕ) (es : List (Event P)) (cs : List (Client P))
    → NoConnect k es
    → Gone id_of k (run id_of cs (closes k ∷ es))
unfolding run step
run-closes_absent P id_of k es cs n =
    run-Gone id_of k es (keep (λ (c : Client P). not (c.name == k)) cs) n (keep-Gone id_of k cs)

-- Whatever the database answers, and also if it fails, the relayed payload has the id, the mint, the
-- status, the signature, the time and the price of the update, and the executed amount if there is
-- one.
pub enrich_update_lem :
    (N : Type 0) (to_sol : N → N) (now : String) (u : OrderUpdate N)
    (found : Option (List (TradeRow N)))
    → let p = enrich_update to_sol now u found in
      let b = base_payload to_sol now u in
      (p.id ≡ u.order_id)
      × (p.mint ≡ b.mint)
      × (p.status ≡ u.status)
      × (p.signature ≡ u.signature)
      × (p.executed_at ≡ u.executed_at)
      × (p.price ≡ u.executed_price)
      × ((p.amount_sol ≡ map_some to_sol u.executed_amount) ⊎ (u.executed_amount ≡ none))
unfolding enrich_update
enrich_update_lem N to_sol now u none = ground arith
enrich_update_lem N to_sol now u (some []) = ground arith
enrich_update_lem N to_sol now u (some (row ∷ rows)) = ground arith
