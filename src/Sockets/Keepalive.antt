-- ===== src/Sockets/Keepalive.antt =====
-- index.ts: the ping timer ends the connections that stay silent, and only those.
use pumpy_v.Common.{
  ℕ, ◌≡◌, refl, ◌⊎◌, inl, inr, String, Bool, true, false, none, some, List, [], ◌∷◌, map, All,
  if◌then◌else◌, arith, not, ◌==◌, All-keep, All-append,
}
use pumpy_v.Sockets.{
  Client, Event, connects, orders, pongs, ticks, closes, messages, shuts, on_order, on_pong,
  on_tick, connected, at, step, run,
}

-- Between any two ticks for `k` stands a pong of `k`; `a` says whether one has come since the last.
abbrev pub Answers : {P : Type 0} → ℕ → Bool → List (Event P) → Type 0
Answers k a [] = Unit
Answers k a (connects j ids ∷ es) = ((j == k) ≡ false) × Answers k a es
Answers k a (pongs j ∷ es) = Answers k (if j == k then true else a) es
Answers k a (ticks j ∷ es) =
    (((j == k) ≡ false) ⊎ (a ≡ true)) × Answers k (if j == k then false else a) es
Answers k a (_ ∷ es) = Answers k a es

-- No pong of `k` comes, and no client of that name connects.
abbrev pub Silent : {P : Type 0} → ℕ → List (Event P) → Type 0
Silent k [] = Unit
Silent k (connects j ids ∷ es) = ((j == k) ≡ false) × Silent k es
Silent k (pongs j ∷ es) = ((j == k) ≡ false) × Silent k es
Silent k (_ ∷ es) = Silent k es

module _ {P : Type 0} (id_of : P → String) where
  abbrev pub Steady : ℕ → Bool → Client P → Type 0
  Steady k a c = ((c.name == k) ≡ false) ⊎ ((c.is_alive ≡ a) × (c.terminated ≡ false))

  All-Steady :
      (k : ℕ) (a b : Bool) (f : Client P → Client P)
      → ((c : Client P) → Steady k a c → Steady k b (f c))
      → (cs : List (Client P)) → All (Steady k a) cs
      → All (Steady k b) (map f cs)
  All-Steady k a b f h [] s = tt
  All-Steady k a b f h (c ∷ cs) s = (h c s.0, All-Steady k a b f h cs s.1)

  order-Steady :
      (k : ℕ) (a : Bool) (p : P) (c : Client P) → Steady k a c → Steady k a (on_order id_of p c)
  unfolding on_order
  order-Steady k a p c s = ground arith

  pong-Steady :
      (k j : ℕ) (a : Bool) (c : Client P)
      → Steady k a c
      → Steady k (if j == k then true else a) (at j on_pong c)
  pong-Steady k j a c s = ground arith

  tick-Steady :
      (k j : ℕ) (a : Bool) (c : Client P)
      → ((j == k) ≡ false) ⊎ (a ≡ true)
      → Steady k a c
      → Steady k (if j == k then false else a) (at j on_tick c)
  unfolding on_tick
  tick-Steady k j a c h s = ground arith

  -- The flag after an event.
  abbrev answered : ℕ → Bool → Event P → Bool
  answered k a (pongs j) = if j == k then true else a
  answered k a (ticks j) = if j == k then false else a
  answered k a _ = a

  step-Steady :
      (k : ℕ) (a : Bool) (e : Event P) (es : List (Event P)) (cs : List (Client P))
      → Answers k a (e ∷ es)
      → All (Steady k a) cs
      → All (Steady k (answered k a e)) (step id_of cs e) × Answers k (answered k a e) es
  unfolding step
  step-Steady k a (connects j ids) es cs n s =
      (All-append (Steady k a) cs (connected j ids ∷ []) s (inl n.0, tt), n.1)
  step-Steady k a (orders p) es cs n s =
      (All-Steady k a a (on_order id_of p) (order-Steady k a p) cs s, n)
  step-Steady k a (pongs j) es cs n s =
      (All-Steady k a (if j == k then true else a) (at j on_pong) (pong-Steady k j a) cs s, n)
  step-Steady k a (ticks j) es cs n s = (
    All-Steady k a (if j == k then false else a) (at j on_tick) (λ c. tick-Steady k j a c n.0) cs s,
    n.1,
  )
  step-Steady k a (closes j) es cs n s = (All-keep (Steady k a) (λ c. not (c.name == j)) cs s, n)
  step-Steady k a (messages j none) es cs n s = (All-Steady k a a _ (λ c s. ground arith) cs s, n)
  step-Steady k a (messages j (some m)) es cs n s =
      (All-Steady k a a _ (λ c s. ground arith) cs s, n)
  step-Steady k a (shuts j) es cs n s = (All-Steady k a a _ (λ c s. ground arith) cs s, n)

  run-Steady :
      (k : ℕ) (a : Bool) (es : List (Event P)) (cs : List (Client P))
      → Answers k a es
      → All (Steady k a) cs
      → All (λ c. ((c.name == k) ≡ false) ⊎ (c.terminated ≡ false)) (run id_of cs es)
  unfolding run
  run-Steady k a [] [] n s = tt
  run-Steady k a [] (c ∷ cs) n s = (ground (arith, s.0), run-Steady k a [] cs n s.1)
  run-Steady k a (e ∷ es) cs n s =
      let (s', n') = step-Steady k a e es cs n s in
      run-Steady k (answered k a e) es (step id_of cs e) n' s'

  abbrev Missed : ℕ → Client P → Type 0
  Missed k c = ((c.name == k) ≡ false) ⊎ (c.is_alive ≡ false)

  All-map :
      (Q R : Client P → Type 0) (f : Client P → Client P)
      → ((c : Client P) → Q c → R (f c))
      → (cs : List (Client P)) → All Q cs
      → All R (map f cs)
  All-map Q R f h [] s = tt
  All-map Q R f h (c ∷ cs) s = (h c s.0, All-map Q R f h cs s.1)

  always :
      (f : Client P → Client P) (R : Client P → Type 0)
      → ((c : Client P) → R (f c))
      → (cs : List (Client P)) → All R (map f cs)
  always f R h [] = tt
  always f R h (c ∷ cs) = (h c, always f R h cs)

  order-Missed : (k : ℕ) (p : P) (c : Client P) → Missed k c → Missed k (on_order id_of p c)
  unfolding on_order
  order-Missed k p c s = ground arith

  tick-Missed : (k j : ℕ) (c : Client P) → Missed k c → Missed k (at j on_tick c)
  unfolding on_tick
  tick-Missed k j c s = ground arith

  first-Missed : (k : ℕ) (c : Client P) → Missed k (at k on_tick c)
  unfolding on_tick
  first-Missed k c = ground arith

  step-Missed :
      (k : ℕ) (e : Event P) (es : List (Event P)) (cs : List (Client P))
      → Silent k (e ∷ es)
      → All (Missed k) cs
      → All (Missed k) (step id_of cs e) × Silent k es
  unfolding step
  step-Missed k (connects j ids) es cs n s =
      (All-append (Missed k) cs (connected j ids ∷ []) s (inl n.0, tt), n.1)
  step-Missed k (orders p) es cs n s =
      (All-map (Missed k) (Missed k) (on_order id_of p) (order-Missed k p) cs s, n)
  step-Missed k (pongs j) es cs n s =
      (All-map (Missed k) (Missed k) (at j on_pong) (λ c s. ground (arith, n.0)) cs s, n.1)
  step-Missed k (ticks j) es cs n s =
      (All-map (Missed k) (Missed k) (at j on_tick) (tick-Missed k j) cs s, n)
  step-Missed k (closes j) es cs n s = (All-keep (Missed k) (λ c. not (c.name == j)) cs s, n)
  step-Missed k (messages j none) es cs n s =
      (All-map (Missed k) (Missed k) _ (λ c s. ground arith) cs s, n)
  step-Missed k (messages j (some m)) es cs n s =
      (All-map (Missed k) (Missed k) _ (λ c s. ground arith) cs s, n)
  step-Missed k (shuts j) es cs n s =
      (All-map (Missed k) (Missed k) _ (λ c s. ground arith) cs s, n)

  run-Missed :
      (k : ℕ) (es : List (Event P)) (cs : List (Client P))
      → Silent k es
      → All (Missed k) cs
      → All (Missed k) (run id_of cs es)
  unfolding run
  run-Missed k [] cs n s = s
  run-Missed k (e ∷ es) cs n s =
      let (s', n') = step-Missed k e es cs n s in run-Missed k es (step id_of cs e) n' s'

  abbrev pub Ended : ℕ → Client P → Type 0
  Ended k c = ((c.name == k) ≡ false) ⊎ ((c.terminated ≡ true) × (c.open_ ≡ false))

  second-Ended : (k : ℕ) (c : Client P) → Missed k c → Ended k (at k on_tick c)
  unfolding on_tick
  second-Ended k c s = ground arith

-- A client that connects and answers every ping before the next tick is never terminated, whatever
-- the other clients do and whatever is sent.
pub run_answering :
    (P : Type 0) (id_of : P → String) (k : ℕ) (ids : List String) (es : List (Event P))
    → Answers k true es
    → All
        (λ c. ((c.name == k) ≡ false) ⊎ (c.terminated ≡ false))
        (run id_of (connected k ids ∷ []) es)
run_answering P id_of k ids es n =
    run-Steady id_of k true es (connected k ids ∷ []) n (inr (refl, refl), tt)

-- A client that lets a whole interval pass between two ticks without a pong is terminated at the
-- second, and its socket is no longer open.
pub ticks_mute :
    (P : Type 0) (id_of : P → String) (k : ℕ) (es : List (Event P)) (cs : List (Client P))
    → Silent k es
    → All (Ended id_of k) (step id_of (run id_of (step id_of cs (ticks k)) es) (ticks k))
unfolding step
ticks_mute P id_of k es cs n =
    All-map id_of (Missed id_of k) (Ended id_of k) (at k on_tick) (second-Ended id_of k) _ (
      run-Missed id_of k es (map (at k on_tick) cs) n
        (always id_of (at k on_tick) (Missed id_of k) (first-Missed id_of k) cs))
