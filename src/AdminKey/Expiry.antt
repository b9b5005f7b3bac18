-- ===== src/AdminKey/Expiry.antt =====
-- use-admin-key.ts: the cache answers as if it were only the last key with its deadline.
use pumpy_v.Common.{
  ℕ, ◌+◌, ◌≤◌, ◌≡◌, refl, String, true, some, List, [], ◌∷◌, ◌⊎◌, inl, inr, if◌then◌else◌, ltb, leb,
  truthy, arith, eq_iff, ◌&&◌, Bool-cases, Option-cases,
}
use pumpy_v.AdminKey.{
  hour_ms, working_ms, Cache, initial, read_key, show_key, broadcast_to, set_admin_key,
  remember_admin_key, clear_admin_key, fire, mount, Event, sets, remembers, clears, reads, fires,
  mounts, unmounts, step, run,
}

-- The specification: the key last stored, and the time until which it is good.
pub record Grant : Type 0 where
  pub key : String
  pub until : ℕ

abbrev pub granted : ℕ → Event → Grant → Grant
granted now (sets key) g = record { key = key; until = now + working_ms }
granted now (remembers key) g = record { key = key; until = now + hour_ms }
granted now clears g = record { key = ""; until = 0 }
granted now _ g = g

abbrev pub grants : List (ℕ × Event) → Grant → Grant
grants [] g = g
grants ((now, e) ∷ es) g = grants es (granted now e g)

-- The key of the grant, if it is still good at `now`.
abbrev pub good : ℕ → Grant → String
good now g = if ltb now g.until then g.key else ""

-- Times never go back, from `t` on and up to `now`.
abbrev pub Timed : ℕ → List (ℕ × Event) → ℕ → Type 0
Timed t [] now = t ≤ now
Timed t ((u, e) ∷ es) now = (t ≤ u) × Timed u es now

-- At time `t` the cache holds the grant, or neither has a key to give.
pub record Agrees (t : ℕ) (c : Cache) (g : Grant) : Type 0 where
  pub same :
      ((c.cached_key ≡ g.key) × (c.cache_expiry ≡ g.until))
      ⊎ ((c.cached_key ≡ "") × ((g.key ≡ "") ⊎ (g.until ≤ t)))
  pub timed : truthy c.cached_key ≡ true → c.expiry_timer ≡ some c.cache_expiry

read_key-Agrees :
    (t u : ℕ) (c : Cache) (g : Grant) → t ≤ u → Agrees t c g → Agrees u (read_key u c).1 g
unfolding read_key
read_key-Agrees t u c g h a = elim (Bool-cases (truthy c.cached_key && ltb u c.cache_expiry)) [
  | inl e ↦ rw (e, read_key) (record { same = ground (arith, a.same); timed = a.timed })
  | inr e ↦
      rw (e, read_key)
        (record {
          same = inr (refl, ground (arith, a.same, eq_iff c.cached_key ""));
          timed = λ x. ground arith;
        })
]

show_key-Agrees :
    (u k : ℕ) (key : String) (c : Cache) (g : Grant) → Agrees u c g → Agrees u (show_key k key c) g
show_key-Agrees u k key c g a = record { same = a.same; timed = a.timed }

broadcast_to-Agrees :
    (u : ℕ) (ks : List ℕ) (c : Cache) (g : Grant) → Agrees u c g → Agrees u (broadcast_to u ks c) g
unfolding broadcast_to
broadcast_to-Agrees u [] c g a = a
broadcast_to-Agrees u (k ∷ ks) c g a =
    broadcast_to-Agrees u ks (show_key k (read_key u c).0 (read_key u c).1) g (
      show_key-Agrees u k (read_key u c).0 (read_key u c).1 g
        (read_key-Agrees u u c g (omega arith) a))

stored-Agrees :
    (u : ℕ) (key : String) (c : Cache) (g : Grant)
    → Agrees u (set_admin_key u key c) (granted u (sets key) g)
unfolding set_admin_key
stored-Agrees u key c g = elim (Bool-cases (truthy key)) [
  | inl e ↦
      rw e (
        broadcast_to-Agrees u c.listeners _ _ (record { same = ground (arith); timed = λ _. refl }))
  | inr e ↦ rw e (
      broadcast_to-Agrees u c.listeners _ _
        (record { same = ground (arith, eq_iff key ""); timed = λ t. ground arith }))
]

later-Agrees : (t u : ℕ) (c : Cache) (g : Grant) → t ≤ u → Agrees t c g → Agrees u c g
later-Agrees t u c g h a = record { same = ground (arith, a.same); timed = a.timed }

fire-Agrees : (t u : ℕ) (c : Cache) (g : Grant) → t ≤ u → Agrees t c g → Agrees u (fire u c) g
unfolding fire
fire-Agrees t u c g h a = elim (Option-cases c.expiry_timer) [
  | inl e ↦ rw (e, fire) (later-Agrees t u c g h a)
  | inr (due, e) ↦ elim (Bool-cases (leb due u)) [
    | inl d ↦
        rw (e, fire)
          (rw d (
            broadcast_to-Agrees u c.listeners _ g (record {
              same = inr (refl, ground (arith, a.same, a.timed, eq_iff c.cached_key ""));
              timed = λ x. ground arith;
            })))
    | inr d ↦ rw (e, fire) (rw d (later-Agrees t u c g h a))
  ]
]

pub remembered-Agrees :
    (u : ℕ) (key : String) (c : Cache)
    → Agrees u (remember_admin_key u key c) (record { key = key; until = u + hour_ms })
unfolding remember_admin_key
remembered-Agrees u key c =
    broadcast_to-Agrees u c.listeners _ _ (record { same = inl (refl, refl); timed = λ _. refl })

pub cleared-Agrees :
    (u : ℕ) (c : Cache) → Agrees u (clear_admin_key u c) (record { key = ""; until = 0 })
unfolding clear_admin_key
cleared-Agrees u c =
    broadcast_to-Agrees u c.listeners _ _
      (record { same = inl (refl, refl); timed = λ x. ground arith })

pub read_key-good :
    (t u : ℕ) (c : Cache) (g : Grant) → t ≤ u → Agrees t c g → (read_key u c).0 ≡ good u g
unfolding read_key
read_key-good t u c g h a = ground (arith, a.same, eq_iff c.cached_key "", eq_iff g.key "")

step-Agrees :
    (t u : ℕ) (e : Event) (c : Cache) (g : Grant)
    → t ≤ u
    → Agrees t c g
    → Agrees u (step u e c) (granted u e g)
unfolding step mount
step-Agrees t u (sets key) c g h a = stored-Agrees u key c g
step-Agrees t u (remembers key) c g h a = remembered-Agrees u key c
step-Agrees t u clears c g h a = cleared-Agrees u c
step-Agrees t u reads c g h a = read_key-Agrees t u c g h a
step-Agrees t u fires c g h a = fire-Agrees t u c g h a
step-Agrees t u (mounts k) c g h a =
    let b = read_key-Agrees t u c g h a in record { same = b.same; timed = b.timed }
step-Agrees t u (unmounts k) c g h a = record { same = ground (arith, a.same); timed = a.timed }

run-Agrees :
    (t : ℕ) (es : List (ℕ × Event)) (now : ℕ) (c : Cache) (g : Grant)
    → Timed t es now
    → Agrees t c g
    → (read_key now (run es c)).0 ≡ good now (grants es g)
unfolding run
run-Agrees t [] now c g h a = read_key-good t now c g h a
run-Agrees t ((u, e) ∷ es) now c g h a =
    run-Agrees u es now (step u e c) (granted u e g) h.1 (step-Agrees t u e c g h.0 a)

-- After any history of calls, reads, timers and mounts at times that never go back,
-- `getValidAdminKey` at a later time gives the key last stored if it is still within its term (five
-- minutes after `setAdminKey`, an hour after `rememberAdminKey`) and was not cleared, and otherwise
-- the empty text.
pub run-read_key :
    (es : List (ℕ × Event)) (now : ℕ)
    → Timed 0 es now
    → (read_key now (run es initial)).0 ≡ good now (grants es (record { key = ""; until = 0 }))
run-read_key es now h =
    run-Agrees 0 es now initial _ h (record { same = inl (refl, refl); timed = λ e. ground arith })
