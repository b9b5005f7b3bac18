-- ===== src/KeyPrompt/Sent.antt =====
-- Wallets.tsx, Strategies.tsx and Settings.tsx: a card never takes back what it has sent.
use pumpy_v.Common.{
  ℕ, ◌≡◌, refl, sym, inl, inr, String, Bool, true, false, Option, none, some, List, [], ◌∷◌, ◌++◌,
  Bool-cases, append-nil, not, is_some, truthy, ◌||◌,
}
use pumpy_v.AdminKey.{Cache, get_valid_admin_key}
use pumpy_v.KeyPrompt.{
  Card, Event, select, types, checks, enter, apply, cancel, succeeded, failed, use_key,
  select_choice, admin_key, submit, step, is_pending, on_success, on_error, cancelled,
}

-- What was sent is kept, and more may follow.
abbrev pub Grows : {A : Type 0} → List A → List A → Type 0
Grows {A} xs ys = (zs : List A) × (ys ≡ xs ++ zs)

pub Grows-refl : {A : Type 0} (xs : List A) → Grows xs xs
Grows-refl xs = ([], sym (append-nil xs))

module _ {P : Type 0} (active : P → Bool) where
  submit-Grows :
      (enabled : Bool) (target : Option P) (c : Card P)
      → Grows c.sent (submit enabled target c).sent
  submit-Grows enabled none c = Grows-refl c.sent
  submit-Grows false (some target) c = Grows-refl c.sent
  submit-Grows true (some target) c = elim (Bool-cases (truthy (admin_key c))) [
    | inl h ↦ rw (submit, h) ((target, admin_key c) ∷ [], refl)
    | inr h ↦ rw (submit, h) (Grows-refl c.sent)
  ]

  use_key-Grows :
      (target : P) (k : String × Cache) (c : Card P) → Grows c.sent (use_key target k c).sent
  use_key-Grows target (key, cache) c = elim (Bool-cases (truthy key)) [
    | inl h ↦ rw (use_key, h) ((target, key) ∷ [], refl)
    | inr h ↦ rw (use_key, h) (Grows-refl c.sent)
  ]

  pub step-Grows : (now : ℕ) (e : Event P) (c : Card P) → Grows c.sent (step active now e c).sent
  unfolding step select_choice cancelled on_success on_error
  step-Grows now (select target) c =
      elim (Bool-cases (is_pending c.in_flight || is_some c.pending || active target)) [
        | inl h ↦ rw (step, h) (Grows-refl c.sent)
        | inr h ↦ rw (step, h) (use_key-Grows target (get_valid_admin_key now c.cache) c)
      ]
  step-Grows now (types s) c = elim (Bool-cases (is_some c.pending)) [
    | inl h ↦ rw (step, h) (Grows-refl c.sent)
    | inr h ↦ rw (step, h) (Grows-refl c.sent)
  ]
  step-Grows now (checks b) c = elim (Bool-cases (is_some c.pending)) [
    | inl h ↦ rw (step, h) (Grows-refl c.sent)
    | inr h ↦ rw (step, h) (Grows-refl c.sent)
  ]
  step-Grows now enter c = submit-Grows true c.pending c
  step-Grows now apply c = submit-Grows (not (is_pending c.in_flight)) c.pending c
  step-Grows now cancel c = elim (Bool-cases (is_some c.pending)) [
    | inl h ↦ rw (step, h) (Grows-refl c.sent)
    | inr h ↦ rw (step, h) (Grows-refl c.sent)
  ]
  step-Grows now (succeeded target key) c = Grows-refl c.sent
  step-Grows now failed c = Grows-refl c.sent
