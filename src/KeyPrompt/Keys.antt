-- ===== src/KeyPrompt/Keys.antt =====
-- Wallets.tsx, Strategies.tsx and Settings.tsx: which keys the cards send.
use pumpy_v.Common.{
  ℕ, String, ◌≡◌, inl, inr, Bool, true, false, Option, none, some, List, [], ◌∷◌, not, ◌||◌, truthy,
  is_some, Bool-cases, All, All-append,
}
use pumpy_v.AdminKey.{Cache, get_valid_admin_key}
use pumpy_v.KeyPrompt.{
  Card, Event, select, types, checks, enter, apply, cancel, succeeded, failed, mutate, use_key,
  select_choice, admin_key, submit, step, run, is_pending,
}

abbrev pub HasKeys : {P : Type 0} → List (P × String) → Type 0
HasKeys sent = All (λ r. truthy r.1 ≡ true) sent

module _ {P : Type 0} (active : P → Bool) where
  mutate-HasKeys :
      (target : P) (key : String) (c : Card P)
      → truthy key ≡ true
      → HasKeys c.sent
      → HasKeys (mutate target key c).sent
  mutate-HasKeys target key c h keys = All-append _ c.sent _ keys (h, tt)

  use_key-HasKeys :
      (target : P) (k : String × Cache) (c : Card P)
      → HasKeys c.sent
      → HasKeys (use_key target k c).sent
  use_key-HasKeys target (key, cache) c keys = elim (Bool-cases (truthy key)) [
    | inl h ↦ rw (use_key, h) (mutate-HasKeys target key (record c { cache = cache }) h keys)
    | inr h ↦ rw (use_key, h) keys
  ]

  submit-HasKeys :
      (enabled : Bool) (target : Option P) (c : Card P)
      → HasKeys c.sent
      → HasKeys (submit enabled target c).sent
  submit-HasKeys enabled none c keys = keys
  submit-HasKeys false (some target) c keys = keys
  submit-HasKeys true (some target) c keys = elim (Bool-cases (truthy (admin_key c))) [
    | inl h ↦ rw (submit, h) (mutate-HasKeys target (admin_key c) c h keys)
    | inr h ↦ rw (submit, h) keys
  ]

  step-HasKeys :
      (now : ℕ) (e : Event P) (c : Card P) → HasKeys c.sent → HasKeys (step active now e c).sent
  unfolding step select_choice
  step-HasKeys now (select target) c keys =
      elim (Bool-cases (is_pending c.in_flight || is_some c.pending || active target)) [
        | inl h ↦ rw (step, h) keys
        | inr h ↦ rw (step, h) (use_key-HasKeys target (get_valid_admin_key now c.cache) c keys)
      ]
  step-HasKeys now (types s) c keys = elim (Bool-cases (is_some c.pending)) [
    | inl h ↦ rw (step, h) keys
    | inr h ↦ rw (step, h) keys
  ]
  step-HasKeys now (checks b) c keys = elim (Bool-cases (is_some c.pending)) [
    | inl h ↦ rw (step, h) keys
    | inr h ↦ rw (step, h) keys
  ]
  step-HasKeys now enter c keys = submit-HasKeys true c.pending c keys
  step-HasKeys now apply c keys = submit-HasKeys (not (is_pending c.in_flight)) c.pending c keys
  step-HasKeys now cancel c keys = elim (Bool-cases (is_some c.pending)) [
    | inl h ↦ rw (step, h) keys
    | inr h ↦ rw (step, h) keys
  ]
  step-HasKeys now (succeeded target key) c keys = keys
  step-HasKeys now failed c keys = keys

  -- Whatever the user does and however the requests settle, no request is sent with an empty key.
  pub run-HasKeys :
      (es : List (ℕ × Event P)) (c : Card P) → HasKeys c.sent → HasKeys (run active es c).sent
  unfolding run
  run-HasKeys [] c keys = keys
  run-HasKeys ((now, e) ∷ es) c keys =
      run-HasKeys es (step active now e c) (step-HasKeys now e c keys)
