-- ===== src/KeyPrompt.antt =====
-- The prompt for the admin key in artifacts/dashboard/src/pages: `WalletCard` of Wallets.tsx, `WalletPresetCard` of
-- Strategies.tsx and `StrategyPresetCard` of Settings.tsx, over the cache of AdminKey.antt that they share.
-- `P` is what the request is for: the preset, or nothing for the card that resumes a wallet. `view` is the
-- number of the card's hook. A handler takes the time and the card with the cache. The callbacks of a request
-- read the card as it is when the request settles. Toasts and queries are left out.
pub mod Keys
pub mod Settling
pub mod Sent
mod Tests
use pumpy_v.Common.{
  ℕ, zero, suc, ◌-◌, String, Bool, true, false, Option, none, some, List, [], ◌∷◌, ◌++◌,
  if◌then◌else◌, not, ◌||◌, ◌&&◌, truthy, is_some,
}
use pumpy_v.AdminKey.{
  Cache, get_valid_admin_key, read_key, set_admin_key, remember_admin_key, clear_admin_key,
}

-- `pending` is `pendingPreset` (or `showKeyPrompt`), `in_flight` the requests that have not settled, and `sent`
-- all that were made, the latest last.
pub record Card (P : Type 0) : Type 0 where
  pub view : ℕ
  pub pending : Option P
  pub remember_key : Bool
  pub in_flight : ℕ
  pub sent : List (P × String)
  pub cache : Cache

pub data Event (P : Type 0) : Type 0 where
  -- a button, which is disabled while a request runs or the prompt is open
  select : P → Event P
  -- the text field, the check box, the keys and the buttons of the prompt
  types : String → Event P
  checks : Bool → Event P
  enter : Event P
  apply : Event P
  cancel : Event P
  -- a request for `P` with a key settles
  succeeded : P → String → Event P
  failed : Event P

abbrev pub is_pending : ℕ → Bool
is_pending zero = false
is_pending (suc n) = true

-- `onSuccess`: only a prompt that is open decides on the cache.
abbrev pub settled_cache : ℕ → String → Bool → Bool → Cache → Cache
settled_cache now key false remember cache = cache
settled_cache now key true true cache = remember_admin_key now key cache
settled_cache now key true false cache = clear_admin_key now cache

module _ {P : Type 0} where
  -- `mutate`
  abbrev pub mutate : P → String → Card P → Card P
  mutate target key c = record c {
    in_flight = suc c.in_flight;
    sent = c.sent ++ (target, key) ∷ [];
  }

  abbrev pub use_key : P → String × Cache → Card P → Card P
  use_key target (key, cache) c =
      if truthy key
      then mutate target key (record c { cache = cache })
      else record c { cache = cache; pending = some target }

  -- `onClick` of a choice, behind its `disabled`; `active` says that it is the present one.
  unfoldable pub select_choice : (P → Bool) → ℕ → P → Card P → Card P
  unfolding read_key
  select_choice active now target c =
      if is_pending c.in_flight || is_some c.pending || active target
      then c
      else use_key target (get_valid_admin_key now c.cache) c

  abbrev pub admin_key : Card P → String
  admin_key c = c.cache.views c.view

  -- The prompt's part of an event: none while it is closed.
  abbrev pub submit : Bool → Option P → Card P → Card P
  submit enabled none c = c
  submit enabled (some target) c =
      if enabled && truthy (admin_key c) then mutate target (admin_key c) c else c

  unfoldable pub cancelled : ℕ → Card P → Card P
  unfolding clear_admin_key
  cancelled now c = record c {
    pending = none;
    remember_key = false;
    cache = clear_admin_key now c.cache;
  }

  unfoldable pub on_success : ℕ → String → Card P → Card P
  on_success now key c = record c {
    pending = none;
    in_flight = c.in_flight - 1;
    cache = settled_cache now key (is_some c.pending) c.remember_key c.cache;
  }

  unfoldable pub on_error : ℕ → Card P → Card P
  on_error now c = record c {
    remember_key = false;
    in_flight = c.in_flight - 1;
    cache = clear_admin_key now c.cache;
  }

  unfoldable pub step : (P → Bool) → ℕ → Event P → Card P → Card P
  unfolding select_choice cancelled on_success on_error
  step active now (select target) c = select_choice active now target c
  step active now (types s) c =
      if is_some c.pending then record c { cache = set_admin_key now s c.cache } else c
  step active now (checks b) c = if is_some c.pending then record c { remember_key = b } else c
  step active now enter c = submit true c.pending c
  step active now apply c = submit (not (is_pending c.in_flight)) c.pending c
  step active now cancel c = if is_some c.pending then cancelled now c else c
  step active now (succeeded target key) c = on_success now key c
  step active now failed c = on_error now c

  unfoldable pub run : (P → Bool) → List (ℕ × Event P) → Card P → Card P
  unfolding step
  run active [] c = c
  run active ((now, e) ∷ es) c = run active es (step active now e c)
