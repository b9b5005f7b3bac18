-- ===== src/AdminKey.antt =====
-- artifacts/dashboard/src/hooks/use-admin-key.ts: the in-memory cache of the admin key. `Date.now()`
-- is the argument `now`, in milliseconds; a pending `_expiryTimer` is the time at which it is due;
-- `views` is the React state of each mounted hook.
pub mod Expiry
mod Tests
use pumpy_v.Common.{
  ℕ, ◌+◌, ◌*◌, String, Bool, true, false, Option, none, some, List, [], ◌∷◌, ◌++◌, ◌&&◌,
  if◌then◌else◌, ◌==◌, ltb, leb, truthy, not, keep,
}

abbrev pub hour_ms : ℕ
hour_ms = 60 * 60 * 1000

-- `ttl` of `setAdminKey`
abbrev pub working_ms : ℕ
working_ms = 5 * 60 * 1000

pub record Cache : Type 0 where
  pub cached_key : String
  pub cache_expiry : ℕ
  pub expiry_timer : Option ℕ
  pub listeners : List ℕ
  pub views : ℕ → String

abbrev pub initial : Cache
initial = record {
  cached_key = "";
  cache_expiry = 0;
  expiry_timer = none;
  listeners = [];
  views = λ k. "";
}

abbrev pub wiped : Cache → Cache
wiped c = record c { cached_key = ""; cache_expiry = 0 }

-- `readKey`: the key, and the cache, which a stale read wipes.
unfoldable pub read_key : ℕ → Cache → String × Cache
read_key now c =
    if truthy c.cached_key && ltb now c.cache_expiry then (c.cached_key, c) else ("", wiped c)

-- `getValidAdminKey`
abbrev pub get_valid_admin_key : ℕ → Cache → String × Cache
get_valid_admin_key = read_key

abbrev pub show_key : ℕ → String → Cache → Cache
show_key k key c = record c { views = λ j. if j == k then key else c.views j }

-- `broadcast`: each listener reads the key anew.
unfoldable pub broadcast_to : ℕ → List ℕ → Cache → Cache
unfolding read_key
broadcast_to now [] c = c
broadcast_to now (k ∷ ks) c =
    let (key, c') = read_key now c in broadcast_to now ks (show_key k key c')

abbrev pub broadcast : ℕ → Cache → Cache
broadcast now c = broadcast_to now c.listeners c

-- A new timer replaces a pending one.
abbrev pub schedule_expiry : ℕ → ℕ → Cache → Cache
schedule_expiry now ttl c = record c { expiry_timer = some (now + ttl) }

unfoldable pub set_admin_key : ℕ → String → Cache → Cache
unfolding broadcast_to
set_admin_key now key c =
    let stored = record c {
      cached_key = key;
      cache_expiry = if truthy key then now + working_ms else 0;
    } in
    broadcast now (
      if truthy key
      then schedule_expiry now working_ms stored
      else record stored { expiry_timer = none })

unfoldable pub remember_admin_key : ℕ → String → Cache → Cache
unfolding broadcast_to
remember_admin_key now key c =
    broadcast now
      (schedule_expiry now hour_ms (record c { cached_key = key; cache_expiry = now + hour_ms }))

unfoldable pub clear_admin_key : ℕ → Cache → Cache
unfolding broadcast_to
clear_admin_key now c =
    broadcast now (record c { cached_key = ""; cache_expiry = 0; expiry_timer = none })

-- The callback of `scheduleExpiry`, which runs no earlier than it is due.
unfoldable pub fire : ℕ → Cache → Cache
unfolding broadcast_to
fire now c = elim c.expiry_timer [
  | none ↦ c
  | some due ↦
      if leb due now
      then broadcast now (record c { cached_key = ""; cache_expiry = 0; expiry_timer = none })
      else c
]

-- A hook mounts: `useState(readKey)`, then the effect adds it to the set `_listeners`.
unfoldable pub mount : ℕ → ℕ → Cache → Cache
unfolding read_key
mount now k c =
    let (key, c') = read_key now c in
    let shown = show_key k key c' in
    record shown { listeners = keep (λ j. not (j == k)) c'.listeners ++ k ∷ [] }

abbrev pub unmount : ℕ → Cache → Cache
unmount k c = record c { listeners = keep (λ j. not (j == k)) c.listeners }

pub data Event : Type 0 where
  sets remembers : String → Event
  clears reads fires : Event
  mounts unmounts : ℕ → Event

unfoldable pub step : ℕ → Event → Cache → Cache
unfolding set_admin_key remember_admin_key clear_admin_key read_key fire mount
step now (sets key) c = set_admin_key now key c
step now (remembers key) c = remember_admin_key now key c
step now clears c = clear_admin_key now c
step now reads c = (get_valid_admin_key now c).1
step now fires c = fire now c
step now (mounts k) c = mount now k c
step now (unmounts k) c = unmount k c

pub run : List (ℕ × Event) → Cache → Cache
run [] c = c
run ((now, e) ∷ es) c = run es (step now e c)
