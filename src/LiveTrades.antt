-- ===== src/LiveTrades.antt =====
-- artifacts/dashboard/src/hooks/use-live-trades.ts: the live feed of trades over a WebSocket. `N` is
-- the type of JavaScript numbers; the socket, its messages and the timers are events.
pub mod Feed
pub mod Lifecycle
mod Tests
use pumpy_v.Common.{
  ℕ, suc, String, Bool, true, false, Option, none, some, List, [], ◌∷◌, if◌then◌else◌, str_eq,
  truthy, take, or_else,
}

abbrev pub max_live_trades : ℕ
max_live_trades = 100

pub record LiveTrade (N : Type 0) : Type 0 where
  pub id : String
  pub mint : String
  pub token_name : Option String
  pub token_symbol : Option String
  pub side : String
  pub amount_sol : N
  pub price : Option N
  pub status : String
  pub strategy : Option String
  pub signature : Option String
  pub pnl_sol : Option N
  pub created_at : String
  pub executed_at : Option String

-- A `Partial<LiveTrade>`: `none` is a key that is absent, undefined or null.
pub record Update (N : Type 0) : Type 0 where
  pub id : Option String
  pub mint : Option String
  pub token_name : Option String
  pub token_symbol : Option String
  pub side : Option String
  pub amount_sol : Option N
  pub price : Option N
  pub status : Option String
  pub strategy : Option String
  pub signature : Option String
  pub pnl_sol : Option N
  pub created_at : Option String
  pub executed_at : Option String

-- The hook's state and refs. `ws` is the number of the current socket, `sockets` how many were made
-- and `closed` the sockets that were told to close.
pub record Hook (N : Type 0) : Type 0 where
  pub trades : List (LiveTrade N)
  pub connected : Bool
  pub error : Option String
  pub ws : Option ℕ
  pub sockets : ℕ
  pub closed : List ℕ
  pub reconnect_timer : Option ℕ
  pub mounted : Bool

module _ {N : Type 0} where
  -- The object that `onmessage` builds from an update with the id `i`; `now` is the default time.
  abbrev pub to_trade : N → String → String → Update N → LiveTrade N
  to_trade zero now i u = record {
    id = i;
    mint = or_else u.mint "";
    token_name = u.token_name;
    token_symbol = u.token_symbol;
    side = or_else u.side "BUY";
    amount_sol = or_else u.amount_sol zero;
    price = u.price;
    status = or_else u.status "Pending";
    strategy = u.strategy;
    signature = u.signature;
    pnl_sol = u.pnl_sol;
    created_at = or_else u.created_at now;
    executed_at = u.executed_at;
  }

  -- `prev.findIndex(...) !== -1`
  abbrev pub holds : String → List (LiveTrade N) → Bool
  holds i [] = false
  holds i (t ∷ ts) = if str_eq t.id i then true else holds i ts

  -- `next[idx] = trade`, at the first index with the trade's id
  abbrev pub replace : LiveTrade N → List (LiveTrade N) → List (LiveTrade N)
  replace t [] = []
  replace t (u ∷ us) = if str_eq u.id t.id then t ∷ us else u ∷ replace t us

  -- The function given to `setTrades`.
  unfoldable pub upsert : LiveTrade N → List (LiveTrade N) → List (LiveTrade N)
  upsert t prev = if holds t.id prev then replace t prev else take max_live_trades (t ∷ prev)

  -- `ws.onmessage`; a message that does not parse is `none`.
  unfoldable pub on_message : N → String → Option (Update N) → Hook N → Hook N
  unfolding upsert
  on_message zero now none h = h
  on_message zero now (some u) h = elim u.id [
    | none ↦ h
    | some i ↦
        if h.mounted
        then (if truthy i then record h { trades = upsert (to_trade zero now i u) h.trades } else h)
        else h
  ]

  -- `connect`: the constructor of the socket throws with a message, or gives a new socket.
  unfoldable pub connect : Option String → Hook N → Hook N
  connect none h =
      if h.mounted then record h { ws = some h.sockets; sockets = suc h.sockets } else h
  connect (some message) h =
      if h.mounted then record h { error = some message; reconnect_timer = some 5000 } else h

  -- `ws.onopen` of the socket `w`
  unfoldable pub on_open : ℕ → Hook N → Hook N
  on_open w h =
      if h.mounted
      then record h { connected = true; error = none }
      else record h { closed = w ∷ h.closed }

  unfoldable pub on_error : Hook N → Hook N
  on_error h =
      if h.mounted then record h { connected = false; error = some "WebSocket error" } else h

  unfoldable pub on_close : Hook N → Hook N
  on_close h = if h.mounted then record h { connected = false; reconnect_timer = some 3000 } else h

  -- The clean-up of the effect.
  unfoldable pub unmount : Hook N → Hook N
  unmount h = record h {
    mounted = false;
    reconnect_timer = none;
    closed = elim h.ws [ none ↦ h.closed | some w ↦ w ∷ h.closed ];
  }

pub data Event (N : Type 0) : Type 0 where
  mounts timer_fires : Option String → Event N
  opens : ℕ → Event N
  receives : String → Option (Update N) → Event N
  fails closes unmounts : Event N

module _ {N : Type 0} where
  -- Mounting connects at once, and so does a reconnect timer if the hook is still mounted.
  unfoldable pub step : N → Hook N → Event N → Hook N
  unfolding connect on_open on_message on_error on_close unmount
  step zero h (mounts thrown) = connect thrown (record h { mounted = true })
  step zero h (timer_fires thrown) = if h.mounted then connect thrown h else h
  step zero h (opens w) = on_open w h
  step zero h (receives now u) = on_message zero now u h
  step zero h fails = on_error h
  step zero h closes = on_close h
  step zero h unmounts = unmount h

  pub run : N → Hook N → List (Event N) → Hook N
  run zero h [] = h
  run zero h (e ∷ es) = run zero (step zero h e) es

abbrev pub initial : (N : Type 0) → Hook N
initial N = record {
  trades = [];
  connected = false;
  error = none;
  ws = none;
  sockets = 0;
  closed = [];
  reconnect_timer = none;
  mounted = true;
}
