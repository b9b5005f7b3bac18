-- ===== src/Sockets.antt =====
-- artifacts/api-server/src/index.ts, the WebSocket fan-out: each update of the singleton stream is
-- enriched from the trades table and handed to every client that selects it. `N` is the type of
-- JavaScript numbers; sending a payload appends it to the client's `sent`.
pub mod Delivery
pub mod Keepalive
mod Tests
use text.Mathlib.Text.{starts_with}
use pumpy_v.Common.{
  ℕ, ◌+◌, String, Bool, true, false, Option, none, some, List, [], ◌∷◌, ◌++◌, map, ◌&&◌, ◌||◌, not,
  if◌then◌else◌, ◌==◌, str_eq, any, keep, or_else,
}

-- `OrderUpdate` of lib/grpc-client.ts
pub record OrderUpdate (N : Type 0) : Type 0 where
  pub order_id : String
  pub token_mint : Option String
  pub status : String
  pub signature : Option String
  pub executed_at : Option String
  pub executed_price : Option N
  pub executed_amount : Option N

pub record LiveTradePayload (N : Type 0) : Type 0 where
  pub id : String
  pub mint : String
  pub status : String
  pub signature : Option String
  pub executed_at : Option String
  pub price : Option N
  pub amount_sol : Option N
  pub side : Option String
  pub token_symbol : Option String
  pub token_name : Option String
  pub strategy : Option String
  -- A nullable property: `some none` is null.
  pub pnl_sol : Option (Option N)
  pub created_at : String
  pub trace_id : Option (Option String)

-- The columns of a trade that the server reads.
pub record TradeRow (N : Type 0) : Type 0 where
  pub side : String
  pub token_symbol : Option String
  pub token_name : Option String
  pub strategy : String
  pub pnl_sol : Option N
  pub trace_id : Option String
  pub amount_sol : N

abbrev pub or_some {ℓ} : {A : Type ℓ} → Option A → A → Option A
or_some none a = some a
or_some (some b) a = some b

abbrev pub map_some {ℓ κ} : {A : Type ℓ} {B : Type κ} → (A → B) → Option A → Option B
map_some f none = none
map_some f (some a) = some (f a)

module _ {N : Type 0} where
  -- `Number(a) / 1e9` is the parameter `to_sol`; `now` is `new Date().toISOString()`.
  abbrev pub base_payload : (N → N) → String → OrderUpdate N → LiveTradePayload N
  base_payload to_sol now u = record {
    id = u.order_id;
    mint = or_else u.token_mint "";
    status = u.status;
    signature = u.signature;
    executed_at = u.executed_at;
    price = u.executed_price;
    amount_sol = map_some to_sol u.executed_amount;
    side = none;
    token_symbol = none;
    token_name = none;
    strategy = none;
    pnl_sol = none;
    created_at = now;
    trace_id = none;
  }

  -- `enrichUpdate`: the select throws (`none`), finds no row, or a row.
  unfoldable pub enrich_update :
      (N → N) → String → OrderUpdate N → Option (List (TradeRow N)) → LiveTradePayload N
  enrich_update to_sol now u none = base_payload to_sol now u
  enrich_update to_sol now u (some []) = base_payload to_sol now u
  enrich_update to_sol now u (some (row ∷ rows)) = record (base_payload to_sol now u) {
    side = some row.side;
    token_symbol = row.token_symbol;
    token_name = row.token_name;
    strategy = some row.strategy;
    pnl_sol = some row.pnl_sol;
    trace_id = some row.trace_id;
    amount_sol = or_some (map_some to_sol u.executed_amount) row.amount_sol;
  }

-- A connection's closure: its filter, the keepalive flag and the state of its socket.
pub record Client (P : Type 0) : Type 0 where
  pub name : ℕ
  pub filter_ids : List String
  pub is_alive : Bool
  -- `ws.readyState === ws.OPEN`
  pub open_ : Bool
  pub pings : ℕ
  pub terminated : Bool
  pub sent : List P

-- A message after `JSON.parse`: `none` if it does not parse or has no array `order_ids`.
pub data Event (P : Type 0) : Type 0 where
  connects : ℕ → List String → Event P
  orders : P → Event P
  pongs ticks closes : ℕ → Event P
  messages : ℕ → Option (List String) → Event P
  -- The socket leaves the state OPEN; its close event comes later.
  shuts : ℕ → Event P

-- The two returns of `onOrder`; `size > 0` is the first test.
abbrev pub wants : List String → String → Bool
wants [] i = true
wants (f ∷ fs) i = any (λ j. str_eq j i) (f ∷ fs)

module _ {P : Type 0} where
  abbrev pub connected : ℕ → List String → Client P
  connected k ids = record {
    name = k;
    filter_ids = ids;
    is_alive = true;
    open_ = true;
    pings = 0;
    terminated = false;
    sent = [];
  }

  -- `onOrder`; `id_of` is `payload.id`.
  unfoldable pub on_order : (P → String) → P → Client P → Client P
  on_order id_of p c =
      if c.open_
      then (if wants c.filter_ids (id_of p) then record c { sent = c.sent ++ p ∷ [] } else c)
      else c

  abbrev pub on_pong : Client P → Client P
  on_pong c = record c { is_alive = true }

  -- The callback of `pingTimer`; `ws.terminate()` shuts the socket at once.
  unfoldable pub on_tick : Client P → Client P
  on_tick c =
      if c.is_alive
      then record c { is_alive = false; pings = c.pings + 1 }
      else record c { terminated = true; open_ = false }

  abbrev pub on_message : Option (List String) → Client P → Client P
  on_message none c = c
  on_message (some ids) c = record c { filter_ids = ids }

  abbrev pub at : ℕ → (Client P → Client P) → Client P → Client P
  at k f c = if c.name == k then f c else c

  -- The clients whose listener and timer are registered. A close takes both away.
  unfoldable pub step : (P → String) → List (Client P) → Event P → List (Client P)
  unfolding on_order on_tick
  step id_of cs (connects k ids) = cs ++ connected k ids ∷ []
  step id_of cs (orders p) = map (on_order id_of p) cs
  step id_of cs (pongs k) = map (at k on_pong) cs
  step id_of cs (ticks k) = map (at k on_tick) cs
  step id_of cs (closes k) = keep (λ c. not (c.name == k)) cs
  step id_of cs (messages k m) = map (at k (on_message m)) cs
  step id_of cs (shuts k) = map (at k (λ c. record c { open_ = false })) cs

  pub run : (P → String) → List (Client P) → List (Event P) → List (Client P)
  run id_of cs [] = cs
  run id_of cs (e ∷ es) = run id_of (step id_of cs e) es

-- The upgrade handler: the order ids of the query, or nothing if the socket is destroyed. Reading the
-- query (`URL.searchParams`) is the parameter `order_ids`.
abbrev pub upgrade : (String → List String) → Option String → Option (List String)
upgrade order_ids url =
    if starts_with (or_else url "") "/api/bot/stream"
    then some (order_ids (or_else url ""))
    else none
