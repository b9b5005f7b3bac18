-- ===== src/LiveTrades/Lifecycle.antt =====
-- use-live-trades.ts: connection and reconnection.
use pumpy_v.Common.{◌≡◌, refl, String, true, false, none, some, List, [], ◌∷◌, arith, ◌∙◌}
use pumpy_v.LiveTrades.{
  Hook, on_message, connect, on_open, on_error, on_close, unmount, Event, mounts, timer_fires,
  receives, closes, step, run,
}

-- No event of the list mounts the hook again.
abbrev pub StaysAway : {N : Type 0} → List (Event N) → Type 0
StaysAway [] = Unit
StaysAway (mounts thrown ∷ es) = ⊥
StaysAway (_ ∷ es) = StaysAway es

module _ {N : Type 0} where
  -- What a component can see of the hook, and what it still waits for.
  pub record SameView (h h' : Hook N) : Type 0 where
    pub trades : h'.trades ≡ h.trades
    pub connected : h'.connected ≡ h.connected
    pub error : h'.error ≡ h.error
    pub sockets : h'.sockets ≡ h.sockets
    pub timer : h'.reconnect_timer ≡ h.reconnect_timer
    pub mounted : h'.mounted ≡ h.mounted

  trans : {a b c : Hook N} → SameView a b → SameView b c → SameView a c
  trans p q = record {
    trades = q.trades ∙ p.trades;
    connected = q.connected ∙ p.connected;
    error = q.error ∙ p.error;
    sockets = q.sockets ∙ p.sockets;
    timer = q.timer ∙ p.timer;
    mounted = q.mounted ∙ p.mounted;
  }

  step-SameView :
      (z : N) (h : Hook N) (e : Event N) (es : List (Event N))
      → h.mounted ≡ false
      → h.reconnect_timer ≡ none
      → StaysAway (e ∷ es)
      → SameView h (step z h e) × StaysAway es
  unfolding step connect on_open on_message on_error on_close unmount
  step-SameView z h (mounts t) es m r q = elim q [ ]
  step-SameView z h (receives now none) es m r q = (ground arith, q)
  step-SameView z h (receives now (some u)) es m r q = (ground arith, q)
  step-SameView z h _ es m r q = (ground arith, q)

  run-SameView :
      (z : N) (h : Hook N) (es : List (Event N))
      → h.mounted ≡ false
      → h.reconnect_timer ≡ none
      → StaysAway es
      → SameView h (run z h es)
  unfolding run
  run-SameView z h [] m r q = ground arith
  run-SameView z h (e ∷ es) m r q =
      let (v, q') = step-SameView z h e es m r q in
      trans v (run-SameView z (step z h e) es (v.mounted ∙ m) (v.timer ∙ r) q')

  -- Reconnect timers whose constructor throws these messages, and one whose does not.
  abbrev pub attempts : List String → List (Event N)
  attempts [] = timer_fires none ∷ []
  attempts (m ∷ ms) = timer_fires (some m) ∷ attempts ms

  run-attempts :
      (z : N) (h : Hook N) (ms : List String)
      → h.mounted ≡ true
      → (run z h (attempts ms)).ws ≡ some h.sockets
  unfolding run step connect
  run-attempts z h [] m = ground arith
  run-attempts z h (x ∷ ms) m = rw m (
      run-attempts z (record h { error = some x; reconnect_timer = some 5000; mounted = true }) ms
        refl)

-- Once the hook has unmounted, no event but a new mount changes its trades, its connection flag or
-- its error, makes a socket or starts a timer, and no reconnect timer is pending.
pub run-unmount :
    (N : Type 0) (z : N) (h : Hook N) (es : List (Event N))
    → StaysAway es
    → SameView (unmount h) (run z (unmount h) es) × ((run z (unmount h) es).reconnect_timer ≡ none)
unfolding unmount
run-unmount N z h es q = let v = run-SameView z (unmount h) es refl refl q in (v, v.timer)

-- However many attempts to make a socket throw after a mounted hook lost its connection, the first
-- timer whose attempt does not throw gives it a new socket.
pub run-closes :
    (N : Type 0) (z : N) (h : Hook N) (ms : List String)
    → h.mounted ≡ true
    → (run z h (closes ∷ attempts ms)).ws ≡ some h.sockets
unfolding run step on_close
run-closes N z h ms m = rw m (
    run-attempts z (record h { connected = false; reconnect_timer = some 3000; mounted = true }) ms
      refl)
