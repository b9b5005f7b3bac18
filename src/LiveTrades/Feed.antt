-- ===== src/LiveTrades/Feed.antt =====
-- use-live-trades.ts: the list of trades is a bounded map from order ids to their last update.
use pumpy_v.Common.{
  ℕ, ◌≤◌, ◌≡◌, refl, String, true, false, Option, none, some, List, [], ◌∷◌, take, length,
  if◌then◌else◌, str_eq, eq_iff, arith, Bool-cases, Option-cases, inl, inr, ◌⊎◌, length-take-le,
  suc, zero,
}
use pumpy_v.LiveTrades.{
  max_live_trades, LiveTrade, Update, Hook, to_trade, holds, replace, upsert, on_message, connect,
  on_open, on_error, on_close, unmount, Event, mounts, timer_fires, opens, receives, fails, closes,
  unmounts, step, run, initial,
}

module _ {N : Type 0} where
  -- No two trades have the same id.
  abbrev pub IsUnique : List (LiveTrade N) → Type 0
  IsUnique [] = Unit
  IsUnique (t ∷ ts) = (holds t.id ts ≡ false) × IsUnique ts

  abbrev pub find : String → List (LiveTrade N) → Option (LiveTrade N)
  find i [] = none
  find i (t ∷ ts) = if str_eq t.id i then some t else find i ts

  holds-replace :
      (i : String) (t : LiveTrade N) (ts : List (LiveTrade N)) → holds i (replace t ts) ≡ holds i ts
  holds-replace i t [] = refl
  holds-replace i t (u ∷ us) =
      ground (arith, holds-replace i t us, eq_iff u.id t.id, eq_iff t.id i, eq_iff u.id i)

  replace-IsUnique :
      (t : LiveTrade N) (ts : List (LiveTrade N)) → IsUnique ts → IsUnique (replace t ts)
  replace-IsUnique t [] u = tt
  replace-IsUnique t (x ∷ xs) u =
      ground (arith, replace-IsUnique t xs u.1, holds-replace x.id t xs, eq_iff x.id t.id, u.0)

  holds-take :
      (i : String) (n : ℕ) (ts : List (LiveTrade N))
      → holds i ts ≡ false
      → holds i (take n ts) ≡ false
  holds-take i zero ts h = refl
  holds-take i (suc n) [] h = refl
  holds-take i (suc n) (t ∷ ts) h = ground (arith, holds-take i n ts)

  take-IsUnique : (n : ℕ) (ts : List (LiveTrade N)) → IsUnique ts → IsUnique (take n ts)
  take-IsUnique zero ts u = tt
  take-IsUnique (suc n) [] u = tt
  take-IsUnique (suc n) (t ∷ ts) u = (holds-take t.id n ts u.0, take-IsUnique n ts u.1)

  length-replace : (t : LiveTrade N) (ts : List (LiveTrade N)) → length (replace t ts) ≡ length ts
  length-replace t [] = refl
  length-replace t (u ∷ us) = ground (arith, length-replace t us)

  find-replace :
      (i : String) (t : LiveTrade N) (ts : List (LiveTrade N))
      → holds t.id ts ≡ true
      → find i (replace t ts) ≡ (if str_eq t.id i then some t else find i ts)
  find-replace i t [] h = cc
  find-replace i t (u ∷ us) h =
      ground (arith, find-replace i t us, eq_iff u.id t.id, eq_iff t.id i, eq_iff u.id i)

  take-all : (n : ℕ) (ts : List (LiveTrade N)) → length ts ≤ n → take n ts ≡ ts
  take-all zero [] h = refl
  take-all zero (t ∷ ts) h = absurd (omega arith)
  take-all (suc n) [] h = refl
  take-all (suc n) (t ∷ ts) h = ground (arith, take-all n ts)

  pub record IsFeed (ts : List (LiveTrade N)) : Type 0 where
    pub bounded : length ts ≤ max_live_trades
    pub unique : IsUnique ts

  upsert-IsFeed : (t : LiveTrade N) (ts : List (LiveTrade N)) → IsFeed ts → IsFeed (upsert t ts)
  unfolding upsert
  upsert-IsFeed t ts f = elim (Bool-cases (holds t.id ts)) [
    | inl e ↦ rw e (record {
      bounded = omega (arith, length-replace t ts, f.bounded);
      unique = replace-IsUnique t ts f.unique;
    })
    | inr e ↦ rw e (record {
      bounded = length-take-le 100 (t ∷ ts);
      unique = take-IsUnique 100 (t ∷ ts) (e, f.unique);
    })
  ]

  on_message-IsFeed :
      (z : N) (now : String) (u : Option (Update N)) (h : Hook N)
      → IsFeed h.trades
      → IsFeed (on_message z now u h).trades
  unfolding on_message
  on_message-IsFeed z now none h f = f
  on_message-IsFeed z now (some u) h f = elim (Option-cases u.id) [
    | inl e ↦ rw (e, on_message) f
    | inr (i, e) ↦
        rw (e, on_message) (ground (arith, upsert-IsFeed (to_trade z now i u) h.trades f))
  ]

  pub step-IsFeed :
      (z : N) (h : Hook N) (e : Event N) → IsFeed h.trades → IsFeed (step z h e).trades
  unfolding step connect on_open on_error on_close unmount
  step-IsFeed z h (receives now u) f = on_message-IsFeed z now u h f
  step-IsFeed z h (mounts none) f = f
  step-IsFeed z h (mounts (some m)) f = f
  step-IsFeed z h (timer_fires none) f = ground arith
  step-IsFeed z h (timer_fires (some m)) f = ground arith
  step-IsFeed z h (opens w) f = ground arith
  step-IsFeed z h fails f = ground arith
  step-IsFeed z h closes f = ground arith
  step-IsFeed z h unmounts f = f

  run-IsFeed :
      (z : N) (h : Hook N) (es : List (Event N)) → IsFeed h.trades → IsFeed (run z h es).trades
  unfolding run
  run-IsFeed z h [] f = f
  run-IsFeed z h (e ∷ es) f = run-IsFeed z (step z h e) es (step-IsFeed z h e f)

-- Whatever the socket delivers and whenever it opens, fails and closes, the feed holds at most
-- `MAX_LIVE_TRADES` trades, and no two with the same id.
pub run-initial-IsFeed :
    (N : Type 0) (z : N) (es : List (Event N)) → IsFeed (run z (initial N) es).trades
run-initial-IsFeed N z es =
    run-IsFeed z (initial N) es (record { bounded = omega arith; unique = tt })

-- If the feed knows the id of a trade that arrives or has room for one more, then afterwards that id
-- gives the new trade, and every other id gives what it gave before.
pub find-upsert :
    (N : Type 0) (i : String) (t : LiveTrade N) (ts : List (LiveTrade N))
    → (holds t.id ts ≡ true) ⊎ (suc (length ts) ≤ max_live_trades)
    → find i (upsert t ts) ≡ (if str_eq t.id i then some t else find i ts)
unfolding upsert
find-upsert N i t ts room = elim (Bool-cases (holds t.id ts)) [
  | inl e ↦ rw e (find-replace i t ts e)
  | inr e ↦ rw e (ground (arith, take-all 99 ts))
]
