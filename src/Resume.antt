-- ===== src/Resume.antt =====
-- `WalletCard` of artifacts/dashboard/src/pages/Wallets.tsx over the routes of wallets.ts: the prompt of KeyPrompt.antt with
-- the server behind it. Each request settles before the next event: it is answered, or `fetch` rejects because the
-- server was not reached or because the response was lost. `i` is the wallet of the card.
pub mod Outcome
pub mod Post
pub mod Click
pub mod Keys
mod Tests
use pumpy_v.Common.{
  ℕ, zero, suc, String, Bool, true, false, Option, none, some, List, [], ◌∷◌, ◌++◌, length, keep,
  if◌then◌else◌, str_eq, cat,
}
use pumpy_v.Js.{Js}
use pumpy_v.KeyPrompt.{
  Card, Event, select, types, checks, enter, apply, cancel, step, on_success, on_error,
}
use pumpy_v.Wallets.{
  RegistryRow, Db, Response, error, registry_rows, config_row, status_is, preset_is, uncaught,
  resumes, request, list_wallets, get_config,
}

pub record Toast : Type 0 where
  pub title : String
  pub description : Option String
  pub destructive : Bool

-- What the user does with the panel of a paused wallet.
pub data Touch : Type 0 where
  clicks_resume : Touch
  types_key : String → Touch
  checks_remember : Bool → Touch
  presses_enter clicks_confirm closes : Touch

abbrev pub event_of : Touch → Event (Unit {0})
event_of clicks_resume = select tt
event_of (types_key s) = types s
event_of (checks_remember b) = checks b
event_of presses_enter = enter
event_of clicks_confirm = apply
event_of closes = cancel

-- What becomes of a request: its answer arrives, or the promise rejects with a message, before the server has
-- seen the request or after it has dealt with it.
pub data Network : Type 0 where
  arrives : Network
  unreachable : String → Network
  response_lost : String → Network

abbrev pub is_seen : Network → Bool
is_seen arrives = true
is_seen (unreachable m) = false
is_seen (response_lost m) = true

abbrev pub is_answered : Network → Bool
is_answered arrives = true
is_answered (unreachable m) = false
is_answered (response_lost m) = false

-- With what becomes of the requests: the one of a touch, and those of the two queries.
pub data PageEvent : Type 0 where
  touches : Touch → Network → PageEvent
  refetches : Network → Network → PageEvent

-- The statuses are those of the last answers to the queries; a wallet that is not listed has no card.
-- The server is its tables with the faults to come.
pub record Page (N : Type 0) : Type 0 where
  pub wallet_status : Option String
  pub config_status : Option String
  pub card : Card (Unit {0})
  pub toasts : List Toast
  pub server : Db N × List Bool

-- `config?.status ?? wallet.status`
abbrev pub effective_status : Option String → Option String → Option String
effective_status none config = none
effective_status (some wallet) none = some wallet
effective_status (some wallet) (some status) = some status

abbrev pub is_paused : Option String → Bool
is_paused none = false
is_paused (some status) = str_eq status "paused"

abbrev pub sent_since : {A : Type 0} → ℕ → List A → List A
sent_since zero xs = xs
sent_since (suc n) [] = []
sent_since (suc n) (x ∷ xs) = sent_since n xs

abbrev pub first_status : List RegistryRow → Option String
first_status [] = none
first_status (r ∷ rs) = some r.status

abbrev pub resumed_toast : String → Toast
resumed_toast i = record {
  title = cat "Wallet " (cat i " resumed");
  description = none;
  destructive = false;
}

abbrev pub failed_toast : String → Toast
failed_toast message = record {
  title = "Resume failed";
  description = some message;
  destructive = true;
}

-- The queries keep what they had when an answer is an error.
abbrev pub listed_status : {N : Type 0} → String → Response N → Option String → Option String
listed_status i (registry_rows rows) old = first_status (keep (λ r. str_eq r.wallet_id i) rows)
listed_status i _ old = old

abbrev pub fetched_status : {N : Type 0} → Response N → Option String → Option String
fetched_status (config_row r) old = some r.status
fetched_status _ old = old

-- The message that `mutationFn` throws with, `none` if it returns. `not_json` is that of `res.json()` on a
-- body that is not JSON.
abbrev pub thrown : {N : Type 0} → String → Response N → Option String
thrown not_json (error code text) = some text
thrown not_json uncaught = some not_json
thrown not_json (registry_rows rows) = none
thrown not_json (config_row r) = none
thrown not_json (status_is i status) = none
thrown not_json (preset_is preset i params) = none

module _ (js : Js) (admin_key : Option String) (not_json i : String) where
  -- `onError`
  abbrev pub reject : ℕ → String → Page js.Number → Page js.Number
  reject now message p = record p {
    card = on_error now p.card;
    toasts = p.toasts ++ failed_toast message ∷ [];
  }

  -- `onSuccess`, or `onError` with what `mutationFn` throws on the response.
  unfoldable pub settle : ℕ → String → Response js.Number → Page js.Number → Page js.Number
  unfolding on_success on_error
  settle now key r p = elim (thrown not_json r) [
    | none ↦ record p {
      card = on_success now key p.card;
      toasts = p.toasts ++ resumed_toast i ∷ [];
    }
    | some message ↦ reject now message p
  ]

  -- `resumeMutation.mutate(key)`, with the server's answer or without one.
  unfoldable pub post : ℕ → Network → String → Page js.Number → Page js.Number
  unfolding settle request
  post now arrives key p =
      let (r, d, fs) = request js admin_key (some key) (resumes i) now p.server in
      settle now key r (record p { server = (d, fs) })
  post now (unreachable message) key p = reject now message p
  post now (response_lost message) key p =
      let (r, d, fs) = request js admin_key (some key) (resumes i) now p.server in
      reject now message (record p { server = (d, fs) })

  unfoldable pub serve : ℕ → Network → List (Unit {0} × String) → Page js.Number → Page js.Number
  unfolding post
  serve now net [] p = p
  serve now net (r ∷ rs) p = serve now net rs (post now net r.1 p)

  -- An event on the panel, which only a paused wallet has; what the card sends meets the network.
  unfoldable pub touch : ℕ → Touch → Network → Page js.Number → Page js.Number
  unfolding step serve
  touch now t net p =
      if is_paused (effective_status p.wallet_status p.config_status)
      then (let card = step (λ x. false) now (event_of t) p.card in
          serve now net (sent_since (length p.card.sent) card.sent) (record p { card = card }))
      else p

  -- A query whose promise rejects keeps what it had.
  unfoldable pub refetch : Network → Network → Page js.Number → Page js.Number
  unfolding list_wallets get_config
  refetch to_wallets to_config p =
      let (wallets, d, fs) = list_wallets p.server in
      let listed = if is_seen to_wallets then (d, fs) else p.server in
      let (config, d', fs') = get_config i listed in
      record p {
        wallet_status =
            if is_answered to_wallets
            then listed_status i wallets p.wallet_status
            else p.wallet_status;
        config_status =
            if is_answered to_config
            then fetched_status config p.config_status
            else p.config_status;
        server = if is_seen to_config then (d', fs') else listed;
      }

  unfoldable pub page_step : ℕ → PageEvent → Page js.Number → Page js.Number
  unfolding touch refetch
  page_step now (touches t net) p = touch now t net p
  page_step now (refetches to_wallets to_config) p = refetch to_wallets to_config p

  unfoldable pub page_run : List (ℕ × PageEvent) → Page js.Number → Page js.Number
  unfolding page_step
  page_run [] p = p
  page_run ((now, e) ∷ es) p = page_run es (page_step now e p)
