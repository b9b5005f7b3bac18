-- ===== src/OrderForm.antt =====
-- The order form of artifacts/dashboard/src/pages/Trades.tsx over POST /bot/orders (Bot/Orders.antt). The request body arrives as
-- JSON.stringify wrote it, and a reply is ok if its status is 200. Numbers and their texts are the platform's.
pub mod Submission
mod Tests
use pumpy_v.Common.{
  ℕ, String, Bool, true, false, Option, none, some, List, [], ◌∷◌, if◌then◌else◌, not, cat, truthy,
  str_eq, keep, ◌==◌,
}
use pumpy_v.Json.{Value, null, number, text, object, Fields, fields_of, reader, is_truthy, Numbers}
use pumpy_v.Bot.{Engines, Io, Reply, done, ◌>>=◌}
use pumpy_v.Bot.Orders.{post_order}

pub record Platform (N : Type 0) : Type 0 where
  pub numbers : Numbers N
  -- `Number.isFinite`
  pub is_finite : N → Bool
  pub parse_float : String → N
  pub parse_int : String → N
  -- `"" + v`
  pub shown : Value N → String
  -- the message of the error that the client makes of a reply that is not ok
  pub refusal : Reply N → String
  -- the message of the error that reading a property of null or undefined throws
  pub no_property : String

pub record Form (N : Type 0) : Type 0 where
  pub token_mint : String
  pub side : String
  pub amount_sol : String
  pub order_type : String
  pub slippage_bps : N

pub record Page (N : Type 0) : Type 0 where
  pub strategy : String
  pub form : Form N
  pub show_form : Bool
  pub form_msg : Option String

-- What `mutateAsync` settles with: a result, or an error with its message, if it is an Error.
pub data Settled (N : Type 0) : Type 0 where
  resolved : Value N → Settled N
  rejected : Option String → Settled N

module _ {N : Type 0} (p : Platform N) where
  abbrev pub empty_form : Form N
  empty_form = record {
    token_mint = "";
    side = "BUY";
    amount_sol = "";
    order_type = "MARKET";
    slippage_bps = p.numbers.literal 100 0;
  }

  abbrev pub initial : Page N
  initial = record { strategy = ""; form = empty_form; show_form = false; form_msg = none }

  -- A number as JSON.stringify writes it: NaN and the infinities are null.
  abbrev pub json_number : N → Value N
  json_number n = if p.is_finite n then number n else null

  abbrev pub order_fields : Form N → Fields N
  order_fields f = fields_of (
      ("tokenMint", text f.token_mint)
      ∷ ("side", text f.side)
      ∷ ("amountSol", json_number (p.parse_float f.amount_sol))
      ∷ ("orderType", text f.order_type)
      ∷ ("slippageBps", json_number f.slippage_bps)
      ∷ ("strategyName", text "manual")
      ∷ [])

  abbrev pub error_message : Option String → String
  error_message none = cat "Error: " "unknown"
  error_message (some m) = cat "Error: " m

  abbrev pub on_result : (String → Value N) → Page N → Page N
  on_result result page =
      if is_truthy p.numbers (result "success")
      then record page {
        form = empty_form;
        form_msg = some (cat "Order submitted: " (p.shown (result "orderId")));
      }
      else record page { form_msg = some (cat "Error: " (p.shown (result "message"))) }

  -- The rest of `handleSubmit` after its `await`.
  unfoldable pub on_settled : Settled N → Page N → Page N
  on_settled (resolved v) page = elim (reader v) [
    | none ↦ record page { form_msg = some (error_message (some p.no_property)) }
    | some result ↦ on_result result page
  ]
  on_settled (rejected m) page = record page { form_msg = some (error_message m) }

  abbrev pub client_result : Reply N → Settled N
  client_result reply =
      if reply.status == 200 then resolved reply.body else rejected (some (p.refusal reply))

  module _ {W : Type 0} (e : Engines N W) where
    -- `handleSubmit` with the server behind it.
    unfoldable pub handle_submit : String → String → String → Page N → Io N W (Page N)
    unfolding on_settled
    handle_submit fresh_order fresh_trace message page =
        post_order p.numbers e (object (order_fields page.form)) fresh_order fresh_trace message
        >>= λ reply. done (on_settled (client_result reply) (record page { form_msg = none }))

  pub data Edit : Type 0 where
    types_mint : String → Edit
    picks_side : String → Edit
    types_amount : String → Edit
    picks_type : String → Edit
    types_slippage : String → Edit
    toggles_form : Edit
    picks_strategy : String → Edit

  unfoldable pub edit : Edit → Page N → Page N
  edit (types_mint s) page = record page { form = record page.form { token_mint = s } }
  edit (picks_side s) page = record page { form = record page.form { side = s } }
  edit (types_amount s) page = record page { form = record page.form { amount_sol = s } }
  edit (picks_type s) page = record page { form = record page.form { order_type = s } }
  edit (types_slippage s) page = record page {
    form = record page.form { slippage_bps = p.parse_int s };
  }
  edit toggles_form page = record page { show_form = not page.show_form }
  edit (picks_strategy s) page = record page { strategy = s }

-- `filteredTrades`; `strategy_of` is `t.strategy`.
unfoldable pub filtered_trades : {T : Type 0} → (T → String) → String → Option (List T) → List T
filtered_trades strategy_of strategy none = []
filtered_trades strategy_of strategy (some ts) =
    if truthy strategy then keep (λ t. str_eq (strategy_of t) strategy) ts else ts
