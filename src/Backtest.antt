-- ===== src/Backtest.antt =====
-- `BacktestPanel` of artifacts/dashboard/src/pages/Strategies.tsx: the request body, the panel's state and the drawdown of an
-- equity curve. `N` is the type of JavaScript's numbers.
pub mod Drawdown
mod Tests
use pumpy_v.Common.{
  ℕ, String, Bool, true, false, Option, none, some, List, [], ◌∷◌, ◌++◌, if◌then◌else◌, not, ◌&&◌,
}
use pumpy_v.Json.{Value, number, text, Fields, fields_of}

-- `greater` is `>`, and a literal is `m / 10 ^ k`.
pub record Doubles (N : Type 0) : Type 0 where
  pub greater : N → N → Bool
  pub minus : N → N → N
  pub zero_ : N
  pub neg_infinity : N
  pub is_nan : N → Bool
  pub parse_float : String → N
  -- `Number(s)`
  pub to_number : String → N
  pub truthy_number : N → Bool
  pub literal : ℕ → ℕ → N
  -- `String(n)`
  pub to_text : N → String

module _ {N : Type 0} (d : Doubles N) where
  -- The loop of `peakToTroughDrawdownSol` with `peak` and `maxDD`.
  unfoldable pub drawdown_from : N → N → List N → N
  drawdown_from peak max_dd [] = max_dd
  drawdown_from peak max_dd (v ∷ vs) =
      let peak' : N = if d.greater v peak then v else peak in
      let dd : N = d.minus peak' v in
      drawdown_from peak' (if d.greater dd max_dd then dd else max_dd) vs

  unfoldable pub peak_to_trough_drawdown_sol : List N → N
  unfolding drawdown_from
  peak_to_trough_drawdown_sol curve = drawdown_from d.neg_infinity d.zero_ curve

pub record Preset : Type 0 where
  pub buy : ℕ × ℕ
  pub stop : ℕ
  pub take_ : ℕ

pub data PresetId : Type 0 where
  conservative : PresetId
  balanced : PresetId
  aggressive : PresetId

-- A buy amount is `m / 10 ^ k`.
abbrev pub preset_defaults : PresetId → Preset
preset_defaults conservative = record { buy = (5, 2); stop = 5; take_ = 20 }
preset_defaults balanced = record { buy = (15, 2); stop = 10; take_ = 50 }
preset_defaults aggressive = record { buy = (5, 1); stop = 20; take_ = 100 }

-- The state of the panel; `R` is the type of results.
pub record Panel (R : Type 0) : Type 0 where
  pub selected_strategy : String
  pub override_buy : String
  pub override_stop : String
  pub override_take : String
  pub days : String
  pub result : Option R
  pub error : Option String

-- A field for an override that is a positive number.
abbrev pub override : {N : Type 0} → Doubles N → String → String → List (String × Value N)
override d key s =
    if not (d.is_nan (d.parse_float s)) && d.greater (d.parse_float s) d.zero_
    then (key, number (d.parse_float s)) ∷ []
    else []

module _ {R : Type 0} where
  abbrev pub initial : Panel R
  initial = record {
    selected_strategy = "sniper";
    override_buy = "";
    override_stop = "";
    override_take = "";
    days = "7";
    result = none;
    error = none;
  }

  abbrev pub select_strategy : String → Panel R → Panel R
  select_strategy s p = record p { selected_strategy = s; result = none; error = none }

  abbrev pub clear_overrides : Panel R → Panel R
  clear_overrides p = record p { override_buy = ""; override_stop = ""; override_take = "" }

  -- `onSuccess` and `onError`
  abbrev pub on_success : R → Panel R → Panel R
  on_success r p = record p { result = some r; error = none }

  abbrev pub on_error : String → Panel R → Panel R
  on_error message p = record p { error = some message; result = none }

  module _ {N : Type 0} (d : Doubles N) where
    abbrev pub quick_fill : PresetId → Panel R → Panel R
    quick_fill i p = record p {
      override_buy = d.to_text (d.literal (preset_defaults i).buy.0 (preset_defaults i).buy.1);
      override_stop = d.to_text (d.literal (preset_defaults i).stop 0);
      override_take = d.to_text (d.literal (preset_defaults i).take_ 0);
    }

    -- The body of POST /api/bot/backtest.
    unfoldable pub request_body : Panel R → Fields N
    request_body p = fields_of (
        (("strategy_name", text p.selected_strategy)
          ∷ (
            "days",
            number (
                if d.truthy_number (d.to_number p.days) then d.to_number p.days else d.literal 7 0),
          )
          ∷ ("initial_sol", number (d.literal 1 0))
          ∷ [])
        ++ override d "buy_amount_sol" p.override_buy
        ++ override d "stop_loss_pct" p.override_stop
        ++ override d "take_profit_pct" p.override_take)
