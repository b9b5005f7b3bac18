-- ===== src/Backtest/Tests.antt =====
-- Strategies.tsx: a request with one override, and the drawdown of a short curve of natural numbers.
use pumpy_v.Common.{
  ℕ, ◌-◌, ◌≡◌, refl, ◌⊎◌, true, false, List, [], ◌∷◌, ltb, str_eq, if◌then◌else◌, arith,
}
use pumpy_v.Json.{number, text, fields_of}
use pumpy_v.Backtest.{Doubles, Panel, initial, request_body, peak_to_trough_drawdown_sol}
use pumpy_v.Backtest.Drawdown.{Laws, Occurs, first, later, Falls, NotAbove, drawdown_largest}

-- The text "5" is 5, and every other text is 0.
abbrev whole : Doubles ℕ
whole = record {
  greater = λ a b. ltb b a;
  minus = ◌-◌;
  zero_ = 0;
  neg_infinity = 0;
  is_nan = λ n. false;
  parse_float = λ s. if str_eq s "5" then 5 else 0;
  to_number = λ s. if str_eq s "5" then 5 else 0;
  truthy_number = λ n. ltb 0 n;
  literal = λ m k. m;
  to_text = λ n. "5";
}

abbrev panel : Panel ℕ
panel = record initial { override_stop = "5" }

body :
    request_body whole panel
    ≡ fields_of (
        ("strategy_name", text "sniper")
        ∷ ("days", number 7)
        ∷ ("initial_sol", number 1)
        ∷ ("stop_loss_pct", number 5)
        ∷ [])
unfolding request_body
body = refl

abbrev curve : List ℕ
curve = 5 ∷ 9 ∷ 3 ∷ 8 ∷ []

six : peak_to_trough_drawdown_sol whole curve ≡ 6
unfolding peak_to_trough_drawdown_sol
six = refl

whole-Laws : Laws whole
whole-Laws = record {
  reflexive = λ a. ground arith;
  transitive = λ a b c h k. ground arith;
  asymmetric = λ a b h. ground arith;
  monotone = λ a b c h. ground arith;
}

finite : (v : ℕ) → Occurs whole v curve → ltb 0 v ≡ true
finite _ (first v vs) = refl
finite _ (later _ _ _ (first v vs)) = refl
finite _ (later _ _ _ (later _ _ _ (first v vs))) = refl
finite _ (later _ _ _ (later _ _ _ (later _ _ _ (first v vs)))) = refl
finite _ (later _ _ _ (later _ _ _ (later _ _ _ (later _ _ _ x)))) = elim x [ ]

drawdown_largest_example :
    ((a b : ℕ)
      → Falls whole a b curve
      → NotAbove whole (a - b) (peak_to_trough_drawdown_sol whole curve))
    × ((peak_to_trough_drawdown_sol whole curve ≡ 0)
        ⊎ ((a : ℕ) × (b : ℕ) × Falls whole a b curve
            × (peak_to_trough_drawdown_sol whole curve ≡ a - b)))
drawdown_largest_example = drawdown_largest whole curve whole-Laws finite
