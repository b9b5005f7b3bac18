-- ===== src/Js.antt =====
-- What the server's code takes from JavaScript and does not implement: its numbers (IEEE doubles)
-- and the coercions of parsed JSON values.
use pumpy_v.Common.{ℕ, String, Bool, Option}

pub record Js : Type 1 where
  pub Value : Type 0
  pub Number : Type 0
  -- `Number(v)` and `String(v)`, `none` if they throw, as on an object that has a `toString` and a
  -- `valueOf` of its own
  pub to_number : Value → Option Number
  pub to_string : Value → Option String
  pub is_nan : Number → Bool
  -- `n <= 0`, false on NaN
  pub le_zero : Number → Bool
  -- The literal `m / 10 ^ k`.
  pub literal : ℕ → ℕ → Number
