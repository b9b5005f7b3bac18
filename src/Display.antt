-- ===== src/Display.antt =====
-- What the dashboard shows of addresses, amounts and ages: artifacts/dashboard/src/lib/utils.ts, `formatAge` of
-- artifacts/dashboard/src/pages/Tokens.tsx, and the tip displays of `JitoMevSettingsCard` in Settings.tsx. Numbers and
-- their formats are the platform's; an age is the milliseconds since a date that is not in the future.
pub mod Ages
mod Tests
use pumpy_v.Common.{
  ℕ, ◌+◌, ◌*◌, ◌/◌, Bool, true, false, Option, none, some, List, [], ◌∷◌, ◌++◌, if◌then◌else◌, not,
  ◌||◌, ◌&&◌, codes, ltb, length, take,
}
use pumpy_v.Text.{Text, is_empty, last_units}

-- `M` is the type of JavaScript's numbers. `less` is `<`, `at_least_zero` is `>= 0`, `is_zero` is `=== 0`, and a
-- literal is `m / 10 ^ k`.
pub record Formats (M : Type 0) : Type 0 where
  pub abs : M → M
  pub less : M → M → Bool
  pub at_least_zero : M → Bool
  pub is_zero : M → Bool
  pub is_nan : M → Bool
  pub literal : ℕ → ℕ → M
  pub times : M → M → M
  pub over : M → M → M
  pub to_exponential : M → ℕ → Text
  pub to_fixed : M → ℕ → Text
  pub parse_float : Text → M
  -- `s.replace(/\.?0+$/, "")`
  pub strip_zeros : Text → Text

unfoldable pub shorten_address : Text → ℕ → Text
shorten_address addr chars =
    if is_empty addr || ltb (length addr) (chars * 2 + 3)
    then addr
    else take chars addr ++ codes "..." ++ last_units chars addr

module _ (numeral : ℕ → Text) (age_of : Text → ℕ) where
  -- The branches of utils.ts on the difference in milliseconds: each unit is the floor of the one before.
  abbrev pub age_text : ℕ → Text
  age_text diff =
      if ltb (diff / 1000) 60
      then numeral (diff / 1000) ++ codes "s ago"
      else if ltb (diff / 1000 / 60) 60
      then numeral (diff / 1000 / 60) ++ codes "m ago"
      else numeral (diff / 1000 / 60 / 60) ++ codes "h ago"

  unfoldable pub format_age : Option Text → Text
  format_age none = codes "—"
  format_age (some date) = if is_empty date then codes "—" else age_text (age_of date)

  -- The branches of Tokens.tsx.
  abbrev pub token_age_text : ℕ → Text
  token_age_text ms =
      if ltb ms 60000
      then numeral (ms / 1000) ++ codes "s ago"
      else if ltb ms 3600000
      then numeral (ms / 60000) ++ codes "m ago"
      else numeral (ms / 3600000) ++ codes "h ago"

  unfoldable pub format_token_age : Option Text → Text
  format_token_age none = codes "—"
  format_token_age (some date) = if is_empty date then codes "—" else token_age_text (age_of date)

module _ {M : Type 0} (f : Formats M) where
  unfoldable pub format_sol : M → ℕ → Text
  format_sol amount decimals =
      if f.less (f.abs amount) (f.literal 1 4) && not (f.is_zero amount)
      then f.to_exponential amount 2 ++ codes " SOL"
      else f.to_fixed amount decimals ++ codes " SOL"

  unfoldable pub format_pnl : M → Text
  unfolding format_sol
  format_pnl amount = (if f.at_least_zero amount then codes "+" else []) ++ format_sol amount 4

  unfoldable pub format_percent : M → ℕ → Text
  format_percent value decimals = f.to_fixed value decimals ++ codes "%"

  abbrev is_amount : M → Bool
  is_amount n = not (f.is_nan n) && not (f.less n (f.literal 0 0))

  unfoldable pub lamports_to_sol : Text → Text
  lamports_to_sol lamports =
      let sol : M = f.over (f.parse_float lamports) (f.literal 1000000000 0) in
      if is_amount (f.parse_float lamports)
      then (if f.is_zero sol
          then codes "0 SOL"
          else if f.less sol (f.literal 1 6)
          then f.to_exponential sol 2 ++ codes " SOL"
          else f.strip_zeros (f.to_fixed sol 9) ++ codes " SOL")
      else codes "—"

  unfoldable pub tip_percent_display : Text → Text
  tip_percent_display val =
      let pct : M = f.times (f.parse_float val) (f.literal 100 0) in
      if is_amount (f.parse_float val)
      then (if f.less pct (f.literal 1 3)
          then f.to_exponential pct 2
          else f.strip_zeros (f.to_fixed pct 4))
        ++ codes "%"
      else codes "—"
