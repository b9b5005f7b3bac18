-- ===== src/Display/Ages.antt =====
-- utils.ts and Tokens.tsx: the two ways to write an age, and the length of a short address.
use pumpy_v.Common.{ℕ, ◌/◌, ◌≡◌, refl, ap, Option, none, some, if◌then◌else◌, codes, ltb, arith}
use pumpy_v.Text.{Text, is_empty}
use pumpy_v.Display.{age_text, format_age, token_age_text, format_token_age}

module _ (numeral : ℕ → Text) (age_of : Text → ℕ) where
  minutes : (ms : ℕ) → ms / 1000 / 60 ≡ ms / 60000
  minutes ms = omega arith

  hours : (ms : ℕ) → ms / 60000 / 60 ≡ ms / 3600000
  hours ms = omega arith

  under_minute : (ms : ℕ) → ltb (ms / 1000) 60 ≡ ltb ms 60000
  under_minute ms = ground arith

  under_hour : (ms : ℕ) → ltb (ms / 1000 / 60) 60 ≡ ltb ms 3600000
  under_hour ms = ground arith

  texts_agree : (ms : ℕ) → age_text numeral age_of ms ≡ token_age_text numeral age_of ms
  texts_agree ms = rw (under_minute ms, under_hour ms, minutes ms, hours ms) refl

  -- The two functions that write an age give the same text for every date, missing and empty ones
  -- included.
  pub format_age-format_token_age :
      (date : Option Text) → format_age numeral age_of date ≡ format_token_age numeral age_of date
  unfolding format_age format_token_age
  format_age-format_token_age none = refl
  format_age-format_token_age (some date) =
      ap (λ t. if is_empty date then codes "—" else t) (texts_agree (age_of date))
