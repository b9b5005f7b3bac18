-- ===== src/Fetch/Message.antt =====
-- custom-fetch.ts: the message of an ApiError.
use pumpy_v.Common.{
  ℕ, ◌-◌, String, Option, none, some, [], ◌∷◌, ◌++◌, if◌then◌else◌, codes, length, take, ltb,
}
use pumpy_v.Text.{Text, is_empty, trim}
use pumpy_v.Json.{Value, undefined, null, boolean, number, array, object, get}
use pumpy_v.Json
use pumpy_v.Fetch.{Platform, Response}
use pumpy_v.Fetch.Body.{Data, parsed, raw}

abbrev ellipsis : Text
ellipsis = 0x2026 ∷ []

unfoldable pub truncate : Text → ℕ → Text
truncate s max_length = if ltb max_length (length s) then take (max_length - 1) s ++ ellipsis else s

abbrev trimmed_field : {N : Type 0} → Value N → Option Text
trimmed_field (Json.text s) = if is_empty (trim (codes s)) then none else some (trim (codes s))
trimmed_field _ = none

abbrev either : Option Text → Option Text → Option Text
either none b = b
either (some a) b = some a

-- The part after the prefix: of the title, the detail and the message.
abbrev pub suffix_of : Option Text → Option Text → Option Text → Text
suffix_of (some title) (some detail) message = codes ": " ++ title ++ codes " — " ++ detail
suffix_of none (some detail) message = codes ": " ++ detail
suffix_of title none (some message) = codes ": " ++ message
suffix_of (some title) none none = codes ": " ++ title
suffix_of none none none = []

abbrev pub text_suffix : Text → Text
text_suffix s = if is_empty (trim s) then [] else codes ": " ++ truncate (trim s) 300

module _ {N B : Type 0} where
  -- A blob and an array have none of the fields.
  unfoldable pub get_string_field : Data N B → String → Option Text
  get_string_field (parsed (object fs)) k = trimmed_field (get fs k)
  get_string_field _ k = none

  -- The data that is a text, whether it was parsed or not.
  abbrev pub text_of_data : Data N B → Option Text
  text_of_data (raw s) = some s
  text_of_data (parsed (Json.text s)) = some (codes s)
  text_of_data _ = none

  abbrev pub prefix_of : Platform N B → Response B → Text
  prefix_of p response =
      codes "HTTP " ++ p.numeral response.status ++ codes " " ++ response.status_text

  unfoldable pub build_error_message : Platform N B → Response B → Data N B → Text
  unfolding truncate get_string_field
  build_error_message p response data_ = prefix_of p response ++ elim (text_of_data data_) [
    | some s ↦ text_suffix s
    | none ↦ suffix_of (get_string_field data_ "title") (get_string_field data_ "detail") (
        either (get_string_field data_ "message")
          (either (get_string_field data_ "error_description") (get_string_field data_ "error")))
  ]
