-- ===== src/Fetch.antt =====
-- lib/api-client-react/src/custom-fetch.ts: the fetch wrapper of the API client. The platform's URL,
-- Request, JSON.parse and `fetch` are the record Platform; a header list is what `new Headers` makes of
-- its source, names in lower case.
pub mod Body
pub mod Message
pub mod Send
pub mod Headers
pub mod Errors
mod Tests
use pumpy_v.Common.{
  ℕ, String, Bool, true, false, Option, none, some, List, [], ◌∷◌, ◌++◌, reverse, if◌then◌else◌,
  not, ◌||◌, ◌&&◌, str_eq, codes, is_some, ◌==◌,
}
use pumpy_v.Text.{Text, same, is_empty, trim, starts_with, ends_with, lower_case, split}
use pumpy_v.Json.{Value}

abbrev pub Headers : Type 0
Headers = List (String × Text)

abbrev pub get_header : Headers → String → Option Text
get_header [] k = none
get_header ((j, v) ∷ hs) k = if str_eq j k then some v else get_header hs k

abbrev pub has_header : Headers → String → Bool
has_header hs k = is_some (get_header hs k)

abbrev pub set_header : String → Text → Headers → Headers
set_header k v [] = (k, v) ∷ []
set_header k v ((j, w) ∷ hs) = if str_eq j k then (j, v) ∷ hs else (j, w) ∷ set_header k v hs

pub record Request : Type 0 where
  pub url : Text
  pub method : Text
  pub headers : Headers

-- `RequestInfo | URL`; a URL is the text of its `toString`.
pub data Input : Type 0 where
  text_input : Text → Input
  url_input : Text → Input
  request_input : Request → Input

-- `B` is the type of blobs. The functions give `none` if they throw.
pub record Platform (N B : Type 0) : Type 0 where
  pub parse_json : Text → Option (Value N)
  -- `new URL(s)`, as its text
  pub new_url : Text → Option Text
  -- `new Request(s, request)`
  pub new_request : Text → Request → Option Request
  -- `toUpperCase`
  pub upper_case : Text → Text
  -- the numeral of a number
  pub numeral : ℕ → Text

-- What the code reads of a `Response`. `read_text` and `read_blob` are `none` if the reading
-- fails, and `blob` is none in a runtime without `blob()`.
pub record Response (B : Type 0) : Type 0 where
  pub ok : Bool
  pub status : ℕ
  pub status_text : Text
  pub url : Text
  pub headers : Headers
  pub body_is_null : Bool
  pub read_text : Option Text
  pub blob : Option (Option B)

pub record RequestInfo : Type 0 where
  pub method : Text
  pub url : Text

-- Dropping the slashes at the end.
abbrev pub drop_slashes : Text → Text
drop_slashes [] = []
drop_slashes (c ∷ s) = if c == b'/' then drop_slashes s else c ∷ s

-- `setBaseUrl`: the value that `_baseUrl` then has.
unfoldable pub set_base_url : Option Text → Option Text
set_base_url none = none
set_base_url (some url) = if is_empty url then none else some (reverse (drop_slashes (reverse url)))

unfoldable pub resolve_url : Input → Text
resolve_url (text_input s) = s
resolve_url (url_input s) = s
resolve_url (request_input r) = r.url

module _ {N B : Type 0} (p : Platform N B) where
  -- The method of the input itself.
  abbrev pub own_method : Input → Text
  own_method (request_input r) = p.upper_case r.method
  own_method (text_input s) = codes "GET"
  own_method (url_input s) = codes "GET"

  unfoldable pub resolve_method : Input → Option Text → Text
  resolve_method input none = own_method input
  resolve_method input (some explicit) =
      if is_empty explicit then own_method input else p.upper_case explicit

  abbrev pub rebuilt : Text → Input → Option Input
  rebuilt absolute (text_input s) = some (text_input absolute)
  rebuilt absolute (url_input s) = elim (p.new_url absolute) [
    | none ↦ none
    | some u ↦ some (url_input u)
  ]
  rebuilt absolute (request_input r) = elim (p.new_request absolute r) [
    | none ↦ none
    | some q ↦ some (request_input q)
  ]

  -- `applyBaseUrl`: none if it throws.
  unfoldable pub apply_base_url : Option Text → Input → Option Input
  unfolding resolve_url
  apply_base_url none input = some input
  apply_base_url (some base) input =
      if is_empty base
      then some input
      else if starts_with (resolve_url input) (codes "/")
      then rebuilt (base ++ resolve_url input) input
      else some input

abbrev pub set_all : Headers → Headers → Headers
set_all hs [] = hs
set_all hs ((k, v) ∷ source) = set_all (set_header k v hs) source

abbrev pub merge_onto : Headers → List (Option Headers) → Headers
merge_onto hs [] = hs
merge_onto hs (none ∷ sources) = merge_onto hs sources
merge_onto hs (some source ∷ sources) = merge_onto (set_all hs source) sources

unfoldable pub merge_headers : List (Option Headers) → Headers
merge_headers sources = merge_onto [] sources

abbrev media_of : List Text → Text
media_of [] = []
media_of (t ∷ ts) = lower_case (trim t)

unfoldable pub get_media_type : Headers → Option Text
get_media_type hs = elim (get_header hs "content-type") [
  | none ↦ none
  | some v ↦ if is_empty v then none else some (media_of (split b';' v))
]

unfoldable pub is_json_media_type : Option Text → Bool
is_json_media_type none = false
is_json_media_type (some m) = same m (codes "application/json") || ends_with m (codes "+json")

unfoldable pub is_text_media_type : Option Text → Bool
is_text_media_type none = false
is_text_media_type (some m) =
    not (is_empty m)
    && (starts_with m (codes "text/")
        || same m (codes "application/xml")
        || same m (codes "text/xml")
        || ends_with m (codes "+xml")
        || same m (codes "application/x-www-form-urlencoded"))

abbrev no_body_status : ℕ → Bool
no_body_status s = s == 204 || s == 205 || s == 304

abbrev is_zero_length : Option Text → Bool
is_zero_length none = false
is_zero_length (some v) = same v (codes "0")

unfoldable pub has_no_body : {B : Type 0} → Response B → Text → Bool
has_no_body response method =
    same method (codes "HEAD")
    || no_body_status response.status
    || is_zero_length (get_header response.headers "content-length")
    || response.body_is_null
