-- ===== src/Fetch/Send.antt =====
-- custom-fetch.ts: `customFetch`, from the options to the request that is sent and to the outcome.
use pumpy_v.Common.{
  ℕ, String, Bool, true, false, Option, none, some, [], ◌∷◌, ◌++◌, if◌then◌else◌, not, ◌||◌, ◌&&◌,
  codes,
}
use pumpy_v.Text.{Text, same, is_empty}
use pumpy_v.Fetch.{
  Headers, Input, text_input, url_input, request_input, Platform, Response, RequestInfo, has_header,
  set_header, merge_headers, resolve_url, resolve_method, apply_base_url,
}
use pumpy_v.Fetch.Body.{
  Data, Read, got, stream_failed, parse_failed, no_blobs, ResponseType, json, looks_like_json,
  parse_error_body, parse_success_body,
}
use pumpy_v.Fetch.Message.{build_error_message}

-- `init.body`: null or undefined, a text, or another kind.
pub data RequestBody : Type 0 where
  no_body : RequestBody
  text_body : Text → RequestBody
  other_body : RequestBody

pub record Options : Type 0 where
  pub response_type : ResponseType
  pub headers : Option Headers
  pub method : Option Text
  pub body : RequestBody

-- The getter of the bearer token: it throws, or gives a token or null.
pub data Getter : Type 0 where
  throws : Getter
  returns : Option Text → Getter

-- The configuration of the module; no getter is `none`.
pub record Config : Type 0 where
  pub base_url : Option Text
  pub token_getter : Option Getter

-- What `fetch` is called with.
pub record Sent : Type 0 where
  pub input : Input
  pub method : Text
  pub headers : Headers
  pub body : RequestBody

pub record ApiError (N B : Type 0) : Type 0 where
  pub message : Text
  pub status : ℕ
  pub status_text : Text
  pub data_ : Data N B
  pub headers : Headers
  pub method : Text
  pub url : Text

pub record ResponseParseError : Type 0 where
  pub message : Text
  pub status : ℕ
  pub status_text : Text
  pub headers : Headers
  pub method : Text
  pub url : Text
  pub raw_body : Text

-- How the promise settles.
pub data Outcome (N B : Type 0) : Type 0 where
  resolved : Data N B → Outcome N B
  api_error : ApiError N B → Outcome N B
  response_parse_error : ResponseParseError → Outcome N B
  -- `customFetch: ... requests cannot have a body.`
  body_not_allowed : Outcome N B
  no_blob_support : Outcome N B
  -- a URL or header that cannot be built, a failing getter, network or stream
  platform_error : Outcome N B

-- `a || b`
abbrev pub or_text : Text → Text → Text
or_text a b = if is_empty a then b else a

abbrev pub is_bodiless : Text → Bool
is_bodiless method = same method (codes "GET") || same method (codes "HEAD")

abbrev pub has_body : RequestBody → Bool
has_body no_body = false
has_body (text_body s) = true
has_body other_body = true

-- `isRequest(input) ? input.headers : undefined`
abbrev pub input_headers : Input → Option Headers
input_headers (request_input r) = some r.headers
input_headers (text_input s) = none
input_headers (url_input s) = none

abbrev pub json_text : RequestBody → Bool
json_text (text_body s) = looks_like_json s
json_text no_body = false
json_text other_body = false

-- A default for a header that is not there.
abbrev pub with_default : Bool → String → Text → Headers → Headers
with_default wanted k v hs = if wanted && not (has_header hs k) then set_header k v hs else hs

abbrev pub with_content_type : RequestBody → Headers → Headers
with_content_type body hs =
    with_default (json_text body) "content-type" (codes "application/json") hs

abbrev pub wants_json : ResponseType → Bool
wants_json json = true
wants_json _ = false

abbrev pub with_accept : ResponseType → Headers → Headers
with_accept t hs =
    with_default (wants_json t) "accept" (codes "application/json, application/problem+json") hs

-- An empty token is falsy.
abbrev pub bearer : Option Text → Headers → Headers
bearer none hs = hs
bearer (some token) hs =
    if is_empty token then hs else set_header "authorization" (codes "Bearer " ++ token) hs

abbrev pub from_getter : Getter → Headers → Option Headers
from_getter throws hs = none
from_getter (returns token) hs = some (bearer token hs)

-- The getter is asked only if there is no authorization yet.
abbrev pub with_token : Option Getter → Headers → Option Headers
with_token none hs = some hs
with_token (some getter) hs =
    if has_header hs "authorization" then some hs else from_getter getter hs

abbrev pub given_headers : Input → Options → Headers
given_headers input options = merge_headers (input_headers input ∷ options.headers ∷ [])

-- The headers that are sent, `none` if the getter throws.
unfoldable pub request_headers : Config → Input → Options → Option Headers
unfolding merge_headers looks_like_json
request_headers config input options = with_token config.token_getter (
    with_accept options.response_type
      (with_content_type options.body (given_headers input options)))

module _ {N B : Type 0} (p : Platform N B) where
  -- `new ApiError(response, data, requestInfo)`
  unfoldable pub new_api_error : Response B → Data N B → RequestInfo → ApiError N B
  unfolding build_error_message
  new_api_error response data_ info = record {
    message = build_error_message p response data_;
    status = response.status;
    status_text = response.status_text;
    data_ = data_;
    headers = response.headers;
    method = info.method;
    url = or_text response.url info.url;
  }

  -- `new ResponseParseError(response, raw, cause, requestInfo)`
  unfoldable pub new_parse_error : Response B → Text → RequestInfo → ResponseParseError
  new_parse_error response raw info = record {
    message =
        codes "Failed to parse response from "
        ++ info.method
        ++ codes " "
        ++ or_text response.url info.url
        ++ codes " ("
        ++ p.numeral response.status
        ++ codes " "
        ++ response.status_text
        ++ codes ") as JSON";
    status = response.status;
    status_text = response.status_text;
    headers = response.headers;
    method = info.method;
    url = or_text response.url info.url;
    raw_body = raw;
  }

  abbrev pub thrown_or :
      (Data N B → Outcome N B) → Response B → RequestInfo → Read N B → Outcome N B
  thrown_or f response info (got data_) = f data_
  thrown_or f response info stream_failed = platform_error
  thrown_or f response info (parse_failed raw) =
      response_parse_error (new_parse_error response raw info)
  thrown_or f response info no_blobs = no_blob_support

  abbrev pub settle : ResponseType → RequestInfo → Response B → Outcome N B
  settle t info response =
      if response.ok
      then thrown_or resolved response info (parse_success_body p response t info)
      else thrown_or (λ data_. api_error (new_api_error response data_ info)) response info
          (parse_error_body p response info.method)

  -- A response, or none if the network fails.
  abbrev pub settle_fetch : ResponseType → RequestInfo → Option (Response B) → Outcome N B
  settle_fetch t info none = platform_error
  settle_fetch t info (some response) = settle t info response

  abbrev pub send :
      (Sent → Option (Response B))
      → Input
      → Text
      → Options
      → Option Headers
      → Option Sent × Outcome N B
  send fetch input method options none = (none, platform_error)
  send fetch input method options (some headers) =
      let sent : Sent = record {
        input = input;
        method = method;
        headers = headers;
        body = options.body;
      } in
      (
        some sent,
        settle_fetch options.response_type (record { method = method; url = resolve_url input })
            (fetch sent),
      )

  -- With the base URL applied: the request that is sent, if any, and the outcome.
  abbrev pub fetch_from :
      (Sent → Option (Response B)) → Config → Options → Option Input → Option Sent × Outcome N B
  fetch_from fetch config options none = (none, platform_error)
  fetch_from fetch config options (some input) =
      if has_body options.body && is_bodiless (resolve_method p input options.method)
      then (none, body_not_allowed)
      else send fetch input (resolve_method p input options.method) options
          (request_headers config input options)

  unfoldable pub custom_fetch :
      (Sent → Option (Response B)) → Config → Input → Options → Option Sent × Outcome N B
  unfolding request_headers resolve_url resolve_method apply_base_url parse_error_body
      parse_success_body
  custom_fetch fetch config input options =
      fetch_from fetch config options (apply_base_url p config.base_url input)
