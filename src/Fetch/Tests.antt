-- ===== src/Fetch/Tests.antt =====
-- custom-fetch.ts: a platform whose JSON is one text, a request, and an error response.
use pumpy_v.Common.{ℕ, ◌≡◌, refl, inl, false, Option, none, some, [], ◌∷◌, codes, if◌then◌else◌}
use pumpy_v.Text.{same}
use pumpy_v.Json.{Value, object, fields_of}
use pumpy_v.Json
use pumpy_v.Fetch.{Platform, Response, text_input, set_base_url}
use pumpy_v.Fetch.Body.{parsed, json}
use pumpy_v.Fetch.Message.{build_error_message}
use pumpy_v.Fetch.Send.{
  Options, Config, Sent, text_body, returns, custom_fetch, request_headers, body_not_allowed,
}
use pumpy_v.Fetch.Errors.{Settles, custom_fetch-Settles}

abbrev platform : Platform ℕ ℕ
platform = record {
  parse_json = λ s.
      if same s (codes "{}")
      then some (
          object (fields_of (("title", Json.text "Bad") ∷ ("detail", Json.text " no order ") ∷ [])))
      else none;
  new_url = λ s. some s;
  new_request = λ s r. some (record r { url = s });
  upper_case = λ s. s;
  numeral = λ n. codes "400";
}

abbrev bad_request : Response ℕ
bad_request = record {
  ok = false;
  status = 400;
  status_text = codes "Bad Request";
  url = [];
  headers = ("content-type", codes "Application/Problem+JSON; charset=utf-8") ∷ [];
  body_is_null = false;
  read_text = some (0xfeff ∷ codes "{}");
  blob = none;
}

abbrev config : Config
config = record {
  base_url = set_base_url (some (codes "http://api//"));
  token_getter = some (returns (some (codes "t")));
}

abbrev post : Options
post = record {
  response_type = json;
  headers = some (("authorization", codes "Basic x") ∷ []);
  method = some (codes "POST");
  body = text_body (codes " {}");
}

abbrev fetch : Sent → Option (Response ℕ)
fetch sent = some bad_request

abbrev sent : Sent
sent = record {
  input = text_input (codes "http://api/orders");
  method = codes "POST";
  headers =
      ("authorization", codes "Basic x")
      ∷ ("content-type", codes "application/json")
      ∷ ("accept", codes "application/json, application/problem+json")
      ∷ [];
  body = text_body (codes " {}");
}

problem_message :
    build_error_message platform bad_request (
      parsed
        (object (fields_of (("title", Json.text "Bad") ∷ ("detail", Json.text " no order ") ∷ []))))
    ≡ codes "HTTP 400 Bad Request: Bad — no order"
unfolding build_error_message
problem_message = refl

get_with_body :
    (custom_fetch platform fetch config (text_input (codes "/x")) (record post { method = none })).1
    ≡ body_not_allowed
unfolding custom_fetch set_base_url
get_with_body = refl

sent_runs : (custom_fetch platform fetch config (text_input (codes "/orders")) post).0 ≡ some sent
unfolding custom_fetch set_base_url
sent_runs = refl

custom_fetch-Settles_example :
    Settles platform bad_request sent
      (custom_fetch platform fetch config (text_input (codes "/orders")) post).1
custom_fetch-Settles_example =
    custom_fetch-Settles platform fetch config (text_input (codes "/orders")) post sent bad_request
      sent_runs refl (record { as_text = (0xfeff ∷ codes "{}", refl); as_blob = inl refl })

headers_run : request_headers config (text_input []) post ≡ some sent.headers
unfolding request_headers
headers_run = refl
