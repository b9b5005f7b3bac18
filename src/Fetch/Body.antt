-- ===== src/Fetch/Body.antt =====
-- custom-fetch.ts: reading the body of a response.
use pumpy_v.Common.{
  Bool, false, Option, none, some, [], ◌∷◌, if◌then◌else◌, not, ◌||◌, ◌&&◌, ◌==◌, codes, is_some,
}
use pumpy_v.Text.{Text, is_empty, trim, trim_start, starts_with}
use pumpy_v.Json.{Value}
use pumpy_v.Fetch.{
  Platform, Response, RequestInfo, get_media_type, is_json_media_type, is_text_media_type,
  has_no_body,
}

-- What a body is read as; `nothing` is null.
pub data Data (N B : Type 0) : Type 0 where
  nothing : Data N B
  parsed : Value N → Data N B
  raw : Text → Data N B
  blob : B → Data N B

-- What a reading gives, or the error it throws: of the stream, of the parser with the raw body, or of a runtime
-- without blobs.
pub data Read (N B : Type 0) : Type 0 where
  got : Data N B → Read N B
  stream_failed : Read N B
  parse_failed : Text → Read N B
  no_blobs : Read N B

pub data ResponseType : Type 0 where
  json : ResponseType
  text : ResponseType
  blob_type : ResponseType
  auto : ResponseType

unfoldable pub strip_bom : Text → Text
strip_bom [] = []
strip_bom (c ∷ s) = if c == 0xfeff then s else c ∷ s

unfoldable pub looks_like_json : Text → Bool
looks_like_json s = starts_with (trim_start s) (codes "{") || starts_with (trim_start s) (codes "[")

abbrev pub read_blob : {N B : Type 0} → Option B → Read N B
read_blob none = stream_failed
read_blob (some b) = got (blob b)

-- A media type that is an empty text is falsy, and read like none.
abbrev pub is_other : Option Text → Bool
is_other none = false
is_other (some m) =
    not (is_empty m) && not (is_json_media_type (some m)) && not (is_text_media_type (some m))

module _ {B : Type 0} where
  unfoldable pub infer_response_type : Response B → ResponseType
  infer_response_type response =
      if is_json_media_type (get_media_type response.headers)
      then json
      else if is_text_media_type (get_media_type response.headers)
          || not (is_some (get_media_type response.headers))
      then text
      else blob_type

  abbrev pub effective_type : Response B → ResponseType → ResponseType
  effective_type response auto = infer_response_type response
  effective_type response json = json
  effective_type response text = text
  effective_type response blob_type = blob_type

module _ {N B : Type 0} where
  -- The text of a response whose media type is neither JSON nor text, where there are no blobs.
  abbrev pub read_raw : Option Text → Read N B
  read_raw none = stream_failed
  read_raw (some s) = got (raw s)

  abbrev pub blob_or_text : Response B → Read N B
  blob_or_text response = elim response.blob [
    | none ↦ read_raw response.read_text
    | some b ↦ read_blob b
  ]

  abbrev text_or_null : Option Text → Read N B
  text_or_null none = stream_failed
  text_or_null (some s) = if is_empty s then got nothing else got (raw s)

  abbrev blob_or_error : Option (Option B) → Read N B
  blob_or_error none = no_blobs
  blob_or_error (some b) = read_blob b

module _ {N B : Type 0} (p : Platform N B) where
  abbrev parsed_or : Read N B → Option (Value N) → Read N B
  parsed_or failed none = failed
  parsed_or failed (some v) = got (parsed v)

  abbrev parse_json_text : Option Text → Read N B
  parse_json_text none = stream_failed
  parse_json_text (some s) =
      if is_empty (trim (strip_bom s))
      then got nothing
      else parsed_or (parse_failed s) (p.parse_json (strip_bom s))

  unfoldable pub parse_json_body : Response B → Read N B
  unfolding strip_bom
  parse_json_body response = parse_json_text response.read_text

  abbrev pub parse_error_text : Bool → Option Text → Read N B
  parse_error_text is_json none = stream_failed
  parse_error_text is_json (some s) =
      if is_empty (trim (strip_bom s))
      then got nothing
      else if is_json || looks_like_json (strip_bom s)
      then parsed_or (got (raw s)) (p.parse_json (strip_bom s))
      else got (raw s)

  unfoldable pub parse_error_body : Response B → Text → Read N B
  unfolding strip_bom looks_like_json
  parse_error_body response method =
      if has_no_body response method
      then got nothing
      else if is_other (get_media_type response.headers)
      then blob_or_text response
      else parse_error_text (is_json_media_type (get_media_type response.headers))
          response.read_text

  -- The `switch`; `auto` has been resolved.
  abbrev pub parse_as : Response B → ResponseType → Read N B
  parse_as response json = parse_json_body response
  parse_as response text = text_or_null response.read_text
  parse_as response blob_type = blob_or_error response.blob
  parse_as response auto = got nothing

  unfoldable pub parse_success_body : Response B → ResponseType → RequestInfo → Read N B
  unfolding parse_json_body infer_response_type
  parse_success_body response response_type info =
      if has_no_body response info.method
      then got nothing
      else parse_as response (effective_type response response_type)
