-- ===== src/Fetch/Errors.antt =====
-- custom-fetch.ts: which responses become an ApiError, and which requests are not sent.
use pumpy_v.Common.{
  ◌≡◌, refl, ◌∙◌, subst, ◌⊎◌, inl, inr, Bool, true, false, Option, none, some, if◌then◌else◌, ◌||◌,
  ◌&&◌, Bool-cases, Option-cases,
}
use pumpy_v.Text.{Text, is_empty, trim}
use pumpy_v.Fetch.{
  Headers, Platform, Response, RequestInfo, Input, has_no_body, get_media_type, is_json_media_type,
  apply_base_url, resolve_method, resolve_url,
}
use pumpy_v.Fetch.Body.{
  Data, Read, got, stream_failed, parse_failed, no_blobs, ResponseType, parse_error_body,
  parse_error_text, is_other, blob_or_text, parse_success_body, strip_bom, looks_like_json,
}
use pumpy_v.Fetch.Message.{build_error_message}
use pumpy_v.Fetch.Send.{
  Options, Config, Sent, ApiError, Outcome, resolved, api_error, has_body, is_bodiless, thrown_or,
  new_api_error, settle, send, fetch_from, custom_fetch, request_headers,
}

abbrev pub is_api_error : {N B : Type 0} → Outcome N B → Bool
is_api_error (api_error e) = true
is_api_error _ = false

-- The stream of the response can be read, as a text and, where there are blobs, as a blob.
pub record IsReadable {B : Type 0} (response : Response B) : Type 0 where
  pub as_text : (s : Text) × (response.read_text ≡ some s)
  pub as_blob : (response.blob ≡ none) ⊎ ((b : B) × (response.blob ≡ some (some b)))

module _ {N B : Type 0} (p : Platform N B) where
  IsGot : Read N B → Type 0
  IsGot r = (data_ : Data N B) × (r ≡ got data_)

  parse_error_text-IsGot : (is_json : Bool) (s : Text) → IsGot (parse_error_text p is_json (some s))
  unfolding IsGot
  parse_error_text-IsGot is_json s = elim (Bool-cases (is_empty (trim (strip_bom s)))) [
    | inl e ↦ rw (parse_error_text, e) (_, refl)
    | inr e ↦ elim (Bool-cases (is_json || looks_like_json (strip_bom s))) [
      | inl j ↦ elim (Option-cases (p.parse_json (strip_bom s))) [
        | inl n ↦ rw (parse_error_text, e, j, n) (_, refl)
        | inr (v, n) ↦ rw (parse_error_text, e, j, n) (_, refl)
      ]
      | inr j ↦ rw (parse_error_text, e, j) (_, refl)
    ]
  ]

  blob_or_text-IsGot : (response : Response B) → IsReadable response → IsGot (blob_or_text response)
  unfolding IsGot
  blob_or_text-IsGot response readable = elim readable.as_blob [
    | inl none_there ↦ rw (blob_or_text, none_there, readable.as_text.1) (_, refl)
    | inr (b, there) ↦ rw (blob_or_text, there) (_, refl)
  ]

  parse_error_body-IsGot :
      (response : Response B) (method : Text)
      → IsReadable response
      → IsGot (parse_error_body p response method)
  unfolding IsGot parse_error_body
  parse_error_body-IsGot response method readable =
      elim (Bool-cases (has_no_body response method)) [
        | inl e ↦ rw (parse_error_body, e) (_, refl)
        | inr e ↦ elim (Bool-cases (is_other (get_media_type response.headers))) [
          | inl o ↦ rw (parse_error_body, e, o) (blob_or_text-IsGot response readable)
          | inr o ↦
              rw (parse_error_body, e, o, readable.as_text.1)
                (parse_error_text-IsGot (is_json_media_type (get_media_type response.headers))
                  readable.as_text.0)
        ]
      ]

  not_thrown :
      (response : Response B) (info : RequestInfo) (r : Read N B)
      → is_api_error (thrown_or p resolved response info r) ≡ false
  not_thrown response info (got data_) = refl
  not_thrown response info stream_failed = refl
  not_thrown response info (parse_failed raw) = refl
  not_thrown response info no_blobs = refl

  -- The error tells of the response and of the request that was sent, and holds the body of the response and the message
  -- made of it.
  abbrev pub Rejects : Response B → Sent → Outcome N B → Type 0
  Rejects response sent outcome =
      (e : ApiError N B) × (outcome ≡ api_error e)
      × (e.status ≡ response.status)
      × (e.status_text ≡ response.status_text)
      × (e.headers ≡ response.headers)
      × (e.method ≡ sent.method)
      × (e.url ≡ (if is_empty response.url then resolve_url sent.input else response.url))
      × (parse_error_body p response sent.method ≡ got e.data_)
      × (e.message ≡ build_error_message p response e.data_)

  -- A response that is ok gives no ApiError, and any other one does.
  abbrev pub Settles : Response B → Sent → Outcome N B → Type 0
  Settles response sent outcome =
      ((response.ok ≡ true) × (is_api_error outcome ≡ false))
      ⊎ ((response.ok ≡ false) × Rejects response sent outcome)

  abbrev info_of : Sent → RequestInfo
  info_of sent = record { method = sent.method; url = resolve_url sent.input }

  rejected :
      (response : Response B) (sent : Sent) (r : Read N B)
      → parse_error_body p response sent.method ≡ r
      → IsGot r
      → Rejects response sent (
          thrown_or p
            (λ data_. api_error (new_api_error p response data_ (info_of sent)))
            response
            (info_of sent)
            r)
  unfolding IsGot new_api_error
  rejected response sent r read (data_, e) =
      rw e (_, refl, refl, refl, refl, refl, refl, read ∙ e, refl)

  by_ok :
      (ok : Bool) (a b : Outcome N B) (response : Response B) (sent : Sent)
      → response.ok ≡ ok
      → is_api_error a ≡ false
      → Rejects response sent b
      → Settles response sent (if ok then a else b)
  by_ok true a b response sent e ha hb = inl (e, ha)
  by_ok false a b response sent e ha hb = inr (e, hb)

  settle-Settles :
      (t : ResponseType) (sent : Sent) (response : Response B)
      → IsReadable response
      → Settles response sent (settle p t (info_of sent) response)
  settle-Settles t sent response readable =
      by_ok response.ok _ _ response sent refl
        (not_thrown response (info_of sent) (parse_success_body p response t (info_of sent)))
        (rejected response sent (parse_error_body p response sent.method) refl
          (parse_error_body-IsGot response sent.method readable))

  -- What holds of the request that is sent, if there is one, and the outcome.
  Answered : (Sent → Option (Response B)) → Option Sent → Outcome N B → Type 0
  Answered fetch none outcome = Unit {0}
  Answered fetch (some sent) outcome =
      ((has_body sent.body && is_bodiless sent.method) ≡ false)
      × ((response : Response B)
          → fetch sent ≡ some response
          → IsReadable response
          → Settles response sent outcome)

  send-Answered :
      (fetch : Sent → Option (Response B)) (input : Input) (method : Text) (options : Options)
      (headers : Option Headers)
      → (has_body options.body && is_bodiless method) ≡ false
      → Answered fetch
          (send p fetch input method options headers).0
          (send p fetch input method options headers).1
  unfolding Answered
  send-Answered fetch input method options none h = tt
  send-Answered fetch input method options (some headers) h = (
    h,
    λ response er readable. rw er (
        settle-Settles options.response_type
          (record { input = input; method = method; headers = headers; body = options.body })
          response readable),
  )

  fetch_from-Answered :
      (fetch : Sent → Option (Response B)) (config : Config) (options : Options)
      (input : Option Input)
      → Answered fetch
          (fetch_from p fetch config options input).0
          (fetch_from p fetch config options input).1
  unfolding Answered
  fetch_from-Answered fetch config options none = tt
  fetch_from-Answered fetch config options (some input) =
      elim (Bool-cases
        (has_body options.body && is_bodiless (resolve_method p input options.method))) [
          | inl e ↦ rw (fetch_from, e) tt
          | inr e ↦
              rw (fetch_from, e)
                (send-Answered fetch input (resolve_method p input options.method) options
                  (request_headers config input options) e)
        ]

  custom_fetch-Answered :
      (fetch : Sent → Option (Response B)) (config : Config) (input : Input) (options : Options)
      (sent : Sent)
      → (custom_fetch p fetch config input options).0 ≡ some sent
      → Answered fetch (some sent) (custom_fetch p fetch config input options).1
  unfolding custom_fetch
  custom_fetch-Answered fetch config input options sent es =
      subst (λ o. Answered fetch o (custom_fetch p fetch config input options).1) es
        (fetch_from-Answered fetch config options (apply_base_url p config.base_url input))

  -- If the request is sent and a response comes back whose stream can be read, the promise rejects
  -- with an ApiError exactly if the response is not ok. The error has the response's status, headers and
  -- body, the method that was sent, the URL of the response or, if it is empty, of the request, and the
  -- message that is made of the response and the body.
  pub custom_fetch-Settles :
      (fetch : Sent → Option (Response B)) (config : Config) (input : Input) (options : Options)
      (sent : Sent) (response : Response B)
      → (custom_fetch p fetch config input options).0 ≡ some sent
      → fetch sent ≡ some response
      → IsReadable response
      → Settles response sent (custom_fetch p fetch config input options).1
  unfolding Answered
  custom_fetch-Settles fetch config input options sent response es er readable =
      (custom_fetch-Answered fetch config input options sent es).1 response er readable

  -- No request that is sent has a body with the method GET or HEAD.
  pub custom_fetch_bodiless :
      (fetch : Sent → Option (Response B)) (config : Config) (input : Input) (options : Options)
      (sent : Sent)
      → (custom_fetch p fetch config input options).0 ≡ some sent
      → (has_body sent.body && is_bodiless sent.method) ≡ false
  unfolding Answered
  custom_fetch_bodiless fetch config input options sent es =
      (custom_fetch-Answered fetch config input options sent es).0
