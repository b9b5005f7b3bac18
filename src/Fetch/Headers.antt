-- ===== src/Fetch/Headers.antt =====
-- custom-fetch.ts: the defaults never replace a header that the caller gave.
use pumpy_v.Common.{
  String, ◌≡◌, refl, sym, ap, ◌∙◌, subst, inl, inr, Bool, true, false, Option, none, some, [], ◌∷◌,
  Bool-cases, arith, str_eq, eq_iff, codes, is_some,
}
use pumpy_v.Text.{Text, is_empty}
use pumpy_v.Fetch.{Headers, Input, get_header, has_header, set_header}
use pumpy_v.Fetch.Send.{
  Options, Config, Getter, throws, returns, with_default, with_content_type, with_accept, bearer,
  from_getter, with_token, given_headers, request_headers, json_text, wants_json,
}

get_header-set_header :
    (j k : String) (v : Text) (hs : Headers)
    → str_eq j k ≡ false
    → get_header (set_header j v hs) k ≡ get_header hs k
get_header-set_header j k v [] h = rw h refl
get_header-set_header j k v ((i, w) ∷ hs) h =
    ground (arith, eq_iff i j, eq_iff i k, eq_iff j k, get_header-set_header j k v hs h)

-- A header that is there differs from one that is not.
distinct :
    (j k : String) (hs : Headers)
    → has_header hs j ≡ false
    → has_header hs k ≡ true
    → str_eq j k ≡ false
distinct j k hs nj hk = elim (Bool-cases (str_eq j k)) [
  | inl e ↦ e ∙ (sym hk ∙ (ap (has_header hs) (sym ((eq_iff j k).0 e)) ∙ nj))
  | inr e ↦ e
]

Kept : String → Headers → Headers → Type 0
Kept k hs after = get_header after k ≡ get_header hs k

has-Kept :
    (k : String) (hs after : Headers)
    → Kept k hs after
    → has_header hs k ≡ true
    → has_header after k ≡ true
unfolding Kept
has-Kept k hs after e h = ap is_some e ∙ h

with_default-Kept :
    (wanted : Bool) (j k : String) (v : Text) (hs : Headers)
    → has_header hs k ≡ true
    → Kept k hs (with_default wanted j v hs)
unfolding Kept
with_default-Kept false j k v hs h = refl
with_default-Kept true j k v hs h = elim (Bool-cases (has_header hs j)) [
  | inl there ↦ rw (with_default, there) refl
  | inr absent ↦
      rw (with_default, absent) (get_header-set_header j k v hs (distinct j k hs absent h))
]

bearer-Kept :
    (token : Option Text) (k : String) (hs : Headers)
    → has_header hs "authorization" ≡ false
    → has_header hs k ≡ true
    → Kept k hs (bearer token hs)
unfolding Kept
bearer-Kept none k hs na h = refl
bearer-Kept (some token) k hs na h = elim (Bool-cases (is_empty token)) [
  | inl e ↦ rw (bearer, e) refl
  | inr e ↦
      rw (bearer, e)
        (get_header-set_header "authorization" k _ hs (distinct "authorization" k hs na h))
]

-- `Kept` of the headers that a getter lets through.
KeptIn : String → Headers → Option Headers → Type 0
KeptIn k hs none = Unit {0}
KeptIn k hs (some after) = Kept k hs after

from_getter-KeptIn :
    (getter : Getter) (k : String) (hs : Headers)
    → has_header hs "authorization" ≡ false
    → has_header hs k ≡ true
    → KeptIn k hs (from_getter getter hs)
unfolding KeptIn
from_getter-KeptIn throws k hs na h = tt
from_getter-KeptIn (returns token) k hs na h = bearer-Kept token k hs na h

with_token-KeptIn :
    (getter : Option Getter) (k : String) (hs : Headers)
    → has_header hs k ≡ true
    → KeptIn k hs (with_token getter hs)
unfolding KeptIn Kept
with_token-KeptIn none k hs h = refl
with_token-KeptIn (some getter) k hs h = elim (Bool-cases (has_header hs "authorization")) [
  | inl there ↦ rw (with_token, there) refl
  | inr absent ↦ rw (with_token, absent) (from_getter-KeptIn getter k hs absent h)
]

defaults-Kept :
    (options : Options) (k : String) (hs : Headers)
    → has_header hs k ≡ true
    → Kept k hs (with_accept options.response_type (with_content_type options.body hs))
unfolding Kept
defaults-Kept options k hs h =
    let typed =
      with_default-Kept (json_text options.body) "content-type" k (codes "application/json") hs h in
    with_default-Kept (wants_json options.response_type) "accept" k _
      (with_content_type options.body hs)
      (has-Kept k hs (with_content_type options.body hs) typed h)
    ∙ typed

-- A header that the request or the options give, under whatever name, is sent with the value that
-- merging them gives it: no default and no token replaces it.
pub request_headers_kept :
    (config : Config) (input : Input) (options : Options) (k : String) (sent : Headers)
    → request_headers config input options ≡ some sent
    → has_header (given_headers input options) k ≡ true
    → get_header sent k ≡ get_header (given_headers input options) k
unfolding request_headers Kept KeptIn
request_headers_kept config input options k sent e h =
    subst
      (KeptIn k (
        with_accept options.response_type
          (with_content_type options.body (given_headers input options))))
      e
      (with_token-KeptIn config.token_getter k _ (
        has-Kept k (given_headers input options) _
          (defaults-Kept options k (given_headers input options) h) h))
    ∙ defaults-Kept options k (given_headers input options) h
