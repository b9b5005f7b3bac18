-- ===== src/RpcUrl/Ranges.antt =====
-- settings.ts: what the URL guard blocks, as ranges of addresses, and what it lets through.
use pumpy_v.Common.{
  ℕ, ◌+◌, ◌*◌, ◌^◌, ◌<◌, ◌≡◌, ◌≢◌, refl, ap, ◌∙◌, ◌⊎◌, inl, inr, Bool, true, false, some, List, [],
  ◌∷◌, ◌&&◌, ◌||◌, not, ◌==◌, leb, ltb, arith, codes, length,
}
use pumpy_v.Text.{Text, same, split, lower_case}
use pumpy_v.RpcUrl.{Url, Platform, local_name, blocked_pair, blocked_parts, is_safe_rpc_url}

-- An IPv4 address as a 32-bit number.
abbrev pub address : ℕ → ℕ → ℕ → ℕ → ℕ
address a b c d = a * 2 ^ 24 + b * 2 ^ 16 + c * 2 ^ 8 + d

-- `addr` lies in the block of `size` addresses from `base` on.
abbrev pub in_block : ℕ → ℕ → ℕ → Bool
in_block base size addr = leb base addr && ltb addr (base + size)

-- The reserved blocks that the code names, by their first addresses and sizes.
abbrev pub reserved : ℕ → Bool
reserved addr =
    in_block (address 127 0 0 0) (2 ^ 24) addr
    || in_block (address 10 0 0 0) (2 ^ 24) addr
    || in_block (address 172 16 0 0) (2 ^ 20) addr
    || in_block (address 192 168 0 0) (2 ^ 16) addr
    || in_block (address 169 254 0 0) (2 ^ 16) addr
    || in_block (address 0 0 0 0) (2 ^ 24) addr

eq_block :
    (a b c d k : ℕ)
    → b < 256
    → c < 256
    → d < 256
    → (a == k) ≡ in_block (address k 0 0 0) (2 ^ 24) (address a b c d)
eq_block a b c d k hb hc hd = ground arith

pair_block :
    (a b c d k l : ℕ)
    → b < 256
    → c < 256
    → d < 256
    → l < 256
    → (a == k && b == l) ≡ in_block (address k l 0 0) (2 ^ 16) (address a b c d)
pair_block a b c d k l hb hc hd hl = ground arith

half_block :
    (a b c d : ℕ)
    → b < 256
    → c < 256
    → d < 256
    → (a == 172 && leb 16 b && leb b 31) ≡ in_block (address 172 16 0 0) (2 ^ 20) (address a b c d)
half_block a b c d hb hc hd = ground arith

-- `Number` reads the label as the number `n`.
pub record Reads (p : Platform) (label : Text) (n : ℕ) : Type 0 where
  pub number : p.is_nan (p.to_number label) ≡ false
  pub eq : (k : ℕ) → p.equals (p.to_number label) k ≡ (n == k)
  pub ge : (k : ℕ) → p.at_least (p.to_number label) k ≡ leb k n
  pub le : (k : ℕ) → p.at_most (p.to_number label) k ≡ leb n k

or_cong6 :
    {a b c d e f a' b' c' d' e' f' : Bool}
    → a ≡ a'
    → b ≡ b'
    → c ≡ c'
    → d ≡ d'
    → e ≡ e'
    → f ≡ f'
    → (a || b || c || d || e || f) ≡ (a' || b' || c' || d' || e' || f')
or_cong6 p q r s t u = cc

pair_reserved :
    (p : Platform) (s t : Text) (a b c d : ℕ)
    → Reads p s a
    → Reads p t b
    → b < 256
    → c < 256
    → d < 256
    → blocked_pair p (p.to_number s) (p.to_number t) ≡ reserved (address a b c d)
pair_reserved p s t a b c d ra rb hb hc hd =
    rw
      (
        ra.eq 127,
        ra.eq 10,
        ra.eq 172,
        ra.eq 192,
        ra.eq 169,
        ra.eq 0,
        rb.eq 168,
        rb.eq 254,
        rb.ge 16,
        rb.le 31,
      )
      (or_cong6 (eq_block a b c d 127 hb hc hd) (eq_block a b c d 10 hb hc hd)
        (half_block a b c d hb hc hd) (pair_block a b c d 192 168 hb hc hd (omega arith))
        (pair_block a b c d 169 254 hb hc hd (omega arith)) (eq_block a b c d 0 hb hc hd))

scheme_ok : (p q : Bool) → (p ≡ true) ⊎ (q ≡ true) → (p || q) ≡ true
scheme_ok true q h = refl
scheme_ok false true h = refl
scheme_ok false false (inl e) = e
scheme_ok false false (inr e) = e

-- Past the scheme and the names, the parts of the host decide.
by_parts :
    (p : Platform) (url : Text) (parsed : Url)
    → p.parse_url url ≡ some parsed
    → (same parsed.protocol (codes "http:") ≡ true) ⊎ (same parsed.protocol (codes "https:") ≡ true)
    → local_name (lower_case parsed.hostname) ≡ false
    → is_safe_rpc_url p url ≡ not (blocked_parts p (split b'.' (lower_case parsed.hostname)))
unfolding is_safe_rpc_url
by_parts p url parsed e scheme named =
    rw
      (
        is_safe_rpc_url,
        e,
        scheme_ok (same parsed.protocol (codes "http:")) (same parsed.protocol (codes "https:"))
            scheme,
        named,
      )
      refl

four_numbers :
    (p : Platform) (s t u v : Text) (a b c d : ℕ)
    → Reads p s a
    → Reads p t b
    → Reads p u c
    → Reads p v d
    → blocked_parts p (s ∷ t ∷ u ∷ v ∷ []) ≡ blocked_pair p (p.to_number s) (p.to_number t)
four_numbers p s t u v a b c d ra rb rc rd = rw (ra.number, rb.number, rc.number, rd.number) refl

not_four : (p : Platform) (labels : List Text) → length labels ≢ 4 → blocked_parts p labels ≡ false
not_four p [] h = refl
not_four p (s ∷ []) h = refl
not_four p (s ∷ t ∷ []) h = refl
not_four p (s ∷ t ∷ u ∷ []) h = refl
not_four p (s ∷ t ∷ u ∷ v ∷ []) h = absurd (h refl)
not_four p (s ∷ t ∷ u ∷ v ∷ w ∷ ws) h = refl

-- For an http or https URL whose host is four numbers below 256, and not one of the refused names, the
-- guard accepts exactly the addresses outside 127.0.0.0/8, 10.0.0.0/8, 172.16.0.0/12,
-- 192.168.0.0/16, 169.254.0.0/16 and 0.0.0.0/8.
pub is_safe_rpc_url-reserved :
    (p : Platform) (url : Text) (parsed : Url) (s t u v : Text) (a b c d : ℕ)
    → p.parse_url url ≡ some parsed
    → (same parsed.protocol (codes "http:") ≡ true) ⊎ (same parsed.protocol (codes "https:") ≡ true)
    → local_name (lower_case parsed.hostname) ≡ false
    → split b'.' (lower_case parsed.hostname) ≡ s ∷ t ∷ u ∷ v ∷ []
    → Reads p s a
    → Reads p t b
    → Reads p u c
    → Reads p v d
    → b < 256
    → c < 256
    → d < 256
    → is_safe_rpc_url p url ≡ not (reserved (address a b c d))
is_safe_rpc_url-reserved p url parsed s t u v a b c d e scheme named labels ra rb rc rd hb hc hd =
    by_parts p url parsed e scheme named
    ∙ ap (λ ls. not (blocked_parts p ls)) labels
    ∙ ap not
        (four_numbers p s t u v a b c d ra rb rc rd ∙ pair_reserved p s t a b c d ra rb hb hc hd)

-- A host that does not split into four labels is accepted whatever it is, unless it is one of the
-- refused names: the bracketed IPv6 hosts, the loopback address [::1] among them, all pass.
pub is_safe_rpc_url-not_four :
    (p : Platform) (url : Text) (parsed : Url)
    → p.parse_url url ≡ some parsed
    → (same parsed.protocol (codes "http:") ≡ true) ⊎ (same parsed.protocol (codes "https:") ≡ true)
    → local_name (lower_case parsed.hostname) ≡ false
    → length (split b'.' (lower_case parsed.hostname)) ≢ 4
    → is_safe_rpc_url p url ≡ true
is_safe_rpc_url-not_four p url parsed e scheme named four =
    by_parts p url parsed e scheme named
    ∙ ap not (not_four p (split b'.' (lower_case parsed.hostname)) four)
