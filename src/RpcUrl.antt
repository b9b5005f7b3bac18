-- ===== src/RpcUrl.antt =====
-- artifacts/api-server/src/routes/settings.ts, `isSafeRpcUrl`: the guard of the RPC test against
-- requests to the server's own network. The platform's `URL` and `Number` are the record Platform.
pub mod Ranges
mod Tests
use pumpy_v.Common.{
  ℕ, suc, Bool, true, false, Option, none, some, List, [], ◌∷◌, ◌&&◌, ◌||◌, not, if◌then◌else◌,
  codes,
}
use pumpy_v.Text.{Text, same, split, lower_case, ends_with}

pub record Url : Type 0 where
  pub protocol : Text
  pub hostname : Text

pub record Platform : Type 1 where
  -- `new URL(s)`, `none` if it throws
  pub parse_url : Text → Option Url
  pub Number : Type 0
  pub to_number : Text → Number
  pub is_nan : Number → Bool
  -- `n === k`, `n >= k` and `n <= k`
  pub equals : Number → ℕ → Bool
  pub at_least : Number → ℕ → Bool
  pub at_most : Number → ℕ → Bool

-- The names that are refused at once.
abbrev pub local_name : Text → Bool
local_name host =
    same host (codes "localhost") || same host (codes "0.0.0.0") || ends_with host (codes ".local")

module _ (p : Platform) where
  open p use {Number, to_number, is_nan, equals, at_least, at_most}

  -- The six tests of the first two numbers.
  abbrev pub blocked_pair : Number → Number → Bool
  blocked_pair a b =
      equals a 127
      || equals a 10
      || (equals a 172 && at_least b 16 && at_most b 31)
      || (equals a 192 && equals b 168)
      || (equals a 169 && equals b 254)
      || equals a 0

  abbrev pub blocked_parts : List Text → Bool
  blocked_parts (s ∷ t ∷ u ∷ v ∷ []) =
      not (is_nan (to_number s))
      && not (is_nan (to_number t))
      && not (is_nan (to_number u))
      && not (is_nan (to_number v))
      && blocked_pair (to_number s) (to_number t)
  blocked_parts _ = false

  abbrev pub safe_host : Text → Bool
  safe_host host = if local_name host then false else not (blocked_parts (split b'.' host))

  unfoldable pub is_safe_rpc_url : Text → Bool
  is_safe_rpc_url url = elim (p.parse_url url) [
    | none ↦ false
    | some parsed ↦
        if same parsed.protocol (codes "http:") || same parsed.protocol (codes "https:")
        then safe_host (lower_case parsed.hostname)
        else false
  ]
