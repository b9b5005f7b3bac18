-- ===== src/Trades.antt =====
-- artifacts/api-server/src/routes/trades.ts over the table of lib/db/src/schema/trades.ts. A query parameter is
-- the text it was given once; the order and the equality of UUIDs are the database's (Sql).
pub mod Query
mod Tests
use pumpy_v.Common.{
  ℕ, zero, suc, Bool, true, false, Option, none, some, List, [], ◌∷◌, if◌then◌else◌, ◌&&◌, ◌||◌,
  not, leb, ltb, ◌==◌, codes, keep, take, min, String,
}
use pumpy_v.Text.{Text, is_empty, same}
use pumpy_v.Tx.{Run, Tx, statement}

-- A row; `other` is the columns that the routes do not test.
pub record Trade (R : Type 0) : Type 0 where
  pub strategy : Text
  pub client_order_id : Option Text
  pub other : R

pub record Sql (R : Type 0) : Type 0 where
  -- ORDER BY created_at DESC
  pub newest_first : List (Trade R) → List (Trade R)
  -- equality of two texts as UUIDs
  pub same_uuid : Text → Text → Bool

-- `parseInt(s, 10)`: not a number, or an integer of either sign.
pub data Parsed : Type 0 where
  nan : Parsed
  minus : ℕ → Parsed
  plus : ℕ → Parsed

abbrev is_hex : ℕ → Bool
is_hex c = (leb 48 c && leb c 57) || (leb 97 c && leb c 102) || (leb 65 c && leb c 70)

-- The text after `n` hexadecimal digits.
abbrev hex_digits : ℕ → Text → Option Text
hex_digits zero s = some s
hex_digits (suc n) [] = none
hex_digits (suc n) (c ∷ s) = if is_hex c then hex_digits n s else none

-- The groups of a UUID, a dash between two of them.
abbrev groups : List ℕ → Option Text → Bool
groups ns none = false
groups [] (some s) = is_empty s
groups (n ∷ []) (some s) = groups [] (hex_digits n s)
groups (n ∷ m ∷ ns) (some s) = elim (hex_digits n s) [
  | none ↦ false
  | some [] ↦ false
  | some (c ∷ rest) ↦ c == b'-' && groups (m ∷ ns) (some rest)
]

-- `UUID_RE.test(s)`
unfoldable pub is_uuid : Text → Bool
is_uuid s = groups (8 ∷ 4 ∷ 4 ∷ 4 ∷ 12 ∷ []) (some s)

-- The limit of a parsed text, with the default 50 and the maximum 1000.
abbrev pub limit_of : Parsed → ℕ
limit_of nan = min 50 1000
limit_of (minus n) = min 50 1000
limit_of (plus n) = if ltb 0 n then min n 1000 else min 50 1000

unfoldable pub parse_limit : (Text → Parsed) → Option Text → ℕ
parse_limit parse_int none = limit_of (parse_int (codes "50"))
parse_limit parse_int (some raw) = limit_of (parse_int raw)

pub data Response (R : Type 0) : Type 0 where
  error : ℕ → String → Response R
  trades : List (Trade R) → Response R

-- The text of a parameter; one that is missing or empty does not filter.
abbrev pub given : Option Text → Bool
given none = false
given (some s) = not (is_empty s)

-- A client order id that is given and no UUID.
abbrev pub bad_uuid : Option Text → Bool
bad_uuid none = false
bad_uuid (some s) = not (is_empty s) && not (is_uuid s)

module _ {R : Type 0} (sql : Sql R) where
  abbrev pub has_client_id : Text → Trade R → Bool
  has_client_id i t = elim t.client_order_id [ none ↦ false | some j ↦ sql.same_uuid j i ]

  abbrev pub filter_by : Option Text → (Text → Trade R → Bool) → Trade R → Bool
  filter_by none test t = true
  filter_by (some s) test t = if is_empty s then true else test s t

  abbrev pub matches : Option Text → Option Text → Trade R → Bool
  matches client_order_id strategy t =
      filter_by client_order_id has_client_id t && filter_by strategy (λ s u. same u.strategy s) t

  abbrev pub answer : String → Run (List (Trade R)) (Response R) → Response R
  answer text (none, rows, fs) = error 500 text
  answer text (some r, rows, fs) = r

  -- GET /bot/trades
  unfoldable pub list_trades :
      (Text → Parsed)
      → Option Text
      → Option Text
      → Option Text
      → List (Trade R) × List Bool
      → Response R
  list_trades parse_int limit strategy client_order_id s =
      if bad_uuid client_order_id
      then error 400 "clientOrderId must be a valid UUID"
      else answer "Failed to list trades" (
          statement
            (λ rows. (
              trades (
                  take (parse_limit parse_int limit)
                    (sql.newest_first (keep (matches client_order_id strategy) rows))),
              rows,
            ))
            s)

  abbrev found_or_404 : List (Trade R) → Response R
  found_or_404 [] = error 404 "Trade not found"
  found_or_404 (t ∷ ts) = trades (t ∷ ts)

  -- GET /bot/trades/:clientOrderId
  unfoldable pub get_trades : Text → List (Trade R) × List Bool → Response R
  get_trades i s =
      if is_uuid i
      then answer "Failed to look up trade" (
          statement (λ rows. (found_or_404 (sql.newest_first (keep (has_client_id i) rows)), rows))
            s)
      else error 400 "clientOrderId must be a valid UUID"
