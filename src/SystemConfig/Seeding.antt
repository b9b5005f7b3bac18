-- ===== src/SystemConfig/Seeding.antt =====
-- seed-system-config.ts: the script is safe to run again.
use pumpy_v.Common.{
  ℕ, String, ◌≡◌, refl, ◌∙◌, inl, inr, Bool, true, false, Option, none, some, List, [], ◌∷◌, ◌++◌,
  if◌then◌else◌, str_eq, eq_iff, Bool-cases, arith,
}
use pumpy_v.SystemConfig.{
  Row, SeedRow, seed_rows, has_key, new_row, insert_new, counted, seed_all, seed,
}

-- The row of a key, the first if there are several.
abbrev pub find_row : String → List Row → Option Row
find_row k [] = none
find_row k (r ∷ rs) = if str_eq r.key k then some r else find_row k rs

AllPresent : List SeedRow → List Row → Type 0
AllPresent [] rows = Unit {0}
AllPresent (s ∷ ss) rows = (has_key s.key rows ≡ true) × AllPresent ss rows

find_row-append :
    (k : String) (rows more : List Row)
    → has_key k rows ≡ true
    → find_row k (rows ++ more) ≡ find_row k rows
find_row-append k [] more h = ground arith
find_row-append k (r ∷ rs) more h = ground (arith, find_row-append k rs more)

has_key-append :
    (k : String) (rows more : List Row) → has_key k rows ≡ true → has_key k (rows ++ more) ≡ true
has_key-append k [] more h = ground arith
has_key-append k (r ∷ rs) more h = ground (arith, has_key-append k rs more)

has_key-last :
    (k : String) (rows : List Row) (r : Row) → r.key ≡ k → has_key k (rows ++ r ∷ []) ≡ true
has_key-last k [] r e = ground (arith, eq_iff r.key k)
has_key-last k (q ∷ rows) r e = ground (arith, has_key-last k rows r e)

-- After one insertion a key that was there still is, with its row, and the inserted key is there.
insert_new-find_row :
    (now : ℕ) (s : SeedRow) (k : String) (rows : List Row)
    → has_key k rows ≡ true
    → find_row k (insert_new now s rows).1 ≡ find_row k rows
insert_new-find_row now s k rows h = elim (Bool-cases (has_key s.key rows)) [
  | inl e ↦ rw (insert_new, e) refl
  | inr e ↦ rw (insert_new, e) (find_row-append k rows (new_row now s ∷ []) h)
]

insert_new-has_key :
    (now : ℕ) (s : SeedRow) (k : String) (rows : List Row)
    → has_key k rows ≡ true
    → has_key k (insert_new now s rows).1 ≡ true
insert_new-has_key now s k rows h = elim (Bool-cases (has_key s.key rows)) [
  | inl e ↦ rw (insert_new, e) h
  | inr e ↦ rw (insert_new, e) (has_key-append k rows (new_row now s ∷ []) h)
]

insert_new_present :
    (now : ℕ) (s : SeedRow) (rows : List Row) → has_key s.key (insert_new now s rows).1 ≡ true
insert_new_present now s rows = elim (Bool-cases (has_key s.key rows)) [
  | inl e ↦ rw (insert_new, e) e
  | inr e ↦ rw (insert_new, e) (has_key-last s.key rows (new_row now s) refl)
]

seed_all-has_key :
    (now n : ℕ) (ss : List SeedRow) (k : String) (rows : List Row)
    → has_key k rows ≡ true
    → has_key k (seed_all now n ss (rows, [])).1 ≡ true
unfolding seed_all
seed_all-has_key now n [] k rows h = h
seed_all-has_key now n (s ∷ ss) k rows h =
    seed_all-has_key now (counted (insert_new now s rows).0 n) ss k (insert_new now s rows).1
      (insert_new-has_key now s k rows h)

seed_all-AllPresent :
    (now n : ℕ) (ss : List SeedRow) (rows : List Row)
    → AllPresent ss (seed_all now n ss (rows, [])).1
unfolding seed_all AllPresent
seed_all-AllPresent now n [] rows = tt
seed_all-AllPresent now n (s ∷ ss) rows = (
  seed_all-has_key now (counted (insert_new now s rows).0 n) ss s.key (insert_new now s rows).1
      (insert_new_present now s rows),
  seed_all-AllPresent now (counted (insert_new now s rows).0 n) ss (insert_new now s rows).1,
)

seed_all_present :
    (now n : ℕ) (ss : List SeedRow) (rows : List Row)
    → AllPresent ss rows
    → seed_all now n ss (rows, []) ≡ (some n, rows, [])
unfolding seed_all AllPresent
seed_all_present now n [] rows h = refl
seed_all_present now n (s ∷ ss) rows h =
    rw (seed_all, insert_new, h.0) (seed_all_present now n ss rows h.1)

-- Running the script a second time inserts nothing and leaves the table as it is.
pub seed_twice :
    (now later : ℕ) (rows : List Row)
    → seed later ((seed now (rows, [])).1, []) ≡ (some 0, (seed now (rows, [])).1, [])
unfolding seed
seed_twice now later rows =
    seed_all_present later 0 seed_rows _ (seed_all-AllPresent now 0 seed_rows rows)

seed_all_kept :
    (now n : ℕ) (ss : List SeedRow) (k : String) (rows : List Row) (fs : List Bool)
    → has_key k rows ≡ true
    → find_row k (seed_all now n ss (rows, fs)).1 ≡ find_row k rows
unfolding seed_all
seed_all_kept now n [] k rows fs h = refl
seed_all_kept now n (s ∷ ss) k rows [] h =
    seed_all_kept now (counted (insert_new now s rows).0 n) ss k (insert_new now s rows).1 []
      (insert_new-has_key now s k rows h)
    ∙ insert_new-find_row now s k rows h
seed_all_kept now n (s ∷ ss) k rows (false ∷ fs) h =
    seed_all_kept now (counted (insert_new now s rows).0 n) ss k (insert_new now s rows).1 fs
      (insert_new-has_key now s k rows h)
    ∙ insert_new-find_row now s k rows h
seed_all_kept now n (s ∷ ss) k rows (true ∷ fs) h = refl

-- Whatever statement throws, a key that the table had keeps its row.
pub seed_kept :
    (now : ℕ) (k : String) (rows : List Row) (fs : List Bool)
    → has_key k rows ≡ true
    → find_row k (seed now (rows, fs)).1 ≡ find_row k rows
unfolding seed
seed_kept now k rows fs h = seed_all_kept now 0 seed_rows k rows fs h
