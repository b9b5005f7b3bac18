-- ===== src/Settings/Table.antt =====
-- settings.ts: the table as a map from keys to values, and the map after PUT /settings/config.
use pumpy_v.Common.{
  ℕ, String, ◌≡◌, refl, sym, subst, ◌∙◌, inl, inr, true, false, Option, none, some, List, [], ◌∷◌,
  map, if◌then◌else◌, Bool-cases, str_eq, eq_iff,
}
use pumpy_v.Text.{Text, is_empty}
use pumpy_v.Settings.{ConfigRow, from_rows}
use pumpy_v.Settings.Config.{
  delete_row, upsert_row, write_entry, save_entries, valid_entries, save_valid, put_config,
  config_saved,
}
use pumpy_v.Settings.Saving.{written, write_entry-kept, from_rows-delete_row, from_rows-upsert_row}

-- `key` is the primary key of the table.
abbrev pub IsKeyed : List ConfigRow → Type 0
IsKeyed [] = Unit {0}
IsKeyed (r ∷ rs) = (from_rows rs r.key ≡ none) × IsKeyed rs

-- The entry of a key in an object.
abbrev pub entry_of : String → List (String × Text) → Option Text
entry_of k [] = none
entry_of k ((j, v) ∷ es) = let later = entry_of k es in if str_eq j k then some v else later

abbrev pub Lacks : String → List (String × Text) → Type 0
Lacks k [] = Unit {0}
Lacks k (e ∷ es) = (str_eq e.0 k ≡ false) × Lacks k es

-- The keys of an object differ.
abbrev pub IsObject : List (String × Text) → Type 0
IsObject [] = Unit {0}
IsObject (e ∷ es) = Lacks e.0 es × IsObject es

-- An empty text stands for no value.
abbrev pub value_of : Text → Option Text
value_of v = if is_empty v then none else some v

abbrev pub overridden : Option Text → Option Text → Option Text
overridden none old = old
overridden (some v) old = value_of v

same_key : (k : String) → str_eq k k ≡ true
same_key k = (eq_iff k k).1 refl

swapped : (j k : String) → str_eq j k ≡ false → str_eq k j ≡ false
swapped j k h = elim (Bool-cases (str_eq k j)) [
  | inl e ↦ e ∙ (sym (same_key j) ∙ subst (λ x. str_eq j x ≡ false) ((eq_iff k j).0 e) h)
  | inr e ↦ e
]

from_rows-deleted : (k : String) (rows : List ConfigRow) → from_rows (delete_row k rows) k ≡ none
from_rows-deleted k [] = refl
from_rows-deleted k (r ∷ rs) = elim (Bool-cases (str_eq r.key k)) [
  | inl e ↦ rw (delete_row, e) (from_rows-deleted k rs)
  | inr e ↦ rw (delete_row, e) (rw (from_rows-deleted k rs, e) refl)
]

from_rows-upserted :
    (k : String) (v : Text) (now : ℕ) (rows : List ConfigRow)
    → IsKeyed rows
    → from_rows (upsert_row k v now rows) k ≡ some v
from_rows-upserted k v now [] h = rw (same_key k) refl
from_rows-upserted k v now (r ∷ rs) h = elim (Bool-cases (str_eq r.key k)) [
  | inl e ↦
      rw (upsert_row, e)
        (rw (subst (λ x. from_rows rs x ≡ none) ((eq_iff r.key k).0 e) h.0, same_key k) refl)
  | inr e ↦ rw (upsert_row, e) (rw (from_rows-upserted k v now rs h.1) refl)
]

from_rows-write_entry :
    (k : String) (v : Text) (now : ℕ) (rows : List ConfigRow)
    → IsKeyed rows
    → from_rows (write_entry now (k, v) rows) k ≡ value_of v
from_rows-write_entry k v now rows h = elim (Bool-cases (is_empty v)) [
  | inl e ↦ rw (write_entry, e) (from_rows-deleted k rows)
  | inr e ↦ rw (write_entry, e) (from_rows-upserted k v now rows h)
]

deleted_absent :
    (j k : String) (rows : List ConfigRow)
    → from_rows rows k ≡ none
    → from_rows (delete_row j rows) k ≡ none
deleted_absent j k rows h = elim (Bool-cases (str_eq j k)) [
  | inl e ↦
      subst (λ x. from_rows (delete_row x rows) k ≡ none) (sym ((eq_iff j k).0 e))
        (from_rows-deleted k rows)
  | inr e ↦ from_rows-delete_row j k rows e ∙ h
]

delete_row-IsKeyed :
    (j : String) (rows : List ConfigRow) → IsKeyed rows → IsKeyed (delete_row j rows)
delete_row-IsKeyed j [] h = tt
delete_row-IsKeyed j (r ∷ rs) h = elim (Bool-cases (str_eq r.key j)) [
  | inl e ↦ rw (delete_row, e) (delete_row-IsKeyed j rs h.1)
  | inr e ↦ rw (delete_row, e) (deleted_absent j r.key rs h.0, delete_row-IsKeyed j rs h.1)
]

upsert_row-IsKeyed :
    (j : String) (v : Text) (now : ℕ) (rows : List ConfigRow)
    → IsKeyed rows
    → IsKeyed (upsert_row j v now rows)
upsert_row-IsKeyed j v now [] h = (refl, tt)
upsert_row-IsKeyed j v now (r ∷ rs) h = elim (Bool-cases (str_eq r.key j)) [
  | inl e ↦ rw (upsert_row, e) (subst (λ x. from_rows rs x ≡ none) ((eq_iff r.key j).0 e) h.0, h.1)
  | inr e ↦
      rw (upsert_row, e)
        (
          from_rows-upsert_row j r.key v now rs (swapped r.key j e) ∙ h.0,
          upsert_row-IsKeyed j v now rs h.1,
        )
]

pub write_entry-IsKeyed :
    (e : String × Text) (now : ℕ) (rows : List ConfigRow)
    → IsKeyed rows
    → IsKeyed (write_entry now e rows)
write_entry-IsKeyed (j, v) now rows h = elim (Bool-cases (is_empty v)) [
  | inl e ↦ rw (write_entry, e) (delete_row-IsKeyed j rows h)
  | inr e ↦ rw (write_entry, e) (upsert_row-IsKeyed j v now rows h)
]

pub entry_of-Lacks : (k : String) (es : List (String × Text)) → Lacks k es → entry_of k es ≡ none
entry_of-Lacks k [] h = refl
entry_of-Lacks k (e ∷ es) h = rw (h.0) (entry_of-Lacks k es h.1)

from_rows-written :
    (es : List (String × Text)) (k : String) (now : ℕ) (rows : List ConfigRow)
    → IsKeyed rows
    → IsObject es
    → from_rows (written now es rows) k ≡ overridden (entry_of k es) (from_rows rows k)
from_rows-written [] k now rows h d = refl
from_rows-written ((j, v) ∷ es) k now rows h d =
    let next =
      from_rows-written es k now (write_entry now (j, v) rows)
        (write_entry-IsKeyed (j, v) now rows h) d.1 in
    elim (Bool-cases (str_eq j k)) [
      | inl e ↦
          let same = (eq_iff j k).0 e in
          next
          ∙ rw (e, entry_of-Lacks k es (subst (λ x. Lacks x es) same d.0))
              (subst (λ x. from_rows (write_entry now (j, v) rows) x ≡ value_of v) same
                (from_rows-write_entry j v now rows h))
      | inr e ↦ next ∙ rw (e, write_entry-kept (j, v) k now rows e) refl
    ]

save_entries-written :
    (es : List (String × Text)) (now : ℕ) (rows : List ConfigRow)
    → save_entries now es (rows, []) ≡ (some tt, written now es rows, [])
unfolding save_entries
save_entries-written [] now rows = refl
save_entries-written (e ∷ es) now rows = save_entries-written es now (write_entry now e rows)

-- If no statement throws and the body has an allowed key with a text, the answer lists those keys, and the
-- table, read as a map, is the one before with these entries put over it, where an empty text removes the
-- key. The table has its primary key, and the keys of the body differ.
pub put_config_saved :
    (body : List (String × Option Text)) (e : String × Text) (es : List (String × Text)) (now : ℕ)
    (rows : List ConfigRow)
    → IsKeyed rows
    → IsObject (e ∷ es)
    → valid_entries body ≡ e ∷ es
    → ((put_config (some body) now (rows, [])).0 ≡ config_saved (map (λ x. x.0) (e ∷ es)))
      × ((k : String)
          → from_rows (put_config (some body) now (rows, [])).1 k
            ≡ overridden (entry_of k (e ∷ es)) (from_rows rows k))
unfolding put_config
put_config_saved body e es now rows h d valid = rw (valid) (
    rw (save_valid, save_entries-written (e ∷ es) now rows)
      (refl, λ k. from_rows-written (e ∷ es) k now rows h d))
