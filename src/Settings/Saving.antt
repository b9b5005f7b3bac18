-- ===== src/Settings/Saving.antt =====
-- settings.ts: what PUT /settings/config changes, and what a failure part-way leaves.
use pumpy_v.Common.{
  ℕ, String, ◌≡◌, refl, sym, ap, subst, ◌∙◌, inl, inr, Bool, true, false, Option, none, some, List,
  [], ◌∷◌, ◌++◌, replicate, length, if◌then◌else◌, Bool-cases, str_eq, eq_iff, is_some,
}
use pumpy_v.Text.{Text, is_empty}
use pumpy_v.Settings.{ConfigRow, from_rows}
use pumpy_v.Settings.Config.{
  delete_row, upsert_row, write_entry, save_entries, valid_entries, saved, save_valid, put_config,
  error,
}
use pumpy_v.Settings.Catalogue.{is_allowed}

abbrev pub AllAllowed : List (String × Text) → Type 0
AllAllowed [] = Unit {0}
AllAllowed (e ∷ es) = (is_allowed e.0 ≡ true) × AllAllowed es

pub valid_entries-AllAllowed :
    (body : List (String × Option Text)) → AllAllowed (valid_entries body)
valid_entries-AllAllowed [] = tt
valid_entries-AllAllowed ((k, none) ∷ es) = valid_entries-AllAllowed es
valid_entries-AllAllowed ((k, some v) ∷ es) = elim (Bool-cases (is_allowed k)) [
  | inl h ↦ rw (valid_entries, h) (h, valid_entries-AllAllowed es)
  | inr h ↦ rw (valid_entries, h) (valid_entries-AllAllowed es)
]

or_none : (o : Option Text) → o ≡ (if is_some o then o else none)
or_none none = refl
or_none (some v) = refl

moved : (i j k : String) → str_eq i j ≡ true → str_eq j k ≡ false → str_eq i k ≡ false
moved i j k e h = subst (λ x. str_eq x k ≡ false) (sym ((eq_iff i j).0 e)) h

pub from_rows-delete_row :
    (j k : String) (rows : List ConfigRow)
    → str_eq j k ≡ false
    → from_rows (delete_row j rows) k ≡ from_rows rows k
from_rows-delete_row j k [] h = refl
from_rows-delete_row j k (r ∷ rs) h = elim (Bool-cases (str_eq r.key j)) [
  | inl e ↦ rw (e, moved r.key j k e h) (from_rows-delete_row j k rs h ∙ or_none (from_rows rs k))
  | inr e ↦ rw (delete_row, e) (rw (from_rows-delete_row j k rs h) refl)
]

pub from_rows-upsert_row :
    (j k : String) (v : Text) (now : ℕ) (rows : List ConfigRow)
    → str_eq j k ≡ false
    → from_rows (upsert_row j v now rows) k ≡ from_rows rows k
from_rows-upsert_row j k v now [] h = rw h refl
from_rows-upsert_row j k v now (r ∷ rs) h = elim (Bool-cases (str_eq r.key j)) [
  | inl e ↦ rw (e, h, moved r.key j k e h) refl
  | inr e ↦ rw (upsert_row, e) (rw (from_rows-upsert_row j k v now rs h) refl)
]

pub differ : (j k : String) → is_allowed j ≡ true → is_allowed k ≡ false → str_eq j k ≡ false
differ j k hj hk = elim (Bool-cases (str_eq j k)) [
  | inl e ↦ e ∙ (sym hj ∙ subst (λ x. is_allowed x ≡ false) (sym ((eq_iff j k).0 e)) hk)
  | inr e ↦ e
]

pub write_entry-kept :
    (e : String × Text) (k : String) (now : ℕ) (rows : List ConfigRow)
    → str_eq e.0 k ≡ false
    → from_rows (write_entry now e rows) k ≡ from_rows rows k
write_entry-kept (j, v) k now rows h = elim (Bool-cases (is_empty v)) [
  | inl he ↦ rw (write_entry, he) (from_rows-delete_row j k rows h)
  | inr he ↦ rw (write_entry, he) (from_rows-upsert_row j k v now rows h)
]

save_kept :
    (es : List (String × Text)) (k : String) (now : ℕ) (rows : List ConfigRow) (fs : List Bool)
    → AllAllowed es
    → is_allowed k ≡ false
    → from_rows (save_entries now es (rows, fs)).1 k ≡ from_rows rows k
unfolding save_entries
save_kept [] k now rows fs h hk = refl
save_kept (e ∷ es) k now rows [] h hk =
    save_kept es k now (write_entry now e rows) [] h.1 hk
    ∙ write_entry-kept e k now rows (differ e.0 k h.0 hk)
save_kept (e ∷ es) k now rows (false ∷ fs) h hk =
    save_kept es k now (write_entry now e rows) fs h.1 hk
    ∙ write_entry-kept e k now rows (differ e.0 k h.0 hk)
save_kept (e ∷ es) k now rows (true ∷ fs) h hk = refl

pub saved_rows :
    (es : List (String × Text)) (r : Option (Unit {0}) × List ConfigRow × List Bool)
    → (saved es r).1 ≡ r.1
saved_rows es (none, rows, fs) = refl
saved_rows es (some u, rows, fs) = refl

save_valid_kept :
    (es : List (String × Text)) (k : String) (now : ℕ) (rows : List ConfigRow) (fs : List Bool)
    → AllAllowed es
    → is_allowed k ≡ false
    → from_rows (save_valid now es (rows, fs)).1 k ≡ from_rows rows k
save_valid_kept [] k now rows fs h hk = refl
save_valid_kept (e ∷ es) k now rows fs h hk =
    ap (λ rs. from_rows rs k) (saved_rows (e ∷ es) (save_entries now (e ∷ es) (rows, fs)))
    ∙ save_kept (e ∷ es) k now rows fs h hk

-- Whatever the body asks for and whichever statements fail, the value of a key outside the
-- allowed list stays what it was.
pub put_config_allowed :
    (body : Option (List (String × Option Text))) (k : String) (now : ℕ) (rows : List ConfigRow)
    (fs : List Bool)
    → is_allowed k ≡ false
    → from_rows (put_config body now (rows, fs)).1 k ≡ from_rows rows k
unfolding put_config
put_config_allowed none k now rows fs hk = refl
put_config_allowed (some body) k now rows fs hk =
    save_valid_kept (valid_entries body) k now rows fs (valid_entries-AllAllowed body) hk

-- The table after the writes of some entries.
abbrev pub written : ℕ → List (String × Text) → List ConfigRow → List ConfigRow
written now [] rows = rows
written now (e ∷ es) rows = written now es (write_entry now e rows)

save_fault :
    (done : List (String × Text)) (e : String × Text) (rest : List (String × Text)) (now : ℕ)
    (rows : List ConfigRow) (fs : List Bool)
    → save_entries now (done ++ e ∷ rest) (rows, replicate (length done) false ++ true ∷ fs)
      ≡ (none, written now done rows, fs)
unfolding save_entries
save_fault [] e rest now rows fs = refl
save_fault (d ∷ done) e rest now rows fs = save_fault done e rest now (write_entry now d rows) fs

save_valid_fault :
    (done : List (String × Text)) (e : String × Text) (rest : List (String × Text)) (now : ℕ)
    (rows : List ConfigRow) (fs : List Bool)
    → save_valid now (done ++ e ∷ rest) (rows, replicate (length done) false ++ true ∷ fs)
      ≡ (error 500 "Failed to save config", written now done rows, fs)
save_valid_fault [] e rest now rows fs = ap (saved (e ∷ rest)) (save_fault [] e rest now rows fs)
save_valid_fault (d ∷ done) e rest now rows fs =
    ap (saved (d ∷ done ++ e ∷ rest)) (save_fault (d ∷ done) e rest now rows fs)

-- If the statements of the first valid entries succeed and the next one throws, the answer is 500, and
-- the entries before it stay written while it and those after it are not: the update is not atomic.
pub put_config_fault :
    (body : List (String × Option Text)) (done : List (String × Text)) (e : String × Text)
    (rest : List (String × Text)) (now : ℕ) (rows : List ConfigRow) (fs : List Bool)
    → valid_entries body ≡ done ++ e ∷ rest
    → put_config (some body) now (rows, replicate (length done) false ++ true ∷ fs)
      ≡ (error 500 "Failed to save config", written now done rows, fs)
unfolding put_config
put_config_fault body done e rest now rows fs h =
    rw (put_config, h) (save_valid_fault done e rest now rows fs)
