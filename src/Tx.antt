-- ===== src/Tx.antt =====
-- Statements and transactions over a database of type `D`. A list of Booleans says which of the
-- statements to come throw (`true`); past its end none does. The driver's part is taken as
-- documented: a statement that throws changes nothing, and a transaction whose callback or whose
-- commit throws rolls back.
use pumpy_v.Common.{Bool, true, false, Option, none, some, List, [], ◌∷◌}

-- What a run leaves: the result, `none` if it threw, the database, and the faults still to come.
abbrev pub Run : Type 0 → Type 0 → Type 0
Run D A = Option A × D × List Bool

abbrev pub Tx : Type 0 → Type 0 → Type 0
Tx D A = D × List Bool → Run D A

abbrev pub pure : {D A : Type 0} → A → Tx D A
pure a (d, fs) = (some a, d, fs)

abbrev pub resume_with : {D A B : Type 0} → (A → Tx D B) → Run D A → Run D B
resume_with f (none, d, fs) = (none, d, fs)
resume_with f (some a, d, fs) = f a (d, fs)

infixl 5 ◌>>=◌ ◌>>◌
abbrev pub ◌>>=◌ : {D A B : Type 0} → Tx D A → (A → Tx D B) → Tx D B
◌>>=◌ m f s = resume_with f (m s)

abbrev pub ◌>>◌ : {D A B : Type 0} → Tx D A → Tx D B → Tx D B
m >> k = m >>= λ _. k

abbrev pub statement : {D A : Type 0} → (D → A × D) → Tx D A
statement f (d, []) = (some (f d).0, (f d).1, [])
statement f (d, false ∷ fs) = (some (f d).0, (f d).1, fs)
statement f (d, true ∷ fs) = (none, d, fs)

abbrev pub rolled_back : {D A : Type 0} → D → Run D A → Run D A
rolled_back d (none, _, fs) = (none, d, fs)
rolled_back d (some a, d', fs) = (some a, d', fs)

-- `db.transaction`: the callback, then the commit.
abbrev pub transaction : {D A : Type 0} → Tx D A → Tx D A
transaction m (d, fs) = rolled_back d ((m >>= λ a. statement (λ d'. (a, d'))) (d, fs))
