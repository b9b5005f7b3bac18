-- ===== src/Settings/Service.antt =====
-- settings.ts: what the settings page relies on, as an interface, and the routes that provide it. A body
-- arrives as it was sent, and a reload sees the table that the save before it left.
use pumpy_v.Common.{
  ℕ, String, ◌≡◌, refl, sym, ap, subst, ◌∙◌, inl, inr, Bool, true, false, Option, none, some, List,
  [], ◌∷◌, map, any, if◌then◌else◌, Bool-cases, str_eq, eq_iff,
}
use pumpy_v.Text.{Text}
use pumpy_v.Settings.{Env, ConfigRow, from_rows, merged, get_config}
use pumpy_v.Settings.Catalogue.{allowed_config_keys, is_allowed}
use pumpy_v.Settings.Config.{valid_entries, save_entries, save_valid, put_config}
use pumpy_v.Settings.Saving.{AllAllowed, differ, saved_rows}
use pumpy_v.Settings.Table.{
  IsKeyed, IsObject, entry_of, value_of, overridden, put_config_saved, write_entry-IsKeyed,
}

-- `v ?? e`
abbrev pub or_env : Option Text → Option Text → Option Text
or_env none e = e
or_env (some v) e = some v

-- The object that a list of entries is read as.
abbrev pub config_map : List (String × Text) → Env
config_map es k = entry_of k es

entry_here :
    (k : String) (o p : Option Text) (rest : List (String × Text)) (j : String)
    → str_eq j k ≡ true
    → entry_of k
        (elim o [ some v ↦ (j, v) ∷ rest | none ↦ elim p [ some v ↦ (j, v) ∷ rest | none ↦ rest ] ])
      ≡ or_env (or_env o p) (entry_of k rest)
entry_here k (some v) p rest j e = rw e refl
entry_here k none (some v) rest j e = rw e refl
entry_here k none none rest j e = refl

entry_elsewhere :
    (k : String) (o p : Option Text) (rest : List (String × Text)) (j : String)
    → str_eq j k ≡ false
    → entry_of k
        (elim o [ some v ↦ (j, v) ∷ rest | none ↦ elim p [ some v ↦ (j, v) ∷ rest | none ↦ rest ] ])
      ≡ entry_of k rest
entry_elsewhere k (some v) p rest j e = rw e refl
entry_elsewhere k none (some v) rest j e = rw e refl
entry_elsewhere k none none rest j e = refl

again : (o : Option Text) (b : Bool) → or_env o (if b then o else none) ≡ o
again (some v) b = refl
again none true = refl
again none false = refl

pub entry_of-merged :
    (env config : Env) (k : String) (ks : List String)
    → entry_of k (merged env config ks)
      ≡ (if any (λ j. str_eq j k) ks then or_env (config k) (env k) else none)
entry_of-merged env config k [] = refl
entry_of-merged env config k (j ∷ ks) = elim (Bool-cases (str_eq j k)) [
  | inl e ↦
      subst
        (λ x.
          entry_of k (merged env config (j ∷ ks))
          ≡ or_env (or_env (config x) (env x)) (entry_of k (merged env config ks)))
        ((eq_iff j k).0 e) (entry_here k (config j) (env j) (merged env config ks) j e)
      ∙ rw (entry_of-merged env config k ks, e)
          (again (or_env (config k) (env k)) (any (λ i. str_eq i k) ks))
  | inr e ↦
      entry_elsewhere k (config j) (env j) (merged env config ks) j e
      ∙ rw (e) (entry_of-merged env config k ks)
]

-- The body as the server reads it: each value is a text.
abbrev pub present : List (String × Text) → List (String × Option Text)
present = map (λ e. (e.0, some e.1))

-- What a reload answers for a key: the saved text, unless it was empty, and else what it answered before or
-- the fallback.
abbrev pub served : Option Text → Option Text → Option Text → Option Text
served none fallback old = old
served (some v) fallback old = or_env (value_of v) fallback

-- The configuration that the settings page saves and reloads.
pub record ConfigService : Type 1 where
  pub Store : Type 0
  pub save : List (String × Text) → Store → Store
  pub load : Store → Env
  pub fallback : Env
  -- what is kept for each key
  pub stored : Store → Env
  pub stored-save :
      (es : List (String × Text)) (s : Store) (k : String)
      → IsObject es
      → AllAllowed es
      → stored (save es s) k ≡ overridden (entry_of k es) (stored s k)
  pub load-save :
      (es : List (String × Text)) (s : Store) (k : String)
      → IsObject es
      → AllAllowed es
      → load (save es s) k ≡ served (entry_of k es) (fallback k) (load s k)

save_entries-IsKeyed :
    (now : ℕ) (es : List (String × Text)) (rows : List ConfigRow) (fs : List Bool)
    → IsKeyed rows
    → IsKeyed (save_entries now es (rows, fs)).1
unfolding save_entries
save_entries-IsKeyed now [] rows fs h = h
save_entries-IsKeyed now (e ∷ es) rows [] h =
    save_entries-IsKeyed now es _ [] (write_entry-IsKeyed e now rows h)
save_entries-IsKeyed now (e ∷ es) rows (false ∷ fs) h =
    save_entries-IsKeyed now es _ fs (write_entry-IsKeyed e now rows h)
save_entries-IsKeyed now (e ∷ es) rows (true ∷ fs) h = h

save_valid-IsKeyed :
    (now : ℕ) (es : List (String × Text)) (rows : List ConfigRow) (fs : List Bool)
    → IsKeyed rows
    → IsKeyed (save_valid now es (rows, fs)).1
save_valid-IsKeyed now [] rows fs h = h
save_valid-IsKeyed now (e ∷ es) rows fs h =
    subst IsKeyed (sym (saved_rows (e ∷ es) (save_entries now (e ∷ es) (rows, fs))))
      (save_entries-IsKeyed now (e ∷ es) rows fs h)

-- Whatever the body and whichever statements throw, no key gets a second row.
pub put_config-IsKeyed :
    (body : Option (List (String × Option Text))) (now : ℕ) (rows : List ConfigRow) (fs : List Bool)
    → IsKeyed rows
    → IsKeyed (put_config body now (rows, fs)).1
unfolding put_config
put_config-IsKeyed none now rows fs h = h
put_config-IsKeyed (some body) now rows fs h = save_valid-IsKeyed now (valid_entries body) rows fs h

valid_entries-present :
    (es : List (String × Text)) → AllAllowed es → valid_entries (present es) ≡ es
valid_entries-present [] h = refl
valid_entries-present (e ∷ es) h = rw (h.0, valid_entries-present es h.1) refl

entry_of-not_allowed :
    (es : List (String × Text)) (k : String)
    → AllAllowed es
    → is_allowed k ≡ false
    → entry_of k es ≡ none
entry_of-not_allowed [] k h n = refl
entry_of-not_allowed (e ∷ es) k h n = rw (differ e.0 k h.0 n) (entry_of-not_allowed es k h.1 n)

served_here : (o old p : Option Text) → or_env (overridden o old) p ≡ served o p (or_env old p)
served_here none old p = refl
served_here (some v) old p = refl

module _ (env : Env) (now : ℕ) where
  -- A table with its primary key.
  abbrev pub Table : Type 0
  Table = (rows : List ConfigRow) × IsKeyed rows

  abbrev pub put_object : List (String × Text) → Table → Table
  put_object es t = (
    (put_config (some (present es)) now (t.0, [])).1,
    put_config-IsKeyed (some (present es)) now t.0 [] t.1,
  )

  abbrev pub get_object : Table → Env
  get_object t = config_map (get_config env (t.0, []))

  get_object_lem :
      (t : Table) (k : String)
      → get_object t k ≡ (if is_allowed k then or_env (from_rows t.0 k) (env k) else none)
  unfolding get_config
  get_object_lem t k = entry_of-merged env (from_rows t.0) k allowed_config_keys

  pub from_rows-put_object :
      (es : List (String × Text)) (t : Table) (k : String)
      → IsObject es
      → AllAllowed es
      → from_rows (put_object es t).0 k ≡ overridden (entry_of k es) (from_rows t.0 k)
  unfolding put_config
  from_rows-put_object [] t k o a = refl
  from_rows-put_object (e ∷ es) t k o a =
      (put_config_saved (present (e ∷ es)) e es now t.0 t.1 o (valid_entries-present (e ∷ es) a)).1
        k

  -- For a body whose keys differ and are all allowed: after it is saved, a reload
  -- answers for each of its keys the saved text, or if that text is empty the
  -- value of the environment, and for every other key what it answered before.
  pub get_object-put_object :
      (es : List (String × Text)) (t : Table) (k : String)
      → IsObject es
      → AllAllowed es
      → get_object (put_object es t) k ≡ served (entry_of k es) (env k) (get_object t k)
  get_object-put_object es t k o a =
      get_object_lem (put_object es t) k ∙ elim (Bool-cases (is_allowed k)) [
        | inl h ↦
            rw
              (
                h,
                from_rows-put_object es t k o a,
                served_here (entry_of k es) (from_rows t.0 k) (env k),
              )
              (ap (served (entry_of k es) (env k)) (sym (get_object_lem t k ∙ rw (h) refl)))
        | inr h ↦ rw (h, entry_of-not_allowed es k a h) (sym (get_object_lem t k ∙ rw (h) refl))
      ]

  -- The routes of the server are such a service.
  abbrev pub settings_service : ConfigService
  settings_service = record {
    Store = Table;
    save = put_object;
    load = get_object;
    fallback = env;
    stored = λ t. from_rows t.0;
    stored-save = from_rows-put_object;
    load-save = get_object-put_object;
  }
