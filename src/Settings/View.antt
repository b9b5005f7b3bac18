-- ===== src/Settings/View.antt =====
-- settings.ts: the configuration without the order of its rows and their times. Two stores that keep the same for every key
-- are one view, saving is an operation on views, and a view decides what the routes answer.
use mathlib.Core.Quot
use mathlib.Core.Quot.{Quot, Quot-set}
use pumpy_v.Common.{
  ℕ, String, ◌≡◌, refl, sym, ap, ◌∙◌, ◌⊎◌, inl, inr, Option, none, some, List, [], ◌∷◌, Bool-cases,
  All, arith, str_eq, eq_iff, subst,
}
use pumpy_v.Text.{Text}
use pumpy_v.Settings.{Outside, Env, from_rows, get_config, get_status, merged, full_status}
use pumpy_v.Settings.Catalogue.{allowed_config_keys}
use pumpy_v.Settings.Saving.{AllAllowed}
use pumpy_v.Settings.Table.{IsObject, Lacks, entry_of, entry_of-Lacks, overridden}
use pumpy_v.Settings.Service.{ConfigService, settings_service, Table}

-- A body that is saved as it stands: its keys differ and are allowed.
abbrev pub Body : Type 0
Body = (es : List (String × Text)) × IsObject es × AllAllowed es

-- No key of the one body is a key of the other.
abbrev pub Apart : List (String × Text) → List (String × Text) → Type 0
Apart es gs = All (λ e. Lacks e.0 gs) es

abbrev OneNone : Option Text → Option Text → Type 0
OneNone o p = (o ≡ none) ⊎ (p ≡ none)

entry_of-Apart :
    (es gs : List (String × Text)) (k : String)
    → Apart es gs
    → OneNone (entry_of k es) (entry_of k gs)
entry_of-Apart [] gs k h = inl refl
entry_of-Apart (e ∷ es) gs k h = elim (Bool-cases (str_eq e.0 k)) [
  | inl b ↦ inr (entry_of-Lacks k gs (subst (λ j. Lacks j gs) ((eq_iff e.0 k).0 b) h.0))
  | inr b ↦ rw (b) (entry_of-Apart es gs k h.1)
]

overridden_comm :
    (o p old : Option Text)
    → OneNone o p
    → overridden o (overridden p old) ≡ overridden p (overridden o old)
overridden_comm none p old h = refl
overridden_comm (some v) none old h = refl
overridden_comm (some v) (some w) old h = elim h [ inl e ↦ ground arith | inr e ↦ ground arith ]

overridden_again : (o old : Option Text) → overridden o (overridden o old) ≡ overridden o old
overridden_again none old = refl
overridden_again (some v) old = refl

module _ (service : ConfigService) where
  open service use {Store, save, stored, stored-save}

  -- The same is kept for every key.
  abbrev pub StoredAlike : Store → Store → Type 0
  StoredAlike s t = (k : String) → stored s k ≡ stored t k

  abbrev pub View : Type 0
  View = Quot StoredAlike

  abbrev pub view : Store → View
  view = Quot.mk

  unfoldable pub stored_view : String → View → Option Text
  stored_view k = Quot.lift (hlevel) (λ s. stored s k) (λ s t h. h k)

  pub save-StoredAlike :
      (b : Body) (s t : Store) → StoredAlike s t → StoredAlike (save b.0 s) (save b.0 t)
  save-StoredAlike b s t h k =
      stored-save b.0 s k b.1 b.2
      ∙ ap (overridden (entry_of k b.0)) (h k)
      ∙ sym (stored-save b.0 t k b.1 b.2)

  unfoldable pub save_view : Body → View → View
  save_view b =
      Quot.lift Quot-set (λ s. view (save b.0 s)) (λ s t h. Quot.sound (save-StoredAlike b s t h))

  twice :
      (a b : Body) (s : Store) (k : String)
      → stored (save a.0 (save b.0 s)) k
        ≡ overridden (entry_of k a.0) (overridden (entry_of k b.0) (stored s k))
  twice a b s k =
      stored-save a.0 (save b.0 s) k a.1 a.2
      ∙ ap (overridden (entry_of k a.0)) (stored-save b.0 s k b.1 b.2)

  -- Stores with one view keep the same for every key.
  pub view-StoredAlike : (s t : Store) → view s ≡ view t → StoredAlike s t
  unfolding stored_view
  view-StoredAlike s t h k = ap (stored_view k) h

  -- Saves of bodies without a common key can be taken in either order: the views are equal.
  pub save_view_comm :
      (a b : Body)
      → Apart a.0 b.0
      → (v : View) → save_view a (save_view b v) ≡ save_view b (save_view a v)
  unfolding save_view
  save_view_comm a b apart =
      Quot.ind (λ _. Quot-set _ _)
        (λ s. Quot.sound (λ k.
          twice a b s k
          ∙ overridden_comm (entry_of k a.0) (entry_of k b.0) (stored s k)
              (entry_of-Apart a.0 b.0 k apart)
          ∙ sym (twice b a s k)))

  -- Saving a body again changes nothing.
  pub save_view_again : (b : Body) (v : View) → save_view b (save_view b v) ≡ save_view b v
  unfolding save_view
  save_view_again b =
      Quot.ind (λ _. Quot-set _ _)
        (λ s. Quot.sound (λ k.
          twice b b s k
          ∙ overridden_again (entry_of k b.0) (stored s k)
          ∙ sym (stored-save b.0 s k b.1 b.2)))

module _ (o : Outside) (env : Env) (now : ℕ) where
  -- GET /settings/config and GET /settings/status answer alike.
  abbrev pub AnswersAlike : Table env now → Table env now → Type 0
  AnswersAlike s t =
      (get_config env (s.0, []) ≡ get_config env (t.0, []))
      × (get_status o env (s.0, []) ≡ get_status o env (t.0, []))

  -- Tables with one view are answered alike by the routes that read them.
  pub view-AnswersAlike :
      (s t : Table env now)
      → view (settings_service env now) s ≡ view (settings_service env now) t
      → AnswersAlike s t
  unfolding get_config get_status
  view-AnswersAlike s t h =
      let alike = view-StoredAlike (settings_service env now) s t h in
      let same : from_rows s.0 ≡ from_rows t.0 = λ i k. alike k i in
      (ap (λ (c : Env). merged env c allowed_config_keys) same, ap (full_status o env) same)
