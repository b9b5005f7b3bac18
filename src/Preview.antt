-- ===== src/Preview.antt =====
-- artifacts/mockup-sandbox/src/App.tsx: which component a preview shows. `V` is the type of exported values. A dynamic import
-- that is under way is part of the state, and its answer is an event; what the import of a path answers
-- depends on the path alone.
pub mod Loads
pub mod Paths
mod Tests
use pumpy_v.Common.{
  ℕ, zero, suc, String, Bool, true, false, Option, none, some, List, [], ◌∷◌, ◌++◌, if◌then◌else◌,
  ◌&&◌, not, ◌==◌, ◌||◌, codes, keep, map, any, is_some, length,
}
use pumpy_v.Text.{Text, is_empty, same, starts_with, ends_with, split, drop}

-- A module: its exports in their order.
abbrev pub Module : Type 0 → Type 0
Module V = List (Text × V)

pub record Values (V : Type 0) : Type 0 where
  pub is_function : V → Bool
  pub truthy : V → Bool

abbrev export_of : {V : Type 0} → Text → Module V → Option V
export_of k [] = none
export_of k ((j, v) ∷ m) = let later = export_of k m in if same j k then some v else later

abbrev last : {A : Type 0} → List A → Option A
last [] = none
last (x ∷ []) = some x
last (x ∷ y ∷ ys) = last (y ∷ ys)

-- `a || b`
abbrev or_value : {V : Type 0} → Values V → Option V → Option V → Option V
or_value vs none b = b
or_value vs (some a) b = if vs.truthy a then some a else b

unfoldable pub resolve_component : {V : Type 0} → Values V → Module V → Text → Option V
resolve_component vs m name = or_value vs (export_of (codes "default") m) (
    or_value vs (export_of (codes "Preview") m)
      (or_value vs (export_of name m) (last (keep vs.is_function (map (λ e. e.1) m)))))

-- What the loader of a path answers: its module, or the message of the error it rejects with.
pub data Answer (V : Type 0) : Type 0 where
  loaded : Module V → Answer V
  rejected : Text → Answer V

pub record View (V : Type 0) : Type 0 where
  pub component : Option V
  pub error : Option Text

-- A load of a path, the effect that began it, its flag `cancelled`, and what its loader will answer.
pub data Load (V : Type 0) : Type 0 where
  load : Text → ℕ → Bool → Answer V → Load V

pub record Renderer (V : Type 0) : Type 0 where
  pub path : Text
  pub effect : ℕ
  pub view : View V
  pub loads : List (Load V)

abbrev pub blank : {V : Type 0} → View V
blank = record { component = none; error = none }

abbrev failed : {V : Type 0} → Text → View V
failed message = record { component = none; error = some message }

-- `componentPath.split("/").pop()`
abbrev last_segment : Text → Text
last_segment path = elim (last (split b'/' path)) [ none ↦ [] | some s ↦ s ]

pub data Event : Type 0 where
  -- the renderer gets another path
  navigates : Text → Event
  -- the load at a position of the list answers
  answers : ℕ → Event

-- The load at a position, and the others.
abbrev pub pick : {V : Type 0} → ℕ → List (Load V) → Option (Load V × List (Load V))
pick n [] = none
pick zero (l ∷ ls) = some (l, ls)
pick (suc n) (l ∷ ls) = elim (pick n ls) [ none ↦ none | some (x, rest) ↦ some (x, l ∷ rest) ]

-- The clean-up of an effect.
abbrev pub cancel : {V : Type 0} → ℕ → List (Load V) → List (Load V)
cancel e [] = []
cancel e (load p i c a ∷ ls) = load p i (c || i == e) a ∷ cancel e ls

abbrev pub no_component : {V : Type 0} → Text → View V
no_component path = failed (codes "No component found at " ++ path ++ codes ".tsx")

module _ {V : Type 0} (vs : Values V) (modules : Text → Option (Answer V)) where
  abbrev resolved : Text → Option V → View V
  resolved path none = failed (
      codes "No exported React component found in "
      ++ path
      ++ codes ".tsx\n\nMake sure the file has at least one exported function component.")
  resolved path (some comp) = record { component = some comp; error = none }

  -- What a load leads to.
  abbrev pub outcome : Text → Answer V → View V
  outcome path (loaded m) = resolved path (resolve_component vs m (last_segment path))
  outcome path (rejected message) = failed (codes "Failed to load preview.\n" ++ message)

  -- `loadComponent` up to its `await`: without a loader there is nothing to wait for.
  abbrev pub begun : Text → ℕ → Option (Answer V) → List (Load V) → Renderer V
  begun path e none ls = record { path = path; effect = e; view = no_component path; loads = ls }
  begun path e (some a) ls = record {
    path = path;
    effect = e;
    view = blank;
    loads = load path e false a ∷ ls;
  }

  unfoldable pub mount : Text → Renderer V
  mount path = begun path 0 (modules path) []

  -- The clean-up of the last effect, and the effect for the new path.
  unfoldable pub navigate : Text → Renderer V → Renderer V
  navigate path r = begun path (suc r.effect) (modules path) (cancel r.effect r.loads)

  -- The rest of `loadComponent`, which stops if its effect is cancelled.
  abbrev pub finish : Option (Load V × List (Load V)) → Renderer V → Renderer V
  finish none r = r
  finish (some (load path e true a, rest)) r = record r { loads = rest }
  finish (some (load path e false a, rest)) r = record r { view = outcome path a; loads = rest }

  unfoldable pub step : Event → Renderer V → Renderer V
  unfolding navigate
  step (navigates path) r = navigate path r
  step (answers n) r = finish (pick n r.loads) r

  unfoldable pub run : List Event → Renderer V → Renderer V
  unfolding step
  run [] r = r
  run (e ∷ es) r = run es (step e r)

-- `import.meta.env.BASE_URL.replace(/\/$/, "")`
abbrev pub without_slash : Text → Text
without_slash [] = []
without_slash (c ∷ []) = if c == b'/' then [] else c ∷ []
without_slash (c ∷ d ∷ s) = c ∷ without_slash (d ∷ s)

unfoldable pub get_base_path : Text → Text
get_base_path base_url = without_slash base_url

abbrev pub is_line_end : ℕ → Bool
is_line_end c = c == 10 || c == 13 || c == 0x2028 || c == 0x2029

-- The match of `(.+)$`.
abbrev pub rest_of : Text → Option Text
rest_of s = if is_empty s || any is_line_end s then none else some s

abbrev pub or_slash : Text → Text
or_slash s = if is_empty s then codes "/" else s

unfoldable pub local_path : Text → Text → Text
local_path base pathname =
    if not (is_empty base) && starts_with pathname base
    then or_slash (drop (length base) pathname)
    else pathname

unfoldable pub get_preview_path : Text → Text → Option Text
unfolding get_base_path local_path
get_preview_path base_url pathname =
    let local = local_path (get_base_path base_url) pathname in
    if starts_with local (codes "/preview/") then rest_of (drop 9 local) else none
