-- ===== src/Preview/Tests.antt =====
-- App.tsx: two paths of which the first answers last, and a preview below a base address.
use pumpy_v.Common.{
  ℕ, ◌≡◌, refl, true, Option, none, some, List, [], ◌∷◌, codes, if◌then◌else◌, length, ◌⊎◌,
}
use pumpy_v.Text.{Text, same}
use pumpy_v.Preview.{
  Values, Answer, loaded, Event, navigates, answers, run, mount, step, navigate, blank,
  resolve_component,
}
use pumpy_v.Preview.Loads.{live, shows, run-mount-shows}

-- Exports are numbers, all of them functions.
abbrev numbers : Values ℕ
numbers = record { is_function = λ v. true; truthy = λ v. true }

abbrev modules : Text → Option (Answer ℕ)
modules path =
    if same path (codes "a")
    then some (loaded ((codes "x", 1) ∷ (codes "a", 2) ∷ []))
    else if same path (codes "b")
    then some (loaded ((codes "x", 3) ∷ (codes "y", 4) ∷ []))
    else none

-- The load of "b" answers before the one of "a".
abbrev crossed : List Event
crossed = navigates (codes "b") ∷ answers 0 ∷ answers 0 ∷ []

second_shown :
    (run numbers modules crossed (mount numbers modules (codes "a"))).view.component ≡ some 4
unfolding run step navigate mount resolve_component
second_shown = refl

run-mount-shows_example :
    let r = run numbers modules crossed (mount numbers modules (codes "a")) in
    ((length (live numbers modules r.loads) ≡ 0) × (r.view ≡ shows numbers modules r.path))
    ⊎ ((length (live numbers modules r.loads) ≡ 1) × (r.view ≡ blank))
run-mount-shows_example = run-mount-shows numbers modules (codes "a") crossed
