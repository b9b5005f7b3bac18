-- ===== src/Preview/Loads.antt =====
-- App.tsx: whatever loads are under way, the preview shows the component of its present path.
use pumpy_v.Common.{
  ℕ, zero, suc, ◌≡◌, refl, sym, ap, ◌∙◌, inl, inr, true, false, Option, none, some, List, [], ◌∷◌,
  ◌==◌, All, length, arith, subst, ◌⊎◌,
}
use pumpy_v.Text.{Text}
use pumpy_v.Preview.{
  Values, Answer, View, Load, Renderer, blank, Event, navigates, answers, pick, cancel, outcome,
  no_component, load, begun, mount, navigate, finish, step, run,
}

flagged : (e i : ℕ) → i ≡ e → (i == e) ≡ true
flagged e i h = ground arith

module _ {V : Type 0} (vs : Values V) (modules : Text → Option (Answer V)) where
  -- The loads that were not cancelled.
  abbrev pub live : List (Load V) → List (Load V)
  live [] = []
  live (load p i true a ∷ ls) = live ls
  live (load p i false a ∷ ls) = load p i false a ∷ live ls

  abbrev Is : Text → ℕ → Load V → Type 0
  Is path e (load p i c a) = (p ≡ path) × (i ≡ e) × (modules path ≡ some a)

  live-cancel :
      (path : Text) (e : ℕ) (ls : List (Load V))
      → All (Is path e) (live ls)
      → live (cancel e ls) ≡ []
  live-cancel path e [] h = refl
  live-cancel path e (load p i true a ∷ ls) h = live-cancel path e ls h
  live-cancel path e (load p i false a ∷ ls) h = rw (flagged e i h.0.1) (live-cancel path e ls h.1)

  -- What is known of a load that was picked: a cancelled one leaves the live loads as they were, and
  -- another was one of them.
  abbrev Picked : Text → ℕ → List (Load V) → Option (Load V × List (Load V)) → Type 0
  Picked path e ls none = Unit {0}
  Picked path e ls (some (load p i true a, rest)) = live rest ≡ live ls
  Picked path e ls (some (load p i false a, rest)) =
      (length (live ls) ≡ suc (length (live rest)))
      × (All (Is path e) (live ls) → Is path e (load p i false a) × All (Is path e) (live rest))

  pick_later :
      (path : Text) (e : ℕ) (x : Load V) (ls : List (Load V)) (o : Option (Load V × List (Load V)))
      → Picked path e ls o
      → Picked path e (x ∷ ls) (elim o [ none ↦ none | some (l, rest) ↦ some (l, x ∷ rest) ])
  pick_later path e x ls none h = tt
  pick_later path e (load q j true b) ls (some (load p i true a, rest)) h = h
  pick_later path e (load q j true b) ls (some (load p i false a, rest)) h = h
  pick_later path e (load q j false b) ls (some (load p i true a, rest)) h =
      ap (λ ys. load q j false b ∷ ys) h
  pick_later path e (load q j false b) ls (some (load p i false a, rest)) h =
      (ap suc h.0, λ all. ((h.1 all.1).0, (all.0, (h.1 all.1).1)))

  pick-Picked : (path : Text) (e : ℕ) (n : ℕ) (ls : List (Load V)) → Picked path e ls (pick n ls)
  pick-Picked path e n [] = tt
  pick-Picked path e zero (load p i true a ∷ ls) = refl
  pick-Picked path e zero (load p i false a ∷ ls) = (refl, λ all. all)
  pick-Picked path e (suc n) (l ∷ ls) = pick_later path e l ls (pick n ls) (pick-Picked path e n ls)

  -- What the preview of a path shows in the end.
  abbrev pub shows : Text → View V
  shows path = elim (modules path) [ none ↦ no_component path | some a ↦ outcome vs modules path a ]

  -- The live loads are of the present path and effect; without one the view is final, and with one, the
  -- only one, it is blank.
  record IsCurrent (r : Renderer V) : Type 0 where
    own : All (Is r.path r.effect) (live r.loads)
    state :
        ((length (live r.loads) ≡ 0) × (r.view ≡ shows r.path))
        ⊎ ((length (live r.loads) ≡ 1) × (r.view ≡ blank))

  begun-IsCurrent :
      (path : Text) (e : ℕ) (o : Option (Answer V)) (ls : List (Load V))
      → modules path ≡ o
      → live ls ≡ []
      → IsCurrent (begun vs modules path e o ls)
  begun-IsCurrent path e none ls m h = record {
    own = subst (All (Is path e)) (sym h) tt;
    state = inl (ap length h, rw (shows, m) refl);
  }
  begun-IsCurrent path e (some a) ls m h = record {
    own = ((refl, refl, m), subst (All (Is path e)) (sym h) tt);
    state = inr (ap (λ ys. suc (length ys)) h, refl);
  }

  outcome-shows :
      (path : Text) (a : Answer V) → modules path ≡ some a → outcome vs modules path a ≡ shows path
  outcome-shows path a m = rw (shows, m) refl

  none_left : (r : Renderer V) (n : ℕ) → IsCurrent r → length (live r.loads) ≡ suc n → n ≡ 0
  none_left r n c h = elim c.state [ inl (z, v) ↦ omega arith | inr (z, v) ↦ omega arith ]

  finish-IsCurrent :
      (r : Renderer V) (o : Option (Load V × List (Load V)))
      → Picked r.path r.effect r.loads o
      → IsCurrent r
      → IsCurrent (finish vs modules o r)
  finish-IsCurrent r none h c = c
  finish-IsCurrent r (some (load p i true a, rest)) h c = record {
    own = subst (All (Is r.path r.effect)) (sym h) c.own;
    state =
        subst
          (λ ys. ((length ys ≡ 0) × (r.view ≡ shows r.path)) ⊎ ((length ys ≡ 1) × (r.view ≡ blank)))
          (sym h) c.state;
  }
  finish-IsCurrent r (some (load p i false a, rest)) h c =
      let mine = (h.1 c.own).0 in
      record {
        own = (h.1 c.own).1;
        state = inl (
          none_left r (length (live rest)) c h.0,
          ap (λ q. outcome vs modules q a) mine.0 ∙ outcome-shows r.path a mine.2,
        );
      }

  step-IsCurrent : (e : Event) (r : Renderer V) → IsCurrent r → IsCurrent (step vs modules e r)
  unfolding step navigate
  step-IsCurrent (navigates path) r c =
      begun-IsCurrent path (suc r.effect) (modules path) (cancel r.effect r.loads) refl
        (live-cancel r.path r.effect r.loads c.own)
  step-IsCurrent (answers n) r c =
      finish-IsCurrent r (pick n r.loads) (pick-Picked r.path r.effect n r.loads) c

  run-IsCurrent : (es : List Event) (r : Renderer V) → IsCurrent r → IsCurrent (run vs modules es r)
  unfolding run
  run-IsCurrent [] r c = c
  run-IsCurrent (e ∷ es) r c = run-IsCurrent es (step vs modules e r) (step-IsCurrent e r c)

  -- After any history of paths, and of answers in any order, at most one load is not cancelled; while there is one the
  -- preview is blank, and otherwise it shows what the present path leads to: its component or its error.
  pub run-mount-shows :
      (path : Text) (es : List Event)
      → let r = run vs modules es (mount vs modules path) in
        ((length (live r.loads) ≡ 0) × (r.view ≡ shows r.path))
        ⊎ ((length (live r.loads) ≡ 1) × (r.view ≡ blank))
  unfolding mount
  run-mount-shows path es =
      (run-IsCurrent es (mount vs modules path)
        (begun-IsCurrent path 0 (modules path) [] refl refl)).state
