-- ===== src/Navigation/Active.antt =====
-- App.tsx: at most one link is shown as the present one.
use pumpy_v.Common.{
  ℕ, ◌≤◌, ◌≡◌, refl, ap, ◌∙◌, inl, inr, Bool, true, false, List, [], ◌∷◌, if◌then◌else◌, not, ◌&&◌,
  ◌||◌, ◌==◌, codes, keep, length, arith, Bool-cases, All, subst,
}
use pumpy_v.Text.{Text, same, starts_with}
use pumpy_v.Navigation.{NavLink, nav_links, is_active}

itself : (c : ℕ) → (c == c) ≡ true
itself c = ground arith

equal_units : (a b : ℕ) → (a == b) ≡ true → a ≡ b
equal_units a b h = ground arith

left_true : (a b : Bool) → (a && b) ≡ true → a ≡ true
left_true true b h = refl
left_true false b h = h

right_true : (a b : Bool) → (a && b) ≡ true → b ≡ true
right_true true b h = h
right_true false b h = ground arith

-- Two starts of one text: one of them starts with the other.
either_starts :
    (s a b : Text)
    → starts_with s a ≡ true
    → starts_with s b ≡ true
    → (starts_with a b || starts_with b a) ≡ true
either_starts s [] [] h k = refl
either_starts s [] (b ∷ bs) h k = refl
either_starts s (a ∷ at) [] h k = refl
either_starts [] (a ∷ at) (b ∷ bt) h k = ground arith
either_starts (c ∷ s) (a ∷ at) (b ∷ bt) h k =
    let ca = equal_units c a (left_true (c == a) (starts_with s at) h) in
    let cb = equal_units c b (left_true (c == b) (starts_with s bt) k) in
    subst (λ x. (((x == b) && starts_with at bt) || ((b == x) && starts_with bt at)) ≡ true) ca
      (subst (λ y. (((c == y) && starts_with at bt) || ((y == c) && starts_with bt at)) ≡ true) cb
        (rw (itself c) (
          either_starts s at bt (right_true (c == a) (starts_with s at) h)
            (right_true (c == b) (starts_with s bt) k))))

same_equal : (s t : Text) → same s t ≡ true → s ≡ t
same_equal [] [] h = refl
same_equal [] (b ∷ t) h = ground arith
same_equal (a ∷ s) [] h = ground arith
same_equal (a ∷ s) (b ∷ t) h =
    ap (λ x. x ∷ s) (equal_units a b (left_true (a == b) (same s t) h))
    ∙ ap (λ u. b ∷ u) (same_equal s t (right_true (a == b) (same s t) h))

abbrev root : Text
root = codes "/"

-- No location makes both links the present one.
abbrev apart : Text → Text → Bool
apart a b =
    if same a root
    then not (same b root) && not (starts_with root b)
    else if same b root
    then not (starts_with root a)
    else not (starts_with a b || starts_with b a)

excluded :
    (ra rb lr la lb roa rob cmp : Bool)
    → (lr ≡ true → la ≡ roa)
    → (lr ≡ true → lb ≡ rob)
    → (la ≡ true → lb ≡ true → cmp ≡ true)
    → (if ra then not rb && not rob else if rb then not roa else not cmp) ≡ true
    → (if ra then lr else la) ≡ true
    → (if rb then lr else lb) ≡ false
excluded true true lr la lb roa rob cmp f g k h m = ground arith
excluded true false lr la lb roa rob cmp f g k h m = g m ∙ ground arith
excluded false true true la lb roa rob cmp f g k h m = ground (arith, f refl)
excluded false true false la lb roa rob cmp f g k h m = refl
excluded false false lr la true roa rob cmp f g k h m = ground (arith, k m refl)
excluded false false lr la false roa rob cmp f g k h m = refl

at_root :
    (location a : Text) → same location root ≡ true → starts_with location a ≡ starts_with root a
at_root location a h = ap (λ l. starts_with l a) (same_equal location root h)

is_active-excluded :
    (location : Text) (l m : NavLink)
    → apart l.href m.href ≡ true
    → is_active location l ≡ true
    → is_active location m ≡ false
unfolding is_active
is_active-excluded location l m =
    excluded (same l.href root) (same m.href root) (same location root)
      (starts_with location l.href) (starts_with location m.href) (starts_with root l.href)
      (starts_with root m.href) (starts_with l.href m.href || starts_with m.href l.href)
      (at_root location l.href) (at_root location m.href) (either_starts location l.href m.href)

abbrev AllApart : List NavLink → Type 0
AllApart [] = Unit {0}
AllApart (l ∷ ls) = All (λ m. apart l.href m.href ≡ true) ls × AllApart ls

none_active :
    (location : Text) (l : NavLink) (ls : List NavLink)
    → All (λ m. apart l.href m.href ≡ true) ls
    → is_active location l ≡ true
    → keep (is_active location) ls ≡ []
none_active location l [] h k = refl
none_active location l (m ∷ ls) h k =
    rw (keep, is_active-excluded location l m h.0 k) (none_active location l ls h.1 k)

one_active :
    (location : Text) (ls : List NavLink) → AllApart ls → length (keep (is_active location) ls) ≤ 1
one_active location [] h = omega arith
one_active location (l ∷ ls) h = elim (Bool-cases (is_active location l)) [
  | inl e ↦ rw (keep, e, none_active location l ls h.0 e) (omega arith)
  | inr e ↦ rw (keep, e) (one_active location ls h.1)
]

-- Whatever the location, at most one link is shown as the present one, and each link is so at its own address.
pub nav_links_active :
    (location : Text)
    → (length (keep (is_active location) nav_links) ≤ 1)
      × All (λ (l : NavLink). is_active l.href l ≡ true) nav_links
unfolding is_active
nav_links_active location = (
  one_active location nav_links (
    (refl, (refl, (refl, (refl, (refl, tt))))),
    (
      (refl, (refl, (refl, (refl, tt)))),
      ((refl, (refl, (refl, tt))), ((refl, (refl, tt)), ((refl, tt), (tt, tt)))),
    ),
  ),
  (refl, (refl, (refl, (refl, (refl, (refl, tt)))))),
)
