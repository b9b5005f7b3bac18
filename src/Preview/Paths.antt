-- ===== src/Preview/Paths.antt =====
-- App.tsx: the path of a preview in the address that the gallery shows for it.
use pumpy_v.Common.{
  ℕ, ◌≡◌, refl, ap, true, false, some, [], ◌∷◌, ◌++◌, any, length, arith, codes, ◌==◌,
}
use pumpy_v.Text.{Text, is_empty, starts_with, drop}
use pumpy_v.Preview.{is_line_end, without_slash, get_base_path, local_path, get_preview_path}

itself : (c : ℕ) → (c == c) ≡ true
itself c = ground arith

starts_with-append : (s t : Text) → starts_with (s ++ t) s ≡ true
starts_with-append [] t = refl
starts_with-append (c ∷ s) t = rw (itself c) (starts_with-append s t)

drop-length : (s t : Text) → drop (length s) (s ++ t) ≡ t
drop-length [] t = refl
drop-length (c ∷ s) t = drop-length s t

without_slash-end : (b : Text) → without_slash (b ++ codes "/") ≡ b
without_slash-end [] = refl
without_slash-end (c ∷ []) = refl
without_slash-end (c ∷ d ∷ b) = ap (λ s. c ∷ s) (without_slash-end (d ∷ b))

-- With the base address "<base>/", the path of a component that is not empty and has no line end is read back from
-- "<base>/preview/<path>".
pub get_preview_path_lem :
    (base path : Text)
    → is_empty path ≡ false
    → any is_line_end path ≡ false
    → get_preview_path (base ++ codes "/") (base ++ (codes "/preview/" ++ path)) ≡ some path
unfolding get_preview_path get_base_path local_path
get_preview_path_lem [] path e l = rw (e, l) refl
get_preview_path_lem (c ∷ base) path e l =
    rw
      (
        without_slash-end (c ∷ base),
        starts_with-append (c ∷ base) (codes "/preview/" ++ path),
        drop-length (c ∷ base) (codes "/preview/" ++ path),
        e,
        l,
      )
      refl
