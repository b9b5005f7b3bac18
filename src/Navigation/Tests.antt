-- ===== src/Navigation/Tests.antt =====
-- App.tsx: the link of a page, and of an address below it.
use pumpy_v.Common.{◌≡◌, refl, [], ◌∷◌, codes, keep, map}
use pumpy_v.Navigation.{NavLink, nav_links, is_active}

below :
    map (λ (l : NavLink). l.label) (keep (is_active (codes "/trades/7")) nav_links) ≡ "Trades" ∷ []
unfolding is_active
below = refl
