-- ===== src/KeyPrompt/Tests.antt =====
-- Wallets.tsx, Strategies.tsx and Settings.tsx: a preset chosen with a typed key, with the box checked.
use pumpy_v.Common.{ℕ, String, ◌≡◌, refl, Bool, true, false, none, List, [], ◌∷◌, str_eq}
use pumpy_v.AdminKey.{initial, mount, set_admin_key}
use pumpy_v.KeyPrompt.{Card, Event, select, types, checks, enter, apply, run}

abbrev card : Card String
card = record {
  view = 1;
  pending = none;
  remember_key = false;
  in_flight = 0;
  sent = [];
  cache = mount 0 1 initial;
}

abbrev history : List (ℕ × Event String)
history =
    (1, select "aggressive") ∷ (2, types "k") ∷ (3, checks true) ∷ (4, enter) ∷ (5, apply) ∷ []

abbrev active : String → Bool
active p = str_eq p "balanced"

-- The button is disabled while the first request runs; the Enter key would send it again.
sent_once : (run active history card).sent ≡ ("aggressive", "k") ∷ []
unfolding run mount set_admin_key
sent_once = refl
