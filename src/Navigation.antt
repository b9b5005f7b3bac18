-- ===== src/Navigation.antt =====
-- The navigation of artifacts/dashboard/src/App.tsx: which link of the side bar and of the bottom bar is shown as the present one.
pub mod Active
mod Tests
use pumpy_v.Common.{ℕ, String, Bool, true, false, List, [], ◌∷◌, if◌then◌else◌, not, ◌&&◌, codes}
use pumpy_v.Text.{Text, same, starts_with}
use pumpy_v.Controls.{Controls, is_running, engine_offline}

pub record NavLink : Type 0 where
  pub href : Text
  pub label : String

abbrev pub nav_links : List NavLink
nav_links =
    record { href = codes "/"; label = "Dashboard" }
    ∷ record { href = codes "/strategies"; label = "Strategies" }
    ∷ record { href = codes "/wallets"; label = "Wallets" }
    ∷ record { href = codes "/tokens"; label = "Tokens" }
    ∷ record { href = codes "/trades"; label = "Trades" }
    ∷ record { href = codes "/settings"; label = "Settings" }
    ∷ []

unfoldable pub is_active : Text → NavLink → Bool
is_active location link =
    if same link.href (codes "/") then same location (codes "/") else starts_with location link.href

-- The text of the bot's status in the header, from the status that the page polls.
unfoldable pub status_label : Controls → String
unfolding engine_offline
status_label c =
    if is_running c then "Running" else if engine_offline c then "Engine offline" else "Stopped"
