-- ===== src/Resume/Tests.antt =====
-- Wallets.tsx: a paused wallet, and a card with a remembered key.
use pumpy_v.Common.{ℕ, ◌≡◌, refl, String, Bool, true, false, none, some, List, [], ◌∷◌}
use pumpy_v.AdminKey.{Cache}
use pumpy_v.Wallets.{Db, set_registry_status, update_config, status_update}
use pumpy_v.Wallets.Tests.{js, db}
use pumpy_v.Resume.{
  arrives, response_lost, clicks_resume, PageEvent, touches, refetches, Page, page_run,
  failed_toast,
}
use pumpy_v.Resume.Outcome.{Told, page_run-Told}

abbrev paused_db : Db ℕ
paused_db = record {
  registry = set_registry_status "w" "paused" db.registry;
  config = update_config "w" (status_update "paused" 1) db.config;
}

abbrev cache : String → Cache
cache key = record {
  cached_key = key;
  cache_expiry = 100;
  expiry_timer = some 100;
  listeners = [];
  views = λ k. "";
}

abbrev page : String → List Bool → Page ℕ
page key fs = record {
  wallet_status = some "paused";
  config_status = some "paused";
  card = record {
    view = 1;
    pending = none;
    remember_key = false;
    in_flight = 0;
    sent = [];
    cache = cache key;
  };
  toasts = [];
  server = (paused_db, fs);
}

abbrev history : List (ℕ × PageEvent)
history = (2, touches clicks_resume arrives) ∷ (3, refetches arrives arrives) ∷ []

-- A statement of the transaction throws.
fault_told :
    (page_run js (some "k") "bad" "w" history (page "k" (false ∷ true ∷ []))).toasts
    ≡ failed_toast "Failed to resume wallet" ∷ []
unfolding page_run
fault_told = refl

-- The wallet is resumed, and the page does not come to know it.
abbrev lost : List (ℕ × PageEvent)
lost = (2, touches clicks_resume (response_lost "Failed to fetch")) ∷ []

lost_told :
    (page_run js (some "k") "bad" "w" lost (page "k" [])).toasts
    ≡ failed_toast "Failed to fetch" ∷ []
unfolding page_run
lost_told = refl

page_run-Told_example :
    Told "w" true (page "k" []) (page_run js (some "k") "bad" "w" lost (page "k" []))
page_run-Told_example = page_run-Told js (some "k") "bad" "w" lost (page "k" [])
