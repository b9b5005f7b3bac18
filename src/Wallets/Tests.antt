-- ===== src/Wallets/Tests.antt =====
-- wallets.ts: requests on a small database.
use pumpy_v.Common.{ℕ, ◌≡◌, refl, ◌⊎◌, inr, String, true, false, Option, none, some, [], ◌∷◌, ◌==◌}
use pumpy_v.Js.{Js}
use pumpy_v.Wallets.{Db, error, Mutation, puts_config, puts_preset, pauses, request}
use pumpy_v.Wallets.Gate.{request-failed, request_denied}
use pumpy_v.Wallets.Effects.{Agree, request-Agree}
use pumpy_v.Wallets.Domain.{IsValid}

-- A value is a number with its text; no number is NaN.
abbrev pub js : Js
js = record {
  Value = ℕ × String;
  Number = ℕ;
  to_number = λ v. some v.0;
  to_string = λ v. some v.1;
  is_nan = λ n. false;
  le_zero = λ n. n == 0;
  literal = λ m k. m;
}

abbrev pub db : Db ℕ
db = record {
  registry =
      record {
        wallet_id = "w";
        keypair_path = none;
        status = "enabled";
        owner_pubkey = none;
        last_active_at = none;
        created_at = none;
      }
      ∷ [];
  config =
      record {
        wallet_id = "w";
        risk_per_trade_sol = 1;
        daily_loss_limit_sol = 2;
        strategy_preset = "balanced";
        status = "enabled";
        owner_pubkey = none;
        created_at = none;
        updated_at = none;
      }
      ∷ [];
}

abbrev change : Mutation js
change = puts_config "w" (
    some (record {
      risk_per_trade_sol = some (3, "3");
      daily_loss_limit_sol = none;
      strategy_preset = none;
      status = some (0, "paused");
    }))

change_saved : Agree (request js (some "k") (some "k") change 9 (db, [])).1
unfolding request
change_saved = ((inr refl, tt), tt)

-- The second statement throws, and the first is rolled back.
rolled_back_test : (request js (some "k") (some "k") change 9 (db, false ∷ true ∷ [])).1 ≡ db
unfolding request
rolled_back_test = refl

bad_preset :
    (request js
      (some "k")
      (some "k")
      (puts_preset (some (record { preset = some "wild"; wallet_id = none })))
      9
      (db, [])).0
    ≡ error 400 "preset must be conservative, balanced, or aggressive"
unfolding request
bad_preset = refl

abbrev key : Option String
key = some "k"

request-failed_example : (request js (some "k") (some "k") change 9 (db, false ∷ true ∷ [])).1 ≡ db
request-failed_example =
    request-failed js (some "k") (some "k") change 9 db (false ∷ true ∷ []) (unfold request in refl)

request_denied_example :
    (request js (some "k") none (pauses "w") 9 (db, [])
      ≡ (error 503 "Admin endpoints are disabled: ADMIN_API_KEY is not configured", db, []))
    ⊎ (request js (some "k") none (pauses "w") 9 (db, [])
        ≡ (error 401 "Unauthorized: valid X-Admin-Key header required", db, []))
request_denied_example = request_denied js (some "k") none (pauses "w") 9 db [] (inr (λ e. cc))

db-Agree : Agree db
db-Agree = (((inr refl), tt), tt)

request-Agree_example : Agree (request js (some "k") (some "k") change 9 (db, false ∷ [])).1
request-Agree_example = request-Agree js (some "k") (some "k") change 9 db (false ∷ []) db-Agree

db-IsValid : IsValid db
db-IsValid = record { config = ((refl, refl), tt); registry = (refl, tt) }
