-- ===== src/Wallets/Gate.antt =====
-- wallets.ts: what a guarded request may write, and that a request that fails writes nothing.
use pumpy_v.Common.{
  ℕ, ◌≡◌, ◌≢◌, refl, ap, sym, subst, or_else, ◌⊎◌, String, Bool, true, false, Option, none, some,
  List, [], ◌∷◌, arith, inl, inr, Bool-cases,
}
use pumpy_v.AdminAuth.{Verdict-cases, denied-cases, require_admin_key, text_of}
use pumpy_v.Js.{Js}
use pumpy_v.Wallets.{
  ConfigRow, Db, ConfigBody, ConfigUpdate, Response, error, uncaught, valid_presets, valid_statuses,
  among, set_registry_status, update_config, rows_of, status_update, or_500, mirror_status,
  PresetBody, preset_reply, save_preset, set_both, check_body, Checked, fails, refused, update,
  save_config, put_config, put_preset, preset_update, Mutation, puts_config, puts_preset, pauses,
  resumes, halts, handle, request, first_or_404,
}
use pumpy_v.Tx.{Run, pure, statement, resume_with, rolled_back}

abbrev pub IsPresetOk : {N : Type 0} → ConfigUpdate N → Type 0
IsPresetOk u = elim u.strategy_preset [ none ↦ Unit {0} | some p ↦ among valid_presets p ≡ true ]

abbrev pub IsStatusOk : Option String → Type 0
IsStatusOk none = Unit {0}
IsStatusOk (some s) = among valid_statuses s ≡ true

-- All that a request may do to the tables: nothing, an update of one wallet's configuration that
-- leaves its status alone, or an update of its status in both tables.
pub data Write {N : Type 0} (d : Db N) : Db N → Type 0 where
  nothing : Write d d
  config_only :
      (i : String) (u : ConfigUpdate N)
      → u.status ≡ none
      → IsPresetOk u
      → Write d (record d { config = update_config i u d.config })
  both :
      (i status : String) (u : ConfigUpdate N)
      → u.status ≡ some status
      → among valid_statuses status ≡ true
      → IsPresetOk u
      → Write d (record {
        registry = set_registry_status i status d.registry;
        config = update_config i u d.config;
      })

-- The responses that report a failure.
abbrev pub failed : {N : Type 0} → Response N → Bool
failed (error code text) = true
failed uncaught = true
failed _ = false

module _ {N : Type 0} where
  update_config-same :
      (i : String) (u : ConfigUpdate N) (rs : List (ConfigRow N))
      → rows_of i (update_config i u rs) ≡ []
      → update_config i u rs ≡ rs
  update_config-same i u [] h = refl
  update_config-same i u (r ∷ rs) h = ground (arith, update_config-same i u rs)

  -- What a run of a handler from `d` may leave.
  abbrev pub Sound : Db N → Response N × Db N × List Bool → Type 0
  Sound d r = Write d r.1 × ((failed r.0 ≡ true) → r.1 ≡ d)

  set_both-Sound :
      (i status text : String) (now : ℕ) (d : Db N) (fs : List Bool)
      → among valid_statuses status ≡ true
      → Sound d (or_500 text (set_both i status now (d, fs)))
  set_both-Sound i status text now d [] h =
      (both i status (status_update status now) refl h tt, λ e. cc)
  set_both-Sound i status text now d (true ∷ fs) h = (nothing, λ e. refl)
  set_both-Sound i status text now d (false ∷ []) h =
      (both i status (status_update status now) refl h tt, λ e. cc)
  set_both-Sound i status text now d (false ∷ true ∷ fs) h = (nothing, λ e. refl)
  set_both-Sound i status text now d (false ∷ false ∷ []) h =
      (both i status (status_update status now) refl h tt, λ e. cc)
  set_both-Sound i status text now d (false ∷ false ∷ true ∷ fs) h = (nothing, λ e. refl)
  set_both-Sound i status text now d (false ∷ false ∷ false ∷ fs) h =
      (both i status (status_update status now) refl h tt, λ e. cc)

  unchanged :
      (i : String) (u : ConfigUpdate N) (d : Db N)
      → rows_of i (update_config i u d.config) ≡ []
      → (record d { config = update_config i u d.config }) ≡ d
  unchanged i u d e =
      ap (λ (c : List (ConfigRow N)). record d { config = c }) (update_config-same i u d.config e)

  back : {d d' : Db N} → d' ≡ d → Write d d'
  back {d} e = subst (Write d) (sym e) nothing

module _ (js : Js) where
  open js use {Value, Number}

  -- The commit of `save_config`, once the callback has run.
  abbrev committed :
      Db Number
      → String
      → Run (Db Number) (List (ConfigRow Number))
      → Response Number × Db Number × List Bool
  committed d text r = or_500 text (
      resume_with (λ rows. pure (first_or_404 rows))
        (rolled_back d (resume_with (λ a. statement (λ d'. (a, d'))) r)))

  mirror-Sound :
      (i text : String) (u : ConfigUpdate Number) (d : Db Number) (rows : List (ConfigRow Number))
      (st : Option String) (fs : List Bool)
      → rows_of i (update_config i u d.config) ≡ rows
      → u.status ≡ st
      → IsStatusOk st
      → IsPresetOk u
      → Sound d (
          committed d text
            (mirror_status js i st rows (record d { config = update_config i u d.config }, fs)))
  mirror-Sound i text u d [] st [] e s h p = (back (unchanged i u d e), λ _. unchanged i u d e)
  mirror-Sound i text u d [] st (true ∷ fs) e s h p = (nothing, λ _. refl)
  mirror-Sound i text u d [] st (false ∷ fs) e s h p =
      (back (unchanged i u d e), λ _. unchanged i u d e)
  mirror-Sound i text u d (r ∷ rs) none [] e s h p = (config_only i u s p, λ x. cc)
  mirror-Sound i text u d (r ∷ rs) none (true ∷ fs) e s h p = (nothing, λ _. refl)
  mirror-Sound i text u d (r ∷ rs) none (false ∷ fs) e s h p = (config_only i u s p, λ x. cc)
  mirror-Sound i text u d (r ∷ rs) (some st) [] e s h p = (both i st u s h p, λ x. cc)
  mirror-Sound i text u d (r ∷ rs) (some st) (true ∷ fs) e s h p = (nothing, λ _. refl)
  mirror-Sound i text u d (r ∷ rs) (some st) (false ∷ []) e s h p = (both i st u s h p, λ x. cc)
  mirror-Sound i text u d (r ∷ rs) (some st) (false ∷ true ∷ fs) e s h p = (nothing, λ _. refl)
  mirror-Sound i text u d (r ∷ rs) (some st) (false ∷ false ∷ fs) e s h p =
      (both i st u s h p, λ x. cc)

  save_config-Sound :
      (i text : String) (u : ConfigUpdate Number) (d : Db Number) (fs : List Bool)
      → IsStatusOk u.status
      → IsPresetOk u
      → Sound d (or_500 text (save_config js i u (d, fs)))
  save_config-Sound i text u d [] h p =
      mirror-Sound i text u d (rows_of i (update_config i u d.config)) u.status [] refl refl h p
  save_config-Sound i text u d (false ∷ fs) h p =
      mirror-Sound i text u d (rows_of i (update_config i u d.config)) u.status fs refl refl h p
  save_config-Sound i text u d (true ∷ fs) h p = (nothing, λ _. refl)

  check_body-Ok :
      (now : ℕ) (b : ConfigBody Value) (u : ConfigUpdate Number)
      → check_body js now b ≡ update u
      → IsStatusOk u.status × IsPresetOk u
  unfolding check_body
  check_body-Ok now b u h = ground arith

  put_config-Sound :
      (i : String) (b : Option (ConfigBody Value)) (now : ℕ) (d : Db Number) (fs : List Bool)
      → Sound d (put_config js i b now (d, fs))
  unfolding put_config
  put_config-Sound i none now d fs = (nothing, λ _. refl)
  put_config-Sound i (some b) now d fs = go (check_body js now b) refl
    where
      go :
          (c : Checked js)
          → check_body js now b ≡ c
          → Sound d (put_config js i (some b) now (d, fs))
      go fails e = rw (e, put_config) (nothing, λ _. refl)
      go (refused text) e = rw (e, put_config) (nothing, λ _. refl)
      go (update u) e =
          rw (e, put_config)
            (save_config-Sound i "Failed to update wallet config" u d fs (check_body-Ok now b u e).0
              (check_body-Ok now b u e).1)

  preset-Sound :
      (i preset : String) (now : ℕ) (d : Db Number) (rows : List (ConfigRow Number))
      (fs : List Bool)
      → rows_of i (update_config i (preset_update js preset now) d.config) ≡ rows
      → among valid_presets preset ≡ true
      → Sound d (
        preset_reply js preset i rows,
        record d { config = update_config i (preset_update js preset now) d.config },
        fs,
      )
  preset-Sound i preset now d [] fs e h = (
    back (unchanged i (preset_update js preset now) d e),
    λ _. unchanged i (preset_update js preset now) d e,
  )
  preset-Sound i preset now d (r ∷ rs) fs e h =
      (config_only i (preset_update js preset now) refl h, λ x. cc)

  save_preset-Sound :
      (i preset : String) (now : ℕ) (d : Db Number) (fs : List Bool)
      → among valid_presets preset ≡ true
      → Sound d (or_500 "Failed to save preset" (save_preset js i preset now (d, fs)))
  save_preset-Sound i preset now d [] h =
      preset-Sound i preset now d
        (rows_of i (update_config i (preset_update js preset now) d.config)) [] refl h
  save_preset-Sound i preset now d (false ∷ fs) h =
      preset-Sound i preset now d
        (rows_of i (update_config i (preset_update js preset now) d.config)) fs refl h
  save_preset-Sound i preset now d (true ∷ fs) h = (nothing, λ _. refl)

  put_preset-Sound :
      (b : Option PresetBody) (now : ℕ) (d : Db Number) (fs : List Bool)
      → Sound d (put_preset js b now (d, fs))
  unfolding put_preset
  put_preset-Sound none now d fs = (nothing, λ _. refl)
  put_preset-Sound (some b) now d fs = elim (Bool-cases (among valid_presets (text_of b.preset))) [
    | inl e ↦
        rw e (save_preset-Sound (or_else b.wallet_id "wallet_001") (text_of b.preset) now d fs e)
    | inr e ↦ rw e (nothing, λ _. refl)
  ]

  handle-Sound :
      (m : Mutation js) (now : ℕ) (d : Db Number) (fs : List Bool)
      → Sound d (handle js m now (d, fs))
  unfolding handle
  handle-Sound (puts_config i b) now d fs = put_config-Sound i b now d fs
  handle-Sound (puts_preset b) now d fs = put_preset-Sound b now d fs
  handle-Sound (pauses i) now d fs =
      set_both-Sound i "paused" "Failed to pause wallet" now d fs refl
  handle-Sound (resumes i) now d fs =
      set_both-Sound i "enabled" "Failed to resume wallet" now d fs refl
  handle-Sound (halts i none) now d fs = (nothing, λ _. refl)
  handle-Sound (halts i (some false)) now d fs = (nothing, λ _. refl)
  handle-Sound (halts i (some true)) now d fs =
      set_both-Sound i "halted" "Failed to halt wallet" now d fs refl

-- Whatever the key, the request and the faults of the database, a request writes nothing, or the
-- configuration of one wallet without its status, or one wallet's valid status into both tables.
pub request-Write :
    (js : Js) (admin_key provided : Option String) (m : Mutation js) (now : ℕ) (d : Db js.Number)
    (fs : List Bool)
    → Write d (request js admin_key provided m now (d, fs)).1
unfolding request
request-Write js k p m now d fs = elim (Verdict-cases (require_admin_key k p)) [
  | inl e ↦ rw e (handle-Sound js m now d fs).0
  | inr (code, text, e) ↦ rw e nothing
]

-- A request whose response reports a failure leaves both tables as they were: the transactions are
-- all or nothing, and an update that finds no row changes none.
pub request-failed :
    (js : Js) (admin_key provided : Option String) (m : Mutation js) (now : ℕ) (d : Db js.Number)
    (fs : List Bool)
    → failed (request js admin_key provided m now (d, fs)).0 ≡ true
    → (request js admin_key provided m now (d, fs)).1 ≡ d
unfolding request
request-failed js k p m now d fs = elim (Verdict-cases (require_admin_key k p)) [
  | inl e ↦ rw e (handle-Sound js m now d fs).1
  | inr (code, text, e) ↦ rw e (λ _. refl)
]

-- Without a configured key, or with another one in the header, no handler runs: the response is 503
-- or 401, no table changes and the database is not asked.
pub request_denied :
    (js : Js) (admin_key provided : Option String) (m : Mutation js) (now : ℕ) (d : Db js.Number)
    (fs : List Bool)
    → (text_of admin_key ≡ "") ⊎ (provided ≢ admin_key)
    → (request js admin_key provided m now (d, fs)
        ≡ (error 503 "Admin endpoints are disabled: ADMIN_API_KEY is not configured", d, fs))
      ⊎ (request js admin_key provided m now (d, fs)
          ≡ (error 401 "Unauthorized: valid X-Admin-Key header required", d, fs))
unfolding request
request_denied js k p m now d fs h = elim (denied-cases k p h) [
  | inl e ↦ inl (rw e)
  | inr e ↦ inr (rw e)
]
