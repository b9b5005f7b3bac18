-- ===== src/Forms/Saves.antt =====
-- Settings.tsx: the saves of `ServiceUrlsCard` and `JitoMevSettingsCard`, and how often they are under way.
use pumpy_v.Common.{
  suc, ◌-◌, ◌≡◌, refl, Bool, true, false, List, [], ◌∷◌, ◌||◌, if◌then◌else◌, ltb, codes, arith,
  by_if,
}
use pumpy_v.Text.{Text, same}
use pumpy_v.Settings.{Env}
use pumpy_v.Forms.{config_or, ServiceUrls, load_service_urls, JitoMev, load_jito_mev}
use pumpy_v.Forms.Requests.{Counts, first_one, none_left}

-- `handleSave`, behind the button's `disabled`, up to its request, and what follows the answer.
unfoldable pub save_service_urls : ServiceUrls → ServiceUrls
save_service_urls c = if c.is_saving then c else record c { is_saving = true; saves = suc c.saves }

unfoldable pub service_urls_saved : ServiceUrls → ServiceUrls
service_urls_saved c = record c { is_saving = false; saves = c.saves - 1 }

pub data ServiceEvent : Type 0 where
  loads_urls : Env → ServiceEvent
  types_grpc : Text → ServiceEvent
  types_python : Text → ServiceEvent
  saves_urls : ServiceEvent
  urls_answer : ServiceEvent

-- An answer comes only to a save that is under way.
unfoldable pub service_urls_step : ServiceEvent → ServiceUrls → ServiceUrls
unfolding save_service_urls service_urls_saved
service_urls_step (loads_urls config) c = load_service_urls config c
service_urls_step (types_grpc t) c = record c { grpc_url = t }
service_urls_step (types_python t) c = record c { python_url = t }
service_urls_step saves_urls c = save_service_urls c
service_urls_step urls_answer c = if ltb 0 c.saves then service_urls_saved c else c

-- `handleSave` hides the notice of an earlier save; an answer with success shows it.
unfoldable pub save_jito_mev : JitoMev → JitoMev
save_jito_mev c =
    if c.is_saving then c else record c { is_saving = true; saved_ok = false; saves = suc c.saves }

unfoldable pub jito_mev_saved : Bool → JitoMev → JitoMev
jito_mev_saved ok c = record c {
  is_saving = false;
  saved_ok = ok || c.saved_ok;
  saves = c.saves - 1;
}

pub data JitoEvent : Type 0 where
  loads_jito : Env → JitoEvent
  types_percent : Text → JitoEvent
  types_floor : Text → JitoEvent
  types_ceiling : Text → JitoEvent
  switches : Bool → JitoEvent
  saves_jito : JitoEvent
  jito_answers : Bool → JitoEvent

unfoldable pub jito_mev_step : JitoEvent → JitoMev → JitoMev
unfolding save_jito_mev jito_mev_saved
jito_mev_step (loads_jito config) c = load_jito_mev config c
jito_mev_step (types_percent t) c = record c { tip_percent = t; saved_ok = false }
jito_mev_step (types_floor t) c = record c { tip_floor = t; saved_ok = false }
jito_mev_step (types_ceiling t) c = record c { tip_ceiling = t; saved_ok = false }
jito_mev_step (switches b) c = record c { sim_enabled = b; saved_ok = false }
jito_mev_step saves_jito c = save_jito_mev c
jito_mev_step (jito_answers ok) c = if ltb 0 c.saves then jito_mev_saved ok c else c

abbrev pub run_service_urls : List ServiceEvent → ServiceUrls → ServiceUrls
run_service_urls [] c = c
run_service_urls (e ∷ es) c = run_service_urls es (service_urls_step e c)

abbrev pub run_jito_mev : List JitoEvent → JitoMev → JitoMev
run_jito_mev [] c = c
run_jito_mev (e ∷ es) c = run_jito_mev es (jito_mev_step e c)

-- The cards as they are first shown.
abbrev pub initial_service_urls : Env → ServiceUrls
initial_service_urls config = record {
  grpc_url = config_or config "RUST_GRPC_URL" [];
  python_url = config_or config "PYTHON_STRATEGY_URL" [];
  is_saving = false;
  saves = 0;
}

abbrev pub initial_jito_mev : Env → JitoMev
initial_jito_mev config = record {
  tip_percent = config_or config "JITO_TIP_PERCENT" (codes "0.001");
  tip_floor = config_or config "JITO_TIP_FLOOR_LAMPORTS" (codes "5000");
  tip_ceiling = config_or config "JITO_TIP_CEILING_LAMPORTS" (codes "10000000");
  sim_enabled = same (config_or config "JITO_SIMULATION_ENABLED" (codes "true")) (codes "true");
  is_saving = false;
  saved_ok = false;
  saves = 0;
}

abbrev UrlsCounted : ServiceUrls → Type 0
UrlsCounted c = Counts c.is_saving c.saves

service_urls_step-UrlsCounted :
    (e : ServiceEvent) (c : ServiceUrls) → UrlsCounted c → UrlsCounted (service_urls_step e c)
unfolding service_urls_step save_service_urls service_urls_saved
service_urls_step-UrlsCounted (loads_urls config) c h = h
service_urls_step-UrlsCounted (types_grpc t) c h = h
service_urls_step-UrlsCounted (types_python t) c h = h
service_urls_step-UrlsCounted saves_urls c h =
    by_if UrlsCounted c.is_saving (λ e. h) (λ e. first_one c.is_saving c.saves h e)
service_urls_step-UrlsCounted urls_answer c h =
    by_if UrlsCounted (ltb 0 c.saves) (λ e. none_left c.is_saving c.saves h) (λ e. h)

-- One save at most is under way, while the flag is set, and then no notice of a save is shown.
record JitoCounted (c : JitoMev) : Type 0 where
  counted : Counts c.is_saving c.saves
  no_notice : c.is_saving ≡ true → c.saved_ok ≡ false

jito_mev_step-JitoCounted :
    (e : JitoEvent) (c : JitoMev) → JitoCounted c → JitoCounted (jito_mev_step e c)
unfolding jito_mev_step save_jito_mev jito_mev_saved
jito_mev_step-JitoCounted (loads_jito config) c h = record {
  counted = h.counted;
  no_notice = h.no_notice;
}
jito_mev_step-JitoCounted (types_percent t) c h = record {
  counted = h.counted;
  no_notice = λ b. refl;
}
jito_mev_step-JitoCounted (types_floor t) c h = record {
  counted = h.counted;
  no_notice = λ b. refl;
}
jito_mev_step-JitoCounted (types_ceiling t) c h = record {
  counted = h.counted;
  no_notice = λ b. refl;
}
jito_mev_step-JitoCounted (switches t) c h = record { counted = h.counted; no_notice = λ b. refl }
jito_mev_step-JitoCounted saves_jito c h =
    by_if JitoCounted c.is_saving (λ e. h)
      (λ e. record { counted = first_one c.is_saving c.saves h.counted e; no_notice = λ b. refl })
jito_mev_step-JitoCounted (jito_answers ok) c h =
    by_if JitoCounted (ltb 0 c.saves)
      (λ e. record {
        counted = none_left c.is_saving c.saves h.counted;
        no_notice = λ b. ground arith;
      })
      (λ e. h)

run_service_urls-UrlsCounted :
    (es : List ServiceEvent) (c : ServiceUrls) → UrlsCounted c → UrlsCounted (run_service_urls es c)
run_service_urls-UrlsCounted [] c h = h
run_service_urls-UrlsCounted (e ∷ es) c h =
    run_service_urls-UrlsCounted es _ (service_urls_step-UrlsCounted e c h)

run_jito_mev-JitoCounted :
    (es : List JitoEvent) (c : JitoMev) → JitoCounted c → JitoCounted (run_jito_mev es c)
run_jito_mev-JitoCounted [] c h = h
run_jito_mev-JitoCounted (e ∷ es) c h =
    run_jito_mev-JitoCounted es _ (jito_mev_step-JitoCounted e c h)

-- Whatever the user does and however saves are answered, each of the two cards has at most one save under way, exactly
-- while its flag is set, and the Jito card shows no notice of a save while one is under way.
pub saves_counted :
    (config : Env) (us : List ServiceEvent) (js : List JitoEvent)
    → let u = run_service_urls us (initial_service_urls config) in
      let j = run_jito_mev js (initial_jito_mev config) in
      Counts u.is_saving u.saves
      × Counts j.is_saving j.saves
      × (j.is_saving ≡ true → j.saved_ok ≡ false)
saves_counted config us js =
    let jito =
      run_jito_mev-JitoCounted js (initial_jito_mev config)
        (record { counted = refl; no_notice = λ b. refl }) in
    (
      run_service_urls-UrlsCounted us (initial_service_urls config) refl,
      jito.counted,
      jito.no_notice,
    )
