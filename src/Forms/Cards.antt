-- ===== src/Forms/Cards.antt =====
-- Settings.tsx: the three cards over the service that keeps the configuration (Settings/Service.antt).
use pumpy_v.Common.{ℕ, ◌≡◌, refl, ap, ◌∙◌}
use pumpy_v.Settings.{Outside, Env}
use pumpy_v.Settings.Service.{ConfigService, settings_service, Table, put_object}
use pumpy_v.Settings.View.{
  Body, View, view, save_view, save_view_comm, AnswersAlike, view-AnswersAlike,
}
use pumpy_v.Forms.{
  Connection, connection_body, ServiceUrls, service_urls_body, JitoMev, jito_mev_body,
}

-- The bodies of the three cards have different keys, all of them allowed.
abbrev pub connection_entries : Connection → Body
connection_entries c =
    (connection_body c, ((refl, (refl, tt)), ((refl, tt), (tt, tt))), (refl, (refl, (refl, tt))))

abbrev pub service_urls_entries : ServiceUrls → Body
service_urls_entries c = (service_urls_body c, ((refl, tt), (tt, tt)), (refl, (refl, tt)))

abbrev pub jito_mev_entries : JitoMev → Body
jito_mev_entries c = (
  jito_mev_body c,
  ((refl, (refl, (refl, tt))), ((refl, (refl, tt)), ((refl, tt), (tt, tt)))),
  (refl, (refl, (refl, (refl, tt)))),
)

module _ (service : ConfigService) where
  open service use {Store, save, load, load-save}

  -- Whatever the order of the saves, the view of the service is the same.
  views_in_any_order :
      (c : Connection) (u : ServiceUrls) (j : JitoMev) (v : View service)
      → let save_c = save_view service (connection_entries c) in
        let save_u = save_view service (service_urls_entries u) in
        let save_j = save_view service (jito_mev_entries j) in
        let one_order = save_c (save_u (save_j v)) in
        (save_c (save_j (save_u v)) ≡ one_order)
        × (save_u (save_c (save_j v)) ≡ one_order)
        × (save_u (save_j (save_c v)) ≡ one_order)
        × (save_j (save_c (save_u v)) ≡ one_order)
        × (save_j (save_u (save_c v)) ≡ one_order)
  views_in_any_order c u j v =
      let save_c : View service → View service = save_view service (connection_entries c) in
      let save_u : View service → View service = save_view service (service_urls_entries u) in
      let save_j : View service → View service = save_view service (jito_mev_entries j) in
      let ju = save_view_comm service (jito_mev_entries j) (service_urls_entries u) (
        (refl, (refl, tt)),
        ((refl, (refl, tt)), ((refl, (refl, tt)), ((refl, (refl, tt)), tt))),
      ) in
      let uc =
        save_view_comm service (service_urls_entries u) (connection_entries c)
          ((refl, (refl, (refl, tt))), ((refl, (refl, (refl, tt))), tt)) in
      let jc = save_view_comm service (jito_mev_entries j) (connection_entries c) (
        (refl, (refl, (refl, tt))),
        (
          (refl, (refl, (refl, tt))),
          ((refl, (refl, (refl, tt))), ((refl, (refl, (refl, tt))), tt)),
        ),
      ) in
      let cju = ap save_c (ju v) in
      let ucj = uc (save_j v) in
      let jcu = jc (save_u v) ∙ cju in
      (cju, ucj, ap save_u (jc v) ∙ ucj, jcu, ap save_j (uc v) ∙ jcu)

module _ (o : Outside) (env : Env) (now : ℕ) where
  -- The three cards can be saved without faults over any table in any order, each save dated `now`: all six orders
  -- leave a table from which GET /settings/config and GET /settings/status answer alike.
  pub cards_in_any_order :
      (c : Connection) (u : ServiceUrls) (j : JitoMev) (t : Table env now)
      → let save_c = put_object env now (connection_body c) in
        let save_u = put_object env now (service_urls_body u) in
        let save_j = put_object env now (jito_mev_body j) in
        let one_order = save_c (save_u (save_j t)) in
        AnswersAlike o env now (save_c (save_j (save_u t))) one_order
        × AnswersAlike o env now (save_u (save_c (save_j t))) one_order
        × AnswersAlike o env now (save_u (save_j (save_c t))) one_order
        × AnswersAlike o env now (save_j (save_c (save_u t))) one_order
        × AnswersAlike o env now (save_j (save_u (save_c t))) one_order
  unfolding save_view
  cards_in_any_order c u j t =
      let save_c = put_object env now (connection_body c) in
      let save_u = put_object env now (service_urls_body u) in
      let save_j = put_object env now (jito_mev_body j) in
      let one = save_c (save_u (save_j t)) in
      let service = settings_service env now in
      let alike : (s : Table env now)
          → view service s ≡ view service one
          → AnswersAlike o env now s one =
        λ s h. view-AnswersAlike o env now s one h in
      let (cju, ucj, ujc, jcu, juc) = views_in_any_order service c u j (view service t) in
      (
        alike (save_c (save_j (save_u t))) cju,
        alike (save_u (save_c (save_j t))) ucj,
        alike (save_u (save_j (save_c t))) ujc,
        alike (save_j (save_c (save_u t))) jcu,
        alike (save_j (save_u (save_c t))) juc,
      )
