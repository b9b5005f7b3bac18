-- ===== src/Forms/Tests.antt =====
-- Settings.tsx: a save of the connection card and of the Jito card, and a test whose URL is changed.
use pumpy_v.Common.{◌≡◌, refl, false, none, List, [], ◌∷◌, codes, some}
use pumpy_v.Settings.{Outside, Env, ConfigRow, get_config}
use pumpy_v.Settings.Config.{put_config}
use pumpy_v.Forms.{
  Connection, JitoMev, initial_connection, load_connection, connection_body, ConnectionEvent,
  types_rpc_url, tests_it, saves_it,
}
use pumpy_v.Settings.Service.{Table, put_object}
use pumpy_v.Settings.View.{AnswersAlike}
use pumpy_v.Forms.Saves.{initial_service_urls}
use pumpy_v.Forms.Cards.{cards_in_any_order}
use pumpy_v.Forms.{ServiceUrls, service_urls_body, jito_mev_body}
use pumpy_v.Forms.Reload.{reloaded}

abbrev empty : Env
empty k = none

abbrev rows : List ConfigRow
rows = record { key = "SOLANA_RPC_URL"; value = codes "https://old"; updated_at = none } ∷ []

abbrev edited : Connection
edited = record (initial_connection empty) {
  rpc_url = codes " https://new ";
  jito_url = codes "  ";
}

trimmed :
    (load_connection (reloaded empty 5 (connection_body edited) rows) edited).rpc_url
    ≡ codes "https://new"
unfolding get_config put_config
trimmed = refl

abbrev jito : JitoMev
jito = record {
  tip_percent = codes "0.002";
  tip_floor = [];
  tip_ceiling = codes "9";
  sim_enabled = false;
  is_saving = false;
  saved_ok = false;
  saves = 0;
}

abbrev clicks : List ConnectionEvent
clicks = types_rpc_url (codes "u") ∷ tests_it ∷ tests_it ∷ saves_it ∷ saves_it ∷ []

abbrev table : Table empty 5
table = (rows, (refl, tt))

abbrev urls : ServiceUrls
urls = record (initial_service_urls empty) { grpc_url = codes "engine:50051" }

abbrev nowhere : Outside
nowhere = record { read_file = λ p. none; parse_bytes = λ s. none; ping_rpc = λ u. some 7 }

cards_in_any_order_example :
    let save_c = put_object empty 5 (connection_body edited) in
    let save_u = put_object empty 5 (service_urls_body urls) in
    let save_j = put_object empty 5 (jito_mev_body jito) in
    let one_order = save_c (save_u (save_j table)) in
    AnswersAlike nowhere empty 5 (save_c (save_j (save_u table))) one_order
    × AnswersAlike nowhere empty 5 (save_u (save_c (save_j table))) one_order
    × AnswersAlike nowhere empty 5 (save_u (save_j (save_c table))) one_order
    × AnswersAlike nowhere empty 5 (save_j (save_c (save_u table))) one_order
    × AnswersAlike nowhere empty 5 (save_j (save_u (save_c table))) one_order
cards_in_any_order_example = cards_in_any_order nowhere empty 5 edited urls jito table
