-- ===== src/Grpc/Tests.antt =====
-- grpc-client.ts: making a client fails once and then succeeds.
use pumpy_v.Common.{ℕ, ◌≡◌, refl, true, Option, none, some, List, [], ◌∷◌, All}
use pumpy_v.Json.{text, fields_of}
use pumpy_v.Bot.{GrpcCall, cancel_order, get_portfolio_summary}
use pumpy_v.Grpc.{Library, Sent, call_unary, unary_call}
use pumpy_v.Grpc.Client.{run, run_one_client}

-- Clients are numbers.
abbrev library : Library ℕ ℕ
library = record { has_method = λ c m. true; respond = λ s. none }

abbrev history : List (Option ℕ × GrpcCall ℕ)
history = (none, get_portfolio_summary) ∷ (some 1, cancel_order "o1") ∷ []

abbrev later : List (Option ℕ × GrpcCall ℕ)
later = (some 2, get_portfolio_summary) ∷ []

kept_one : (run library history (record { client = none; sent = [] })).client ≡ some 1
unfolding call_unary unary_call
kept_one = refl

one_left :
    (run library history (record { client = none; sent = [] })).sent
    ≡ record {
      client = 1;
      method = "CancelOrder";
      request = fields_of (("order_id", text "o1") ∷ []);
    }
      ∷ []
unfolding call_unary unary_call
one_left = refl

run_one_client_example :
    let last = run library later (run library history (record { client = none; sent = [] })) in
    (last.client ≡ some 1) × All (λ (s : Sent ℕ ℕ). s.client ≡ 1) last.sent
run_one_client_example = run_one_client library history later 1 kept_one
