-- ===== src/Bot/Activation.antt =====
-- bot.ts: starting and stopping reach every strategy, whatever the engine answers.
use pumpy_v.Common.{
  ℕ, suc, ◌+◌, ◌≤◌, ◌≡◌, refl, sym, ◌∙◌, inl, inr, Bool, some, List, [], ◌∷◌, ◌++◌, map, length,
  append-nil, append_assoc, arith, Bool-cases,
}
use pumpy_v.Json.{Value, is_null}
use pumpy_v.Bot.{Engines, Call, to_python, get_request, body_or_null}
use pumpy_v.Bot.Control.{names_in, activate_request, count_if, activate_each, set_all_strategies}

module _ {N W : Type 0} (e : Engines N W) where
  count_if-le : (r : Value N) (k : ℕ) → count_if r k ≤ suc k
  count_if-le r k = elim (Bool-cases (is_null r)) [
    | inl h ↦ rw h (omega arith)
    | inr h ↦ rw h (omega arith)
  ]

  each_calls :
      (enabled : Bool) (k : ℕ) (names : List (Value N)) (w : W) (cs : List (Call N))
      → (activate_each e enabled k names (w, cs)).2
        ≡ cs ++ map (λ name. to_python (activate_request enabled name)) names
  unfolding activate_each
  each_calls enabled k [] w cs = sym (append-nil cs)
  each_calls enabled k (n ∷ names) w cs =
      each_calls enabled (count_if (body_or_null (e.fetch (activate_request enabled n) w).0) k)
        names _ _
      ∙ append_assoc cs (to_python (activate_request enabled n) ∷ []) _

  each_bound :
      (enabled : Bool) (k : ℕ) (names : List (Value N)) (w : W) (cs : List (Call N))
      → (activate_each e enabled k names (w, cs)).0 ≤ k + length names
  unfolding activate_each
  each_bound enabled k [] w cs = omega arith
  each_bound enabled k (n ∷ names) w cs = omega (
    arith,
    each_bound enabled (count_if (body_or_null (e.fetch (activate_request enabled n) w).0) k) names
        (e.fetch (activate_request enabled n) w).1
        (cs ++ to_python (activate_request enabled n) ∷ []),
    count_if-le (body_or_null (e.fetch (activate_request enabled n) w).0) k,
  )

  -- If the names can be read from the answer to the first request, starting or stopping then sends
  -- one activation for each name, in their order, whether or not the ones before were answered, and
  -- counts at most that many.
  pub set_all_strategies_calls :
      (enabled : Bool) (names : List (Value N)) (w : W) (cs : List (Call N))
      → names_in (body_or_null (e.fetch (get_request "/api/strategies") w).0) ≡ some names
      → ((set_all_strategies e enabled (w, cs)).2
          ≡ cs
            ++ to_python (get_request "/api/strategies")
              ∷ map (λ name. to_python (activate_request enabled name)) names)
        × ((n : ℕ) × ((set_all_strategies e enabled (w, cs)).0 ≡ some n) × (n ≤ length names))
  unfolding set_all_strategies
  set_all_strategies_calls enabled names w cs h =
      rw (set_all_strategies, h)
        (
          each_calls enabled 0 names _ _ ∙ append_assoc cs _ _,
          (
            _,
            refl,
            omega (
              arith,
              each_bound enabled 0 names (e.fetch (get_request "/api/strategies") w).1
                  (cs ++ to_python (get_request "/api/strategies") ∷ []),
            ),
          ),
        )
