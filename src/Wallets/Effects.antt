-- ===== src/Wallets/Effects.antt =====
-- wallets.ts: the two tables tell the same status of a wallet, and a halt is not final.
use pumpy_v.Common.{
  ℕ, ◌≡◌, refl, ◌⊎◌, String, Bool, true, false, Option, none, some, List, [], ◌∷◌, str_eq, arith,
  All, if◌then◌else◌, eq_iff,
}
use pumpy_v.Js.{Js}
use pumpy_v.Wallets.{
  RegistryRow, ConfigRow, Db, ConfigUpdate, set_registry_status, update_row, update_config,
  Mutation, resumes, halts, handle, request, status_update, status_is,
}
use pumpy_v.Wallets.Gate.{Write, nothing, config_only, both, request-Write}

module _ {N : Type 0} where
  abbrev pub SameStatus : ConfigRow N → RegistryRow → Type 0
  SameStatus c r = (str_eq c.wallet_id r.wallet_id ≡ false) ⊎ (c.status ≡ r.status)

  -- Rows of the two tables for the same wallet have the same status.
  abbrev pub Agree : Db N → Type 0
  Agree d = All (λ c. All (λ r. SameStatus c r) d.registry) d.config

  status-SameStatus :
      (i : String) (u : ConfigUpdate N) (c : ConfigRow N) (rs : List RegistryRow)
      → u.status ≡ none
      → All (λ r. SameStatus c r) rs
      → All (λ r. SameStatus (if str_eq c.wallet_id i then update_row u c else c) r) rs
  status-SameStatus i u c [] h a = tt
  status-SameStatus i u c (r ∷ rs) h a = (ground (arith, a.0), status-SameStatus i u c rs h a.1)

  config_only-Agree :
      (i : String) (u : ConfigUpdate N) (cs : List (ConfigRow N)) (rs : List RegistryRow)
      → u.status ≡ none
      → All (λ c. All (λ r. SameStatus c r) rs) cs
      → All (λ c. All (λ r. SameStatus c r) rs) (update_config i u cs)
  config_only-Agree i u [] rs h a = tt
  config_only-Agree i u (c ∷ cs) rs h a =
      (status-SameStatus i u c rs h a.0, config_only-Agree i u cs rs h a.1)

  both-SameStatus :
      (i status : String) (u : ConfigUpdate N) (c : ConfigRow N) (rs : List RegistryRow)
      → u.status ≡ some status
      → All (λ r. SameStatus c r) rs
      → All
          (λ r. SameStatus (if str_eq c.wallet_id i then update_row u c else c) r)
          (set_registry_status i status rs)
  both-SameStatus i status u c [] h a = tt
  both-SameStatus i status u c (r ∷ rs) h a = (
    ground (arith, a.0, eq_iff c.wallet_id i, eq_iff r.wallet_id i, eq_iff c.wallet_id r.wallet_id),
    both-SameStatus i status u c rs h a.1,
  )

  both-Agree :
      (i status : String) (u : ConfigUpdate N) (cs : List (ConfigRow N)) (rs : List RegistryRow)
      → u.status ≡ some status
      → All (λ c. All (λ r. SameStatus c r) rs) cs
      → All
          (λ c. All (λ r. SameStatus c r) (set_registry_status i status rs))
          (update_config i u cs)
  both-Agree i status u [] rs h a = tt
  both-Agree i status u (c ∷ cs) rs h a =
      (both-SameStatus i status u c rs h a.0, both-Agree i status u cs rs h a.1)

  Write-Agree : {d d' : Db N} → Write d d' → Agree d → Agree d'
  Write-Agree nothing a = a
  Write-Agree {d} (config_only i u h p) a = config_only-Agree i u d.config d.registry h a
  Write-Agree {d} (both i status u h v p) a = both-Agree i status u d.config d.registry h a

  -- Every row of the wallet, in both tables, has this status.
  abbrev pub HasStatus : String → String → Db N → Type 0
  HasStatus i status d =
      All (λ c. (str_eq c.wallet_id i ≡ false) ⊎ (c.status ≡ status)) d.config
      × All (λ r. (str_eq r.wallet_id i ≡ false) ⊎ (r.status ≡ status)) d.registry

  pub config-HasStatus :
      (i status : String) (u : ConfigUpdate N) (cs : List (ConfigRow N))
      → u.status ≡ some status
      → All (λ c. (str_eq c.wallet_id i ≡ false) ⊎ (c.status ≡ status)) (update_config i u cs)
  config-HasStatus i status u [] h = tt
  config-HasStatus i status u (c ∷ cs) h = (ground arith, config-HasStatus i status u cs h)

pub registry-HasStatus :
    (i status : String) (rs : List RegistryRow)
    → All
        (λ r. (str_eq r.wallet_id i ≡ false) ⊎ (r.status ≡ status))
        (set_registry_status i status rs)
registry-HasStatus i status [] = tt
registry-HasStatus i status (r ∷ rs) = (ground arith, registry-HasStatus i status rs)

-- If the two tables agree on the status of every wallet, they still do after any request, with any
-- key and any faults of the database.
pub request-Agree :
    (js : Js) (admin_key provided : Option String) (m : Mutation js) (now : ℕ) (d : Db js.Number)
    (fs : List Bool)
    → Agree d
    → Agree (request js admin_key provided m now (d, fs)).1
request-Agree js k p m now d fs a = Write-Agree (request-Write js k p m now d fs) a

-- A resume with no faults succeeds on a database in any state, one that a halt has just left
-- included, and gives every row of the wallet the status "enabled": a halt is not permanent.
pub resume-halt :
    (js : Js) (i : String) (earlier now : ℕ) (d : Db js.Number)
    → let halted = handle js (halts i (some true)) earlier (d, []) in
      let resumed = handle js (resumes i) now (halted.1, []) in
      HasStatus i "halted" halted.1
      × (resumed.0 ≡ status_is i "enabled")
      × HasStatus i "enabled" resumed.1
unfolding handle
resume-halt js i earlier now d = (
  (
    config-HasStatus i "halted" (status_update "halted" earlier) d.config refl,
    registry-HasStatus i "halted" d.registry,
  ),
  refl,
  (
    config-HasStatus i "enabled" (status_update "enabled" now) _ refl,
    registry-HasStatus i "enabled" _,
  ),
)
