-- ===== src/Wallets/Domain.antt =====
-- wallets.ts: only the known statuses and presets are stored.
use pumpy_v.Common.{
  ℕ, ◌≡◌, String, Bool, true, Option, none, some, List, [], ◌∷◌, arith, All, subst, sym,
}
use pumpy_v.Js.{Js}
use pumpy_v.Wallets.{
  RegistryRow, ConfigRow, Db, ConfigUpdate, set_registry_status, update_config, valid_presets,
  valid_statuses, among, Mutation, request,
}
use pumpy_v.Wallets.Gate.{Write, nothing, config_only, both, request-Write, IsPresetOk, IsStatusOk}

set_registry_status-IsKnown :
    (i status : String) (rs : List RegistryRow)
    → among valid_statuses status ≡ true
    → All (λ r. among valid_statuses r.status ≡ true) rs
    → All (λ r. among valid_statuses r.status ≡ true) (set_registry_status i status rs)
set_registry_status-IsKnown i status [] h a = tt
set_registry_status-IsKnown i status (r ∷ rs) h a =
    (ground (arith, a.0), set_registry_status-IsKnown i status rs h a.1)

none-IsStatusOk : (s : Option String) → s ≡ none → IsStatusOk s
none-IsStatusOk none h = tt
none-IsStatusOk (some t) h = cc

some-IsStatusOk :
    (s : Option String) (t : String) → s ≡ some t → among valid_statuses t ≡ true → IsStatusOk s
some-IsStatusOk s t h v = subst IsStatusOk (sym h) v

module _ {N : Type 0} where
  abbrev pub IsKnown : ConfigRow N → Type 0
  IsKnown c =
      (among valid_statuses c.status ≡ true) × (among valid_presets c.strategy_preset ≡ true)

  pub record IsValid (d : Db N) : Type 0 where
    pub config : All IsKnown d.config
    pub registry : All (λ r. among valid_statuses r.status ≡ true) d.registry

  update_config-IsKnown :
      (i : String) (u : ConfigUpdate N) (cs : List (ConfigRow N))
      → IsStatusOk u.status
      → IsPresetOk u
      → All IsKnown cs
      → All IsKnown (update_config i u cs)
  update_config-IsKnown i u [] s p a = tt
  update_config-IsKnown i u (c ∷ cs) s p a =
      (ground (arith, a.0, s, p), update_config-IsKnown i u cs s p a.1)

  Write-IsValid : {d d' : Db N} → Write d d' → IsValid d → IsValid d'
  Write-IsValid nothing v = v
  Write-IsValid {d} (config_only i u h p) v = record {
    config = update_config-IsKnown i u d.config (none-IsStatusOk u.status h) p v.config;
    registry = v.registry;
  }
  Write-IsValid {d} (both i status u h s p) v = record {
    config = update_config-IsKnown i u d.config (some-IsStatusOk u.status status h s) p v.config;
    registry = set_registry_status-IsKnown i status d.registry s v.registry;
  }

-- If every row has one of the three statuses, and every configuration one of the three presets, that
-- is still so after any request, with any key, any values in its body and any faults of the database.
pub request-IsValid :
    (js : Js) (admin_key provided : Option String) (m : Mutation js) (now : ℕ) (d : Db js.Number)
    (fs : List Bool)
    → IsValid d
    → IsValid (request js admin_key provided m now (d, fs)).1
request-IsValid js k p m now d fs v = Write-IsValid (request-Write js k p m now d fs) v
