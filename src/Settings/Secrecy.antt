-- ===== src/Settings/Secrecy.antt =====
-- settings.ts: the status page does not depend on the text of a secret.
use pumpy_v.Common.{
  String, ◌≡◌, refl, ap, ap₂, inl, inr, true, false, Option, List, [], ◌∷◌, map, Bool-cases,
}
use pumpy_v.Text.{Text}
use pumpy_v.Settings.{Env, env_var_of, env_var, env_vars, is_set, or_text, db_val}
use pumpy_v.Settings.Catalogue.{EnvVarDef, env_var_defs, is_secret}

entry_secret :
    (def : EnvVarDef) (d v v' : Option Text)
    → is_secret def.key ≡ true
    → is_set v ≡ is_set v'
    → env_var_of def d v ≡ env_var_of def d v'
entry_secret def d v v' hs e = elim (Bool-cases (is_set d)) [
  | inl hd ↦ rw (env_var_of, or_text, hd) refl
  | inr hd ↦ rw (env_var_of, or_text, hd, hs, e) refl
]

entry_same :
    (env env' config : Env) (def : EnvVarDef)
    → ((k : String) → is_secret k ≡ false → env k ≡ env' k)
    → ((k : String) → is_set (env k) ≡ is_set (env' k))
    → env_var env config def ≡ env_var env' config def
entry_same env env' config def same present = elim (Bool-cases (is_secret def.key)) [
  | inl h ↦
      entry_secret def (db_val config def.key) (env def.key) (env' def.key) h (present def.key)
  | inr h ↦ ap (env_var_of def (db_val config def.key)) (same def.key h)
]

map_same : {A B : Type 0} (f g : A → B) (xs : List A) → ((x : A) → f x ≡ g x) → map f xs ≡ map g xs
map_same f g [] h = refl
map_same f g (x ∷ xs) h = ap₂ ◌∷◌ (h x) (map_same f g xs h)

-- Two environments that agree on every variable but the private key and the database URL, and on
-- which variables are set, get the same list of variables, with its flags, sources and masked texts.
pub env_vars_secret :
    (env env' config : Env)
    → ((k : String) → is_secret k ≡ false → env k ≡ env' k)
    → ((k : String) → is_set (env k) ≡ is_set (env' k))
    → env_vars env config ≡ env_vars env' config
env_vars_secret env env' config same present =
    map_same (env_var env config) (env_var env' config) env_var_defs
      (λ def. entry_same env env' config def same present)
