-- ===== src/Json.antt =====
-- The values that JSON.parse gives, and what the routes do with them: reading a property, `??`,
-- truthiness and JSON.stringify. A field list is in the order in which JavaScript enumerates it.
use pumpy_v.Common.{
  ℕ, String, Bool, true, false, Option, none, some, List, [], ◌∷◌, if◌then◌else◌, str_eq, truthy,
}

mutual
  pub data Value (N : Type 0) : Type 0 where
    undefined : Value N
    null : Value N
    boolean : Bool → Value N
    number : N → Value N
    text : String → Value N
    array : Items N → Value N
    object : Fields N → Value N

  pub data Items (N : Type 0) : Type 0 where
    no_items : Items N
    item : Value N → Items N → Items N

  pub data Fields (N : Type 0) : Type 0 where
    no_fields : Fields N
    field : String → Value N → Fields N → Fields N

-- JavaScript's numbers and the coercion `Number(v)`, which throws (`none`) on some objects.
pub record Numbers (N : Type 0) : Type 0 where
  -- the literal `m / 10 ^ k`
  pub literal : ℕ → ℕ → N
  -- false on 0 and NaN
  pub truthy_number : N → Bool
  -- `n > 0`
  pub positive : N → Bool
  pub times : N → N → N
  pub over : N → N → N
  -- `Math.round`
  pub round : N → N
  pub number_of : Value N → Option N
  -- What `{ ...v }` copies of a value that is not an object: an array's elements and a text's
  -- characters under their indices.
  pub spread_other : Value N → Fields N

module _ {N : Type 0} where
  abbrev pub items_of : Items N → List (Value N)
  items_of no_items = []
  items_of (item v vs) = v ∷ items_of vs

  abbrev pub array_of : List (Value N) → Items N
  array_of [] = no_items
  array_of (v ∷ vs) = item v (array_of vs)

  -- `Object.values`
  abbrev pub values_of : Fields N → List (Value N)
  values_of no_fields = []
  values_of (field k v fs) = v ∷ values_of fs

  abbrev pub fields_of : List (String × Value N) → Fields N
  fields_of [] = no_fields
  fields_of ((k, v) ∷ kvs) = field k v (fields_of kvs)

  abbrev pub get : Fields N → String → Value N
  get no_fields k = undefined
  get (field k' v fs) k = if str_eq k' k then v else get fs k

  -- An assignment keeps the place of a field that is there already.
  abbrev pub set_field : String → Value N → Fields N → Fields N
  set_field k v no_fields = field k v no_fields
  set_field k v (field k' v' fs) =
      if str_eq k' k then field k v fs else field k' v' (set_field k v fs)

  -- `{ ...v }`
  abbrev pub spread : Numbers N → Value N → Fields N
  spread num (object fs) = fs
  spread num (array vs) = num.spread_other (array vs)
  spread num (text s) = num.spread_other (text s)
  spread num undefined = no_fields
  spread num null = no_fields
  spread num (boolean b) = no_fields
  spread num (number n) = no_fields

  -- The properties of a value: reading one throws (`none`) on undefined and null.
  abbrev pub reader : Value N → Option (String → Value N)
  reader undefined = none
  reader null = none
  reader (object fs) = some (get fs)
  reader (boolean b) = some (λ k. undefined)
  reader (number n) = some (λ k. undefined)
  reader (text s) = some (λ k. undefined)
  reader (array vs) = some (λ k. undefined)

  -- `v ?? d`
  abbrev pub or_default : Value N → Value N → Value N
  or_default undefined d = d
  or_default null d = d
  or_default (boolean b) d = boolean b
  or_default (number n) d = number n
  or_default (text s) d = text s
  or_default (array vs) d = array vs
  or_default (object fs) d = object fs

  abbrev pub is_truthy : Numbers N → Value N → Bool
  is_truthy num undefined = false
  is_truthy num null = false
  is_truthy num (boolean b) = b
  is_truthy num (number n) = num.truthy_number n
  is_truthy num (text s) = truthy s
  is_truthy num (array vs) = true
  is_truthy num (object fs) = true

  -- `v || d`
  abbrev pub or_falsy : Numbers N → Value N → Value N → Value N
  or_falsy num v d = if is_truthy num v then v else d

  abbrev pub is_null : Value N → Bool
  is_null null = true
  is_null _ = false

  abbrev pub elements : Value N → Option (List (Value N))
  elements (array vs) = some (items_of vs)
  elements _ = none

  -- `JSON.stringify` leaves out the fields that are undefined.
  abbrev pub with_field : String → Value N → Fields N → Fields N
  with_field k undefined fs = fs
  with_field k null fs = field k null fs
  with_field k (boolean b) fs = field k (boolean b) fs
  with_field k (number n) fs = field k (number n) fs
  with_field k (text s) fs = field k (text s) fs
  with_field k (array vs) fs = field k (array vs) fs
  with_field k (object os) fs = field k (object os) fs

  abbrev pub defined : List (String × Value N) → Fields N
  defined [] = no_fields
  defined ((k, v) ∷ kvs) = with_field k v (defined kvs)

-- `map` with a function that may throw.
abbrev pub map_or_throw : {A B : Type 0} → (A → Option B) → List A → Option (List B)
map_or_throw f [] = some []
map_or_throw f (x ∷ xs) = elim (f x) [
  | none ↦ none
  | some y ↦ elim (map_or_throw f xs) [ none ↦ none | some ys ↦ some (y ∷ ys) ]
]
