-- ===== src/Http/Lru.antt =====
-- http/cache/lru.go: the least-recently-used cache. `container/list` is a list of elements with
-- their addresses, front first; the map `objects` holds addresses. A pointer that leads nowhere is
-- a fault, `none`. The cached object is of any type. Time is a number that each call is given, and
-- the durations are not negative.
pub mod Spec
pub mod Invariant
pub mod Steps
pub mod Eviction
pub mod Refinement
pub mod Put
pub mod Reads
mod Tests
use datarhei_core.Prelude.{
  ℕ, zero, suc, ◌+◌, ◌-◌, Bool, true, false, not, ◌&&◌, ◌||◌, List, [], ◌∷◌, Option, none, some,
  String, String-discrete, ite, dec_lt, ℕ_discrete, length, ltb, ◌==◌, if◌then◌else◌,
}
use datarhei_core.Prelude.Map
use datarhei_core.Prelude.Words.{add64, sub64}

pub record Value (A : Type 0) : Type 0 where
  pub key : String
  pub obj : A
  pub expire_at : ℕ
  pub size : ℕ

pub record Config : Type 0 where
  pub ttl : ℕ
  pub max_size : ℕ
  pub max_file_size : ℕ
  pub allow_extensions : List String
  pub block_extensions : List String

abbrev pub Elements : Type 0 → Type 0
Elements A = List (ℕ × Value A)

pub record Cache (A : Type 0) : Type 0 where
  pub config : Config
  pub open config use *
  pub objects : List (String × ℕ)
  pub elements : Elements A
  pub size : ℕ  -- uint64
  pub next : ℕ  -- the next address

-- The result of `Put`.
pub data Stored (A : Type 0) : Type 0 where
  stored : Cache A → Stored A
  too_big fault : Stored A

-- `container/list`, over addresses.
module _ {A : Type 0} where
  -- `MoveToFront`
  pub move_to_front : ℕ → Elements A → Elements A
  move_to_front e l = elim (Map.lookup ℕ_discrete e l) [
    | none ↦ l
    | some v ↦ Map.insert ℕ_discrete e v l
  ]

  -- `elm.Value = v`
  pub set_value : ℕ → Value A → Elements A → Elements A
  set_value e v [] = []
  set_value e v ((j, w) ∷ l) =
      let rest = set_value e v l in ite (ℕ_discrete j e) ((j, v) ∷ l) ((j, w) ∷ rest)

  -- `Back`
  pub back : Elements A → Option (ℕ × Value A)
  back [] = none
  back (x ∷ []) = some x
  back (x ∷ y ∷ l) = back (y ∷ l)

pub new_lru_cache : {A : Type 0} → Config → Option (Cache A)
new_lru_cache c =
    if not (c.max_size == 0) && ltb c.max_size c.max_file_size
    then none
    else some (record { config = c; objects = []; elements = []; size = 0; next = 0 })

-- The loop over a list of extensions.
pub contains : String → List String → Bool
contains extension [] = false
contains extension (e ∷ es) =
    let rest = contains extension es in ite (String-discrete extension e) true rest

is_empty : List String → Bool
is_empty [] = true
is_empty (e ∷ es) = false

module _ {A : Type 0} where
  pub is_extension_cacheable : Cache A → String → Bool
  unfolding is_empty
  is_extension_cacheable c extension =
      if is_empty c.allow_extensions && is_empty c.block_extensions
      then true
      else if contains extension c.block_extensions
      then false
      else if is_empty c.allow_extensions
      then true
      else contains extension c.allow_extensions

  pub is_size_cacheable : Cache A → ℕ → Bool
  is_size_cacheable c size =
      if not (c.max_size == 0) && ltb c.max_size size
      then false
      else if not (c.max_file_size == 0) && ltb c.max_file_size size
      then false
      else true

  -- `removeElement`, and the `delete` that follows each call of it
  pub drop_element : ℕ → String → Value A → Cache A → Cache A
  drop_element e key v c = record c {
    objects = Map.delete String-discrete key c.objects;
    elements = Map.delete ℕ_discrete e c.elements;
    size = sub64 c.size v.size;
  }

  get_element : ℕ → Option (Value A) → Cache A → String → ℕ → Option (Cache A × Option A × ℕ)
  get_element e none c key now = none
  get_element e (some v) c key now =
      let c' = record c { elements = move_to_front e c.elements } in
      if ltb v.expire_at now
      then some (drop_element e key v c', none, c.ttl)
      else some (c', some v.obj, v.expire_at - now)

  pub get : Cache A → String → ℕ → Option (Cache A × Option A × ℕ)
  unfolding get_element
  get c key now = elim (Map.lookup String-discrete key c.objects) [
    | none ↦ some (c, none, c.ttl)
    | some e ↦ get_element e (Map.lookup ℕ_discrete e c.elements) c key now
  ]

  replace : ℕ → Option (Value A) → Value A → Cache A → Option (Cache A)
  replace e none v c = none
  replace e (some old) v c = some (record c {
    elements = set_value e v (move_to_front e c.elements);
    size = add64 (sub64 c.size old.size) v.size;
  })

  pub push_front : Value A → Cache A → Cache A
  push_front v c = record c {
    objects = Map.insert String-discrete v.key c.next c.objects;
    elements = (c.next, v) ∷ c.elements;
    size = add64 c.size v.size;
    next = suc c.next;
  }

  pub store : Value A → Cache A → Option (Cache A)
  unfolding replace
  store v c = elim (Map.lookup String-discrete v.key c.objects) [
    | none ↦ some (push_front v c)
    | some e ↦ replace e (Map.lookup ℕ_discrete e c.elements) v c
  ]

  -- The loop of `Put`. Each round removes an element, so their number is enough fuel.
  pub evict : ℕ → Cache A → Cache A
  evict zero c = c
  evict (suc fuel) c = elim (ltb c.max_size c.size) [
    | false ↦ c
    | true ↦ elim (back c.elements) [
      | none ↦ c
      | some (e, v) ↦ evict fuel (drop_element e v.key v c)
    ]
  ]

  trim : Cache A → Cache A
  trim c = if ltb 0 c.max_size then evict (length c.elements) c else c

  trimmed : Option (Cache A) → Stored A
  unfolding trim
  trimmed none = fault
  trimmed (some c) = stored (trim c)

  pub put : Cache A → String → A → ℕ → ℕ → Stored A
  unfolding trimmed
  put c key o size now =
      if not (is_size_cacheable c size)
      then too_big
      else trimmed (store (record { key = key; obj = o; expire_at = now + c.ttl; size = size }) c)

  delete_element : ℕ → Option (Value A) → Cache A → String → Option (Cache A)
  delete_element e none c key = none
  delete_element e (some v) c key = some (drop_element e key v c)

  pub delete : Cache A → String → Option (Cache A)
  unfolding delete_element
  delete c key = elim (Map.lookup String-discrete key c.objects) [
    | none ↦ some c
    | some e ↦ delete_element e (Map.lookup ℕ_discrete e c.elements) c key
  ]

  pub purge : Cache A → Cache A
  purge c = record c { objects = []; elements = []; size = 0 }
