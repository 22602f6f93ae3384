-- ===== src/Http/Lru/Refinement.antt =====
-- `Get` and `Delete` of http/cache/lru.go against the list of values that Spec describes.
use datarhei_core.Prelude.{
  ℕ, ◌≤◌, ◌<◌, ◌≡◌, refl, sym, ap, ◌∙◌, none, some, String, String-discrete, dec_lt, arith,
  ℕ_discrete, Option-cases, inl, inr,
}
use datarhei_core.Prelude.Map.{lookup, insert, total-delete, total-insert, delete-insert}
use datarhei_core.Http.Lru
use datarhei_core.Http.Lru.{
  Value, Cache, Elements, Stored, stored, too_big, move_to_front, set_value, drop_element,
  push_front, get, get_element, evict, store, replace, put, trim, is_size_cacheable,
}
use datarhei_core.Http.Lru.Spec.{values, find, remove, after_get, got}
use datarhei_core.Http.Lru.Invariant.{Inv, weight, find_absent, remove_absent}
use datarhei_core.Http.Lru.Steps.{
  drop-Core, values-drop, find_hit, touch-Core, values-renew, absent,
}

module _ {A : Type 0} where
  -- `Get` returns `o` and the lifetime `d`, and the cache becomes `c'`.
  pub record Gets (c : Cache A) (key : String) (now : ℕ) (c' : Cache A) : Type 0 where
    pub returned :
        get c key now
        ≡ some (
          c',
          (got key now c.ttl (values c.elements)).0,
          (got key now c.ttl (values c.elements)).1,
        )
    pub contents : values c'.elements ≡ after_get key now (values c.elements)
    pub valid : Inv c'
    pub same_config : c'.config ≡ c.config

  pub move_to_front_hit :
      (e : ℕ) (v : Value A) (l : Elements A)
      → lookup ℕ_discrete e l ≡ some v
      → move_to_front e l ≡ insert ℕ_discrete e v l
  unfolding move_to_front
  move_to_front_hit e v l h = rw (h, move_to_front)

  get_miss :
      (c : Cache A) (key : String) (now : ℕ)
      → Inv c
      → lookup String-discrete key c.objects ≡ none
      → Gets c key now c
  unfolding get got after_get
  get_miss c key now i h =
      let n = find_absent key c.elements (absent c key i.core h) in
      record { returned = ground arith; contents = ground arith; valid = i; same_config = refl }

  module _ (c : Cache A) (key : String) (now e : ℕ) (v : Value A) (i : Inv c)
      (at_key : lookup String-discrete key c.objects ≡ some e)
      (at_e : lookup ℕ_discrete e c.elements ≡ some v) (named : v.key ≡ key) where
    touched : Cache A
    touched = record c { elements = insert ℕ_discrete e v c.elements }

    drop_touched : drop_element e key v touched ≡ drop_element e key v c
    unfolding drop_element touched
    drop_touched =
        ap (λ l. record (drop_element e key v c) { elements = l })
          (delete-insert ℕ_discrete e v c.elements)

    drop-Inv : Inv (drop_element e key v c)
    unfolding drop_element
    drop-Inv = record {
      core = drop-Core c key e v i.core at_key at_e named;
      within = λ h. omega (
        arith,
        i.within h,
        total-delete ℕ_discrete weight e v c.elements i.core.one_address at_e,
      );
      small = i.small;
    }

    touched-Inv : Inv touched
    unfolding touched
    touched-Inv = record {
      core = touch-Core c key e v i.core at_key at_e named;
      within = λ h. omega (
        arith,
        i.within h,
        total-delete ℕ_discrete weight e v c.elements i.core.one_address at_e,
        total-insert ℕ_discrete weight e v c.elements,
      );
      small = i.small;
    }

    hit : find key (values c.elements) ≡ some v
    hit = find_hit c key e v i.core at_key at_e named

    values_dropped : values (drop_element e key v c).elements ≡ remove key (values c.elements)
    unfolding drop_element
    values_dropped = values-drop c key e v i.core at_key at_e named

    drop_config : (drop_element e key v c).config ≡ c.config
    unfolding drop_element
    drop_config = refl

    get_expired : v.expire_at < now → Gets c key now (drop_element e key v c)
    unfolding get got after_get touched
    get_expired late = record {
      returned = ground (arith, drop_touched, hit, move_to_front_hit e v c.elements at_e);
      contents = values_dropped ∙ sym (ground (arith, hit));
      valid = drop-Inv;
      same_config = drop_config;
    }

    get_hit : now ≤ v.expire_at → Gets c key now touched
    unfolding get got after_get touched
    get_hit late = record {
      returned = ground (arith, hit, move_to_front_hit e v c.elements at_e);
      contents =
          values-renew c key e v i.core at_key at_e named v named ∙ sym (ground (arith, hit));
      valid = touched-Inv;
      same_config = refl;
    }

  -- For a cache that meets `Inv`, `Get` does not fault; it returns what `got` finds in the list of
  -- values, an expired value counting as a miss, and the new state meets `Inv`, has the same
  -- configuration and the contents of `after_get`: a hit comes first, an expired value is gone.
  pub get-Gets : (c : Cache A) (key : String) (now : ℕ) → Inv c → (c' : Cache A) × Gets c key now c'
  get-Gets c key now i = elim (Option-cases (lookup String-discrete key c.objects)) [
    | inl h ↦ (c, get_miss c key now i h)
    | inr (e, at_key) ↦
        let (v, at_e, named) = i.core.found key e at_key in
        elim (dec_lt v.expire_at now) [
          | yes late ↦ (drop_element e key v c, get_expired c key now e v i at_key at_e named late)
          | no fresh ↦ (
            record c { elements = insert ℕ_discrete e v c.elements },
            unfold touched in get_hit c key now e v i at_key at_e named (omega arith),
          )
        ]
  ]

  -- For a cache that meets `Inv`, `Delete` does not fault, leaves the values in their order
  -- without the one of the key, and keeps `Inv`.
  pub delete-contents :
      (c : Cache A) (key : String)
      → Inv c
      → (c' : Cache A) × (Lru.delete c key ≡ some c')
        × (values c'.elements ≡ remove key (values c.elements))
        × Inv c'
  unfolding Lru.delete
  delete-contents c key i = elim (Option-cases (lookup String-discrete key c.objects)) [
    | inl h ↦ (c, ground arith, sym (remove_absent key c.elements (absent c key i.core h)), i)
    | inr (e, at_key) ↦
        let (v, at_e, named) = i.core.found key e at_key in
        (
          drop_element e key v c,
          ground arith,
          values_dropped c key 0 e v i at_key at_e named,
          drop-Inv c key 0 e v i at_key at_e named,
        )
  ]
