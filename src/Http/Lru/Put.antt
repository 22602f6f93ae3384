-- ===== src/Http/Lru/Put.antt =====
-- `Put` of http/cache/lru.go against the list of values that Spec describes.
use datarhei_core.Prelude.{
  ℕ, ◌+◌, ◌^◌, ◌≤◌, ◌<◌, ◌≡◌, refl, sym, ap, ap₂, ◌∙◌, subst, ◌∷◌, none, some, String,
  String-discrete, dec_lt, arith, if_pos, if_neg, ℕ_discrete, Option-cases, Bool-cases, inl, inr,
  length, true, false,
}
use datarhei_core.Prelude.Map.{lookup, insert, total}
use datarhei_core.Prelude.Words.{add64, sub64}
use datarhei_core.Http.Lru.{
  Value, Cache, stored, too_big, push_front, evict, store, put, is_size_cacheable,
}
use datarhei_core.Http.Lru.Spec.{
  values, remove, sum_size, after_put, fit, sum_size-fit-le, sum_size-remove-le,
}
use datarhei_core.Http.Lru.Invariant.{Core, Inv, weight, sum_size-values, set_value-front}
use datarhei_core.Http.Lru.Steps.{renew-Core, values-renew, push-Core, values-push}
use datarhei_core.Http.Lru.Eviction.{evict-fit}
use datarhei_core.Http.Lru.Refinement.{move_to_front_hit}

stored_inj : {A : Type 0} {c d : Cache A} → stored c ≡ stored d → c ≡ d
stored_inj h = cc

module _ {A : Type 0} where
  -- The cache with the new value in front, before the eviction.
  record Stores (c : Cache A) (v : Value A) (c' : Cache A) : Type 0 where
    returned : store v c ≡ some c'
    contents : values c'.elements ≡ v ∷ remove v.key (values c.elements)
    core : Core c'
    same_config : c'.config ≡ c.config

  store-new :
      (c : Cache A) (v : Value A)
      → Core c
      → lookup String-discrete v.key c.objects ≡ none
      → Stores c v (push_front v c)
  unfolding store
  store-new c v core h = record {
    returned = ground arith;
    contents = values-push c v core h;
    core = push-Core c v core h;
    same_config = unfold push_front in refl;
  }

  store-old :
      (c : Cache A) (v old : Value A) (e : ℕ)
      → Core c
      → lookup String-discrete v.key c.objects ≡ some e
      → lookup ℕ_discrete e c.elements ≡ some old
      → old.key ≡ v.key
      → Stores c v (record c {
        elements = insert ℕ_discrete e v c.elements;
        size = add64 (sub64 c.size old.size) v.size;
      })
  unfolding store
  store-old c v old e core at_key at_e named = record {
    returned =
        ground (arith, move_to_front_hit e old c.elements at_e, set_value-front e old v c.elements);
    contents = values-renew c v.key e old core at_key at_e named v refl;
    core = renew-Core c v.key e old core at_key at_e named v refl;
    same_config = refl;
  }

  store-Stores : (c : Cache A) (v : Value A) → Core c → (c' : Cache A) × Stores c v c'
  store-Stores c v core = elim (Option-cases (lookup String-discrete v.key c.objects)) [
    | inl h ↦ (push_front v c, store-new c v core h)
    | inr (e, at_key) ↦
        let (old, at_e, named) = core.found v.key e at_key in
        (
          record c {
            elements = insert ℕ_discrete e v c.elements;
            size = add64 (sub64 c.size old.size) v.size;
          },
          store-old c v old e core at_key at_e named,
        )
  ]

  abbrev pub new_value : Cache A → String → A → ℕ → ℕ → Value A
  new_value c key o size now = record { key = key; obj = o; expire_at = now + c.ttl; size = size }

  pub record Puts (c : Cache A) (key : String) (o : A) (size now : ℕ) (c' : Cache A) : Type 0 where
    pub returned : put c key o size now ≡ stored c'
    pub contents :
        values c'.elements ≡ after_put c.max_size (new_value c key o size now) (values c.elements)
    pub valid : Inv c'
    pub same_config : c'.config ≡ c.config

  pub cacheable-le :
      (c : Cache A) (size : ℕ)
      → is_size_cacheable c size ≡ true
      → 0 < c.max_size
      → size ≤ c.max_size
  unfolding is_size_cacheable
  cacheable-le c size h p = ground arith

  put_unlimited :
      (c c1 : Cache A) (key : String) (o : A) (size now : ℕ)
      → Inv c
      → is_size_cacheable c size ≡ true
      → c.max_size ≡ 0
      → Stores c (new_value c key o size now) c1
      → Puts c key o size now c1
  unfolding put after_put
  put_unlimited c c1 key o size now i ok z s = record {
    returned = ground (arith, ap (λ x. x.max_size) s.same_config);
    contents = s.contents ∙ sym (if_neg (dec_lt 0 c.max_size) (omega arith) _ _);
    valid = record {
      core = s.core;
      within = λ p. absurd (omega (arith, ap (λ x. x.max_size) s.same_config));
      small = omega (arith, ap (λ x. x.max_size) s.same_config);
    };
    same_config = s.same_config;
  }

  -- The new value fits by itself, so the sum before the eviction does not wrap.
  stored-small :
      (c c1 : Cache A) (key : String) (o : A) (size now : ℕ)
      → Inv c
      → is_size_cacheable c size ≡ true
      → 0 < c.max_size
      → Stores c (new_value c key o size now) c1
      → total ℕ_discrete weight c1.elements < 2 ^ 64
  unfolding sum_size
  stored-small c c1 key o size now i ok z s = omega (
    arith,
    ap sum_size s.contents,
    sum_size-values c1.elements,
    sum_size-values c.elements,
    sum_size-remove-le key (values c.elements),
    i.within z,
    cacheable-le c size ok z,
  )

  put_limited :
      (c c1 : Cache A) (key : String) (o : A) (size now : ℕ)
      → Inv c
      → is_size_cacheable c size ≡ true
      → 0 < c.max_size
      → Stores c (new_value c key o size now) c1
      → Puts c key o size now (evict (length c1.elements) c1)
  unfolding put after_put
  put_limited c c1 key o size now i ok z s =
      let (kept, core, same) =
        evict-fit (length c1.elements) c1 s.core (stored-small c c1 key o size now i ok z s)
          (omega arith) in
      let limit = ap (λ x. x.max_size) s.same_config in
      let limit' = ap (λ x. x.max_size) same in
      record {
        returned = ground (arith, limit);
        contents = kept ∙ ap₂ fit limit s.contents ∙ sym (if_pos (dec_lt 0 c.max_size) z _ _);
        valid = record {
          core = core;
          within = λ p. omega (
            arith,
            sum_size-values (evict (length c1.elements) c1).elements,
            ap sum_size kept,
            sum_size-fit-le c1.max_size (values c1.elements),
            limit',
          );
          small = omega (arith, limit, limit');
        };
        same_config = same ∙ s.same_config;
      }

  -- For a cache that meets the invariant `Inv`, `Put` of an object whose size is cacheable reports
  -- no error, and the new state meets `Inv`, has the same configuration and the contents of
  -- `after_put`: the object is the first, another one of its key is gone, the rest keep their
  -- order, and, with a limit, the longest front part that fits it stays.
  pub put-Puts :
      (c : Cache A) (key : String) (o : A) (size now : ℕ)
      → Inv c
      → is_size_cacheable c size ≡ true
      → (c' : Cache A) × Puts c key o size now c'
  put-Puts c key o size now i ok =
      let (c1, s) = store-Stores c (new_value c key o size now) i.core in
      elim (dec_lt 0 c.max_size) [
        | yes z ↦ (evict (length c1.elements) c1, put_limited c c1 key o size now i ok z s)
        | no z ↦ (c1, put_unlimited c c1 key o size now i ok (omega arith) s)
      ]

  put_refused :
      (c : Cache A) (key : String) (o : A) (size now : ℕ)
      → is_size_cacheable c size ≡ false
      → put c key o size now ≡ too_big
  unfolding put
  put_refused c key o size now h = ground arith

  -- A `Put` that reports no error, on a cache that meets `Inv`, leaves one that meets `Inv`.
  pub put-Inv :
      (c c' : Cache A) (key : String) (o : A) (size now : ℕ)
      → Inv c
      → put c key o size now ≡ stored c'
      → Inv c'
  put-Inv c c' key o size now i h = elim (Bool-cases (is_size_cacheable c size)) [
    | inr big ↦ cc (h, put_refused c key o size now big)
    | inl ok ↦
        let (c'', p) = put-Puts c key o size now i ok in
        subst Inv (stored_inj (sym p.returned ∙ h)) p.valid
  ]
