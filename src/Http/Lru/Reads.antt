-- ===== src/Http/Lru/Reads.antt =====
-- What a client of the cache of `lru.go` sees: a new and a purged cache, a read after a write, and
-- which files may be cached.
use mathlib.Core.List.{Memᴰ}
use datarhei_core.Prelude.{
  ℕ, ◌+◌, ◌-◌, ◌^◌, ◌≤◌, ◌<◌, ◌≡◌, refl, sym, ap, ◌∙◌, subst, List, [], ◌∷◌, some, String,
  String-discrete, arith, if_pos, if_neg, ◌↔◌, Bool-cases, not, ◌&&◌, ◌==◌, ◌⊎◌, inl, inr, ltb,
  true, false,
}
use datarhei_core.Prelude.Map.{lookup, total, some_inj}
use datarhei_core.Http.Lru.{
  Value, Config, Cache, get, put, stored, new_lru_cache, purge, contains, is_extension_cacheable,
  is_size_cacheable, is_empty,
}
use datarhei_core.Http.Lru.Spec.{values, find, got, after_put, fit}
use datarhei_core.Http.Lru.Invariant.{Inv}
use datarhei_core.Http.Lru.Refinement.{get-Gets}
use datarhei_core.Http.Lru.Put.{cacheable-le, put-Puts, new_value}

module _ {A : Type 0} where
  empty-Inv :
      (c : Config) (n : ℕ)
      → c.max_size < 2 ^ 63
      → Inv {A = A} (record { config = c; objects = []; elements = []; size = 0; next = n })
  unfolding lookup total
  empty-Inv c n h = record {
    core = record {
      one_key = tt;
      one_address = tt;
      fresh = λ e v p. absurd (cc p);
      linked = λ e v p. absurd (cc p);
      found = λ k e p. absurd (cc p);
      sized = refl;
    };
    within = λ p. omega arith;
    small = h;
  }

  pub purge-Inv : (c : Cache A) → Inv c → Inv (purge c)
  unfolding purge
  purge-Inv c i = empty-Inv c.config c.next i.small

  pub new_lru_cache-Inv :
      (c : Config) {l : Cache A} → c.max_size < 2 ^ 63 → new_lru_cache c ≡ some l → Inv l
  unfolding new_lru_cache
  new_lru_cache-Inv c h e =
      elim (Bool-cases (not (c.max_size == 0) && ltb c.max_size c.max_file_size)) [
        | inl bad ↦ absurd (ground arith)
        | inr good ↦ subst Inv (some_inj (created good e)) (empty-Inv c 0 h)
      ]
    where
      created :
          {l : Cache A}
          → (not (c.max_size == 0) && ltb c.max_size c.max_file_size) ≡ false
          → new_lru_cache c ≡ some l
          → some (record { config = c; objects = []; elements = []; size = 0; next = 0 }) ≡ some l
      created g e = ground arith

  -- The front value is the one that is found, and it fits.
  found_front :
      (max : ℕ) (v : Value A) (l : List (Value A))
      → (0 < max → v.size ≤ max)
      → find v.key (after_put max v l) ≡ some v
  unfolding find after_put fit
  found_front max v l h = ground arith

  got_found :
      (key : String) (later ttl : ℕ) (v : Value A) (l : List (Value A))
      → find key l ≡ some v
      → later ≤ v.expire_at
      → got key later ttl l ≡ (some v.obj, v.expire_at - later)
  unfolding got
  got_found key later ttl v l f h = ground arith

  -- For a cache that meets `Inv`, an object whose size is cacheable is stored by `Put`, and `Get`
  -- of its key, not later than the time of the put and the lifetime together, returns it with the
  -- time that is left.
  pub put-get :
      (c : Cache A) (key : String) (o : A) (size now later : ℕ)
      → Inv c
      → is_size_cacheable c size ≡ true
      → later ≤ now + c.ttl
      → (c' c'' : Cache A) × (put c key o size now ≡ stored c')
        × (get c' key later ≡ some (c'', some o, now + c.ttl - later))
  put-get c key o size now later i ok h =
      let (c', p) = put-Puts c key o size now i ok in
      let (c'', g) = get-Gets c' key later p.valid in
      (
        c',
        c'',
        p.returned,
        g.returned
            ∙ ap (λ r. some (c'', r.0, r.1))
                (got_found key later c'.ttl (new_value c key o size now) (values c'.elements)
                  (ap (find key) p.contents
                    ∙ found_front c.max_size (new_value c key o size now) (values c.elements)
                        (cacheable-le c size ok))
                  h),
      )

contains_sound :
    (extension : String) (l : List String) → contains extension l ≡ true → Memᴰ extension l
unfolding contains
contains_sound extension [] h = cc
contains_sound extension (e ∷ l) h = elim (String-discrete extension e) [
  | yes p ↦ Memᴰ.head p
  | no n ↦
      Memᴰ.tail (contains_sound extension l (sym (if_neg (String-discrete extension e) n _ _) ∙ h))
]

contains_complete :
    (extension : String) (l : List String) → Memᴰ extension l → contains extension l ≡ true
unfolding contains
contains_complete extension [] m = elim m [ ]
contains_complete extension (e ∷ l) (Memᴰ.head p) = if_pos (String-discrete extension e) p _ _
contains_complete extension (e ∷ l) (Memᴰ.tail m) = ground (arith, contains_complete extension l m)

is_empty_lem : (l : List String) → is_empty l ≡ true → l ≡ []
unfolding is_empty
is_empty_lem [] h = refl
is_empty_lem (x ∷ l) h = cc

contains_empty :
    (extension : String) (l : List String) → is_empty l ≡ true → contains extension l ≡ false
unfolding is_empty contains
contains_empty extension [] h = refl
contains_empty extension (x ∷ l) h = cc

-- An extension is cacheable exactly if it is not a member of the blocked ones, and the allowed
-- ones are none or have it as a member.
pub is_extension_cacheable_iff :
    {A : Type 0} (c : Cache A) (extension : String)
    → (is_extension_cacheable c extension ≡ true) ↔ (
        (¬ Memᴰ extension c.block_extensions)
        × ((c.allow_extensions ≡ []) ⊎ (Memᴰ extension c.allow_extensions)))
unfolding is_extension_cacheable is_empty
is_extension_cacheable_iff c extension = (λ h. (blocked h, allowed h), λ h. cacheable h.0 h.1)
  where
    open c use {allow_extensions, block_extensions}

    blocked : is_extension_cacheable c extension ≡ true → Memᴰ extension block_extensions → ⊥
    blocked h m = ground (
      arith,
      contains_complete extension block_extensions m,
      contains_empty extension block_extensions,
    )

    allowed :
        is_extension_cacheable c extension ≡ true
        → (allow_extensions ≡ []) ⊎ (Memᴰ extension allow_extensions)
    allowed h =
        ground (arith, is_empty_lem allow_extensions, contains_sound extension allow_extensions)

    cacheable :
        (¬ Memᴰ extension block_extensions)
        → (allow_extensions ≡ []) ⊎ (Memᴰ extension allow_extensions)
        → is_extension_cacheable c extension ≡ true
    cacheable n a = elim (Bool-cases (contains extension block_extensions)) [
      | inl b ↦ absurd (n (contains_sound extension block_extensions b))
      | inr b ↦ elim a [
        | inl e ↦ ground (arith, ap is_empty e)
        | inr m ↦ ground (arith, contains_complete extension allow_extensions m)
      ]
    ]
