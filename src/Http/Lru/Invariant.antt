-- ===== src/Http/Lru/Invariant.antt =====
-- The invariant that ties the map of http/cache/lru.go to its list, and the list's operations.
use datarhei_core.Prelude.{
  ℕ, ◌^◌, ◌≤◌, ◌<◌, ◌≡◌, ◌≢◌, refl, ap, ◌∙◌, subst, [], ◌∷◌, none, some, String, String-discrete,
  arith, if_pos, if_neg, All, ◌↔◌, ℕ_discrete,
}
use datarhei_core.Prelude.Map.{lookup, insert, delete, IsMap, total}
use datarhei_core.Prelude.Words.{u64}
use datarhei_core.Http.Lru.{Value, Cache, Elements, set_value, back}
use datarhei_core.Http.Lru.Spec.{values, find, remove, sum_size, drop_last}

module _ {A : Type 0} where
  abbrev pub weight : Value A → ℕ
  weight v = v.size

  -- The map and the list describe the same elements, and `size` is the sum of the sizes.
  pub record Core (c : Cache A) : Type 0 where
    pub one_key : IsMap String-discrete c.objects
    pub one_address : IsMap ℕ_discrete c.elements
    pub fresh : (e : ℕ) (v : Value A) → lookup ℕ_discrete e c.elements ≡ some v → e < c.next
    pub linked :
        (e : ℕ) (v : Value A)
        → lookup ℕ_discrete e c.elements ≡ some v
        → lookup String-discrete v.key c.objects ≡ some e
    pub found :
        (k : String) (e : ℕ)
        → lookup String-discrete k c.objects ≡ some e
        → (v : Value A) × (lookup ℕ_discrete e c.elements ≡ some v) × (v.key ≡ k)
    pub sized : c.size ≡ u64 (total ℕ_discrete weight c.elements)

  -- Between two calls the contents keep the limit. The limit is below 2 ^ 63.
  pub record Inv (c : Cache A) : Type 0 where
    pub core : Core c
    pub within : 0 < c.max_size → total ℕ_discrete weight c.elements ≤ c.max_size
    pub small : c.max_size < 2 ^ 63

  -- Element `e` is the one with the key `k`.
  abbrev pub Owns : ℕ → String → Elements A → Type 0
  Owns e k l = All (λ x. (x.0 ≡ e) ↔ (x.1.key ≡ k)) l

  pub find-Owns :
      (e : ℕ) (k : String) (l : Elements A) → Owns e k l → find k (values l) ≡ lookup ℕ_discrete e l
  unfolding find lookup
  find-Owns e k [] o = refl
  find-Owns e k ((j, w) ∷ l) o = ground (arith, find-Owns e k l o.1)

  pub remove-Owns :
      (e : ℕ) (k : String) (l : Elements A)
      → Owns e k l
      → values (delete ℕ_discrete e l) ≡ remove k (values l)
  unfolding remove delete
  remove-Owns e k [] o = refl
  remove-Owns e k ((j, w) ∷ l) o = ground (arith, remove-Owns e k l o.1)

  pub sum_size-values : (l : Elements A) → sum_size (values l) ≡ total ℕ_discrete weight l
  unfolding sum_size total
  sum_size-values [] = refl
  sum_size-values ((j, w) ∷ l) = omega (arith, sum_size-values l)

  pub find_absent :
      (k : String) (l : Elements A) → All (λ x. x.1.key ≢ k) l → find k (values l) ≡ none
  unfolding find
  find_absent k [] h = refl
  find_absent k ((j, w) ∷ l) h = if_neg (String-discrete w.key k) h.0 _ _ ∙ find_absent k l h.1

  pub remove_absent :
      (k : String) (l : Elements A) → All (λ x. x.1.key ≢ k) l → remove k (values l) ≡ values l
  unfolding remove
  remove_absent k [] h = refl
  remove_absent k ((j, w) ∷ l) h =
      if_neg (String-discrete w.key k) h.0 _ _ ∙ ap (◌∷◌ w) (remove_absent k l h.1)

  -- The last element can be looked up, and to delete it is to drop the last value.
  pub lookup-back :
      (e : ℕ) (v : Value A) (l : Elements A)
      → IsMap ℕ_discrete l
      → back l ≡ some (e, v)
      → (lookup ℕ_discrete e l ≡ some v) × (values (delete ℕ_discrete e l) ≡ drop_last (values l))
  unfolding lookup back delete drop_last
  lookup-back e v [] u h = cc
  lookup-back e v ((j, w) ∷ []) u h = ground arith
  lookup-back e v ((j, w) ∷ (i, x) ∷ l) u h =
      let (a, b) = lookup-back e v ((i, x) ∷ l) u.1 h in
      elim (ℕ_discrete j e) [
        | yes p ↦ cc (subst (λ y. lookup ℕ_discrete y ((i, x) ∷ l) ≡ none) p u.0, a)
        | no n ↦ (
          if_neg (ℕ_discrete j e) n _ _ ∙ a,
          ap values (if_neg (ℕ_discrete j e) n _ _) ∙ ap (◌∷◌ w) b,
        )
      ]

  pub back-none : (l : Elements A) → back l ≡ none → l ≡ []
  unfolding back
  back-none [] h = refl
  back-none (x ∷ []) h = cc
  back-none (x ∷ y ∷ l) h = cc (back-none (y ∷ l) h)

  pub set_value-front :
      (e : ℕ) (v w : Value A) (l : Elements A)
      → set_value e w (insert ℕ_discrete e v l) ≡ insert ℕ_discrete e w l
  unfolding set_value insert
  set_value-front e v w l = if_pos (ℕ_discrete e e) refl _ _
