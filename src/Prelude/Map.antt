-- ===== src/Prelude/Map.antt =====
-- Go's maps as association lists. The order of the list is the order in which a `range` loop
-- visits the keys; Go leaves it open, so theorems are stated for every list.
use Prim.Native.Nat.{ℕ, ◌+◌, ◌≤◌, ◌<◌}
use mathlib.Core.Path.{◌≡◌, refl, sym, subst, ◌∙◌}
use mathlib.Core.Logic.{◌≢◌, ◌⊎◌, inl, inr, ite, if_pos, if_neg}
use mathlib.Core.List.{List, [], ◌∷◌}
use mathlib.Core.Option.{Option, none, some}
use native.Mathlib.Omega.{arith}
use datarhei_core.Prelude.Lists.{All, length}

pub some_inj {ℓ} : {A : Type ℓ} {a b : A} → some a ≡ some b → a ≡ b
some_inj h = cc

module _ {ℓ} {K V : Type ℓ} (dec : Discrete K) where
  -- `v, ok := m[k]`
  unfoldable pub lookup : K → List (K × V) → Option V
  lookup k [] = none
  lookup k ((j, v) ∷ m) = ite (dec j k) (some v) (lookup k m)

  -- `delete(m, k)`
  unfoldable pub delete : K → List (K × V) → List (K × V)
  delete k [] = []
  delete k ((j, v) ∷ m) = let rest = delete k m in ite (dec j k) rest ((j, v) ∷ rest)

  -- `m[k] = v`
  unfoldable pub insert : K → V → List (K × V) → List (K × V)
  unfolding delete
  insert k v m = (k, v) ∷ delete k m

  -- No key stands twice.
  abbrev pub IsMap : List (K × V) → Type ℓ
  IsMap [] = Unit
  IsMap ((k, v) ∷ m) = (lookup k m ≡ none) × IsMap m

  pub lookup-delete_self : (k : K) (m : List (K × V)) → lookup k (delete k m) ≡ none
  unfolding lookup delete
  lookup-delete_self k [] = refl
  lookup-delete_self k ((j, v) ∷ m) = ground (arith, lookup-delete_self k m)

  pub lookup-delete_ne : (k q : K) (m : List (K × V)) → q ≢ k → lookup q (delete k m) ≡ lookup q m
  unfolding lookup delete
  lookup-delete_ne k q [] h = refl
  lookup-delete_ne k q ((j, v) ∷ m) h = ground (arith, lookup-delete_ne k q m)

  pub lookup-insert_self : (k : K) (v : V) (m : List (K × V)) → lookup k (insert k v m) ≡ some v
  unfolding lookup insert
  lookup-insert_self k v m = if_pos (dec k k) refl _ _

  pub lookup-insert_ne :
      (k q : K) (v : V) (m : List (K × V)) → q ≢ k → lookup q (insert k v m) ≡ lookup q m
  unfolding lookup insert
  lookup-insert_ne k q v m h = ground (arith, lookup-delete_ne k q m)

  pub lookup-delete :
      (k q : K) (m : List (K × V)) → lookup q (delete k m) ≡ ite (dec k q) none (lookup q m)
  lookup-delete k q m = elim (dec k q) [
    | yes e ↦
        rw (if_pos (dec k q) e)
          (subst (λ x. lookup x (delete k m) ≡ none) e (lookup-delete_self k m))
    | no n ↦ rw (if_neg (dec k q) n) (lookup-delete_ne k q m (λ e. n (sym e)))
  ]

  pub lookup-insert :
      (k q : K) (v : V) (m : List (K × V))
      → lookup q (insert k v m) ≡ ite (dec k q) (some v) (lookup q m)
  lookup-insert k q v m = elim (dec k q) [
    | yes e ↦
        rw (if_pos (dec k q) e)
          (subst (λ x. lookup x (insert k v m) ≡ some v) e (lookup-insert_self k v m))
    | no n ↦ rw (if_neg (dec k q) n) (lookup-insert_ne k q v m (λ e. n (sym e)))
  ]

  pub delete-IsMap : (k : K) (m : List (K × V)) → IsMap m → IsMap (delete k m)
  unfolding delete
  delete-IsMap k [] h = h
  delete-IsMap k ((j, v) ∷ m) h = elim (dec j k) [
    | yes e ↦ rw (if_pos _ e) (delete-IsMap k m h.1)
    | no n ↦ rw (if_neg _ n) (rw (lookup-delete_ne k j m n) h.0, delete-IsMap k m h.1)
  ]

  pub insert-IsMap : (k : K) (v : V) (m : List (K × V)) → IsMap m → IsMap (insert k v m)
  unfolding insert
  insert-IsMap k v m h = (lookup-delete_self k m, delete-IsMap k m h)

  pub delete_absent : (k : K) (m : List (K × V)) → lookup k m ≡ none → delete k m ≡ m
  unfolding lookup delete
  delete_absent k [] h = refl
  delete_absent k ((j, v) ∷ m) h = ground (arith, delete_absent k m)

  -- What an entry of the new map says of the old one.
  pub lookup-delete_inv :
      (k q : K) (v : V) (m : List (K × V))
      → lookup q (delete k m) ≡ some v
      → (k ≢ q) × (lookup q m ≡ some v)
  lookup-delete_inv k q v m h = elim (dec k q) [
    | yes e ↦ cc (sym (lookup-delete k q m ∙ if_pos (dec k q) e _ _) ∙ h)
    | no n ↦ (n, sym (lookup-delete k q m ∙ if_neg (dec k q) n _ _) ∙ h)
  ]

  pub lookup-insert_inv :
      (k q : K) (v w : V) (m : List (K × V))
      → lookup q (insert k v m) ≡ some w
      → ((k ≡ q) × (v ≡ w)) ⊎ ((k ≢ q) × (lookup q m ≡ some w))
  lookup-insert_inv k q v w m h = elim (dec k q) [
    | yes e ↦ inl (e, some_inj (sym (lookup-insert k q v m ∙ if_pos (dec k q) e _ _) ∙ h))
    | no n ↦ inr (n, sym (lookup-insert k q v m ∙ if_neg (dec k q) n _ _) ∙ h)
  ]

  -- To write the value that is there changes no lookup.
  pub lookup-insert_same :
      (k q : K) (v : V) (m : List (K × V))
      → lookup k m ≡ some v
      → lookup q (insert k v m) ≡ lookup q m
  lookup-insert_same k q v m h = elim (dec k q) [
    | yes e ↦ rw (lookup-insert, if_pos (dec k q) e) (subst (λ x. some v ≡ lookup x m) e (sym h))
    | no n ↦ rw (lookup-insert, if_neg (dec k q) n)
  ]

  -- A property of what can be looked up holds of every entry, and the other way round.
  pub All-of_lookup {κ} :
      (P : K × V → Type κ) (m : List (K × V))
      → IsMap m
      → ((k : K) (v : V) → lookup k m ≡ some v → P (k, v))
      → All P m
  unfolding lookup
  All-of_lookup P [] u h = tt
  All-of_lookup P ((j, w) ∷ m) u h =
      (h j w (if_pos (dec j j) refl _ _), All-of_lookup P m u.1 (λ k v e. h k v (rest k v e)))
    where
      rest : (k : K) (v : V) → lookup k m ≡ some v → ite (dec j k) (some w) (lookup k m) ≡ some v
      rest k v e = elim (dec j k) [
        | yes p ↦ cc (subst (λ x. lookup x m ≡ none) p u.0)
        | no n ↦ rw (if_neg (dec j k) n) e
      ]

  pub lookup_of_All {κ} :
      (P : K × V → Type κ) (m : List (K × V)) (k : K) (v : V)
      → All P m
      → lookup k m ≡ some v
      → P (k, v)
  unfolding lookup
  lookup_of_All P [] k v a h = cc
  lookup_of_All P ((j, w) ∷ m) k v a h = elim (dec j k) [
    | yes p ↦ subst P (entry p) a.0
    | no n ↦ lookup_of_All P m k v a.1 (sym (if_neg (dec j k) n _ _) ∙ h)
  ]
    where
      entry : j ≡ k → ◌≡◌ {A = K × V} (j, w) (k, v)
      entry p = cc (sym (if_pos (dec j k) p (some w) (lookup k m)) ∙ h, p)

  pub All-delete {κ} :
      (P : K × V → Type κ) (k : K) (m : List (K × V)) → All P m → All P (delete k m)
  unfolding delete
  All-delete P k [] a = tt
  All-delete P k ((j, w) ∷ m) a = elim (dec j k) [
    | yes p ↦ rw (if_pos _ p) (All-delete P k m a.1)
    | no n ↦ rw (if_neg _ n) (a.0, All-delete P k m a.1)
  ]

  pub All-insert {κ} :
      (P : K × V → Type κ) (k : K) (v : V) (m : List (K × V))
      → P (k, v)
      → All P m
      → All P (insert k v m)
  unfolding insert
  All-insert P k v m h a = (h, All-delete P k m a)

  pub delete-insert : (k : K) (v : V) (m : List (K × V)) → delete k (insert k v m) ≡ delete k m
  unfolding delete insert
  delete-insert k v m =
      if_pos (dec k k) refl _ _ ∙ delete_absent k (delete k m) (lookup-delete_self k m)

  pub length-delete-le : (k : K) (m : List (K × V)) → length (delete k m) ≤ length m
  unfolding delete
  length-delete-le k [] = omega arith
  length-delete-le k ((j, w) ∷ m) = ground (arith, length-delete-le k m)

  pub length-delete-lt :
      (k : K) (v : V) (m : List (K × V)) → lookup k m ≡ some v → length (delete k m) < length m
  unfolding lookup delete
  length-delete-lt k v [] h = cc
  length-delete-lt k v ((j, w) ∷ m) h = ground (arith, length-delete-lt k v m, length-delete-le k m)

module _ {ℓ} {K V : Type ℓ} (dec : Discrete K) (weight : V → ℕ) where
  -- The sum of a measure over the values.
  unfoldable pub total : List (K × V) → ℕ
  total [] = 0
  total ((k, v) ∷ m) = weight v + total m

  pub total-delete :
      (k : K) (v : V) (m : List (K × V))
      → IsMap dec m
      → lookup dec k m ≡ some v
      → total m ≡ weight v + total (delete dec k m)
  unfolding lookup delete total
  total-delete k v [] u h = cc
  total-delete k v ((j, w) ∷ m) u h = ground (arith, total-delete k v m u.1, delete_absent dec k m)

  pub total-insert :
      (k : K) (v : V) (m : List (K × V))
      → total (insert dec k v m) ≡ weight v + total (delete dec k m)
  unfolding insert total
  total-insert k v m = refl
