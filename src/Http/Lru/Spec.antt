-- ===== src/Http/Lru/Spec.antt =====
-- What a least-recently-used cache is, with no map, no addresses and no counter: the list of its
-- values, the most recently used first (http/cache/lru.go).
use datarhei_core.Prelude.{
  ℕ, ◌+◌, ◌-◌, ◌≤◌, ◌<◌, ◌≡◌, refl, ap, List, [], ◌∷◌, Option, none, some, String, String-discrete,
  ite, dec_le, dec_lt, map, arith, sym, if_pos, if_neg, ◌∙◌,
}
use datarhei_core.Http.Lru.{Value, Elements}

module _ {A : Type 0} where
  abbrev pub values : Elements A → List (Value A)
  values = map (λ x. x.1)

  unfoldable pub find : String → List (Value A) → Option (Value A)
  find key [] = none
  find key (v ∷ l) = ite (String-discrete v.key key) (some v) (find key l)

  unfoldable pub remove : String → List (Value A) → List (Value A)
  remove key [] = []
  remove key (v ∷ l) = let rest = remove key l in ite (String-discrete v.key key) rest (v ∷ rest)

  unfoldable pub sum_size : List (Value A) → ℕ
  sum_size [] = 0
  sum_size (v ∷ l) = v.size + sum_size l

  -- The values from the front on for which there is room.
  unfoldable pub fit : ℕ → List (Value A) → List (Value A)
  fit room [] = []
  fit room (v ∷ l) = let rest = fit (room - v.size) l in ite (dec_le v.size room) (v ∷ rest) []

  -- A hit becomes the first value, unless it has expired; then it is removed.
  unfoldable pub after_get : String → ℕ → List (Value A) → List (Value A)
  after_get key now l = elim (find key l) [
    | none ↦ l
    | some v ↦ ite (dec_lt v.expire_at now) (remove key l) (v ∷ remove key l)
  ]

  unfoldable pub got : String → ℕ → ℕ → List (Value A) → Option A × ℕ
  got key now ttl l = elim (find key l) [
    | none ↦ (none, ttl)
    | some v ↦ ite (dec_lt v.expire_at now) (none, ttl) (some v.obj, v.expire_at - now)
  ]

  -- The new value is the first; what no longer fits is dropped from the end.
  unfoldable pub after_put : ℕ → Value A → List (Value A) → List (Value A)
  after_put max v l = let l' = v ∷ remove v.key l in ite (dec_lt 0 max) (fit max l') l'

  pub sum_size-fit-le : (room : ℕ) (l : List (Value A)) → sum_size (fit room l) ≤ room
  unfolding sum_size fit
  sum_size-fit-le room [] = omega arith
  sum_size-fit-le room (v ∷ l) = ground (arith, sum_size-fit-le (room - v.size) l)

  pub fit_all : (room : ℕ) (l : List (Value A)) → sum_size l ≤ room → fit room l ≡ l
  unfolding sum_size fit
  fit_all room [] h = refl
  fit_all room (v ∷ l) h =
      if_pos (dec_le v.size room) (omega arith) _ _
      ∙ ap (◌∷◌ v) (fit_all (room - v.size) l (omega arith))

  unfoldable pub drop_last : List (Value A) → List (Value A)
  drop_last [] = []
  drop_last (v ∷ []) = []
  drop_last (v ∷ w ∷ l) = v ∷ drop_last (w ∷ l)

  -- A list that does not fit loses its last value first.
  pub fit-drop_last :
      (room : ℕ) (l : List (Value A)) → room < sum_size l → fit room l ≡ fit room (drop_last l)
  unfolding sum_size fit drop_last
  fit-drop_last room [] h = refl
  fit-drop_last room (v ∷ []) h = if_neg (dec_le v.size room) (omega arith) _ _
  fit-drop_last room (v ∷ w ∷ l) h = elim (dec_le v.size room) [
    | yes p ↦
        if_pos (dec_le v.size room) p _ _
        ∙ ap (◌∷◌ v) (fit-drop_last (room - v.size) (w ∷ l) (omega arith))
        ∙ sym (if_pos (dec_le v.size room) p _ _)
    | no p ↦ if_neg (dec_le v.size room) p _ _ ∙ sym (if_neg (dec_le v.size room) p _ _)
  ]

  pub sum_size-remove-le :
      (key : String) (l : List (Value A)) → sum_size (remove key l) ≤ sum_size l
  unfolding sum_size remove
  sum_size-remove-le key [] = omega arith
  sum_size-remove-le key (v ∷ l) = ground (arith, sum_size-remove-le key l)
