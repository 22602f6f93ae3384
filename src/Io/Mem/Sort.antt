-- ===== src/Io/Mem/Sort.antt =====
-- The order in which `Purge` of io/fs/mem.go visits the files: by the time of the last change.
-- `sort.Slice` leaves files of one time in any order; here it is the order of the list, which
-- stands for the order in which Go happens to iterate over the map.
use datarhei_core.Prelude.{
  ◌≤◌, ◌≡◌, ◌≢◌, refl, sym, ◌∙◌, List, [], ◌∷◌, none, arith, ltb, if◌then◌else◌, All, if_pos,
  if_neg, Bool-cases, inl, inr,
}
use datarhei_core.Prelude.Map.{lookup, IsMap}
use datarhei_core.Io.Path.{Bytes, Bytes-discrete}
use datarhei_core.Io.Mem.{MemFile}

-- What `sort.Slice` does, as an insertion sort.
unfoldable pub insert_by_time : Bytes × MemFile → List (Bytes × MemFile) → List (Bytes × MemFile)
insert_by_time x [] = x ∷ []
insert_by_time x (y ∷ l) =
    let rest = insert_by_time x l in if ltb y.1.last_mod x.1.last_mod then y ∷ rest else x ∷ y ∷ l

unfoldable pub sort : List (Bytes × MemFile) → List (Bytes × MemFile)
sort [] = []
sort (x ∷ l) = insert_by_time x (sort l)

-- Every file is at most as new as those that follow it.
abbrev pub IsBefore : MemFile → Bytes × MemFile → Type 0
IsBefore f x = f.last_mod ≤ x.1.last_mod

unfoldable pub IsSorted : List (Bytes × MemFile) → Type 0
IsSorted [] = Unit {0}
IsSorted (x ∷ l) = All (IsBefore x.1) l × IsSorted l

All-insert_by_time :
    (P : Bytes × MemFile → Type 0) (x : Bytes × MemFile) (l : List (Bytes × MemFile))
    → P x
    → All P l
    → All P (insert_by_time x l)
unfolding insert_by_time
All-insert_by_time P x [] p h = (p, tt)
All-insert_by_time P x (y ∷ l) p h = elim (Bool-cases (ltb y.1.last_mod x.1.last_mod)) [
  | inl e ↦ rw e (h.0, All-insert_by_time P x l p h.1)
  | inr e ↦ rw e (p, h)
]

All-later :
    (f g : MemFile) (l : List (Bytes × MemFile))
    → f.last_mod ≤ g.last_mod
    → All (IsBefore g) l
    → All (IsBefore f) l
All-later f g [] h a = tt
All-later f g (x ∷ l) h a = (omega arith, All-later f g l h a.1)

insert_by_time-IsSorted :
    (x : Bytes × MemFile) (l : List (Bytes × MemFile)) → IsSorted l → IsSorted (insert_by_time x l)
unfolding insert_by_time IsSorted
insert_by_time-IsSorted x [] h = (tt, tt)
insert_by_time-IsSorted x (y ∷ l) h = elim (Bool-cases (ltb y.1.last_mod x.1.last_mod)) [
  | inl e ↦
      rw e
        (All-insert_by_time (IsBefore y.1) x l (ground arith) h.0, insert_by_time-IsSorted x l h.1)
  | inr e ↦ rw e ((ground arith, All-later x.1 y.1 l (ground arith) h.0), h)
]

pub sort-IsSorted : (l : List (Bytes × MemFile)) → IsSorted (sort l)
unfolding sort IsSorted
sort-IsSorted [] = tt
sort-IsSorted (x ∷ l) = insert_by_time-IsSorted x (sort l) (sort-IsSorted l)

lookup-cons_none :
    (k j : Bytes) (g : MemFile) (l : List (Bytes × MemFile))
    → lookup Bytes-discrete k ((j, g) ∷ l) ≡ none
    → (j ≢ k) × (lookup Bytes-discrete k l ≡ none)
unfolding lookup
lookup-cons_none k j g l h = elim (Bytes-discrete j k) [
  | yes e ↦ cc (sym (if_pos (Bytes-discrete j k) e _ _) ∙ h)
  | no n ↦ (n, sym (if_neg (Bytes-discrete j k) n _ _) ∙ h)
]

lookup-cons_swap :
    (k j q : Bytes) (f g : MemFile) (m : List (Bytes × MemFile)) (l : List (Bytes × MemFile))
    → j ≢ k
    → lookup Bytes-discrete q m ≡ lookup Bytes-discrete q ((k, f) ∷ l)
    → lookup Bytes-discrete q ((j, g) ∷ m) ≡ lookup Bytes-discrete q ((k, f) ∷ (j, g) ∷ l)
unfolding lookup
lookup-cons_swap k j q f g m l n h = ground arith

lookup-insert_by_time :
    (k q : Bytes) (f : MemFile) (l : List (Bytes × MemFile))
    → lookup Bytes-discrete k l ≡ none
    → lookup Bytes-discrete q (insert_by_time (k, f) l) ≡ lookup Bytes-discrete q ((k, f) ∷ l)
unfolding insert_by_time lookup
lookup-insert_by_time k q f [] h = refl
lookup-insert_by_time k q f ((j, g) ∷ l) h = elim (Bool-cases (ltb g.last_mod f.last_mod)) [
  | inl e ↦
      let (n, h') = lookup-cons_none k j g l h in
      rw e (lookup-cons_swap k j q f g _ l n (lookup-insert_by_time k q f l h'))
  | inr e ↦ rw e refl
]

insert_by_time-IsMap :
    (k : Bytes) (f : MemFile) (l : List (Bytes × MemFile))
    → lookup Bytes-discrete k l ≡ none
    → IsMap Bytes-discrete l
    → IsMap Bytes-discrete (insert_by_time (k, f) l)
unfolding insert_by_time lookup
insert_by_time-IsMap k f [] h m = (h, m)
insert_by_time-IsMap k f ((j, g) ∷ l) h m = elim (Bool-cases (ltb g.last_mod f.last_mod)) [
  | inl e ↦
      let (n, h') = lookup-cons_none k j g l h in
      rw e (
        lookup-insert_by_time k j f l h' ∙ if_neg (Bytes-discrete k j) (λ p. n (sym p)) _ _ ∙ m.0,
        insert_by_time-IsMap k f l h' m.1,
      )
  | inr e ↦ rw e (h, m)
]

same_head :
    (k q : Bytes) (f : MemFile) (l m : List (Bytes × MemFile))
    → lookup Bytes-discrete q l ≡ lookup Bytes-discrete q m
    → lookup Bytes-discrete q ((k, f) ∷ l) ≡ lookup Bytes-discrete q ((k, f) ∷ m)
unfolding lookup
same_head k q f l m h = rw h refl

-- A sorted map is a map with the same entries.
pub sort-IsMap :
    (l : List (Bytes × MemFile))
    → IsMap Bytes-discrete l
    → IsMap Bytes-discrete (sort l)
      × ((q : Bytes) → lookup Bytes-discrete q (sort l) ≡ lookup Bytes-discrete q l)
unfolding sort
sort-IsMap [] m = (m, λ q. refl)
sort-IsMap ((k, f) ∷ l) m =
    let (i, h) = sort-IsMap l m.1 in
    let free = h k ∙ m.0 in
    (
      insert_by_time-IsMap k f (sort l) free i,
      λ q. lookup-insert_by_time k q f (sort l) free ∙ same_head k q f (sort l) l (h q),
    )
