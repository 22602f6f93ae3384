-- ===== src/Io/Path/Laws.antt =====
-- How `cleanPath` of io/fs/mem.go takes its own results apart.
use datarhei_core.Prelude.{
  ℕ, ◌≡◌, refl, ap, ◌∙◌, false, List, [], ◌∷◌, ◌++◌, ◌==◌, All, arith, Bool-cases, inl, inr, ◌||◌,
}
use mathlib.Core.List.{append-nil}
use datarhei_core.Io.Path.{
  Bytes, split, cons_segment, reduce, is_dot, is_dot_dot, is_empty, pop, join, render, clean_path,
}

-- No slash in it.
abbrev IsFlat : Bytes → Type 0
IsFlat = All (λ c. (c == b'/') ≡ false)

-- An element that `reduce` keeps.
record IsProper (s : Bytes) : Type 0 where
  flat : IsFlat s
  not_empty : is_empty s ≡ false
  not_dot : is_dot s ≡ false
  not_dot_dot : is_dot_dot s ≡ false

cons_segment-All :
    (c : ℕ) (ss : List Bytes) → (c == b'/') ≡ false → All IsFlat ss → All IsFlat (cons_segment c ss)
unfolding cons_segment
cons_segment-All c [] h a = ((h, tt), tt)
cons_segment-All c (s ∷ ss) h a = ((h, a.0), a.1)

split-All : (p : Bytes) → All IsFlat (split p)
unfolding split
split-All [] = (tt, tt)
split-All (c ∷ cs) = elim (Bool-cases (c == b'/')) [
  | inl e ↦ rw e (tt, split-All cs)
  | inr e ↦ rw e (cons_segment-All c (split cs) e (split-All cs))
]

pop-All : (ss : List Bytes) → All IsProper ss → All IsProper (pop ss)
unfolding pop
pop-All [] a = a
pop-All (s ∷ ss) a = a.1

reduce-All :
    (stack ss : List Bytes) → All IsProper stack → All IsFlat ss → All IsProper (reduce stack ss)
unfolding reduce
reduce-All stack [] a f = a
reduce-All stack (s ∷ ss) a f = elim (Bool-cases (is_empty s || is_dot s)) [
  | inl e ↦ rw e (reduce-All stack ss a f.1)
  | inr e ↦ elim (Bool-cases (is_dot_dot s)) [
    | inl d ↦ rw (e, d) (reduce-All (pop stack) ss (pop-All stack a) f.1)
    | inr d ↦
        rw (e, d)
          (reduce-All (s ∷ stack) ss
            (
              record {
                flat = f.0;
                not_empty = ground arith;
                not_dot = ground arith;
                not_dot_dot = d;
              },
              a,
            )
            f.1)
  ]
]

split_flat : (s t : Bytes) → IsFlat s → split (s ++ b'/' ∷ t) ≡ s ∷ split t
unfolding split
split_flat [] t f = refl
split_flat (c ∷ s) t f = rw f.0 (rw (split_flat s t f.1) refl)

split_last : (s : Bytes) → IsFlat s → split s ≡ s ∷ []
unfolding split
split_last [] f = refl
split_last (c ∷ s) f = rw f.0 (rw (split_last s f.1) refl)

reduce_step :
    (stack : List Bytes) (s : Bytes) (ss : List Bytes)
    → IsProper s
    → reduce stack (s ∷ ss) ≡ reduce (s ∷ stack) ss
unfolding reduce
reduce_step stack s ss p = rw (p.not_empty, p.not_dot, p.not_dot_dot) refl

reduce-join :
    (t : Bytes) (ss : List Bytes)
    → All IsProper ss
    → reduce [] (split (join (b'/' ∷ t) ss)) ≡ reduce ss (split t)
unfolding join
reduce-join t [] a = unfold split reduce in refl
reduce-join t (s ∷ ss) a =
    reduce-join (s ++ b'/' ∷ t) ss a.1
    ∙ ap (reduce ss) (split_flat s t (a.0).flat)
    ∙ reduce_step ss s (split t) a.0

reduce-render : (ss : List Bytes) → All IsProper ss → reduce [] (split (render ss)) ≡ ss
unfolding render join
reduce-render [] a = unfold split reduce in refl
reduce-render (s ∷ ss) a =
    reduce-join (s ++ []) ss a.1
    ∙ ap (reduce ss) (ap split (append-nil s) ∙ split_last s (a.0).flat)
    ∙ reduce_step ss s [] a.0
    ∙ unfold reduce in refl

-- To clean a path twice is to clean it once.
pub clean_path_idem : (p : Bytes) → clean_path (clean_path p) ≡ clean_path p
unfolding clean_path
clean_path_idem p = ap render (reduce-render _ (reduce-All [] (split p) tt (split-All p)))
