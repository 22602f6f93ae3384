-- ===== src/Io/Path.antt =====
-- `cleanPath` of io/fs/mem.go, with what it uses of path/filepath: a path is a list of bytes, and
-- the result is an absolute one.
pub mod Laws
mod Tests
use datarhei_core.Prelude.{◌≡◌, refl, ap₂}
use datarhei_core.Prelude.{
  ℕ, ℕ_discrete, Bool, true, false, List, [], ◌∷◌, ◌++◌, ◌==◌, ◌||◌, ◌&&◌, if◌then◌else◌,
}

abbrev pub Bytes : Type 0
Bytes = List ℕ

pub head_inj : {x y : ℕ} {xs ys : Bytes} → x ∷ xs ≡ y ∷ ys → x ≡ y
head_inj e = cc

pub tail_inj : {x y : ℕ} {xs ys : Bytes} → x ∷ xs ≡ y ∷ ys → xs ≡ ys
tail_inj e = cc

pub nil_ne_cons : {x : ℕ} {xs : Bytes} → ¬ ([] ≡ x ∷ xs)
nil_ne_cons e = cc

pub cons_ne_nil : {x : ℕ} {xs : Bytes} → ¬ (x ∷ xs ≡ [])
cons_ne_nil e = cc

same_cons : {x y : ℕ} {xs ys : Bytes} → Dec (x ≡ y) → Dec (xs ≡ ys) → Dec (x ∷ xs ≡ y ∷ ys)
same_cons (yes p) (yes q) = yes (ap₂ ◌∷◌ p q)
same_cons (yes p) (no n) = no (λ e. n (tail_inj e))
same_cons (no n) d = no (λ e. n (head_inj e))

unfoldable pub Bytes-discrete : Discrete Bytes
unfolding same_cons ℕ_discrete
Bytes-discrete [] [] = yes refl
Bytes-discrete [] (y ∷ ys) = no nil_ne_cons
Bytes-discrete (x ∷ xs) [] = no cons_ne_nil
Bytes-discrete (x ∷ xs) (y ∷ ys) = same_cons (ℕ_discrete x y) (Bytes-discrete xs ys)

-- The first element of a path and the others.
cons_segment : ℕ → List Bytes → List Bytes
cons_segment c [] = (c ∷ []) ∷ []
cons_segment c (s ∷ ss) = (c ∷ s) ∷ ss

unfoldable pub split : Bytes → List Bytes
unfolding cons_segment
split [] = [] ∷ []
split (c ∷ cs) = let rest = split cs in if c == b'/' then [] ∷ rest else cons_segment c rest

is_dot : Bytes → Bool
is_dot (c ∷ []) = c == b'.'
is_dot _ = false

is_dot_dot : Bytes → Bool
is_dot_dot (c ∷ d ∷ []) = (c == b'.') && (d == b'.')
is_dot_dot _ = false

is_empty : Bytes → Bool
is_empty [] = true
is_empty _ = false

pop : List Bytes → List Bytes
pop [] = []
pop (s ∷ ss) = ss

-- The elements that are left, the last first: "" and "." go, ".." takes one back.
unfoldable pub reduce : List Bytes → List Bytes → List Bytes
unfolding is_dot is_dot_dot is_empty pop
reduce stack [] = stack
reduce stack (s ∷ ss) =
    reduce (if is_empty s || is_dot s then stack else if is_dot_dot s then pop stack else s ∷ stack)
      ss

-- An absolute path from its elements, the last first.
unfoldable pub join : Bytes → List Bytes → Bytes
join tail [] = tail
join tail (s ∷ ss) = join (b'/' ∷ s ++ tail) ss

render : List Bytes → Bytes
unfolding join
render [] = b'/' ∷ []
render (s ∷ ss) = join [] (s ∷ ss)

unfoldable pub clean_path : Bytes → Bytes
unfolding split reduce render
clean_path p = render (reduce [] (split p))
