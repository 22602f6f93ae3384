-- ===== src/Restream/Prefix.antt =====
-- What the tests of texts in restream/restream.go say: prefixes, and bytes in a text.
use datarhei_core.Prelude.{
  ℕ, ◌≡◌, ◌≢◌, refl, ap, ap₂, true, false, [], ◌∷◌, ◌++◌, ◌==◌, arith, length, All,
}
use datarhei_core.Io.Path.{Bytes}
use datarhei_core.Restream.{has_prefix, drop, contains}

-- A text begins with another one.
abbrev pub Begins : Bytes → Bytes → Type 0
Begins p s = (rest : Bytes) × (s ≡ p ++ rest)

pub same_byte : (x y : ℕ) → (x == y) ≡ true → x ≡ y
same_byte x y h = ground arith

pub other_byte : (x y : ℕ) → (x == y) ≡ false → x ≢ y
other_byte x y h = ground arith

pub has_prefix-drop : (s p : Bytes) → has_prefix s p ≡ true → s ≡ p ++ drop (length p) s
unfolding has_prefix drop
has_prefix-drop s [] h = refl
has_prefix-drop [] (q ∷ qs) h = cc h
has_prefix-drop (x ∷ xs) (q ∷ qs) h =
    ap₂ ◌∷◌ (same_byte x q (ground arith)) (has_prefix-drop xs qs (ground arith))

pub has_prefix-append : (p rest : Bytes) → has_prefix (p ++ rest) p ≡ true
unfolding has_prefix
has_prefix-append [] rest = refl
has_prefix-append (q ∷ qs) rest = ground (arith, has_prefix-append qs rest)

pub drop-append : (p rest : Bytes) → drop (length p) (p ++ rest) ≡ rest
unfolding drop
drop-append [] rest = refl
drop-append (q ∷ qs) rest = drop-append qs rest

pub has_prefix-Begins : (s p : Bytes) → has_prefix s p ≡ true → Begins p s
has_prefix-Begins s p h = (drop (length p) s, has_prefix-drop s p h)

pub has_prefix-not_Begins : (s p : Bytes) → has_prefix s p ≡ false → ¬ Begins p s
has_prefix-not_Begins s p h b = cc (h, ap (λ x. has_prefix x p) b.1, has_prefix-append p b.0)

pub contains-All : (c : ℕ) (s : Bytes) → contains c s ≡ false → All (λ x. x ≢ c) s
unfolding contains
contains-All c [] h = tt
contains-All c (x ∷ xs) h = (other_byte x c (ground arith), contains-All c xs (ground arith))

pub contains_of_All : (c : ℕ) (s : Bytes) → All (λ x. x ≢ c) s → contains c s ≡ false
unfolding contains
contains_of_All c [] h = refl
contains_of_All c (x ∷ xs) (n, h) = ground (arith, contains_of_All c xs h)
