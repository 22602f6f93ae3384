-- ===== src/Net/Port/Search.antt =====
-- The loop of `Get`: it finds the smallest unused index, or -1 if every port is in use.
use datarhei_core.Prelude.{
  ℕ, zero, suc, ◌+◌, ◌<◌, ◌≡◌, refl, Bool, true, false, some, List, [], ◌∷◌, length, get_elem?,
  arith, ap, ◌∙◌,
}
use datarhei_core.Prelude.Int.{pos, negsuc}
use datarhei_core.Net.Port.{first_unused}

-- Index `k` is unused, and all before it are in use.
pub record IsFirst (bs : List Bool) (k : ℕ) : Type 0 where
  pub unused : get_elem? bs k ≡ some false
  pub below : (m : ℕ) → m < k → get_elem? bs m ≡ some true

abbrev pub IsFull : List Bool → Type 0
IsFull bs = (m : ℕ) → m < length bs → get_elem? bs m ≡ some true

pub first_unused-IsFirst :
    (i j : ℕ) (bs : List Bool) → first_unused i bs ≡ pos j → (k : ℕ) × (j ≡ i + k) × IsFirst bs k
unfolding first_unused
first_unused-IsFirst i j [] h = cc
first_unused-IsFirst i j (false ∷ bs) h =
    (0, ground arith, record { unused = refl; below = λ m l. absurd (omega arith) })
first_unused-IsFirst i j (true ∷ bs) h =
    let (k, e, f) = first_unused-IsFirst (suc i) j bs h in
    (suc k, omega arith, record { unused = f.unused; below = below_suc k f })
  where
    below_suc : (k : ℕ) → IsFirst bs k → (m : ℕ) → m < suc k → get_elem? (true ∷ bs) m ≡ some true
    below_suc k f zero l = refl
    below_suc k f (suc m) l = f.below m (omega arith)

pub first_unused-IsFull :
    (i n : ℕ) (bs : List Bool) → first_unused i bs ≡ negsuc n → (n ≡ 0) × IsFull bs
unfolding first_unused
first_unused-IsFull i n [] h = (ground arith, λ m l. absurd (omega arith))
first_unused-IsFull i n (false ∷ bs) h = cc
first_unused-IsFull i n (true ∷ bs) h =
    let (z, f) = first_unused-IsFull (suc i) n bs h in (z, full f)
  where
    full : IsFull bs → IsFull (true ∷ bs)
    full f zero l = refl
    full f (suc m) l = f m (omega arith)

-- The two descriptions determine the result of the loop.
pub first_unused_of_IsFirst :
    (i k : ℕ) (bs : List Bool) → IsFirst bs k → first_unused i bs ≡ pos (i + k)
unfolding first_unused
first_unused_of_IsFirst i k [] f = cc f.unused
first_unused_of_IsFirst i zero (false ∷ bs) f = ap pos (omega arith)
first_unused_of_IsFirst i zero (true ∷ bs) f = cc f.unused
first_unused_of_IsFirst i (suc k) (false ∷ bs) f = cc (f.below 0 (omega arith))
first_unused_of_IsFirst i (suc k) (true ∷ bs) f =
    first_unused_of_IsFirst (suc i) k bs
      (record { unused = f.unused; below = λ m l. f.below (suc m) (omega arith) })
    ∙ ap pos (omega arith)
