-- ===== src/Restream/Ports.antt =====
-- Which ports of the pool are in use, for the playouts of restream/restream.go.
use datarhei_core.Prelude.{
  ℕ, ◌+◌, ◌-◌, ◌≤◌, ◌≡◌, ◌≢◌, refl, sym, ap, ◌∙◌, subst, Bool, true, false, get_elem?, set,
  if◌then◌else◌, leb, Option, none, some, arith, get_elem?-set_self, get_elem?-set_ne, get_elem?-lt,
  Bool-cases, inl, inr, if_true, if_false,
}
use datarhei_core.Prelude.Int.{pos}
use datarhei_core.Net.Port.{Portrange, Got, port, no_more_ports, get, put}
use datarhei_core.Net.Port.Pool.{
  IsValid, Takes, takes, fails, get-Takes, get-IsValid, put-IsValid, Frees, frees, ignores,
  put-Frees,
}
use datarhei_core.Restream.Tasks.{get_port, put_port}

abbrev pub use_of : Option Bool → ℕ
use_of (some true) = 1
use_of _ = 0

-- 1 for a port of the range that is in use, and 0 for any other number.
unfoldable pub used_in : ℕ → Portrange → ℕ
used_in q r = if leb r.min q then use_of (get_elem? r.ports (q - r.min)) else 0

unfoldable pub used : ℕ → Option Portrange → ℕ
unfolding used_in
used q none = 0
used q (some r) = used_in q r

abbrev pub IsPool : Option Portrange → Type 0
IsPool none = Unit
IsPool (some r) = IsValid r

use_of-le : (o : Option Bool) → use_of o ≤ 1
use_of-le none = omega arith
use_of-le (some true) = omega arith
use_of-le (some false) = omega arith

pub used-le : (q : ℕ) (ports : Option Portrange) → used q ports ≤ 1
unfolding used used_in
used-le q none = omega arith
used-le q (some r) = ground (arith, use_of-le (get_elem? r.ports (q - r.min)))

-- The use of an index and of the others after it is set.
used_in-inside : (r : Portrange) (k : ℕ) → used_in (r.min + k) r ≡ use_of (get_elem? r.ports k)
unfolding used_in
used_in-inside r k =
    let index : r.min + k - r.min ≡ k = omega arith in
    if_true (below r.min k) _ _ ∙ ap (λ i. use_of (get_elem? r.ports i)) index
  where
    below : (m i : ℕ) → leb m (m + i) ≡ true
    below m i = ground arith

used_in-other :
    (r r' : Portrange) (k : ℕ) (b : Bool) (q : ℕ)
    → r'.min ≡ r.min
    → r'.ports ≡ set r.ports k b
    → q ≢ r.min + k
    → used_in q r' ≡ used_in q r
unfolding used_in
used_in-other r r' k b q m e n = elim (Bool-cases (leb r.min q)) [
  | inl l ↦
      if_true (ap (λ x. leb x q) m ∙ l) _ _
      ∙ ap (λ x. use_of (get_elem? r'.ports (q - x))) m
      ∙ ap (λ x. use_of (get_elem? x (q - r.min))) e
      ∙ ap use_of (get_elem?-set_ne r.ports k (q - r.min) b (λ i. n (ground arith)))
      ∙ sym (if_true l _ _)
  | inr l ↦ if_false (ap (λ x. leb x q) m ∙ l) _ _ ∙ sym (if_false l _ _)
]

-- What `GetPort` does: it gives a port that was not in use and is now, and no other changes; there are
-- no more ports; or there is no range.
pub data Gives (ports : Option Portrange) : Option Portrange × Option Got → Type 0 where
  gives :
      (p : ℕ) (ports' : Option Portrange)
      → IsPool ports'
      → used p ports ≡ 0
      → used p ports' ≡ 1
      → ((q : ℕ) → q ≢ p → used q ports' ≡ used q ports)
      → Gives ports (ports', some (port p))
  gives_none : Gives ports (ports, some no_more_ports)
  no_range : Gives ports (ports, none)

Takes-Gives :
    (r r' : Portrange) (g : Got) → IsValid r' → Takes r r' g → Gives (some r) (some r', some g)
unfolding used
Takes-Gives r r' g v (takes k f m e g_port) =
    let inside : used_in (r.min + k) r' ≡ use_of (get_elem? r'.ports k) =
      ap (λ x. used_in (x + k) r') (sym m) ∙ used_in-inside r' k in
    subst (λ x. Gives (some r) (some r', some x)) (sym g_port)
      (gives (r.min + k) (some r') v (used_in-inside r k ∙ ap use_of f.unused)
        (inside
          ∙ ap (λ ps. use_of (get_elem? ps k)) e
          ∙ ap use_of (get_elem?-set_self r.ports k true (get_elem?-lt r.ports k f.unused)))
        (λ q n. used_in-other r r' k true q m e n))
Takes-Gives r r' g v (fails full same g_none) =
    subst (λ x. Gives (some r) (some x, some g)) (sym same)
      (subst (λ x. Gives (some r) (some r, some x)) (sym g_none) gives_none)

pub get_port-Gives : (ports : Option Portrange) → IsPool ports → Gives ports (get_port ports)
unfolding get_port
get_port-Gives none v = no_range
get_port-Gives (some r) v = Takes-Gives r (get r).0 (get r).1 (get-IsValid r v) (get-Takes r v)

-- `PutPort` frees a port at most.
pub put_port-IsPool : (p : ℕ) (ports : Option Portrange) → IsPool ports → IsPool (put_port p ports)
unfolding put_port
put_port-IsPool p none v = tt
put_port-IsPool p (some r) v = put-IsValid r (pos p) v

put-used : (p q : ℕ) (r r' : Portrange) → Frees r (pos p) r' → q ≢ p → used_in q r' ≡ used_in q r
put-used p q r r' (frees k l e m f) n =
    used_in-other r r' k false q m f (λ h. n (h ∙ sym (pos_inj e)))
  where
    pos_inj : {a b : ℕ} → pos a ≡ pos b → a ≡ b
    pos_inj h = cc
put-used p q r r' (ignores out same) n = ap (used_in q) same

pub used-put_port :
    (p q : ℕ) (ports : Option Portrange) → q ≢ p → used q (put_port p ports) ≡ used q ports
unfolding put_port used
used-put_port p q none n = refl
used-put_port p q (some r) n = put-used p q r (put (pos p) r) (put-Frees r (pos p)) n
