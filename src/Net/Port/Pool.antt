-- ===== src/Net/Port/Pool.antt =====
-- `Get` and `Put` of a pool of ports (net/port.go), in terms of the indexes in use.
use datarhei_core.Prelude.{
  ℕ, ◌+◌, ◌-◌, ◌≤◌, ◌<◌, ◌≡◌, ◌≢◌, refl, sym, ap, ◌∙◌, Bool, true, false, List, some, length,
  get_elem?, set, arith, get_elem?-lt, get_elem?-set_self, get_elem?-set_ne, dec_lt, ℕ_discrete,
}
use datarhei_core.Prelude.Int.{ℤ, pos, negsuc, ◌-ℤ◌, ◌<ℤ◌}
use datarhei_core.Net.Port.{Portrange, Got, port, no_more_ports, first_unused, get, put, put_at}
use datarhei_core.Net.Port.Search.{
  IsFirst, IsFull, first_unused-IsFirst, first_unused-IsFull, first_unused_of_IsFirst,
}

-- `min_unused` is what the search over all ports finds.
abbrev pub IsValid : Portrange → Type 0
IsValid r = r.min_unused ≡ first_unused 0 r.ports

-- A call of `Get` takes the smallest unused port, or finds every port in use and changes nothing.
pub data Takes (r : Portrange) (r' : Portrange) (g : Got) : Type 0 where
  takes :
      (k : ℕ)
      → IsFirst r.ports k
      → r'.min ≡ r.min
      → r'.ports ≡ set r.ports k true
      → g ≡ port (r.min + k)
      → Takes r r' g
  fails : IsFull r.ports → r' ≡ r → g ≡ no_more_ports → Takes r r' g

get_takes :
    (r : Portrange) (k : ℕ)
    → r.min_unused ≡ pos k
    → k < length r.ports
    → get r ≡ (
      record r { ports = set r.ports k true; min_unused = first_unused 0 (set r.ports k true) },
      port (r.min + k),
    )
unfolding get
get_takes r k e l = ground arith

get_fails : (r : Portrange) → r.min_unused ≡ negsuc 0 → get r ≡ (r, no_more_ports)
unfolding get
get_fails r e = ground arith

-- `Get` on a valid pool does one of two things: it marks the smallest unused index as used and
-- returns its port, or, if every index is used, it changes nothing and reports that there are no
-- more ports. It does not panic.
pub get-Takes : (r : Portrange) → IsValid r → Takes r (get r).0 (get r).1
get-Takes r v = go r.min_unused refl
  where
    go : (m : ℤ) → r.min_unused ≡ m → Takes r (get r).0 (get r).1
    go (pos j) e =
        let (k, i, f) = first_unused-IsFirst 0 j r.ports (sym v ∙ e) in
        rw (get_takes r k (e ∙ ap pos (omega arith)) (get_elem?-lt r.ports k f.unused))
          (takes k f refl refl refl)
    go (negsuc n) e =
        let (z, f) = first_unused-IsFull 0 n r.ports (sym v ∙ e) in
        rw (get_fails r (e ∙ ap negsuc z)) (fails f refl refl)

-- `Get` on a pool whose `min_unused` is its smallest unused index, or -1 if there is none, leaves
-- such a pool.
pub get-IsValid : (r : Portrange) → IsValid r → IsValid (get r).0
get-IsValid r v = go r.min_unused refl
  where
    go : (m : ℤ) → r.min_unused ≡ m → IsValid (get r).0
    go (pos j) e =
        let (k, i, f) = first_unused-IsFirst 0 j r.ports (sym v ∙ e) in
        rw (get_takes r k (e ∙ ap pos (omega arith)) (get_elem?-lt r.ports k f.unused)) refl
    go (negsuc n) e =
        let (z, f) = first_unused-IsFull 0 n r.ports (sym v ∙ e) in
        rw (get_fails r (e ∙ ap negsuc z)) v

-- `Put` in terms of the index: in the range it frees this index, elsewhere it does nothing.
put_inside : (r : Portrange) (k : ℕ) → k < length r.ports → put (pos (r.min + k)) r ≡ put_at k r
unfolding put ◌-ℤ◌
put_inside r k l = ground arith

put_below : (r : Portrange) (p : ℤ) → p <ℤ pos r.min → put p r ≡ r
unfolding put
put_below r p l = ground arith

put_above : (r : Portrange) (k : ℕ) → length r.ports ≤ k → put (pos (r.min + k)) r ≡ r
unfolding put ◌-ℤ◌
put_above r k l = ground arith

set-below :
    (bs : List Bool) (i m : ℕ)
    → get_elem? bs m ≡ some true
    → m < i
    → get_elem? (set bs i false) m ≡ some true
set-below bs i m h l = get_elem?-set_ne bs i m false (λ e. absurd (omega arith)) ∙ h

-- Freeing index `i` before the first unused one makes it the first.
IsFirst-freed :
    (bs : List Bool) (i : ℕ)
    → i < length bs
    → ((m : ℕ) → m < i → get_elem? bs m ≡ some true)
    → IsFirst (set bs i false) i
IsFirst-freed bs i l h = record {
  unused = get_elem?-set_self bs i false l;
  below = λ m q. set-below bs i m (h m q) q;
}

set_unused :
    (bs : List Bool) (i : ℕ) {b : Bool}
    → get_elem? bs i ≡ some b
    → get_elem? (set bs i false) i ≡ some false
set_unused bs i h = get_elem?-set_self bs i false (get_elem?-lt bs i h)

-- Freeing a later index leaves the first unused one.
IsFirst-kept :
    (bs : List Bool) (i k : ℕ) → k ≤ i → i < length bs → IsFirst bs k → IsFirst (set bs i false) k
IsFirst-kept bs i k le l f = record {
  unused = elim (ℕ_discrete i k) [
    | yes e ↦ rw e (set_unused bs k f.unused)
    | no n ↦ get_elem?-set_ne bs i k false n ∙ f.unused
  ];
  below = λ m q. set-below bs i m (f.below m q) (omega arith);
}

put_at_cases :
    (r : Portrange) (i : ℕ) (m : ℤ)
    → r.min_unused ≡ m
    → i < length r.ports
    → IsValid r
    → IsValid (put_at i r)
unfolding put_at
put_at_cases r i (negsuc n) e l v =
    let (z, full) = first_unused-IsFull 0 n r.ports (sym v ∙ e) in
    let f = IsFirst-freed r.ports i l (λ m q. full m (omega arith)) in
    ground (arith, first_unused_of_IsFirst 0 i (set r.ports i false) f)
put_at_cases r i (pos j) e l v =
    let (k, jk, f) = first_unused-IsFirst 0 j r.ports (sym v ∙ e) in
    elim (dec_lt i k) [
      | yes lt ↦
          let g = IsFirst-freed r.ports i l (λ m q. f.below m (omega arith)) in
          ground (arith, first_unused_of_IsFirst 0 i (set r.ports i false) g)
      | no ge ↦
          let g = IsFirst-kept r.ports i k (omega arith) l f in
          ground (arith, first_unused_of_IsFirst 0 k (set r.ports i false) g)
    ]

-- Where an integer stands with regard to the range.
data Place (r : Portrange) (p : ℤ) : Type 0 where
  below : p <ℤ pos r.min → Place r p
  inside : (k : ℕ) → k < length r.ports → p ≡ pos (r.min + k) → Place r p
  above : (k : ℕ) → length r.ports ≤ k → p ≡ pos (r.min + k) → Place r p

place : (r : Portrange) (p : ℤ) → Place r p
place r (negsuc n) = below (omega arith)
place r (pos n) = elim (dec_lt n r.min) [
  | yes lt ↦ below (omega arith)
  | no ge ↦ elim (dec_lt (n - r.min) (length r.ports)) [
    | yes lt ↦ inside (n - r.min) lt (ap pos (omega arith))
    | no out ↦ above (n - r.min) (omega arith) (ap pos (omega arith))
  ]
]

-- `Put` of any integer on a pool whose `min_unused` is its smallest unused index, or -1 if there
-- is none, leaves such a pool.
pub put-IsValid : (r : Portrange) (p : ℤ) → IsValid r → IsValid (put p r)
put-IsValid r p v = elim (place r p) [
  | below l ↦ rw (put_below r p l) v
  | inside k l e ↦ rw (e, put_inside r k l) (put_at_cases r k r.min_unused refl l v)
  | above k l e ↦ rw (e, put_above r k l) v
]

-- `Put` frees the index of the port, and touches no other; a port outside the range is ignored.
pub data Frees (r : Portrange) (p : ℤ) (r' : Portrange) : Type 0 where
  frees :
      (k : ℕ)
      → k < length r.ports
      → p ≡ pos (r.min + k)
      → r'.min ≡ r.min
      → r'.ports ≡ set r.ports k false
      → Frees r p r'
  ignores : ((k : ℕ) → k < length r.ports → p ≢ pos (r.min + k)) → r' ≡ r → Frees r p r'

-- `Put` of any integer does one of two things: it marks the index of the port as unused and no
-- other, or, if it is the port of no index, it changes nothing.
pub put-Frees : (r : Portrange) (p : ℤ) → Frees r p (put p r)
unfolding put_at
put-Frees r p = elim (place r p) [
  | below l ↦ ignores (λ k q e. ground arith) (put_below r p l)
  | inside k l e ↦ rw (e, put_inside r k l) (frees k l refl refl refl)
  | above k l e ↦ rw (e, put_above r k l) (ignores (λ j q i. ground arith) refl)
]
