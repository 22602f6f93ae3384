-- ===== src/Net/Port.antt =====
-- net/port.go: the pool of port numbers that Portranger describes. A Go `int` is an integer; the
-- values stay far below its bounds. An index out of range and a negative length are panics.
pub mod Search
pub mod Pool
pub mod Lease
mod Tests
use datarhei_core.Prelude.{
  ℕ, zero, suc, ◌+◌, Bool, true, false, ◌||◌, List, [], ◌∷◌, length, set, replicate, ltb,
  if◌then◌else◌,
}
use datarhei_core.Prelude.Int.{ℤ, pos, negsuc, pos_part, ◌+ℤ◌, ◌-ℤ◌, ltb_ℤ, leb_ℤ}

-- `ports` says which ports are in use; `min_unused` is the smallest index of an unused port, or -1.
pub record Portrange : Type 0 where
  pub min : ℕ
  pub ports : List Bool
  pub min_unused : ℤ

pub data Created : Type 0 where
  invalid_range panics : Created
  created : Portrange → Created

-- `make([]bool, n)`, which panics for a negative length.
make_ports : ℕ → ℤ → Created
make_ports min (pos n) =
    created (record { min = min; ports = replicate n false; min_unused = pos 0 })
make_ports min (negsuc n) = panics

abbrev pub clamp_min : ℤ → ℕ
clamp_min min = if leb_ℤ min (pos 0) then 1 else pos_part min

abbrev pub clamp_max : ℤ → ℤ
clamp_max max = if ltb_ℤ (pos 65535) max then pos 65535 else max

pub new_portrange : ℤ → ℤ → Created
unfolding make_ports
new_portrange min max =
    if leb_ℤ max min
    then invalid_range
    else make_ports (clamp_min min) (clamp_max max -ℤ pos (clamp_min min) +ℤ pos 1)

-- The loop of `Get` that looks for the next unused index; `i` is its counter.
unfoldable pub first_unused : ℕ → List Bool → ℤ
first_unused i [] = negsuc 0
first_unused i (true ∷ bs) = first_unused (suc i) bs
first_unused i (false ∷ bs) = pos i

pub data Got : Type 0 where
  port : ℕ → Got
  no_more_ports index_panic : Got

unfoldable take_at : ℕ → Portrange → Portrange × Got
take_at i r =
    let ports' = set r.ports i true in
    if ltb i (length r.ports)
    then (record r { ports = ports'; min_unused = first_unused 0 ports' }, port (r.min + i))
    else (r, index_panic)

unfoldable get_at : ℤ → Portrange → Portrange × Got
unfolding take_at
get_at (pos i) r = take_at i r
get_at (negsuc zero) r = (r, no_more_ports)
get_at (negsuc (suc n)) r = (r, index_panic)

unfoldable pub get : Portrange → Portrange × Got
unfolding get_at
get r = get_at r.min_unused r

abbrev pub is_minus_one : ℤ → Bool
is_minus_one (negsuc zero) = true
is_minus_one _ = false

unfoldable put_at : ℕ → Portrange → Portrange
put_at i r = record r {
  ports = set r.ports i false;
  min_unused =
      if ltb_ℤ (pos i) r.min_unused || is_minus_one r.min_unused then pos i else r.min_unused;
}

unfoldable pub put : ℤ → Portrange → Portrange
unfolding put_at
put p r =
    if ltb_ℤ p (pos r.min) || ltb_ℤ (pos (r.min + length r.ports) -ℤ pos 1) p
    then r
    else put_at (pos_part (p -ℤ pos r.min)) r
