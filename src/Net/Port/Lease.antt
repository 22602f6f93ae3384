-- ===== src/Net/Port/Lease.antt =====
-- Histories of a pool of ports, and the ranges that NewPortrange makes (net/port.go).
use datarhei_core.Prelude.{
  ℕ, suc, ◌+◌, ◌-◌, ◌≤◌, ◌<◌, ◌≡◌, ◌≢◌, refl, ap, ◌∙◌, ◌⊎◌, true, false, List, [], ◌∷◌, some,
  get_elem?, replicate, All, arith, get_elem?-lt, get_elem?-set_self, get_elem?-set_ne,
}
use datarhei_core.Prelude.Int.{ℤ, pos, ◌-ℤ◌, ◌+ℤ◌, ◌<ℤ◌}
use datarhei_core.Net.Port.{
  Portrange, created, panics, Got, port, index_panic, new_portrange, first_unused, get, put,
  clamp_min,
}
use datarhei_core.Net.Port.Pool.{
  IsValid, Takes, takes, fails, get-Takes, Frees, frees, ignores, put-Frees, get-IsValid,
  put-IsValid,
}

pub data Call : Type 0 where
  gets : Call
  puts : ℤ → Call

pub step : Call → Portrange → Portrange
step gets r = (get r).0
step (puts p) r = put p r

-- What the calls of `Get` in a history return.
unfoldable pub run : List Call → Portrange → List Got
unfolding step
run [] r = []
run (gets ∷ cs) r = (get r).1 ∷ run cs (get r).0
run (puts p ∷ cs) r = run cs (put p r)

-- The port `min + k` is out on a lease.
abbrev pub IsLeased : Portrange → ℕ → Type 0
IsLeased r k = get_elem? r.ports k ≡ some true

Takes-IsLeased :
    (r r' : Portrange) (g : Got) (k : ℕ)
    → Takes r r' g
    → IsLeased r k
    → (IsLeased r' k) × (r'.min ≡ r.min) × (g ≢ port (r.min + k))
Takes-IsLeased r r' g k (takes j f m e p) h =
    let n : j ≢ k = (λ q. cc (ap (get_elem? r.ports) q, f.unused, h)) in
    (rw e (get_elem?-set_ne r.ports j k true n ∙ h), m, λ q. n (ground arith))
Takes-IsLeased r r' g k (fails f e p) h = (rw e h, ap (λ x. x.min) e, λ q. cc)

Frees-IsLeased :
    (r r' : Portrange) (p : ℤ) (k : ℕ)
    → Frees r p r'
    → p ≢ pos (r.min + k)
    → IsLeased r k
    → (IsLeased r' k) × (r'.min ≡ r.min)
Frees-IsLeased r r' p k (frees j l q m e) n h =
    (rw e (get_elem?-set_ne r.ports j k false (λ i. n (q ∙ ap (λ x. pos (r.min + x)) i)) ∙ h), m)
Frees-IsLeased r r' p k (ignores f e) n h = (rw e h, ap (λ x. x.min) e)

-- No call of the history puts the port back.
abbrev pub NotPut : ℕ → List Call → Type 0
NotPut p [] = Unit
NotPut p (gets ∷ cs) = NotPut p cs
NotPut p (puts q ∷ cs) = (q ≢ pos p) × NotPut p cs

pub run_exclusive :
    (cs : List Call) (r : Portrange) (p k : ℕ)
    → IsValid r
    → p ≡ r.min + k
    → IsLeased r k
    → NotPut p cs
    → All (λ g. g ≢ port p) (run cs r)
unfolding run
run_exclusive [] r p k v e h n = tt
run_exclusive (gets ∷ cs) r p k v e h n =
    let (h', m, d) = Takes-IsLeased r (get r).0 (get r).1 k (get-Takes r v) h in
    (rw e d, run_exclusive cs (get r).0 p k (get-IsValid r v) (rw m e) h' n)
run_exclusive (puts q ∷ cs) r p k v e h n =
    let (h', m) = Frees-IsLeased r (put q r) q k (put-Frees r q) (λ i. n.0 (rw e i)) h in
    run_exclusive cs (put q r) p k (put-IsValid r q v) (rw m e) h' n.1

Gets_leases :
    (r r' : Portrange) (g : Got) (p : ℕ)
    → Takes r r' g
    → g ≡ port p
    → (k : ℕ) × (p ≡ r'.min + k) × IsLeased r' k
Gets_leases r r' g p (takes k f m e q) h =
    (k, ground arith, rw e (get_elem?-set_self r.ports k true (get_elem?-lt r.ports k f.unused)))
Gets_leases r r' g p (fails f e q) h = cc

-- From a valid pool, once `Get` has returned the port p, no `Get` in any sequence of later calls
-- without a `Put` of p returns p.
pub get-run_exclusive :
    (cs : List Call) (r : Portrange) (p : ℕ)
    → IsValid r
    → (get r).1 ≡ port p
    → NotPut p cs
    → All (λ g. g ≢ port p) (run cs (get r).0)
get-run_exclusive cs r p v e n =
    let (k, q, l) = Gets_leases r (get r).0 (get r).1 p (get-Takes r v) e in
    run_exclusive cs (get r).0 p k (get-IsValid r v) q l n

-- For 0 < a < b ≤ 65535, NewPortrange of a and b gives a pool from a on with b - a + 1 ports, all
-- unused.
pub new_portrange_proper :
    (a b : ℕ)
    → 0 < a
    → a < b
    → b ≤ 65535
    → new_portrange (pos a) (pos b)
      ≡ created (record { min = a; ports = replicate (b - a + 1) false; min_unused = pos 0 })
unfolding new_portrange ◌-ℤ◌ ◌+ℤ◌
new_portrange_proper a b h l m = ground arith

new_portrange-IsValid :
    (a n : ℕ) → IsValid (record { min = a; ports = replicate (suc n) false; min_unused = pos 0 })
unfolding first_unused
new_portrange-IsValid a n = refl

-- NewPortrange panics for every range that passes its check `max > min` and ends below 0 or begins
-- above 65536.
pub new_portrange-panics :
    (min max : ℤ)
    → min <ℤ max
    → (max <ℤ pos 0) ⊎ (pos 65536 <ℤ min)
    → new_portrange min max ≡ panics
unfolding new_portrange ◌-ℤ◌ ◌+ℤ◌
new_portrange-panics min max l h = ground arith

-- For every range that passes the check `max > min` and ends at 0 or begins at 65536, NewPortrange
-- gives a pool whose first `Get` panics.
pub new_portrange-empty :
    (min max : ℤ)
    → min <ℤ max
    → (max ≡ pos 0) ⊎ (min ≡ pos 65536)
    → (r : Portrange) × (new_portrange min max ≡ created r) × ((get r).1 ≡ index_panic)
unfolding new_portrange ◌-ℤ◌ ◌+ℤ◌ get
new_portrange-empty min max l h =
    (record { min = clamp_min min; ports = []; min_unused = pos 0 }, ground arith, refl)
