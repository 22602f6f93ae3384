-- ===== src/Net/Port/Tests.antt =====
-- The pool of ports at work (net/port.go).
use datarhei_core.Prelude.{◌≡◌, ◌≢◌, refl, true, false, List, [], ◌∷◌, All, arith, inl}
use datarhei_core.Prelude.Int.{pos, negsuc, ◌-ℤ◌}
use datarhei_core.Net.Port.{Portrange, panics, port, new_portrange, get, put, first_unused}
use datarhei_core.Net.Port.Pool.{IsValid, Takes, get-Takes, Frees, put-Frees}
use datarhei_core.Net.Port.Lease.{Call, gets, puts, run, get-run_exclusive, new_portrange-panics}

-- Ports 10 to 12, of which 10 and 12 are in use.
abbrev three : Portrange
three = record { min = 10; ports = true ∷ false ∷ true ∷ []; min_unused = pos 1 }

abbrev calls : List Call
calls = gets ∷ puts (pos 12) ∷ gets ∷ puts (negsuc 4) ∷ []

run-three : run calls three ≡ port 11 ∷ port 12 ∷ []
unfolding run get put first_unused ◌-ℤ◌
run-three = refl

three-IsValid : IsValid three
unfolding first_unused
three-IsValid = refl

get-Takes_example : Takes three (get three).0 (get three).1
get-Takes_example = get-Takes three three-IsValid

put-Frees_example : Frees three (pos 12) (put (pos 12) three)
put-Frees_example = put-Frees three (pos 12)

get-run_exclusive_example :
    All (λ g. g ≢ port 11) (run (puts (pos 12) ∷ gets ∷ gets ∷ []) (get three).0)
unfolding get first_unused
get-run_exclusive_example =
    get-run_exclusive (puts (pos 12) ∷ gets ∷ gets ∷ []) three 11 three-IsValid refl
      (λ e. ground arith, tt)

new_portrange-panics_example : new_portrange (negsuc 8) (negsuc 1) ≡ panics
new_portrange-panics_example =
    new_portrange-panics (negsuc 8) (negsuc 1) (omega arith) (inl (omega arith))
