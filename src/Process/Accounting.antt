-- ===== src/Process/Accounting.antt =====
-- How the counters of process/process.go add up over whole histories.
use datarhei_core.Prelude.{ℕ, ◌+◌, ◌≡◌, refl, Bool, true, false, List, arith}
use datarhei_core.Prelude.Words.{u64, add64}
use datarhei_core.Process.{State, States, is_running, allowed, count, Config, new}
use datarhei_core.Process.Machine.{Event, run}
use datarhei_core.Process.Frame.{run-Holds}

abbrev pub one_if : Bool → ℕ
one_if true = 1
one_if false = 0

-- How often the process was starting is how often it has finished, failed or been killed, and one
-- more if it is running now.
abbrev pub Balanced : State → States → Type 0
Balanced s n = n.starting ≡ u64 (n.finished + n.failed + n.killed + one_if (is_running s))

count-Balanced :
    (s t : State) (n : States) → allowed s t ≡ true → Balanced s n → Balanced t (count t n)
unfolding count add64
count-Balanced s t n h b = ground arith

-- After any sequence of steps on a new process, the number of times that it was starting is,
-- modulo 2^64, the sum of the numbers of times that it has finished, failed and been killed, and
-- one more if it runs.
pub run-Balanced :
    (c : Config) (t : ℕ) (es : List (ℕ × Event))
    → let p = run es (new c t) in Balanced p.state p.states
unfolding new
run-Balanced c t es = run-Holds Balanced count-Balanced es (new c t) refl
