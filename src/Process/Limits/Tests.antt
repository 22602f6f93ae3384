-- ===== src/Process/Limits/Tests.antt =====
-- A limiter of process/limits.go at work.
use datarhei_core.Prelude.{ℕ, ◌≡◌, refl, true, ◌||◌, List, [], ◌∷◌, some}
use datarhei_core.Process.Limits.{
  Limiter, new_limiter, new_resource, reset, reset_resource, start_limiter, read, reach, check,
  collect, collect_running,
}
use datarhei_core.Process.Limits.Runs.{watched, cpus, memories, collect-reports}
use datarhei_core.Process.Limits.Since.{exceeds}

-- A limit for the CPU, none for the memory, and two units of time to wait for.
limiter : Limiter
unfolding new_limiter new_resource
limiter = new_limiter 50 0 2

abbrev started : Limiter
started = record {
  cpu = record { limit = 50; current = 0; last = 0; since = 0 };
  memory = record { limit = 0; current = 0; last = 0; since = 0 };
  wait_for = 2;
  running = true;
}

limiter_starts : start_limiter limiter ≡ some started
unfolding limiter start_limiter reset reset_resource new_limiter new_resource
limiter_starts = refl

-- Above the limit since 4, the latest tick first.
abbrev ticks : List (ℕ × ℕ × ℕ)
ticks = (5, 80, 9) ∷ (4, 70, 9) ∷ (3, 20, 9) ∷ (2, 60, 9) ∷ []

reported : (collect 6 (some 90) (some 9) (watched started ticks)).1 ≡ true
unfolding watched collect collect_running check reach read
reported = refl

collect-reports_example : (collect 6 (some 90) (some 9) (watched started ticks)).1 ≡ (
    exceeds limiter.wait_for 6 limiter.cpu.limit (cpus ((6, 90, 9) ∷ ticks))
    || exceeds limiter.wait_for 6 limiter.memory.limit (memories ((6, 90, 9) ∷ ticks)))
collect-reports_example = collect-reports limiter started 6 90 9 ticks limiter_starts
