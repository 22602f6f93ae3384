-- ===== src/Process/Transitions.antt =====
-- The transitions of process/process.go against the table in the comment above `stateType`.
use datarhei_core.Prelude.{◌≡◌, refl, ◌↔◌, ◌⊎◌, inl, inr, true}
use datarhei_core.Process.{State, finished, starting, running, finishing, failed, killed, allowed}

-- The table of the comment.
pub data Documented : State → State → Type 0 where
  finished_starting : Documented finished starting
  starting_finishing : Documented starting finishing
  starting_running : Documented starting running
  starting_failed : Documented starting failed
  running_finished : Documented running finished
  running_finishing : Documented running finishing
  running_failed : Documented running failed
  running_killed : Documented running killed
  finishing_finished : Documented finishing finished
  finishing_killed : Documented finishing killed
  failed_starting : Documented failed starting
  killed_starting : Documented killed starting

Documented-of_allowed :
    (s t : State) → allowed s t ≡ true → Documented s t ⊎ ((s ≡ finishing) × (t ≡ failed))
Documented-of_allowed finished starting h = inl finished_starting
Documented-of_allowed starting finishing h = inl starting_finishing
Documented-of_allowed starting running h = inl starting_running
Documented-of_allowed starting failed h = inl starting_failed
Documented-of_allowed running finished h = inl running_finished
Documented-of_allowed running finishing h = inl running_finishing
Documented-of_allowed running failed h = inl running_failed
Documented-of_allowed running killed h = inl running_killed
Documented-of_allowed finishing finished h = inl finishing_finished
Documented-of_allowed finishing failed h = inr (refl, refl)
Documented-of_allowed finishing killed h = inl finishing_killed
Documented-of_allowed failed starting h = inl failed_starting
Documented-of_allowed killed starting h = inl killed_starting
Documented-of_allowed _ _ h = cc

allowed_of_Documented : {s t : State} → Documented s t → allowed s t ≡ true
allowed_of_Documented finished_starting = refl
allowed_of_Documented starting_finishing = refl
allowed_of_Documented starting_running = refl
allowed_of_Documented starting_failed = refl
allowed_of_Documented running_finished = refl
allowed_of_Documented running_finishing = refl
allowed_of_Documented running_failed = refl
allowed_of_Documented running_killed = refl
allowed_of_Documented finishing_finished = refl
allowed_of_Documented finishing_killed = refl
allowed_of_Documented failed_starting = refl
allowed_of_Documented killed_starting = refl

-- The transitions that `setState` admits are those of the table to another state in the comment on
-- `stateType`, and the one from finishing to failed.
pub allowed_iff :
    (s t : State) → (allowed s t ≡ true) ↔ (Documented s t ⊎ ((s ≡ finishing) × (t ≡ failed)))
allowed_iff s t = (
  Documented-of_allowed s t,
  λ h. elim h [ inl d ↦ allowed_of_Documented d | inr (p, q) ↦ rw (p, q) refl ],
)
