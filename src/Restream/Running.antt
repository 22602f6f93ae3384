-- ===== src/Restream/Running.antt =====
-- `startProcess`, `stopProcess`, `deleteProcess`, `Start` and `observe` of restream/restream.go keep
-- the number of running processes.
use datarhei_core.Prelude.{
  ℕ, ◌≡◌, refl, sym, ap, ◌∙◌, Bool, true, false, ◌&&◌, not, List, [], ◌∷◌, none, some, arith,
  if-cases, some-cases, Bool-cases, inl, inr, ltb, leb,
}
use datarhei_core.Prelude.Int.{pos, ltb_ℤ, leb_ℤ}
use datarhei_core.Prelude.Map.{lookup, delete, lookup_of_All, lookup-insert_self, some_inj}
use datarhei_core.Io.Path.{Bytes, Bytes-discrete}
use datarhei_core.Process.{Order}
use datarhei_core.Process as Process
use datarhei_core.Restream.Validate.{Error}
use datarhei_core.Restream.Tasks.{Task}
use datarhei_core.Restream.Manager.{
  Restream, Outcome, is_start, runs, start_found, start_task, stop_running, stop_found, stop_task,
  delete_found, delete_task,
}
use datarhei_core.Restream.Lifecycle.{observe, observe_rounds, observe_round}
use datarhei_core.Restream.Count.{
  Settled, IsSettled, Balanced, IsBalanced, Balanced-delete, Balanced-start, Balanced-stop,
}

abbrev pub StillBalanced : Outcome → Type 0
StillBalanced o = IsBalanced o.0

abbrev pub is_full : Restream → Bool
is_full r = ltb_ℤ (pos 0) r.max_proc && leb_ℤ r.max_proc r.n_proc

-- A task is started, or it is not and there is an error: it is not valid, or the limit is reached.
pub data Started (valid : Bool) (r : Restream) : Outcome → Type 0 where
  started : (r' : Restream) → IsBalanced r' → Started valid r (r', none)
  not_started : (e : Error) → (valid ≡ true → is_full r ≡ true) → Started valid r (r, some e)

not_both : (a : Bool) → not a ≡ true → a ≡ true → ⊥
not_both a p q = ground arith

both_true : (a b : Bool) → a ≡ true → b ≡ true → (a && b) ≡ false → ⊥
both_true a b p q h = ground arith

one_true : (a b : Bool) → b ≡ a → (not a && not b) ≡ false → b ≡ true
one_true a b p h = ground arith

neither : (a b : Bool) → (not a && not b) ≡ true → b ≡ false
neither a b h = ground arith

module _ (t : Task) (id : Bytes) (r : Restream) where
  -- The others are counted, and the process of this one does not run.
  pub start_found-Started :
      Balanced r.max_proc (delete Bytes-discrete id r.tasks) r.n_proc
      → runs t.ffmpeg ≡ false
      → Started t.valid r (start_found t id r)
  unfolding start_found
  start_found-Started b idle =
      if-cases (Started t.valid r) (not t.valid) _ _
        (λ v. not_started _ (λ w. absurd (not_both t.valid v w)))
        (λ v.
          if-cases (Started t.valid r) (is_start t.process.order && runs t.ffmpeg) _ _
            (λ both. ground (arith, idle))
            (λ both.
              if-cases (Started t.valid r) (is_full r) _ _ (λ full. not_started _ (λ w. full))
                (λ free. started _ (
                  Balanced-start r.max_proc id r.tasks
                    (record t {
                      process = record t.process { order = Process.start };
                      ffmpeg = some Process.start;
                    })
                    refl refl free b))))

  Started-StillBalanced : (o : Outcome) → IsBalanced r → Started t.valid r o → StillBalanced o
  Started-StillBalanced o b (started r' b') = b'
  Started-StillBalanced o b (not_started e w) = b

  start_found-StillBalanced :
      lookup Bytes-discrete id r.tasks ≡ some t → IsBalanced r → StillBalanced (start_found t id r)
  unfolding start_found
  start_found-StillBalanced e b = elim (Bool-cases (runs t.ffmpeg)) [
    | inl busy ↦
        let settled : Settled t = lookup_of_All Bytes-discrete IsSettled r.tasks id t b.settled e in
        if-cases StillBalanced (not t.valid) _ _ (λ v. b)
          (λ v.
            if-cases StillBalanced (is_start t.process.order && runs t.ffmpeg) _ _ (λ both. b)
              (λ both. absurd (
                both_true (is_start t.process.order) (runs t.ffmpeg) (sym settled ∙ busy) busy
                  both)))
    | inr idle ↦
        Started-StillBalanced (start_found t id r) b
          (start_found-Started (Balanced-delete r.max_proc id r.tasks t e idle b) idle)
  ]

  stop_running-StillBalanced :
      (status : Order)
      → lookup Bytes-discrete id r.tasks ≡ some t
      → t.ffmpeg ≡ some status
      → IsBalanced r
      → StillBalanced (stop_running t status id r)
  unfolding stop_running
  stop_running-StillBalanced status e f b =
      let settled : Settled t = lookup_of_All Bytes-discrete IsSettled r.tasks id t b.settled e in
      if-cases StillBalanced (not (is_start t.process.order) && not (is_start status)) _ _
        (λ both. b)
        (λ both.
          Balanced-stop r.max_proc id r.tasks t
            (record t {
              process = record t.process { order = Process.stop };
              ffmpeg = some Process.stop;
            })
            e
            (one_true (is_start t.process.order) (runs t.ffmpeg) settled
              (ap (λ x. not (is_start t.process.order) && not x) (ap runs f) ∙ both))
            refl refl b)

  stop_found-StillBalanced :
      lookup Bytes-discrete id r.tasks ≡ some t → IsBalanced r → StillBalanced (stop_found t id r)
  unfolding stop_found
  stop_found-StillBalanced e b =
      some-cases StillBalanced t.ffmpeg _ _ (λ f. b)
        (λ status f. stop_running-StillBalanced status e f b)

  delete_found-StillBalanced :
      lookup Bytes-discrete id r.tasks ≡ some t → IsBalanced r → StillBalanced (delete_found t id r)
  unfolding delete_found
  delete_found-StillBalanced e b =
      let settled : Settled t = lookup_of_All Bytes-discrete IsSettled r.tasks id t b.settled e in
      if-cases StillBalanced (is_start t.process.order) _ _ (λ s. b)
        (λ s. Balanced-delete r.max_proc id r.tasks t e (settled ∙ s) b)

module _ (r : Restream) where
  pub start_task-StillBalanced : (id : Bytes) → IsBalanced r → StillBalanced (start_task id r)
  unfolding start_task
  start_task-StillBalanced id b =
      some-cases StillBalanced (lookup Bytes-discrete id r.tasks) _ _ (λ e. b)
        (λ t e. start_found-StillBalanced t id r e b)

  pub stop_task-StillBalanced : (id : Bytes) → IsBalanced r → StillBalanced (stop_task id r)
  unfolding stop_task
  stop_task-StillBalanced id b =
      some-cases StillBalanced (lookup Bytes-discrete id r.tasks) _ _ (λ e. b)
        (λ t e. stop_found-StillBalanced t id r e b)

  pub delete_task-StillBalanced : (id : Bytes) → IsBalanced r → StillBalanced (delete_task id r)
  unfolding delete_task
  delete_task-StillBalanced id b =
      some-cases StillBalanced (lookup Bytes-discrete id r.tasks) _ _ (λ e. b)
        (λ t e. delete_found-StillBalanced t id r e b)

  -- A task that is known after a stop does not run.
  abbrev pub Idle : Bytes → Outcome → Type 0
  Idle id o = (t : Task) → lookup Bytes-discrete id o.0.tasks ≡ some t → runs t.ffmpeg ≡ false

  stop_found-Idle :
      (id : Bytes) (t : Task)
      → lookup Bytes-discrete id r.tasks ≡ some t
      → IsBalanced r
      → Idle id (stop_found t id r)
  unfolding stop_found stop_running
  stop_found-Idle id t e b =
      some-cases (Idle id) t.ffmpeg _ _
        (λ f t' e'. ap (λ (x : Task). runs x.ffmpeg) (some_inj (sym e' ∙ e)) ∙ ap runs f)
        (λ status f.
          if-cases (Idle id) (not (is_start t.process.order) && not (is_start status)) _ _
            (λ both t' e'.
              ap (λ (x : Task). runs x.ffmpeg) (some_inj (sym e' ∙ e))
              ∙ ap runs f
              ∙ neither (is_start t.process.order) (is_start status) both)
            (λ both t' e'.
              ap (λ (x : Task). runs x.ffmpeg)
                (some_inj (sym e' ∙ lookup-insert_self Bytes-discrete id _ r.tasks))))

  pub stop_task-Idle : (id : Bytes) → IsBalanced r → Idle id (stop_task id r)
  unfolding stop_task
  stop_task-Idle id b =
      some-cases (Idle id) (lookup Bytes-discrete id r.tasks) _ _ (λ e t' e'. cc (sym e' ∙ e))
        (λ t e. stop_found-Idle id t e b)

-- A tick of `observe`.
observe_round-IsBalanced :
    (e : Bytes × Task) (r : Restream) → IsBalanced r → IsBalanced (observe_round e r)
unfolding observe_round
observe_round-IsBalanced (id, t) r b =
    if-cases IsBalanced (t.valid && t.uses_disk && is_start t.process.order) _ _
      (λ h. stop_task-StillBalanced r id b) (λ h. b)

observe_rounds-IsBalanced :
    (es : List (Bytes × Task)) (r : Restream) → IsBalanced r → IsBalanced (observe_rounds es r)
unfolding observe_rounds
observe_rounds-IsBalanced [] r b = b
observe_rounds-IsBalanced (e ∷ es) r b =
    observe_rounds-IsBalanced es (observe_round e r) (observe_round-IsBalanced e r b)

pub observe-IsBalanced :
    (size limit : ℕ) (r : Restream) → IsBalanced r → IsBalanced (observe size limit r)
unfolding observe
observe-IsBalanced size limit r b =
    if-cases IsBalanced (ltb 0 limit && leb limit size) _ _
      (λ h. observe_rounds-IsBalanced r.tasks r b) (λ h. b)
