-- ===== src/Restream/Faults.antt =====
-- Where the count of restream/restream.go and the tasks part: after `Stop`, and for a process that
-- was to be started and was not; and what `setPlayoutPorts` drops.
use datarhei_core.Prelude.{
  ◌+◌, ◌≡◌, ◌≢◌, refl, sym, ap, ap₂, ◌∙◌, subst, true, false, ◌&&◌, not, List, [], ◌∷◌, ◌++◌,
  if◌then◌else◌, some, All, arith, if-cases, some-cases, elim_some, if_false, if_pos, if_neg,
}
use datarhei_core.Prelude.Int.{ℤ, pos, ◌-ℤ◌}
use datarhei_core.Prelude.Map.{lookup, insert, total, lookup_of_All, IsMap}
use datarhei_core.Io.Path.{Bytes, Bytes-discrete}
use datarhei_core.Process as Process
use datarhei_core.Restream.Tasks.{Task, playout_options, httpport_option}
use datarhei_core.Restream.Manager.{
  Restream, Outcome, is_start, runs, start_task, start_found, stop_task, stop_found, stop_running,
}
use datarhei_core.Restream.Lifecycle.{
  unset_all, start_restream, start_rounds, start_round, stop_restream, stop_all, stop_ffmpeg,
}
use datarhei_core.Restream.Count.{
  running, running_count, running_count-insert, running_count-delete,
}
use datarhei_core.Restream.Running.{is_full}

-- The options from "-playout_httpport" on are dropped, not only its value.
playout_options_skip : (os : List Bytes) → playout_options true os ≡ []
unfolding playout_options
playout_options_skip [] = refl
playout_options_skip (o ∷ os) = playout_options_skip os

-- `setPlayoutPorts` keeps the options before the first "-playout_httpport" and drops all that
-- follow it.
pub playout_options-append :
    (before after : List Bytes)
    → All (λ o. o ≢ httpport_option) before
    → playout_options false (before ++ httpport_option ∷ after) ≡ before
unfolding playout_options
playout_options-append [] after h =
    if_pos (Bytes-discrete httpport_option httpport_option) refl (playout_options true after)
      (httpport_option ∷ playout_options false after)
    ∙ playout_options_skip after
playout_options-append (o ∷ os) after (n, h) =
    if_neg (Bytes-discrete o httpport_option) n _ _
    ∙ ap (λ x. o ∷ x) (playout_options-append os after h)

-- No process of FFmpeg runs.
abbrev pub AllIdle : List (Bytes × Task) → Type 0
AllIdle ts = All (λ (e : Bytes × Task). runs e.1.ffmpeg ≡ false) ts

running_count_idle : (ts : List (Bytes × Task)) → AllIdle ts → running_count ts ≡ 0
unfolding running_count total
running_count_idle [] h = refl
running_count_idle ((id, t) ∷ ts) (h, hs) =
    ap₂ ◌+◌ (ap (λ x. if x then 1 else 0) h) (running_count_idle ts hs)

stop_ffmpeg_idle : (t : Task) → runs (stop_ffmpeg t).ffmpeg ≡ false
stop_ffmpeg_idle t =
    some-cases (λ (t' : Task). runs t'.ffmpeg ≡ false) t.ffmpeg _ _ (λ e. ap runs e) (λ o e. refl)

stop_all_idle : (ts : List (Bytes × Task)) → AllIdle (stop_all ts)
unfolding stop_all
stop_all_idle [] = tt
stop_all_idle ((id, t) ∷ ts) = (stop_ffmpeg_idle t, stop_all_idle ts)

-- At the limit, no task is started.
start_found_full :
    (t : Task) (id : Bytes) (r : Restream)
    → runs t.ffmpeg ≡ false
    → is_full r ≡ true
    → (start_found t id r).0 ≡ r
unfolding start_found
start_found_full t id r idle full =
    if-cases Unchanged (not t.valid) _ _ (λ v. refl)
      (λ v.
        if-cases Unchanged (is_start t.process.order && runs t.ffmpeg) _ _ (λ both. refl)
          (λ both. if-cases Unchanged (is_full r) _ _ (λ f. refl) (λ f. absurd (cc (full, f)))))
  where
    Unchanged : Outcome → Type 0
    Unchanged o = o.0 ≡ r

start_task_full :
    (id : Bytes) (r : Restream) → AllIdle r.tasks → is_full r ≡ true → (start_task id r).0 ≡ r
unfolding start_task
start_task_full id r idle full =
    some-cases (λ (o : Outcome). o.0 ≡ r) (lookup Bytes-discrete id r.tasks) _ _ (λ e. refl)
      (λ t e.
        start_found_full t id r
          (lookup_of_All Bytes-discrete (λ (e : Bytes × Task). runs e.1.ffmpeg ≡ false) r.tasks id t
            idle e)
          full)

-- Tasks and counters as before.
record Kept (r r' : Restream) : Type 0 where
  tasks : r'.tasks ≡ r.tasks
  full : is_full r' ≡ is_full r

start_round-Kept :
    (e : Bytes × Task) (r : Restream)
    → AllIdle r.tasks
    → is_full r ≡ true
    → Kept r (start_round e r)
unfolding start_round
start_round-Kept (id, t) r idle full =
    let same =
      if-cases (λ (x : Restream). x ≡ r) (is_start t.process.order) _ _
        (λ h. start_task_full id r idle full) (λ h. refl) in
    record { tasks = ap (λ (x : Restream). x.tasks) same; full = ap is_full same }

start_rounds-Kept :
    (es : List (Bytes × Task)) (r : Restream)
    → AllIdle r.tasks
    → is_full r ≡ true
    → Kept r (start_rounds es r)
unfolding start_rounds
start_rounds-Kept [] r idle full = record { tasks = refl; full = refl }
start_rounds-Kept (e ∷ es) r idle full =
    let k = start_round-Kept e r idle full in
    let rest =
      start_rounds-Kept es (start_round e r) (subst AllIdle (sym k.tasks) idle) (k.full ∙ full) in
    record { tasks = rest.tasks ∙ k.tasks; full = rest.full ∙ k.full }

-- If a manager that is not stopped has reached the limit `maxProc`, then after `Stop` and `Start`
-- no process runs.
pub start_restream-stop_restream :
    (r : Restream)
    → r.stopped ≡ false
    → is_full r ≡ true
    → running_count (start_restream (stop_restream r)).tasks ≡ 0
unfolding start_restream stop_restream
start_restream-stop_restream r running full =
    subst (λ (x : Restream). running_count (start_restream x).tasks ≡ 0) (sym stops)
      (ap running_count (start_rounds-Kept (stop_all r.tasks) r' idle full).tasks
        ∙ running_count_idle (stop_all r.tasks) idle)
  where
    r' : Restream
    r' = record r {
      tasks = stop_all r.tasks;
      filesystems = unset_all r.tasks r.filesystems;
      started = false;
      stopped = true;
    }

    stops : stop_restream r ≡ r'
    stops = if_false running r r'

    idle : AllIdle (stop_all r.tasks)
    idle = stop_all_idle r.tasks

module _ (id : Bytes) (t : Task) (r : Restream) where
  -- `stopProcess` of a known task with the order to start, whose process of FFmpeg has the order
  -- to stop, decrements `nProc`, while the number of tasks with a running process stays the same.
  pub stop_task-undercounts :
      IsMap Bytes-discrete r.tasks
      → lookup Bytes-discrete id r.tasks ≡ some t
      → is_start t.process.order ≡ true
      → t.ffmpeg ≡ some Process.stop
      → (◌≡◌ {A = ℤ} (stop_task id r).0.n_proc (r.n_proc -ℤ pos 1))
        × (running_count (stop_task id r).0.tasks ≡ running_count r.tasks)
  unfolding stop_task stop_found stop_running
  stop_task-undercounts u e s f =
      let ordered : (not (is_start t.process.order) && not (is_start Process.stop)) ≡ false =
        ap (λ x. not x && true) s in
      let t' = record t {
        process = record t.process { order = Process.stop };
        ffmpeg = some Process.stop;
      } in
      let weights : running t ≡ 0 = ap (λ x. if runs x then 1 else 0) f in
      let same : running_count (insert Bytes-discrete id t' r.tasks) ≡ running_count r.tasks =
        omega (
          arith,
          running_count-insert r.max_proc id r.tasks t',
          running_count-delete r.max_proc id r.tasks t u e,
        ) in
      let stops = elim_some e _ _ ∙ elim_some f _ _ ∙ if_false ordered _ _ in
      (
        ap (λ (o : Outcome). o.0.n_proc) stops,
        ap (λ (o : Outcome). running_count o.0.tasks) stops ∙ same,
      )
