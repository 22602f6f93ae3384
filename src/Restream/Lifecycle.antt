-- ===== src/Restream/Lifecycle.antt =====
-- `load`, `New`, `Start`, `Stop` and `observe` of restream/restream.go. A loop over the tasks visits
-- them in the order of the list, which stands for any order. The jobs of the filesystems are not
-- modelled.
use datarhei_core.Prelude.{
  ℕ, true, false, ◌&&◌, List, [], ◌∷◌, if◌then◌else◌, leb, ltb, Option, none, some,
}
use datarhei_core.Prelude.Int.{ℤ, pos}
use datarhei_core.Io.Path.{Bytes}
use datarhei_core.Process as Process
use datarhei_core.Net.Port.{Portrange}
use datarhei_core.Restream.{create_command}
use datarhei_core.Restream.Validate.{Error, no_ffmpeg}
use datarhei_core.Restream.Tasks.{AppProcess, Task}
use datarhei_core.Restream.Cleanups.{CleanupFs, set_cleanup, unset_cleanup}
use datarhei_core.Restream.Manager.{
  Env, Restream, Outcome, Metadata, StoreData, is_start, save, start_task, stop_task,
}
use datarhei_core.Restream.Changes.{configure, put_at_id}

-- A task as it is read from the store, with its placeholders replaced.
unfoldable pub loaded_task : Env → Bytes → AppProcess → Metadata → Task
loaded_task env id p m = record {
  valid = false;
  id = id;
  reference = p.reference;
  process = p;
  config = env.placeholders p.config;
  command = [];
  ffmpeg = none;
  parser = false;
  playout = none;
  uses_disk = false;
  metadata = m;
}

unfoldable pub loaded_tasks : Env → List (Bytes × AppProcess × Metadata) → List (Bytes × Task)
unfolding loaded_task
loaded_tasks env [] = []
loaded_tasks env ((id, p, m) ∷ ps) = (id, loaded_task env id p m) ∷ loaded_tasks env ps

-- A round of the second loop of `load`: a task with an error is ignored, it stays invalid; that
-- there is no process of FFmpeg is an error of `load`.
unfoldable pub load_configured :
    Env → Bytes → Restream → Option Portrange × Task × Option Error → Outcome
unfolding create_command
load_configured env id r (ports, t, some e) = (put_at_id id t (record r { ports = ports }), none)
load_configured env id r (ports, t, none) =
    let t' = record t { command = create_command t.config; parser = true } in
    if env.new_ffmpeg t.config (create_command t.config)
    then (
      put_at_id id (record t' { ffmpeg = some Process.stop; valid = true })
          (record r { ports = ports }),
      none,
    )
    else (put_at_id id t' (record r { ports = ports }), some no_ffmpeg)

unfoldable pub load_round : Env → Bytes × Task → Outcome → Outcome
unfolding configure load_configured
load_round env e (r, some error) = (r, some error)
load_round env e (r, none) = load_configured env e.0 r (configure env r.tasks r.ports e.1)

unfoldable pub load_rounds : Env → List (Bytes × Task) → Outcome → Outcome
unfolding load_round
load_rounds env [] o = o
load_rounds env (e ∷ es) o = load_rounds env es (load_round env e o)

-- `New`, with `load`, from what the store has loaded; `none` is its error.
unfoldable pub new_restream :
    Env → ℤ → Option Portrange → List CleanupFs → StoreData → Option Restream
unfolding loaded_tasks load_rounds save
new_restream env max ports fss d =
    let ts = loaded_tasks env d.processes in
    let loaded = load_rounds env ts (
      record {
        tasks = ts;
        max_proc = max;
        n_proc = pos 0;
        ports = ports;
        filesystems = fss;
        metadata = d.system;
        stored = none;
        started = false;
        stopped = true;
      },
      none,
    ) in
    elim loaded.1 [ none ↦ some (save loaded.0) | some e ↦ none ]

-- A round of the loop of `Start`: that a process cannot be started is no error.
unfoldable pub start_round : Bytes × Task → Restream → Restream
unfolding start_task set_cleanup
start_round (id, t) r =
    let started = if is_start t.process.order then (start_task id r).0 else r in
    record started { filesystems = set_cleanup id t.config started.filesystems }

unfoldable pub start_rounds : List (Bytes × Task) → Restream → Restream
unfolding start_round
start_rounds [] r = r
start_rounds (e ∷ es) r = start_rounds es (start_round e r)

-- `Start`
unfoldable pub start_restream : Restream → Restream
unfolding start_rounds
start_restream r =
    if r.started then r else record (start_rounds r.tasks r) { started = true; stopped = false }

abbrev pub stop_ffmpeg : Task → Task
stop_ffmpeg t = elim t.ffmpeg [ none ↦ t | some o ↦ record t { ffmpeg = some Process.stop } ]

unfoldable pub stop_all : List (Bytes × Task) → List (Bytes × Task)
stop_all [] = []
stop_all ((id, t) ∷ ts) = (id, stop_ffmpeg t) ∷ stop_all ts

unfoldable pub unset_all : List (Bytes × Task) → List CleanupFs → List CleanupFs
unfolding unset_cleanup
unset_all [] fss = fss
unset_all ((id, t) ∷ ts) fss = unset_all ts (unset_cleanup id fss)

-- `Stop`: the orders stay, so that `Start` starts the processes again.
unfoldable pub stop_restream : Restream → Restream
unfolding stop_all unset_all
stop_restream r = if r.stopped then r else record r {
  tasks = stop_all r.tasks;
  filesystems = unset_all r.tasks r.filesystems;
  started = false;
  stopped = true;
}

-- A round of the loop of `observe` over the tasks.
unfoldable pub observe_round : Bytes × Task → Restream → Restream
unfolding stop_task
observe_round (id, t) r =
    if t.valid && t.uses_disk && is_start t.process.order then (stop_task id r).0 else r

unfoldable pub observe_rounds : List (Bytes × Task) → Restream → Restream
unfolding observe_round
observe_rounds [] r = r
observe_rounds (e ∷ es) r = observe_rounds es (observe_round e r)

-- A tick of `observe`, on a disk with a size and a limit.
unfoldable pub observe : ℕ → ℕ → Restream → Restream
unfolding observe_rounds
observe size limit r = if ltb 0 limit && leb limit size then observe_rounds r.tasks r else r
