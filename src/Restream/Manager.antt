-- ===== src/Restream/Manager.antt =====
-- The manager of processes of restream/restream.go. Each operation runs under the lock and is
-- atomic, except for `AddProcess`, for which see Restream.Server. The replacer, and whether FFmpeg
-- accepts a command, are arguments.
use datarhei_core.Prelude.{
  Bool, true, false, ◌&&◌, not, List, [], ◌∷◌, if◌then◌else◌, Option, none, some,
}
use datarhei_core.Prelude.Int.{ℤ, pos, ◌+ℤ◌, ◌-ℤ◌, ltb_ℤ, leb_ℤ}
use datarhei_core.Prelude.Map.{lookup, insert, delete}
use datarhei_core.Io.Path.{Bytes, Bytes-discrete}
use datarhei_core.Process.{Order}
use datarhei_core.Process as Process
use datarhei_core.Net.Port.{Portrange}
use datarhei_core.Restream.{ConfigIo, Config}
use datarhei_core.Restream.Output.{Checks}
use datarhei_core.Restream.Validate.{
  Error, unknown_process, still_running, invalid_definition, max_processes,
}
use datarhei_core.Restream.Tasks.{AppProcess, Task, unset_playout_ports}
use datarhei_core.Restream.Cleanups.{CleanupFs, unset_cleanup}

-- What the manager asks: the checks of addresses and the base directories of the disks, the
-- placeholders of a configuration, and whether `ffmpeg.New` takes a configuration and its command.
pub record Env : Type 0 where
  pub checks : Checks
  pub disks : List Bytes
  pub placeholders : Config → Config
  pub new_ffmpeg : Config → List Bytes → Bool

abbrev pub Metadata : Type 0
Metadata = Option (List (Bytes × Bytes))

-- What `save` hands to the store.
pub record StoreData : Type 0 where
  pub processes : List (Bytes × AppProcess × Metadata)
  pub system : Metadata

-- `restream`; `stored` is what was saved last.
pub record Restream : Type 0 where
  pub tasks : List (Bytes × Task)
  pub max_proc : ℤ
  pub n_proc : ℤ
  pub ports : Option Portrange
  pub filesystems : List CleanupFs
  pub metadata : Metadata
  pub stored : Option StoreData
  pub started : Bool
  pub stopped : Bool

-- The result of an operation: the manager, and an error.
abbrev pub Outcome : Type 0
Outcome = Restream × Option Error

abbrev pub is_start : Order → Bool
is_start Process.start = true
is_start Process.stop = false

abbrev pub runs : Option Order → Bool
runs none = false
runs (some o) = is_start o

unfoldable pub store_tasks : List (Bytes × Task) → List (Bytes × AppProcess × Metadata)
store_tasks [] = []
store_tasks ((id, t) ∷ ts) = (id, t.process, t.metadata) ∷ store_tasks ts

-- `save`; the metadata of the system are saved with a task.
unfoldable pub save : Restream → Restream
unfolding store_tasks
save r = record r {
  stored = some (record {
    processes = store_tasks r.tasks;
    system = elim r.tasks [ [] ↦ none | t ∷ ts ↦ r.metadata ];
  });
}

-- An operation on the tasks is followed by `save`, unless there is an error.
abbrev pub saved : Outcome → Outcome
saved (r, none) = (save r, none)
saved (r, some e) = (r, some e)

unfoldable pub outputs_of : List (Bytes × Task) → Bytes → Option (List ConfigIo)
unfolding lookup
outputs_of ts id = elim (lookup Bytes-discrete id ts) [
  | none ↦ none
  | some t ↦ some t.config.output
]

-- `startProcess`
unfoldable pub start_found : Task → Bytes → Restream → Outcome
unfolding insert ◌+ℤ◌
start_found t id r =
    if not t.valid
    then (r, some invalid_definition)
    else if is_start t.process.order && runs t.ffmpeg
    then (r, none)
    else if ltb_ℤ (pos 0) r.max_proc && leb_ℤ r.max_proc r.n_proc
    then (r, some max_processes)
    else (
      record r {
        tasks =
            insert Bytes-discrete id
              (record t {
                process = record t.process { order = Process.start };
                ffmpeg = some Process.start;
              })
              r.tasks;
        n_proc = r.n_proc +ℤ pos 1;
      },
      none,
    )

unfoldable pub start_task : Bytes → Restream → Outcome
unfolding lookup start_found
start_task id r = elim (lookup Bytes-discrete id r.tasks) [
  | none ↦ (r, some unknown_process)
  | some t ↦ start_found t id r
]

-- `stopProcess`
unfoldable pub stop_running : Task → Order → Bytes → Restream → Outcome
unfolding insert ◌-ℤ◌
stop_running t status id r =
    if not (is_start t.process.order) && not (is_start status) then (r, none) else (
      record r {
        tasks =
            insert Bytes-discrete id
              (record t {
                process = record t.process { order = Process.stop };
                ffmpeg = some Process.stop;
              })
              r.tasks;
        n_proc = r.n_proc -ℤ pos 1;
      },
      none,
    )

unfoldable pub stop_found : Task → Bytes → Restream → Outcome
unfolding stop_running
stop_found t id r = elim t.ffmpeg [ none ↦ (r, none) | some status ↦ stop_running t status id r ]

unfoldable pub stop_task : Bytes → Restream → Outcome
unfolding lookup stop_found
stop_task id r = elim (lookup Bytes-discrete id r.tasks) [
  | none ↦ (r, some unknown_process)
  | some t ↦ stop_found t id r
]

-- `deleteProcess`
unfoldable pub delete_found : Task → Bytes → Restream → Outcome
unfolding delete unset_playout_ports unset_cleanup
delete_found t id r = if is_start t.process.order then (r, some still_running) else (
  record r {
    tasks = delete Bytes-discrete id r.tasks;
    ports = (unset_playout_ports r.ports t).0;
    filesystems = unset_cleanup id r.filesystems;
  },
  none,
)

unfoldable pub delete_task : Bytes → Restream → Outcome
unfolding lookup delete_found
delete_task id r = elim (lookup Bytes-discrete id r.tasks) [
  | none ↦ (r, some unknown_process)
  | some t ↦ delete_found t id r
]

-- `StartProcess`, `StopProcess` and `DeleteProcess`
unfoldable pub start_process : Bytes → Restream → Outcome
unfolding start_task
start_process id r = saved (start_task id r)

unfoldable pub stop_process : Bytes → Restream → Outcome
unfolding stop_task
stop_process id r = saved (stop_task id r)

unfoldable pub delete_process : Bytes → Restream → Outcome
unfolding delete_task
delete_process id r = saved (delete_task id r)
