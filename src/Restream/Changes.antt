-- ===== src/Restream/Changes.antt =====
-- `createTask`, `AddProcess`, `UpdateProcess`, `ReloadProcess` and `RestartProcess` of
-- restream/restream.go.
use datarhei_core.Prelude.{
  ℕ, Bool, true, false, not, List, [], if◌then◌else◌, Option, none, some, ◌⊎◌, inl, inr, ite,
}
use datarhei_core.Prelude.Map.{lookup, insert, delete}
use datarhei_core.Io.Path.{Bytes, Bytes-discrete}
use datarhei_core.Process as Process
use datarhei_core.Net.Port.{Portrange}
use datarhei_core.Restream.{Config, create_command, trim_space}
use datarhei_core.Restream.Validate.{
  Error, empty_id, no_ffmpeg, process_exists, unknown_process, invalid_definition, parser_panic,
  is_nil, validate_config,
}
use datarhei_core.Restream.Resolve.{resolve_addresses}
use datarhei_core.Restream.Tasks.{Task, set_playout_ports}
use datarhei_core.Restream.Cleanups.{set_cleanup}
use datarhei_core.Restream.Manager.{
  Env, Restream, Outcome, is_start, save, saved, outputs_of, start_task, stop_task, delete_task,
}

-- The task that `createTask` begins with.
unfoldable pub new_task : Env → Config → ℕ → Task
new_task env c now = record {
  valid = false;
  id = c.id;
  reference = c.reference;
  process = record {
    id = c.id;
    reference = c.reference;
    config = c;
    order = if c.autostart then Process.start else Process.stop;
    created_at = now;
    updated_at = now;
  };
  config = env.placeholders c;
  command = [];
  ffmpeg = none;
  parser = false;
  playout = none;
  uses_disk = false;
  metadata = none;
}

unfoldable pub set_inputs_valid :
    Env → Option Portrange → Task → Option Portrange × Task × Option Error
unfolding validate_config set_playout_ports
set_inputs_valid env ports t = elim (validate_config env.checks env.disks t.config) [
  | inl e ↦ (ports, record t { uses_disk = false }, some e)
  | inr disk ↦ set_playout_ports ports (record t { uses_disk = disk })
]

-- The addresses of the inputs are resolved, the configuration is validated, and the ports of the
-- playouts are assigned.
unfoldable pub configure :
    Env → List (Bytes × Task) → Option Portrange → Task → Option Portrange × Task × Option Error
unfolding resolve_addresses outputs_of set_inputs_valid
configure env ts ports t =
    let resolved = resolve_addresses (outputs_of ts) t.config.id t.config.input in
    let t' = record t { config = record t.config { input = resolved.0 } } in
    elim resolved.1 [ none ↦ set_inputs_valid env ports t' | some e ↦ (ports, t', some e) ]

-- The command, the parser and the process of FFmpeg.
unfoldable pub finish :
    Env → Option Portrange × Task × Option Error → Option Portrange × (Error ⊎ Task)
unfolding create_command
finish env (ports, t, some e) = (ports, inl e)
finish env (ports, t, none) =
    if env.new_ffmpeg t.config (create_command t.config)
    then (
      ports,
      inr (record t {
        command = create_command t.config;
        parser = true;
        ffmpeg = some Process.stop;
        valid = true;
      }),
    )
    else (ports, inl no_ffmpeg)

-- `createTask`
unfoldable pub create_task : Env → Config → ℕ → Restream → Option Portrange × (Error ⊎ Task)
unfolding trim_space new_task configure finish
create_task env c now r =
    if is_nil (trim_space c.id)
    then (r.ports, inl empty_id)
    else finish env (configure env r.tasks r.ports (new_task env c now))

-- A task that cannot be started is taken out again.
unfoldable pub keep_started : Bytes → Outcome → Outcome
unfolding delete save
keep_started id (r, none) = (save r, none)
keep_started id (r, some e) = (record r { tasks = delete Bytes-discrete id r.tasks }, some e)

abbrev pub with_task : Task → Restream → Restream
with_task t r = record r {
  tasks = insert Bytes-discrete t.id t r.tasks;
  filesystems = set_cleanup t.id t.config r.filesystems;
}

unfoldable pub add_created : Task → Restream → Outcome
unfolding lookup keep_started start_task save
add_created t r = elim (lookup Bytes-discrete t.id r.tasks) [
  | some old ↦ (r, some process_exists)
  | none ↦
      if is_start t.process.order
      then keep_started t.id (start_task t.id (with_task t r))
      else (save (with_task t r), none)
]

abbrev pub on_created :
    Restream → (Task → Restream → Outcome) → Option Portrange × (Error ⊎ Task) → Outcome
on_created r f (ports, inl e) = (record r { ports = ports }, some e)
on_created r f (ports, inr t) = f t (record r { ports = ports })

-- `AddProcess`, where no other request comes in between `createTask` and the rest; `Server` has the
-- two halves.
unfoldable pub add_process : Env → Config → ℕ → Restream → Outcome
unfolding create_task add_created
add_process env c now r = on_created r add_created (create_task env c now r)

-- The new task stands in for the old one; that it cannot be started is no error.
unfoldable pub replace_task : Task → Outcome → Outcome
unfolding start_task save
replace_task t (r, some e) = (r, some e)
replace_task t (r, none) =
    if is_start t.process.order
    then (save (start_task t.id (with_task t r)).0, none)
    else (save (with_task t r), none)

abbrev pub and_delete : Bytes → Outcome → Outcome
and_delete id (r, none) = delete_task id r
and_delete id (r, some e) = (r, some e)

abbrev pub is_known : Option Task → Bool
is_known none = false
is_known (some t) = true

unfoldable pub update_found : Bytes → ℕ → Task → Task → Restream → Outcome
unfolding lookup replace_task stop_task Bytes-discrete
update_found id now old t r =
    let t' = record t {
      process = record t.process { order = old.process.order; updated_at = now };
    } in
    if not old.parser
    then (r, some parser_panic)
    else if ite (Bytes-discrete id t.id) false (is_known (lookup Bytes-discrete t.id r.tasks))
    then (r, some process_exists)
    else replace_task t' (and_delete id (stop_task id r))

unfoldable pub update_created : Bytes → ℕ → Task → Restream → Outcome
unfolding lookup update_found
update_created id now t r = elim (lookup Bytes-discrete id r.tasks) [
  | none ↦ (r, some unknown_process)
  | some old ↦ update_found id now old t r
]

-- `UpdateProcess`
unfoldable pub update_process : Env → Bytes → Config → ℕ → Restream → Outcome
unfolding create_task update_created
update_process env id c now r = on_created r (update_created id now) (create_task env c now r)

abbrev pub put_at_id : Bytes → Task → Restream → Restream
put_at_id id t r = record r { tasks = insert Bytes-discrete id t r.tasks }

-- The task of `reloadProcess` after the stop: a new process of FFmpeg, which is started if the
-- old one was.
unfoldable pub reload_stopped : Env → Bytes → Bool → Restream → Task → Outcome
unfolding start_task
reload_stopped env id starts r t =
    let t' = record t { parser = true; ffmpeg = some Process.stop; valid = true } in
    if env.new_ffmpeg t.config t.command
    then if starts then ((start_task id (put_at_id id t' r)).0, none) else (put_at_id id t' r, none)
    else (put_at_id id (record t { parser = true }) r, some no_ffmpeg)

unfoldable pub reload_configured :
    Env → Bytes → Restream → Option Portrange × Task × Option Error → Outcome
unfolding reload_stopped stop_task lookup create_command
reload_configured env id r (ports, t, some e) =
    (put_at_id id t (record r { ports = ports }), some e)
reload_configured env id r (ports, t, none) =
    let t' = record t { command = create_command t.config } in
    let r' = put_at_id id t' (record r { ports = ports }) in
    let stopped = if is_start t.process.order then (stop_task id r').0 else r' in
    elim (lookup Bytes-discrete id stopped.tasks) [
      | none ↦ (stopped, some unknown_process)
      | some t'' ↦ reload_stopped env id (is_start t.process.order) stopped t''
    ]

-- `reloadProcess`
unfoldable pub reload_task : Env → Bytes → Restream → Outcome
unfolding lookup configure reload_configured
reload_task env id r = elim (lookup Bytes-discrete id r.tasks) [
  | none ↦ (r, some unknown_process)
  | some t ↦
      let t' = record t { valid = false; config = env.placeholders t.process.config } in
      reload_configured env id r (configure env r.tasks r.ports t')
]

-- `ReloadProcess`
unfoldable pub reload_process : Env → Bytes → Restream → Outcome
unfolding reload_task
reload_process env id r = saved (reload_task env id r)

-- `RestartProcess`: FFmpeg's process is killed, and its order stays.
unfoldable pub restart_process : Bytes → Restream → Option Error
unfolding lookup
restart_process id r = elim (lookup Bytes-discrete id r.tasks) [
  | none ↦ some unknown_process
  | some t ↦ if not t.valid then some invalid_definition else none
]
