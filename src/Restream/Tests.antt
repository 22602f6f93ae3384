-- ===== src/Restream/Tests.antt =====
-- A manager of restream/restream.go at work.
use datarhei_core.Prelude.{
  ℕ, suc, ◌≡◌, refl, ap, true, false, List, [], ◌∷◌, ◌++◌, Option, none, some, length, All, inr,
  arith,
}
use datarhei_core.Prelude.Int.{ℤ, pos, ◌-ℤ◌}
use datarhei_core.Prelude.Map.{lookup, total, IsMap}
use datarhei_core.Io.Path.{Bytes, Bytes-discrete}
use datarhei_core.Process as Process
use datarhei_core.Restream.{ConfigIo, Config, contains}
use datarhei_core.Restream.Output.{
  Checks, Checked, accepted, starts_bracket, validate_input_address, split_bars, cons_part,
  validate_output_address,
}
use datarhei_core.Restream.Returns.{
  brackets_close, validate_output_address-returns, validate_output_address-diverges,
}
use datarhei_core.Restream.Inside.{file_text, Decided, validate_output_address-Decided}
use datarhei_core.Restream.Resolve.{resolve_address}
use datarhei_core.Restream.Resolution.{Resolves, resolve_address-Resolves}
use datarhei_core.Restream.Tasks.{Task}
use datarhei_core.Restream.Manager.{Env, Restream, stop_task}
use datarhei_core.Restream.Lifecycle.{start_restream, stop_restream}
use datarhei_core.Restream.Count.{IsBalanced, running_count}
use datarhei_core.Restream.Server.{
  Request, creates, adds, updates, starts, reloads, Server, server_of, serve_all,
}
use datarhei_core.Restream.Requests.{serve_all-IsBalanced}
use datarhei_core.Restream.Faults.{start_restream-stop_restream, stop_task-undercounts}

-- No URL, and everything is allowed.
abbrev checks : Checks
checks = record {
  has_scheme = λ a. false;
  is_url = λ a. true;
  input_allowed = λ a. true;
  output_allowed = λ a. true;
  abs = λ a. some (b'/' ∷ a);
}

abbrev pub env : Env
env = record { checks = checks; disks = []; placeholders = λ c. c; new_ffmpeg = λ c command. true }

-- "/a"
abbrev pub base : Bytes
base = b'/' ∷ b'a' ∷ []

-- "[f=x]a|b"
abbrev tee_address : Bytes
tee_address = b'[' ∷ b'f' ∷ b'=' ∷ b'x' ∷ b']' ∷ b'a' ∷ b'|' ∷ b'b' ∷ []

tee_closed : All (λ p. brackets_close p ≡ true) (split_bars tee_address)
unfolding split_bars cons_part brackets_close contains
tee_closed = (refl, (refl, tt))

validate_output_address-returns_example :
    (r : Checked) × (validate_output_address checks
        (suc (suc (length tee_address)))
        base
        tee_address
      ≡ some r)
validate_output_address-returns_example =
    validate_output_address-returns checks base tee_address tee_closed

-- "[x"
abbrev open_address : Bytes
open_address = b'[' ∷ b'x' ∷ []

open_address_bars : (contains b'|' open_address ≡ false) × (contains b']' open_address ≡ false)
unfolding contains
open_address_bars = (refl, refl)

validate_output_address-diverges_example : validate_output_address checks 5 base open_address ≡ none
validate_output_address-diverges_example =
    validate_output_address-diverges checks base 5 open_address refl open_address_bars.0
      open_address_bars.1

-- "file:a"
abbrev file_address : Bytes
file_address = b'f' ∷ b'i' ∷ b'l' ∷ b'e' ∷ b':' ∷ b'a' ∷ []

validate_output_address-Decided_example :
    (c : Checked) × (validate_output_address checks 1 base file_address ≡ some c)
    × Decided checks base file_address c
validate_output_address-Decided_example =
    validate_output_address-Decided checks base 0 file_address (omega arith)
      (λ rest e. cc (ap starts_bracket e))

file_address-accepted :
    validate_output_address checks 1 base file_address ≡ some (accepted (file_text ++ base) true)
unfolding validate_output_address contains
file_address-accepted = refl

-- A process "p" with an output "o", and a reference to it.
abbrev output : ConfigIo
output = record { id = b'o' ∷ []; address = base; options = []; cleanup = [] }

abbrev outputs_of : Bytes → Option (List ConfigIo)
outputs_of p = some (output ∷ [])

-- "#p:output=o"
abbrev reference : Bytes
reference = b'#' ∷ b'p' ∷ b':' ∷ b'o' ∷ b'u' ∷ b't' ∷ b'p' ∷ b'u' ∷ b't' ∷ b'=' ∷ b'o' ∷ []

resolve_address-Resolves_example :
    Resolves outputs_of (b'q' ∷ []) reference (resolve_address outputs_of (b'q' ∷ []) reference)
resolve_address-Resolves_example = resolve_address-Resolves outputs_of (b'q' ∷ []) reference

reference-resolved : resolve_address outputs_of (b'q' ∷ []) reference ≡ inr base
unfolding resolve_address Bytes-discrete
reference-resolved = refl

abbrev pub config : Config
config = record {
  id = b'p' ∷ [];
  reference = [];
  input = output ∷ [];
  output = output ∷ [];
  options = [];
  reconnect = false;
  reconnect_delay = 0;
  autostart = true;
  stale_timeout = 0;
  limit_memory = 0;
  limit_wait_for = 0;
}

-- At most one process runs.
abbrev pub empty : Restream
empty = record {
  tasks = [];
  max_proc = pos 1;
  n_proc = pos 0;
  ports = none;
  filesystems = [];
  metadata = none;
  stored = none;
  started = true;
  stopped = false;
}

empty-IsBalanced : IsBalanced empty
unfolding running_count total
empty-IsBalanced = record { distinct = tt; settled = tt; counted = refl; bounded = λ l. refl }

abbrev requests : List (ℕ × Request)
requests =
    (4, reloads (b'p' ∷ []))
    ∷ (3, updates (b'p' ∷ []) config)
    ∷ (2, starts (b'q' ∷ []))
    ∷ (1, adds 0)
    ∷ (0, creates config)
    ∷ []

abbrev served : Server
served = serve_all env (server_of empty) requests

serve_all-IsBalanced_example : IsBalanced served.manager
serve_all-IsBalanced_example = serve_all-IsBalanced env empty requests empty-IsBalanced

-- A task whose process has the order `o`, and the manager with it.
abbrev task : Process.Order → Task
task o = record {
  valid = true;
  id = b'p' ∷ [];
  reference = [];
  process = record {
    id = b'p' ∷ [];
    reference = [];
    config = config;
    order = Process.start;
    created_at = 1;
    updated_at = 1;
  };
  config = config;
  command = [];
  ffmpeg = some o;
  parser = true;
  playout = none;
  uses_disk = false;
  metadata = none;
}

abbrev one_task : Process.Order → Restream
one_task o = record empty { tasks = (b'p' ∷ [], task o) ∷ []; n_proc = pos 1 }

start_restream-stop_restream_example :
    running_count (start_restream (stop_restream (one_task Process.start))).tasks ≡ 0
start_restream-stop_restream_example =
    start_restream-stop_restream (one_task Process.start) refl refl

one_task_known :
    IsMap Bytes-discrete (one_task Process.stop).tasks
    × (lookup Bytes-discrete (b'p' ∷ []) (one_task Process.stop).tasks ≡ some (task Process.stop))
unfolding lookup Bytes-discrete
one_task_known = ((refl, tt), refl)

stop_task-undercounts_example :
    (◌≡◌ {A = ℤ} (stop_task (b'p' ∷ []) (one_task Process.stop)).0.n_proc (pos 1 -ℤ pos 1))
    × (running_count (stop_task (b'p' ∷ []) (one_task Process.stop)).0.tasks
        ≡ running_count (one_task Process.stop).tasks)
stop_task-undercounts_example =
    stop_task-undercounts (b'p' ∷ []) (task Process.stop) (one_task Process.stop) one_task_known.0
      one_task_known.1 refl refl

-- The requests above, computed: one process runs, and it is counted.
requests_run : (served.manager.n_proc ≡ pos 1) × (running_count served.manager.tasks ≡ 1)
unfolding serve_all validate_input_address validate_output_address running_count
requests_run = (refl, refl)
