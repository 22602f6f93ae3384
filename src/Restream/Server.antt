-- ===== src/Restream/Server.antt =====
-- Sequences of requests to the manager of restream/restream.go. `AddProcess` gives its lock back
-- between `createTask` and the rest: these are two requests here, so that others come in between.
use datarhei_core.Prelude.{
  ℕ, zero, suc, ◌≡◌, refl, List, [], ◌∷◌, Option, none, some, ◌⊎◌, inl, inr,
}
use datarhei_core.Io.Path.{Bytes}
use datarhei_core.Net.Port.{Portrange}
use datarhei_core.Restream.{Config}
use datarhei_core.Restream.Validate.{Error}
use datarhei_core.Restream.Tasks.{Task}
use datarhei_core.Restream.Manager.{Env, Restream, start_process, stop_process, delete_process}
use datarhei_core.Restream.Changes.{
  create_task, add_created, on_created, add_process, update_process, reload_process,
}
use datarhei_core.Restream.Lifecycle.{observe}
use datarhei_core.Restream.Queries.{set_process_metadata, set_metadata}

-- `adds n`: the call of `AddProcess` whose task is the nth of those created goes on.
pub data Request : Type 0 where
  creates : Config → Request
  adds : ℕ → Request
  updates : Bytes → Config → Request
  deletes starts stops restarts reloads : Bytes → Request
  observes : ℕ → ℕ → Request
  sets_metadata : Bytes → Bytes → Option Bytes → Request
  sets_system_metadata : Bytes → Option Bytes → Request

-- The manager, and the tasks of the calls of `AddProcess` that wait for the lock, the latest first.
pub record Server : Type 0 where
  pub manager : Restream
  pub created : List Task

abbrev pub with_manager : Server → Restream → Server
with_manager s r = record s { manager = r }

-- An element, and the others.
unfoldable pub take_nth : ℕ → List Task → Option (Task × List Task)
take_nth n [] = none
take_nth zero (t ∷ ts) = some (t, ts)
take_nth (suc n) (t ∷ ts) = elim (take_nth n ts) [ none ↦ none | some p ↦ some (p.0, t ∷ p.1) ]

-- `AddProcess` up to the lock: `createTask` takes ports, and the task waits unless there is an
-- error.
abbrev pub begin_add : Option Portrange × (Error ⊎ Task) → Server → Server
begin_add (ports, inl e) s = with_manager s (record s.manager { ports = ports })
begin_add (ports, inr t) s = record {
  manager = record s.manager { ports = ports };
  created = t ∷ s.created;
}

-- The rest of `AddProcess`.
abbrev pub finish_add : Option (Task × List Task) → Server → Server
finish_add none s = s
finish_add (some p) s = record { manager = (add_created p.0 s.manager).0; created = p.1 }

-- The manager after a request, at a time; an error is the answer, and the manager goes on.
unfoldable pub serve : Env → ℕ × Request → Server → Server
unfolding create_task add_created take_nth update_process delete_process start_process stop_process
    reload_process observe set_process_metadata set_metadata
serve env (now, creates c) s = begin_add (create_task env c now s.manager) s
serve env (now, adds n) s = finish_add (take_nth n s.created) s
serve env (now, updates id c) s = with_manager s (update_process env id c now s.manager).0
serve env (now, deletes id) s = with_manager s (delete_process id s.manager).0
serve env (now, starts id) s = with_manager s (start_process id s.manager).0
serve env (now, stops id) s = with_manager s (stop_process id s.manager).0
serve env (now, restarts id) s = s
serve env (now, reloads id) s = with_manager s (reload_process env id s.manager).0
serve env (now, observes size limit) s = with_manager s (observe size limit s.manager)
serve env (now, sets_metadata id key value) s =
    with_manager s (set_process_metadata id key value s.manager).0
serve env (now, sets_system_metadata key value) s =
    with_manager s (set_metadata key value s.manager).0

-- Requests, the latest first.
unfoldable pub serve_all : Env → Server → List (ℕ × Request) → Server
unfolding serve
serve_all env s [] = s
serve_all env s (q ∷ qs) = serve env q (serve_all env s qs)

-- No call waits.
abbrev pub server_of : Restream → Server
server_of r = record { manager = r; created = [] }

-- Where no other request comes in between, the two requests are `AddProcess`.
add_process-serve :
    (env : Env) (c : Config) (now later : ℕ) (r : Restream)
    → let s = serve env (later, adds 0) (serve env (now, creates c) (server_of r)) in
      s.manager ≡ (add_process env c now r).0
unfolding serve add_process
add_process-serve env c now later r = go (create_task env c now r)
  where
    go :
        (p : Option Portrange × (Error ⊎ Task))
        → let s = serve env (later, adds 0) (begin_add p (server_of r)) in
          s.manager ≡ (on_created r add_created p).0
    go (ports, inl e) = refl
    go (ports, inr t) = refl
