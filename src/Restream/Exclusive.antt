-- ===== src/Restream/Exclusive.antt =====
-- The ports of playouts over sequences of requests to the manager of restream/restream.go.
mod Tests
use datarhei_core.Prelude.{
  ℕ, zero, suc, ◌+◌, ◌≤◌, ◌≡◌, refl, ap, ◌∙◌, Bool, true, false, not, List, [], ◌∷◌, Option, none,
  some, ◌⊎◌, inl, inr, arith, if-cases, some-cases, sum-cases, ite, if◌then◌else◌,
}
use datarhei_core.Prelude.Map.{lookup, delete}
use datarhei_core.Io.Path.{Bytes, Bytes-discrete}
use datarhei_core.Process as Process
use datarhei_core.Net.Port.{Portrange}
use datarhei_core.Restream.{Config, create_command, trim_space}
use datarhei_core.Restream.Validate.{Error, validate_config, is_nil}
use datarhei_core.Restream.Resolve.{resolve_addresses}
use datarhei_core.Restream.Tasks.{Task}
use datarhei_core.Restream.Manager.{
  Env, Restream, Outcome, is_start, save, saved, outputs_of, start_task, stop_task, delete_task,
  start_process, stop_process, delete_process,
}
use datarhei_core.Restream.Changes.{
  new_task, set_inputs_valid, configure, finish, create_task, keep_started, with_task, add_created,
  on_created, add_process, replace_task, and_delete, is_known, update_found, update_created,
  update_process, put_at_id, reload_stopped, reload_configured, reload_task, reload_process,
}
use datarhei_core.Restream.Queries.{set_process_metadata, set_metadata, set_key}
use datarhei_core.Restream.Server.{
  Request, creates, adds, updates, deletes, starts, stops, restarts, reloads, observes,
  sets_metadata, sets_system_metadata, Server, take_nth, begin_add, finish_add, serve, serve_all,
}
use datarhei_core.Restream.Ports.{used, used-le, IsPool}
use datarhei_core.Restream.Holders.{
  playout_hits, hits, holds, holders, Fits, set_playout_ports-Fits,
}
use datarhei_core.Restream.Leases.{
  Leases, IsLeased, StillLeased, Leases-put, Leases-insert, Leases-replace, Leases-delete,
  Leases-split, Leases-drop, start_task-StillLeased, stop_task-StillLeased, delete_task-StillLeased,
  observe-IsLeased,
}
use datarhei_core.Restream.Configured.{
  Configured, Holds, CreatedHolds, configure-Holds, create_task-CreatedHolds,
}
use datarhei_core.Restream.Reassigned.{
  saved-StillLeased, add_created-StillLeased, update_process-StillLeased,
  set_process_metadata-StillLeased, set_metadata-StillLeased, reload_task-StillLeased,
}

-- How often a port is held by tasks that wait for the lock.
unfoldable pub waiting_holds : ℕ → List Task → ℕ
waiting_holds q [] = 0
waiting_holds q (t ∷ ts) = holds q t + waiting_holds q ts

-- The ports of the tasks of the manager and of those that wait.
abbrev pub IsLeasing : Server → Type 0
IsLeasing s = IsLeased (λ q. waiting_holds q s.created) s.manager

record Took (ts : List Task) (t : Task) (rest : List Task) : Type 0 where
  held : (q : ℕ) → waiting_holds q ts ≡ waiting_holds q rest + holds q t

abbrev IsTaken : List Task → Option (Task × List Task) → Type 0
IsTaken ts none = Unit
IsTaken ts (some p) = Took ts p.0 p.1

take_nth-IsTaken : (n : ℕ) (ts : List Task) → IsTaken ts (take_nth n ts)
unfolding take_nth waiting_holds
take_nth-IsTaken n [] = tt
take_nth-IsTaken zero (t ∷ ts) = record { held = λ q. omega arith }
take_nth-IsTaken (suc n) (t ∷ ts) = go (take_nth n ts) (take_nth-IsTaken n ts)
  where
    go :
        (o : Option (Task × List Task))
        → IsTaken ts o
        → IsTaken (t ∷ ts) (elim o [ none ↦ none | some p ↦ some (p.0, t ∷ p.1) ])
    go none h = tt
    go (some p) h = record { held = λ q. omega (arith, h.held q) }

begin_add-IsLeasing :
    (p : Option Portrange × (Error ⊎ Task)) (s : Server)
    → CreatedHolds (λ q. waiting_holds q s.created + holders q s.manager.tasks) p
    → IsLeasing s
    → IsLeasing (begin_add p s)
unfolding waiting_holds
begin_add-IsLeasing (ports, inl e) s h k = record {
  distinct = k.distinct;
  pool = h.pool;
  fits = λ q. omega (arith, h.fits q);
}
begin_add-IsLeasing (ports, inr t) s h k = record {
  distinct = k.distinct;
  pool = h.pool;
  fits = λ q. omega (arith, h.fits q);
}

finish_add-IsLeasing :
    (o : Option (Task × List Task)) (s : Server)
    → IsTaken s.created o
    → IsLeasing s
    → IsLeasing (finish_add o s)
finish_add-IsLeasing none s h k = k
finish_add-IsLeasing (some p) s h k =
    add_created-StillLeased (λ q. waiting_holds q p.1) p.0 s.manager
      (record {
        distinct = k.distinct;
        pool = k.pool;
        fits = λ q. omega (arith, k.fits q, h.held q);
      })

serve-IsLeasing :
    (env : Env) (q : ℕ × Request) (s : Server) → IsLeasing s → IsLeasing (serve env q s)
unfolding serve start_process stop_process delete_process reload_process
serve-IsLeasing env q s k = go q
  where
    waiting : ℕ → ℕ
    waiting p = waiting_holds p s.created

    go : (q : ℕ × Request) → IsLeasing (serve env q s)
    go (now, creates c) =
        begin_add-IsLeasing (create_task env c now s.manager) s
          (create_task-CreatedHolds (λ p. waiting p + holders p s.manager.tasks) env c now s.manager
            k.pool k.fits)
          k
    go (now, adds n) =
        finish_add-IsLeasing (take_nth n s.created) s (take_nth-IsTaken n s.created) k
    go (now, updates id c) = update_process-StillLeased waiting env s.manager k id c now
    go (now, deletes id) =
        saved-StillLeased waiting (delete_task id s.manager)
          (delete_task-StillLeased waiting s.manager k id)
    go (now, starts id) =
        saved-StillLeased waiting (start_task id s.manager)
          (start_task-StillLeased waiting s.manager k id)
    go (now, stops id) =
        saved-StillLeased waiting (stop_task id s.manager)
          (stop_task-StillLeased waiting s.manager k id)
    go (now, restarts id) = k
    go (now, reloads id) =
        saved-StillLeased waiting (reload_task env id s.manager)
          (reload_task-StillLeased waiting env id s.manager k)
    go (now, observes size limit) = observe-IsLeased waiting size limit s.manager k
    go (now, sets_metadata id key value) =
        set_process_metadata-StillLeased waiting env s.manager k id key value
    go (now, sets_system_metadata key value) =
        set_metadata-StillLeased waiting env s.manager k key value

serve_all-IsLeasing :
    (env : Env) (s : Server) (qs : List (ℕ × Request))
    → IsLeasing s
    → IsLeasing (serve_all env s qs)
unfolding serve_all
serve_all-IsLeasing env s [] k = k
serve_all-IsLeasing env s (q ∷ qs) k =
    serve-IsLeasing env q (serve_all env s qs) (serve_all-IsLeasing env s qs k)

-- For a manager whose tasks have different identifiers, where they and the tasks of calls of
-- `AddProcess` that wait for the lock hold only ports that a valid pool has in use, none of them
-- twice (`IsLeasing`): after any sequence of requests to add, update, delete, start, stop, restart
-- and reload processes and to set metadata, and of ticks of `observe`, where others may come in
-- between the two halves of `AddProcess`, whatever errors the requests have, each number is at
-- most once among the ports of the playouts of all these tasks, and if it is, the pool has it in
-- use.
pub serve_all-holders :
    (env : Env) (s : Server) (qs : List (ℕ × Request)) (p : ℕ)
    → IsLeasing s
    → (holders p (serve_all env s qs).manager.tasks + waiting_holds p (serve_all env s qs).created
        ≤ 1)
      × (holders p (serve_all env s qs).manager.tasks + waiting_holds p (serve_all env s qs).created
          ≤ used p (serve_all env s qs).manager.ports)
serve_all-holders env s qs p k =
    let fits = (serve_all-IsLeasing env s qs k).fits p in
    (omega (arith, fits, used-le p (serve_all env s qs).manager.ports), omega (arith, fits))
