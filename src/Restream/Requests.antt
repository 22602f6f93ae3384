-- ===== src/Restream/Requests.antt =====
-- The number of running processes over sequences of requests to the manager of
-- restream/restream.go.
use datarhei_core.Prelude.{
  ℕ, zero, suc, ◌≡◌, refl, List, [], ◌∷◌, Option, none, some, ◌⊎◌, All, if-cases, some-cases,
}
use datarhei_core.Prelude.Map.{lookup, lookup_of_All}
use datarhei_core.Io.Path.{Bytes, Bytes-discrete}
use datarhei_core.Process as Process
use datarhei_core.Net.Port.{Portrange}
use datarhei_core.Restream.Validate.{Error, is_nil}
use datarhei_core.Restream.Tasks.{Task}
use datarhei_core.Restream.Manager.{
  Env, Restream, save, start_process, stop_process, delete_process, start_task, stop_task,
  delete_task,
}
use datarhei_core.Restream.Changes.{create_task}
use datarhei_core.Restream.Queries.{set_process_metadata, set_metadata, set_key}
use datarhei_core.Restream.Server.{
  Request, creates, adds, updates, deletes, starts, stops, restarts, reloads, observes,
  sets_metadata, sets_system_metadata, Server, take_nth, begin_add, finish_add, server_of, serve,
  serve_all,
}
use datarhei_core.Restream.Count.{IsSettled, IsBalanced, Balanced-replace}
use datarhei_core.Restream.Running.{
  StillBalanced, start_task-StillBalanced, stop_task-StillBalanced, delete_task-StillBalanced,
  observe-IsBalanced,
}
use datarhei_core.Restream.Created.{
  Created, failed, made, create_task-Created, saved-StillBalanced, add_created-StillBalanced,
}
use datarhei_core.Restream.Updated.{update_process-StillBalanced}
use datarhei_core.Restream.Reloaded.{reload_process-StillBalanced}

set_process_metadata-StillBalanced :
    (id key : Bytes) (value : Option Bytes) (r : Restream)
    → IsBalanced r
    → StillBalanced (set_process_metadata id key value r)
unfolding set_process_metadata save
set_process_metadata-StillBalanced id key value r b =
    if-cases StillBalanced (is_nil key) _ _ (λ h. b)
      (λ h.
        some-cases StillBalanced (lookup Bytes-discrete id r.tasks) _ _ (λ e. b)
          (λ t e.
            Balanced-replace r.max_proc id r.tasks t
              (record t { metadata = set_key key value t.metadata }) e refl
              (lookup_of_All Bytes-discrete IsSettled r.tasks id t b.settled e) b))

set_metadata-StillBalanced :
    (key : Bytes) (value : Option Bytes) (r : Restream)
    → IsBalanced r
    → StillBalanced (set_metadata key value r)
unfolding set_metadata save
set_metadata-StillBalanced key value r b = if-cases StillBalanced (is_nil key) _ _ (λ h. b) (λ h. b)

-- FFmpeg's process of a task that waits for the lock has the order to stop.
abbrev pub IsIdle : Task → Type 0
IsIdle t = t.ffmpeg ≡ some Process.stop

pub record IsReady (s : Server) : Type 0 where
  pub balanced : IsBalanced s.manager
  pub idle : All IsIdle s.created

abbrev TakenIdle : Option (Task × List Task) → Type 0
TakenIdle none = Unit
TakenIdle (some p) = IsIdle p.0 × All IsIdle p.1

take_nth-TakenIdle : (n : ℕ) (ts : List Task) → All IsIdle ts → TakenIdle (take_nth n ts)
unfolding take_nth
take_nth-TakenIdle n [] h = tt
take_nth-TakenIdle zero (t ∷ ts) h = h
take_nth-TakenIdle (suc n) (t ∷ ts) (i, h) = go (take_nth n ts) (take_nth-TakenIdle n ts h)
  where
    go :
        (o : Option (Task × List Task))
        → TakenIdle o
        → TakenIdle (elim o [ none ↦ none | some p ↦ some (p.0, t ∷ p.1) ])
    go none h = tt
    go (some p) h = (h.0, (i, h.1))

begin_add-IsReady :
    (p : Option Portrange × (Error ⊎ Task)) (s : Server)
    → Created p
    → IsReady s
    → IsReady (begin_add p s)
begin_add-IsReady p s (failed ports e) r = record { balanced = r.balanced; idle = r.idle }
begin_add-IsReady p s (made ports t v i) r = record { balanced = r.balanced; idle = (i, r.idle) }

finish_add-IsReady :
    (o : Option (Task × List Task)) (s : Server)
    → TakenIdle o
    → IsReady s
    → IsReady (finish_add o s)
finish_add-IsReady none s h r = r
finish_add-IsReady (some p) s h r = record {
  balanced = add_created-StillBalanced p.0 s.manager h.0 r.balanced;
  idle = h.1;
}

serve-IsReady : (env : Env) (q : ℕ × Request) (s : Server) → IsReady s → IsReady (serve env q s)
unfolding serve start_process stop_process delete_process
serve-IsReady env (now, creates c) s r =
    begin_add-IsReady (create_task env c now s.manager) s (create_task-Created env c now s.manager)
      r
serve-IsReady env (now, adds n) s r =
    finish_add-IsReady (take_nth n s.created) s (take_nth-TakenIdle n s.created r.idle) r
serve-IsReady env (now, updates id c) s r = record {
  balanced = update_process-StillBalanced env id c now s.manager r.balanced;
  idle = r.idle;
}
serve-IsReady env (now, deletes id) s r = record {
  balanced =
      saved-StillBalanced (delete_task id s.manager)
        (delete_task-StillBalanced s.manager id r.balanced);
  idle = r.idle;
}
serve-IsReady env (now, starts id) s r = record {
  balanced =
      saved-StillBalanced (start_task id s.manager)
        (start_task-StillBalanced s.manager id r.balanced);
  idle = r.idle;
}
serve-IsReady env (now, stops id) s r = record {
  balanced =
      saved-StillBalanced (stop_task id s.manager)
        (stop_task-StillBalanced s.manager id r.balanced);
  idle = r.idle;
}
serve-IsReady env (now, restarts id) s r = r
serve-IsReady env (now, reloads id) s r = record {
  balanced = reload_process-StillBalanced env id s.manager r.balanced;
  idle = r.idle;
}
serve-IsReady env (now, observes size limit) s r = record {
  balanced = observe-IsBalanced size limit s.manager r.balanced;
  idle = r.idle;
}
serve-IsReady env (now, sets_metadata id key value) s r = record {
  balanced = set_process_metadata-StillBalanced id key value s.manager r.balanced;
  idle = r.idle;
}
serve-IsReady env (now, sets_system_metadata key value) s r = record {
  balanced = set_metadata-StillBalanced key value s.manager r.balanced;
  idle = r.idle;
}

serve_all-IsReady :
    (env : Env) (s : Server) (qs : List (ℕ × Request)) → IsReady s → IsReady (serve_all env s qs)
unfolding serve_all
serve_all-IsReady env s [] r = r
serve_all-IsReady env s (q ∷ qs) r =
    serve-IsReady env q (serve_all env s qs) (serve_all-IsReady env s qs r)

-- For a manager whose `nProc` is the number of tasks with a running process, at most `maxProc`
-- where this is a limit, and each of whose processes of FFmpeg has the order of its task
-- (`IsBalanced`), and no call of `AddProcess` under way: after any sequence of requests to add,
-- update, delete, start, stop, restart and reload processes and to set metadata, and of ticks of
-- `observe`, where others may come in between the two halves of `AddProcess`, the manager is so
-- again, whatever errors the requests have.
pub serve_all-IsBalanced :
    (env : Env) (r : Restream) (qs : List (ℕ × Request))
    → IsBalanced r
    → IsBalanced (serve_all env (server_of r) qs).manager
serve_all-IsBalanced env r qs b =
    (serve_all-IsReady env (server_of r) qs (record { balanced = b; idle = tt })).balanced
