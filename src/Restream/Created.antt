-- ===== src/Restream/Created.antt =====
-- `createTask` and `AddProcess` of restream/restream.go, and the number of running processes.
use datarhei_core.Prelude.{
  ℕ, ◌≡◌, refl, sym, ap, ◌∙◌, subst, Bool, true, false, Option, none, some, ◌⊎◌, inl, inr, if-cases,
  some-cases, elim_some,
}
use datarhei_core.Prelude.Map.{lookup, delete, lookup-insert_self, delete-insert, delete_absent}
use datarhei_core.Io.Path.{Bytes, Bytes-discrete}
use datarhei_core.Process as Process
use datarhei_core.Net.Port.{Portrange}
use datarhei_core.Restream.{Config, create_command, trim_space}
use datarhei_core.Restream.Validate.{Error, empty_id, is_nil}
use datarhei_core.Restream.Tasks.{Task}
use datarhei_core.Restream.Manager.{
  Env, Restream, Outcome, is_start, runs, save, saved, start_task, start_found,
}
use datarhei_core.Restream.Changes.{
  new_task, configure, finish, create_task, keep_started, with_task, add_created, on_created,
}
use datarhei_core.Restream.Count.{Balanced, IsBalanced, Balanced-insert}
use datarhei_core.Restream.Running.{
  StillBalanced, Started, started, not_started, start_found-Started,
}

-- What `createTask` gives: an error, or a valid task whose process of FFmpeg does not run.
pub data Created : Option Portrange × (Error ⊎ Task) → Type 0 where
  failed : (ports : Option Portrange) (e : Error) → Created (ports, inl e)
  made :
      (ports : Option Portrange) (t : Task)
      → t.valid ≡ true
      → t.ffmpeg ≡ some Process.stop
      → Created (ports, inr t)

finish-Created : (env : Env) (p : Option Portrange × Task × Option Error) → Created (finish env p)
unfolding finish
finish-Created env (ports, t, some e) = failed ports e
finish-Created env (ports, t, none) =
    if-cases Created (env.new_ffmpeg t.config (create_command t.config)) _ _
      (λ h. made ports _ refl refl) (λ h. failed ports _)

pub create_task-Created :
    (env : Env) (c : Config) (now : ℕ) (r : Restream) → Created (create_task env c now r)
unfolding create_task
create_task-Created env c now r =
    if-cases Created (is_nil (trim_space c.id)) _ _ (λ h. failed r.ports empty_id)
      (λ h. finish-Created env (configure env r.tasks r.ports (new_task env c now)))

pub saved-StillBalanced : (o : Outcome) → StillBalanced o → StillBalanced (saved o)
unfolding save
saved-StillBalanced (r, none) b = b
saved-StillBalanced (r, some e) b = b

-- After the attempt to start a new task.
keep_started-StillBalanced :
    (id : Bytes) (valid : Bool) (r : Restream) (o : Outcome)
    → Balanced r.max_proc (delete Bytes-discrete id r.tasks) r.n_proc
    → Started valid r o
    → StillBalanced (keep_started id o)
unfolding keep_started save
keep_started-StillBalanced id valid r o b (started r' b') = b'
keep_started-StillBalanced id valid r o b (not_started e w) = b

module _ (t : Task) (r : Restream) where
  start_new : start_task t.id (with_task t r) ≡ start_found t t.id (with_task t r)
  unfolding start_task
  start_new = elim_some (lookup-insert_self Bytes-discrete t.id t r.tasks) _ _

  without_new :
      lookup Bytes-discrete t.id r.tasks ≡ none
      → IsBalanced r
      → Balanced r.max_proc (delete Bytes-discrete t.id (with_task t r).tasks) r.n_proc
  without_new unknown b =
      subst (λ ts. Balanced r.max_proc ts r.n_proc)
        (sym (
          delete-insert Bytes-discrete t.id t r.tasks
          ∙ delete_absent Bytes-discrete t.id r.tasks unknown))
        b

  -- A new task that is started, or not.
  pub start_new-Started :
      lookup Bytes-discrete t.id r.tasks ≡ none
      → t.ffmpeg ≡ some Process.stop
      → IsBalanced r
      → Started t.valid (with_task t r) (start_task t.id (with_task t r))
  start_new-Started unknown f b =
      subst (Started t.valid (with_task t r)) (sym start_new)
        (start_found-Started t t.id (with_task t r) (without_new unknown b) (ap runs f))

  -- A new task that is not to start.
  pub with_task-IsBalanced :
      lookup Bytes-discrete t.id r.tasks ≡ none
      → t.ffmpeg ≡ some Process.stop
      → is_start t.process.order ≡ false
      → IsBalanced r
      → IsBalanced (with_task t r)
  with_task-IsBalanced unknown f s b =
      Balanced-insert r.max_proc t.id r.tasks t (ap runs f) (ap runs f ∙ sym s) (
        subst (λ ts. Balanced r.max_proc ts r.n_proc)
          (sym (delete_absent Bytes-discrete t.id r.tasks unknown)) b)

  pub add_created-StillBalanced :
      t.ffmpeg ≡ some Process.stop → IsBalanced r → StillBalanced (add_created t r)
  unfolding add_created save
  add_created-StillBalanced f b =
      some-cases StillBalanced (lookup Bytes-discrete t.id r.tasks) _ _
        (λ unknown.
          if-cases StillBalanced (is_start t.process.order) _ _
            (λ s.
              keep_started-StillBalanced t.id t.valid (with_task t r)
                (start_task t.id (with_task t r)) (without_new unknown b)
                (start_new-Started unknown f b))
            (λ s. with_task-IsBalanced unknown f s b))
        (λ old known. b)

-- An operation on a created task.
pub on_created-StillBalanced :
    (r : Restream) (f : Task → Restream → Outcome) (p : Option Portrange × (Error ⊎ Task))
    → Created p
    → ((t : Task) (ports : Option Portrange)
        → t.valid ≡ true
        → t.ffmpeg ≡ some Process.stop
        → StillBalanced (f t (record r { ports = ports })))
    → IsBalanced r
    → StillBalanced (on_created r f p)
on_created-StillBalanced r f p (failed ports e) h b = b
on_created-StillBalanced r f p (made ports t v s) h b = h t ports v s
