-- ===== src/Restream/Reassigned.antt =====
-- The requests to the manager of restream/restream.go that assign ports keep the leases.
use datarhei_core.Prelude.{
  ℕ, ◌+◌, ◌≡◌, refl, Bool, true, false, not, Option, none, some, ◌⊎◌, inl, inr, arith, if-cases,
  some-cases, ite, if◌then◌else◌,
}
use datarhei_core.Prelude.Map.{lookup, delete}
use datarhei_core.Io.Path.{Bytes, Bytes-discrete}
use datarhei_core.Process as Process
use datarhei_core.Net.Port.{Portrange}
use datarhei_core.Restream.{Config, create_command}
use datarhei_core.Restream.Validate.{Error, is_nil}
use datarhei_core.Restream.Tasks.{Task}
use datarhei_core.Restream.Manager.{
  Env, Restream, Outcome, is_start, save, saved, start_task, stop_task,
}
use datarhei_core.Restream.Changes.{
  configure, create_task, keep_started, with_task, add_created, on_created, replace_task,
  and_delete, is_known, update_found, update_created, update_process, put_at_id, reload_stopped,
  reload_configured, reload_task,
}
use datarhei_core.Restream.Queries.{set_process_metadata, set_metadata, set_key}
use datarhei_core.Restream.Holders.{holds, holders}
use datarhei_core.Restream.Leases.{
  IsLeased, StillLeased, Leases-put, Leases-insert, Leases-replace, Leases-delete, Leases-split,
  Leases-drop, start_task-StillLeased, stop_task-StillLeased, delete_task-StillLeased,
}
use datarhei_core.Restream.Configured.{
  Configured, Holds, CreatedHolds, configure-Holds, create_task-CreatedHolds,
}

module _ (other : ℕ → ℕ) where
  pub saved-StillLeased : (o : Outcome) → StillLeased other o → StillLeased other (saved o)
  unfolding save
  saved-StillLeased (r, none) k = k
  saved-StillLeased (r, some e) k = k

  keep_started-StillLeased :
      (id : Bytes) (o : Outcome) → StillLeased other o → StillLeased other (keep_started id o)
  unfolding keep_started save
  keep_started-StillLeased id (r, none) k = k
  keep_started-StillLeased id (r, some e) k = Leases-delete id r.tasks k

  -- What a created task holds is held elsewhere until it is put in.
  on_created-StillLeased :
      (r : Restream) (f : Task → Restream → Outcome) (p : Option Portrange × (Error ⊎ Task))
      → CreatedHolds (λ q. other q + holders q r.tasks) p
      → ((t : Task) (ports : Option Portrange)
          → IsLeased (λ q. other q + holds q t) (record r { ports = ports })
          → StillLeased other (f t (record r { ports = ports })))
      → IsLeased other r
      → StillLeased other (on_created r f p)
  on_created-StillLeased r f (ports, inl e) h rest k = record {
    distinct = k.distinct;
    pool = h.pool;
    fits = λ q. omega (arith, h.fits q);
  }
  on_created-StillLeased r f (ports, inr t) h rest k =
      rest t ports
        (record { distinct = k.distinct; pool = h.pool; fits = λ q. omega (arith, h.fits q) })

  pub add_created-StillLeased :
      (t : Task) (r : Restream)
      → IsLeased (λ q. other q + holds q t) r
      → StillLeased other (add_created t r)
  unfolding add_created save
  add_created-StillLeased t r k =
      some-cases (StillLeased other) (lookup Bytes-discrete t.id r.tasks) _ _
        (λ unknown.
          let k' : IsLeased other (with_task t r) = Leases-insert t.id r.tasks t k in
          if-cases (StillLeased other) (is_start t.process.order) _ _
            (λ s.
              keep_started-StillLeased t.id (start_task t.id (with_task t r))
                (start_task-StillLeased other (with_task t r) k' t.id))
            (λ s. k'))
        (λ old known. Leases-drop t k)

  replace_task-StillLeased :
      (t : Task) (o : Outcome)
      → StillLeased (λ q. other q + holds q t) o
      → StillLeased other (replace_task t o)
  unfolding replace_task save
  replace_task-StillLeased t (r, some e) k = Leases-drop t k
  replace_task-StillLeased t (r, none) k =
      let k' : IsLeased other (with_task t r) = Leases-insert t.id r.tasks t k in
      if-cases (StillLeased other) (is_start t.process.order) _ _
        (λ s. start_task-StillLeased other (with_task t r) k' t.id) (λ s. k')

  and_delete-StillLeased :
      (id : Bytes) (o : Outcome) → StillLeased other o → StillLeased other (and_delete id o)
  and_delete-StillLeased id (r, none) k = delete_task-StillLeased other r k id
  and_delete-StillLeased id (r, some e) k = k

module _ (other : ℕ → ℕ) (env : Env) (r : Restream) (k : IsLeased other r) where
  created_task_holds :
      (c : Config) (now : ℕ)
      → CreatedHolds (λ q. other q + holders q r.tasks) (create_task env c now r)
  created_task_holds c now =
      create_task-CreatedHolds (λ q. other q + holders q r.tasks) env c now r k.pool k.fits

  pub update_process-StillLeased :
      (id : Bytes) (c : Config) (now : ℕ) → StillLeased other (update_process env id c now r)
  unfolding update_process update_created update_found
  update_process-StillLeased id c now =
      on_created-StillLeased other r (update_created id now) (create_task env c now r)
        (created_task_holds c now)
        (λ t ports k'.
          let r' = record r { ports = ports } in
          some-cases (StillLeased other) (lookup Bytes-discrete id r.tasks) _ _
            (λ e. Leases-drop t k')
            (λ old e.
              if-cases (StillLeased other) (not old.parser) _ _ (λ p. Leases-drop t k')
                (λ p.
                  if-cases (StillLeased other)
                    (ite (Bytes-discrete id t.id) false
                      (is_known (lookup Bytes-discrete t.id r.tasks)))
                    _ _ (λ known. Leases-drop t k')
                    (λ unknown.
                      replace_task-StillLeased other
                        (record t {
                          process = record t.process {
                            order = old.process.order;
                            updated_at = now;
                          };
                        })
                        (and_delete id (stop_task id r'))
                        (and_delete-StillLeased (λ q. other q + holds q t) id (stop_task id r')
                          (stop_task-StillLeased (λ q. other q + holds q t) r' k' id))))))
        k

  reload_stopped-StillLeased :
      (id : Bytes) (b : Bool) (t : Task)
      → lookup Bytes-discrete id r.tasks ≡ some t
      → StillLeased other (reload_stopped env id b r t)
  unfolding reload_stopped
  reload_stopped-StillLeased id b t e =
      let t' = record t { parser = true; ffmpeg = some Process.stop; valid = true } in
      let k' : IsLeased other (put_at_id id t' r) = Leases-replace id r.tasks t t' e refl k in
      if-cases (StillLeased other) (env.new_ffmpeg t.config t.command) _ _
        (λ n.
          if-cases (StillLeased other) b _ _
            (λ s. start_task-StillLeased other (put_at_id id t' r) k' id) (λ s. k'))
        (λ n. Leases-replace id r.tasks t (record t { parser = true }) e refl k)

  pub set_process_metadata-StillLeased :
      (id key : Bytes) (value : Option Bytes)
      → StillLeased other (set_process_metadata id key value r)
  unfolding set_process_metadata save
  set_process_metadata-StillLeased id key value =
      if-cases (StillLeased other) (is_nil key) _ _ (λ h. k)
        (λ h.
          some-cases (StillLeased other) (lookup Bytes-discrete id r.tasks) _ _ (λ e. k)
            (λ t e.
              Leases-replace id r.tasks t (record t { metadata = set_key key value t.metadata }) e
                refl k))

  pub set_metadata-StillLeased :
      (key : Bytes) (value : Option Bytes) → StillLeased other (set_metadata key value r)
  unfolding set_metadata save
  set_metadata-StillLeased key value =
      if-cases (StillLeased other) (is_nil key) _ _ (λ h. k) (λ h. k)

module _ (other : ℕ → ℕ) (env : Env) where
  reload_configured-StillLeased :
      (id : Bytes) (r : Restream) (p : Configured)
      → IsLeased other r
      → Holds (λ q. other q + holders q (delete Bytes-discrete id r.tasks)) p
      → StillLeased other (reload_configured env id r p)
  unfolding reload_configured
  reload_configured-StillLeased id r (ports, t, some e) k h =
      Leases-put id r.tasks t k.distinct h.pool h.fits
  reload_configured-StillLeased id r (ports, t, none) k h =
      let t' = record t { command = create_command t.config } in
      let r' = put_at_id id t' (record r { ports = ports }) in
      let k' : IsLeased other r' = Leases-put id r.tasks t' k.distinct h.pool h.fits in
      let stopped = if is_start t.process.order then (stop_task id r').0 else r' in
      let k'' : IsLeased other stopped =
        if-cases (IsLeased other) (is_start t.process.order) _ _
          (λ s. stop_task-StillLeased other r' k' id) (λ s. k') in
      some-cases (StillLeased other) (lookup Bytes-discrete id stopped.tasks) _ _ (λ e. k'')
        (λ t'' e. reload_stopped-StillLeased other env stopped k'' id _ t'' e)

  pub reload_task-StillLeased :
      (id : Bytes) (r : Restream) → IsLeased other r → StillLeased other (reload_task env id r)
  unfolding reload_task
  reload_task-StillLeased id r k =
      some-cases (StillLeased other) (lookup Bytes-discrete id r.tasks) _ _ (λ e. k)
        (λ t e.
          let t' = record t { valid = false; config = env.placeholders t.process.config } in
          reload_configured-StillLeased id r (configure env r.tasks r.ports t') k (
            configure-Holds (λ q. other q + holders q (delete Bytes-discrete id r.tasks)) env
              r.tasks r.ports t' k.pool (Leases-split id r.tasks t e k)))
