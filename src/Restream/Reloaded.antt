-- ===== src/Restream/Reloaded.antt =====
-- `ReloadProcess` of restream/restream.go, and the number of running processes.
use datarhei_core.Prelude.{
  ◌≡◌, refl, sym, ap, ◌∙◌, Bool, true, false, List, if◌then◌else◌, Option, none, some, if-cases,
  some-cases, sum-cases,
}
use datarhei_core.Prelude.Map.{lookup, lookup_of_All, lookup-insert_self, some_inj}
use datarhei_core.Io.Path.{Bytes, Bytes-discrete}
use datarhei_core.Process as Process
use datarhei_core.Net.Port.{Portrange}
use datarhei_core.Restream.{create_command}
use datarhei_core.Restream.Validate.{Error, validate_config}
use datarhei_core.Restream.Resolve.{resolve_addresses}
use datarhei_core.Restream.Tasks.{Task, unset_playout_ports, set_playout_ports}
use datarhei_core.Restream.Manager.{Env, Restream, is_start, runs, outputs_of, stop_task}
use datarhei_core.Restream.Changes.{
  set_inputs_valid, configure, put_at_id, reload_stopped, reload_configured, reload_task,
  reload_process,
}
use datarhei_core.Restream.Count.{Settled, IsSettled, IsBalanced, Balanced-replace}
use datarhei_core.Restream.Running.{
  StillBalanced, Idle, stop_task-StillBalanced, stop_task-Idle, start_task-StillBalanced,
}
use datarhei_core.Restream.Created.{saved-StillBalanced}

-- The order of a task and its process of FFmpeg are as before.
record Same (t t' : Task) : Type 0 where
  process : t'.process ≡ t.process
  ffmpeg : t'.ffmpeg ≡ t.ffmpeg

abbrev Configured : Type 0
Configured = Option Portrange × Task × Option Error

unset_playout_ports-Same :
    (ports : Option Portrange) (t : Task) → Same t (unset_playout_ports ports t).1
unfolding unset_playout_ports
unset_playout_ports-Same ports t =
    some-cases (λ (p : Option Portrange × Task). Same t p.1) t.playout _ _
      (λ e. record { process = refl; ffmpeg = refl })
      (λ ps e. record { process = refl; ffmpeg = refl })

set_playout_ports-Same :
    (ports : Option Portrange) (t : Task) → Same t (set_playout_ports ports t).1
unfolding set_playout_ports
set_playout_ports-Same ports t =
    let s = unset_playout_ports-Same ports t in record { process = s.process; ffmpeg = s.ffmpeg }

set_inputs_valid-Same :
    (env : Env) (ports : Option Portrange) (t : Task) → Same t (set_inputs_valid env ports t).1
unfolding set_inputs_valid
set_inputs_valid-Same env ports t =
    sum-cases (λ (p : Configured). Same t p.1) (validate_config env.checks env.disks t.config) _ _
      (λ e h. record { process = refl; ffmpeg = refl })
      (λ disk h.
        let s = set_playout_ports-Same ports (record t { uses_disk = disk }) in
        record { process = s.process; ffmpeg = s.ffmpeg })

configure-Same :
    (env : Env) (ts : List (Bytes × Task)) (ports : Option Portrange) (t : Task)
    → Same t (configure env ts ports t).1
unfolding configure
configure-Same env ts ports t =
    let resolved = resolve_addresses (outputs_of ts) t.config.id t.config.input in
    let t' = record t { config = record t.config { input = resolved.0 } } in
    some-cases (λ (p : Configured). Same t p.1) resolved.1 _ _
      (λ e.
        let s = set_inputs_valid-Same env ports t' in
        record { process = s.process; ffmpeg = s.ffmpeg })
      (λ e h. record { process = refl; ffmpeg = refl })

module _ (env : Env) (id : Bytes) where
  put_at_id-IsBalanced :
      (r : Restream) (t t' : Task)
      → lookup Bytes-discrete id r.tasks ≡ some t
      → Same t t'
      → IsBalanced r
      → IsBalanced (put_at_id id t' r)
  put_at_id-IsBalanced r t t' e s b =
      let settled : Settled t = lookup_of_All Bytes-discrete IsSettled r.tasks id t b.settled e in
      Balanced-replace r.max_proc id r.tasks t t' e (ap runs s.ffmpeg)
        (ap runs s.ffmpeg ∙ settled ∙ ap (λ p. is_start p.order) (sym s.process)) b

  reload_stopped-StillBalanced :
      (starts : Bool) (r : Restream) (t : Task)
      → lookup Bytes-discrete id r.tasks ≡ some t
      → runs t.ffmpeg ≡ false
      → IsBalanced r
      → StillBalanced (reload_stopped env id starts r t)
  unfolding reload_stopped
  reload_stopped-StillBalanced starts r t e idle b =
      let settled : Settled t = lookup_of_All Bytes-discrete IsSettled r.tasks id t b.settled e in
      let t' = record t { parser = true; ffmpeg = some Process.stop; valid = true } in
      let b' : IsBalanced (put_at_id id t' r) =
        Balanced-replace r.max_proc id r.tasks t t' e (sym idle) (sym idle ∙ settled) b in
      if-cases StillBalanced (env.new_ffmpeg t.config t.command) _ _
        (λ h.
          if-cases StillBalanced starts _ _
            (λ s. start_task-StillBalanced (put_at_id id t' r) id b') (λ s. b'))
        (λ h.
          put_at_id-IsBalanced r t (record t { parser = true }) e
            (record { process = refl; ffmpeg = refl }) b)

  reload_configured-StillBalanced :
      (r : Restream) (t : Task) (p : Configured)
      → lookup Bytes-discrete id r.tasks ≡ some t
      → Same t p.1
      → IsBalanced r
      → StillBalanced (reload_configured env id r p)
  unfolding reload_configured
  reload_configured-StillBalanced r t (ports, t', some error) e s b =
      put_at_id-IsBalanced (record r { ports = ports }) t t' e s b
  reload_configured-StillBalanced r t (ports, t', none) e s b =
      let t₁ = record t' { command = create_command t'.config } in
      let r₁ = put_at_id id t₁ (record r { ports = ports }) in
      let b₁ : IsBalanced r₁ =
        put_at_id-IsBalanced (record r { ports = ports }) t t₁ e
          (record { process = s.process; ffmpeg = s.ffmpeg }) b in
      let stopped = if is_start t'.process.order then (stop_task id r₁).0 else r₁ in
      let found = lookup-insert_self Bytes-discrete id t₁ r.tasks in
      let b₂ : IsBalanced stopped =
        if-cases IsBalanced (is_start t'.process.order) _ _ (λ h. stop_task-StillBalanced r₁ id b₁)
          (λ h. b₁) in
      let idle =
        if-cases (λ (x : Restream). Idle x id (x, none)) (is_start t'.process.order) _ _
          (λ h. stop_task-Idle r₁ id b₁)
          (λ h t₂ e₂.
            let settled : Settled t₂ =
              lookup_of_All Bytes-discrete IsSettled r₁.tasks id t₂ b₁.settled e₂ in
            settled
            ∙ ap (λ (x : Task). is_start x.process.order) (some_inj (sym e₂ ∙ found))
            ∙ h) in
      some-cases StillBalanced (lookup Bytes-discrete id stopped.tasks) _ _ (λ h. b₂)
        (λ t₂ h.
          reload_stopped-StillBalanced (is_start t'.process.order) stopped t₂ h (idle t₂ h) b₂)

  reload_task-StillBalanced : (r : Restream) → IsBalanced r → StillBalanced (reload_task env id r)
  unfolding reload_task
  reload_task-StillBalanced r b =
      some-cases StillBalanced (lookup Bytes-discrete id r.tasks) _ _ (λ e. b)
        (λ t e.
          let t' = record t { valid = false; config = env.placeholders t.process.config } in
          let s = configure-Same env r.tasks r.ports t' in
          reload_configured-StillBalanced r t (configure env r.tasks r.ports t') e
            (record { process = s.process; ffmpeg = s.ffmpeg }) b)

  pub reload_process-StillBalanced :
      (r : Restream) → IsBalanced r → StillBalanced (reload_process env id r)
  unfolding reload_process
  reload_process-StillBalanced r b =
      saved-StillBalanced (reload_task env id r) (reload_task-StillBalanced r b)
