-- ===== src/Restream/Configured.antt =====
-- `createTask` of restream/restream.go, and the ports that its task holds.
use datarhei_core.Prelude.{
  ℕ, ◌≤◌, List, Option, none, some, ◌⊎◌, inl, inr, arith, if-cases, some-cases, sum-cases,
}
use datarhei_core.Io.Path.{Bytes}
use datarhei_core.Net.Port.{Portrange}
use datarhei_core.Restream.{Config, create_command, trim_space}
use datarhei_core.Restream.Validate.{Error, validate_config, is_nil}
use datarhei_core.Restream.Resolve.{resolve_addresses}
use datarhei_core.Restream.Tasks.{Task}
use datarhei_core.Restream.Manager.{Env, Restream, outputs_of}
use datarhei_core.Restream.Changes.{new_task, set_inputs_valid, configure, finish, create_task}
use datarhei_core.Restream.Ports.{used, IsPool}
use datarhei_core.Restream.Holders.{playout_hits, holds, Fits, set_playout_ports-Fits}

abbrev pub Configured : Type 0
Configured = Option Portrange × Task × Option Error

-- The task that is configured holds its ports.
pub record Holds (other : ℕ → ℕ) (p : Configured) : Type 0 where
  pub pool : IsPool p.0
  pub fits : Fits other (λ q. holds q p.1) p.0

abbrev pub created_holds : ℕ → Error ⊎ Task → ℕ
created_holds q (inl e) = 0
created_holds q (inr t) = holds q t

pub record CreatedHolds (other : ℕ → ℕ) (p : Option Portrange × (Error ⊎ Task)) : Type 0 where
  pub pool : IsPool p.0
  pub fits : Fits other (λ q. created_holds q p.1) p.0

module _ (other : ℕ → ℕ) (env : Env) where
  set_inputs_valid-Holds :
      (ports : Option Portrange) (t : Task)
      → IsPool ports
      → Fits other (λ q. holds q t) ports
      → Holds other (set_inputs_valid env ports t)
  unfolding set_inputs_valid
  set_inputs_valid-Holds ports t v fits =
      sum-cases (Holds other) (validate_config env.checks env.disks t.config) _ _
        (λ e h. record { pool = v; fits = fits })
        (λ disk h.
          let set = set_playout_ports-Fits other ports (record t { uses_disk = disk }) v fits in
          record { pool = set.0; fits = set.1 })

  pub configure-Holds :
      (ts : List (Bytes × Task)) (ports : Option Portrange) (t : Task)
      → IsPool ports
      → Fits other (λ q. holds q t) ports
      → Holds other (configure env ts ports t)
  unfolding configure
  configure-Holds ts ports t v fits =
      let resolved = resolve_addresses (outputs_of ts) t.config.id t.config.input in
      let t' = record t { config = record t.config { input = resolved.0 } } in
      some-cases (Holds other) resolved.1 _ _ (λ e. set_inputs_valid-Holds ports t' v fits)
        (λ e h. record { pool = v; fits = fits })

  finish-CreatedHolds : (p : Configured) → Holds other p → CreatedHolds other (finish env p)
  unfolding finish
  finish-CreatedHolds (ports, t, some e) h = record {
    pool = h.pool;
    fits = λ q. omega (arith, h.fits q);
  }
  finish-CreatedHolds (ports, t, none) h =
      if-cases (CreatedHolds other) (env.new_ffmpeg t.config (create_command t.config)) _ _
        (λ n. record { pool = h.pool; fits = h.fits })
        (λ n. record { pool = h.pool; fits = λ q. omega (arith, h.fits q) })

  pub create_task-CreatedHolds :
      (c : Config) (now : ℕ) (r : Restream)
      → IsPool r.ports
      → ((q : ℕ) → other q ≤ used q r.ports)
      → CreatedHolds other (create_task env c now r)
  unfolding create_task new_task playout_hits
  create_task-CreatedHolds c now r v fits =
      if-cases (CreatedHolds other) (is_nil (trim_space c.id)) _ _
        (λ h. record { pool = v; fits = λ q. omega (arith, fits q) })
        (λ h.
          finish-CreatedHolds (configure env r.tasks r.ports (new_task env c now))
            (configure-Holds r.tasks r.ports (new_task env c now) v (λ q. omega (arith, fits q))))
