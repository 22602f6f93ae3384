-- ===== src/Restream/Leases.antt =====
-- The ports of the tasks of restream/restream.go as leases of the pool: `startProcess`,
-- `stopProcess`, `deleteProcess` and `observe` keep them.
use datarhei_core.Prelude.{
  ℕ, ◌+◌, ◌≤◌, ◌≡◌, refl, ap, ◌&&◌, not, List, [], ◌∷◌, Option, some, arith, if-cases, some-cases,
  ltb, leb,
}
use datarhei_core.Prelude.Int.{pos, ltb_ℤ, leb_ℤ}
use datarhei_core.Prelude.Map.{
  lookup, insert, delete, IsMap, total-delete, total-insert, delete-IsMap, insert-IsMap,
}
use datarhei_core.Io.Path.{Bytes, Bytes-discrete}
use datarhei_core.Net.Port.{Portrange}
use datarhei_core.Restream.Tasks.{Task}
use datarhei_core.Restream.Manager.{
  Restream, Outcome, is_start, runs, start_found, start_task, stop_running, stop_found, stop_task,
  delete_found, delete_task,
}
use datarhei_core.Restream.Lifecycle.{observe, observe_rounds, observe_round}
use datarhei_core.Restream.Ports.{IsPool}
use datarhei_core.Restream.Holders.{
  playout_hits, holds, holders, total-delete-le, Fits, unset_playout_ports-Freed,
}

-- Each port is in use at least as often as the tasks hold it and it is held elsewhere (`other`).
pub record Leases (other : ℕ → ℕ) (ts : List (Bytes × Task)) (ports : Option Portrange)
    : Type 0 where
  pub distinct : IsMap Bytes-discrete ts
  pub pool : IsPool ports
  pub fits : Fits other (λ q. holders q ts) ports

module _ (other : ℕ → ℕ) where
  abbrev pub IsLeased : Restream → Type 0
  IsLeased r = Leases other r.tasks r.ports

  abbrev pub StillLeased : Outcome → Type 0
  StillLeased o = IsLeased o.0

module _ (id : Bytes) (ts : List (Bytes × Task)) where
  holders-insert :
      (q : ℕ) (t : Task)
      → holders q (insert Bytes-discrete id t ts)
        ≡ holds q t + holders q (delete Bytes-discrete id ts)
  unfolding holders
  holders-insert q t = total-insert Bytes-discrete (holds q) id t ts

  holders-delete :
      (q : ℕ) (t : Task)
      → IsMap Bytes-discrete ts
      → lookup Bytes-discrete id ts ≡ some t
      → holders q ts ≡ holds q t + holders q (delete Bytes-discrete id ts)
  unfolding holders
  holders-delete q t u e = total-delete Bytes-discrete (holds q) id t ts u e

  holders-delete-le : (q : ℕ) → holders q (delete Bytes-discrete id ts) ≤ holders q ts
  unfolding holders
  holders-delete-le q = total-delete-le (holds q) id ts

module _ {other : ℕ → ℕ} (id : Bytes) (ts : List (Bytes × Task)) {ports : Option Portrange} where
  -- A task is put in with its ports, in place of one whose ports are given back.
  pub Leases-put :
      (t : Task)
      → IsMap Bytes-discrete ts
      → IsPool ports
      → Fits (λ q. other q + holders q (delete Bytes-discrete id ts)) (λ q. holds q t) ports
      → Leases other (insert Bytes-discrete id t ts) ports
  Leases-put t u v fits = record {
    distinct = insert-IsMap Bytes-discrete id t ts u;
    pool = v;
    fits = λ q. omega (arith, fits q, holders-insert id ts q t);
  }

  pub Leases-insert :
      (t : Task)
      → Leases (λ q. other q + holds q t) ts ports
      → Leases other (insert Bytes-discrete id t ts) ports
  Leases-insert t k =
      Leases-put t k.distinct k.pool (λ q. omega (arith, k.fits q, holders-delete-le id ts q))

  pub Leases-replace :
      (t t' : Task)
      → lookup Bytes-discrete id ts ≡ some t
      → t'.playout ≡ t.playout
      → Leases other ts ports
      → Leases other (insert Bytes-discrete id t' ts) ports
  Leases-replace t t' e same k = Leases-put t' k.distinct k.pool (λ q.
      let alike : holds q t' ≡ holds q t = ap (playout_hits q) same in
      omega (arith, k.fits q, alike, holders-delete id ts q t k.distinct e))

  pub Leases-delete : Leases other ts ports → Leases other (delete Bytes-discrete id ts) ports
  Leases-delete k = record {
    distinct = delete-IsMap Bytes-discrete id ts k.distinct;
    pool = k.pool;
    fits = λ q. omega (arith, k.fits q, holders-delete-le id ts q);
  }

  -- What the other tasks hold, and what the task does.
  pub Leases-split :
      (t : Task)
      → lookup Bytes-discrete id ts ≡ some t
      → Leases other ts ports
      → Fits (λ q. other q + holders q (delete Bytes-discrete id ts)) (λ q. holds q t) ports
  Leases-split t e k q = omega (arith, k.fits q, holders-delete id ts q t k.distinct e)

-- Ports that are held elsewhere may be given up.
pub Leases-drop :
    {other : ℕ → ℕ} {ts : List (Bytes × Task)} {ports : Option Portrange} (t : Task)
    → Leases (λ q. other q + holds q t) ts ports
    → Leases other ts ports
Leases-drop t k = record {
  distinct = k.distinct;
  pool = k.pool;
  fits = λ q. omega (arith, k.fits q);
}

module _ (other : ℕ → ℕ) (r : Restream) (k : IsLeased other r) where
  start_found-StillLeased :
      (t : Task) (id : Bytes)
      → lookup Bytes-discrete id r.tasks ≡ some t
      → StillLeased other (start_found t id r)
  unfolding start_found
  start_found-StillLeased t id e =
      if-cases (StillLeased other) (not t.valid) _ _ (λ v. k)
        (λ v.
          if-cases (StillLeased other) (is_start t.process.order && runs t.ffmpeg) _ _ (λ both. k)
            (λ both.
              if-cases (StillLeased other) (ltb_ℤ (pos 0) r.max_proc && leb_ℤ r.max_proc r.n_proc) _
                _ (λ full. k) (λ free. Leases-replace id r.tasks t _ e refl k)))

  stop_found-StillLeased :
      (t : Task) (id : Bytes)
      → lookup Bytes-discrete id r.tasks ≡ some t
      → StillLeased other (stop_found t id r)
  unfolding stop_found stop_running
  stop_found-StillLeased t id e =
      some-cases (StillLeased other) t.ffmpeg _ _ (λ f. k)
        (λ status f.
          if-cases (StillLeased other) (not (is_start t.process.order) && not (is_start status)) _ _
            (λ both. k) (λ both. Leases-replace id r.tasks t _ e refl k))

  delete_found-StillLeased :
      (t : Task) (id : Bytes)
      → lookup Bytes-discrete id r.tasks ≡ some t
      → StillLeased other (delete_found t id r)
  unfolding delete_found
  delete_found-StillLeased t id e =
      if-cases (StillLeased other) (is_start t.process.order) _ _ (λ s. k)
        (λ s.
          let freed =
            unset_playout_ports-Freed (λ q. other q + holders q (delete Bytes-discrete id r.tasks))
              r.ports t k.pool (Leases-split id r.tasks t e k) in
          record {
            distinct = delete-IsMap Bytes-discrete id r.tasks k.distinct;
            pool = freed.pool;
            fits = freed.fits;
          })

  pub start_task-StillLeased : (id : Bytes) → StillLeased other (start_task id r)
  unfolding start_task
  start_task-StillLeased id =
      some-cases (StillLeased other) (lookup Bytes-discrete id r.tasks) _ _ (λ e. k)
        (λ t e. start_found-StillLeased t id e)

  pub stop_task-StillLeased : (id : Bytes) → StillLeased other (stop_task id r)
  unfolding stop_task
  stop_task-StillLeased id =
      some-cases (StillLeased other) (lookup Bytes-discrete id r.tasks) _ _ (λ e. k)
        (λ t e. stop_found-StillLeased t id e)

  pub delete_task-StillLeased : (id : Bytes) → StillLeased other (delete_task id r)
  unfolding delete_task
  delete_task-StillLeased id =
      some-cases (StillLeased other) (lookup Bytes-discrete id r.tasks) _ _ (λ e. k)
        (λ t e. delete_found-StillLeased t id e)

-- A tick of `observe`.
module _ (other : ℕ → ℕ) where
  observe_rounds-IsLeased :
      (es : List (Bytes × Task)) (r : Restream)
      → IsLeased other r
      → IsLeased other (observe_rounds es r)
  unfolding observe_rounds observe_round
  observe_rounds-IsLeased [] r k = k
  observe_rounds-IsLeased ((id, t) ∷ es) r k =
      observe_rounds-IsLeased es (observe_round (id, t) r) (
        if-cases (IsLeased other) (t.valid && t.uses_disk && is_start t.process.order) _ _
          (λ h. stop_task-StillLeased other r k id) (λ h. k))

  pub observe-IsLeased :
      (size limit : ℕ) (r : Restream) → IsLeased other r → IsLeased other (observe size limit r)
  unfolding observe
  observe-IsLeased size limit r k =
      if-cases (IsLeased other) (ltb 0 limit && leb limit size) _ _
        (λ h. observe_rounds-IsLeased r.tasks r k) (λ h. k)
