-- ===== src/Restream/Holders.antt =====
-- The ports that the tasks of restream/restream.go hold: how often each is held, and its use.
use datarhei_core.Prelude.{
  ℕ, ◌+◌, ◌≤◌, ◌≡◌, ◌≢◌, refl, sym, subst, not, List, [], ◌∷◌, ◌==◌, if◌then◌else◌, Option, none,
  some, arith, ℕ_discrete, if-cases, some-cases,
}
use datarhei_core.Prelude.Map.{insert, delete, total, total-insert}
use datarhei_core.Io.Path.{Bytes, Bytes-discrete}
use datarhei_core.Net.Port.{Portrange, Got, port, no_more_ports, index_panic}
use datarhei_core.Restream.{ConfigIo}
use datarhei_core.Restream.Validate.{Error, validate_config}
use datarhei_core.Restream.Validate as Validate
use datarhei_core.Restream.Tasks.{
  Task, Assigned, assign_ports, get_port, put_port, put_all, unset_playout_ports, set_playout_ports,
  has_playout, cons_assigned, without_port, with_port,
}
use datarhei_core.Restream.Ports.{
  used, used-le, IsPool, Gives, gives, gives_none, no_range, get_port-Gives, put_port-IsPool,
  used-put_port,
}

abbrev pub hit : ℕ → ℕ → ℕ
hit q p = if p == q then 1 else 0

-- How often a port is among those of a playout, of a task, and of all tasks.
unfoldable pub hits : ℕ → List (Bytes × ℕ) → ℕ
unfolding total
hits q ps = total Bytes-discrete (hit q) ps

unfoldable pub playout_hits : ℕ → Option (List (Bytes × ℕ)) → ℕ
unfolding hits
playout_hits q none = 0
playout_hits q (some ps) = hits q ps

abbrev pub holds : ℕ → Task → ℕ
holds q t = playout_hits q t.playout

unfoldable pub holders : ℕ → List (Bytes × Task) → ℕ
unfolding total
holders q ts = total Bytes-discrete (holds q) ts

pub total-delete-le :
    {V : Type 0} (weight : V → ℕ) (id : Bytes) (m : List (Bytes × V))
    → total Bytes-discrete weight (delete Bytes-discrete id m) ≤ total Bytes-discrete weight m
unfolding total delete
total-delete-le weight id [] = omega arith
total-delete-le weight id ((j, v) ∷ m) = ground (arith, total-delete-le weight id m)

-- Each port that is held is in use; `other` are those that are held elsewhere.
abbrev pub Fits : (ℕ → ℕ) → (ℕ → ℕ) → Option Portrange → Type 0
Fits other held ports = (q : ℕ) → other q + held q ≤ used q ports

hits_nil : (q : ℕ) → hits q [] ≡ 0
unfolding hits total
hits_nil q = refl

hit_self : (q : ℕ) → hit q q ≡ 1
hit_self q = ground arith

hit_other : (q p : ℕ) → q ≢ p → hit q p ≡ 0
hit_other q p n = ground arith

module _ (other : ℕ → ℕ) where
  -- A port that is given is held.
  insert-Fits :
      (id : Bytes) (p : ℕ) (ps : List (Bytes × ℕ)) (ports ports' : Option Portrange)
      → used p ports ≡ 0
      → used p ports' ≡ 1
      → ((q : ℕ) → q ≢ p → used q ports' ≡ used q ports)
      → Fits other (λ q. hits q ps) ports
      → Fits other (λ q. hits q (insert Bytes-discrete id p ps)) ports'
  unfolding hits
  insert-Fits id p ps ports ports' free taken same fits q = elim (ℕ_discrete q p) [
    | yes e ↦
        subst
          (λ x.
            other x + total Bytes-discrete (hit x) (insert Bytes-discrete id p ps) ≤ used x ports')
          (sym e)
          (omega (
            arith,
            hit_self p,
            fits p,
            total-insert Bytes-discrete (hit p) id p ps,
            total-delete-le (hit p) id ps,
          ))
    | no n ↦ omega (
      arith,
      hit_other q p n,
      fits q,
      same q n,
      total-insert Bytes-discrete (hit q) id p ps,
      total-delete-le (hit q) id ps,
    )
  ]

  record AssignedFits (a : Assigned) : Type 0 where
    pool : IsPool a.ports
    fits : Fits other (λ q. hits q a.playout) a.ports

  assign_ports-Fits :
      (ports : Option Portrange) (ps : List (Bytes × ℕ)) (ios : List ConfigIo)
      → IsPool ports
      → Fits other (λ q. hits q ps) ports
      → AssignedFits (assign_ports ports ps ios)
  unfolding assign_ports
  assign_ports-Fits ports ps [] v fits = record { pool = v; fits = fits }
  assign_ports-Fits ports ps (io ∷ ios) v fits =
      if-cases AssignedFits (not (has_playout io)) _ _
        (λ h.
          let rest = assign_ports-Fits ports ps ios v fits in
          record { pool = rest.pool; fits = rest.fits })
        (λ h.
          go (λ ports' ps' v' f'. assign_ports-Fits ports' ps' ios v' f') (get_port ports)
            (get_port-Gives ports v))
    where
      go :
          ((ports' : Option Portrange) (ps' : List (Bytes × ℕ))
            → IsPool ports'
            → Fits other (λ q. hits q ps') ports'
            → AssignedFits (assign_ports ports' ps' ios))
          → (g : Option Portrange × Option Got) → Gives ports g
          → AssignedFits (elim g.1 [
            | none ↦ cons_assigned (without_port io) (assign_ports g.0 ps ios)
            | some got ↦ elim got [
              | port p ↦
                  cons_assigned
                    (with_port p io)
                    (assign_ports g.0 (insert Bytes-discrete io.id p ps) ios)
              | no_more_ports ↦ record {
                ports = g.0;
                inputs = io ∷ ios;
                playout = ps;
                error = some Validate.no_more_ports;
              }
              | index_panic ↦ record {
                ports = g.0;
                inputs = io ∷ ios;
                playout = ps;
                error = some Validate.port_panic;
              }
            ]
          ])
      go rest_of g (gives p ports' v' free taken same) =
          let rest =
            rest_of ports' (insert Bytes-discrete io.id p ps) v'
              (insert-Fits io.id p ps ports ports' free taken same fits) in
          record { pool = rest.pool; fits = rest.fits }
      go rest_of g gives_none = record { pool = v; fits = fits }
      go rest_of g no_range =
          let rest = rest_of ports ps v fits in record { pool = rest.pool; fits = rest.fits }

  -- The ports of a playout are given back.
  pub record Freed (ports : Option Portrange) : Type 0 where
    pub pool : IsPool ports
    pub fits : (q : ℕ) → other q ≤ used q ports

  put_all-Freed :
      (ps : List (Bytes × ℕ)) (ports : Option Portrange)
      → IsPool ports
      → Fits other (λ q. hits q ps) ports
      → Freed (put_all ps ports)
  unfolding put_all hits total
  put_all-Freed [] ports v fits = record { pool = v; fits = λ q. omega (arith, fits q) }
  put_all-Freed ((id, p) ∷ ps) ports v fits =
      put_all-Freed ps (put_port p ports) (put_port-IsPool p ports v) (λ q. elim (ℕ_discrete q p) [
        | yes e ↦
            subst (λ x. other x + total Bytes-discrete (hit x) ps ≤ used x (put_port p ports))
              (sym e) (omega (arith, hit_self p, fits p, used-le p ports))
        | no n ↦ omega (arith, hit_other q p n, fits q, used-put_port p q ports n)
      ])

  pub unset_playout_ports-Freed :
      (ports : Option Portrange) (t : Task)
      → IsPool ports
      → Fits other (λ q. holds q t) ports
      → Freed (unset_playout_ports ports t).0
  unfolding unset_playout_ports playout_hits
  unset_playout_ports-Freed ports t v fits =
      some-cases (λ (p : Option Portrange × Task). Freed p.0) t.playout _ _
        (λ e. record { pool = v; fits = λ q. omega (arith, fits q) })
        (λ ps e.
          put_all-Freed ps ports v
            (λ q. subst (λ o. other q + playout_hits q o ≤ used q ports) e (fits q)))

  -- A task holds the ports of its playout, and no others.
  pub set_playout_ports-Fits :
      (ports : Option Portrange) (t : Task)
      → IsPool ports
      → Fits other (λ q. holds q t) ports
      → IsPool (set_playout_ports ports t).0
        × Fits other (λ q. holds q (set_playout_ports ports t).1) (set_playout_ports ports t).0
  unfolding set_playout_ports playout_hits
  set_playout_ports-Fits ports t v fits =
      let freed = unset_playout_ports-Freed ports t v fits in
      let a =
        assign_ports-Fits (unset_playout_ports ports t).0 [] t.config.input freed.pool
          (λ q. omega (arith, freed.fits q, hits_nil q)) in
      (a.pool, a.fits)
