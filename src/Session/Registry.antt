-- ===== src/Session/Registry.antt =====
-- session/registry.go: the collectors by name. A collector that is unregistered is still in the
-- hands of those who have got it: the operations give it back.
use datarhei_core.Prelude.{
  ℕ, ◌≡◌, ap, ◌∙◌, String, Bool, false, not, Option, none, some, List, [], ◌∷◌, if◌then◌else◌,
  String-discrete, ite, elim_some,
}
use datarhei_core.Prelude.Map.{lookup, insert, delete, lookup-delete_self}
use datarhei_core.Session.{Rates}
use datarhei_core.Session.Names.{all_alphanumeric}
use datarhei_core.Session.Collector.{Collector, CollectorConfig, History, new_collector}
use datarhei_core.Session.Events.{stop}
use datarhei_core.Session.Summary.{Summary, Info, summary, active_infos}
use datarhei_core.Session.Counts.{IsCounted}
use datarhei_core.Session.Stop.{IsDrained, stop-Drained}

-- `registry`; `persisted` says whether there is a filesystem.
pub record Registry (F W : Type 0) : Type 0 where
  pub collector : List (String × Collector F W)
  pub persisted : Bool

pub data Error : Type 0 where
  empty_name invalid_name exists unknown : Error

-- `New`
unfoldable pub new_registry : {F W : Type 0} → Bool → Registry F W
new_registry persisted = record { collector = []; persisted = persisted }

module _ {F W : Type 0} (rates : Rates F W) where
  unfoldable pub add_collector :
      ℕ → String → CollectorConfig F → History → Registry F W → Registry F W × Option Error
  unfolding lookup insert new_collector
  add_collector now id config loaded r = elim (lookup String-discrete id r.collector) [
    | none ↦ (
      record r {
        collector =
            insert String-discrete id (new_collector rates now config r.persisted loaded)
              r.collector;
      },
      none,
    )
    | some c ↦ (r, some exists)
  ]

  -- `Register`; `loaded` is the history that the new collector reads.
  unfoldable pub register_collector :
      ℕ → String → CollectorConfig F → History → Registry F W → Registry F W × Option Error
  unfolding add_collector all_alphanumeric
  register_collector now id config loaded r =
      ite (String-discrete id "") (r, some empty_name)
        (if not (all_alphanumeric id)
          then (r, some invalid_name)
          else add_collector now id config loaded r)

  -- `Summary` and `Active`, of a collector that is known.
  unfoldable pub summary_of : ℕ → String → Registry F W → Option (Summary F)
  unfolding lookup summary
  summary_of now id r = elim (lookup String-discrete id r.collector) [
    | none ↦ none
    | some c ↦ some (summary rates now c)
  ]

  unfoldable pub active_of : ℕ → String → Registry F W → List (Info F)
  unfolding lookup active_infos
  active_of now id r = elim (lookup String-discrete id r.collector) [
    | none ↦ []
    | some c ↦ active_infos rates now c.sessions
  ]

module _ {F W : Type 0} where
  -- `Unregister`: the collector that is stopped, or an error.
  unfoldable pub unregister_collector :
      Bool → String → Registry F W → Registry F W × Option (Collector F W)
  unfolding lookup delete stop
  unregister_collector ok id r = elim (lookup String-discrete id r.collector) [
    | none ↦ (r, none)
    | some c ↦ (record r { collector = delete String-discrete id r.collector }, some (stop ok c))
  ]

  unfoldable pub stop_collectors :
      Bool → List (String × Collector F W) → List (String × Collector F W)
  unfolding stop
  stop_collectors ok [] = []
  stop_collectors ok ((id, c) ∷ cs) = (id, stop ok c) ∷ stop_collectors ok cs

  -- `UnregisterAll`
  unfoldable pub unregister_all : Bool → Registry F W → Registry F W × List (String × Collector F W)
  unfolding stop_collectors
  unregister_all ok r = (record r { collector = [] }, stop_collectors ok r.collector)

  -- `Collectors` and `Collector`
  unfoldable pub names : List (String × Collector F W) → List String
  names [] = []
  names ((id, c) ∷ cs) = id ∷ names cs

  unfoldable pub collector_of : String → Registry F W → Option (Collector F W)
  unfolding lookup
  collector_of id r = lookup String-discrete id r.collector

  -- A known collector with right counters, which is not stopped, is drained when it is unregistered,
  -- and its name is free.
  pub unregister_collector-drains :
      (base : ℕ) (ok : Bool) (id : String) (c : Collector F W) (r : Registry F W)
      → collector_of id r ≡ some c
      → IsCounted base c
      → c.stopped ≡ false
      → ((unregister_collector ok id r).1 ≡ some (stop ok c))
        × IsDrained base (stop ok c)
        × (collector_of id (unregister_collector ok id r).0 ≡ none)
  unfolding collector_of unregister_collector
  unregister_collector-drains base ok id c r e k s =
      let unregisters = elim_some e _ _ in
      (
        ap (λ (p : Registry F W × Option (Collector F W)). p.1) unregisters,
        stop-Drained base ok c k s,
        ap (λ (p : Registry F W × Option (Collector F W)). lookup String-discrete id p.0.collector)
              unregisters
            ∙ lookup-delete_self String-discrete id r.collector,
      )
