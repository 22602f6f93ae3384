-- ===== src/Process/Limits/Runs.antt =====
-- What the limiter of process/limits.go reports, in terms of the readings alone.
use datarhei_core.Prelude.{
  ℕ, ◌≡◌, refl, sym, ap, ap₂, ◌∙◌, true, ◌||◌, List, [], ◌∷◌, Option, some, map, Bool-cases, subst,
  inl, inr, if_true, if_false,
}
use datarhei_core.Prelude.Map.{some_inj}
use datarhei_core.Process.Limits.{
  Limiter, reset, reset_resource, start_limiter, collect, collect_running,
}
use datarhei_core.Process.Limits.Since.{above_since, exceeds, latest, Tracks, checks}

-- The limiter after ticks at which psutil gave both values; the latest tick is the first.
unfoldable pub watched : Limiter → List (ℕ × ℕ × ℕ) → Limiter
watched l [] = l
watched l ((now, cpu, memory) ∷ ts) = (collect now (some cpu) (some memory) (watched l ts)).0

abbrev pub cpus : List (ℕ × ℕ × ℕ) → List (ℕ × ℕ)
cpus = map (λ x. (x.0, x.1))

abbrev pub memories : List (ℕ × ℕ × ℕ) → List (ℕ × ℕ)
memories = map (λ x. (x.0, x.2))

record Watches (c m wait : ℕ) (ts : List (ℕ × ℕ × ℕ)) (l : Limiter) : Type 0 where
  runs : l.running ≡ true
  waits : l.wait_for ≡ wait
  cpu_tracks : Tracks c (cpus ts) l.cpu
  memory_tracks : Tracks m (memories ts) l.memory

collect-runs :
    (now : ℕ) (cpu memory : Option ℕ) (l : Limiter)
    → l.running ≡ true
    → collect now cpu memory l ≡ collect_running now cpu memory l
unfolding collect
collect-runs now cpu memory l e = if_true e _ _

running-Watches :
    (c m wait now cpu memory : ℕ) (ts : List (ℕ × ℕ × ℕ)) (l : Limiter)
    → Watches c m wait ts l
    → Watches c m wait ((now, cpu, memory) ∷ ts) (collect_running now (some cpu) (some memory) l).0
unfolding collect_running
running-Watches c m wait now cpu memory ts l w = record {
  runs = w.runs;
  waits = w.waits;
  cpu_tracks = (checks l.wait_for now c cpu (cpus ts) l.cpu w.cpu_tracks).tracks;
  memory_tracks = (checks l.wait_for now m memory (memories ts) l.memory w.memory_tracks).tracks;
}

running-reports :
    (c m wait now cpu memory : ℕ) (ts : List (ℕ × ℕ × ℕ)) (l : Limiter)
    → Watches c m wait ts l
    → (collect_running now (some cpu) (some memory) l).1 ≡ (
        exceeds wait now c (cpus ((now, cpu, memory) ∷ ts))
        || exceeds wait now m (memories ((now, cpu, memory) ∷ ts)))
unfolding collect_running
running-reports c m wait now cpu memory ts l w =
    let a = checks l.wait_for now c cpu (cpus ts) l.cpu w.cpu_tracks in
    let b = checks l.wait_for now m memory (memories ts) l.memory w.memory_tracks in
    ap₂ ◌||◌ a.reports b.reports
    ∙ ap
        (λ x.
          exceeds x now c (cpus ((now, cpu, memory) ∷ ts))
          || exceeds x now m (memories ((now, cpu, memory) ∷ ts)))
        w.waits

watched-Watches :
    (c m wait : ℕ) (ts : List (ℕ × ℕ × ℕ)) (l : Limiter)
    → Watches c m wait [] l
    → Watches c m wait ts (watched l ts)
unfolding watched
watched-Watches c m wait [] l w = w
watched-Watches c m wait ((now, cpu, memory) ∷ ts) l w =
    let v = watched-Watches c m wait ts l w in
    subst (Watches c m wait ((now, cpu, memory) ∷ ts))
      (ap (λ x. x.0) (sym (collect-runs now (some cpu) (some memory) (watched l ts) v.runs)))
      (running-Watches c m wait now cpu memory ts (watched l ts) v)

fresh-Watches :
    (l : Limiter)
    → Watches l.cpu.limit l.memory.limit l.wait_for [] (record (reset l) { running = true })
unfolding reset reset_resource latest above_since
fresh-Watches l = record {
  runs = refl;
  waits = refl;
  cpu_tracks = record { same_limit = refl; shows = refl; began = λ s z e. cc };
  memory_tracks = record { same_limit = refl; shows = refl; began = λ s z e. cc };
}

started-Watches :
    (l0 l : Limiter)
    → start_limiter l0 ≡ some l
    → Watches l0.cpu.limit l0.memory.limit l0.wait_for [] l
unfolding start_limiter
started-Watches l0 l e = elim (Bool-cases l0.running) [
  | inl t ↦ absurd (cc (sym (if_true t _ _) ∙ e))
  | inr f ↦
      subst (Watches l0.cpu.limit l0.memory.limit l0.wait_for [])
        (some_inj (sym (if_false f _ _) ∙ e)) (fresh-Watches l0)
]

-- After `Start` of a limiter and any sequence of ticks at which both readings succeed, a further
-- such tick calls onLimit exactly if there is a limit for the CPU or the memory, above which all
-- readings have been from some tick on up to this one, and that tick is at least the time to wait
-- for ago.
pub collect-reports :
    (l0 l : Limiter) (now cpu memory : ℕ) (ts : List (ℕ × ℕ × ℕ))
    → start_limiter l0 ≡ some l
    → (collect now (some cpu) (some memory) (watched l ts)).1 ≡ (
        exceeds l0.wait_for now l0.cpu.limit (cpus ((now, cpu, memory) ∷ ts))
        || exceeds l0.wait_for now l0.memory.limit (memories ((now, cpu, memory) ∷ ts)))
collect-reports l0 l now cpu memory ts e =
    let w =
      watched-Watches l0.cpu.limit l0.memory.limit l0.wait_for ts l (started-Watches l0 l e) in
    ap (λ x. x.1) (collect-runs now (some cpu) (some memory) (watched l ts) w.runs)
    ∙ running-reports l0.cpu.limit l0.memory.limit l0.wait_for now cpu memory ts (watched l ts) w
