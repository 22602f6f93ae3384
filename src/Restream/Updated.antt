-- ===== src/Restream/Updated.antt =====
-- `UpdateProcess` of restream/restream.go, and the number of running processes.
use datarhei_core.Prelude.{
  ℕ, suc, ◌≡◌, refl, sym, ap, ◌∙◌, subst, Bool, true, false, ◌&&◌, not, if◌then◌else◌, Option, none,
  some, if-cases, some-cases, elim_some, Bool-cases, inl, inr, arith, ite, if_neg,
}
use datarhei_core.Prelude.Int.{ℤ, pos, ◌-ℤ◌, ltb_ℤ, leb_ℤ}
use datarhei_core.Prelude.Map.{
  lookup, delete, lookup_of_All, lookup-insert_ne, lookup-delete_ne, lookup-delete_self,
}
use datarhei_core.Io.Path.{Bytes, Bytes-discrete}
use datarhei_core.Process as Process
use datarhei_core.Restream.{Config}
use datarhei_core.Restream.Tasks.{Task}
use datarhei_core.Restream.Manager.{
  Env, Restream, Outcome, is_start, runs, save, start_task, stop_task, stop_found, stop_running,
  delete_task, delete_found,
}
use datarhei_core.Restream.Changes.{
  create_task, with_task, replace_task, and_delete, is_known, update_found, update_created,
  update_process,
}
use datarhei_core.Restream.Count.{
  Settled, IsSettled, IsBalanced, running, running_count, running_count-delete, pos_pred,
}
use datarhei_core.Restream.Running.{
  StillBalanced, Started, started, not_started, is_full, stop_task-StillBalanced,
  delete_task-StillBalanced,
}
use datarhei_core.Restream.Created.{
  create_task-Created, on_created-StillBalanced, start_new-Started, with_task-IsBalanced,
}

-- Below the limit there is room.
room :
    (max : ℤ) (k : ℕ)
    → (ltb_ℤ (pos 0) max ≡ true → leb_ℤ (pos (suc k)) max ≡ true)
    → (ltb_ℤ (pos 0) max && leb_ℤ max (pos k)) ≡ false
room max k h = elim (Bool-cases (ltb_ℤ (pos 0) max)) [
  | inl l ↦ let within = h l in ground arith
  | inr l ↦ ground arith
]

neither_left : (a b : Bool) → (not a && not b) ≡ true → a ≡ false
neither_left a b h = ground arith

not_known : (o : Option Task) → is_known o ≡ false → o ≡ none
not_known none h = refl
not_known (some t) h = cc h

true_ne_false : {b : Bool} → b ≡ true → b ≡ false → ⊥
true_ne_false p q = cc (p, q)

module _ (id : Bytes) (r : Restream) where
  -- A process that is to run is stopped: there is room for another one.
  stop_task_room :
      (t : Task)
      → lookup Bytes-discrete id r.tasks ≡ some t
      → is_start t.process.order ≡ true
      → IsBalanced r
      → is_full (stop_task id r).0 ≡ false
  unfolding stop_task stop_found stop_running
  stop_task_room t e s b =
      let settled : Settled t = lookup_of_All Bytes-discrete IsSettled r.tasks id t b.settled e in
      let k = running_count (delete Bytes-discrete id r.tasks) in
      let weight : running t ≡ 1 = ap (λ x. if x then 1 else 0) (settled ∙ s) in
      let before : running_count r.tasks ≡ suc k =
        omega (arith, running_count-delete r.max_proc id r.tasks t b.distinct e) in
      let less : r.n_proc -ℤ pos 1 ≡ pos k =
        ap (λ x. x -ℤ pos 1) (b.counted ∙ ap pos before) ∙ pos_pred k in
      let free : (ltb_ℤ (pos 0) r.max_proc && leb_ℤ r.max_proc (r.n_proc -ℤ pos 1)) ≡ false =
        ap (λ x. ltb_ℤ (pos 0) r.max_proc && leb_ℤ r.max_proc x) less
        ∙ room r.max_proc k (λ l. ap (λ x. leb_ℤ (pos x) r.max_proc) (sym before) ∙ b.bounded l) in
      ap (λ (o : Outcome). is_full o.0) (elim_some e _ _)
      ∙ some-cases (λ (o : Outcome). is_full o.0 ≡ false) t.ffmpeg _ _
          (λ f. absurd (true_ne_false (settled ∙ s) (ap runs f)))
          (λ status f.
            if-cases (λ (o : Outcome). is_full o.0 ≡ false)
              (not (is_start t.process.order) && not (is_start status)) _ _
              (λ both.
                absurd (
                  true_ne_false s (neither_left (is_start t.process.order) (is_start status) both)))
              (λ both. free))

  -- What is not known stays so.
  stop_task_unknown :
      (q : Bytes)
      → lookup Bytes-discrete q r.tasks ≡ none
      → lookup Bytes-discrete q (stop_task id r).0.tasks ≡ none
  unfolding stop_task stop_found stop_running
  stop_task_unknown q u =
      some-cases Unknown (lookup Bytes-discrete id r.tasks) _ _ (λ e. u)
        (λ t e.
          some-cases Unknown t.ffmpeg _ _ (λ f. u)
            (λ status f.
              if-cases Unknown (not (is_start t.process.order) && not (is_start status)) _ _
                (λ both. u)
                (λ both.
                  lookup-insert_ne Bytes-discrete id q _ r.tasks (λ same. other t e same) ∙ u)))
    where
      Unknown : Outcome → Type 0
      Unknown o = lookup Bytes-discrete q o.0.tasks ≡ none

      other : (t : Task) → lookup Bytes-discrete id r.tasks ≡ some t → q ≡ id → ⊥
      other t e same = cc (sym e ∙ ap (λ x. lookup Bytes-discrete x r.tasks) (sym same) ∙ u)

-- What a delete leaves: the counters, and the tasks but one.
record Gone (id : Bytes) (r : Restream) (o : Outcome) : Type 0 where
  full : is_full o.0 ≡ is_full r
  self : o.1 ≡ none → lookup Bytes-discrete id o.0.tasks ≡ none
  others :
      (q : Bytes)
      → lookup Bytes-discrete q r.tasks ≡ none
      → lookup Bytes-discrete q o.0.tasks ≡ none

delete_found-Gone : (id : Bytes) (r : Restream) (t : Task) → Gone id r (delete_found t id r)
unfolding delete_found
delete_found-Gone id r t =
    if-cases (Gone id r) (is_start t.process.order) _ _
      (λ s. record { full = refl; self = λ h. cc h; others = λ q u. u })
      (λ s. record {
        full = refl;
        self = λ h. lookup-delete_self Bytes-discrete id r.tasks;
        others = λ q u. elim (Bytes-discrete q id) [
          | yes e ↦
              subst (λ x. lookup Bytes-discrete x (delete Bytes-discrete id r.tasks) ≡ none) (sym e)
                (lookup-delete_self Bytes-discrete id r.tasks)
          | no n ↦ lookup-delete_ne Bytes-discrete id q r.tasks n ∙ u
        ];
      })

delete_task-Gone : (id : Bytes) (r : Restream) → Gone id r (delete_task id r)
unfolding delete_task
delete_task-Gone id r =
    some-cases (Gone id r) (lookup Bytes-discrete id r.tasks) _ _
      (λ e. record { full = refl; self = λ h. cc; others = λ q u. u })
      (λ t e. delete_found-Gone id r t)

-- The old task is stopped and deleted.
record Removed (id : Bytes) (r : Restream) (o : Outcome) : Type 0 where
  balanced : StillBalanced o
  self : o.1 ≡ none → lookup Bytes-discrete id o.0.tasks ≡ none
  others :
      (q : Bytes)
      → lookup Bytes-discrete q r.tasks ≡ none
      → lookup Bytes-discrete q o.0.tasks ≡ none
  free :
      (t : Task)
      → lookup Bytes-discrete id r.tasks ≡ some t
      → is_start t.process.order ≡ true
      → o.1 ≡ none
      → is_full o.0 ≡ false

and_delete-Removed :
    (id : Bytes) (r : Restream) (o : Outcome)
    → IsBalanced r
    → ◌≡◌ {A = Outcome} (stop_task id r) o
    → Removed id r (and_delete id o)
and_delete-Removed id r (r', some e) b stops = record {
  balanced = subst StillBalanced stops (stop_task-StillBalanced r id b);
  self = λ h. cc h;
  others = λ q u.
      sym (ap (λ (o : Outcome). lookup Bytes-discrete q o.0.tasks) stops)
      ∙ stop_task_unknown id r q u;
  free = λ t e s h. cc h;
}
and_delete-Removed id r (r', none) b stops =
    let gone = delete_task-Gone id r' in
    record {
      balanced =
          delete_task-StillBalanced r' id
            (subst StillBalanced stops (stop_task-StillBalanced r id b));
      self = gone.self;
      others = λ q u. gone.others q (
          sym (ap (λ (o : Outcome). lookup Bytes-discrete q o.0.tasks) stops)
          ∙ stop_task_unknown id r q u);
      free = λ t e s h.
          gone.full ∙ sym (ap (λ (o : Outcome). is_full o.0) stops) ∙ stop_task_room id r t e s b;
    }

-- A valid task that there is room for is started.
valid_started :
    (t : Task) (r : Restream)
    → t.valid ≡ true
    → t.ffmpeg ≡ some Process.stop
    → is_full r ≡ false
    → lookup Bytes-discrete t.id r.tasks ≡ none
    → IsBalanced r
    → IsBalanced (start_task t.id (with_task t r)).0
valid_started t r v f free u b = go (start_task t.id (with_task t r)) (start_new-Started t r u f b)
  where
    go : (o : Outcome) → Started t.valid (with_task t r) o → StillBalanced o
    go o (started r' b') = b'
    go o (not_started e full) = absurd (true_ne_false (full v) free)

replace_task-StillBalanced :
    (t : Task) (o : Outcome)
    → t.valid ≡ true
    → t.ffmpeg ≡ some Process.stop
    → StillBalanced o
    → (o.1 ≡ none → lookup Bytes-discrete t.id o.0.tasks ≡ none)
    → (is_start t.process.order ≡ true → o.1 ≡ none → is_full o.0 ≡ false)
    → StillBalanced (replace_task t o)
unfolding replace_task save
replace_task-StillBalanced t (r, some e) v f b u free = b
replace_task-StillBalanced t (r, none) v f b u free =
    if-cases StillBalanced (is_start t.process.order) _ _
      (λ s. valid_started t r v f (free s refl) (u refl) b)
      (λ s. with_task-IsBalanced t r (u refl) f s b)

module _ (id : Bytes) (now : ℕ) (t : Task) (r : Restream) where
  update_found-StillBalanced :
      (old : Task)
      → t.valid ≡ true
      → t.ffmpeg ≡ some Process.stop
      → lookup Bytes-discrete id r.tasks ≡ some old
      → IsBalanced r
      → StillBalanced (update_found id now old t r)
  unfolding update_found
  update_found-StillBalanced old v f e b =
      let removed = and_delete-Removed id r (stop_task id r) b refl in
      if-cases StillBalanced (not old.parser) _ _ (λ p. b)
        (λ p.
          if-cases StillBalanced
            (ite (Bytes-discrete id t.id) false (is_known (lookup Bytes-discrete t.id r.tasks))) _ _
            (λ known. b)
            (λ unknown.
              replace_task-StillBalanced
                (record t {
                  process = record t.process { order = old.process.order; updated_at = now };
                })
                (and_delete id (stop_task id r)) v f removed.balanced
                (λ h. elim (Bytes-discrete id t.id) [
                  | yes same ↦
                      subst
                        (λ x.
                          lookup Bytes-discrete x (and_delete id (stop_task id r)).0.tasks ≡ none)
                        same (removed.self h)
                  | no n ↦ removed.others t.id (
                      not_known (lookup Bytes-discrete t.id r.tasks)
                        (sym (if_neg (Bytes-discrete id t.id) n _ _) ∙ unknown))
                ])
                (λ s h. removed.free old e s h)))

  update_created-StillBalanced :
      t.valid ≡ true
      → t.ffmpeg ≡ some Process.stop
      → IsBalanced r
      → StillBalanced (update_created id now t r)
  unfolding update_created
  update_created-StillBalanced v f b =
      some-cases StillBalanced (lookup Bytes-discrete id r.tasks) _ _ (λ e. b)
        (λ old e. update_found-StillBalanced old v f e b)

pub update_process-StillBalanced :
    (env : Env) (id : Bytes) (c : Config) (now : ℕ) (r : Restream)
    → IsBalanced r
    → StillBalanced (update_process env id c now r)
unfolding update_process
update_process-StillBalanced env id c now r b =
    on_created-StillBalanced r (update_created id now) (create_task env c now r)
      (create_task-Created env c now r)
      (λ t ports v f. update_created-StillBalanced id now t (record r { ports = ports }) v f b) b
