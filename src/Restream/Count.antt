-- ===== src/Restream/Count.antt =====
-- How many processes run under the manager of restream/restream.go: `nProc`, and the tasks.
use datarhei_core.Prelude.{
  ℕ, suc, ◌+◌, ◌≡◌, refl, sym, ap, ◌∙◌, true, false, ◌&&◌, List, if◌then◌else◌, some, All, arith,
}
use datarhei_core.Prelude.Int.{ℤ, pos, ◌+ℤ◌, ◌-ℤ◌, ltb_ℤ, leb_ℤ}
use datarhei_core.Prelude.Map.{
  lookup, insert, delete, IsMap, total, total-delete, delete-IsMap, All-delete, lookup-delete_self,
}
use datarhei_core.Io.Path.{Bytes, Bytes-discrete}
use datarhei_core.Restream.Tasks.{Task}
use datarhei_core.Restream.Manager.{Restream, is_start, runs}

-- FFmpeg's process has the order of the task.
abbrev pub Settled : Task → Type 0
Settled t = runs t.ffmpeg ≡ is_start t.process.order

abbrev pub IsSettled : Bytes × Task → Type 0
IsSettled e = Settled e.1

abbrev pub running : Task → ℕ
running t = if runs t.ffmpeg then 1 else 0

unfoldable pub running_count : List (Bytes × Task) → ℕ
unfolding total
running_count ts = total Bytes-discrete running ts

-- `nProc` is the number of the tasks whose process runs, and at most `maxProc` if this is a limit;
-- every process has the order of its task.
pub record Balanced (max : ℤ) (ts : List (Bytes × Task)) (n : ℤ) : Type 0 where
  pub distinct : IsMap Bytes-discrete ts
  pub settled : All IsSettled ts
  pub counted : n ≡ pos (running_count ts)
  pub bounded : ltb_ℤ (pos 0) max ≡ true → leb_ℤ (pos (running_count ts)) max ≡ true

abbrev pub IsBalanced : Restream → Type 0
IsBalanced r = Balanced r.max_proc r.tasks r.n_proc

pos_suc : (k : ℕ) → pos k +ℤ pos 1 ≡ pos (suc k)
unfolding ◌+ℤ◌
pos_suc k = ground arith

pub pos_pred : (k : ℕ) → pos (suc k) -ℤ pos 1 ≡ pos k
unfolding ◌-ℤ◌
pos_pred k = ground arith

within_limit :
    (max : ℤ) (k : ℕ)
    → ltb_ℤ (pos 0) max ≡ true
    → (ltb_ℤ (pos 0) max && leb_ℤ max (pos k)) ≡ false
    → leb_ℤ (pos (suc k)) max ≡ true
within_limit max k l h = ground arith

less_within : (max : ℤ) (k : ℕ) → leb_ℤ (pos (suc k)) max ≡ true → leb_ℤ (pos k) max ≡ true
less_within max k h = ground arith

module _ (max : ℤ) (id : Bytes) (ts : List (Bytes × Task)) where
  pub running_count-insert :
      (t : Task)
      → running_count (insert Bytes-discrete id t ts)
        ≡ running t + running_count (delete Bytes-discrete id ts)
  unfolding running_count insert total
  running_count-insert t = refl

  pub running_count-delete :
      (t : Task)
      → IsMap Bytes-discrete ts
      → lookup Bytes-discrete id ts ≡ some t
      → running_count ts ≡ running t + running_count (delete Bytes-discrete id ts)
  unfolding running_count
  running_count-delete t u e = total-delete Bytes-discrete running id t ts u e

  -- A task whose process does not run is taken out.
  pub Balanced-delete :
      {n : ℤ} (t : Task)
      → lookup Bytes-discrete id ts ≡ some t
      → runs t.ffmpeg ≡ false
      → Balanced max ts n
      → Balanced max (delete Bytes-discrete id ts) n
  Balanced-delete t e idle b =
      let weightless : running t ≡ 0 = ap (λ x. if x then 1 else 0) idle in
      let same : running_count ts ≡ running_count (delete Bytes-discrete id ts) =
        omega (arith, running_count-delete t b.distinct e) in
      record {
        distinct = delete-IsMap Bytes-discrete id ts b.distinct;
        settled = All-delete Bytes-discrete IsSettled id ts b.settled;
        counted = b.counted ∙ ap pos same;
        bounded = λ l. ap (λ k. leb_ℤ (pos k) max) (sym same) ∙ b.bounded l;
      }

  -- A task whose process does not run is put in.
  pub Balanced-insert :
      {n : ℤ} (t : Task)
      → runs t.ffmpeg ≡ false
      → Settled t
      → Balanced max (delete Bytes-discrete id ts) n
      → Balanced max (insert Bytes-discrete id t ts) n
  unfolding insert
  Balanced-insert t idle settled b =
      let weightless : running t ≡ 0 = ap (λ x. if x then 1 else 0) idle in
      let same : running_count (delete Bytes-discrete id ts)
          ≡ running_count (insert Bytes-discrete id t ts) =
        omega (arith, running_count-insert t) in
      record {
        distinct = (lookup-delete_self Bytes-discrete id ts, b.distinct);
        settled = (settled, b.settled);
        counted = b.counted ∙ ap pos same;
        bounded = λ l. ap (λ k. leb_ℤ (pos k) max) (sym same) ∙ b.bounded l;
      }

  -- One whose process runs is put in, within the limit.
  pub Balanced-start :
      {n : ℤ} (t : Task)
      → runs t.ffmpeg ≡ true
      → Settled t
      → (ltb_ℤ (pos 0) max && leb_ℤ max n) ≡ false
      → Balanced max (delete Bytes-discrete id ts) n
      → Balanced max (insert Bytes-discrete id t ts) (n +ℤ pos 1)
  unfolding insert
  Balanced-start {n = n} t runs settled free b =
      let k = running_count (delete Bytes-discrete id ts) in
      let weight : running t ≡ 1 = ap (λ x. if x then 1 else 0) runs in
      let more : running_count (insert Bytes-discrete id t ts) ≡ suc k =
        omega (arith, running_count-insert t) in
      let within : (ltb_ℤ (pos 0) max && leb_ℤ max (pos k)) ≡ false =
        ap (λ x. ltb_ℤ (pos 0) max && leb_ℤ max x) (sym b.counted) ∙ free in
      record {
        distinct = (lookup-delete_self Bytes-discrete id ts, b.distinct);
        settled = (settled, b.settled);
        counted = ap (λ x. x +ℤ pos 1) b.counted ∙ pos_suc k ∙ ap pos (sym more);
        bounded = λ l. ap (λ k. leb_ℤ (pos k) max) more ∙ within_limit max k l within;
      }

  -- A task whose process runs is stopped.
  pub Balanced-stop :
      {n : ℤ} (t t' : Task)
      → lookup Bytes-discrete id ts ≡ some t
      → runs t.ffmpeg ≡ true
      → runs t'.ffmpeg ≡ false
      → Settled t'
      → Balanced max ts n
      → Balanced max (insert Bytes-discrete id t' ts) (n -ℤ pos 1)
  unfolding insert
  Balanced-stop t t' e busy idle settled b =
      let k = running_count (delete Bytes-discrete id ts) in
      let weight : running t ≡ 1 = ap (λ x. if x then 1 else 0) busy in
      let weightless : running t' ≡ 0 = ap (λ x. if x then 1 else 0) idle in
      let before : running_count ts ≡ suc k = omega (arith, running_count-delete t b.distinct e) in
      let after : running_count (insert Bytes-discrete id t' ts) ≡ k =
        omega (arith, running_count-insert t') in
      record {
        distinct =
            (lookup-delete_self Bytes-discrete id ts, delete-IsMap Bytes-discrete id ts b.distinct);
        settled = (settled, All-delete Bytes-discrete IsSettled id ts b.settled);
        counted =
            ap (λ x. x -ℤ pos 1) (b.counted ∙ ap pos before) ∙ pos_pred k ∙ ap pos (sym after);
        bounded = λ l.
            ap (λ x. leb_ℤ (pos x) max) after
            ∙ less_within max k (ap (λ x. leb_ℤ (pos x) max) (sym before) ∙ b.bounded l);
      }

  -- A task is replaced by one whose process runs or not as before.
  pub Balanced-replace :
      {n : ℤ} (t t' : Task)
      → lookup Bytes-discrete id ts ≡ some t
      → runs t'.ffmpeg ≡ runs t.ffmpeg
      → Settled t'
      → Balanced max ts n
      → Balanced max (insert Bytes-discrete id t' ts) n
  unfolding insert
  Balanced-replace t t' e alike settled b =
      let weights : running t' ≡ running t = ap (λ x. if x then 1 else 0) alike in
      let same : running_count ts ≡ running_count (insert Bytes-discrete id t' ts) =
        omega (arith, running_count-delete t b.distinct e, running_count-insert t') in
      record {
        distinct =
            (lookup-delete_self Bytes-discrete id ts, delete-IsMap Bytes-discrete id ts b.distinct);
        settled = (settled, All-delete Bytes-discrete IsSettled id ts b.settled);
        counted = b.counted ∙ ap pos same;
        bounded = λ l. ap (λ k. leb_ℤ (pos k) max) (sym same) ∙ b.bounded l;
      }
