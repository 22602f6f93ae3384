-- ===== src/Restream/Queries.antt =====
-- What restream/restream.go tells of its processes, and the metadata that it keeps for them.
use datarhei_core.Prelude.{
  ℕ, suc, ◌+◌, Bool, ◌&&◌, not, List, [], ◌∷◌, ◌++◌, ◌==◌, if◌then◌else◌, Option, none, some, ◌⊎◌,
  inl, inr,
}
use datarhei_core.Prelude.Map.{lookup, insert, delete}
use datarhei_core.Io.Path.{Bytes, Bytes-discrete}
use datarhei_core.Restream.Validate.{
  Error, unknown_process, invalid_definition, no_playout, empty_key, unknown_key, is_nil,
}
use datarhei_core.Restream.Tasks.{AppProcess, Task, itoa}
use datarhei_core.Restream.Manager.{Restream, Outcome, Metadata, save}
use datarhei_core.Restream.Changes.{put_at_id}

-- `GetProcess`
unfoldable pub get_process : Bytes → Restream → Error ⊎ AppProcess
unfolding lookup
get_process id r = elim (lookup Bytes-discrete id r.tasks) [
  | none ↦ inl unknown_process
  | some t ↦ inr t.process
]

abbrev pub local_host : Bytes
local_host = b'1' ∷ b'2' ∷ b'7' ∷ b'.' ∷ b'0' ∷ b'.' ∷ b'0' ∷ b'.' ∷ b'1' ∷ b':' ∷ []

abbrev pub entries : {A : Type 0} → Option (List A) → List A
entries none = []
entries (some m) = m

unfoldable pub playout_of : Bytes → Task → Error ⊎ Bytes
unfolding lookup itoa
playout_of input t =
    if not t.valid
    then inl invalid_definition
    else elim (lookup Bytes-discrete input (entries t.playout)) [
      | none ↦ inl no_playout
      | some p ↦ inr (local_host ++ itoa p)
    ]

-- `GetPlayout`
unfoldable pub get_playout : Bytes → Bytes → Restream → Error ⊎ Bytes
unfolding lookup playout_of
get_playout id input r = elim (lookup Bytes-discrete id r.tasks) [
  | none ↦ inl unknown_process
  | some t ↦ playout_of input t
]

-- A map without entries becomes nil.
abbrev pub nil_if_empty : List (Bytes × Bytes) → Metadata
nil_if_empty [] = none
nil_if_empty (e ∷ es) = some (e ∷ es)

-- A key is set, or deleted if there are no data.
unfoldable pub set_key : Bytes → Option Bytes → Metadata → Metadata
unfolding insert delete
set_key key none m = nil_if_empty (delete Bytes-discrete key (entries m))
set_key key (some d) m = nil_if_empty (insert Bytes-discrete key d (entries m))

-- All the metadata, or what a key has.
pub data Found : Type 0 where
  whole : Metadata → Found
  one : Bytes → Found

unfoldable pub get_key : Bytes → Metadata → Error ⊎ Found
unfolding lookup
get_key key m = if is_nil key then inr (whole m) else elim (lookup Bytes-discrete key (entries m)) [
  | none ↦ inl unknown_key
  | some d ↦ inr (one d)
]

-- `SetProcessMetadata` and `GetProcessMetadata`
unfoldable pub set_process_metadata : Bytes → Bytes → Option Bytes → Restream → Outcome
unfolding lookup set_key save
set_process_metadata id key value r =
    if is_nil key then (r, some empty_key) else elim (lookup Bytes-discrete id r.tasks) [
      | none ↦ (r, some unknown_process)
      | some t ↦
          (save (put_at_id id (record t { metadata = set_key key value t.metadata }) r), none)
    ]

unfoldable pub get_process_metadata : Bytes → Bytes → Restream → Error ⊎ Found
unfolding lookup get_key
get_process_metadata id key r = elim (lookup Bytes-discrete id r.tasks) [
  | none ↦ inl unknown_process
  | some t ↦ get_key key t.metadata
]

-- `SetMetadata` and `GetMetadata`
unfoldable pub set_metadata : Bytes → Option Bytes → Restream → Outcome
unfolding set_key save
set_metadata key value r =
    if is_nil key
    then (r, some empty_key)
    else (save (record r { metadata = set_key key value r.metadata }), none)

unfoldable pub get_metadata : Bytes → Restream → Error ⊎ Found
unfolding get_key
get_metadata key r = get_key key r.metadata

abbrev pub next_count : Option ℕ → ℕ
next_count none = 1
next_count (some n) = suc n

-- `idmap[id]++` for the tasks that match; `none` is an error of `glob.Match`.
unfoldable pub count_matches :
    (Task → Option Bool) → List (Bytes × Task) → List (Bytes × ℕ) → Option (List (Bytes × ℕ))
unfolding insert lookup
count_matches match [] m = some m
count_matches match ((id, t) ∷ ts) m = elim (match t) [
  | none ↦ none
  | some hit ↦
      let n = next_count (lookup Bytes-discrete id m) in
      count_matches match ts (if hit then insert Bytes-discrete id n m else m)
]

unfoldable pub with_count : ℕ → List (Bytes × ℕ) → List Bytes
with_count n [] = []
with_count n ((id, k) ∷ m) = let rest = with_count n m in if k == n then id ∷ rest else rest

unfoldable pub all_ids : List (Bytes × Task) → List Bytes
all_ids [] = []
all_ids ((id, t) ∷ ts) = id ∷ all_ids ts

-- The matches of a pattern that is not empty, added to a map.
unfoldable pub count_pattern :
    (Bytes → Bytes → Option Bool)
    → Bytes
    → (Task → Bytes)
    → List (Bytes × Task)
    → Option (List (Bytes × ℕ))
    → Option (List (Bytes × ℕ))
unfolding count_matches
count_pattern glob pattern of_task ts none = none
count_pattern glob pattern of_task ts (some m) =
    if is_nil pattern then some m else count_matches (λ t. glob pattern (of_task t)) ts m

abbrev pub pattern_weight : Bytes → ℕ
pattern_weight p = if is_nil p then 0 else 1

-- `GetProcessIDs`; an error of `glob.Match` gives no identifiers.
unfoldable pub get_process_ids :
    (Bytes → Bytes → Option Bool) → Bytes → Bytes → Restream → List Bytes
unfolding count_pattern with_count all_ids
get_process_ids glob id_pattern reference_pattern r =
    let by_id = count_pattern glob id_pattern (λ t. t.id) r.tasks (some []) in
    let counted = count_pattern glob reference_pattern (λ t. t.reference) r.tasks by_id in
    if is_nil id_pattern && is_nil reference_pattern then all_ids r.tasks else elim counted [
      | none ↦ []
      | some m ↦ with_count (pattern_weight id_pattern + pattern_weight reference_pattern) m
    ]
