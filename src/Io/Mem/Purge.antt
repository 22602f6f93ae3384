-- ===== src/Io/Mem/Purge.antt =====
-- `Purge` of io/fs/mem.go: the oldest files are removed until enough bytes are freed.
use datarhei_core.Prelude.{
  ℕ, ◌+◌, ◌≤◌, ◌≡◌, refl, sym, ap, ◌∙◌, ◌⊎◌, inl, inr, List, [], ◌∷◌, none, some, arith,
  if◌then◌else◌, if_pos, if_neg, Bool-cases, subst,
}
use datarhei_core.Prelude.Int.{ℤ, pos, ◌+ℤ◌, ◌-ℤ◌, ◌≤ℤ◌, leb_ℤ, int_laws, pos_part, neg_part}
use datarhei_core.Prelude.Map.{
  lookup, IsMap, lookup-delete_self, lookup-delete_ne, lookup-delete_inv, lookup_of_All, some_inj,
}
use datarhei_core.Io.Path.{Bytes, Bytes-discrete}
use datarhei_core.Io.Mem.{MemFile, MemFilesystem, file_at, put_file, drop_file, sub_size}
use datarhei_core.Io.Mem.Invariant.{Inv, drop-Inv, drop_absent}
use datarhei_core.Io.Mem.Sort.{sort, IsSorted, IsBefore, sort-IsSorted, sort-IsMap}

-- `f.data = nil` shows in the map if the file is still there under its key.
unfoldable pub clear : Bytes → MemFilesystem → MemFilesystem
clear k fs = elim (file_at k fs) [
  | none ↦ fs
  | some g ↦ put_file k (record g { content = none }) fs
]

-- The body of the loop, for the file `f` that the map held under `k`.
unfoldable pub purge_file : Bytes → MemFile → MemFilesystem → MemFilesystem
unfolding clear
purge_file k f fs = clear k (sub_size f.size (drop_file f.name fs))

unfoldable pub purge_loop : List (Bytes × MemFile) → ℤ → ℕ → MemFilesystem → MemFilesystem × ℕ
purge_loop [] size freed fs = (fs, freed)
purge_loop ((k, f) ∷ l) size freed fs =
    let left = size -ℤ pos f.size in
    let fs' = purge_file k f fs in
    let rest = purge_loop l left (freed + f.size) fs' in
    if leb_ℤ left (pos 0) then (fs', freed + f.size) else rest

-- `Purge`: the new state and the number of bytes that it freed
unfoldable pub purge : ℤ → MemFilesystem → MemFilesystem × ℕ
purge size fs = purge_loop (sort fs.files) size 0 fs

-- What a purge of `size` bytes does that has freed `before` bytes so far.
pub record Purges (size : ℤ) (before : ℕ) (fs : MemFilesystem) (r : MemFilesystem × ℕ)
    : Type 0 where
  pub kept : Inv r.0
  pub freed : r.0.current_size +ℤ pos r.1 ≡ fs.current_size +ℤ pos before
  pub enough : (size +ℤ pos before ≤ℤ pos r.1) ⊎ ((q : Bytes) → file_at q r.0 ≡ none)
  pub others : (q : Bytes) (f : MemFile) → file_at q r.0 ≡ some f → file_at q fs ≡ some f
  pub oldest :
      (q j : Bytes) (f g : MemFile)
      → file_at q r.0 ≡ some f
      → file_at j fs ≡ some g
      → file_at j r.0 ≡ none
      → g.last_mod ≤ f.last_mod

-- The list has the files of the filesystem.
record IsListing (l : List (Bytes × MemFile)) (fs : MemFilesystem) : Type 0 where
  one_each : IsMap Bytes-discrete l
  same : (q : Bytes) → lookup Bytes-discrete q l ≡ file_at q fs

dropped : Bytes → MemFile → MemFilesystem → MemFilesystem
dropped k f fs = sub_size f.size (drop_file k fs)

clear_absent : (k : Bytes) (fs : MemFilesystem) → file_at k fs ≡ none → clear k fs ≡ fs
unfolding clear
clear_absent k fs e = rw (e, clear) refl

purge_file_named :
    (k : Bytes) (f : MemFile) (fs : MemFilesystem) → f.name ≡ k → purge_file k f fs ≡ dropped k f fs
unfolding purge_file dropped
purge_file_named k f fs e =
    ap (λ n. clear k (sub_size f.size (drop_file n fs))) e
    ∙ clear_absent k (sub_size f.size (drop_file k fs)) (drop_absent k f.size fs)

dropped-Inv :
    (k : Bytes) (f : MemFile) (fs : MemFilesystem)
    → Inv fs
    → file_at k fs ≡ some f
    → Inv (dropped k f fs)
unfolding dropped
dropped-Inv k f fs i e = drop-Inv k f fs i e

listed_head :
    (k : Bytes) (f : MemFile) (l : List (Bytes × MemFile)) (fs : MemFilesystem)
    → IsListing ((k, f) ∷ l) fs
    → file_at k fs ≡ some f
unfolding lookup
listed_head k f l fs h = sym (h.same k) ∙ if_pos (Bytes-discrete k k) refl _ _

listed_tail :
    (k : Bytes) (f : MemFile) (l : List (Bytes × MemFile)) (fs : MemFilesystem)
    → IsListing ((k, f) ∷ l) fs
    → IsListing l (dropped k f fs)
unfolding dropped file_at drop_file sub_size lookup
listed_tail k f l fs h = record {
  one_each = h.one_each.1;
  same = λ q. elim (Bytes-discrete k q) [
    | yes e ↦
        subst (λ x. lookup Bytes-discrete x l ≡ lookup Bytes-discrete x (dropped k f fs).files) e
          (h.one_each.0 ∙ sym (lookup-delete_self Bytes-discrete k fs.files))
    | no n ↦
        sym (if_neg (Bytes-discrete k q) n _ _)
        ∙ h.same q
        ∙ sym (lookup-delete_ne Bytes-discrete k q fs.files (λ p. n (sym p)))
  ];
}

purged_oldest :
    (k : Bytes) (f : MemFile) (l : List (Bytes × MemFile)) (size : ℤ) (before : ℕ)
    (fs : MemFilesystem) (r : MemFilesystem × ℕ)
    → IsListing ((k, f) ∷ l) fs
    → IsSorted ((k, f) ∷ l)
    → Purges size before (dropped k f fs) r
    → (q j : Bytes) (f' g : MemFile) → file_at q r.0 ≡ some f'
    → file_at j fs ≡ some g
    → file_at j r.0 ≡ none
    → g.last_mod ≤ f'.last_mod
unfolding dropped file_at drop_file sub_size IsSorted
purged_oldest k f l size before fs r h s p q j f' g a b c = elim (Bytes-discrete j k) [
  | yes e ↦
      let same = some_inj (sym b ∙ ap (λ x. file_at x fs) e ∙ listed_head k f l fs h) in
      subst (λ x. x.last_mod ≤ f'.last_mod) (sym same)
        (lookup_of_All Bytes-discrete (IsBefore f) l q f' s.0
          ((listed_tail k f l fs h).same q ∙ p.others q f' a))
  | no n ↦ p.oldest q j f' g a (lookup-delete_ne Bytes-discrete k j fs.files n ∙ b) c
]

purged_more :
    (k : Bytes) (f : MemFile) (l : List (Bytes × MemFile)) (size : ℤ) (before : ℕ)
    (fs : MemFilesystem) (r : MemFilesystem × ℕ)
    → IsListing ((k, f) ∷ l) fs
    → IsSorted ((k, f) ∷ l)
    → Purges (size -ℤ pos f.size) (before + f.size) (dropped k f fs) r
    → Purges size before fs r
unfolding dropped file_at drop_file sub_size
purged_more k f l size before fs r h s p = record {
  kept = p.kept;
  freed = omega (int_laws, ap pos_part p.freed, ap neg_part p.freed);
  enough = elim p.enough [ inl e ↦ inl (omega int_laws) | inr e ↦ inr e ];
  others = λ q g e. (lookup-delete_inv Bytes-discrete k q g fs.files (p.others q g e)).1;
  oldest = purged_oldest k f l (size -ℤ pos f.size) (before + f.size) fs r h s p;
}

purged_enough :
    (size : ℤ) (before : ℕ) (fs : MemFilesystem)
    → Inv fs
    → size ≤ℤ pos 0
    → Purges size before fs (fs, before)
purged_enough size before fs i e = record {
  kept = i;
  freed = refl;
  enough = inl (omega int_laws);
  others = λ q f h. h;
  oldest = λ q j f g a b c. absurd (cc (b, c));
}

purged_all :
    (size : ℤ) (before : ℕ) (fs : MemFilesystem)
    → Inv fs
    → IsListing [] fs
    → Purges size before fs (fs, before)
unfolding lookup
purged_all size before fs i h = record {
  kept = i;
  freed = refl;
  enough = inr (λ q. sym (h.same q));
  others = λ q f e. e;
  oldest = λ q j f g a b c. absurd (cc (b, c));
}

purge_loop-Purges :
    (l : List (Bytes × MemFile)) (size : ℤ) (before : ℕ) (fs : MemFilesystem)
    → Inv fs
    → IsListing l fs
    → IsSorted l
    → Purges size before fs (purge_loop l size before fs)
unfolding purge_loop IsSorted
purge_loop-Purges [] size before fs i h s = purged_all size before fs i h
purge_loop-Purges ((k, f) ∷ l) size before fs i h s =
    let e = listed_head k f l fs h in
    let i' = dropped-Inv k f fs i e in
    let left = size -ℤ pos f.size in
    rw (purge_file_named k f fs (i.honest k f e).named) (
      purged_more k f l size before fs _ h s (elim (Bool-cases (leb_ℤ left (pos 0))) [
        | inl t ↦ rw t (purged_enough left (before + f.size) (dropped k f fs) i' (ground arith))
        | inr t ↦ rw t (
            purge_loop-Purges l left (before + f.size) (dropped k f fs) i' (listed_tail k f l fs h)
              s.1)
      ]))

-- For a filesystem that meets `Inv`, `Purge` of `size` bytes keeps `Inv`, and the size falls by
-- the number of bytes that it reports; this number reaches `size`, or no file is left; a file that
-- is left is one that was there, and none that is gone was changed later than one that is left.
pub purge-Purges : (size : ℤ) (fs : MemFilesystem) → Inv fs → Purges size 0 fs (purge size fs)
unfolding purge file_at
purge-Purges size fs i =
    let (one_each, same) = sort-IsMap fs.files i.sized.one_each in
    purge_loop-Purges (sort fs.files) size 0 fs i (record { one_each = one_each; same = same })
      (sort-IsSorted fs.files)
