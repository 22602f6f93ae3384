-- ===== src/Io/Mem/Moves.antt =====
-- `Rename` of io/fs/mem.go, and what it leaves behind for a later `Purge`.
use datarhei_core.Prelude.{◌≡◌, ◌≢◌, refl, sym, ap, ◌∙◌, List, Option, none, some, arith, if_neg}
use datarhei_core.Prelude.Int.{pos, ◌-ℤ◌, int_laws}
use datarhei_core.Prelude.Map.{
  lookup, delete, insert, total, IsMap, lookup-delete_self, lookup-delete_ne, lookup-insert_self,
  lookup-insert_ne, total-insert, total-delete, insert-IsMap, delete-IsMap, delete_absent,
}
use datarhei_core.Io.Path.{Bytes, Bytes-discrete, clean_path}
use datarhei_core.Io.Mem.{MemFile, MemFilesystem, ok, file_at, put_file, drop_file, sub_size}
use datarhei_core.Io.Mem.Tree.{rename, uncount}
use datarhei_core.Io.Mem.Purge.{purge_file, clear}
use datarhei_core.Io.Mem.Invariant.{IsSized, weight}

-- What a renaming does to the files: `f` moves from `s` to `d` as it is, with its name.
pub record Renames (s d : Bytes) (f : MemFile) (fs fs' : MemFilesystem) : Type 0 where
  pub moved : file_at d fs' ≡ some f
  pub gone : file_at s fs' ≡ none
  pub others : (q : Bytes) → q ≢ s → q ≢ d → file_at q fs' ≡ file_at q fs

renamed : Bytes → Bytes → MemFile → MemFilesystem → MemFilesystem
renamed s d f fs = drop_file s (put_file d f (uncount (file_at d fs) fs))

uncount-files : (o : Option MemFile) (fs : MemFilesystem) → (uncount o fs).files ≡ fs.files
unfolding uncount sub_size
uncount-files none fs = refl
uncount-files (some g) fs = refl

renamed-Renames :
    (s d : Bytes) (f : MemFile) (fs : MemFilesystem) → s ≢ d → Renames s d f fs (renamed s d f fs)
unfolding renamed file_at drop_file put_file
renamed-Renames s d f fs n = record {
  moved =
      lookup-delete_ne Bytes-discrete s d _ (λ e. n (sym e))
      ∙ lookup-insert_self Bytes-discrete d f _;
  gone = lookup-delete_self Bytes-discrete s _;
  others = λ q a b.
      lookup-delete_ne Bytes-discrete s q _ a
      ∙ lookup-insert_ne Bytes-discrete d q f _ b
      ∙ ap (lookup Bytes-discrete q) (uncount-files (file_at d fs) fs);
}

rename-renamed :
    (src dst : Bytes) (f : MemFile) (fs : MemFilesystem)
    → clean_path src ≢ clean_path dst
    → file_at (clean_path src) fs ≡ some f
    → rename src dst fs ≡ ok tt (renamed (clean_path src) (clean_path dst) f fs)
unfolding rename renamed
rename-renamed src dst f fs n e =
    rw (if_neg (Bytes-discrete (clean_path src) (clean_path dst)) n) (rw e refl)

uncount-total :
    (d : Bytes) (o : Option MemFile) (fs : MemFilesystem)
    → file_at d fs ≡ o
    → IsSized fs
    → (uncount o fs).current_size
      ≡ pos (total Bytes-discrete weight (delete Bytes-discrete d fs.files))
unfolding uncount sub_size file_at
uncount-total d none fs e i =
    i.counted
    ∙ ap (λ m. pos (total Bytes-discrete weight m))
        (sym (delete_absent Bytes-discrete d fs.files e))
uncount-total d (some g) fs e i =
    rw i.counted (omega (int_laws, total-delete Bytes-discrete weight d g fs.files i.one_each e))

renamed-total :
    (s d : Bytes) (f : MemFile) (m : List (Bytes × MemFile))
    → s ≢ d
    → IsMap Bytes-discrete m
    → lookup Bytes-discrete s m ≡ some f
    → total Bytes-discrete weight (delete Bytes-discrete d m)
      ≡ total Bytes-discrete weight (delete Bytes-discrete s (insert Bytes-discrete d f m))
renamed-total s d f m n u e = omega (
  arith,
  total-delete Bytes-discrete weight s f (insert Bytes-discrete d f m)
      (insert-IsMap Bytes-discrete d f m u) (lookup-insert_ne Bytes-discrete d s f m n ∙ e),
  total-insert Bytes-discrete weight d f m,
)

-- The sum of the sizes stays right.
renamed-IsSized :
    (s d : Bytes) (f : MemFile) (fs : MemFilesystem)
    → s ≢ d
    → IsSized fs
    → file_at s fs ≡ some f
    → IsSized (renamed s d f fs)
unfolding renamed file_at drop_file put_file
renamed-IsSized s d f fs n i e =
    let same = uncount-files (file_at d fs) fs in
    record {
      one_each = rw same (
          delete-IsMap Bytes-discrete s (insert Bytes-discrete d f fs.files)
            (insert-IsMap Bytes-discrete d f fs.files i.one_each));
      counted = rw same (
          uncount-total d (file_at d fs) fs refl i
          ∙ ap pos (renamed-total s d f fs.files n i.one_each e));
    }

-- `Rename` of an existing file to another path succeeds on a filesystem whose size is the sum of
-- the recorded sizes, and keeps it so; the file is under the new path, unchanged, with nothing
-- under the old one, and every other path holds what it held.
pub rename-Renames :
    (src dst : Bytes) (f : MemFile) (fs : MemFilesystem)
    → clean_path src ≢ clean_path dst
    → IsSized fs
    → file_at (clean_path src) fs ≡ some f
    → (fs' : MemFilesystem) × (rename src dst fs ≡ ok tt fs')
      × IsSized fs'
      × Renames (clean_path src) (clean_path dst) f fs fs'
rename-Renames src dst f fs n i e = (
  renamed (clean_path src) (clean_path dst) f fs,
  rename-renamed src dst f fs n e,
  renamed-IsSized (clean_path src) (clean_path dst) f fs n i e,
  renamed-Renames (clean_path src) (clean_path dst) f fs n,
)

clear-some :
    (k : Bytes) (f : MemFile) (fs : MemFilesystem)
    → file_at k fs ≡ some f
    → clear k fs ≡ put_file k (record f { content = none }) fs
unfolding clear
clear-some k f fs e = rw (e, clear) refl

put_here : (k : Bytes) (f : MemFile) (fs : MemFilesystem) → file_at k (put_file k f fs) ≡ some f
unfolding file_at put_file
put_here k f fs = lookup-insert_self Bytes-discrete k f fs.files

put-current_size :
    (k : Bytes) (f : MemFile) (fs : MemFilesystem)
    → (put_file k f fs).current_size ≡ fs.current_size
unfolding put_file
put-current_size k f fs = refl

clear-found :
    (k : Bytes) (f : MemFile) (fs : MemFilesystem)
    → file_at k fs ≡ some f
    → (file_at k (clear k fs) ≡ some (record f { content = none }))
      × ((clear k fs).current_size ≡ fs.current_size)
clear-found k f fs e =
    let g = record f { content = none } in
    rw (clear-some k f fs e) (put_here k g fs, put-current_size k g fs)

-- Where `Purge` comes to a file whose name is not the path that holds it, as after a `Rename`, the
-- file stays under its path without content, and its size is subtracted from the size of the
-- filesystem.
pub purge_file-renamed :
    (k : Bytes) (f : MemFile) (fs : MemFilesystem)
    → file_at k fs ≡ some f
    → f.name ≢ k
    → (file_at k (purge_file k f fs) ≡ some (record f { content = none }))
      × ((purge_file k f fs).current_size ≡ fs.current_size -ℤ pos f.size)
unfolding purge_file file_at drop_file sub_size
purge_file-renamed k f fs e n =
    clear-found k f (sub_size f.size (drop_file f.name fs))
      (lookup-delete_ne Bytes-discrete f.name k fs.files (λ p. n (sym p)) ∙ e)
