-- ===== src/Io/Mem/Links.antt =====
-- `Symlink` and `MkdirAll` of io/fs/mem.go: both add a file without content.
use datarhei_core.Prelude.{sym}
use datarhei_core.Io.Mem.Tree.{info_of}
use datarhei_core.Prelude.{if_true}
use datarhei_core.Prelude.Int.{pos}
use datarhei_core.Io.Mem.Invariant.{IsSized, weight, put-IsHonest}
use datarhei_core.Io.Mem.Tree.{FileInfo, stat_clean, mkdir_all, stat_file}
use datarhei_core.Prelude.{[], ◌⊎◌, arith, true, false, if◌then◌else◌}
use datarhei_core.Prelude.Map.{
  total, delete, delete_absent, total-delete, insert-IsMap, total-insert,
}
use datarhei_core.Io.Path.{Bytes-discrete}
use datarhei_core.Prelude.{ℕ, ◌≡◌, refl, ap, ◌∙◌, false, Option, none, some, inl, inr, Bool-cases}
use datarhei_core.Prelude.Int.{int_laws}
use datarhei_core.Io.Path.{Bytes, clean_path}
use datarhei_core.Io.Mem.{
  MemFile, MemFilesystem, Result, ok, err, panics, file_at, put_file, add_size, symlink,
  symlink_from, content_of, is_empty, exist, not_exist,
}
use datarhei_core.Io.Mem.Invariant.{Inv, IsHonest}

-- The state after a call that succeeds is well formed.
unfoldable pub Keeps : Result (Unit {0}) → Type 0
Keeps (ok u fs) = Inv fs
Keeps (err e) = Unit {0}
Keeps panics = Unit {0}

add_nothing : (fs : MemFilesystem) → add_size 0 fs ≡ fs
unfolding add_size
add_nothing fs = ap (λ n. record fs { current_size = n }) (omega int_laws)

link_file : Bytes → Bytes → ℕ → MemFile
link_file old new now = record {
  name = new;
  size = 0;
  is_directory = false;
  last_mod = now;
  link_to = old;
  content = none;
}

IsHonest-link : (old new : Bytes) (now : ℕ) → IsHonest new (link_file old new now)
unfolding link_file content_of
IsHonest-link old new now = record { named = refl; measured = refl; linked = λ e. refl }

-- There is nothing under the key, or nothing that counts.
IsFree : Bytes → MemFilesystem → Type 0
IsFree k fs = (file_at k fs ≡ none) ⊎ ((g : MemFile) × (file_at k fs ≡ some g) × (g.size ≡ 0))

total-free :
    (k : Bytes) (fs : MemFilesystem)
    → IsSized fs
    → IsFree k fs
    → total Bytes-discrete weight (delete Bytes-discrete k fs.files)
      ≡ total Bytes-discrete weight fs.files
unfolding IsFree file_at
total-free k fs s (inl e) =
    ap (total Bytes-discrete weight) (delete_absent Bytes-discrete k fs.files e)
total-free k fs s (inr (g, e, z)) =
    omega (arith, z, total-delete Bytes-discrete weight k g fs.files s.one_each e)

put_empty-IsSized :
    (k : Bytes) (f : MemFile) (fs : MemFilesystem)
    → IsSized fs
    → IsFree k fs
    → f.size ≡ 0
    → IsSized (put_file k f fs)
unfolding put_file
put_empty-IsSized k f fs s e z = record {
  one_each = insert-IsMap Bytes-discrete k f fs.files s.one_each;
  counted =
      s.counted
      ∙ ap pos
          (omega (arith, z, total-insert Bytes-discrete weight k f fs.files, total-free k fs s e));
}

put_empty-Inv :
    (k : Bytes) (f : MemFile) (fs : MemFilesystem)
    → Inv fs
    → IsFree k fs
    → IsHonest k f
    → f.size ≡ 0
    → Inv (put_file k f fs)
put_empty-Inv k f fs i e h z = record {
  sized = put_empty-IsSized k f fs i.sized e z;
  honest =
      λ j g q. put-IsHonest k f 0 fs i h j g (ap (file_at j) (add_nothing (put_file k f fs)) ∙ q);
}

symlink_from-Keeps :
    (old new : Bytes) (now : ℕ) (f : MemFile) (fs : MemFilesystem)
    → Inv fs
    → file_at new fs ≡ none
    → Keeps (symlink_from old new now f fs)
unfolding symlink_from Keeps link_file IsFree
symlink_from-Keeps old new now f fs i e = elim (Bool-cases (is_empty f.link_to)) [
  | inr t ↦ rw (t, Keeps) tt
  | inl t ↦
      rw (t, Keeps)
        (put_empty-Inv new (link_file old new now) fs i (inl e) (IsHonest-link old new now) refl)
]

symlink-found :
    (old new : Bytes) (now : ℕ) (f : MemFile) (o : Option MemFile) (fs : MemFilesystem)
    → Inv fs
    → file_at new fs ≡ o
    → Keeps (elim o [ some g ↦ err exist | none ↦ symlink_from old new now f fs ])
unfolding Keeps
symlink-found old new now f none fs i e = symlink_from-Keeps old new now f fs i e
symlink-found old new now f (some g) fs i e = tt

-- `Symlink` on a filesystem that meets `Inv` leaves one that meets `Inv`, if it does not fail.
pub symlink-Keeps :
    (oldname newname : Bytes) (now : ℕ) (fs : MemFilesystem)
    → Inv fs
    → Keeps (symlink oldname newname now fs)
unfolding symlink Keeps
symlink-Keeps oldname newname now fs i =
    elim (file_at (clean_path oldname) fs)
      as (λ o. Keeps (elim o [
        | none ↦ err not_exist
        | some f ↦ elim (file_at (clean_path newname) fs) [
          | some g ↦ err exist
          | none ↦ symlink_from (clean_path oldname) (clean_path newname) now f fs
        ]
      ])) [
        | none ↦ tt
        | some f ↦
            symlink-found (clean_path oldname) (clean_path newname) now f
              (file_at (clean_path newname) fs) fs i refl
      ]

directory : Bytes → ℕ → MemFile
directory path now = record {
  name = path;
  size = 0;
  is_directory = true;
  last_mod = now;
  link_to = [];
  content = none;
}

directory-IsHonest : (path : Bytes) (now : ℕ) → IsHonest path (directory path now)
unfolding directory content_of
directory-IsHonest path now = record { named = refl; measured = refl; linked = λ e. refl }

stat_here :
    (path : Bytes) (now : ℕ) (g : MemFile) (fs : MemFilesystem)
    → file_at path fs ≡ some g
    → is_empty g.link_to ≡ true
    → stat_clean path now fs ≡ some (info_of g)
unfolding stat_file stat_clean
stat_here path now g fs e l = rw (e, stat_clean) (if_true l _ _)

-- Where `stat` finds a file missing, there is none, or it is a link.
file-IsFree :
    (path : Bytes) (now : ℕ) (o : Option MemFile) (fs : MemFilesystem)
    → Inv fs
    → file_at path fs ≡ o
    → stat_clean path now fs ≡ none
    → IsFree path fs
unfolding IsFree
file-IsFree path now none fs i e s = inl e
file-IsFree path now (some g) fs i e s = elim (Bool-cases (is_empty g.link_to)) [
  | inr l ↦ inr (g, e, (i.honest path g e).linked l)
  | inl l ↦ absurd (cc (sym s ∙ stat_here path now g fs e l))
]

made :
    (path : Bytes) (now : ℕ) (o : Option FileInfo) (fs : MemFilesystem)
    → Inv fs
    → stat_clean path now fs ≡ o
    → Keeps (elim o [
      | some d ↦ if d.is_directory then ok tt fs else err exist
      | none ↦ ok tt (put_file path (directory path now) fs)
    ])
unfolding Keeps
made path now none fs i e =
    put_empty-Inv path (directory path now) fs i
      (file-IsFree path now (file_at path fs) fs i refl e) (directory-IsHonest path now)
      (unfold directory in refl)
made path now (some d) fs i e = elim (Bool-cases d.is_directory) [
  | inl t ↦ rw (t, Keeps) i
  | inr t ↦ rw (t, Keeps) tt
]

pub mkdir_all-Keeps :
    (path : Bytes) (now : ℕ) (fs : MemFilesystem) → Inv fs → Keeps (mkdir_all path now fs)
unfolding mkdir_all directory
mkdir_all-Keeps path now fs i =
    made (clean_path path) now (stat_clean (clean_path path) now fs) fs i refl
