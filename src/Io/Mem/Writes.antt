-- ===== src/Io/Mem/Writes.antt =====
-- Writing, linking, reading and removing in io/fs/mem.go.
use datarhei_core.Io.Mem.{is_empty}
use datarhei_core.Prelude.{none, some}
use datarhei_core.Prelude.{Option}
use datarhei_core.Io.Mem.{read_found, follow, open_found, open_at, open_file, MemFile}
use mathlib.Core.Option
use datarhei_core.Prelude.{ℕ, ◌≡◌, ◌≢◌, refl, ◌∙◌, inl, inr, some, Option-cases}
use datarhei_core.Prelude.Map.{lookup, total, lookup-insert_self, lookup-insert_ne}
use datarhei_core.Io.Path.{Bytes, Bytes-discrete, clean_path}
use datarhei_core.Io.Mem.{
  MemFilesystem, file_at, put_file, add_size, forget, content_of, new_mem_filesystem, write_file,
  new_file, remove, read_file,
}
use datarhei_core.Io.Mem.Invariant.{Inv, IsHonest, drop-Inv, put-Inv, forget-Inv, forget_others}

pub new_mem_filesystem-Inv : Inv new_mem_filesystem
unfolding new_mem_filesystem file_at lookup total
new_mem_filesystem-Inv = record {
  sized = record { one_each = tt; counted = refl };
  honest = λ k f e. absurd (cc e);
}

new_file-IsHonest : (p c : Bytes) (now : ℕ) → IsHonest p (new_file p c now)
unfolding new_file content_of is_empty
new_file-IsHonest p c now = record { named = refl; measured = refl; linked = λ e. cc }

-- `WriteFile` keeps the invariant `Inv` of the filesystem: one entry for a path, a size that is
-- the sum of the recorded sizes, and every file with its path as name and the length of its
-- content as recorded size.
pub write_file-Inv :
    (path c : Bytes) (now : ℕ) (fs : MemFilesystem) → Inv fs → Inv (write_file path c now fs).0
unfolding write_file
write_file-Inv path c now fs i =
    let p = clean_path path in
    let (j, e) = forget-Inv p fs i in
    put-Inv p (new_file p c now) (forget p (file_at p fs) fs) j e (new_file-IsHonest p c now)

written :
    (path c : Bytes) (now : ℕ) (fs : MemFilesystem)
    → file_at (clean_path path) (write_file path c now fs).0
      ≡ some (new_file (clean_path path) c now)
unfolding write_file file_at put_file add_size
written path c now fs = lookup-insert_self Bytes-discrete (clean_path path) _ _

-- After `WriteFile` to a path, `ReadFile` of the path returns what was written.
pub write_file-read :
    (path c : Bytes) (now : ℕ) (fs : MemFilesystem)
    → read_file path (write_file path c now fs).0 ≡ some c
unfolding read_file new_file
write_file-read path c now fs = rw (written path c now fs) refl

-- `WriteFile` to a path leaves what any other path holds as it was.
pub write_file_others :
    (path c q : Bytes) (now : ℕ) (fs : MemFilesystem)
    → q ≢ clean_path path
    → file_at q (write_file path c now fs).0 ≡ file_at q fs
unfolding write_file file_at put_file add_size
write_file_others path c q now fs n =
    lookup-insert_ne Bytes-discrete (clean_path path) q _ _ n
    ∙ forget_others (clean_path path) q (file_at (clean_path path) fs) fs n

-- `Remove` keeps the invariant `Inv` of the filesystem.
pub remove-Inv : (path : Bytes) (fs : MemFilesystem) → Inv fs → Inv (remove path fs).0
unfolding remove
remove-Inv path fs i = elim (Option-cases (file_at (clean_path path) fs)) [
  | inl e ↦ rw (e, remove) i
  | inr (f, e) ↦ rw (e, remove) (drop-Inv (clean_path path) f fs i e)
]

by_content :
    (f g : MemFile) (x : Option Bytes)
    → g.content ≡ x
    → Option.map content_of (open_found f (some g)) ≡ some (content_of g)
unfolding open_found content_of
by_content f g none e = rw e refl
by_content f g (some c) e = rw e refl

open_found-content :
    (f : MemFile) (o : Option MemFile)
    → Option.map content_of (open_found f o) ≡ elim o [ none ↦ none | some g ↦ some (content_of g) ]
unfolding open_found
open_found-content f none = refl
open_found-content f (some g) = by_content f g g.content refl

open_at-content :
    (fs : MemFilesystem) (o : Option MemFile)
    → Option.map content_of (open_at fs o) ≡ read_found fs o
unfolding open_at read_found
open_at-content fs none = refl
open_at-content fs (some f) = open_found-content f (follow fs f)

-- What can be read from the file that `Open` returns is what `ReadFile` returns, and `Open` finds
-- no file exactly where `ReadFile` reports that there is none.
pub open_file-read :
    (path : Bytes) (fs : MemFilesystem)
    → Option.map content_of (open_file path fs) ≡ read_file path fs
unfolding open_file read_file
open_file-read path fs = open_at-content fs (file_at (clean_path path) fs)
