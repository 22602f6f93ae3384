-- ===== src/Io/Mem.antt =====
-- io/fs/mem.go: the filesystem in memory. A file's buffer is its content or `none` for a nil
-- pointer, on which a method call panics. `*memFile` pointers are shared between the map and
-- `Purge`'s list only, and there followed by their key. Times are arguments; the pool of buffers,
-- the logging and the locks are left out. The pattern matcher of List is an argument.
pub mod Tree
pub mod Invariant
pub mod Writes
pub mod Links
pub mod Sort
pub mod Purge
pub mod History
pub mod Moves
pub mod Copies
mod Tests
use datarhei_core.Prelude.{
  ℕ, suc, ◌+◌, Bool, true, false, not, ◌&&◌, List, [], ◌∷◌, ◌++◌, Option, none, some, length, ite,
  ◌==◌, if◌then◌else◌, ltb,
}
use datarhei_core.Prelude.Int.{ℤ, pos, ◌+ℤ◌, ◌-ℤ◌, leb_ℤ}
use datarhei_core.Prelude.Map
use datarhei_core.Io.Path.{Bytes, Bytes-discrete, clean_path}

-- `memFile` with its `memFileInfo`; `link_to` is empty if it is no link.
pub record MemFile : Type 0 where
  pub name : Bytes
  pub size : ℕ
  pub is_directory : Bool
  pub last_mod : ℕ
  pub link_to : Bytes
  pub content : Option Bytes

pub record MemFilesystem : Type 0 where
  pub files : List (Bytes × MemFile)
  pub current_size : ℤ

pub data Error : Type 0 where
  not_exist exist invalid link_to_link : Error

-- A call returns its result and the new state, fails and changes nothing, or panics.
pub data Result (A : Type 0) : Type 0 where
  ok : A → MemFilesystem → Result A
  err : Error → Result A
  panics : Result A

unfoldable pub file_at : Bytes → MemFilesystem → Option MemFile
file_at path fs = Map.lookup Bytes-discrete path fs.files

unfoldable pub put_file : Bytes → MemFile → MemFilesystem → MemFilesystem
put_file path f fs = record fs { files = Map.insert Bytes-discrete path f fs.files }

unfoldable pub drop_file : Bytes → MemFilesystem → MemFilesystem
drop_file path fs = record fs { files = Map.delete Bytes-discrete path fs.files }

unfoldable pub add_size : ℕ → MemFilesystem → MemFilesystem
add_size n fs = record fs { current_size = fs.current_size +ℤ pos n }

unfoldable pub sub_size : ℕ → MemFilesystem → MemFilesystem
sub_size n fs = record fs { current_size = fs.current_size -ℤ pos n }

-- `NewMemFilesystem`
unfoldable pub new_mem_filesystem : MemFilesystem
new_mem_filesystem = record { files = []; current_size = pos 0 }

unfoldable pub is_empty : Bytes → Bool
is_empty [] = true
is_empty _ = false

-- `Files`
count_files : List (Bytes × MemFile) → ℕ
count_files [] = 0
count_files ((k, f) ∷ m) = let rest = count_files m in if f.is_directory then rest else suc rest

pub count : MemFilesystem → ℕ
unfolding count_files
count fs = count_files fs.files

-- The content that a read of a file yields; a link is followed once.
unfoldable pub content_of : MemFile → Bytes
content_of f = elim f.content [ none ↦ [] | some c ↦ c ]

unfoldable pub follow : MemFilesystem → MemFile → Option MemFile
follow fs f = if is_empty f.link_to then some f else file_at f.link_to fs

unfoldable pub read_found : MemFilesystem → Option MemFile → Option Bytes
read_found fs none = none
read_found fs (some f) = elim (follow fs f) [ none ↦ none | some g ↦ some (content_of g) ]

-- `ReadFile`: `none` is ErrNotExist.
unfoldable pub read_file : Bytes → MemFilesystem → Option Bytes
unfolding read_found follow content_of is_empty
read_file path fs = read_found fs (file_at (clean_path path) fs)

-- `Open`: the opened file has a buffer of its own, which shows the bytes of the file.
unfoldable pub open_found : MemFile → Option MemFile → Option MemFile
open_found f none = none
open_found f (some g) = elim g.content [
  | none ↦ some (record f { is_directory = false; content = none })
  | some c ↦
      some (record f {
        is_directory = false;
        last_mod = g.last_mod;
        content = some c;
        size = length c;
      })
]

unfoldable pub open_at : MemFilesystem → Option MemFile → Option MemFile
unfolding open_found follow
open_at fs none = none
open_at fs (some f) = open_found f (follow fs f)

unfoldable pub open_file : Bytes → MemFilesystem → Option MemFile
unfolding open_at
open_file path fs = open_at fs (file_at (clean_path path) fs)

-- `WriteFileReader`, `WriteFile` and `WriteFileSafe`, for what the reader delivers: the size, and
-- whether the file is new.
unfoldable pub new_file : Bytes → Bytes → ℕ → MemFile
new_file path c now = record {
  name = path;
  size = length c;
  is_directory = false;
  last_mod = now;
  link_to = [];
  content = some c;
}

-- The replaced file leaves the map and the sum.
unfoldable pub forget : Bytes → Option MemFile → MemFilesystem → MemFilesystem
forget path none fs = fs
forget path (some f) fs = sub_size f.size (drop_file path fs)

unfoldable pub is_none {ℓ} : {A : Type ℓ} → Option A → Bool
is_none none = true
is_none (some a) = false

-- The buffer that the new file gets from the pool is an empty one.
unfoldable pub write_file : Bytes → Bytes → ℕ → MemFilesystem → MemFilesystem × ℕ × Bool
unfolding new_file is_none
write_file path c now fs =
    let p = clean_path path in
    let old = file_at p fs in
    (add_size (length c) (put_file p (new_file p c now) (forget p old fs)), length c, is_none old)

-- `Symlink`
unfoldable pub symlink_from : Bytes → Bytes → ℕ → MemFile → MemFilesystem → Result (Unit {0})
unfolding is_empty
symlink_from old new now f fs =
    if not (is_empty f.link_to)
    then err link_to_link
    else ok tt (
        put_file new
          (record {
            name = new;
            size = 0;
            is_directory = false;
            last_mod = now;
            link_to = old;
            content = none;
          })
          fs)

unfoldable pub symlink : Bytes → Bytes → ℕ → MemFilesystem → Result (Unit {0})
unfolding symlink_from
symlink oldname newname now fs =
    let old = clean_path oldname in
    let new = clean_path newname in
    elim (file_at old fs) [
      | none ↦ err not_exist
      | some f ↦ elim (file_at new fs) [ some g ↦ err exist | none ↦ symlink_from old new now f fs ]
    ]

-- `Remove`: the size of the removed file, `none` for -1
unfoldable pub remove : Bytes → MemFilesystem → MemFilesystem × Option ℕ
remove path fs =
    let p = clean_path path in
    elim (file_at p fs) [
      | none ↦ (fs, none)
      | some f ↦ (sub_size f.size (drop_file p fs), some f.size)
    ]

-- `RemoveAll`
unfoldable pub remove_all : MemFilesystem → MemFilesystem × ℤ
remove_all fs = (record { files = []; current_size = pos 0 }, fs.current_size)
