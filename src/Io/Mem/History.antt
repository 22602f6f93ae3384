-- ===== src/Io/Mem/History.antt =====
-- Any sequence of the calls of io/fs/mem.go that change the files, other than `Rename` and `Copy`.
use datarhei_core.Prelude.{ℕ, List, [], ◌∷◌}
use datarhei_core.Prelude.Int.{ℤ}
use datarhei_core.Io.Path.{Bytes}
use datarhei_core.Io.Mem.{
  MemFilesystem, Result, ok, err, panics, new_mem_filesystem, write_file, symlink, remove,
  remove_all,
}
use datarhei_core.Io.Mem.Tree.{mkdir_all}
use datarhei_core.Io.Mem.Purge.{purge, purge-Purges}
use datarhei_core.Io.Mem.Invariant.{Inv}
use datarhei_core.Io.Mem.Writes.{new_mem_filesystem-Inv, write_file-Inv, remove-Inv}
use datarhei_core.Io.Mem.Links.{Keeps, symlink-Keeps, mkdir_all-Keeps}

-- The time of a call is its first argument.
pub data Call : Type 0 where
  writes : ℕ → Bytes → Bytes → Call
  symlinks : ℕ → Bytes → Bytes → Call
  makes : ℕ → Bytes → Call
  removes : Bytes → Call
  removes_all : Call
  purges : ℤ → Call

-- The state after a call: a failed one changes nothing.
unfoldable pub after : Result (Unit {0}) → MemFilesystem → MemFilesystem
after (ok u fs') fs = fs'
after (err e) fs = fs
after panics fs = fs

unfoldable pub step : Call → MemFilesystem → MemFilesystem
unfolding after
step (writes now path c) fs = (write_file path c now fs).0
step (symlinks now old new) fs = after (symlink old new now fs) fs
step (makes now path) fs = after (mkdir_all path now fs) fs
step (removes path) fs = (remove path fs).0
step removes_all fs = (remove_all fs).0
step (purges size) fs = (purge size fs).0

unfoldable pub run : List Call → MemFilesystem → MemFilesystem
run [] fs = fs
run (c ∷ cs) fs = run cs (step c fs)

after-Inv : (r : Result (Unit {0})) (fs : MemFilesystem) → Keeps r → Inv fs → Inv (after r fs)
unfolding after Keeps
after-Inv (ok u fs') fs k i = k
after-Inv (err e) fs k i = i
after-Inv panics fs k i = i

step-Inv : (c : Call) (fs : MemFilesystem) → Inv fs → Inv (step c fs)
unfolding step remove_all new_mem_filesystem
step-Inv (writes now path c) fs i = write_file-Inv path c now fs i
step-Inv (symlinks now old new) fs i =
    after-Inv (symlink old new now fs) fs (symlink-Keeps old new now fs i) i
step-Inv (makes now path) fs i =
    after-Inv (mkdir_all path now fs) fs (mkdir_all-Keeps path now fs i) i
step-Inv (removes path) fs i = remove-Inv path fs i
step-Inv removes_all fs i = new_mem_filesystem-Inv
step-Inv (purges size) fs i = (purge-Purges size fs i).kept

steps-Inv : (cs : List Call) (fs : MemFilesystem) → Inv fs → Inv (run cs fs)
unfolding run
steps-Inv [] fs i = i
steps-Inv (c ∷ cs) fs i = steps-Inv cs (step c fs) (step-Inv c fs i)

-- Any sequence of writes, symbolic links, new directories, removals, removals of everything and
-- purges on a new filesystem leaves one that meets `Inv`: one entry for a path, a size that is the
-- sum of the recorded sizes, and each file with its path as name, the length of its content as
-- recorded size, and no size if it is a link.
pub run-Inv : (cs : List Call) → Inv (run cs new_mem_filesystem)
run-Inv cs = steps-Inv cs new_mem_filesystem new_mem_filesystem-Inv
