-- ===== src/Io/Mem/Tests.antt =====
-- The filesystem in memory of io/fs/mem.go at work.
use datarhei_core.Io.Mem.History.{writes, symlinks, removes, makes, purges, run, run-Inv}
use datarhei_core.Prelude.{subst, arith, ◌≡◌, ◌≢◌, refl, [], ◌∷◌, none, some, false}
use datarhei_core.Prelude.Int.{pos, negsuc, ◌+ℤ◌, ◌-ℤ◌}
use datarhei_core.Prelude.Map.{lookup, delete, insert}
use datarhei_core.Io.Path.{Bytes, Bytes-discrete, clean_path, head_inj, tail_inj}
use datarhei_core.Io.Mem.{
  MemFile, MemFilesystem, ok, file_at, put_file, drop_file, add_size, sub_size, forget, write_file,
  new_file, new_mem_filesystem,
}
use datarhei_core.Io.Mem.Tree.{rename, uncount, copy}
use datarhei_core.Io.Mem.Invariant.{Inv, IsSized}
use datarhei_core.Io.Mem.Writes.{new_mem_filesystem-Inv, write_file-Inv}
use datarhei_core.Io.Mem.Sort.{sort, insert_by_time}
use datarhei_core.Io.Mem.Purge.{purge, purge_file, purge_loop, Purges, purge-Purges}
use datarhei_core.Io.Mem.Moves.{Renames, rename-Renames, purge_file-renamed}
use datarhei_core.Io.Mem.Copies.{copy-stale}

abbrev path_a : Bytes
path_a = b'/' ∷ b'a' ∷ []

abbrev path_b : Bytes
path_b = b'/' ∷ b'b' ∷ []

one : MemFilesystem
unfolding new_mem_filesystem
one = (write_file path_a (1 ∷ 2 ∷ 3 ∷ []) 7 new_mem_filesystem).0

two : MemFilesystem
unfolding one
two = (write_file path_b (4 ∷ []) 8 one).0

two-Inv : Inv two
unfolding two one
two-Inv =
    write_file-Inv path_b (4 ∷ []) 8 one
      (write_file-Inv path_a (1 ∷ 2 ∷ 3 ∷ []) 7 new_mem_filesystem new_mem_filesystem-Inv)

two-size : two.current_size ≡ pos 4
unfolding two one new_mem_filesystem write_file file_at put_file add_size forget clean_path lookup
    delete insert Bytes-discrete ◌+ℤ◌
two-size = refl

b_ne_a : path_b ≢ clean_path path_a
unfolding clean_path
b_ne_a e = omega (arith, head_inj (tail_inj e))

run-Inv_example : Inv (
    run
      (writes 1 path_a (1 ∷ [])
        ∷ symlinks 2 path_a path_b
        ∷ removes path_a
        ∷ makes 3 path_b
        ∷ writes 4 path_a (2 ∷ 3 ∷ [])
        ∷ purges (pos 1)
        ∷ [])
      new_mem_filesystem)
run-Inv_example = run-Inv (
    writes 1 path_a (1 ∷ [])
    ∷ symlinks 2 path_a path_b
    ∷ removes path_a
    ∷ makes 3 path_b
    ∷ writes 4 path_a (2 ∷ 3 ∷ [])
    ∷ purges (pos 1)
    ∷ [])

purge-Purges_example : Purges (pos 2) 0 two (purge (pos 2) two)
purge-Purges_example = purge-Purges (pos 2) two two-Inv

abbrev file_a : MemFile
file_a = record {
  name = path_a;
  size = 3;
  is_directory = false;
  last_mod = 7;
  link_to = [];
  content = some (1 ∷ 2 ∷ 3 ∷ []);
}

abbrev file_b : MemFile
file_b = record {
  name = path_b;
  size = 1;
  is_directory = false;
  last_mod = 8;
  link_to = [];
  content = some (4 ∷ []);
}

abbrev plain : MemFilesystem
plain = record { files = (path_b, file_b) ∷ (path_a, file_a) ∷ []; current_size = pos 4 }

program : Unit {0}
unfolding two one new_mem_filesystem write_file file_at put_file add_size forget clean_path lookup
    delete insert Bytes-discrete ◌+ℤ◌ new_file
program = tt

two-plain : two ≡ plain
unfolding program
two-plain = refl

plain-Inv : Inv plain
plain-Inv = subst Inv two-plain two-Inv

a_ne_b : clean_path path_a ≢ clean_path path_b
unfolding clean_path
a_ne_b e = omega (arith, head_inj (tail_inj e))

a_found : file_at (clean_path path_a) plain ≡ some file_a
unfolding program
a_found = refl

b_found : file_at (clean_path path_b) plain ≡ some file_b
unfolding program
b_found = refl

rename-Renames_example :
    (fs' : MemFilesystem) × (rename path_a path_b plain ≡ ok tt fs')
    × IsSized fs'
    × Renames (clean_path path_a) (clean_path path_b) file_a plain fs'
rename-Renames_example = rename-Renames path_a path_b file_a plain a_ne_b plain-Inv.sized a_found

-- The same files after `Rename("/a", "/c")`.
abbrev moved : MemFilesystem
moved = record { files = (b'/' ∷ b'c' ∷ [], file_a) ∷ (path_b, file_b) ∷ []; current_size = pos 4 }

moved_by_rename : rename path_a (b'/' ∷ b'c' ∷ []) plain ≡ ok tt moved
unfolding program rename uncount drop_file sub_size ◌-ℤ◌
moved_by_rename = refl

-- Two purges of everything take the three bytes of the renamed file away twice.
purged_twice : (purge (pos 9) (purge (pos 9) moved).0).0.current_size ≡ negsuc 2
unfolding program purge purge_loop purge_file sort insert_by_time sub_size drop_file ◌-ℤ◌
purged_twice = refl

c_found : file_at (b'/' ∷ b'c' ∷ []) moved ≡ some file_a
unfolding program
c_found = refl

a_ne_c : file_a.name ≢ b'/' ∷ b'c' ∷ []
a_ne_c e = omega (arith, head_inj (tail_inj e))

purge_file-renamed_example :
    (file_at (b'/' ∷ b'c' ∷ []) (purge_file (b'/' ∷ b'c' ∷ []) file_a moved)
      ≡ some (record file_a { content = none }))
    × ((purge_file (b'/' ∷ b'c' ∷ []) file_a moved).current_size ≡ pos 4 -ℤ pos 3)
purge_file-renamed_example = purge_file-renamed (b'/' ∷ b'c' ∷ []) file_a moved c_found a_ne_c

copy-stale_example :
    (fs' : MemFilesystem) × (copy path_a path_b 9 plain ≡ ok tt fs')
    × (file_at (clean_path path_b) fs' ≡ some (record file_b { content = some (1 ∷ 2 ∷ 3 ∷ []) }))
    × (fs'.current_size ≡ pos 4)
copy-stale_example =
    copy-stale path_a path_b (1 ∷ 2 ∷ 3 ∷ []) (4 ∷ []) 9 file_a file_b plain a_ne_b a_found refl
      refl b_found refl refl
