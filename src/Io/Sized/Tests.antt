-- ===== src/Io/Sized/Tests.antt =====
-- A limit of five bytes (io/fs/sized.go) for the filesystem in memory (io/fs/mem.go).
use datarhei_core.Prelude.{◌≡◌, refl, [], ◌∷◌, some, inl, true, false, arith, subst}
use datarhei_core.Prelude.Int.{pos, ◌+ℤ◌, int_laws}
use datarhei_core.Prelude.Map.{lookup, delete, insert}
use datarhei_core.Io.Path.{Bytes, Bytes-discrete, clean_path}
use datarhei_core.Io.Mem.{
  MemFilesystem, file_at, put_file, add_size, forget, write_file, new_file, new_mem_filesystem,
}
use datarhei_core.Io.Mem.Purge.{purge}
use datarhei_core.Io.Mem.Invariant.{Inv}
use datarhei_core.Io.Mem.Writes.{new_mem_filesystem-Inv, write_file-Inv}
use datarhei_core.Io.Sized
use datarhei_core.Io.Sized.{SizedFilesystem, no_space}
use datarhei_core.Io.Sized.Bounds.{IsWithin, write-IsWithin, write-refuses_after_purge}
use datarhei_core.Io.Sized.Instance.{mem, mem-IsFilesystem}

abbrev path_a : Bytes
path_a = b'/' ∷ b'a' ∷ []

-- One file of three bytes.
abbrev stored : MemFilesystem
stored = record {
  files =
      (
        path_a,
        record {
          name = path_a;
          size = 3;
          is_directory = false;
          last_mod = 7;
          link_to = [];
          content = some (1 ∷ 2 ∷ 3 ∷ []);
        },
      )
      ∷ [];
  current_size = pos 3;
}

written : (write_file path_a (1 ∷ 2 ∷ 3 ∷ []) 7 new_mem_filesystem).0 ≡ stored
unfolding new_mem_filesystem write_file file_at put_file add_size forget clean_path lookup delete
    insert Bytes-discrete ◌+ℤ◌ new_file
written = refl

stored-Inv : Inv stored
stored-Inv =
    subst Inv written
      (write_file-Inv path_a (1 ∷ 2 ∷ 3 ∷ []) 7 new_mem_filesystem new_mem_filesystem-Inv)

abbrev five : SizedFilesystem MemFilesystem
five = record { inner = stored; max_size = pos 5; purges = true }

five-IsWithin : IsWithin mem Inv mem-IsFilesystem five
five-IsWithin = record { good = stored-Inv; fits = omega arith }

abbrev path_b : Bytes
path_b = b'/' ∷ b'b' ∷ []

write-IsWithin_example :
    IsWithin mem Inv mem-IsFilesystem (Sized.write_file_reader mem path_b (4 ∷ 5 ∷ 6 ∷ []) 8 five).0
    × IsWithin mem Inv mem-IsFilesystem (Sized.write_file_safe mem path_b (4 ∷ 5 ∷ 6 ∷ []) 8 five).0
write-IsWithin_example =
    write-IsWithin mem Inv mem-IsFilesystem path_b (4 ∷ 5 ∷ 6 ∷ []) 8 five (omega arith)
      five-IsWithin

write-refuses_after_purge_example :
    ((Sized.write_file_reader mem path_b (4 ∷ 5 ∷ 6 ∷ 7 ∷ []) 8 five).1 ≡ inl no_space)
    × ((Sized.write_file_reader mem path_b (4 ∷ 5 ∷ 6 ∷ 7 ∷ []) 8 five).0.inner.current_size
        ≡ pos 0)
write-refuses_after_purge_example =
    write-refuses_after_purge mem Inv mem-IsFilesystem purge path_b (4 ∷ 5 ∷ 6 ∷ 7 ∷ []) 8 five refl
      refl stored-Inv (omega arith) (omega arith) (omega int_laws)
