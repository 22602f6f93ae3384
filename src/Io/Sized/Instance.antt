-- ===== src/Io/Sized/Instance.antt =====
-- The filesystem in memory (io/fs/mem.go) under a limit (io/fs/sized.go).
use datarhei_core.Prelude.{
  ℕ, ◌≡◌, refl, sym, ap, ◌∙◌, List, [], ◌∷◌, Option, none, some, length, inl, inr, arith, if_pos,
  subst,
}
use datarhei_core.Prelude.Int.{ℤ, pos, ◌+ℤ◌, ◌≤ℤ◌, int_laws}
use datarhei_core.Prelude.Map.{lookup, total, some_inj}
use datarhei_core.Io.Path.{Bytes, Bytes-discrete, clean_path}
use datarhei_core.Io.Mem.{
  MemFile, MemFilesystem, file_at, put_file, drop_file, add_size, sub_size, forget, write_file,
}
use datarhei_core.Io.Mem.Purge.{purge, purge-Purges}
use datarhei_core.Io.Mem.Invariant.{Inv, weight}
use datarhei_core.Io.Mem.Writes.{write_file-Inv}
use datarhei_core.Io.Sized.{Filesystem}
use datarhei_core.Io.Sized.Bounds.{IsWrite, IsPurge, IsFilesystem}

abbrev pub mem : Filesystem MemFilesystem
mem = record {
  current_size = λ fs. fs.current_size;
  write_file_reader = write_file;
  write_file = write_file;
  write_file_safe = write_file;
  purge = some purge;
}

forget-shrinks :
    (k : Bytes) (o : Option MemFile) (fs : MemFilesystem)
    → (forget k o fs).current_size ≤ℤ fs.current_size
unfolding forget sub_size drop_file
forget-shrinks k none fs = omega int_laws
forget-shrinks k (some f) fs = omega int_laws

write_file-grows :
    (path c : Bytes) (now : ℕ) (fs : MemFilesystem)
    → (write_file path c now fs).0.current_size ≤ℤ fs.current_size +ℤ pos (length c)
unfolding write_file put_file add_size
write_file-grows path c now fs =
    omega (int_laws, forget-shrinks (clean_path path) (file_at (clean_path path) fs) fs)

write_file-IsWrite : IsWrite mem Inv write_file
write_file-IsWrite = record {
  kept = λ path c now s i. write_file-Inv path c now s i;
  grows = λ path c now s i. write_file-grows path c now s;
}

no_files :
    (m : List (Bytes × MemFile))
    → ((q : Bytes) → lookup Bytes-discrete q m ≡ none)
    → total Bytes-discrete weight m ≡ 0
unfolding lookup total
no_files [] h = refl
no_files ((k, f) ∷ m) h = absurd (cc (sym (if_pos (Bytes-discrete k k) refl _ _) ∙ h k))

empty-size :
    (fs : MemFilesystem) → Inv fs → ((q : Bytes) → file_at q fs ≡ none) → fs.current_size ≡ pos 0
unfolding file_at
empty-size fs i h = i.sized.counted ∙ ap pos (no_files fs.files h)

plus_zero : (a : ℤ) → a +ℤ pos 0 ≡ a
plus_zero a = omega int_laws

purge-IsPurge : IsPurge mem Inv purge
purge-IsPurge = record {
  kept = λ size s i. (purge-Purges size s i).kept;
  freed = λ size s i. (purge-Purges size s i).freed ∙ plus_zero s.current_size;
  enough = λ size s i. elim (purge-Purges size s i).enough [
    | inl e ↦ inl (omega (int_laws, e))
    | inr e ↦ inr (empty-size (purge size s).0 (purge-Purges size s i).kept e)
  ];
}

pub mem-IsFilesystem : IsFilesystem mem Inv
mem-IsFilesystem = record {
  not_negative = λ s i. rw i.sized.counted (omega arith);
  reader = write_file-IsWrite;
  file = write_file-IsWrite;
  safe = write_file-IsWrite;
  purging = λ p e. subst (IsPurge mem Inv) (some_inj e) purge-IsPurge;
}
