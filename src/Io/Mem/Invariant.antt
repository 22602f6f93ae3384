-- ===== src/Io/Mem/Invariant.antt =====
-- What holds of the filesystem in memory (io/fs/mem.go) between two calls, as long as no file is
-- renamed and none is copied over another.
use datarhei_core.Prelude.{false}
use datarhei_core.Io.Mem.{is_empty}
use datarhei_core.Prelude.Map.{lookup-delete_self, lookup-delete_ne}
use datarhei_core.Prelude.{ℕ, ◌≡◌, ◌≢◌, refl, ap, subst, inl, inr, Option, none, some, length}
use datarhei_core.Prelude.Int.{pos, int_laws}
use datarhei_core.Prelude.Map.{
  IsMap, total, total-insert, total-delete, delete_absent, delete-IsMap, insert-IsMap,
  lookup-delete_inv, lookup-insert_inv,
}
use datarhei_core.Io.Path.{Bytes, Bytes-discrete}
use datarhei_core.Io.Mem.{
  MemFile, MemFilesystem, file_at, put_file, drop_file, add_size, sub_size, forget, content_of,
}

abbrev pub weight : MemFile → ℕ
weight f = f.size

abbrev pub sum : MemFilesystem → ℕ
sum fs = total Bytes-discrete weight fs.files

-- The recorded sizes add up to the size of the filesystem.
pub record IsSized (fs : MemFilesystem) : Type 0 where
  pub one_each : IsMap Bytes-discrete fs.files
  pub counted : fs.current_size ≡ pos (sum fs)

-- A file has its key for a name, its size is that of its content, and a link has none.
pub record IsHonest (k : Bytes) (f : MemFile) : Type 0 where
  pub named : f.name ≡ k
  pub measured : f.size ≡ length (content_of f)
  pub linked : is_empty f.link_to ≡ false → f.size ≡ 0

pub record Inv (fs : MemFilesystem) : Type 0 where
  pub sized : IsSized fs
  pub honest : (k : Bytes) (f : MemFile) → file_at k fs ≡ some f → IsHonest k f

drop-IsSized :
    (k : Bytes) (f : MemFile) (fs : MemFilesystem)
    → IsSized fs
    → file_at k fs ≡ some f
    → IsSized (sub_size f.size (drop_file k fs))
unfolding file_at drop_file sub_size
drop-IsSized k f fs s e = record {
  one_each = delete-IsMap Bytes-discrete k fs.files s.one_each;
  counted =
      rw s.counted (omega (int_laws, total-delete Bytes-discrete weight k f fs.files s.one_each e));
}

drop-IsHonest :
    (k : Bytes) (n : ℕ) (fs : MemFilesystem)
    → Inv fs
    → (j : Bytes) (g : MemFile) → file_at j (sub_size n (drop_file k fs)) ≡ some g
    → IsHonest j g
unfolding file_at drop_file sub_size
drop-IsHonest k n fs i j g h = i.honest j g (lookup-delete_inv Bytes-discrete k j g fs.files h).1

-- To take a file away with its size.
pub drop-Inv :
    (k : Bytes) (f : MemFile) (fs : MemFilesystem)
    → Inv fs
    → file_at k fs ≡ some f
    → Inv (sub_size f.size (drop_file k fs))
drop-Inv k f fs i e = record {
  sized = drop-IsSized k f fs i.sized e;
  honest = drop-IsHonest k f.size fs i;
}

pub drop_absent :
    (k : Bytes) (n : ℕ) (fs : MemFilesystem) → file_at k (sub_size n (drop_file k fs)) ≡ none
unfolding file_at drop_file sub_size
drop_absent k n fs = lookup-delete_self Bytes-discrete k fs.files

-- To add a file under a key that is free.
put-IsSized :
    (k : Bytes) (f : MemFile) (fs : MemFilesystem)
    → IsSized fs
    → file_at k fs ≡ none
    → IsSized (add_size f.size (put_file k f fs))
unfolding file_at put_file add_size
put-IsSized k f fs s e = record {
  one_each = insert-IsMap Bytes-discrete k f fs.files s.one_each;
  counted = rw s.counted (
      omega (
        int_laws,
        total-insert Bytes-discrete weight k f fs.files,
        ap (total Bytes-discrete weight) (delete_absent Bytes-discrete k fs.files e),
      ));
}

pub put-IsHonest :
    (k : Bytes) (f : MemFile) (n : ℕ) (fs : MemFilesystem)
    → Inv fs
    → IsHonest k f
    → (j : Bytes) (g : MemFile) → file_at j (add_size n (put_file k f fs)) ≡ some g
    → IsHonest j g
unfolding file_at put_file add_size
put-IsHonest k f n fs i h j g e = elim (lookup-insert_inv Bytes-discrete k j f g fs.files e) [
  | inl (p, q) ↦ subst (λ x. IsHonest j x) q (subst (λ x. IsHonest x f) p h)
  | inr (n', q) ↦ i.honest j g q
]

pub put-Inv :
    (k : Bytes) (f : MemFile) (fs : MemFilesystem)
    → Inv fs
    → file_at k fs ≡ none
    → IsHonest k f
    → Inv (add_size f.size (put_file k f fs))
put-Inv k f fs i e h = record {
  sized = put-IsSized k f fs i.sized e;
  honest = put-IsHonest k f f.size fs i h;
}

forget-cases :
    (k : Bytes) (o : Option MemFile) (fs : MemFilesystem)
    → file_at k fs ≡ o
    → Inv fs
    → Inv (forget k o fs) × (file_at k (forget k o fs) ≡ none)
unfolding forget
forget-cases k none fs e i = (i, e)
forget-cases k (some f) fs e i = (drop-Inv k f fs i e, drop_absent k f.size fs)

-- What is under a key leaves the map and the sum.
pub forget-Inv :
    (k : Bytes) (fs : MemFilesystem)
    → Inv fs
    → Inv (forget k (file_at k fs) fs) × (file_at k (forget k (file_at k fs) fs) ≡ none)
forget-Inv k fs i = forget-cases k (file_at k fs) fs refl i

pub forget_others :
    (k q : Bytes) (o : Option MemFile) (fs : MemFilesystem)
    → q ≢ k
    → file_at q (forget k o fs) ≡ file_at q fs
unfolding forget file_at drop_file sub_size
forget_others k q none fs n = refl
forget_others k q (some f) fs n = lookup-delete_ne Bytes-discrete k q fs.files n
