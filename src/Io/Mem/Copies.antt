-- ===== src/Io/Mem/Copies.antt =====
-- `Copy` of io/fs/mem.go over an existing file.
use datarhei_core.Prelude.{ℕ, ◌≡◌, ◌≢◌, refl, false, some, if_neg}
use datarhei_core.Prelude.Int.{int_laws}
use datarhei_core.Prelude.Map.{lookup-insert_self}
use datarhei_core.Io.Path.{Bytes, Bytes-discrete, clean_path}
use datarhei_core.Io.Mem.{MemFile, MemFilesystem, ok, file_at, put_file, sub_size, add_size}
use datarhei_core.Io.Mem.Tree.{is_dir, copy, copy_from, copy_to, copy_over, copy_into}

copied : Bytes → Bytes → MemFile → MemFilesystem → MemFilesystem
copied d c g fs = put_file d (record g { content = some c }) (add_size g.size (sub_size g.size fs))

copied-stale :
    (d c : Bytes) (g : MemFile) (fs : MemFilesystem)
    → (file_at d (copied d c g fs) ≡ some (record g { content = some c }))
      × ((copied d c g fs).current_size ≡ fs.current_size)
unfolding copied file_at put_file add_size sub_size
copied-stale d c g fs =
    (lookup-insert_self Bytes-discrete d (record g { content = some c }) fs.files, omega int_laws)

copy_over-copied :
    (d c old : Bytes) (g : MemFile) (fs : MemFilesystem)
    → g.content ≡ some old
    → copy_over d g c fs ≡ ok tt (copied d c g fs)
unfolding copy_over copy_into copied
copy_over-copied d c old g fs gc = rw (gc, copy_over) refl

copy_to-copied :
    (d c old : Bytes) (now : ℕ) (f g : MemFile) (fs : MemFilesystem)
    → file_at d fs ≡ some g
    → g.content ≡ some old
    → copy_to d f now c fs ≡ ok tt (copied d c g fs)
unfolding copy_to
copy_to-copied d c old now f g fs e gc = rw (e, copy_to) (copy_over-copied d c old g fs gc)

is_dir-file :
    (d : Bytes) (g : MemFile) (fs : MemFilesystem)
    → file_at d fs ≡ some g
    → g.is_directory ≡ false
    → is_dir d fs ≡ false
unfolding is_dir
is_dir-file d g fs e gd = rw (e, is_dir) gd

copy_from-copied :
    (d c old : Bytes) (now : ℕ) (f g : MemFile) (fs : MemFilesystem)
    → f.is_directory ≡ false
    → f.content ≡ some c
    → file_at d fs ≡ some g
    → g.is_directory ≡ false
    → g.content ≡ some old
    → copy_from f d now fs ≡ ok tt (copied d c g fs)
unfolding copy_from
copy_from-copied d c old now f g fs fd fc e gd gc =
    rw fd (rw (is_dir-file d g fs e gd) (rw fc (copy_to-copied d c old now f g fs e gc)))

copy-copied :
    (src dst c old : Bytes) (now : ℕ) (f g : MemFile) (fs : MemFilesystem)
    → clean_path src ≢ clean_path dst
    → file_at (clean_path src) fs ≡ some f
    → f.is_directory ≡ false
    → f.content ≡ some c
    → file_at (clean_path dst) fs ≡ some g
    → g.is_directory ≡ false
    → g.content ≡ some old
    → copy src dst now fs ≡ ok tt (copied (clean_path dst) c g fs)
unfolding copy
copy-copied src dst c old now f g fs n e fd fc e' gd gc =
    rw (if_neg (Bytes-discrete (clean_path src) (clean_path dst)) n)
      (rw e (copy_from-copied (clean_path dst) c old now f g fs fd fc e' gd gc))

-- `Copy` of a file with a content over another file with a content at another path, where neither
-- is a directory, replaces the content, but leaves the recorded size of the file and the size of
-- the filesystem as they were.
pub copy-stale :
    (src dst c old : Bytes) (now : ℕ) (f g : MemFile) (fs : MemFilesystem)
    → clean_path src ≢ clean_path dst
    → file_at (clean_path src) fs ≡ some f
    → f.is_directory ≡ false
    → f.content ≡ some c
    → file_at (clean_path dst) fs ≡ some g
    → g.is_directory ≡ false
    → g.content ≡ some old
    → (fs' : MemFilesystem) × (copy src dst now fs ≡ ok tt fs')
      × (file_at (clean_path dst) fs' ≡ some (record g { content = some c }))
      × (fs'.current_size ≡ fs.current_size)
copy-stale src dst c old now f g fs n e fd fc e' gd gc =
    let (here, size) = copied-stale (clean_path dst) c g fs in
    (
      copied (clean_path dst) c g fs,
      copy-copied src dst c old now f g fs n e fd fc e' gd gc,
      here,
      size,
    )
