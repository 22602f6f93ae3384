-- ===== src/Io/Mem/Tree.antt =====
-- io/fs/mem.go: directories, links and the operations that take two paths.
use datarhei_core.Prelude.{
  ℕ, Bool, true, false, not, ◌&&◌, List, [], ◌∷◌, ◌++◌, Option, none, some, ite, ◌==◌,
  if◌then◌else◌,
}
use datarhei_core.Io.Path.{Bytes, Bytes-discrete, clean_path}
use datarhei_core.Io.Mem.{
  MemFile, MemFilesystem, not_exist, exist, invalid, Result, ok, err, panics, file_at, put_file,
  drop_file, add_size, sub_size, is_empty,
}

-- `strings.HasPrefix`
unfoldable pub has_prefix : Bytes → Bytes → Bool
has_prefix s [] = true
has_prefix [] (c ∷ p) = false
has_prefix (d ∷ s) (c ∷ p) = let rest = has_prefix s p in if d == c then rest else false

ends_in_slash : Bytes → Bool
ends_in_slash [] = false
ends_in_slash (c ∷ []) = c == b'/'
ends_in_slash (c ∷ d ∷ s) = ends_in_slash (d ∷ s)

is_root : Bytes → Bool
is_root (c ∷ []) = c == b'/'
is_root _ = false

any_below : Bytes → List (Bytes × MemFile) → Bool
any_below path [] = false
any_below path ((k, f) ∷ m) =
    let rest = any_below path m in if has_prefix k path then true else rest

-- `isDir`
unfoldable pub is_dir : Bytes → MemFilesystem → Bool
unfolding ends_in_slash is_root any_below
is_dir path fs = elim (file_at path fs) [
  | some f ↦ f.is_directory
  | none ↦
      let p = if ends_in_slash path then path else path ++ b'/' ∷ [] in
      if is_root p then true else any_below p fs.files
]

-- `memFileInfo`
pub record FileInfo : Type 0 where
  pub name : Bytes
  pub size : ℕ
  pub is_directory : Bool
  pub last_mod : ℕ
  pub link_to : Bytes

abbrev pub info_of : MemFile → FileInfo
info_of f = record {
  name = f.name;
  size = f.size;
  is_directory = f.is_directory;
  last_mod = f.last_mod;
  link_to = f.link_to;
}

unfoldable pub stat_file : MemFile → MemFilesystem → Option FileInfo
stat_file f fs = if is_empty f.link_to then some (info_of f) else (elim (file_at f.link_to fs) [
  | none ↦ none
  | some g ↦ some (record (info_of f) { last_mod = g.last_mod; size = g.size })
])

-- `stat`, on a clean path: `none` is ErrNotExist
unfoldable pub stat_clean : Bytes → ℕ → MemFilesystem → Option FileInfo
unfolding stat_file is_empty
stat_clean path now fs = elim (file_at path fs) [
  | some f ↦ stat_file f fs
  | none ↦
      if is_dir path fs
      then some
          (record { name = path; size = 0; is_directory = true; last_mod = now; link_to = [] })
      else none
]

-- `Stat`
pub stat : Bytes → ℕ → MemFilesystem → Option FileInfo
stat path now fs = stat_clean (clean_path path) now fs

-- `MkdirAll`
unfoldable pub mkdir_all : Bytes → ℕ → MemFilesystem → Result (Unit {0})
mkdir_all path now fs =
    let p = clean_path path in
    elim (stat_clean p now fs) [
      | some i ↦ if i.is_directory then ok tt fs else err exist
      | none ↦ ok tt (
          put_file p
            (record {
              name = p;
              size = 0;
              is_directory = true;
              last_mod = now;
              link_to = [];
              content = none;
            })
            fs)
    ]

abbrev pub same_path : Bytes → Bytes → Bool
same_path p q = ite (Bytes-discrete p q) true false

-- `Rename`: the file keeps the name that it had.
unfoldable pub uncount : Option MemFile → MemFilesystem → MemFilesystem
uncount none fs = fs
uncount (some f) fs = sub_size f.size fs

unfoldable pub rename : Bytes → Bytes → MemFilesystem → Result (Unit {0})
rename src dst fs =
    let s = clean_path src in
    let d = clean_path dst in
    if same_path s d then ok tt fs else (elim (file_at s fs) [
      | none ↦ err not_exist
      | some f ↦ ok tt (drop_file s (put_file d f (uncount (file_at d fs) fs)))
    ])

-- `Copy` into the file `g`, whose content becomes `c`: its size stays as it was recorded.
unfoldable pub copy_into : Bytes → MemFile → Bytes → MemFilesystem → MemFilesystem
copy_into d g c fs = put_file d (record g { content = some c }) (add_size g.size fs)

unfoldable pub copy_over : Bytes → MemFile → Bytes → MemFilesystem → Result (Unit {0})
unfolding copy_into
copy_over d g c fs = elim g.content [
  | none ↦ panics
  | some old ↦ ok tt (copy_into d g c (sub_size g.size fs))
]

unfoldable pub copy_to : Bytes → MemFile → ℕ → Bytes → MemFilesystem → Result (Unit {0})
unfolding copy_over copy_into
copy_to d f now c fs = elim (file_at d fs) [
  | some g ↦ copy_over d g c fs
  | none ↦ ok tt (
      copy_into d
        (record {
          name = d;
          size = f.size;
          is_directory = false;
          last_mod = now;
          link_to = [];
          content = some [];
        })
        c fs)
]

unfoldable pub copy_from : MemFile → Bytes → ℕ → MemFilesystem → Result (Unit {0})
unfolding copy_to
copy_from f d now fs =
    if f.is_directory
    then err not_exist
    else if is_dir d fs
    then err invalid
    else (elim f.content [ none ↦ panics | some c ↦ copy_to d f now c fs ])

unfoldable pub copy : Bytes → Bytes → ℕ → MemFilesystem → Result (Unit {0})
unfolding copy_from
copy src dst now fs =
    let s = clean_path src in
    let d = clean_path dst in
    if same_path s d
    then ok tt fs
    else (elim (file_at s fs) [ none ↦ err not_exist | some f ↦ copy_from f d now fs ])

-- `List`: `matches` is `glob.Match` on a pattern that is not empty.
list_files : (Bytes → Bytes → Bool) → Bytes → Bytes → List (Bytes × MemFile) → List FileInfo
unfolding is_empty
list_files matches path pattern [] = []
list_files matches path pattern ((k, f) ∷ m) =
    let rest = list_files matches path pattern m in
    if not (has_prefix f.name path)
    then rest
    else if not (is_empty pattern) && not (matches pattern f.name)
    then rest
    else if f.is_directory
    then rest
    else info_of f ∷ rest

pub list : (Bytes → Bytes → Bool) → Bytes → Bytes → MemFilesystem → List FileInfo
unfolding list_files
list matches path pattern fs = list_files matches (clean_path path) pattern fs.files
