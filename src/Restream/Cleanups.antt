-- ===== src/Restream/Cleanups.antt =====
-- `setCleanup` and `unsetCleanup` of restream/restream.go, with the rules that restream/fs/fs.go keeps
-- (`SetCleanup` and `UnsetCleanup`). What the rules do to files is not modelled.
use datarhei_core.Prelude.{
  ℕ, Bool, ◌&&◌, List, [], ◌∷◌, ◌++◌, ◌==◌, leb, if◌then◌else◌, Option, none, some, ite,
}
use datarhei_core.Prelude.Map.{lookup, insert, delete}
use datarhei_core.Io.Path.{Bytes, Bytes-discrete}
use datarhei_core.Restream.{Cleanup, ConfigIo, Config}
use datarhei_core.Restream.Validate.{is_nil}

-- A filesystem of `fs.list`: its name, whether it is a disk, and `cleanupPatterns`.
pub record CleanupFs : Type 0 where
  pub name : Bytes
  pub is_disk : Bool
  pub cleanup_patterns : List (Bytes × List Cleanup)

cons_name : ℕ → Option (Bytes × Bytes) → Option (Bytes × Bytes)
cons_name c none = none
cons_name c (some (n, r)) = some (c ∷ n, r)

-- Lower case letters up to a colon, and the rest.
unfoldable pub to_colon : Bytes → Option (Bytes × Bytes)
unfolding cons_name
to_colon [] = none
to_colon (c ∷ cs) =
    let rest = to_colon cs in
    if c == b':' then some ([], cs) else if leb b'a' c && leb c b'z' then cons_name c rest else none

-- The match of `^([a-z]+):`, and the pattern without it.
unfoldable pub pattern_prefix : Bytes → Option (Bytes × Bytes)
unfolding to_colon
pattern_prefix p = elim (to_colon p) [ none ↦ none | some m ↦ if is_nil m.0 then none else some m ]

abbrev pub disk_name : Bytes
disk_name = b'd' ∷ b'i' ∷ b's' ∷ b'k' ∷ []

abbrev pub mem_name : Bytes
mem_name = b'm' ∷ b'e' ∷ b'm' ∷ []

-- The legacy names.
unfoldable pub current_name : Bytes → Bytes
unfolding Bytes-discrete
current_name n =
    ite (Bytes-discrete n (disk_name ++ b'f' ∷ b's' ∷ [])) disk_name
      (ite (Bytes-discrete n (mem_name ++ b'f' ∷ b's' ∷ [])) mem_name n)

abbrev pub patterns_or_nil : Option (List Cleanup) → List Cleanup
patterns_or_nil none = []
patterns_or_nil (some ps) = ps

-- `SetCleanup` with one pattern.
unfoldable pub add_pattern : Bytes → Cleanup → CleanupFs → CleanupFs
unfolding lookup insert
add_pattern id c fs = record fs {
  cleanup_patterns =
      insert Bytes-discrete id
        (patterns_or_nil (lookup Bytes-discrete id fs.cleanup_patterns) ++ c ∷ [])
        fs.cleanup_patterns;
}

-- The first filesystem with the name gets the pattern.
unfoldable pub add_to_named : Bytes → Bytes → Cleanup → List CleanupFs → List CleanupFs
unfolding add_pattern Bytes-discrete
add_to_named id name c [] = []
add_to_named id name c (fs ∷ fss) =
    let rest = add_to_named id name c fss in
    ite (Bytes-discrete fs.name name) (add_pattern id c fs ∷ fss) (fs ∷ rest)

unfoldable pub set_pattern : Bytes → Cleanup → List CleanupFs → List CleanupFs
unfolding pattern_prefix current_name add_to_named
set_pattern id c fss = elim (pattern_prefix c.pattern) [
  | none ↦ fss
  | some m ↦ add_to_named id (current_name m.0) (record c { pattern = m.1 }) fss
]

unfoldable pub set_patterns : Bytes → List Cleanup → List CleanupFs → List CleanupFs
unfolding set_pattern
set_patterns id [] fss = fss
set_patterns id (c ∷ cs) fss = set_patterns id cs (set_pattern id c fss)

unfoldable pub set_output_patterns : Bytes → List ConfigIo → List CleanupFs → List CleanupFs
unfolding set_patterns
set_output_patterns id [] fss = fss
set_output_patterns id (io ∷ ios) fss = set_output_patterns id ios (set_patterns id io.cleanup fss)

-- `setCleanup`
unfoldable pub set_cleanup : Bytes → Config → List CleanupFs → List CleanupFs
unfolding set_output_patterns
set_cleanup id c fss = set_output_patterns id c.output fss

-- `unsetCleanup`
unfoldable pub unset_cleanup : Bytes → List CleanupFs → List CleanupFs
unfolding delete
unset_cleanup id [] = []
unset_cleanup id (fs ∷ fss) =
    record fs { cleanup_patterns = delete Bytes-discrete id fs.cleanup_patterns }
    ∷ unset_cleanup id fss
