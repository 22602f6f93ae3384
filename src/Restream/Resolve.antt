-- ===== src/Restream/Resolve.antt =====
-- `resolveAddresses` and `resolveAddress` of restream/restream.go. The outputs of the other
-- processes are an argument.
use datarhei_core.Prelude.{
  ℕ, ◌&&◌, not, List, [], ◌∷◌, ◌==◌, if◌then◌else◌, Option, none, some, ◌⊎◌, inl, inr, ite,
}
use datarhei_core.Io.Path.{Bytes, Bytes-discrete}
use datarhei_core.Restream.{ConfigIo, has_prefix, drop}
use datarhei_core.Restream.Validate.{
  Error, empty_address, invalid_reference, self_reference, unknown_reference, unknown_output,
  is_nil,
}

abbrev pub output_marker : Bytes
output_marker = b':' ∷ b'o' ∷ b'u' ∷ b't' ∷ b'p' ∷ b'u' ∷ b't' ∷ b'=' ∷ []

-- A text up to its first line break, which "." does not match.
unfoldable pub first_line : Bytes → Bytes
first_line [] = []
first_line (c ∷ cs) = let rest = first_line cs in if c == 10 then [] else c ∷ rest

unfoldable pub cons_match : ℕ → Bytes × Bytes → Bytes × Bytes
cons_match c m = (c ∷ m.0, m.1)

unfoldable pub match_here : ℕ → Bytes → Option (Bytes × Bytes)
unfolding has_prefix drop first_line
match_here c cs =
    if has_prefix cs output_marker && not (is_nil (first_line (drop 8 cs)))
    then some (c ∷ [], first_line (drop 8 cs))
    else none

-- The groups of `(.+):output=(.+)`: the first is as long as it can be.
unfoldable pub match_reference : Bytes → Option (Bytes × Bytes)
unfolding cons_match match_here
match_reference [] = none
match_reference (c ∷ cs) =
    let longer = match_reference cs in
    if c == 10
    then none
    else elim longer [ none ↦ match_here c cs | some m ↦ some (cons_match c m) ]

-- The address of the output with an identifier.
unfoldable pub find_output : Bytes → List ConfigIo → Error ⊎ Bytes
unfolding Bytes-discrete
find_output id [] = inl unknown_output
find_output id (io ∷ ios) =
    let rest = find_output id ios in ite (Bytes-discrete io.id id) (inr io.address) rest

module _ (outputs_of : Bytes → Option (List ConfigIo)) (id : Bytes) where
  -- A reference to an output of a process.
  unfoldable pub resolve_match : Bytes → Bytes → Error ⊎ Bytes
  unfolding find_output Bytes-discrete
  resolve_match process output =
      ite (Bytes-discrete process id) (inl self_reference) (elim (outputs_of process) [
        | none ↦ inl unknown_reference
        | some ios ↦ find_output output ios
      ])

  unfoldable pub resolve_reference : Bytes → Error ⊎ Bytes
  unfolding match_reference resolve_match
  resolve_reference a = elim (match_reference a) [
    | none ↦ inl invalid_reference
    | some m ↦ resolve_match m.0 m.1
  ]

  -- `resolveAddress`
  unfoldable pub resolve_address : Bytes → Error ⊎ Bytes
  unfolding resolve_reference
  resolve_address [] = inl empty_address
  resolve_address (c ∷ cs) = if c == b'#' then resolve_reference cs else inr (c ∷ cs)

  abbrev pub cons_input :
      ConfigIo
      → Error ⊎ Bytes
      → List ConfigIo
      → List ConfigIo × Option Error
      → List ConfigIo × Option Error
  cons_input io (inl e) ios rest = (io ∷ ios, some e)
  cons_input io (inr a) ios rest = (record io { address = a } ∷ rest.0, rest.1)

  -- `resolveAddresses`, of the inputs of a configuration: the inputs up to an error are resolved.
  unfoldable pub resolve_addresses : List ConfigIo → List ConfigIo × Option Error
  unfolding resolve_address
  resolve_addresses [] = ([], none)
  resolve_addresses (io ∷ ios) =
      cons_input io (resolve_address io.address) ios (resolve_addresses ios)
