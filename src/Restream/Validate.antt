-- ===== src/Restream/Validate.antt =====
-- `validateConfig` of restream/restream.go. Its loops work on copies of the inputs and outputs:
-- the configuration stays as it is.
use datarhei_core.Prelude.{
  ℕ, suc, Bool, true, false, ◌||◌, List, [], ◌∷◌, ◌==◌, length, if◌then◌else◌, Option, none, some,
  ◌⊎◌, inl, inr, ite,
}
use datarhei_core.Io.Path.{Bytes, Bytes-discrete}
use datarhei_core.Restream.{ConfigIo, Config, trim_space}
use datarhei_core.Restream.Output.{
  Checks, Checked, accepted, refused, validate_input_address, validate_output_address,
}

-- The errors of the manager. With `stack_overflow` Go's runtime ends the program, and with
-- `port_panic` and `parser_panic` there is a panic.
pub data Error : Type 0 where
  empty_id : Error
  empty_address invalid_reference self_reference unknown_reference unknown_output : Error
  no_inputs no_outputs empty_io_id duplicate_io_id empty_io_address invalid_address : Error
  stack_overflow port_panic parser_panic no_more_ports no_ffmpeg : Error
  process_exists unknown_process still_running invalid_definition max_processes : Error
  no_playout empty_key unknown_key : Error

abbrev pub is_nil : Bytes → Bool
is_nil [] = true
is_nil (x ∷ xs) = false

-- `ids[id]`
unfoldable pub is_seen : Bytes → List Bytes → Bool
unfolding Bytes-discrete
is_seen id [] = false
is_seen id (x ∷ xs) = let rest = is_seen id xs in ite (Bytes-discrete x id) true rest

-- The base directories of the disks, or "/" without a disk.
abbrev pub bases_or_root : List Bytes → List Bytes
bases_or_root [] = (b'/' ∷ []) ∷ []
bases_or_root (b ∷ bs) = b ∷ bs

-- How many disks refuse an address, and whether one says that it is a file. Each disk is asked
-- about the address that the one before has given back.
pub record Tally : Type 0 where
  pub fails : ℕ
  pub is_file : Bool

abbrev pub tally_accepted : Bool → Option Tally → Option Tally
tally_accepted file none = none
tally_accepted file (some t) = some (record t { is_file = file || t.is_file })

abbrev pub tally_refused : Option Tally → Option Tally
tally_refused none = none
tally_refused (some t) = some (record t { fails = suc t.fails })

unfoldable pub ask_disks : (Bytes → Bytes → Option Checked) → List Bytes → Bytes → Option Tally
ask_disks check [] a = some (record { fails = 0; is_file = false })
ask_disks check (base ∷ bases) a = elim (check base a) [
  | none ↦ none
  | some r ↦ elim r [
    | accepted a' file ↦ tally_accepted file (ask_disks check bases a')
    | refused a' ↦ tally_refused (ask_disks check bases a')
  ]
]

-- The error if all disks refuse, or whether there is a file.
unfoldable pub judge : List Bytes → Option Tally → Error ⊎ Bool
judge bases none = inl stack_overflow
judge bases (some t) = if t.fails == length bases then inl invalid_address else inr t.is_file

module _ (checks : Checks) (disks : List Bytes) where
  unfoldable pub check_input : Bytes → Error ⊎ Bool
  unfolding judge ask_disks
  check_input a =
      let bases = bases_or_root disks in
      judge bases (ask_disks (λ base x. some (validate_input_address checks x)) bases a)

  -- The fuel is enough for every address on which the source returns (`Restream.Returns`).
  unfoldable pub check_output : Bytes → Error ⊎ Bool
  unfolding judge ask_disks
  check_output a =
      let bases = bases_or_root disks in
      judge bases
        (ask_disks (λ base x. validate_output_address checks (suc (suc (length x))) base x) bases a)

-- The error of the first entry that has one, or whether one of the entries is a file.
abbrev pub or_file : Error ⊎ Bool → Error ⊎ Bool → Error ⊎ Bool
or_file (inl e) rest = inl e
or_file (inr f) (inl e) = inl e
or_file (inr f) (inr g) = inr (f || g)

-- A loop over the inputs or the outputs.
unfoldable pub check_all : (Bytes → Error ⊎ Bool) → List Bytes → List ConfigIo → Error ⊎ Bool
unfolding is_seen trim_space
check_all check seen [] = inr false
check_all check seen (io ∷ ios) =
    let id = trim_space io.id in
    let address = trim_space io.address in
    let rest = check_all check (id ∷ seen) ios in
    if is_nil id
    then inl empty_io_id
    else if is_seen id seen
    then inl duplicate_io_id
    else if is_nil address
    then inl empty_io_address
    else or_file (check address) rest

unfoldable pub check_outputs : Checks → List Bytes → Config → Error ⊎ Bool
unfolding check_all check_output
check_outputs checks disks c = elim c.output [
  | [] ↦ inl no_outputs
  | io ∷ ios ↦ check_all (check_output checks disks) [] (io ∷ ios)
]

unfoldable pub validate_config : Checks → List Bytes → Config → Error ⊎ Bool
unfolding check_all check_input check_outputs
validate_config checks disks c = elim c.input [
  | [] ↦ inl no_inputs
  | io ∷ ios ↦ elim (check_all (check_input checks disks) [] (io ∷ ios)) [
    | inl e ↦ inl e
    | inr file ↦ check_outputs checks disks c
  ]
]
