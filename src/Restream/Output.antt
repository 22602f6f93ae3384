-- ===== src/Restream/Output.antt =====
-- `validateInputAddress` and `validateOutputAddress` of restream/restream.go. What net/url,
-- the validators of FFmpeg and `filepath.Abs` say of an address are arguments.
use datarhei_core.Prelude.{
  ℕ, zero, suc, Bool, true, false, ◌||◌, ◌&&◌, not, List, [], ◌∷◌, ◌++◌, ◌==◌, if◌then◌else◌,
  Option, none, some,
}
use datarhei_core.Io.Path.{Bytes}
use datarhei_core.Restream.{has_prefix, drop, contains}

-- `url.HasScheme` and `url.Validate`, the two validators of FFmpeg, and `filepath.Abs`, which gives
-- the empty text with an error (`none`).
pub record Checks : Type 0 where
  pub has_scheme : Bytes → Bool
  pub is_url : Bytes → Bool
  pub input_allowed : Bytes → Bool
  pub output_allowed : Bytes → Bool
  pub abs : Bytes → Option Bytes

-- An address as it is used and whether it is a file, or an error with the address.
pub data Checked : Type 0 where
  accepted : Bytes → Bool → Checked
  refused : Bytes → Checked

abbrev pub file_prefix : Bytes
file_prefix = b'f' ∷ b'i' ∷ b'l' ∷ b'e' ∷ b':' ∷ []

abbrev pub dev_prefix : Bytes
dev_prefix = b'/' ∷ b'd' ∷ b'e' ∷ b'v' ∷ b'/' ∷ []

abbrev pub pipe_address : Bytes
pipe_address = b'p' ∷ b'i' ∷ b'p' ∷ b'e' ∷ b':' ∷ []

-- `strings.TrimPrefix(address, "file:")`
unfoldable pub trim_file : Bytes → Bytes
unfolding has_prefix drop
trim_file a = if has_prefix a file_prefix then drop 5 a else a

-- `address == "-"`
abbrev pub is_dash : Bytes → Bool
is_dash (x ∷ []) = x == b'-'
is_dash _ = false

abbrev pub starts_bracket : Bytes → Bool
starts_bracket (x ∷ xs) = x == b'['
starts_bracket [] = false

unfoldable pub cons_part : ℕ → List Bytes → List Bytes
cons_part c [] = (c ∷ []) ∷ []
cons_part c (p ∷ ps) = (c ∷ p) ∷ ps

-- `strings.Split(address, "|")`
unfoldable pub split_bars : Bytes → List Bytes
unfolding cons_part
split_bars [] = [] ∷ []
split_bars (c ∷ cs) = let rest = split_bars cs in if c == b'|' then [] ∷ rest else cons_part c rest

-- `strings.Join(addresses, "|")`
unfoldable pub join_bars : List Bytes → Bytes
join_bars [] = []
join_bars (p ∷ []) = p
join_bars (p ∷ q ∷ ps) = p ++ b'|' ∷ join_bars (q ∷ ps)

unfoldable pub cons_close : ℕ → Option (Bytes × Bytes) → Option (Bytes × Bytes)
cons_close c none = none
cons_close c (some (o, r)) = some (c ∷ o, r)

-- A text up to its first "]", and the rest.
unfoldable pub to_close : Bytes → Option (Bytes × Bytes)
unfolding cons_close
to_close [] = none
to_close (c ∷ cs) =
    let rest = to_close cs in if c == b']' then some (c ∷ [], cs) else cons_close c rest

-- The match of `^\[[^\]]*\]` and what is left without it.
unfoldable pub tee_options : Bytes → Bytes × Bytes
unfolding to_close
tee_options a =
    if starts_bracket a then elim (to_close a) [ none ↦ ([], a) | some p ↦ p ] else ([], a)

module _ (checks : Checks) where
  -- `validateInputAddress`
  unfoldable pub validate_input_address : Bytes → Checked
  validate_input_address a =
      if checks.has_scheme a && not (checks.is_url a)
      then refused a
      else if not (checks.input_allowed a)
      then refused a
      else accepted a false

  -- A path, as `filepath.Abs` gives it.
  unfoldable pub validate_path : Bytes → Bytes → Checked
  unfolding has_prefix
  validate_path base a =
      if has_prefix a dev_prefix
      then if checks.output_allowed (file_prefix ++ a)
        then accepted (file_prefix ++ a) false
        else refused a
      else if not (has_prefix a base)
      then refused a
      else if not (checks.output_allowed (file_prefix ++ a))
      then refused a
      else accepted (file_prefix ++ a) true

  unfoldable pub validate_url : Bytes → Checked
  validate_url a =
      if not (checks.is_url a)
      then refused a
      else if not (checks.output_allowed a)
      then refused a
      else accepted a false

  -- An address that is not for the tee muxer.
  unfoldable pub validate_plain : Bytes → Bytes → Checked
  unfolding trim_file validate_path validate_url
  validate_plain base a =
      if checks.has_scheme (trim_file a)
      then validate_url (trim_file a)
      else if is_dash (trim_file a)
      then accepted pipe_address false
      else elim (checks.abs (trim_file a)) [ none ↦ refused [] | some p ↦ validate_path base p ]

-- The loop over the parts of an address for the tee muxer: the parts as they are used and whether
-- one is a file, or that one is refused. `none`: a call does not return.
pub data Parts : Type 0 where
  all_accepted : List Bytes → Bool → Parts
  one_refused : Parts

unfoldable pub add_part : Bytes → Bytes → Bool → Parts → Parts
add_part options va file (all_accepted ps is_file) =
    all_accepted ((options ++ va) ∷ ps) (file || is_file)
add_part options va file one_refused = one_refused

unfoldable pub add_rest : Bytes → Bytes → Bool → Option Parts → Option Parts
unfolding add_part
add_rest options va file none = none
add_rest options va file (some parts) = some (add_part options va file parts)

-- What the loop makes of the result for a part, and of the rest if it goes on.
unfoldable pub and_rest : Bytes → Option Checked → Option Parts → Option Parts
unfolding add_rest
and_rest options none rest = none
and_rest options (some (refused a)) rest = some one_refused
and_rest options (some (accepted va file)) rest = add_rest options va file rest

unfoldable pub check_parts : (Bytes → Option Checked) → List Bytes → Option Parts
unfolding tee_options and_rest
check_parts check [] = some (all_accepted [] false)
check_parts check (p ∷ ps) =
    and_rest (tee_options p).0 (check (tee_options p).1) (check_parts check ps)

abbrev pub of_parts : Bytes → Option Parts → Option Checked
of_parts a none = none
of_parts a (some one_refused) = some (refused a)
of_parts a (some (all_accepted ps file)) = some (accepted (join_bars ps) file)

-- `validateOutputAddress`, on fuel: it calls itself for the parts of an address of the tee muxer.
-- `none`: the fuel is used up.
unfoldable pub validate_output_address : Checks → ℕ → Bytes → Bytes → Option Checked
unfolding contains split_bars check_parts validate_plain join_bars
validate_output_address checks zero base a = none
validate_output_address checks (suc n) base a =
    let recurse = validate_output_address checks n base in
    if contains b'|' a || starts_bracket a
    then of_parts a (check_parts recurse (split_bars a))
    else some (validate_plain checks base a)
