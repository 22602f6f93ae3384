-- ===== src/Restream/Inside.antt =====
-- What `validateOutputAddress` of restream/restream.go says of addresses that are not for the tee
-- muxer.
use datarhei_core.Prelude.{
  ℕ, suc, ◌≡◌, ◌≢◌, refl, ap, ◌⊎◌, inl, inr, true, false, not, ◌||◌, ◌++◌, ◌∷◌, [], ◌==◌, none,
  some, All, if-cases, some-cases, Bool-cases, if_false, arith,
}
use datarhei_core.Io.Path.{Bytes}
use datarhei_core.Restream.{has_prefix, contains}
use datarhei_core.Restream.Prefix.{
  Begins, has_prefix-drop, has_prefix-Begins, has_prefix-not_Begins, contains_of_All,
}
use datarhei_core.Restream.Output.{
  Checks, Checked, accepted, refused, file_prefix, dev_prefix, trim_file, is_dash, starts_bracket,
  validate_path, validate_url, validate_plain, validate_output_address,
}

-- "file:", "/dev/", "pipe:" and "-"
abbrev pub file_text : Bytes
file_text = b'f' ∷ b'i' ∷ b'l' ∷ b'e' ∷ b':' ∷ []

abbrev pub dev_text : Bytes
dev_text = b'/' ∷ b'd' ∷ b'e' ∷ b'v' ∷ b'/' ∷ []

abbrev pub pipe_text : Bytes
pipe_text = b'p' ∷ b'i' ∷ b'p' ∷ b'e' ∷ b':' ∷ []

abbrev pub dash : Bytes
dash = b'-' ∷ []

-- An address, and the same without "file:" in front.
pub data Trims : Bytes → Bytes → Type 0 where
  trimmed : (a b : Bytes) → a ≡ file_text ++ b → Trims a b
  untouched : (a : Bytes) → ¬ Begins file_text a → Trims a a

-- What is said of an absolute path.
pub data PathAnswer (checks : Checks) (base p : Bytes) : Checked → Type 0 where
  device :
      Begins dev_text p
      → checks.output_allowed (file_text ++ p) ≡ true
      → PathAnswer checks base p (accepted (file_text ++ p) false)
  inside :
      ¬ Begins dev_text p
      → Begins base p
      → checks.output_allowed (file_text ++ p) ≡ true
      → PathAnswer checks base p (accepted (file_text ++ p) true)
  forbidden_path :
      Begins dev_text p ⊎ Begins base p
      → checks.output_allowed (file_text ++ p) ≡ false
      → PathAnswer checks base p (refused p)
  outside : ¬ Begins dev_text p → ¬ Begins base p → PathAnswer checks base p (refused p)

-- What is said of an address without "file:" in front.
pub data Answer (checks : Checks) (base a : Bytes) : Checked → Type 0 where
  url :
      checks.has_scheme a ≡ true
      → checks.is_url a ≡ true
      → checks.output_allowed a ≡ true
      → Answer checks base a (accepted a false)
  invalid_url :
      checks.has_scheme a ≡ true → checks.is_url a ≡ false → Answer checks base a (refused a)
  forbidden_url :
      checks.has_scheme a ≡ true
      → checks.is_url a ≡ true
      → checks.output_allowed a ≡ false
      → Answer checks base a (refused a)
  pipe : checks.has_scheme a ≡ false → a ≡ dash → Answer checks base a (accepted pipe_text false)
  no_path :
      checks.has_scheme a ≡ false
      → a ≢ dash
      → checks.abs a ≡ none
      → Answer checks base a (refused [])
  path :
      (p : Bytes) (c : Checked)
      → checks.has_scheme a ≡ false
      → a ≢ dash
      → checks.abs a ≡ some p
      → PathAnswer checks base p c
      → Answer checks base a c

pub record Decided (checks : Checks) (base a : Bytes) (c : Checked) : Type 0 where
  pub address : Bytes
  pub trims : Trims a address
  pub answer : Answer checks base address c

trim_file-Trims : (a : Bytes) → Trims a (trim_file a)
unfolding trim_file
trim_file-Trims a =
    if-cases (Trims a) (has_prefix a file_prefix) _ _
      (λ h. trimmed a _ (has_prefix-drop a file_prefix h))
      (λ h. untouched a (has_prefix-not_Begins a file_prefix h))

is_dash-eq : (a : Bytes) → is_dash a ≡ true → a ≡ dash
is_dash-eq [] h = cc h
is_dash-eq (x ∷ []) h = let e : x ≡ b'-' = ground arith in ap (λ y. y ∷ []) e
is_dash-eq (x ∷ y ∷ zs) h = cc h

is_dash-ne : (a : Bytes) → is_dash a ≡ false → a ≢ dash
is_dash-ne a h e = let d : is_dash a ≡ true = ap is_dash e in cc (h, d)

starts_bracket-ne : (a : Bytes) → ((rest : Bytes) → a ≢ b'[' ∷ rest) → starts_bracket a ≡ false
starts_bracket-ne [] h = refl
starts_bracket-ne (x ∷ xs) h = elim (Bool-cases (x == b'[')) [
  | inl e ↦ absurd (h xs (let f : x ≡ b'[' = ground arith in ap (λ y. y ∷ xs) f))
  | inr e ↦ e
]

module _ (checks : Checks) (base : Bytes) where
  validate_url-Answer :
      (a : Bytes) → checks.has_scheme a ≡ true → Answer checks base a (validate_url checks a)
  unfolding validate_url
  validate_url-Answer a h =
      if-cases (Answer checks base a) (not (checks.is_url a)) _ _
        (λ e. invalid_url h (ground arith))
        (λ e.
          if-cases (Answer checks base a) (not (checks.output_allowed a)) _ _
            (λ f. forbidden_url h (ground arith) (ground arith))
            (λ f. url h (ground arith) (ground arith)))

  validate_path-PathAnswer : (p : Bytes) → PathAnswer checks base p (validate_path checks base p)
  unfolding validate_path
  validate_path-PathAnswer p =
      if-cases (PathAnswer checks base p) (has_prefix p dev_prefix) _ _
        (λ d.
          let dev = has_prefix-Begins p dev_prefix d in
          if-cases (PathAnswer checks base p) (checks.output_allowed (file_prefix ++ p)) _ _
            (λ e. device dev e) (λ e. forbidden_path (inl dev) e))
        (λ d.
          let not_dev = has_prefix-not_Begins p dev_prefix d in
          if-cases (PathAnswer checks base p) (not (has_prefix p base)) _ _
            (λ e. outside not_dev (has_prefix-not_Begins p base (ground arith)))
            (λ e.
              let within = has_prefix-Begins p base (ground arith) in
              if-cases (PathAnswer checks base p) (not (checks.output_allowed (file_prefix ++ p))) _
                _ (λ f. forbidden_path (inr within) (ground arith))
                (λ f. inside not_dev within (ground arith))))

  validate_plain-Decided : (a : Bytes) → Decided checks base a (validate_plain checks base a)
  unfolding validate_plain
  validate_plain-Decided a = record {
    address = trim_file a;
    trims = trim_file-Trims a;
    answer =
        if-cases (Answer checks base (trim_file a)) (checks.has_scheme (trim_file a)) _ _
          (λ e. validate_url-Answer (trim_file a) e)
          (λ e.
            if-cases (Answer checks base (trim_file a)) (is_dash (trim_file a)) _ _
              (λ d. pipe e (is_dash-eq (trim_file a) d))
              (λ d.
                let n = is_dash-ne (trim_file a) d in
                some-cases (Answer checks base (trim_file a)) (checks.abs (trim_file a)) _ _
                  (λ f. no_path e n f) (λ p f. path p _ e n f (validate_path-PathAnswer p))));
  }

  -- For an address without "|" that does not begin with "[", `validateOutputAddress` returns, and
  -- what it returns is exactly this, of the address without a "file:" in front. If the address has
  -- a scheme, it is accepted as it is if it is a URL that FFmpeg's validator allows, and refused
  -- otherwise. "-" without a scheme is accepted as "pipe:". Any other address is refused if it has
  -- no absolute path, or if this path begins neither with "/dev/" nor with the base, or if the
  -- validator does not allow "file:" and the path; otherwise this is what is accepted, and it
  -- counts as a file unless the path begins with "/dev/".
  pub validate_output_address-Decided :
      (n : ℕ) (a : Bytes)
      → All (λ c. c ≢ b'|') a
      → ((rest : Bytes) → a ≢ b'[' ∷ rest)
      → (c : Checked) × (validate_output_address checks (suc n) base a ≡ some c)
        × Decided checks base a c
  unfolding validate_output_address
  validate_output_address-Decided n a bars bracket =
      let plain : (contains b'|' a || starts_bracket a) ≡ false =
        ground (arith, contains_of_All b'|' a bars, starts_bracket-ne a bracket) in
      (validate_plain checks base a, if_false plain _ _, validate_plain-Decided a)
