-- ===== src/Restream/Returns.antt =====
-- When `validateOutputAddress` of restream/restream.go returns.
use datarhei_core.Prelude.{
  ℕ, zero, suc, ◌<◌, ◌≤◌, ◌≡◌, refl, sym, ap, ap₂, subst, ◌∙◌, Bool, true, false, ◌||◌, ◌&&◌, List,
  [], ◌∷◌, ◌==◌, if◌then◌else◌, Option, none, some, length, All, arith, if-cases, Bool-cases, inl,
  inr, if_true, if_false, elim_some, elim_none,
}
use datarhei_core.Io.Path.{Bytes}
use datarhei_core.Restream.{contains}
use datarhei_core.Restream.Output.{
  Checks, Checked, accepted, refused, Parts, all_accepted, one_refused, starts_bracket, cons_part,
  split_bars, cons_close, to_close, tee_options, add_part, and_rest, add_rest, check_parts,
  of_parts, validate_plain, join_bars, validate_output_address,
}

-- Every "[" has a "]" behind it.
unfoldable pub brackets_close : Bytes → Bool
unfolding contains
brackets_close [] = true
brackets_close (c ∷ cs) = (if c == b'[' then contains b']' cs else true) && brackets_close cs

-- A text that has a "]" is cut behind the first: the rest is shorter, and what holds of every byte
-- still does.
record Cut (cs : Bytes) (p : Bytes × Bytes) : Type 0 where
  shorter : length p.1 < length cs
  no_bar : contains b'|' cs ≡ false → contains b'|' p.1 ≡ false
  closes : brackets_close cs ≡ true → brackets_close p.1 ≡ true

to_close-Cut :
    (cs : Bytes) → contains b']' cs ≡ true → (p : Bytes × Bytes) × (to_close cs ≡ some p) × Cut cs p
unfolding to_close contains cons_close brackets_close
to_close-Cut [] h = cc h
to_close-Cut (c ∷ cs) h = elim (Bool-cases (c == b']')) [
  | inl e ↦ (
    (c ∷ [], cs),
    if_true e _ _,
    record { shorter = omega arith; no_bar = λ n. ground arith; closes = λ b. ground arith },
  )
  | inr e ↦
      let (p, f, cut) = to_close-Cut cs (ground arith) in
      (
        (c ∷ p.0, p.1),
        if_false e _ _ ∙ ap (cons_close c) f,
        record {
          shorter = omega (arith, cut.shorter);
          no_bar = λ n. cut.no_bar (ground arith);
          closes = λ b. cut.closes (ground arith);
        },
      )
]

bracket_closed :
    (a : Bytes) → starts_bracket a ≡ true → brackets_close a ≡ true → contains b']' a ≡ true
unfolding brackets_close contains
bracket_closed [] e h = cc e
bracket_closed (c ∷ cs) e h = ground arith

-- What is left of a part without its options.
record Stripped (a : Bytes) (r : Bytes) : Type 0 where
  no_longer : length r ≤ length a
  shorter : starts_bracket a ≡ true → length r < length a
  no_bar : contains b'|' a ≡ false → contains b'|' r ≡ false
  closes : brackets_close r ≡ true

tee_options-Stripped : (a : Bytes) → brackets_close a ≡ true → Stripped a (tee_options a).1
unfolding tee_options
tee_options-Stripped a h = elim (Bool-cases (starts_bracket a)) [
  | inl e ↦
      let (p, f, cut) = to_close-Cut a (bracket_closed a e h) in
      subst (λ (q : Bytes × Bytes). Stripped a q.1) (sym (if_true e _ _ ∙ elim_some f _ _))
        (record {
          no_longer = omega (arith, cut.shorter);
          shorter = λ s. cut.shorter;
          no_bar = cut.no_bar;
          closes = cut.closes h;
        })
  | inr e ↦
      subst (λ (q : Bytes × Bytes). Stripped a q.1) (sym (if_false e _ _))
        (record { no_longer = omega arith; shorter = λ s. cc (s, e); no_bar = λ n. n; closes = h })
]

-- The parts of a text: without "|" and no longer, and each "[" is closed as in the text.
record IsPart (n : ℕ) (p : Bytes) : Type 0 where
  short : length p < n
  no_bar : contains b'|' p ≡ false
  closed : brackets_close p ≡ true

abbrev IsSome : {A : Type 0} → Option A → Type 0
IsSome {A = A} o = (r : A) × (o ≡ some r)

module _ (checks : Checks) (base : Bytes) where
  abbrev Returns : ℕ → Bytes → Type 0
  Returns n a = (r : Checked) × (validate_output_address checks n base a ≡ some r)

  check_parts-returns :
      (check : Bytes → Option Checked) (ps : List Bytes)
      → All (λ p. (r : Checked) × (check (tee_options p).1 ≡ some r)) ps
      → (r : Parts) × (check_parts check ps ≡ some r)
  unfolding check_parts and_rest add_rest
  check_parts-returns check [] h = (all_accepted [] false, refl)
  check_parts-returns check (p ∷ ps) ((refused a, e), h) =
      (one_refused, ap (λ o. and_rest (tee_options p).0 o (check_parts check ps)) e)
  check_parts-returns check (p ∷ ps) ((accepted va file, e), h) =
      let (parts, f) = check_parts-returns check ps h in
      (add_part (tee_options p).0 va file parts, ap₂ (and_rest (tee_options p).0) e f)

  of_parts-returns :
      (a : Bytes) (o : Option Parts) → IsSome o → (r : Checked) × (of_parts a o ≡ some r)
  of_parts-returns a o (one_refused, e) = (refused a, rw e refl)
  of_parts-returns a o (all_accepted ps file, e) = (accepted (join_bars ps) file, rw e refl)

  split_bars_one : (a : Bytes) → contains b'|' a ≡ false → split_bars a ≡ a ∷ []
  unfolding split_bars contains cons_part
  split_bars_one [] h = refl
  split_bars_one (c ∷ cs) h = ground (arith, split_bars_one cs)

  -- A part needs as much fuel as it is long, and one more.
  part-Returns : (n : ℕ) (p : Bytes) → IsPart n p → Returns n p
  unfolding validate_output_address
  part-Returns zero p h = absurd (omega (arith, h.short))
  part-Returns (suc n) p h =
      let s = tee_options-Stripped p h.closed in
      if-cases IsSome (contains b'|' p || starts_bracket p) _ _
        (λ tee.
          let inner = part-Returns n (tee_options p).1 (record {
            short = omega (arith, s.shorter (ground (arith, h.no_bar)), h.short);
            no_bar = s.no_bar h.no_bar;
            closed = s.closes;
          }) in
          of_parts-returns p (check_parts (validate_output_address checks n base) (split_bars p)) (
            subst (λ ps. IsSome (check_parts (validate_output_address checks n base) ps))
              (sym (split_bars_one p h.no_bar))
              (check_parts-returns (validate_output_address checks n base) (p ∷ []) (inner, tt))))
        (λ plain. (validate_plain checks base p, refl))

-- The parts of a text.
record Bare (n : ℕ) (p : Bytes) : Type 0 where
  bounded : length p ≤ n
  bare : contains b'|' p ≡ false

Bare-suc : (n : ℕ) (ps : List Bytes) → All (Bare n) ps → All (Bare (suc n)) ps
Bare-suc n [] h = tt
Bare-suc n (p ∷ ps) (b, h) =
    (record { bounded = omega (arith, b.bounded); bare = b.bare }, Bare-suc n ps h)

cons_part-Bare :
    (n c : ℕ) (ps : List Bytes)
    → (c == b'|') ≡ false
    → All (Bare n) ps
    → All (Bare (suc n)) (cons_part c ps)
unfolding cons_part contains
cons_part-Bare n c [] e h = (record { bounded = omega arith; bare = ground arith }, tt)
cons_part-Bare n c (p ∷ ps) e (b, h) =
    (record { bounded = omega (arith, b.bounded); bare = ground (arith, b.bare) }, Bare-suc n ps h)

split_bars-Bare : (a : Bytes) → All (Bare (length a)) (split_bars a)
unfolding split_bars contains
split_bars-Bare [] = (record { bounded = omega arith; bare = refl }, tt)
split_bars-Bare (c ∷ cs) =
    if-cases (All (Bare (length (c ∷ cs)))) (c == b'|') _ _
      (λ e. (
        record { bounded = omega arith; bare = refl },
        Bare-suc (length cs) (split_bars cs) (split_bars-Bare cs),
      ))
      (λ e. cons_part-Bare (length cs) c (split_bars cs) e (split_bars-Bare cs))

module _ (checks : Checks) (base : Bytes) where
  parts-return :
      (n : ℕ) (ps : List Bytes)
      → All (Bare n) ps
      → All (λ p. brackets_close p ≡ true) ps
      → All
          (λ p.
            (r : Checked) × (validate_output_address checks (suc n) base (tee_options p).1
              ≡ some r))
          ps
  parts-return n [] b c = tt
  parts-return n (p ∷ ps) (b, bs) (c, cs) =
      let s = tee_options-Stripped p c in
      (
        part-Returns checks base (suc n) (tee_options p).1 (record {
          short = omega (arith, s.no_longer, b.bounded);
          no_bar = s.no_bar b.bare;
          closed = s.closes;
        }),
        parts-return n ps bs cs,
      )

  tee-returns :
      (n : ℕ) (a : Bytes)
      → All (Bare n) (split_bars a)
      → All (λ p. brackets_close p ≡ true) (split_bars a)
      → (r : Checked) × (validate_output_address checks (suc (suc n)) base a ≡ some r)
  unfolding validate_output_address
  tee-returns n a bare closed =
      let recurse = validate_output_address checks (suc n) base in
      if-cases IsSome (contains b'|' a || starts_bracket a) _ _
        (λ tee. of_parts-returns checks base a (check_parts recurse (split_bars a)) (
          check_parts-returns checks base recurse (split_bars a)
            (parts-return n (split_bars a) bare closed)))
        (λ plain. (validate_plain checks base a, refl))

  -- `validateOutputAddress` returns for every address in each of whose parts between "|" every "["
  -- has a "]" behind it; its calls of itself are nested at most as deep as the address is long,
  -- and two more.
  pub validate_output_address-returns :
      (a : Bytes)
      → All (λ p. brackets_close p ≡ true) (split_bars a)
      → (r : Checked) × (validate_output_address checks (suc (suc (length a))) base a ≡ some r)
  validate_output_address-returns a closed = tee-returns (length a) a (split_bars-Bare a) closed

  -- An address that begins with "[" and has neither "]" nor "|" is its own only part.
  to_close-none : (a : Bytes) → contains b']' a ≡ false → to_close a ≡ none
  unfolding to_close contains cons_close
  to_close-none [] h = refl
  to_close-none (c ∷ cs) h = ground (arith, to_close-none cs)

  -- For an address that begins with "[" and has neither "]" nor "|", `validateOutputAddress` calls
  -- itself with the same address again and again: no depth of nested calls is enough.
  pub validate_output_address-diverges :
      (n : ℕ) (a : Bytes)
      → starts_bracket a ≡ true
      → contains b'|' a ≡ false
      → contains b']' a ≡ false
      → validate_output_address checks n base a ≡ none
  unfolding validate_output_address
  validate_output_address-diverges zero a s b c = refl
  validate_output_address-diverges (suc n) a s b c =
      let recurse = validate_output_address checks n base in
      let itself : tee_options a ≡ ([], a) = tee_itself s (to_close-none a c) in
      if_true {b = contains b'|' a || starts_bracket a} (ground arith) _ _
      ∙ ap (λ ps. of_parts a (check_parts recurse ps)) (split_bars_one checks base a b)
      ∙ ap (of_parts a) (
          ap (λ t. and_rest t.0 (recurse t.1) (check_parts recurse [])) itself
          ∙ ap (λ o. and_rest [] o (check_parts recurse []))
              (validate_output_address-diverges n a s b c))
    where
      tee_itself : starts_bracket a ≡ true → to_close a ≡ none → tee_options a ≡ ([], a)
      tee_itself s e = if_true s _ _ ∙ elim_none e _ _
