-- ===== src/Restream/References.antt =====
-- What a reference to an output of another process means in restream/restream.go.
use datarhei_core.Prelude.{
  ℕ, suc, Bool, subst, ◌≤◌, ◌≡◌, ◌≢◌, refl, sym, ap, ◌∙◌, true, false, ◌&&◌, not, [], ◌∷◌, ◌++◌,
  ◌==◌, Option, none, some, arith, if-cases, if_true, if_false, All, length,
}
use datarhei_core.Prelude.Map.{some_inj}
use datarhei_core.Io.Path.{Bytes}
use datarhei_core.Restream.{has_prefix, drop}
use datarhei_core.Restream.Validate.{is_nil}
use datarhei_core.Restream.Prefix.{has_prefix-drop, has_prefix-append, drop-append, other_byte}
use datarhei_core.Restream.Resolve.{
  output_marker, first_line, cons_match, match_here, match_reference,
}

abbrev pub InLine : Bytes → Type 0
InLine s = All (λ c. c ≢ 10) s

-- Nothing, or a line break and what follows.
pub data LineEnd : Bytes → Type 0 where
  nothing : LineEnd []
  line_break : (c : ℕ) (s : Bytes) → c ≡ 10 → LineEnd (c ∷ s)

abbrev pub output_text : Bytes
output_text = b':' ∷ b'o' ∷ b'u' ∷ b't' ∷ b'p' ∷ b'u' ∷ b't' ∷ b'=' ∷ []

-- A text that reads: a name, ":output=", another name up to the end of the line, and the rest.
pub record Reads (cs : Bytes) (m : Bytes × Bytes) : Type 0 where
  pub rest : Bytes
  pub text : cs ≡ m.0 ++ output_text ++ m.1 ++ rest
  pub named : m.0 ≢ []
  pub output_named : m.1 ≢ []
  pub in_line : InLine m.0
  pub output_in_line : InLine m.1
  pub ends : LineEnd rest

-- Of all readings, the one with the longest first name.
pub record Names (cs : Bytes) (m : Bytes × Bytes) : Type 0 where
  pub reads : Reads cs m
  pub longest : (m' : Bytes × Bytes) → Reads cs m' → length m'.0 ≤ length m.0

record FirstLine (s l : Bytes) : Type 0 where
  rest : Bytes
  text : s ≡ l ++ rest
  in_line : InLine l
  ends : LineEnd rest

first_line-FirstLine : (s : Bytes) → FirstLine s (first_line s)
unfolding first_line
first_line-FirstLine [] = record { rest = []; text = refl; in_line = tt; ends = nothing }
first_line-FirstLine (c ∷ cs) =
    let l = first_line-FirstLine cs in
    if-cases (FirstLine (c ∷ cs)) (c == 10) _ _
      (λ h. record {
        rest = c ∷ cs;
        text = refl;
        in_line = tt;
        ends = line_break c cs (ground arith);
      })
      (λ h. record {
        rest = l.rest;
        text = ap (λ x. c ∷ x) l.text;
        in_line = (other_byte c 10 h, l.in_line);
        ends = l.ends;
      })

other_line : (c x : ℕ) → c ≡ x → x ≢ 10 → (c == 10) ≡ false
other_line c x e n = ground arith

not_nil : (s : Bytes) → is_nil s ≡ false → s ≢ []
not_nil s h e = cc (h, ap is_nil e)

abbrev ReadsMatch : Bytes → Option (Bytes × Bytes) → Type 0
ReadsMatch cs none = Unit
ReadsMatch cs (some m) = Reads cs m

match_here-Reads : (c : ℕ) (cs : Bytes) → c ≢ 10 → ReadsMatch (c ∷ cs) (match_here c cs)
unfolding match_here
match_here-Reads c cs n =
    let l = first_line-FirstLine (drop 8 cs) in
    if-cases (ReadsMatch (c ∷ cs))
      (has_prefix cs output_marker && not (is_nil (first_line (drop 8 cs)))) _ _
      (λ h. record {
        rest = l.rest;
        text =
            ap (λ x. c ∷ x)
              (has_prefix-drop cs output_marker (ground arith)
                ∙ ap (λ x. output_marker ++ x) l.text);
        named = λ e. cc e;
        output_named = not_nil (first_line (drop 8 cs)) (ground arith);
        in_line = (n, tt);
        output_in_line = l.in_line;
        ends = l.ends;
      })
      (λ h. tt)

cons_match-Reads :
    (c : ℕ) (cs : Bytes) (m : Bytes × Bytes) → c ≢ 10 → Reads cs m → Reads (c ∷ cs) (cons_match c m)
unfolding cons_match
cons_match-Reads c cs m n r = record {
  rest = r.rest;
  text = ap (λ x. c ∷ x) r.text;
  named = λ e. cc e;
  output_named = r.output_named;
  in_line = (n, r.in_line);
  output_in_line = r.output_in_line;
  ends = r.ends;
}

match_reference-Reads : (cs : Bytes) → ReadsMatch cs (match_reference cs)
unfolding match_reference
match_reference-Reads [] = tt
match_reference-Reads (c ∷ cs) =
    if-cases (ReadsMatch (c ∷ cs)) (c == 10) _ _ (λ h. tt)
      (λ h. go (other_byte c 10 h) (match_reference cs) (match_reference-Reads cs))
  where
    go :
        c ≢ 10
        → (o : Option (Bytes × Bytes)) → ReadsMatch cs o
        → ReadsMatch (c ∷ cs) (elim o [ none ↦ match_here c cs | some m ↦ some (cons_match c m) ])
    go n none r = match_here-Reads c cs n
    go n (some m) r = cons_match-Reads c cs m n r

-- A reading is found, or a longer one.
record Finds (k : ℕ) (o : Option (Bytes × Bytes)) : Type 0 where
  found : Bytes × Bytes
  found_it : o ≡ some found
  long : k ≤ length found.0

first_line_named : (o rest : Bytes) → o ≢ [] → InLine o → is_nil (first_line (o ++ rest)) ≡ false
unfolding first_line
first_line_named [] rest n l = absurd (n refl)
first_line_named (x ∷ xs) rest n (l, ls) =
    ap is_nil (if_false (not_same x l) [] (x ∷ first_line (xs ++ rest)))
  where
    not_same : (y : ℕ) → y ≢ 10 → (y == 10) ≡ false
    not_same y h = ground arith

match_here-Finds :
    (c : ℕ) (cs o rest : Bytes)
    → cs ≡ output_text ++ o ++ rest
    → o ≢ []
    → InLine o
    → Finds 1 (match_here c cs)
unfolding match_here
match_here-Finds c cs o rest e n l =
    let marked : has_prefix cs output_marker ≡ true =
      ap (λ x. has_prefix x output_marker) e ∙ has_prefix-append output_marker (o ++ rest) in
    let after : drop 8 cs ≡ o ++ rest = ap (drop 8) e ∙ drop-append output_marker (o ++ rest) in
    let named : is_nil (first_line (drop 8 cs)) ≡ false =
      ap (λ x. is_nil (first_line x)) after ∙ first_line_named o rest n l in
    record {
      found = (c ∷ [], first_line (drop 8 cs));
      found_it = if_true (both marked named) _ _;
      long = omega arith;
    }
  where
    both : {a b : Bool} → a ≡ true → b ≡ false → (a && not b) ≡ true
    both p q = ground arith

module _ (c : ℕ) (cs : Bytes) where
  step_one :
      (o : Option (Bytes × Bytes))
      → Finds 1 (match_here c cs)
      → Finds 1 (elim o [ none ↦ match_here c cs | some m ↦ some (cons_match c m) ])
  unfolding cons_match
  step_one none f = f
  step_one (some m) f = record { found = cons_match c m; found_it = refl; long = omega arith }

  step_more :
      (k : ℕ) (o : Option (Bytes × Bytes))
      → Finds k o
      → Finds (suc k) (elim o [ none ↦ match_here c cs | some m ↦ some (cons_match c m) ])
  unfolding cons_match
  step_more k none f = cc f.found_it
  step_more k (some m) f = record {
    found = cons_match c m;
    found_it = refl;
    long =
        let e : m ≡ f.found = cc f.found_it in
        omega (arith, f.long, ap (λ (x : Bytes × Bytes). length x.0) e);
  }

match_reference-Finds :
    (cs n o rest : Bytes)
    → cs ≡ n ++ output_text ++ o ++ rest
    → n ≢ []
    → o ≢ []
    → InLine n
    → InLine o
    → Finds (length n) (match_reference cs)
unfolding match_reference
match_reference-Finds cs [] o rest e n' o' ln lo = absurd (n' refl)
match_reference-Finds [] (x ∷ xs) o rest e n' o' ln lo = cc e
match_reference-Finds (c ∷ cs) (x ∷ []) o rest e n' o' ln lo =
    subst (Finds 1) (sym (if_false (other_line c x (cc e) ln.0) _ _))
      (step_one c cs (match_reference cs) (match_here-Finds c cs o rest (cc e) o' lo))
match_reference-Finds (c ∷ cs) (x ∷ y ∷ ys) o rest e n' o' ln lo =
    subst (Finds (length (x ∷ y ∷ ys))) (sym (if_false (other_line c x (cc e) ln.0) _ _)) (
      step_more c cs (length (y ∷ ys)) (match_reference cs)
        (match_reference-Finds cs (y ∷ ys) o rest (cc e) (λ f. cc f) o' ln.1 lo))

-- The groups of the regular expression are the reading of a text with the longest first name, if
-- it has a reading.
pub match_reference-Names :
    (cs : Bytes) (m : Bytes × Bytes) → match_reference cs ≡ some m → Names cs m
match_reference-Names cs m e = record {
  reads = subst (ReadsMatch cs) e (match_reference-Reads cs);
  longest = λ m' r.
      let f =
        match_reference-Finds cs m'.0 m'.1 r.rest r.text r.named r.output_named r.in_line
          r.output_in_line in
      let same : f.found ≡ m = some_inj (sym f.found_it ∙ e) in
      omega (arith, f.long, ap (λ (x : Bytes × Bytes). length x.0) same);
}

pub match_reference-not_Reads :
    (cs : Bytes) → match_reference cs ≡ none → (m : Bytes × Bytes) → ¬ Reads cs m
match_reference-not_Reads cs e m r =
    let f =
      match_reference-Finds cs m.0 m.1 r.rest r.text r.named r.output_named r.in_line
        r.output_in_line in
    cc (e, f.found_it)
