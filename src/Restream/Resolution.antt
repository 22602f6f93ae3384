-- ===== src/Restream/Resolution.antt =====
-- What `resolveAddress` of restream/restream.go gives.
use datarhei_core.Prelude.{
  ℕ, ◌≡◌, ◌≢◌, refl, sym, subst, List, [], ◌∷◌, ◌==◌, Option, none, some, ◌⊎◌, inl, inr, All,
  if-cases, some-cases, ite-cases,
}
use datarhei_core.Io.Path.{Bytes, Bytes-discrete}
use datarhei_core.Restream.{ConfigIo}
use datarhei_core.Restream.Validate.{Error}
use datarhei_core.Restream.Validate as Validate
use datarhei_core.Restream.Prefix.{same_byte, other_byte}
use datarhei_core.Restream.References.{
  Reads, Names, match_reference-Names, match_reference-not_Reads,
}
use datarhei_core.Restream.Resolve.{
  match_reference, find_output, resolve_match, resolve_reference, resolve_address,
}

-- The first of the outputs with an identifier has an address.
pub data FirstWith (id x : Bytes) : List ConfigIo → Type 0 where
  first :
      (io : ConfigIo) (ios : List ConfigIo)
      → io.id ≡ id
      → io.address ≡ x
      → FirstWith id x (io ∷ ios)
  later :
      (io : ConfigIo) (ios : List ConfigIo)
      → io.id ≢ id
      → FirstWith id x ios
      → FirstWith id x (io ∷ ios)

-- What is found among the outputs.
abbrev Found : Bytes → List ConfigIo → Error ⊎ Bytes → Type 0
Found id ios (inl e) = All (λ (io : ConfigIo). io.id ≢ id) ios × (e ≡ Validate.unknown_output)
Found id ios (inr x) = FirstWith id x ios

find_output-Found : (id : Bytes) (ios : List ConfigIo) → Found id ios (find_output id ios)
unfolding find_output
find_output-Found id [] = (tt, refl)
find_output-Found id (io ∷ ios) =
    ite-cases (Found id (io ∷ ios)) (Bytes-discrete io.id id) _ _ (λ e. first io ios e refl)
      (λ n. go n (find_output id ios) (find_output-Found id ios))
  where
    go : io.id ≢ id → (r : Error ⊎ Bytes) → Found id ios r → Found id (io ∷ ios) r
    go n (inl e) f = ((n, f.0), f.1)
    go n (inr x) f = later io ios n f

-- What an address of an input of the process `id` stands for, or why it stands for nothing.
pub data Resolves (outputs_of : Bytes → Option (List ConfigIo)) (id : Bytes)
    : Bytes → Error ⊎ Bytes → Type 0 where
  empty : Resolves outputs_of id [] (inl Validate.empty_address)
  itself : (c : ℕ) (cs : Bytes) → c ≢ b'#' → Resolves outputs_of id (c ∷ cs) (inr (c ∷ cs))
  invalid :
      (c : ℕ) (cs : Bytes)
      → c ≡ b'#'
      → ((m : Bytes × Bytes) → ¬ Reads cs m)
      → Resolves outputs_of id (c ∷ cs) (inl Validate.invalid_reference)
  to_itself :
      (c : ℕ) (cs output : Bytes)
      → c ≡ b'#'
      → Names cs (id, output)
      → Resolves outputs_of id (c ∷ cs) (inl Validate.self_reference)
  unknown :
      (c : ℕ) (cs process output : Bytes)
      → c ≡ b'#'
      → Names cs (process, output)
      → process ≢ id
      → outputs_of process ≡ none
      → Resolves outputs_of id (c ∷ cs) (inl Validate.unknown_reference)
  no_output :
      (c : ℕ) (cs process output : Bytes) (outputs : List ConfigIo)
      → c ≡ b'#'
      → Names cs (process, output)
      → process ≢ id
      → outputs_of process ≡ some outputs
      → All (λ (io : ConfigIo). io.id ≢ output) outputs
      → Resolves outputs_of id (c ∷ cs) (inl Validate.unknown_output)
  referred :
      (c : ℕ) (cs x process output : Bytes) (outputs : List ConfigIo)
      → c ≡ b'#'
      → Names cs (process, output)
      → process ≢ id
      → outputs_of process ≡ some outputs
      → FirstWith output x outputs
      → Resolves outputs_of id (c ∷ cs) (inr x)

module _ (outputs_of : Bytes → Option (List ConfigIo)) (id : Bytes) where
  abbrev ResolvesTo : Bytes → Error ⊎ Bytes → Type 0
  ResolvesTo a r = Resolves outputs_of id a r

  resolve_match-Resolves :
      (c : ℕ) (cs process output : Bytes)
      → c ≡ b'#'
      → Names cs (process, output)
      → ResolvesTo (c ∷ cs) (resolve_match outputs_of id process output)
  unfolding resolve_match
  resolve_match-Resolves c cs process output h names =
      ite-cases (ResolvesTo (c ∷ cs)) (Bytes-discrete process id) _ _
        (λ e. to_itself c cs output h (subst (λ p. Names cs (p, output)) e names))
        (λ n.
          some-cases (ResolvesTo (c ∷ cs)) (outputs_of process) _ _
            (λ e. unknown c cs process output h names n e)
            (λ ios e. go ios n e (find_output output ios) (find_output-Found output ios)))
    where
      go :
          (ios : List ConfigIo)
          → process ≢ id
          → outputs_of process ≡ some ios
          → (r : Error ⊎ Bytes) → Found output ios r
          → ResolvesTo (c ∷ cs) r
      go ios n e (inl error) f =
          subst (λ x. ResolvesTo (c ∷ cs) (inl x)) (sym f.1)
            (no_output c cs process output ios h names n e f.0)
      go ios n e (inr x) f = referred c cs x process output ios h names n e f

  resolve_reference-Resolves :
      (c : ℕ) (cs : Bytes) → c ≡ b'#' → ResolvesTo (c ∷ cs) (resolve_reference outputs_of id cs)
  unfolding resolve_reference
  resolve_reference-Resolves c cs h =
      some-cases (ResolvesTo (c ∷ cs)) (match_reference cs) _ _
        (λ e. invalid c cs h (match_reference-not_Reads cs e))
        (λ m e. resolve_match-Resolves c cs m.0 m.1 h (match_reference-Names cs m e))

  -- `resolveAddress` gives exactly this: an error for the empty address; the address itself, if it
  -- does not begin with "#"; otherwise an error, unless what follows reads as a name, ":output=",
  -- and another name up to the end of the line. Of all such readings the one with the longest
  -- first name counts: it is an error if this is the name of the process that asks or of no
  -- process, or if none of the outputs of the process has the second name as its identifier, and
  -- the result is the address of the first output that has it otherwise.
  pub resolve_address-Resolves :
      (a : Bytes) → Resolves outputs_of id a (resolve_address outputs_of id a)
  unfolding resolve_address
  resolve_address-Resolves [] = empty
  resolve_address-Resolves (c ∷ cs) =
      if-cases (ResolvesTo (c ∷ cs)) (c == b'#') _ _
        (λ h. resolve_reference-Resolves c cs (same_byte c b'#' h))
        (λ h. itself c cs (other_byte c b'#' h))
