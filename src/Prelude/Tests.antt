-- ===== src/Prelude/Tests.antt =====
-- Boolean tests on the native numbers, the conditional, and case lemmas.
use Prim.Native.Nat.{ℕ, compare, Ordering}
use Prim.Native.String.{String}
use mathlib.Core.Path.{◌≡◌, refl}
use mathlib.Core.Logic.{◌⊎◌, inl, inr, ite}
use mathlib.Core.Bool.{Bool, true, false}
use mathlib.Core.Option.{Option, none, some}
use text.Mathlib.Text.{◌==◌ as str_eq}
use text.Mathlib.TextEquality.{eq_iff}

abbrev pub ltb : ℕ → ℕ → Bool
ltb a b = elim (compare a b) [ Ordering.lt ↦ true | _ ↦ false ]

abbrev pub leb : ℕ → ℕ → Bool
leb a b = elim (compare a b) [ Ordering.gt ↦ false | _ ↦ true ]

infix 50 ◌==◌
abbrev pub ◌==◌ : ℕ → ℕ → Bool
a == b = elim (compare a b) [ Ordering.eq ↦ true | _ ↦ false ]

infix 1 if◌then◌else◌
abbrev pub if◌then◌else◌ {ℓ} : {A : Type ℓ} → Bool → A → A → A
if true then x else y = x
if false then x else y = y

pub Bool-cases : (b : Bool) → (b ≡ true) ⊎ (b ≡ false)
Bool-cases true = inl refl
Bool-cases false = inr refl

pub Option-cases {ℓ} : {A : Type ℓ} (o : Option A) → (o ≡ none) ⊎ ((a : A) × (o ≡ some a))
Option-cases none = inl refl
Option-cases (some a) = inr (a, refl)

-- Equality of texts as a decision, for the keys of maps.
unfoldable pub String-discrete : Discrete String
String-discrete a b =
    (elim (str_eq a b) as (λ t. str_eq a b ≡ t → Dec (a ≡ b)) [
      | true ↦ λ h. yes ((eq_iff a b).0 h)
      | false ↦ λ h. no (λ e. cc ((eq_iff a b).1 e))
    ])
      refl

-- What holds of both branches, each under its condition, holds of a test.
pub if-cases {ℓ κ} :
    {A : Type ℓ} (P : A → Type κ) (b : Bool) (x y : A)
    → (b ≡ true → P x)
    → (b ≡ false → P y)
    → P (if b then x else y)
if-cases P true x y p q = p refl
if-cases P false x y p q = q refl

pub if_true {ℓ} : {A : Type ℓ} {b : Bool} → b ≡ true → (x y : A) → (if b then x else y) ≡ x
if_true e x y = rw e refl

pub if_false {ℓ} : {A : Type ℓ} {b : Bool} → b ≡ false → (x y : A) → (if b then x else y) ≡ y
if_false e x y = rw e refl

pub ite-cases {ℓ κ μ} :
    {Q : Type μ} {A : Type ℓ} (P : A → Type κ) (d : Dec Q) (x y : A)
    → (Q → P x)
    → ((¬ Q) → P y)
    → P (ite d x y)
ite-cases P (yes q) x y p r = p q
ite-cases P (no n) x y p r = r n

-- The same for a match on an option.
pub some-cases {ℓ κ μ} :
    {B : Type μ} {A : Type ℓ} (P : A → Type κ) (o : Option B) (x : A) (f : B → A)
    → (o ≡ none → P x)
    → ((b : B) → o ≡ some b → P (f b))
    → P (elim o [ none ↦ x | some b ↦ f b ])
some-cases P none x f p r = p refl
some-cases P (some b) x f p r = r b refl

pub elim_some {ℓ μ} :
    {B : Type μ} {A : Type ℓ} {o : Option B} {b : B}
    → o ≡ some b
    → (x : A) (f : B → A) → elim o [ none ↦ x | some a ↦ f a ] ≡ f b
elim_some e x f = rw e refl

pub elim_none {ℓ μ} :
    {B : Type μ} {A : Type ℓ} {o : Option B}
    → o ≡ none
    → (x : A) (f : B → A) → elim o [ none ↦ x | some a ↦ f a ] ≡ x
elim_none e x f = rw e refl

-- The same for a match on a sum.
pub sum-cases {ℓ κ μ ν} :
    {B : Type μ} {C : Type ν} {A : Type ℓ} (P : A → Type κ) (s : B ⊎ C) (f : B → A) (g : C → A)
    → ((b : B) → s ≡ inl b → P (f b))
    → ((c : C) → s ≡ inr c → P (g c))
    → P (elim s [ inl b ↦ f b | inr c ↦ g c ])
sum-cases P (inl b) f g p q = p b refl
sum-cases P (inr c) f g p q = q c refl
