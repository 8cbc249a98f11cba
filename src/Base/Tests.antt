-- ===== src/Base/Tests.antt =====
-- Boolean tests, the conditional, and decidable equality as an instance.
use Prim.Native.Nat.{ℕ, compare, Ordering}
use Prim.Native.String.{String}
use mathlib.Core.Path.{◌≡◌, refl}
use mathlib.Core.Logic.{◌↔◌, ◌⊎◌, inl, inr}
use mathlib.Core.Bool.{Bool, true, false, ◌&&◌, Bool-discrete}
use mathlib.Core.Option.{Option, none, some}
use mathlib.Core.List.{List}
use native.Mathlib.Omega.{arith}
use native.Mathlib.Decide.{ℕ_discrete}
use text.Mathlib.Text.{◌==◌ as str_eq}
use text.Mathlib.TextEquality.{eq_iff}

abbrev pub ltb : ℕ → ℕ → Bool
ltb a b = elim (compare a b) [ Ordering.lt ↦ true | _ ↦ false ]

abbrev pub leb : ℕ → ℕ → Bool
leb a b = elim (compare a b) [ Ordering.gt ↦ false | _ ↦ true ]

infix 1 if◌then◌else◌
abbrev pub if◌then◌else◌ {ℓ} : {A : Type ℓ} → Bool → A → A → A
if true then x else y = x
if false then x else y = y

pub Bool-cases : (b : Bool) → (b ≡ true) ⊎ (b ≡ false)
Bool-cases true = inl refl
Bool-cases false = inr refl

pub Option-cases {ℓ} : {A : Type ℓ} (o : Option A) → (o ≡ none) ⊎ ((a : A) × (o ≡ some a))
Option-cases none = inl refl
Option-cases (some a) = inr (a, refl)

pub some_inj {ℓ} : {A : Type ℓ} {a b : A} → some a ≡ some b → a ≡ b
some_inj e = cc

-- A type whose values `===` compares.
pub record Eq {ℓ} (A : Type ℓ) : Type ℓ where
  pub decides : Discrete A

abbrev pub is_yes {ℓ} : {P : Type ℓ} → Dec P → Bool
is_yes (yes _) = true
is_yes (no _) = false

infix 50 ◌==◌
abbrev pub ◌==◌ {ℓ} : {A : Type ℓ} ⦃e : Eq A⦄ → A → A → Bool
◌==◌ ⦃e⦄ a b = is_yes (e.decides a b)

pub ==-iff {ℓ} : {A : Type ℓ} ⦃e : Eq A⦄ (a b : A) → ((a == b) ≡ true) ↔ (a ≡ b)
==-iff a b = ground arith

pub ==_refl {ℓ} : {A : Type ℓ} ⦃e : Eq A⦄ (a : A) → (a == a) ≡ true
==_refl a = (==-iff a a).1 refl

refuted {ℓ} : {P : Type ℓ} → (P → false ≡ true) → ¬ P
refuted h p = cc (h p)

-- A test that holds exactly of a proposition decides it.
decided_by {ℓ} : {P : Type ℓ} (b : Bool) → ((b ≡ true) ↔ P) → Dec P
decided_by true h = yes (h.0 refl)
decided_by false h = no (refuted h.1)

unfoldable pub String-discrete : Discrete String
unfolding decided_by refuted
String-discrete s t = decided_by (str_eq s t) (eq_iff s t)

instance abbrev pub nat_eq : Eq ℕ
nat_eq = record { decides = ℕ_discrete }

instance abbrev pub string_eq : Eq String
string_eq = record { decides = String-discrete }

instance abbrev pub bool_eq : Eq Bool
bool_eq = record { decides = Bool-discrete }

unfoldable pub Codes-discrete : Discrete (List ℕ)
Codes-discrete = hlevel ℕ_discrete

instance abbrev pub codes_eq : Eq (List ℕ)
codes_eq = record { decides = Codes-discrete }

unfoldable pub Optional-discrete {ℓ} : {A : Type ℓ} → Discrete A → Discrete (Option A)
Optional-discrete d = hlevel d

instance abbrev pub option_eq {ℓ} : {A : Type ℓ} ⦃e : Eq A⦄ → Eq (Option A)
option_eq ⦃e⦄ = record { decides = Optional-discrete e.decides }

pub &&-eq-true : (a b : Bool) → (a && b) ≡ true → (a ≡ true) × (b ≡ true)
&&-eq-true true b e = (refl, e)
&&-eq-true false b e = absurd (cc e)

pub true-ne_false : ¬ true ≡ false
true-ne_false e = cc
