-- ===== src/Prelude/Tests.antt =====
-- Boolean tests on numbers and byte strings, the conditional, and case splits that keep the equation.
use Prim.Native.Nat.{ℕ, ◌%◌, ◌^◌, compare, Ordering}
use mathlib.Core.Path.{◌≡◌, refl}
use mathlib.Core.Logic.{◌↔◌, ◌⊎◌, inl, inr}
use mathlib.Core.Bool.{Bool, true, false, ◌&&◌}
use mathlib.Core.List.{List, [], ◌∷◌}
use mathlib.Core.Option.{Option, none, some}
use native.Mathlib.Omega.{arith}

-- These compute to `compare`, which `ground` and `grind` read with no lemma listed.
abbrev pub ltb : ℕ → ℕ → Bool
ltb a b = elim (compare a b) [ Ordering.lt ↦ true | _ ↦ false ]

abbrev pub leb : ℕ → ℕ → Bool
leb a b = elim (compare a b) [ Ordering.gt ↦ false | _ ↦ true ]

infix 50 ◌==◌ ◌==ᵇ◌
abbrev pub ◌==◌ : ℕ → ℕ → Bool
a == b = elim (compare a b) [ Ordering.eq ↦ true | _ ↦ false ]

infix 1 if◌then◌else◌
abbrev pub if◌then◌else◌ {ℓ} : {A : Type ℓ} → Bool → A → A → A
if true then x else y = x
if false then x else y = y

pub ==_iff : (a b : ℕ) → ((a == b) ≡ true) ↔ (a ≡ b)
==_iff a b = ground arith

-- Arithmetic of `size_t` and `std::uint64_t`.
abbrev pub wrap64 : ℕ → ℕ
wrap64 n = n % 2 ^ 64

-- A `std::string`: its bytes.
abbrev pub Bytes : Type 0
Bytes = List ℕ

-- `operator==` on strings.
unfoldable pub ◌==ᵇ◌ : Bytes → Bytes → Bool
[] ==ᵇ [] = true
[] ==ᵇ (_ ∷ _) = false
(_ ∷ _) ==ᵇ [] = false
(a ∷ s) ==ᵇ (b ∷ t) = a == b && s ==ᵇ t

eq_of_==ᵇ : (s t : Bytes) → s ==ᵇ t ≡ true → s ≡ t
unfolding ◌==ᵇ◌
eq_of_==ᵇ [] [] h = refl
eq_of_==ᵇ [] (_ ∷ _) h = cc
eq_of_==ᵇ (_ ∷ _) [] h = cc
eq_of_==ᵇ (a ∷ s) (b ∷ t) h = ground (arith, eq_of_==ᵇ s t)

pub ==ᵇ_refl : (s : Bytes) → s ==ᵇ s ≡ true
unfolding ◌==ᵇ◌
==ᵇ_refl [] = refl
==ᵇ_refl (a ∷ s) = ground (arith, ==ᵇ_refl s)

pub ==ᵇ_iff : (s t : Bytes) → (s ==ᵇ t ≡ true) ↔ (s ≡ t)
==ᵇ_iff s t = (eq_of_==ᵇ s t, λ e. rw e (==ᵇ_refl t))

abbrev pub is_empty {ℓ} : {A : Type ℓ} → List A → Bool
is_empty [] = true
is_empty (_ ∷ _) = false

-- `std::optional::has_value`.
abbrev pub has_value {ℓ} : {A : Type ℓ} → Option A → Bool
has_value none = false
has_value (some _) = true

pub Bool-cases : (b : Bool) → (b ≡ true) ⊎ (b ≡ false)
Bool-cases true = inl refl
Bool-cases false = inr refl

pub Option-cases {ℓ} : {A : Type ℓ} (o : Option A) → (o ≡ none) ⊎ ((a : A) × (o ≡ some a))
Option-cases none = inl refl
Option-cases (some a) = inr (a, refl)
