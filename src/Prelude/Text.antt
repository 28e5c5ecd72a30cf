-- ===== src/Prelude/Text.antt =====
-- Byte strings: literals, and `std::to_string` on unsigned numbers.
use Prim.Native.Char.{code}
use Prim.Native.Nat.{ℕ, zero, suc, ◌+◌, ◌-◌, ◌*◌, ◌/◌, ◌%◌, ◌<◌, ◌≤◌}
use Prim.Native.String.{String}
use mathlib.Core.Path.{◌≡◌, refl, ap, sym, ◌∙◌}
use mathlib.Core.Logic.{inl, inr}
use mathlib.Core.List.{[], ◌∷◌}
use native.Mathlib.Omega.{arith}
use zoo_keeper_server.Prelude.Lists.{All}
use zoo_keeper_server.Prelude.Tests.{Bytes, ltb, if◌then◌else◌, Bool-cases}

-- A literal of the source; every literal is ASCII.
unfoldable pub text : String → Bytes
text String.[] = []
text (String.◌∷◌ c s) = code c ∷ text s

-- The decimal digits of `n` before `out`; `fuel` bounds their number.
digits : ℕ → ℕ → Bytes → Bytes
digits zero n out = out
digits (suc fuel) n out =
    let longer = digits fuel (n / 10) ((b'0' + n % 10) ∷ out) in
    if ltb n 10 then (b'0' + n % 10) ∷ out else longer

unfoldable pub to_string : ℕ → Bytes
unfolding digits
to_string n = digits (suc n) n []

-- The number that a run of digits stands for, after `acc`.
read : ℕ → Bytes → ℕ
read acc [] = acc
read acc (c ∷ s) = read (acc * 10 + (c - b'0')) s

read-digits : (fuel n : ℕ) (out : Bytes) → n < fuel → read 0 (digits fuel n out) ≡ read n out
unfolding digits read
read-digits zero n out h = elim h [ ]
read-digits (suc fuel) n out h = elim (Bool-cases (ltb n 10)) [
  | inl small ↦ rw small (ap (λ k. read k out) (ground arith))
  | inr large ↦ rw large (
      read-digits fuel (n / 10) ((b'0' + n % 10) ∷ out) (ground arith)
      ∙ ap (λ k. read k out) (omega arith))
]

-- Two numbers with the same digits are the same.
pub to_string-injective : (m n : ℕ) → to_string m ≡ to_string n → m ≡ n
unfolding to_string read
to_string-injective m n e =
    sym (read-digits (suc m) m [] (omega arith))
    ∙ ap (read 0) e
    ∙ read-digits (suc n) n [] (omega arith)

digits-IsDecimal :
    (fuel n : ℕ) (out : Bytes)
    → All (λ c. (b'0' ≤ c) × (c ≤ b'9')) out
    → All (λ c. (b'0' ≤ c) × (c ≤ b'9')) (digits fuel n out)
unfolding digits
digits-IsDecimal zero n out h = h
digits-IsDecimal (suc fuel) n out h =
    ground (
      arith,
      digits-IsDecimal fuel (n / 10) ((b'0' + n % 10) ∷ out) ((omega arith, omega arith), h),
    )

-- Only digits are printed.
pub to_string-IsDecimal : (n : ℕ) → All (λ c. (b'0' ≤ c) × (c ≤ b'9')) (to_string n)
unfolding to_string
to_string-IsDecimal n = digits-IsDecimal (suc n) n [] tt

to_string_zero : to_string 0 ≡ text "0"
unfolding to_string text
to_string_zero = refl

to_string_large : to_string 9070 ≡ text "9070"
unfolding to_string text
to_string_large = refl
