-- ===== src/Auth.antt =====
-- `check_auth` of src/server/auth.hpp. The header and the key are byte strings, and a byte is a
-- number below 256.
pub mod Laws
use Prim.Native.Nat.{bit_or, bit_xor}
use zoo_keeper_server.Prelude.{
  ℕ, zero, suc, ◌+◌, max, Bytes, not, ◌||◌, Option, none, some, [], ◌∷◌, if◌then◌else◌, ltb, ◌==◌,
  ◌==ᵇ◌, length, take, get_elem?, text,
}
use zoo_keeper_server.Api.{ApiError, auth_error}

-- `i < s.size() ? s[i] : 0xFF`.
abbrev pub byte_at : Bytes → ℕ → ℕ
byte_at s i = elim (get_elem? s i) [ none ↦ 0xFF | some c ↦ c ]

-- The bytes of "Bearer ".
abbrev pub bearer_prefix : Bytes
bearer_prefix = 66 ∷ 101 ∷ 97 ∷ 114 ∷ 101 ∷ 114 ∷ 32 ∷ []

-- The constant-time loop from index `i` on; the first argument is the number of rounds left.
unfoldable pub compare_loop : ℕ → Bytes → Bytes → ℕ → ℕ → ℕ
compare_loop zero header expected i diff = diff
compare_loop (suc n) header expected i diff =
    compare_loop n header expected (suc i)
      (bit_or diff (bit_xor (byte_at header (7 + i)) (byte_at expected i)))

unfoldable pub key_difference : Bytes → Bytes → ℕ
key_difference header expected =
    let expected_total = 7 + length expected in
    let compare_len = max (length expected) 1 in
    let start = if ltb (length header) 7 || not (take 7 header ==ᵇ bearer_prefix) then 1 else 0 in
    let length_mismatch = if not (length header == expected_total) then 1 else 0 in
    bit_or (compare_loop compare_len header expected 0 start) length_mismatch

abbrev pub invalid_api_key : ApiError
invalid_api_key = auth_error (text "Invalid API key") (some (text "invalid_api_key"))

-- The value of the Authorization header, and the configured key; `none` lets the request pass.
unfoldable pub check_auth : Bytes → Option Bytes → Option ApiError
check_auth header none = none
check_auth header (some expected) =
    if not (key_difference header expected == 0) then some invalid_api_key else none
