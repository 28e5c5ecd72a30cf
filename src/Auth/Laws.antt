-- ===== src/Auth/Laws.antt =====
-- The loop of bit operations accepts exactly one header.
use Prim.Native.Nat.{bit_or, bit_xor}
use zoo_keeper_server.Prelude.{
  every_below, every_below-entry, ℕ, zero, suc, ◌+◌, ◌≤◌, ◌<◌, max, ◌≡◌, ◌↔◌, refl, sym, ap, ◌∙◌,
  ◌⊎◌, inl, inr, Bytes, Bool, true, false, not, ◌&&◌, ◌||◌, none, some, [], ◌∷◌, ◌++◌,
  if◌then◌else◌, ltb, ◌==◌, ==_iff, ◌==ᵇ◌, ==ᵇ_iff, ==ᵇ_refl, length, length-drop, take, drop,
  take-append-drop, All, arith, Bool-cases,
}
use zoo_keeper_server.Auth.{
  byte_at, bearer_prefix, compare_loop, key_difference, check_auth, invalid_api_key,
}

-- What the loop needs of the bit operations on two bytes.
same : Bool → Bool → Bool
same true b = b
same false b = not b

byte_row : ℕ → ℕ → Bool
byte_row a b =
    (ltb (bit_xor a b) 256 && ltb (bit_or a b) 256)
    && (same (bit_xor a b == 0) (a == b) && same (bit_or a b == 0) (a == 0 && b == 0))

byte_table : every_below (λ a. every_below (λ b. byte_row a b) 256) 256 ≡ true
unfolding every_below byte_row same
byte_table = refl

byte_row-true : (a b : ℕ) → a < 256 → b < 256 → byte_row a b ≡ true
byte_row-true a b h k =
    every_below-entry (λ y. byte_row a y) 256 b k
      (every_below-entry (λ x. every_below (λ y. byte_row x y) 256) 256 a h byte_table)

xor-eq-zero : (a b : ℕ) → a < 256 → b < 256 → (bit_xor a b ≡ 0) ↔ (a ≡ b)
unfolding byte_row same
xor-eq-zero a b h k = ground (arith, byte_row-true a b h k)

or-eq-zero : (a b : ℕ) → a < 256 → b < 256 → (bit_or a b ≡ 0) ↔ ((a ≡ 0) × (b ≡ 0))
unfolding byte_row same
or-eq-zero a b h k = ground (arith, byte_row-true a b h k)

xor-lt : (a b : ℕ) → a < 256 → b < 256 → bit_xor a b < 256
unfolding byte_row same
xor-lt a b h k = ground (arith, byte_row-true a b h k)

or-lt : (a b : ℕ) → a < 256 → b < 256 → bit_or a b < 256
unfolding byte_row same
or-lt a b h k = ground (arith, byte_row-true a b h k)

abbrev pub IsBytes : Bytes → Type 0
IsBytes = All (λ c. c < 256)

byte_at-lt : (s : Bytes) (i : ℕ) → IsBytes s → byte_at s i < 256
byte_at-lt [] i h = omega arith
byte_at-lt (c ∷ s) zero h = h.0
byte_at-lt (c ∷ s) (suc i) h = byte_at-lt s i h.1

-- The bytes agree at the `n` indices from `i` on.
Agree : ℕ → Bytes → Bytes → ℕ → Type 0
Agree zero header expected i = Unit {0}
Agree (suc n) header expected i =
    (byte_at header (7 + i) ≡ byte_at expected i) × Agree n header expected (suc i)

module _ (header expected : Bytes) (hb : IsBytes header) (eb : IsBytes expected) where
  compare_loop-lt : (n i d : ℕ) → d < 256 → compare_loop n header expected i d < 256
  unfolding compare_loop
  compare_loop-lt zero i d h = h
  compare_loop-lt (suc n) i d h =
      compare_loop-lt n (suc i) _
        (or-lt d _ h (xor-lt _ _ (byte_at-lt header (7 + i) hb) (byte_at-lt expected i eb)))

  compare_loop-eq-zero :
      (n i d : ℕ)
      → d < 256
      → (compare_loop n header expected i d ≡ 0) ↔ ((d ≡ 0) × Agree n header expected i)
  unfolding compare_loop Agree
  compare_loop-eq-zero zero i d h = (λ e. (e, tt), λ e. e.0)
  compare_loop-eq-zero (suc n) i d h =
      let a = byte_at header (7 + i) in
      let b = byte_at expected i in
      let ha = byte_at-lt header (7 + i) hb in
      let hb' = byte_at-lt expected i eb in
      let hx = xor-lt a b ha hb' in
      let rest = compare_loop-eq-zero n (suc i) (bit_or d (bit_xor a b)) (or-lt d _ h hx) in
      let split = or-eq-zero d (bit_xor a b) h hx in
      let equal = xor-eq-zero a b ha hb' in
      (
        λ e. let f = rest.0 e in let g = split.0 f.0 in (g.0, (equal.0 g.1, f.1)),
        λ e. rest.1 (split.1 (e.0, equal.1 e.1.0), e.1.1),
      )

-- Agreement at every index of two strings of one length is equality.
AgreeFrom : ℕ → Bytes → Bytes → Type 0
AgreeFrom n s t = (i : ℕ) → i < n → byte_at s i ≡ byte_at t i

eq_of_Agree : (s t : Bytes) → length s ≡ length t → AgreeFrom (length s) s t → s ≡ t
unfolding AgreeFrom
eq_of_Agree [] [] e h = refl
eq_of_Agree [] (d ∷ t) e h = absurd (omega arith)
eq_of_Agree (c ∷ s) [] e h = absurd (omega arith)
eq_of_Agree (c ∷ s) (d ∷ t) e h =
    cc (h 0 (omega arith), eq_of_Agree s t (omega arith) (λ i l. h (suc i) (omega arith)))

Agree-index :
    (n i : ℕ) (header expected : Bytes)
    → Agree n header expected i
    → (j : ℕ) → i ≤ j
    → j < i + n
    → byte_at header (7 + j) ≡ byte_at expected j
unfolding Agree
Agree-index zero i header expected h j l k = absurd (omega arith)
Agree-index (suc n) i header expected h j l k = elim (Bool-cases (i == j)) [
  | inl same ↦ rw (← (==_iff i j).0 same) h.0
  | inr other ↦ Agree-index n (suc i) header expected h.1 j (ground arith) (omega arith)
]

Agree-all :
    (n i : ℕ) (header expected : Bytes)
    → ((j : ℕ) → byte_at header (7 + j) ≡ byte_at expected j)
    → Agree n header expected i
unfolding Agree
Agree-all zero i header expected h = tt
Agree-all (suc n) i header expected h = (h i, Agree-all n (suc i) header expected h)

byte_at-drop : (k i : ℕ) (s : Bytes) → byte_at (drop k s) i ≡ byte_at s (k + i)
byte_at-drop zero i s = ap (byte_at s) (omega arith)
byte_at-drop (suc k) i [] = refl
byte_at-drop (suc k) i (c ∷ s) =
    byte_at-drop k i s ∙ ap (byte_at (c ∷ s)) (let e : suc (k + i) ≡ suc k + i = omega arith in e)

-- The two flags around the loop.
start_flag : Bytes → ℕ
start_flag header = if ltb (length header) 7 || not (take 7 header ==ᵇ bearer_prefix) then 1 else 0

length_flag : Bytes → Bytes → ℕ
length_flag header expected = if not (length header == 7 + length expected) then 1 else 0

start_flag_lem : (header : Bytes) → start_flag header ≡ 0 → take 7 header ≡ bearer_prefix
unfolding start_flag
start_flag_lem header e = (==ᵇ_iff (take 7 header) bearer_prefix).0 (ground arith)

flags_lt :
    (header expected : Bytes) → (start_flag header < 256) × (length_flag header expected < 256)
unfolding start_flag length_flag
flags_lt header expected = ground arith

length_flag_lem :
    (header expected : Bytes)
    → length_flag header expected ≡ 0
    → length header ≡ 7 + length expected
unfolding length_flag
length_flag_lem header expected e = ground arith

header_of_Agree :
    (header expected : Bytes)
    → start_flag header ≡ 0
    → length header ≡ 7 + length expected
    → Agree (max (length expected) 1) header expected 0
    → header ≡ bearer_prefix ++ expected
unfolding AgreeFrom
header_of_Agree header expected s l a =
    sym (take-append-drop 7 header)
    ∙ ap (λ (p : Bytes). p ++ drop 7 header) (start_flag_lem header s)
    ∙ ap (λ (r : Bytes). bearer_prefix ++ r) (eq_of_Agree (drop 7 header) expected long same)
  where
    long : length (drop 7 header) ≡ length expected
    long = omega (arith, length-drop 7 header)

    same : (i : ℕ) → i < length (drop 7 header) → byte_at (drop 7 header) i ≡ byte_at expected i
    same i h =
        byte_at-drop 7 i header
        ∙ Agree-index (max (length expected) 1) 0 header expected a i (omega arith)
            (omega (arith, long))

good_header :
    (expected : Bytes)
    → (start_flag (bearer_prefix ++ expected) ≡ 0)
      × (length_flag (bearer_prefix ++ expected) expected ≡ 0)
      × ((j : ℕ) → byte_at (bearer_prefix ++ expected) (7 + j) ≡ byte_at expected j)
unfolding start_flag length_flag
good_header expected = (
  rw (==ᵇ_refl bearer_prefix) (ground arith),
  ground arith,
  λ j.
      ap (byte_at (bearer_prefix ++ expected))
        (let e : 7 + j ≡ suc (suc (suc (suc (suc (suc (suc j)))))) = omega arith in e),
)

key_difference_iff :
    (header expected : Bytes)
    → IsBytes header
    → IsBytes expected
    → (key_difference header expected ≡ 0) ↔ (header ≡ bearer_prefix ++ expected)
unfolding key_difference start_flag length_flag
key_difference_iff header expected hb eb =
    let n = max (length expected) 1 in
    let flags = flags_lt header expected in
    let loop = compare_loop-eq-zero header expected hb eb n 0 (start_flag header) flags.0 in
    let low = compare_loop-lt header expected hb eb n 0 (start_flag header) flags.0 in
    let both =
      or-eq-zero (compare_loop n header expected 0 (start_flag header))
        (length_flag header expected) low flags.1 in
    (
      λ e.
          let f = both.0 e in
          let g = loop.0 f.0 in
          header_of_Agree header expected g.0 (length_flag_lem header expected f.1) g.1,
      λ e.
          let good = good_header expected in
          both.1 (
            loop.1 (rw e good.0, Agree-all n 0 header expected (λ j. rw e (good.2 j))),
            rw e good.1,
          ),
    )

-- A header of bytes passes, when a key of bytes is configured, exactly if it is "Bearer " and then
-- the key; else the answer is the 401 error "Invalid API key". With no key every header passes.
pub check_auth_iff :
    (header expected : Bytes)
    → IsBytes header
    → IsBytes expected
    → ((check_auth header (some expected) ≡ none) ↔ (header ≡ bearer_prefix ++ expected))
      × ((check_auth header (some expected) ≡ none)
          ⊎ (check_auth header (some expected) ≡ some invalid_api_key))
      × (check_auth header none ≡ none)
unfolding check_auth
check_auth_iff header expected hb eb = ground (arith, key_difference_iff header expected hb eb)
