-- ===== src/Streaming/Escape.antt =====
-- A JSON reader gets back what `json_escaped` was given.
use mathlib.Core.Option
use zoo_keeper_server.Prelude.{
  ℕ, zero, suc, ◌+◌, ◌*◌, ◌-◌, ◌/◌, ◌%◌, ◌<◌, ◌≡◌, refl, ap, ◌∙◌, inl, inr, Bytes, Bool, true,
  false, ◌&&◌, ◌||◌, Option, none, some, [], ◌∷◌, ◌++◌, if◌then◌else◌, ltb, leb, ◌==◌, ==_iff,
  arith, every_below, every_below-entry, Bool-cases,
}
use zoo_keeper_server.Streaming.{hex, escape_byte, json_escaped, backslash, quote}

-- Where a reader of the inside of a JSON string stands: in plain text, behind a backslash, or in
-- the digits of a `\u` escape, with the number of digits left and the value so far.
pub data Mode : Type 0 where
  plain slash : Mode
  digits : ℕ → ℕ → Mode

-- The one-letter escapes of JSON.
abbrev letter : ℕ → Option ℕ
letter c =
    if c == quote
    then some quote
    else if c == backslash
    then some backslash
    else if c == b'/'
    then some b'/'
    else if c == b'b'
    then some 8
    else if c == b'f'
    then some 12
    else if c == b'n'
    then some 10
    else if c == b'r'
    then some 13
    else if c == b't'
    then some 9
    else none

hex_value : ℕ → Option ℕ
hex_value c =
    if leb b'0' c && leb c b'9'
    then some (c - b'0')
    else if leb b'a' c && leb c b'f'
    then some (c - 87)
    else if leb b'A' c && leb c b'F'
    then some (c - 55)
    else none

-- Reads the inside of a JSON string; a quote or a control byte may not stand there bare. A `\u`
-- escape is read as one byte, which is all that the server writes.
pub unescape : Mode → Bytes → Option Bytes
unescape plain [] = some []
unescape slash [] = none
unescape (digits k v) [] = none
unescape plain (c ∷ s) = elim (c == backslash) [
  | true ↦ unescape slash s
  | false ↦ elim (ltb c 0x20 || c == quote) [
    | true ↦ none
    | false ↦ Option.map (λ t. c ∷ t) (unescape plain s)
  ]
]
unescape slash (c ∷ s) = elim (letter c) [
  | some d ↦ Option.map (λ t. d ∷ t) (unescape plain s)
  | none ↦ elim (c == b'u') [ true ↦ unescape (digits 3 0) s | false ↦ none ]
]
unescape (digits zero v) (c ∷ s) = elim (hex_value c) [
  | some d ↦ Option.map (λ t. (v * 16 + d) ∷ t) (unescape plain s)
  | none ↦ none
]
unescape (digits (suc k) v) (c ∷ s) = elim (hex_value c) [
  | some d ↦ unescape (digits k (v * 16 + d)) s
  | none ↦ none
]

reads_as : Option ℕ → ℕ → Bool
reads_as none n = false
reads_as (some d) n = d == n

reads_as-eq : (o : Option ℕ) (n : ℕ) → reads_as o n ≡ true → o ≡ some n
unfolding reads_as
reads_as-eq none n h = cc
reads_as-eq (some d) n h = ap some ((==_iff d n).0 h)

hex_table : every_below (λ n. reads_as (hex_value (hex n)) n) 16 ≡ true
unfolding every_below reads_as hex hex_value
hex_table = refl

hex_value-hex : (n : ℕ) → n < 16 → hex_value (hex n) ≡ some n
hex_value-hex n h =
    reads_as-eq (hex_value (hex n)) n
      (every_below-entry (λ n. reads_as (hex_value (hex n)) n) 16 n h hex_table)

read_last :
    (l e v : ℕ) (s : Bytes)
    → hex_value l ≡ some e
    → unescape (digits 0 v) (l ∷ s) ≡ Option.map (λ t. (v * 16 + e) ∷ t) (unescape plain s)
unfolding unescape
read_last l e v s q = rw (q, unescape)

-- The last two digits of an escape.
read_two :
    (h l d e : ℕ) (s : Bytes)
    → hex_value h ≡ some d
    → hex_value l ≡ some e
    → unescape (digits 1 0) (h ∷ l ∷ s)
      ≡ Option.map (λ t. ((0 * 16 + d) * 16 + e) ∷ t) (unescape plain s)
unfolding unescape
read_two h l d e s p q = rw (p, unescape) (read_last l e (0 * 16 + d) s q)

read_plain :
    (c : ℕ) (s : Bytes)
    → (c == backslash) ≡ false
    → (c == quote) ≡ false
    → ltb c 0x20 ≡ false
    → unescape plain (c ∷ s) ≡ Option.map (λ t. c ∷ t) (unescape plain s)
unfolding unescape
read_plain c s b q h = rw (b, unescape) (rw (h, q))

unescape-escape_byte :
    (c : ℕ) (s : Bytes)
    → unescape plain (escape_byte c ++ s) ≡ Option.map (λ t. c ∷ t) (unescape plain s)
unfolding unescape escape_byte hex_value
unescape-escape_byte c s = elim (Bool-cases (c == quote)) [
  | inl e ↦ rw ((==_iff c quote).0 e)
  | inr e1 ↦ elim (Bool-cases (c == backslash)) [
    | inl e ↦ rw ((==_iff c backslash).0 e)
    | inr e2 ↦ elim (Bool-cases (c == 8)) [
      | inl e ↦ rw ((==_iff c 8).0 e)
      | inr e3 ↦ elim (Bool-cases (c == 12)) [
        | inl e ↦ rw ((==_iff c 12).0 e)
        | inr e4 ↦ elim (Bool-cases (c == 10)) [
          | inl e ↦ rw ((==_iff c 10).0 e)
          | inr e5 ↦ elim (Bool-cases (c == 13)) [
            | inl e ↦ rw ((==_iff c 13).0 e)
            | inr e6 ↦ elim (Bool-cases (c == 9)) [
              | inl e ↦ rw ((==_iff c 9).0 e)
              | inr e7 ↦ elim (Bool-cases (ltb c 0x20)) [
                | inl low ↦
                    let value : (0 * 16 + c / 16 % 16) * 16 + c % 16 ≡ c = ground arith in
                    rw (e1, e2, e3, e4, e5, e6, e7, low)
                      (read_two (hex (c / 16 % 16)) (hex (c % 16)) (c / 16 % 16) (c % 16) s
                          (hex_value-hex (c / 16 % 16) (omega arith))
                          (hex_value-hex (c % 16) (omega arith))
                        ∙ ap (λ (d : ℕ). Option.map (λ t. d ∷ t) (unescape plain s)) value)
                | inr high ↦ rw (e1, e2, e3, e4, e5, e6, e7, high) (read_plain c s e2 e1 high)
              ]
            ]
          ]
        ]
      ]
    ]
  ]
]

-- A JSON reader that stands inside a string reads back exactly the bytes that were escaped; so no
-- bare quote and no control byte is among what is written.
pub unescape-json_escaped : (s : Bytes) → unescape plain (json_escaped s) ≡ some s
unfolding json_escaped unescape
unescape-json_escaped [] = refl
unescape-json_escaped (c ∷ s) =
    unescape-escape_byte c (json_escaped s) ∙ ap (Option.map (λ t. c ∷ t)) (unescape-json_escaped s)
