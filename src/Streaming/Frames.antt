-- ===== src/Streaming/Frames.antt =====
-- Each chunk is one server-sent event, whatever the texts in it hold.
use zoo_keeper_server.Prelude.{
  ℕ, ◌/◌, ◌%◌, ◌<◌, ◌≡◌, ◌≢◌, refl, ap, sym, ◌∙◌, Bytes, Bool, true, false, Option, none, some,
  String, List, [], ◌∷◌, ◌++◌, if◌then◌else◌, ◌==◌, All, text, to_string, arith, every_below,
  every_below-entry, not, ◌&&◌, ◌≤◌, to_string-IsDecimal,
}
use mathlib.Core.List.{append_assoc}
use zoo_keeper_server.Streaming.{
  hex, escape_byte, json_escaped, make_chunk_impl, content_field, finish_reason_field,
}

-- No line break.
pub record IsLine (s : Bytes) : Type 0 where
  pub clean : All (λ c. (c ≢ 10) × (c ≢ 13)) s

-- One event with the given data line.
abbrev pub frame : Bytes → Bytes
frame line = text "data: " ++ (line ++ text "\n\n")

join : (s t : Bytes) → IsLine s → IsLine t → All (λ c. (c ≢ 10) × (c ≢ 13)) (s ++ t)
join [] t h k = k.clean
join (c ∷ s) t h k = (h.clean.0, join s t (record { clean = h.clean.1 }) k)

IsLine-append : (s t : Bytes) → IsLine s → IsLine t → IsLine (s ++ t)
IsLine-append s t h k = record { clean = join s t h k }

hex_line_table : every_below (λ n. not (hex n == 10) && not (hex n == 13)) 16 ≡ true
unfolding every_below hex
hex_line_table = refl

hex_line : (n : ℕ) → n < 16 → (hex n ≢ 10) × (hex n ≢ 13)
hex_line n h =
    ground
      (arith, every_below-entry (λ n. not (hex n == 10) && not (hex n == 13)) 16 n h hex_line_table)

escape_byte-IsLine : (c : ℕ) → IsLine (escape_byte c)
unfolding escape_byte
escape_byte-IsLine c = record {
  clean = ground (arith, hex_line (c / 16 % 16) (omega arith), hex_line (c % 16) (omega arith));
}

json_escaped-IsLine : (s : Bytes) → IsLine (json_escaped s)
unfolding json_escaped
json_escaped-IsLine [] = record { clean = tt }
json_escaped-IsLine (c ∷ s) = IsLine-append _ _ (escape_byte-IsLine c) (json_escaped-IsLine s)

All-weaken {ℓ κ ρ} :
    {A : Type ℓ} (P : A → Type κ) (Q : A → Type ρ)
    → ((a : A) → P a → Q a)
    → (xs : List A) → All P xs
    → All Q xs
All-weaken P Q f [] h = tt
All-weaken P Q f (x ∷ xs) h = (f x h.0, All-weaken P Q f xs h.1)

to_string-IsLine : (n : ℕ) → IsLine (to_string n)
to_string-IsLine n = record {
  clean =
      All-weaken (λ c. (b'0' ≤ c) × (c ≤ b'9')) (λ c. (c ≢ 10) × (c ≢ 13))
        (λ c h. (omega arith, omega arith)) (to_string n) (to_string-IsDecimal n);
}

-- A line and the blank line that ends an event.
abbrev IsTail : Bytes → Type 0
IsTail s = (line : Bytes) × (s ≡ line ++ text "\n\n") × IsLine line

IsTail-append : (s t : Bytes) → IsLine s → IsTail t → IsTail (s ++ t)
IsTail-append s t h (line, e, k) =
    (s ++ line, ap (◌++◌ s) e ∙ sym (append_assoc s line (text "\n\n")), IsLine-append s line h k)

is_line : Bytes → Bool
is_line [] = true
is_line (c ∷ s) = (not (c == 10) && not (c == 13)) && is_line s

is_line_sound : (s : Bytes) → is_line s ≡ true → IsLine s
unfolding is_line
is_line_sound [] h = record { clean = tt }
is_line_sound (c ∷ s) h =
    let rest = is_line_sound s (ground arith) in record { clean = (ground arith, rest.clean) }

-- A literal of the source without line breaks.
literal : (s : String) → is_line (text s) ≡ true → IsLine (text s)
literal s h = is_line_sound (text s) h

content_field-IsLine :
    (first : Bool) (content : Option Bytes) → IsLine (content_field first content)
unfolding content_field text is_line
content_field-IsLine first none = record { clean = tt }
content_field-IsLine true (some c) = IsLine-append (text ",") _ (literal "," refl) (
    IsLine-append (text "\"content\":\"") _ (literal "\"content\":\"" refl)
      (IsLine-append (json_escaped c) _ (json_escaped-IsLine c) (literal "\"" refl)))
content_field-IsLine false (some c) =
    IsLine-append (text "\"content\":\"") _ (literal "\"content\":\"" refl)
      (IsLine-append (json_escaped c) _ (json_escaped-IsLine c) (literal "\"" refl))

finish_reason_field-IsLine : (reason : Option Bytes) → IsLine (finish_reason_field reason)
unfolding finish_reason_field text is_line
finish_reason_field-IsLine none = literal "null" refl
finish_reason_field-IsLine (some r) =
    IsLine-append (text "\"") _ (literal "\"" refl)
      (IsLine-append (json_escaped r) _ (json_escaped-IsLine r) (literal "\"" refl))

role_field-IsLine : (b : Bool) → IsLine (if b then text "\"role\":\"assistant\"" else [])
unfolding text is_line
role_field-IsLine true = literal "\"role\":\"assistant\"" refl
role_field-IsLine false = record { clean = tt }

-- What follows the first literal of a chunk.
after_id : Bytes → ℕ → Bytes → Option Bytes → Bool → Option Bytes → Bytes
after_id id created model content role reason =
    json_escaped id
    ++ (text "\",\"object\":\"chat.completion.chunk\",\"created\":"
        ++ (to_string created
            ++ (text ",\"model\":\""
                ++ (json_escaped model
                    ++ (text "\",\"choices\":[{\"index\":0,\"delta\":{"
                        ++ ((if role then text "\"role\":\"assistant\"" else [])
                            ++ (content_field role content
                                ++ (text "},\"finish_reason\":"
                                    ++ (finish_reason_field reason
                                        ++ (text "}]}" ++ text "\n\n"))))))))))

after_id-IsTail :
    (id : Bytes) (created : ℕ) (model : Bytes) (content : Option Bytes) (role : Bool)
    (reason : Option Bytes)
    → IsTail (after_id id created model content role reason)
unfolding after_id text is_line
after_id-IsTail id created model content role reason = IsTail-append _ _ (json_escaped-IsLine id) (
    IsTail-append (text "\",\"object\":\"chat.completion.chunk\",\"created\":") _
      (literal "\",\"object\":\"chat.completion.chunk\",\"created\":" refl)
      (IsTail-append _ _ (to_string-IsLine created) (
        IsTail-append (text ",\"model\":\"") _ (literal ",\"model\":\"" refl) (
          IsTail-append _ _ (json_escaped-IsLine model) (
            IsTail-append (text "\",\"choices\":[{\"index\":0,\"delta\":{") _
              (literal "\",\"choices\":[{\"index\":0,\"delta\":{" refl)
              (IsTail-append _ _ (role_field-IsLine role) (
                IsTail-append _ _ (content_field-IsLine role content) (
                  IsTail-append (text "},\"finish_reason\":") _
                    (literal "},\"finish_reason\":" refl)
                    (IsTail-append _ _ (finish_reason_field-IsLine reason)
                      (text "}]}", refl, literal "}]}" refl))))))))))

-- Whatever bytes the id, the model name, the content and the finish reason hold, a chunk is one
-- event of the stream: "data: ", one line with no line break in it, and the blank line.
pub make_chunk_impl-frame :
    (id : Bytes) (created : ℕ) (model : Bytes) (content : Option Bytes) (role : Bool)
    (reason : Option Bytes)
    → (line : Bytes) × (make_chunk_impl id created model content role reason ≡ frame line)
      × IsLine line
unfolding make_chunk_impl after_id text is_line
make_chunk_impl-frame id created model content role reason =
    let (line, e, h) = after_id-IsTail id created model content role reason in
    (
      text "{\"id\":\"" ++ line,
      ap (λ (t : Bytes). text "data: {\"id\":\"" ++ t) e,
      IsLine-append (text "{\"id\":\"") line (literal "{\"id\":\"" refl) h,
    )
