-- ===== src/Streaming.antt =====
-- src/server/streaming.cpp: JSON escaping and the frames of a streamed completion. `created` is a
-- second count from the epoch, not negative.
pub mod Escape
pub mod Frames
use zoo_keeper_server.Prelude.{
  ℕ, ◌+◌, ◌/◌, ◌%◌, Bytes, Bool, true, false, Option, none, some, List, [], ◌∷◌, ◌++◌,
  if◌then◌else◌, ltb, ◌==◌, get_elem?, text, to_string,
}

abbrev pub hex_digits : Bytes
hex_digits =
    b'0' ∷ b'1' ∷ b'2' ∷ b'3' ∷ b'4' ∷ b'5' ∷ b'6' ∷ b'7' ∷ b'8' ∷ b'9' ∷ b'a' ∷ b'b' ∷ b'c' ∷ b'd'
    ∷ b'e' ∷ b'f' ∷ []

-- `hex[n]`, for an `n` that is masked to four bits.
unfoldable pub hex : ℕ → ℕ
hex n = elim (get_elem? hex_digits n) [ none ↦ 0 | some c ↦ c ]

abbrev pub backslash : ℕ
backslash = 92

abbrev pub quote : ℕ
quote = 34

-- The `switch` of `append_json_escaped` on one byte.
unfoldable pub escape_byte : ℕ → Bytes
escape_byte c =
    if c == quote
    then backslash ∷ quote ∷ []
    else if c == backslash
    then backslash ∷ backslash ∷ []
    else if c == 8
    then backslash ∷ b'b' ∷ []
    else if c == 12
    then backslash ∷ b'f' ∷ []
    else if c == 10
    then backslash ∷ b'n' ∷ []
    else if c == 13
    then backslash ∷ b'r' ∷ []
    else if c == 9
    then backslash ∷ b't' ∷ []
    else if ltb c 0x20
    then backslash ∷ b'u' ∷ b'0' ∷ b'0' ∷ hex (c / 16 % 16) ∷ hex (c % 16) ∷ []
    else c ∷ []

-- What `append_json_escaped` appends.
unfoldable pub json_escaped : Bytes → Bytes
json_escaped [] = []
json_escaped (c ∷ s) = escape_byte c ++ json_escaped s

-- The value of `"content"`, behind a comma if a field stands before it.
content_field : Bool → Option Bytes → Bytes
content_field first none = []
content_field first (some content) =
    (if first then text "," else [])
    ++ (text "\"content\":\"" ++ (json_escaped content ++ text "\""))

finish_reason_field : Option Bytes → Bytes
finish_reason_field none = text "null"
finish_reason_field (some reason) = text "\"" ++ (json_escaped reason ++ text "\"")

unfoldable pub make_chunk_impl : Bytes → ℕ → Bytes → Option Bytes → Bool → Option Bytes → Bytes
unfolding content_field finish_reason_field
make_chunk_impl completion_id created model_id content include_role finish_reason =
    text "data: {\"id\":\""
    ++ (json_escaped completion_id
        ++ (text "\",\"object\":\"chat.completion.chunk\",\"created\":"
            ++ (to_string created
                ++ (text ",\"model\":\""
                    ++ (json_escaped model_id
                        ++ (text "\",\"choices\":[{\"index\":0,\"delta\":{"
                            ++ ((if include_role then text "\"role\":\"assistant\"" else [])
                                ++ (content_field include_role content
                                    ++ (text "},\"finish_reason\":"
                                        ++ (finish_reason_field finish_reason
                                            ++ (text "}]}" ++ text "\n\n")))))))))))

unfoldable pub make_sse_done : Bytes
make_sse_done = text "data: [DONE]\n\n"

abbrev pub make_first_streaming_chunk : Bytes → ℕ → Bytes → Option Bytes → Option Bytes → Bytes
make_first_streaming_chunk completion_id created model_id content finish_reason =
    make_chunk_impl completion_id created model_id content true finish_reason

abbrev pub make_streaming_chunk : Bytes → ℕ → Bytes → Option Bytes → Option Bytes → Bytes
make_streaming_chunk completion_id created model_id content finish_reason =
    make_chunk_impl completion_id created model_id content false finish_reason

-- `payload` is what the JSON library prints for the body.
unfoldable pub make_sse_data : Bytes → Bytes
make_sse_data payload = text "data: " ++ (payload ++ text "\n\n")
