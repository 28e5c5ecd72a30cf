-- ===== src/Bodies/History.antt =====
-- The messages of a history that is printed are read back by the parser of a history.
use mathlib.Core.List.{map-append, append_assoc, append-nil}
use zoo_keeper_server.Prelude.{
  ◌≡◌, refl, sym, ap, ◌∙◌, Bytes, Option, List, [], ◌∷◌, ◌++◌, map, ◌==ᵇ◌, text, All,
}
use zoo_keeper_server.Api.{ok, Role, MessageApi, ApiError}
use zoo_keeper_server.Json.{array_of, JsonApi, member, is_allowed}
use zoo_keeper_server.Requests.Messages.{MessageParts, parse_messages}
use zoo_keeper_server.Requests.Parse.{parse_agent_history_request, parse_body, message_items}
use zoo_keeper_server.Requests.Accepted.{IsSequence}
use zoo_keeper_server.Bodies.{RoleNames, make_message_body}
use zoo_keeper_server.Bodies.RoundTrip.{
  IsPrintable, Same, parse_message-print, reject_lem, required_lem,
}

-- The check reads the roles of the messages alone.
abbrev pub ReadsRoles : {M : Type 0} ⦃api : MessageApi M⦄ → (List M → Role → Option Bytes) → Type 0
ReadsRoles {M} ⦃api⦄ validate =
    (ms ns : List M) (r : Role) → map api.role ms ≡ map api.role ns → validate ms r ≡ validate ns r

module _ {M : Type 0} ⦃api : MessageApi M⦄ ⦃parts : MessageParts M⦄ where
  -- Message by message the same.
  abbrev pub AllSame : List M → List M → Type 0
  AllSame [] [] = Unit
  AllSame [] (n ∷ ns) = ⊥
  AllSame (m ∷ ms) [] = ⊥
  AllSame (m ∷ ms) (n ∷ ns) = Same m n × AllSame ms ns

module _ {J R I M : Type 0} (json : JsonApi J R I) (names : RoleNames) ⦃api : MessageApi M⦄
    ⦃parts : MessageParts M⦄ (validate : List M → Role → Option Bytes) where
  parse_messages-print :
      ReadsRoles validate
      → (ms seed read : List M) → map api.role seed ≡ map api.role read
      → All IsPrintable ms
      → IsSequence validate seed ms
      → (ns : List M) × AllSame ms ns
        × (parse_messages json validate (map (make_message_body json names) ms) read
            ≡ ok (read ++ ns))
  unfolding parse_messages
  parse_messages-print by_roles [] seed read same p v = ([], tt, rw (append-nil read))
  parse_messages-print by_roles (m ∷ ms) seed read same p v =
      let (n, equal, first) =
        parse_message-print json names validate m read p.0
          (sym (by_roles seed read (api.role m) same) ∙ v.0) in
      let grown : map api.role (seed ++ (m ∷ [])) ≡ map api.role (read ++ (n ∷ [])) =
        rw (
          map-append api.role seed (m ∷ []),
          map-append api.role read (n ∷ []),
          same,
          equal.roles,
        ) in
      let (ns, rest, e) =
        parse_messages-print by_roles ms (seed ++ (m ∷ [])) (read ++ (n ∷ [])) grown p.1 v.1 in
      (
        n ∷ ns,
        (equal, rest),
        rw first (e ∙ ap (λ (l : List M). ok l) (append_assoc read (n ∷ []) ns)),
      )

  -- The messages of a history, printed one by one and sent back as the body of a history request,
  -- are accepted, and each is the same in role, content, id and tool calls. This for messages that
  -- the printer can show and that may follow one another, where the check of the sequence reads
  -- roles alone, and for any text of the body that the library parses as the printed object.
  pub history_roundtrip :
      ReadsRoles validate
      → (ms : List M) → All IsPrintable ms
      → IsSequence validate [] ms
      → (body : Bytes)
      → json.parse body
        ≡ ok (
            json.from_object
              ((text "messages", json.from_array (map (make_message_body json names) ms)) ∷ []))
      → (ns : List M) × AllSame ms ns × (parse_agent_history_request json validate body ≡ ok ns)
  unfolding parse_agent_history_request parse_body message_items member is_allowed ◌==ᵇ◌ text
  history_roundtrip by_roles ms p v body parsed =
      let (ns, same, e) = parse_messages-print by_roles ms [] [] refl p v in
      let js = json.from_array (map (make_message_body json names) ms) in
      let m = (text "messages", js) ∷ [] in
      let keys = reject_lem json m (text "request") (text "messages" ∷ []) (refl, tt) in
      let items = λ (e : ApiError).
        required_lem json (array_of json) (text "messages") m e js
          (map (make_message_body json names) ms) refl (rw (json.view-from_array _)) in
      (ns, same, rw (parsed, parse_body) (rw keys (rw (items _) e)))
