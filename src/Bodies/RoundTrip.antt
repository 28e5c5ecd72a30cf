-- ===== src/Bodies/RoundTrip.antt =====
-- A message that is printed into a body is read back by the parser of requests.
use zoo_keeper_server.Prelude.{
  ◌≡◌, refl, sym, ◌∙◌, Bytes, Bool, true, false, Option, none, some, List, [], ◌∷◌, ◌++◌, map,
  ◌==ᵇ◌, is_empty, has_value, text,
}
use zoo_keeper_server.Api.{ok, ApiError, Role, MessageApi}
use zoo_keeper_server.Json.{
  array_of, contains, object_of, required, string_of, JsonApi, member, is_allowed,
}
use zoo_keeper_server.Json.Members.{AllAllowed, reject_unknown_keys-from_object, member-from_object}
use zoo_keeper_server.Requests.Messages.{
  ToolCall, MessageParts, reject_api_unknown_keys, tool_call_keys, function_keys, message_keys,
  parse_role, parse_tool_call, parse_tool_calls, tool_message, calls_message, other_message,
  message_of, parse_message,
}
use zoo_keeper_server.Bodies.{RoleNames, make_tool_call, make_message_body, id_member, calls_member}

module _ {J R I : Type 0} (json : JsonApi J R I) where
  pub reject_lem :
      (m : List (Bytes × J)) (context : Bytes) (allowed : List Bytes)
      → AllAllowed allowed m
      → reject_api_unknown_keys json (json.from_object m) context allowed ≡ ok tt
  unfolding reject_api_unknown_keys
  reject_lem m context allowed h =
      rw (reject_unknown_keys-from_object json m context allowed h, reject_api_unknown_keys)

  pub required_lem :
      {A : Type 0} (read : J → Option A) (key : Bytes) (m : List (Bytes × J)) (e : ApiError) (v : J)
      (a : A)
      → member key m ≡ some v
      → read v ≡ some a
      → required json read key (json.from_object m) e ≡ ok a
  unfolding required
  required_lem read key m e v a there good =
      rw (member-from_object json key m, required) (rw (there, required) (rw (good, required)))

  contains_lem :
      (key : Bytes) (m : List (Bytes × J))
      → contains json key (json.from_object m) ≡ has_value (member key m)
  contains_lem key m = rw (member-from_object json key m)

  string_lem : (s : Bytes) → string_of json (json.from_string s) ≡ some s
  string_lem s = rw (json.view-from_string s)

  object_lem :
      (m : List (Bytes × J)) → object_of json (json.from_object m) ≡ some (json.from_object m)
  object_lem m = rw (json.view-from_object m)

  abbrev function_members : ToolCall → List (Bytes × J)
  function_members call =
      (text "name", json.from_string call.name)
      ∷ (text "arguments", json.from_string call.arguments_json)
      ∷ []

  abbrev call_members : ToolCall → List (Bytes × J)
  call_members call =
      (text "id", json.from_string call.id)
      ∷ (text "type", json.from_string (text "function"))
      ∷ (text "function", json.from_object (function_members call))
      ∷ []

  call_keys : (call : ToolCall) → AllAllowed tool_call_keys (call_members call)
  unfolding is_allowed ◌==ᵇ◌ text
  call_keys call = (refl, (refl, (refl, tt)))

  function_names : (call : ToolCall) → AllAllowed function_keys (function_members call)
  unfolding is_allowed ◌==ᵇ◌ text
  function_names call = (refl, (refl, tt))

  required_string :
      (key : Bytes) (m : List (Bytes × J)) (e : ApiError) (s : Bytes)
      → member key m ≡ some (json.from_string s)
      → required json (string_of json) key (json.from_object m) e ≡ ok s
  required_string key m e s there =
      required_lem (string_of json) key m e (json.from_string s) s there (string_lem s)

  parse_tool_call-make :
      (call : ToolCall) → parse_tool_call json (make_tool_call json call) ≡ ok call
  unfolding parse_tool_call make_tool_call member ◌==ᵇ◌ text
  parse_tool_call-make call =
      let keys =
        reject_lem (call_members call) (text "tool_call") tool_call_keys (call_keys call) in
      let names =
        reject_lem (function_members call) (text "tool_call.function") function_keys
          (function_names call) in
      let id = λ (e : ApiError). required_string (text "id") (call_members call) e call.id refl in
      let kind = λ (e : ApiError).
        required_string (text "type") (call_members call) e (text "function") refl in
      let function = λ (e : ApiError).
        required_lem (object_of json) (text "function") (call_members call) e
          (json.from_object (function_members call)) (json.from_object (function_members call)) refl
          (object_lem (function_members call)) in
      let name =
        λ (e : ApiError). required_string (text "name") (function_members call) e call.name refl in
      let arguments = λ (e : ApiError).
        required_string (text "arguments") (function_members call) e call.arguments_json refl in
      rw (keys)
        (rw (id _) (rw (kind _) (rw (function _) (rw (names) (rw (name _) (rw (arguments _)))))))

  parse_tool_calls-make :
      (calls : List ToolCall) → parse_tool_calls json (map (make_tool_call json) calls) ≡ ok calls
  unfolding parse_tool_calls
  parse_tool_calls-make [] = refl
  parse_tool_calls-make (call ∷ calls) =
      rw (parse_tool_call-make call) (rw (parse_tool_calls-make calls))

  abbrev message_members : J → J → Bytes → List ToolCall → List (Bytes × J)
  message_members role content id calls =
      (text "role", role)
      ∷ (text "content", content)
      ∷ (id_member json id ++ calls_member json calls)

  message_names :
      (r c : J) (id : Bytes) (calls : List ToolCall)
      → AllAllowed message_keys (message_members r c id calls)
  unfolding is_allowed ◌==ᵇ◌ text
  message_names r c [] [] = (refl, (refl, tt))
  message_names r c [] (call ∷ calls) = (refl, (refl, (refl, tt)))
  message_names r c (x ∷ id) [] = (refl, (refl, (refl, tt)))
  message_names r c (x ∷ id) (call ∷ calls) = (refl, (refl, (refl, (refl, tt))))

parse_role-name : (names : RoleNames) (r : Role) → parse_role (names.role_to_string r) ≡ ok r
unfolding parse_role ◌==ᵇ◌ text
parse_role-name names Role.system = rw names.of_system
parse_role-name names Role.user = rw names.of_user
parse_role-name names Role.assistant = rw names.of_assistant
parse_role-name names Role.tool = rw names.of_tool

abbrev pub is_tool : Role → Bool
is_tool Role.tool = true
is_tool _ = false

module _ {M : Type 0} ⦃api : MessageApi M⦄ ⦃parts : MessageParts M⦄ where
  -- The messages that the printer can show: an id just on tool messages, and there not empty, and
  -- tool calls on assistant messages alone.
  pub data IsPrintable (m : M) : Type 0 where
    as_tool :
        api.role m ≡ Role.tool
        → is_empty (parts.tool_call_id m) ≡ false
        → parts.tool_calls m ≡ []
        → IsPrintable m
    as_plain :
        is_tool (api.role m) ≡ false
        → parts.tool_call_id m ≡ []
        → parts.tool_calls m ≡ []
        → IsPrintable m
    as_calls :
        api.role m ≡ Role.assistant
        → parts.tool_call_id m ≡ []
        → is_empty (parts.tool_calls m) ≡ false
        → IsPrintable m

  -- The same in all that the server reads of a message.
  pub record Same (m n : M) : Type 0 where
    pub roles : api.role n ≡ api.role m
    pub contents : api.content n ≡ api.content m
    pub ids : parts.tool_call_id n ≡ parts.tool_call_id m
    pub calls : parts.tool_calls n ≡ parts.tool_calls m

module _ {J R I M : Type 0} (json : JsonApi J R I) ⦃api : MessageApi M⦄
    ⦃parts : MessageParts M⦄ where
  tool_case :
      (r c : J) (id content : Bytes)
      → is_empty id ≡ false
      → tool_message json (json.from_object (message_members json r c id [])) content
        ≡ ok (parts.tool content id)
  unfolding tool_message member ◌==ᵇ◌ text
  tool_case r c [] content h = cc
  tool_case r c (x ∷ id) content h =
      rw (contains_lem json (text "tool_calls") (message_members json r c (x ∷ id) [])) (
        rw (
          required_string json (text "tool_call_id") (message_members json r c (x ∷ id) []) _
            (x ∷ id) refl))

  plain_case :
      (r c : J) (role : Role) (content : Bytes)
      → other_message json (json.from_object (message_members json r c [] [])) role content
        ≡ ok (parts.plain role content)
  unfolding other_message member ◌==ᵇ◌ text
  plain_case r c role content =
      rw (contains_lem json (text "tool_call_id") (message_members json r c [] []))
        (rw (contains_lem json (text "tool_calls") (message_members json r c [] [])))

  calls_case :
      (r c : J) (calls : List ToolCall) (content : Bytes)
      → is_empty calls ≡ false
      → other_message json
          (json.from_object (message_members json r c [] calls))
          Role.assistant
          content
        ≡ ok (parts.assistant_with_tool_calls content calls)
  unfolding other_message calls_message member ◌==ᵇ◌ text
  calls_case r c [] content h = cc
  calls_case r c (call ∷ calls) content h =
      let m = message_members json r c [] (call ∷ calls) in
      let js = map (make_tool_call json) (call ∷ calls) in
      rw (contains_lem json (text "tool_call_id") m) (
        rw (contains_lem json (text "tool_calls") m) (
          rw
            (required_lem json (array_of json) (text "tool_calls") m _ (json.from_array js) js refl
              (rw (json.view-from_array js)))
            (rw (parse_tool_calls-make json (call ∷ calls)))))

  message_of_plain :
      (j : J) (role : Role) (content : Bytes)
      → is_tool role ≡ false
      → message_of {M = M} json j role content ≡ other_message json j role content
  message_of_plain j Role.system content h = refl
  message_of_plain j Role.user content h = refl
  message_of_plain j Role.assistant content h = refl
  message_of_plain j Role.tool content h = cc

  abbrev fields_of : RoleNames → M → List (Bytes × J)
  fields_of names m =
      message_members json (json.from_string (names.role_to_string (api.role m)))
        (json.from_string (api.content m)) (parts.tool_call_id m) (parts.tool_calls m)

  message_of-print :
      (names : RoleNames) (m : M)
      → IsPrintable m
      → (n : M) × Same m n
        × (message_of json (json.from_object (fields_of names m)) (api.role m) (api.content m)
            ≡ ok n)
  message_of-print names m (as_tool e i c) = (
    parts.tool (api.content m) (parts.tool_call_id m),
    record {
      roles = parts.role-tool _ _ ∙ sym e;
      contents = parts.content-tool _ _;
      ids = parts.tool_call_id-tool _ _;
      calls = parts.tool_calls-tool _ _ ∙ sym c;
    },
    rw e (rw c (tool_case _ _ (parts.tool_call_id m) (api.content m) i)),
  )
  message_of-print names m (as_plain e i c) = (
    parts.plain (api.role m) (api.content m),
    record {
      roles = parts.role-plain _ _;
      contents = parts.content-plain _ _;
      ids = parts.tool_call_id-plain _ _ ∙ sym i;
      calls = parts.tool_calls-plain _ _ ∙ sym c;
    },
    message_of_plain _ (api.role m) (api.content m) e
        ∙ rw i (rw c (plain_case _ _ (api.role m) (api.content m))),
  )
  message_of-print names m (as_calls e i c) = (
    parts.assistant_with_tool_calls (api.content m) (parts.tool_calls m),
    record {
      roles = parts.role-with_calls _ _ ∙ sym e;
      contents = parts.content-with_calls _ _;
      ids = parts.tool_call_id-with_calls _ _ ∙ sym i;
      calls = parts.tool_calls-with_calls _ _;
    },
    rw e (rw i (calls_case _ _ (parts.tool_calls m) (api.content m) c)),
  )

  pub parse_message-print :
      (names : RoleNames) (validate : List M → Role → Option Bytes) (m : M) (seed : List M)
      → IsPrintable m
      → validate seed (api.role m) ≡ none
      → (n : M) × Same m n
        × (parse_message json validate (make_message_body json names m) seed
            ≡ ok (n, seed ++ (n ∷ [])))
  unfolding parse_message make_message_body member ◌==ᵇ◌ text
  parse_message-print names validate m seed h valid =
      let (n, same, e) = message_of-print names m h in
      let ms = fields_of names m in
      let keys = reject_lem json ms (text "message") message_keys (
        message_names json (json.from_string (names.role_to_string (api.role m)))
          (json.from_string (api.content m)) (parts.tool_call_id m) (parts.tool_calls m)) in
      let name = λ (e : ApiError).
        required_string json (text "role") ms e (names.role_to_string (api.role m)) refl in
      let content =
        λ (e : ApiError). required_string json (text "content") ms e (api.content m) refl in
      let fits : validate seed (api.role n) ≡ none = rw same.roles valid in
      (
        n,
        same,
        rw keys (
            rw (name _)
              (rw (content _) (rw (parse_role-name names (api.role m)) (rw e (rw (fits)))))),
      )
