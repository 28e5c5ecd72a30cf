-- ===== src/Tests.antt =====
-- Runs of the model at concrete inputs, and the data they share: messages that are a role and a
-- text, a store with two sessions, of which one is busy, and a service on it.
pub mod Sessions
pub mod Requests
pub mod Runtimes
pub mod Streams
pub mod Json
pub mod Bodies
pub mod Tools
pub mod Configs
pub mod Routes
use zoo_keeper_server.Prelude.{
  ℕ, Bytes, Option, none, some, List, [], ◌∷◌, ◌==◌, text, refl, false, if◌then◌else◌,
}
use zoo_keeper_server.Api.{MessageApi, Role, SessionCreateRequest, ChatCompletionRequest}
use zoo_keeper_server.Session.Store.{SessionConfig, SessionState, Store, make_store}
use zoo_keeper_server.Chat.{Service}
use zoo_keeper_server.Requests.Messages.{ToolCall, MessageParts}

pub record Message : Type 0 where
  pub role : Role
  pub content : Bytes
  pub tool_call_id : Bytes
  pub tool_calls : List ToolCall

abbrev plain_message : Role → Bytes → Message
plain_message r t = record { role = r; content = t; tool_call_id = []; tool_calls = [] }

instance abbrev pub message_api : MessageApi Message
message_api = record {
  role = λ m. m.role;
  content = λ m. m.content;
  system = plain_message Role.system;
  assistant = plain_message Role.assistant;
  with_content = λ m t. record m { content = t };
  role-system = λ t. refl;
  content-system = λ t. refl;
  role-assistant = λ t. refl;
  content-assistant = λ t. refl;
  role-with_content = λ m t. refl;
  content-with_content = λ m t. refl;
}

instance abbrev pub message_parts : MessageParts Message
message_parts = record {
  tool_call_id = λ m. m.tool_call_id;
  tool_calls = λ m. m.tool_calls;
  plain = plain_message;
  tool = λ t id. record (plain_message Role.tool t) { tool_call_id = id };
  assistant_with_tool_calls = λ t cs. record (plain_message Role.assistant t) { tool_calls = cs };
  role-plain = λ r t. refl;
  content-plain = λ r t. refl;
  tool_call_id-plain = λ r t. refl;
  tool_calls-plain = λ r t. refl;
  role-tool = λ t id. refl;
  content-tool = λ t id. refl;
  tool_call_id-tool = λ t id. refl;
  tool_calls-tool = λ t id. refl;
  role-with_calls = λ t cs. refl;
  content-with_calls = λ t cs. refl;
  tool_call_id-with_calls = λ t cs. refl;
  tool_calls-with_calls = λ t cs. refl;
}

abbrev pub hello : Message
hello = plain_message Role.user (text "hello")

abbrev pub reply : Message
reply = plain_message Role.assistant (text "hi")

abbrev pub prompt : Message
prompt = plain_message Role.system (text "be brief")

abbrev pub two_turns : List Message
two_turns = prompt ∷ hello ∷ reply ∷ hello ∷ reply ∷ []

abbrev pub config : SessionConfig
config = record { max_sessions = 3; idle_ttl_seconds = 60 }

abbrev pub fresh_store : Store Message
fresh_store = make_store (text "m") config (text "be brief") 2

abbrev pub idle_session : SessionState Message
idle_session = record {
  id = text "sess-1";
  model = text "m";
  created = 10;
  last_used = 10;
  expires_at = 70;
  history = prompt ∷ hello ∷ reply ∷ [];
  active_request = none;
  closed = false;
}

abbrev pub busy : SessionState Message
busy = record {
  id = text "sess-2";
  model = text "m";
  created = 12;
  last_used = 12;
  expires_at = 72;
  history = prompt ∷ [];
  active_request = some 7;
  closed = false;
}

abbrev pub two_sessions : Store Message
two_sessions = record fresh_store {
  next_session_id = 3;
  sessions = (text "sess-1", 0) ∷ (text "sess-2", 1) ∷ [];
  heap = λ r. if r == 0 then idle_session else busy;
  next_ref = 2;
}

abbrev pub create_request : SessionCreateRequest
create_request = record { model = text "m"; system_prompt = none }

abbrev pub chat_request : ChatCompletionRequest Message
chat_request = record {
  model = text "m";
  messages = hello ∷ [];
  stream = false;
  session_id = some (text "sess-1");
}

abbrev pub service : Service Message
service = record {
  model_id = text "m";
  context_size = 100;
  request_system_prompt = text "be brief";
  store = two_sessions;
  next_completion_id = 1;
  active_session_requests = [];
  public_request_cancellers = [];
  agent_history = two_turns;
  calls = [];
}
