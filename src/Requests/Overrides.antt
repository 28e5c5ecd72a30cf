-- ===== src/Requests/Overrides.antt =====
-- The sampling overrides of a request: `parse_generation_overrides` of src/server/api_json.cpp, and
-- what src/server/zoo_adapter.cpp makes of them.
use zoo_keeper_server.Prelude.{Bytes, Bool, Option, none, some, List, [], ◌∷◌, text}
use zoo_keeper_server.Api.{ok, err, ◌>>=◌, ApiResult}
use zoo_keeper_server.Json.{array_of, boolean_of, float_of, int_of, optional, string_of, JsonApi}
use zoo_keeper_server.Requests.Messages.{invalid}

-- The optional members of the requests, each absent where the body does not give it.
pub record Overrides (R I : Type 0) : Type 0 where
  pub temperature : Option R
  pub top_p : Option R
  pub top_k : Option I
  pub repeat_penalty : Option R
  pub repeat_last_n : Option I
  pub max_tokens : Option I
  pub seed : Option I
  pub stop : Option (List Bytes)
  pub record_tool_trace : Option Bool

module _ {J R I : Type 0} (json : JsonApi J R I) where
  unfoldable pub stop_entries : List J → ApiResult (List Bytes)
  stop_entries [] = ok []
  stop_entries (j ∷ js) = elim (string_of json j) [
    | none ↦ err (invalid (text "each stop entry must be a string") (text "stop"))
    | some s ↦ stop_entries js >>= λ ss. ok (s ∷ ss)
  ]

  unfoldable pub parse_stop : J → ApiResult (Option (List Bytes))
  parse_stop j = do
    entries ←
        optional json (array_of json) (text "stop") j
          (invalid (text "stop must be an array of strings") (text "stop"))
    elim entries [ none ↦ ok none | some js ↦ stop_entries js >>= λ ss. ok (some ss) ]

  unfoldable pub parse_generation_overrides : J → ApiResult (Overrides R I)
  parse_generation_overrides j = do
    temperature ←
        optional json (float_of json) (text "temperature") j
          (invalid (text "temperature must be a number") (text "temperature"))
    top_p ←
        optional json (float_of json) (text "top_p") j
          (invalid (text "top_p must be a number") (text "top_p"))
    top_k ←
        optional json (int_of json) (text "top_k") j
          (invalid (text "top_k must be an integer") (text "top_k"))
    repeat_penalty ←
        optional json (float_of json) (text "repeat_penalty") j
          (invalid (text "repeat_penalty must be a number") (text "repeat_penalty"))
    repeat_last_n ←
        optional json (int_of json) (text "repeat_last_n") j
          (invalid (text "repeat_last_n must be an integer") (text "repeat_last_n"))
    max_tokens ←
        optional json (int_of json) (text "max_tokens") j
          (invalid (text "max_tokens must be an integer") (text "max_tokens"))
    seed ←
        optional json (int_of json) (text "seed") j
          (invalid (text "seed must be an integer") (text "seed"))
    stop ← parse_stop j
    record_tool_trace ←
        optional json (boolean_of json) (text "record_tool_trace") j
          (invalid (text "record_tool_trace must be a boolean") (text "record_tool_trace"))
    ok (record {
      temperature = temperature;
      top_p = top_p;
      top_k = top_k;
      repeat_penalty = repeat_penalty;
      repeat_last_n = repeat_last_n;
      max_tokens = max_tokens;
      seed = seed;
      stop = stop;
      record_tool_trace = record_tool_trace;
    })

-- `zoo::SamplingParams` and `zoo::GenerationOptions`: the members that the server names.
pub record SamplingParams (R I : Type 0) : Type 0 where
  pub temperature : R
  pub top_p : R
  pub top_k : I
  pub repeat_penalty : R
  pub repeat_last_n : I
  pub seed : I

pub record GenerationOptions (R I : Type 0) : Type 0 where
  pub sampling : SamplingParams R I
  pub max_tokens : I
  pub stop_sequences : List Bytes
  pub record_tool_trace : Bool

-- `if (request.x) opts.x = *request.x;`
abbrev pub overridden : {A : Type 0} → Option A → A → A
overridden none default = default
overridden (some a) default = a

unfoldable pub merge_request_overrides :
    {R I : Type 0} → GenerationOptions R I → Overrides R I → GenerationOptions R I
merge_request_overrides defaults request = record {
  sampling = record {
    temperature = overridden request.temperature defaults.sampling.temperature;
    top_p = overridden request.top_p defaults.sampling.top_p;
    top_k = overridden request.top_k defaults.sampling.top_k;
    repeat_penalty = overridden request.repeat_penalty defaults.sampling.repeat_penalty;
    repeat_last_n = overridden request.repeat_last_n defaults.sampling.repeat_last_n;
    seed = overridden request.seed defaults.sampling.seed;
  };
  max_tokens = overridden request.max_tokens defaults.max_tokens;
  stop_sequences = overridden request.stop defaults.stop_sequences;
  record_tool_trace = overridden request.record_tool_trace defaults.record_tool_trace;
}
