-- ===== src/Routes/Guards.antt =====
-- Requests that do not have the key.
use zoo_keeper_server.Prelude.{
  ℕ, ◌≡◌, ◌≢◌, ◌∙◌, refl, inl, inr, Bytes, true, false, Option, some, List, [], ◌∷◌, ◌++◌,
}
use zoo_keeper_server.Api.{MessageApi, Role}
use zoo_keeper_server.Auth.{bearer_prefix, invalid_api_key, check_auth}
use zoo_keeper_server.Auth.Laws.{IsBytes, check_auth_iff}
use zoo_keeper_server.Json.{JsonApi}
use zoo_keeper_server.Config.{ServerConfig}
use zoo_keeper_server.Bodies.{RoleNames, ToolDefinition, make_error_body}
use zoo_keeper_server.Requests.Messages.{MessageParts}
use zoo_keeper_server.Metrics.{with_metrics}
use zoo_keeper_server.Responses.{json_response, make_json_response, make_error_response}
use zoo_keeper_server.Api.{auth_error}
use zoo_keeper_server.Routes.{answered, Server, Surroundings, reply, reply_uncounted}
use zoo_keeper_server.Routes.Figures.{ZooFigures}
use zoo_keeper_server.Routes.Dealt.{handle-guarded}
use zoo_keeper_server.Routes.Handlers.{Route, HttpRequest, guarded, handle}

module _ {J R I M A G : Type 0} (json : JsonApi J R I) (names : RoleNames)
    (figures : ZooFigures J A G) (config : ServerConfig J A G) (tools : List (ToolDefinition J))
    ⦃api : MessageApi M⦄ ⦃parts : MessageParts M⦄ (validate : List M → Role → Option Bytes) where
  guarded-unauthorized :
      (key : Bytes) (request : HttpRequest) (n : ℕ) (rest : Server M → Server M) (w : Server M)
      → config.api_key ≡ some key
      → check_auth request.authorization (some key) ≡ some invalid_api_key
      → w.runtime_alive ≡ true
      → json.dump_throws (make_error_body json invalid_api_key) ≡ false
      → guarded json names figures config tools validate request n rest w ≡ record w {
        log =
            w.log
            ++ (answered n (json_response json (make_error_body json invalid_api_key) 401) ∷ []);
        runtime = record w.runtime { metrics = with_metrics 401 w.runtime.metrics };
      }
  unfolding guarded reply reply_uncounted make_error_response make_json_response auth_error
  guarded-unauthorized key request n rest w keyed refused alive printable =
      simp (alive, keyed, refused, printable) refl

  -- When a key of bytes is configured, while the runtime is there, and where the body of the error
  -- can be printed: a request on a route of `Route`, which are those that check the key and so
  -- neither `/healthz` nor OPTIONS nor the test page, whose Authorization header, of bytes, is not
  -- "Bearer " and then the key, is answered by the 401 error "Invalid API key", which is counted, and
  -- changes nothing else: not the service, the executor, the streams or the registry.
  pub handle-unauthorized :
      (key : Bytes) (env : Surroundings J R) (uptime : ℕ) (route : Route) (request : HttpRequest)
      (n : ℕ) (w : Server M)
      → config.api_key ≡ some key
      → IsBytes key
      → IsBytes request.authorization
      → request.authorization ≢ bearer_prefix ++ key
      → w.runtime_alive ≡ true
      → json.dump_throws (make_error_body json invalid_api_key) ≡ false
      → handle json names figures config tools validate env uptime route request n w ≡ record w {
        log =
            w.log
            ++ (answered n (json_response json (make_error_body json invalid_api_key) 401) ∷ []);
        runtime = record w.runtime { metrics = with_metrics 401 w.runtime.metrics };
      }
  handle-unauthorized key env uptime route request n w keyed kb hb wrong alive printable =
      let (iff, either, keyless) = check_auth_iff request.authorization key hb kb in
      let refused : check_auth request.authorization (some key) ≡ some invalid_api_key =
        elim either [ inl e ↦ absurd (wrong (iff.0 e)) | inr e ↦ e ] in
      let (rest, same, deals) =
        handle-guarded json names figures config tools validate 0 n env uptime route request in
      same w ∙ guarded-unauthorized key request n rest w keyed refused alive printable
