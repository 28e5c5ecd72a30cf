-- ===== src/Routes/Dealt.antt =====
-- Each handler stands behind the guards, and deals with its callback once.
use zoo_keeper_server.Prelude.{
  ℕ, ◌+◌, ◌≡◌, refl, inl, inr, Bytes, Bool, true, false, not, Option, List, if◌then◌else◌,
  Bool-cases, Option-cases,
}
use zoo_keeper_server.Api.{ok, err, ApiResult, MessageApi, Role}
use zoo_keeper_server.Auth.{check_auth}
use zoo_keeper_server.Json.{JsonApi}
use zoo_keeper_server.Config.{ServerConfig}
use zoo_keeper_server.Bodies.{RoleNames, ToolDefinition}
use zoo_keeper_server.Requests.Messages.{MessageParts}
use zoo_keeper_server.Requests.Parse.{
  parse_chat_completion_request, parse_extraction_request, parse_agent_chat_request,
  parse_agent_history_request, parse_agent_history_message_request, parse_session_create_request,
  parse_system_prompt_request,
}
use zoo_keeper_server.Chat.{Service}
use zoo_keeper_server.Responses.{HttpResponse}
use zoo_keeper_server.Routes.{Server, Surroundings}
use zoo_keeper_server.Routes.Figures.{ZooFigures}
use zoo_keeper_server.Routes.Start.{
  start_non_stream_completion, start_non_stream_extraction, start_agent_chat,
}
use zoo_keeper_server.Routes.Streamed.{start_stream_completion, start_stream_extraction}
use zoo_keeper_server.Routes.Handlers.{
  Route, HttpRequest, guarded, answer_with, parsed, handle, models_route, tools_route,
  create_session_route, get_session_route, delete_session_route, chat_completion_route,
  extraction_route, agent_chat_route, cancel_route, get_history_route, put_history_route,
  delete_history_route, swap_history_route, history_message_route, get_prompt_route,
  put_prompt_route, runtime_route, metrics_route,
}
use zoo_keeper_server.Routes.Once.{
  one, accounted, accounted-reply, accounted-reply_made, accounted-after_start,
  accounted-stream_started,
}

module _ {J R I M A G : Type 0} (json : JsonApi J R I) (names : RoleNames)
    (figures : ZooFigures J A G) (config : ServerConfig J A G) (tools : List (ToolDefinition J))
    ⦃api : MessageApi M⦄ ⦃parts : MessageParts M⦄ (validate : List M → Role → Option Bytes) where
  module _ (m n : ℕ) where
    -- A function that deals with the callback `n`, once.
    abbrev pub DealsWith : (Server M → Server M) → Type 0
    DealsWith f = (w : Server M) → accounted m (f w) ≡ one n m + accounted m w

    started-DealsWith :
        (f g : Server M → Server M) (b : Bool)
        → DealsWith f
        → DealsWith g
        → DealsWith (λ w. if b then f w else g w)
    started-DealsWith f g true hf hg = hf
    started-DealsWith f g false hf hg = hg

    parsed-DealsWith :
        {V : Type 0} (r : ApiResult V) (rest : V → Server M → Server M)
        → ((v : V) → DealsWith (rest v))
        → DealsWith (parsed json names figures config tools validate n r rest)
    unfolding parsed
    parsed-DealsWith (err e) rest h w = accounted-reply m n _ w
    parsed-DealsWith (ok v) rest h w = h v w

    answer_with-DealsWith :
        {V : Type 0} (show : V → Option HttpResponse) (s : Service M × ApiResult V)
        → DealsWith (answer_with json names figures config tools validate n show s)
    unfolding answer_with
    answer_with-DealsWith show (s, err e) w = accounted-reply m n _ _
    answer_with-DealsWith show (s, ok v) w = accounted-reply m n _ _

    pub handle-guarded :
        (env : Surroundings J R) (uptime : ℕ) (route : Route) (request : HttpRequest)
        → (rest : Server M → Server M) × ((w : Server M)
            → handle json names figures config tools validate env uptime route request n w
              ≡ guarded json names figures config tools validate request n rest w)
          × DealsWith rest
    unfolding handle models_route tools_route create_session_route get_session_route
        delete_session_route chat_completion_route extraction_route agent_chat_route cancel_route
        get_history_route put_history_route delete_history_route swap_history_route
        history_message_route get_prompt_route put_prompt_route runtime_route metrics_route
        start_non_stream_completion start_non_stream_extraction start_agent_chat
        start_stream_completion start_stream_extraction
    handle-guarded env uptime Route.list_models request =
        (_, λ w. refl, λ v. accounted-reply m n _ v)
    handle-guarded env uptime Route.list_tools request =
        (_, λ w. refl, λ v. accounted-reply m n _ v)
    handle-guarded env uptime Route.post_session request = (
      _,
      λ w. refl,
      parsed-DealsWith (parse_session_create_request json request.body) _
          (λ create v. answer_with-DealsWith _ _ v),
    )
    handle-guarded env uptime (Route.get_session_at id) request =
        (_, λ w. refl, λ v. answer_with-DealsWith _ _ v)
    handle-guarded env uptime (Route.delete_session_at id) request =
        (_, λ w. refl, λ v. answer_with-DealsWith _ _ v)
    handle-guarded env uptime Route.post_chat_completion request = (
      _,
      λ w. refl,
      parsed-DealsWith (parse_chat_completion_request json validate request.body) _ (λ (c, o).
          started-DealsWith _ _ (not c.stream) (λ v. accounted-after_start json m n env _ _ v)
            (λ v. accounted-stream_started json m n env _ _ v)),
    )
    handle-guarded env uptime Route.post_extraction request = (
      _,
      λ w. refl,
      parsed-DealsWith (parse_extraction_request json validate request.body) _ (λ (x, o).
          started-DealsWith _ _ (not x.stream) (λ v. accounted-after_start json m n env _ _ v)
            (λ v. accounted-stream_started json m n env _ _ v)),
    )
    handle-guarded env uptime Route.post_agent_chat request = (
      _,
      λ w. refl,
      parsed-DealsWith (parse_agent_chat_request json validate request.body) _
          (λ (a, o) v. accounted-after_start json m n env _ _ v),
    )
    handle-guarded env uptime (Route.post_cancel id) request =
        (_, λ w. refl, λ v. answer_with-DealsWith _ _ v)
    handle-guarded env uptime Route.get_history request =
        (_, λ w. refl, λ v. answer_with-DealsWith _ _ v)
    handle-guarded env uptime Route.put_history request = (
      _,
      λ w. refl,
      parsed-DealsWith (parse_agent_history_request json validate request.body) _
          (λ messages v. answer_with-DealsWith _ _ v),
    )
    handle-guarded env uptime Route.delete_history request =
        (_, λ w. refl, λ v. answer_with-DealsWith _ _ v)
    handle-guarded env uptime Route.post_history_swap request = (
      _,
      λ w. refl,
      parsed-DealsWith (parse_agent_history_request json validate request.body) _
          (λ messages v. answer_with-DealsWith _ _ v),
    )
    handle-guarded env uptime Route.post_history_message request = (
      _,
      λ w. refl,
      parsed-DealsWith (parse_agent_history_message_request json validate request.body) _
          (λ message v. answer_with-DealsWith _ _ v),
    )
    handle-guarded env uptime Route.get_prompt request =
        (_, λ w. refl, λ v. accounted-reply m n _ v)
    handle-guarded env uptime Route.put_prompt request = (
      _,
      λ w. refl,
      parsed-DealsWith (parse_system_prompt_request json request.body) _
          (λ prompt v. accounted-reply m n _ _),
    )
    handle-guarded env uptime Route.get_runtime request =
        (_, λ w. refl, λ v. accounted-reply m n _ v)
    handle-guarded env uptime Route.get_metrics request =
        (_, λ w. refl, λ v. accounted-reply m n _ v)

    guarded-DealsWith :
        (request : HttpRequest) (rest : Server M → Server M)
        → DealsWith rest
        → DealsWith (guarded json names figures config tools validate request n rest)
    unfolding guarded
    guarded-DealsWith request rest h w = elim (Bool-cases w.runtime_alive) [
      | inl e ↦ elim (Option-cases (check_auth request.authorization config.api_key)) [
        | inl q ↦ simp (e, q) (h w)
        | inr (error, q) ↦ simp (e, q) (accounted-reply m n _ w)
      ]
      | inr e ↦ simp (e) (accounted-reply_made m n _ w)
    ]

    pub handle-DealsWith :
        (env : Surroundings J R) (uptime : ℕ) (route : Route) (request : HttpRequest)
        → DealsWith (handle json names figures config tools validate env uptime route request n)
    handle-DealsWith env uptime route request w =
        let (rest, same, deals) = handle-guarded env uptime route request in
        rw (same w) (guarded-DealsWith request rest deals w)
