-- ===== src/Config/Valid.antt =====
-- What a configuration that was loaded satisfies, and when the start warns.
use zoo_keeper_server.Prelude.{
  ℕ, ◌≡◌, ◌≢◌, ◌≤◌, ◌↔◌, ◌⊎◌, inl, inr, refl, sym, subst, ◌∙◌, ap, Bytes, Bool, true, false, not,
  ◌||◌, ◌&&◌, Option, none, some, List, [], ◌∷◌, ◌++◌, ◌==ᵇ◌, ==ᵇ_iff, ◌==◌, ltb, take, drop,
  take-append-drop, is_empty, text, All, arith, Option-cases, if◌then◌else◌,
}
use zoo_keeper_server.Api.{Expected, ok, err, fail_if, on_success, fail_if-passes}
use zoo_keeper_server.Api.Checks.{
  step_iff, test_iff, test_not_iff, both, nonempty_iff, nonzero_iff, or_iff,
}
use zoo_keeper_server.Json.{JsonApi, member, members, array_of, boolean_of, optional}
use zoo_keeper_server.Tools.{CommandToolConfig}
use zoo_keeper_server.Tools.Schema.{validate_tool}
use zoo_keeper_server.Tools.Supported.{IsCommandTool, validate_tool_iff}
use zoo_keeper_server.Config.{
  is_positive, is_negative, HttpConfig, ServerConfig, ZooConfigs, is_empty_key, validate_sessions,
  validate_origins, validate_http, validate_model_config_for_config_load, validate_tools,
  validate_server, has_key, is_trusted_local_bind_address, startup_warning,
}
use zoo_keeper_server.Config.Parts.{
  Conversions, check_unknown_keys, get_to, http_from_json, sessions_from_json, tools_of,
  with_path_context,
}
use zoo_keeper_server.Config.Load.{
  required_key, key_from_json, base_model_config, apply_model_config_fields, get_members,
  generation_members, port_from_json, server_from_json, load_config,
}

pub record IsValidHttp (c : HttpConfig) : Type 0 where
  pub body : is_positive c.client_max_body_size_bytes ≡ true
  pub memory : is_positive c.client_max_memory_body_size_bytes ≡ true
  pub idle : is_negative c.idle_connection_timeout_seconds ≡ false
  pub origins : All (λ s. s ≢ []) c.cors_allow_origins

validate_origins_iff :
    (origins : List Bytes) → (validate_origins origins ≡ ok tt) ↔ All (λ s. s ≢ []) origins
unfolding validate_origins
validate_origins_iff [] = (λ h. tt, λ h. refl)
validate_origins_iff (origin ∷ origins) =
    step_iff _ _ (both (test_iff (is_empty origin) _) (nonempty_iff origin))
      (validate_origins_iff origins)

validate_http_iff : (c : HttpConfig) → (validate_http c ≡ ok tt) ↔ IsValidHttp c
unfolding validate_http
validate_http_iff c =
    let parts = step_iff _ _ (test_not_iff (is_positive c.client_max_body_size_bytes) _) (
      step_iff _ _ (test_not_iff (is_positive c.client_max_memory_body_size_bytes) _) (
        step_iff _ _ (test_iff (is_negative c.idle_connection_timeout_seconds) _)
          (validate_origins_iff c.cors_allow_origins))) in
    (
      λ h.
          let (b, (m, (i, o))) = parts.0 h in
          record { body = b; memory = m; idle = i; origins = o },
      λ v. parts.1 (v.body, (v.memory, (v.idle, v.origins))),
    )

nonempty_key_iff : (key : Option Bytes) → (is_empty_key key ≡ false) ↔ (key ≢ some [])
nonempty_key_iff none = (λ h e. cc, λ h. refl)
nonempty_key_iff (some []) = (λ h e. cc, λ h. absurd (h refl))
nonempty_key_iff (some (x ∷ s)) = (λ h e. cc, λ h. refl)

same_iff : {P : Type 0} → P ↔ P
same_iff = (λ p. p, λ p. p)

-- A check whose message is put into another.
wrapped_iff :
    {P Q : Type 0} (m n : Expected Bytes (Unit {0})) (f : Bytes → Bytes)
    → (m ≡ ok tt) ↔ P
    → (n ≡ ok tt) ↔ Q
    → (elim m [ err message ↦ err (f message) | ok u ↦ n ] ≡ ok tt) ↔ (P × Q)
wrapped_iff (ok u) n f h k = (λ e. (h.0 refl, k.0 e), λ p. k.1 p.1)
wrapped_iff (err message) n f h k = (λ e. cc, λ p. let bad : err message ≡ ok tt = h.1 p.0 in cc)

port_bound : (v : ℕ) → (v == 0 || ltb 65535 v) ≡ false → v ≤ 65535
port_bound v h = ground arith

module _ {J R I A G : Type 0} (json : JsonApi J R I) (zoo : ZooConfigs J A G) where
  -- What the server relies on of its configuration.
  pub record IsValidConfig (c : ServerConfig J A G) : Type 0 where
    pub address : c.bind_address ≢ []
    pub port : c.port ≢ 0
    pub model : c.model_id ≢ []
    pub key : c.api_key ≢ some []
    pub http : IsValidHttp c.http
    pub sessions : c.sessions.idle_ttl_seconds ≢ 0
    pub tools : All (IsCommandTool json) c.tools
    pub model_path : c.model_config.model_path ≢ []
    pub context_size : is_positive c.model_config.context_size ≡ true
    pub agent : zoo.validate_agent c.agent_config ≡ ok tt
    pub generation : zoo.validate_generation c.default_generation ≡ ok tt

  validate_tools_iff :
      (tools : List (CommandToolConfig J))
      → (validate_tools json zoo tools ≡ ok tt) ↔ All (IsCommandTool json) tools
  unfolding validate_tools
  validate_tools_iff [] = (λ h. tt, λ h. refl)
  validate_tools_iff (tool ∷ tools) =
      wrapped_iff (validate_tool json tool) _ _ (validate_tool_iff json tool)
        (validate_tools_iff tools)

  validate_server_iff :
      (c : ServerConfig J A G) → (validate_server json zoo c ≡ ok tt) ↔ IsValidConfig c
  unfolding validate_server validate_sessions validate_model_config_for_config_load
  validate_server_iff c =
      let model_part =
        step_iff _ _
          (both (test_iff (is_empty c.model_config.model_path) _)
            (nonempty_iff c.model_config.model_path))
          (test_not_iff (is_positive c.model_config.context_size) _) in
      let parts =
        step_iff _ _ (both (test_iff (is_empty c.bind_address) _) (nonempty_iff c.bind_address)) (
          step_iff _ _ (both (test_iff (c.port == 0) _) (nonzero_iff c.port)) (
            step_iff _ _ (both (test_iff (is_empty c.model_id) _) (nonempty_iff c.model_id)) (
              step_iff _ _ (both (test_iff (is_empty_key c.api_key) _) (nonempty_key_iff c.api_key))
                (step_iff _ _ (validate_http_iff c.http) (
                  step_iff _ _
                    (both (test_iff (c.sessions.idle_ttl_seconds == 0) _)
                      (nonzero_iff c.sessions.idle_ttl_seconds))
                    (step_iff _ _ (validate_tools_iff c.tools)
                      (step_iff _ _ model_part (step_iff _ _ same_iff same_iff)))))))) in
      (
        λ h.
            let (a, (p, (n, (k, (w, (s, (t, ((mp, cs), (ag, g))))))))) = parts.0 h in
            record {
              address = a;
              port = p;
              model = n;
              key = k;
              http = w;
              sessions = s;
              tools = t;
              model_path = mp;
              context_size = cs;
              agent = ag;
              generation = g;
            },
        λ v. parts.1 (
          v.address,
          (
            v.port,
            (
              v.model,
              (
                v.key,
                (
                  v.http,
                  (
                    v.sessions,
                    (v.tools, ((v.model_path, v.context_size), (v.agent, v.generation))),
                  ),
                ),
              ),
            ),
          ),
        ),
      )

module _ {J R I A G : Type 0} (json : JsonApi J R I) (conv : Conversions J)
    (zoo : ZooConfigs J A G) where
  get_to_eq_ok :
      {B : Type 0} (P : B → Type 0) (read : J → Expected Bytes B) (key : Bytes) (j : J)
      (default b : B)
      → P default
      → ((v : J) (b : B) → read v ≡ ok b → P b)
      → get_to json conv read key j default ≡ ok b
      → P b
  unfolding get_to
  get_to_eq_ok P read key j default b d k h =
      elim (Option-cases (member key (members (json.view j)))) as (λ _. P b) [
        | inl e ↦ let same : default ≡ b = cc in subst P same d
        | inr (v, e) ↦ let found : read v ≡ ok b = cc in k v b found
      ]

  port_from_json-bound : (j : J) (port : ℕ) → port_from_json json conv j ≡ ok port → port ≤ 65535
  unfolding port_from_json
  port_from_json-bound j port h = on_success (conv.to_uint32 j) _ h (λ n _ h1.
      on_success (fail_if (n == 0 || ltb 65535 n) _) _ h1 (λ _ small h2.
        let same : n ≡ port = cc in rw (← same) (port_bound n (fail_if-passes _ _ small))))

  abbrev port_of : Expected Bytes (ServerConfig J A G) → ℕ
  port_of (ok c) = c.port
  port_of (err what) = 0

  server_from_json-port :
      (j : J) (c : ServerConfig J A G) → server_from_json json conv zoo j ≡ ok c → c.port ≤ 65535
  unfolding server_from_json
  server_from_json-port j c h = on_success (check_unknown_keys json conv j _ _) _ h (λ _ _ h1.
      on_success (get_to json conv conv.to_string_value _ j _) _ h1 (λ _ _ h2.
        on_success (get_to json conv (port_from_json json conv) _ j 8080) _ h2 (λ port read h3.
          on_success (required_key json conv _ j) _ h3 (λ model _ h4.
            on_success (conv.to_string_value model) _ h4 (λ _ _ h5.
              on_success (get_to json conv (key_from_json json conv) _ j _) _ h5 (λ _ _ h6.
                on_success (get_to json conv (http_from_json json conv) _ j _) _ h6 (λ _ _ h7.
                  on_success (get_to json conv (sessions_from_json json conv) _ j _) _ h7 (λ _ _ h8.
                    on_success (optional json (array_of json) _ j _) _ h8 (λ items _ h9.
                      on_success (tools_of json conv items) _ h9 (λ _ _ h10.
                        on_success (required_key json conv _ j) _ h10 (λ z _ h11.
                          on_success (check_unknown_keys json conv z _ _) _ h11 (λ _ _ h12.
                            on_success (optional json (boolean_of json) _ z _) _ h12 (λ auto _ h13.
                              on_success (base_model_config json conv zoo z _) _ h13 (λ base _ h14.
                                on_success (apply_model_config_fields json conv z base) _ h14
                                  (λ _ _ h15.
                                    on_success (get_members json conv zoo.get_agent _ _) _ h15
                                      (λ _ _ h16.
                                        on_success (generation_members json conv z) _ h16
                                          (λ _ _ h17.
                                            on_success
                                              (get_members json conv zoo.get_generation _ _) _ h17
                                              (λ _ _ h18.
                                                on_success
                                                  (get_to json conv conv.to_string_value _ z _) _
                                                  h18
                                                  (λ _ _ h19.
                                                    let same : port ≡ c.port = ap port_of h19 in
                                                    let small =
                                                      get_to_eq_ok (λ n. n ≤ 65535)
                                                        (port_from_json json conv) _ j 8080 port
                                                        (omega arith) port_from_json-bound read in
                                                    subst (λ (n : ℕ). n ≤ 65535) same
                                                      small)))))))))))))))))))

  with_path_eq_ok :
      {B : Type 0} (path : Bytes) (m : Expected Bytes B) (b : B)
      → with_path_context path m ≡ ok b
      → m ≡ ok b
  with_path_eq_ok path (ok a) b h = h
  with_path_eq_ok path (err message) b h = cc

  -- A configuration that was loaded is valid in full, whatever the file holds: its port lies in
  -- [1, 65535]; its address, model id, model path, origins and API key, if it has one, are not
  -- empty; its sizes, context size and time to live are positive and its idle timeout is not
  -- negative; every tool passes the check of tools; and the zoo-keeper library accepts its part.
  pub load_config-IsValid :
      (path : Bytes) (file : Option Bytes) (c : ServerConfig J A G)
      → load_config json conv zoo path file ≡ ok c
      → IsValidConfig json zoo c × (c.port ≤ 65535)
  unfolding load_config
  load_config-IsValid path none c h = cc
  load_config-IsValid path (some file) c h =
      on_success (conv.read_stream file) _ (with_path_eq_ok path _ c h) (λ j _ h1.
        on_success (server_from_json json conv zoo j) _ h1 (λ read loaded h2.
          on_success (validate_server json zoo read) _ h2 (λ _ valid h3.
            let same : read ≡ c = cc in
            subst (λ (c : ServerConfig J A G). IsValidConfig json zoo c × (c.port ≤ 65535)) same
              ((validate_server_iff json zoo read).0 valid, server_from_json-port j read loaded))))

has_key_iff :
    (key : Option Bytes) → (has_key key ≡ true) ↔ ((s : Bytes) × (s ≢ []) × (key ≡ some s))
has_key_iff none = (λ h. cc, λ p. let e = p.2 in cc)
has_key_iff (some []) = (λ h. cc, λ p. absurd (p.1 (let same : [] ≡ p.0 = cc in sym same)))
has_key_iff (some (x ∷ s)) = (λ h. (x ∷ s, (λ e. cc), refl), λ p. refl)

prefix_iff :
    (a : Bytes) → (take 4 a ==ᵇ text "127." ≡ true) ↔ ((t : Bytes) × (a ≡ text "127." ++ t))
unfolding text ◌==ᵇ◌
prefix_iff a = (
  λ h. (
    drop 4 a,
    sym (take-append-drop 4 a) ∙ ap (λ (l : Bytes). l ++ drop 4 a) ((==ᵇ_iff _ _).0 h),
  ),
  λ p. rw p.1 refl,
)

-- A loopback address.
abbrev pub IsLoopback : Bytes → Type 0
IsLoopback address =
    (address ≡ text "localhost")
    ⊎ ((address ≡ text "::1") ⊎ ((t : Bytes) × (address ≡ text "127." ++ t)))

is_trusted_iff :
    (address : Bytes) → (is_trusted_local_bind_address address ≡ true) ↔ IsLoopback address
unfolding is_trusted_local_bind_address
is_trusted_iff address =
    or_iff _ _ (==ᵇ_iff address _) (or_iff _ _ (==ᵇ_iff address _) (prefix_iff address))

quiet_iff :
    {B : Type 0} (a b : Bool) (w : B)
    → ((if not a && not b then some w else none) ≡ none) ↔ (a || b ≡ true)
quiet_iff true b w = (λ h. refl, λ h. refl)
quiet_iff false true w = (λ h. refl, λ h. refl)
quiet_iff false false w = (λ h. cc, λ h. cc)

-- The start gives no warning just if an API key that is not empty is configured, or the address is
-- `localhost`, `::1` or starts with `127.`.
pub startup_warning_iff :
    {J A G : Type 0} (c : ServerConfig J A G)
    → (startup_warning c ≡ none)
      ↔ (((s : Bytes) × (s ≢ []) × (c.api_key ≡ some s)) ⊎ IsLoopback c.bind_address)
unfolding startup_warning
startup_warning_iff c =
    both (quiet_iff (has_key c.api_key) (is_trusted_local_bind_address c.bind_address) _)
      (or_iff _ _ (has_key_iff c.api_key) (is_trusted_iff c.bind_address))
