-- ===== src/Tools/Provider.antt =====
-- The tools that are registered are those that were configured.
use zoo_keeper_server.Prelude.{
  ◌↔◌, All, true, Bool-cases, arith, ◌≡◌, ◌⊎◌, inl, inr, refl, Bytes, Option, none, some, List, [],
  ◌∷◌, map,
}
use zoo_keeper_server.Api.{ok, err, ◌>>◌, on_success, Expected-cases}
use zoo_keeper_server.Json.{JsonApi}
use zoo_keeper_server.Tools.{CommandToolConfig}
use zoo_keeper_server.Tools.Schema.{validate_tool}
use zoo_keeper_server.Tools.Supported.{IsCommandTool, validate_tool_iff}
use zoo_keeper_server.Tools.Prepare.{
  System, resolve_executable_path, PreparedCommandTool, RegisteredTool, check_directory,
  build_environment_map, env_entry, prepare_command_tool, build_prepared_command_tool,
  make_command_tool_provider, program_of, no_executable, prepared_at, register, invalid_tool,
}
use zoo_keeper_server.Tools.Search.{resolves}

module _ (sys : System) {J R I : Type 0} (json : JsonApi J R I) where
  abbrev pub DirectoryThere : Option Bytes → Type 0
  DirectoryThere none = Unit {0}
  DirectoryThere (some directory) = sys.is_directory directory ≡ true

  directory_iff : (d : Option Bytes) → (check_directory sys d ≡ ok tt) ↔ DirectoryThere d
  directory_iff none = (λ _. tt, λ _. refl)
  directory_iff (some directory) = elim (Bool-cases (sys.is_directory directory)) [
    | inl e ↦ (λ _. e, λ _. rw e refl)
    | inr e ↦ (λ h. ground (arith, e, h), λ h. ground (arith, e, h))
  ]

  -- What a tool needs to be registered: the checks pass, its working directory is there, and the
  -- search finds its executable.
  pub record IsUsable (tool : CommandToolConfig J) : Type 0 where
    pub checked : IsCommandTool json tool
    pub directory : DirectoryThere tool.working_directory
    pub found : (path : Bytes) × (resolve_executable_path sys tool ≡ some (some path))

  -- The tool is registered under its own name and schema, passes the checks, and runs the
  -- executable that was found for it in the environment that was built for it.
  pub record IsRegistered (tool : CommandToolConfig J) (r : RegisteredTool J) : Type 0 where
    pub name : r.definition.name ≡ tool.name
    pub schema : r.definition.parameters_schema ≡ tool.parameters_schema
    pub config : r.prepared.config ≡ tool
    pub checked : IsCommandTool json tool
    pub directory : DirectoryThere tool.working_directory
    pub executable : resolve_executable_path sys tool ≡ some (some r.prepared.executable_path)
    pub environment : r.prepared.env_entries ≡ map env_entry (build_environment_map sys tool)

  abbrev pub AllRegistered : List (CommandToolConfig J) → List (RegisteredTool J) → Type 0
  AllRegistered [] [] = Unit
  AllRegistered [] (r ∷ rs) = ⊥
  AllRegistered (tool ∷ tools) [] = ⊥
  AllRegistered (tool ∷ tools) (r ∷ rs) = IsRegistered tool r × AllRegistered tools rs

  -- A prepared tool: its configuration, executable and environment.
  record IsPrepared (tool : CommandToolConfig J) (p : PreparedCommandTool J) : Type 0 where
    pub config : p.config ≡ tool
    pub executable : resolve_executable_path sys tool ≡ some (some p.executable_path)
    pub environment : p.env_entries ≡ map env_entry (build_environment_map sys tool)

  -- Preparing a tool ends with a message or with the prepared tool.
  prepare_lem :
      (tool : CommandToolConfig J) (o : Option Bytes)
      → resolve_executable_path sys tool ≡ some o
      → ((message : Bytes) × (prepare_command_tool sys tool ≡ some (err message)) × (o ≡ none))
        ⊎ ((p : PreparedCommandTool J) × (prepare_command_tool sys tool ≡ some (ok p))
            × IsPrepared tool p)
  unfolding prepare_command_tool
  prepare_lem tool none e =
      inl (no_executable (program_of tool.command), rw (e, prepare_command_tool) refl, refl)
  prepare_lem tool (some path) e = inr (
    prepared_at sys tool path,
    rw (e, prepare_command_tool) refl,
    record { config = refl; executable = e; environment = refl },
  )

  build_lem :
      (tool : CommandToolConfig J)
      → ((message : Bytes) × (build_prepared_command_tool sys json tool ≡ some (err message))
          × (IsUsable tool → ⊥))
        ⊎ ((p : PreparedCommandTool J) × (build_prepared_command_tool sys json tool ≡ some (ok p))
            × IsPrepared tool p
            × IsCommandTool json tool
            × DirectoryThere tool.working_directory)
  unfolding build_prepared_command_tool
  build_lem tool =
      elim (Expected-cases
        (validate_tool json tool >> check_directory sys tool.working_directory)) [
          | inl (message, e) ↦ inl (
            message,
            rw (e, build_prepared_command_tool) refl,
            λ u.
                let passes = (validate_tool_iff json tool).1 u.checked in
                let there = (directory_iff tool.working_directory).1 u.directory in
                let fails : check_directory sys tool.working_directory ≡ err message =
                  rw passes at e in
                cc,
          )
          | inr (u, e) ↦
              let valid : IsCommandTool json tool =
                on_success (validate_tool json tool) _ e
                  (λ _ v _. (validate_tool_iff json tool).0 v) in
              let there : DirectoryThere tool.working_directory =
                on_success (validate_tool json tool) _ e
                  (λ _ _ c. (directory_iff tool.working_directory).0 c) in
              let (o, found) = resolves sys tool in
              elim (prepare_lem tool o found) [
                | inl (message, p, missing) ↦ inl (
                  message,
                  rw (e, build_prepared_command_tool) p,
                  λ u. let (path, f) = u.found in cc,
                )
                | inr (p, made, good) ↦
                    inr (p, rw (e, build_prepared_command_tool) made, good, valid, there)
              ]
        ]

  -- All the tools can be used.
  abbrev pub AllUsable : List (CommandToolConfig J) → Type 0
  AllUsable tools = All IsUsable tools

  -- Making the provider always ends. It ends with a message, and then not every configured tool can
  -- be used, since one does not pass the checks, has no working directory or no executable; or with
  -- one registered tool for each configured one, in their order: under its name and schema,
  -- passing the checks, with its working directory there, the executable that was found and the environment that was built.
  pub make_command_tool_provider_lem :
      (tools : List (CommandToolConfig J))
      → ((message : Bytes) × (make_command_tool_provider sys json tools ≡ some (err message))
          × (AllUsable tools → ⊥))
        ⊎ ((rs : List (RegisteredTool J)) × (make_command_tool_provider sys json tools
              ≡ some (ok rs))
            × AllRegistered tools rs)
  unfolding make_command_tool_provider
  make_command_tool_provider_lem [] = inr ([], refl, tt)
  make_command_tool_provider_lem (tool ∷ tools) = elim (build_lem tool) [
    | inl (message, e, bad) ↦
        inl (invalid_tool tool message, rw (e, make_command_tool_provider) refl, λ u. bad u.0)
    | inr (p, e, good, valid, there) ↦ elim (make_command_tool_provider_lem tools) [
      | inl (message, r, bad) ↦ inl (
        message,
        rw (e, make_command_tool_provider) (rw (r, make_command_tool_provider) refl),
        λ u. bad u.1,
      )
      | inr (rs, r, all) ↦ inr (
        register tool p ∷ rs,
        rw (e, make_command_tool_provider) (rw (r, make_command_tool_provider) refl),
        (
          record {
            name = refl;
            schema = refl;
            config = good.config;
            checked = valid;
            directory = there;
            executable = good.executable;
            environment = good.environment;
          },
          all,
        ),
      )
    ]
  ]
