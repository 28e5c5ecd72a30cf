-- ===== src/Tools/Prepare.antt =====
-- A tool before it runs: the search for its executable, its environment, and the tools that are
-- registered, of src/server/command_tools.cpp.
use zoo_keeper_server.Prelude.{
  ℕ, zero, suc, Bytes, Bool, true, false, not, Option, none, some, List, [], ◌∷◌, ◌++◌, map,
  if◌then◌else◌, ◌==ᵇ◌, ◌==◌, ltb, is_empty, length, text,
}
use zoo_keeper_server.Api.{Expected, ok, err, ◌>>◌, fail_if}
use zoo_keeper_server.Json.{JsonApi, member}
use zoo_keeper_server.Bodies.{ToolDefinition}
use zoo_keeper_server.Tools.{CommandToolConfig}
use zoo_keeper_server.Tools.Schema.{has_byte, validate_tool}

-- What the code asks of the system and of `std::filesystem`. A path is its text. `path_env` is the
-- variable PATH of the server, and `environ` are the entries of its environment.
pub record System : Type 0 where
  pub current_path : Bytes
  pub path_env : Option Bytes
  pub environ : List Bytes
  pub is_executable_file : Bytes → Bool
  pub is_directory : Bytes → Bool
  pub is_relative : Bytes → Bool
  pub join : Bytes → Bytes → Bytes
  pub weakly_canonical : Bytes → Bytes

-- The bytes before the first `c`, and those after it.
unfoldable pub before_byte : ℕ → Bytes → Bytes
before_byte c [] = []
before_byte c (x ∷ s) = if x == c then [] else x ∷ before_byte c s

unfoldable pub after_byte : ℕ → Bytes → Option Bytes
after_byte c [] = none
after_byte c (x ∷ s) = if x == c then some s else after_byte c s

-- `getenv("PATH")`, if it is set and not empty.
abbrev pub server_path : System → Option Bytes
server_path sys = elim sys.path_env [
  | none ↦ none
  | some path ↦ if is_empty path then none else some path
]

module _ (sys : System) {J : Type 0} where
  unfoldable pub command_base_directory : CommandToolConfig J → Bytes
  command_base_directory tool = elim tool.working_directory [
    | some directory ↦ directory
    | none ↦ sys.current_path
  ]

  unfoldable pub effective_path_env : CommandToolConfig J → Option Bytes
  effective_path_env tool = elim (if tool.inherit_environment then server_path sys else none) [
    | some path ↦ some path
    | none ↦ elim (member (text "PATH") tool.env) [ some path ↦ some path | none ↦ server_path sys ]
  ]

module _ (sys : System) where
  -- The file that an entry of PATH stands for.
  unfoldable pub candidate : Bytes → Bytes → Bytes → Bytes
  candidate base_dir program entry =
      let directory = if is_empty entry then base_dir else entry in
      sys.join (if sys.is_relative directory then sys.join base_dir directory else directory)
        program

  -- The loop from the position where `rest` starts; `none` means that the fuel ran out.
  unfoldable pub search_path : ℕ → Bytes → Bytes → Bytes → Option (Option Bytes)
  search_path zero base_dir program rest = none
  search_path (suc fuel) base_dir program rest =
      let file = candidate base_dir program (before_byte 58 rest) in
      let later : Option (Option Bytes) = elim (after_byte 58 rest) [
        | none ↦ some none
        | some rest' ↦ search_path fuel base_dir program rest'
      ] in
      if sys.is_executable_file file then some (some (sys.weakly_canonical file)) else later

  abbrev pub absolute : Bytes → Bytes → Bytes
  absolute base_dir program = if sys.is_relative program then sys.join base_dir program else program

module _ (sys : System) {J : Type 0} where
  unfoldable pub resolve_program : CommandToolConfig J → Bytes → Option (Option Bytes)
  resolve_program tool program =
      if has_byte 47 program
      then (let file = absolute sys (command_base_directory sys tool) program in
          some (if sys.is_executable_file file then some (sys.weakly_canonical file) else none))
      else elim (effective_path_env sys tool) [
        | none ↦ some none
        | some path ↦
            search_path sys (suc (length path)) (command_base_directory sys tool) program path
      ]

  abbrev pub resolve_command : CommandToolConfig J → List Bytes → Option (Option Bytes)
  resolve_command tool [] = some none
  resolve_command tool (program ∷ arguments) =
      if is_empty program then some none else resolve_program tool program

  unfoldable pub resolve_executable_path : CommandToolConfig J → Option (Option Bytes)
  resolve_executable_path tool = resolve_command tool tool.command

-- The order of `std::string`.
unfoldable pub lessᵇ : Bytes → Bytes → Bool
lessᵇ [] [] = false
lessᵇ [] (_ ∷ _) = true
lessᵇ (_ ∷ _) [] = false
lessᵇ (a ∷ s) (b ∷ t) = if a == b then lessᵇ s t else ltb a b

-- A `std::map` of strings is the list of its entries by their keys. `emplace` keeps an entry that
-- is there, and an assignment replaces it: `merge old new` is what an entry becomes.
unfoldable pub insert :
    (Bytes → Bytes → Bytes) → Bytes → Bytes → List (Bytes × Bytes) → List (Bytes × Bytes)
insert merge key value [] = (key, value) ∷ []
insert merge key value ((k, v) ∷ m) =
    if k ==ᵇ key
    then (k, merge v value) ∷ m
    else if lessᵇ key k
    then (key, value) ∷ (k, v) ∷ m
    else (k, v) ∷ insert merge key value m

abbrev pub emplace_entry : Bytes → Bytes → List (Bytes × Bytes) → List (Bytes × Bytes)
emplace_entry = insert (λ old new. old)

abbrev pub assign_entry : Bytes → Bytes → List (Bytes × Bytes) → List (Bytes × Bytes)
assign_entry = insert (λ old new. new)

-- The loop over `environ`: an entry without `=` is passed over.
unfoldable pub inherit_entries : List Bytes → List (Bytes × Bytes) → List (Bytes × Bytes)
inherit_entries [] m = m
inherit_entries (entry ∷ entries) m = elim (after_byte 61 entry) [
  | none ↦ inherit_entries entries m
  | some value ↦ inherit_entries entries (emplace_entry (before_byte 61 entry) value m)
]

-- The loop over the configured variables.
unfoldable pub assign_entries : List (Bytes × Bytes) → List (Bytes × Bytes) → List (Bytes × Bytes)
assign_entries [] m = m
assign_entries ((key, value) ∷ env) m = assign_entries env (assign_entry key value m)

-- `PreparedCommandTool`.
pub record PreparedCommandTool (J : Type 0) : Type 0 where
  pub config : CommandToolConfig J
  pub executable_path : Bytes
  pub env_entries : List Bytes

-- A `RegisteredTool`: its definition, and what the closure `invoke` captured.
pub record RegisteredTool (J : Type 0) : Type 0 where
  pub definition : ToolDefinition J
  pub prepared : PreparedCommandTool J

abbrev pub env_entry : Bytes × Bytes → Bytes
env_entry (key, value) = key ++ (text "=" ++ value)

abbrev pub no_executable : Bytes → Bytes
no_executable program = text "tools.command executable not found or not executable: " ++ program

abbrev pub program_of : List Bytes → Bytes
program_of [] = []
program_of (program ∷ arguments) = program

abbrev pub check_directory : System → Option Bytes → Expected Bytes (Unit {0})
check_directory sys none = ok tt
check_directory sys (some directory) =
    fail_if (not (sys.is_directory directory))
      (text "tools.working_directory must point to an existing directory")

module _ (sys : System) {J : Type 0} where
  unfoldable pub build_environment_map : CommandToolConfig J → List (Bytes × Bytes)
  build_environment_map tool =
      assign_entries tool.env
        (if tool.inherit_environment then inherit_entries sys.environ [] else [])

  abbrev pub prepared_at : CommandToolConfig J → Bytes → PreparedCommandTool J
  prepared_at tool path = record {
    config = tool;
    executable_path = path;
    env_entries = map env_entry (build_environment_map tool);
  }

  -- `none` means that the search for the executable ran out of fuel.
  unfoldable pub prepare_command_tool :
      CommandToolConfig J → Option (Expected Bytes (PreparedCommandTool J))
  prepare_command_tool tool = elim (resolve_executable_path sys tool) [
    | none ↦ none
    | some none ↦ some (err (no_executable (program_of tool.command)))
    | some (some path) ↦ some (ok (prepared_at tool path))
  ]

abbrev pub register : {J : Type 0} → CommandToolConfig J → PreparedCommandTool J → RegisteredTool J
register tool prepared = record {
  definition = record {
    name = tool.name;
    description = tool.description;
    parameters_schema = tool.parameters_schema;
  };
  prepared = prepared;
}

abbrev pub invalid_tool : {J : Type 0} → CommandToolConfig J → Bytes → Bytes
invalid_tool tool message = text "Invalid tool '" ++ (tool.name ++ (text "': " ++ message))

module _ (sys : System) {J R I : Type 0} (json : JsonApi J R I) where
  unfoldable pub build_prepared_command_tool :
      CommandToolConfig J → Option (Expected Bytes (PreparedCommandTool J))
  build_prepared_command_tool tool =
      elim (validate_tool json tool >> check_directory sys tool.working_directory) [
        | err message ↦ some (err message)
        | ok u ↦ prepare_command_tool sys tool
      ]

  unfoldable pub make_command_tool_provider :
      List (CommandToolConfig J) → Option (Expected Bytes (List (RegisteredTool J)))
  make_command_tool_provider [] = some (ok [])
  make_command_tool_provider (tool ∷ tools) =
      let later = make_command_tool_provider tools in
      elim (build_prepared_command_tool tool) [
        | none ↦ none
        | some (err message) ↦ some (err (invalid_tool tool message))
        | some (ok prepared) ↦ elim later [
          | none ↦ none
          | some (err message) ↦ some (err message)
          | some (ok registered) ↦ some (ok (register tool prepared ∷ registered))
        ]
      ]
