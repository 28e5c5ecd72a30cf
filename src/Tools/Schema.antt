-- ===== src/Tools/Schema.antt =====
-- The checks of a tool's configuration: `validate_tool_parameters_schema`,
-- `CommandToolConfig::validate` and what they call, of src/server/command_tools.cpp.
use zoo_keeper_server.Prelude.{
  ℕ, Bytes, Bool, false, not, ◌||◌, ◌&&◌, Option, none, some, List, [], ◌∷◌, ◌++◌, ◌==ᵇ◌, ◌==◌,
  has_value, is_empty, text,
}
use zoo_keeper_server.Api.{Expected, ok, err, ◌>>=◌, ◌>>◌, fail_if}
use zoo_keeper_server.Json.{
  JsonApi, member, as_object, is_string, is_boolean, is_number, is_number_integer, is_object,
  string_of, array_of, boolean_of, required, optional, reject_unknown_keys,
}
use zoo_keeper_server.Tools.{CommandToolConfig}

abbrev pub property_keys : List Bytes
property_keys = text "type" ∷ text "description" ∷ text "enum" ∷ []

abbrev pub schema_keys : List Bytes
schema_keys = text "type" ∷ text "properties" ∷ text "required" ∷ text "additionalProperties" ∷ []

-- `key.find(c) != npos`.
unfoldable pub has_byte : ℕ → Bytes → Bool
has_byte c [] = false
has_byte c (x ∷ s) = x == c || has_byte c s

abbrev about : Bytes → Bytes → Bytes
about property_name what = text "tools.parameters property '" ++ (property_name ++ what)

-- The types that a property may declare.
unfoldable pub is_supported_type : Bytes → Bool
is_supported_type type =
    type ==ᵇ text "string"
    || (type ==ᵇ text "integer" || (type ==ᵇ text "number" || type ==ᵇ text "boolean"))

-- The loops over `command` and over `env`.
unfoldable pub validate_command : List Bytes → Expected Bytes (Unit {0})
validate_command [] = ok tt
validate_command (arg ∷ command) = do
  fail_if (is_empty arg) (text "tools.command entries must not be empty")
  validate_command command

unfoldable pub validate_env : List (Bytes × Bytes) → Expected Bytes (Unit {0})
validate_env [] = ok tt
validate_env ((key, value) ∷ env) = do
  fail_if (is_empty key) (text "tools.env keys must not be empty")
  fail_if (has_byte 61 key) (text "tools.env keys must not contain '='")
  validate_env env

module _ {J R I : Type 0} (json : JsonApi J R I) where
  abbrev pub members_of : J → Option (List (Bytes × J))
  members_of j = as_object (json.view j)

  unfoldable pub matches_type : J → Bytes → Bool
  matches_type value expected_type =
      (expected_type ==ᵇ text "string" && is_string (json.view value))
      || ((expected_type ==ᵇ text "integer" && is_number_integer (json.view value))
          || ((expected_type ==ᵇ text "number" && is_number (json.view value))
              || (expected_type ==ᵇ text "boolean" && is_boolean (json.view value))))

  unfoldable pub validate_enum_value_type : J → Bytes → Bytes → Expected Bytes (Unit {0})
  validate_enum_value_type value expected_type property_name =
      fail_if (not (matches_type value expected_type)) (
        text "tools.parameters enum value for property '"
        ++ (property_name
            ++ (text "' does not match declared type '" ++ (expected_type ++ text "'"))))

  -- The loop over the values of `enum`.
  unfoldable pub validate_enum_values : List J → Bytes → Bytes → Expected Bytes (Unit {0})
  validate_enum_values [] type property_name = ok tt
  validate_enum_values (value ∷ values) type property_name = do
    validate_enum_value_type value type property_name
    validate_enum_values values type property_name

  abbrev pub validate_enum : Option (List J) → Bytes → Bytes → Expected Bytes (Unit {0})
  validate_enum none type property_name = ok tt
  validate_enum (some values) type property_name = validate_enum_values values type property_name

  unfoldable pub validate_property_schema : Bytes → J → Expected Bytes (Unit {0})
  validate_property_schema property_name schema = do
    reject_unknown_keys (json.view schema) (text "tools.parameters property") property_keys
    type ←
        required json (string_of json) (text "type") schema
          (about property_name (text "' must include a string type"))
    fail_if (not (is_supported_type type))
        (about property_name (text "' uses unsupported type: " ++ type))
    optional json (string_of json) (text "description") schema
        (about property_name (text "' description must be a string"))
    values ←
        optional json (array_of json) (text "enum") schema
          (about property_name (text "' enum must be an array"))
    validate_enum values type property_name

  -- The loop over the properties.
  unfoldable pub validate_properties : List (Bytes × J) → Expected Bytes (Unit {0})
  validate_properties [] = ok tt
  validate_properties ((key, value) ∷ properties) = do
    fail_if (not (is_object (json.view value))) (about key (text "' must be a JSON object"))
    validate_property_schema key value
    validate_properties properties

  -- The loop over the entries of `required`.
  unfoldable pub validate_required_entries : List J → List (Bytes × J) → Expected Bytes (Unit {0})
  validate_required_entries [] properties = ok tt
  validate_required_entries (value ∷ values) properties = elim (string_of json value) [
    | none ↦ err (text "tools.parameters required entries must be strings")
    | some key ↦
        fail_if (not (has_value (member key properties)))
          (text "tools.parameters required references unknown property: " ++ key)
        >> validate_required_entries values properties
  ]

  abbrev pub validate_required : Option (List J) → List (Bytes × J) → Expected Bytes (Unit {0})
  validate_required none properties = ok tt
  validate_required (some values) properties = validate_required_entries values properties

  abbrev no_additional : Bytes
  no_additional = text "tools.parameters only supports additionalProperties omitted or false"

  abbrev pub validate_additional : Option Bool → Expected Bytes (Unit {0})
  validate_additional none = ok tt
  validate_additional (some b) = fail_if b no_additional

  unfoldable pub validate_tool_parameters_schema : J → Expected Bytes (Unit {0})
  validate_tool_parameters_schema schema = do
    reject_unknown_keys (json.view schema) (text "tools.parameters") schema_keys
    type ←
        required json (string_of json) (text "type") schema
          (text "tools.parameters must declare top-level type 'object'")
    fail_if (not (type ==ᵇ text "object"))
        (text "tools.parameters must declare top-level type 'object'")
    properties ←
        required json members_of (text "properties") schema
          (text "tools.parameters must include an object-valued properties map")
    validate_properties properties
    names ←
        optional json (array_of json) (text "required") schema
          (text "tools.parameters required must be an array")
    validate_required names properties
    additional ← optional json (boolean_of json) (text "additionalProperties") schema no_additional
    validate_additional additional

  unfoldable pub validate_tool : CommandToolConfig J → Expected Bytes (Unit {0})
  validate_tool tool = do
    fail_if (is_empty tool.name) (text "tools.name must not be empty")
    fail_if (is_empty tool.description) (text "tools.description must not be empty")
    fail_if (is_empty tool.command) (text "tools.command must contain at least one argument")
    validate_command tool.command
    fail_if (tool.timeout_ms == 0) (text "tools.timeout_ms must be >= 1")
    validate_tool_parameters_schema tool.parameters_schema
    validate_env tool.env
