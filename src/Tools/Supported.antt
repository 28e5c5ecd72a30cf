-- ===== src/Tools/Supported.antt =====
-- Which schemas and tools the checks let through.
use zoo_keeper_server.Prelude.{
  ◌≡◌, ◌≢◌, ◌↔◌, ◌⊎◌, inl, inr, refl, subst, Bytes, Bool, true, false, Option, none, some, List, [],
  ◌∷◌, ◌==ᵇ◌, ◌==◌, ==ᵇ_iff, has_value, is_empty, text, All, Option-cases,
}
use zoo_keeper_server.Api.{Expected, ok, ◌>>◌}
use zoo_keeper_server.Api.Checks.{
  step_iff, test_iff, test_not_iff, both, nonempty_iff, nonzero_iff, or_iff, and_iff,
}
use zoo_keeper_server.Json.{
  JsonApi, member, is_string, is_boolean, is_number, is_number_integer, is_object, string_of,
  array_of, boolean_of, reject_unknown_keys,
}
use zoo_keeper_server.Json.Given.{
  HasKeys, Given, IfGiven, Fits, HasKeys-of_ok, ok-of_HasKeys, required_iff, optional_iff,
  optional_kind_iff, optional_last_iff,
}
use zoo_keeper_server.Tools.{CommandToolConfig}
use zoo_keeper_server.Tools.Schema.{
  property_keys, schema_keys, has_byte, is_supported_type, members_of, matches_type,
  validate_enum_value_type, validate_enum_values, validate_enum, validate_property_schema,
  validate_properties, validate_required_entries, validate_required, validate_additional,
  validate_tool_parameters_schema, validate_command, validate_env, validate_tool,
}

module _ {J R I : Type 0} (json : JsonApi J R I) where
  -- A value of a declared type.
  abbrev pub HasType : Bytes → J → Type 0
  HasType type value =
      ((type ≡ text "string") × (is_string (json.view value) ≡ true))
      ⊎ (((type ≡ text "integer") × (is_number_integer (json.view value) ≡ true))
          ⊎ (((type ≡ text "number") × (is_number (json.view value) ≡ true))
              ⊎ ((type ≡ text "boolean") × (is_boolean (json.view value) ≡ true))))

  abbrev pub IsSupported : Bytes → Type 0
  IsSupported type =
      (type ≡ text "string")
      ⊎ ((type ≡ text "integer") ⊎ ((type ≡ text "number") ⊎ (type ≡ text "boolean")))

  -- A property with a type, and maybe a description and values, which are of that type.
  abbrev pub IsProperty : J → Type 0
  IsProperty schema =
      HasKeys json property_keys schema
      × ((type : Bytes) × Given json (string_of json) (text "type") schema type
          × (IsSupported type
              × (IfGiven json (string_of json) (text "description") schema (λ _. Unit {0})
                  × IfGiven json (array_of json) (text "enum") schema (All (HasType type)))))

  -- An entry of `required` names a property.
  abbrev pub IsNameOf : List (Bytes × J) → J → Type 0
  IsNameOf properties value =
      (key : Bytes) × (string_of json value ≡ some key) × (has_value (member key properties) ≡ true)

  -- An object type with such properties, whose required ones are declared, and nothing else.
  abbrev pub IsToolSchema : J → Type 0
  IsToolSchema schema =
      HasKeys json schema_keys schema
      × ((type : Bytes) × Given json (string_of json) (text "type") schema type
          × ((type ≡ text "object")
              × ((properties : List (Bytes × J)) × Given json (members_of json) (text "properties")
                    schema properties
                  × (All (λ e. (is_object (json.view e.1) ≡ true) × IsProperty e.1) properties
                      × (IfGiven json (array_of json) (text "required") schema
                            (All (IsNameOf properties))
                          × IfGiven json (boolean_of json) (text "additionalProperties") schema
                              (λ b. b ≡ false))))))

  is_supported_type_iff : (type : Bytes) → (is_supported_type type ≡ true) ↔ IsSupported type
  unfolding is_supported_type
  is_supported_type_iff type =
      or_iff _ _ (==ᵇ_iff type _)
        (or_iff _ _ (==ᵇ_iff type _) (or_iff _ _ (==ᵇ_iff type _) (==ᵇ_iff type _)))

  matches_type_iff :
      (value : J) (type : Bytes) → (matches_type json value type ≡ true) ↔ HasType type value
  unfolding matches_type
  matches_type_iff value type = or_iff _ _ (and_iff _ _ (==ᵇ_iff type _)) (
      or_iff _ _ (and_iff _ _ (==ᵇ_iff type _))
        (or_iff _ _ (and_iff _ _ (==ᵇ_iff type _)) (and_iff _ _ (==ᵇ_iff type _))))

  validate_enum_values_iff :
      (values : List J) (type name : Bytes)
      → (validate_enum_values json values type name ≡ ok tt) ↔ All (HasType type) values
  unfolding validate_enum_values validate_enum_value_type
  validate_enum_values_iff [] type name = (λ h. tt, λ h. refl)
  validate_enum_values_iff (value ∷ values) type name =
      let head = test_not_iff (matches_type json value type) _ in
      let fits = matches_type_iff value type in
      step_iff _ _ (λ h. fits.0 (head.0 h), λ h. head.1 (fits.1 h))
        (validate_enum_values_iff values type name)

  validate_enum_iff :
      (values : Option (List J)) (type name : Bytes)
      → (validate_enum json values type name ≡ ok tt) ↔ Fits (All (HasType type)) values
  validate_enum_iff none type name = (λ h. tt, λ p. refl)
  validate_enum_iff (some values) type name = validate_enum_values_iff values type name

  keys_iff :
      {Q : Type 0} (allowed : List Bytes) (context : Bytes) (j : J) (n : Expected Bytes (Unit {0}))
      → (n ≡ ok tt) ↔ Q
      → ((reject_unknown_keys (json.view j) context allowed >> n) ≡ ok tt)
        ↔ (HasKeys json allowed j × Q)
  keys_iff allowed context j n h =
      step_iff _ n (HasKeys-of_ok json allowed context j, ok-of_HasKeys json allowed context j) h

  validate_property_schema_iff :
      (name : Bytes) (schema : J)
      → (validate_property_schema json name schema ≡ ok tt) ↔ IsProperty schema
  unfolding validate_property_schema
  validate_property_schema_iff name schema = keys_iff property_keys _ schema _ (
      required_iff json (string_of json) (text "type") schema _ _ (λ type.
        step_iff _ _ (both (test_not_iff (is_supported_type type) _) (is_supported_type_iff type)) (
          optional_kind_iff json (string_of json) (text "description") schema _ _ (
            optional_last_iff json (array_of json) (text "enum") schema _ _
              (λ values. validate_enum_iff values type name)))))

  validate_properties_iff :
      (properties : List (Bytes × J))
      → (validate_properties json properties ≡ ok tt)
        ↔ All (λ e. (is_object (json.view e.1) ≡ true) × IsProperty e.1) properties
  unfolding validate_properties
  validate_properties_iff [] = (λ h. tt, λ h. refl)
  validate_properties_iff ((key, value) ∷ properties) =
      let parts = step_iff _ _ (test_not_iff (is_object (json.view value)) _) (
        step_iff _ _ (validate_property_schema_iff key value)
          (validate_properties_iff properties)) in
      (λ h. let p = parts.0 h in ((p.0, p.1.0), p.1.1), λ p. parts.1 (p.0.0, (p.0.1, p.1)))

  validate_required_entries_iff :
      (values : List J) (properties : List (Bytes × J))
      → (validate_required_entries json values properties ≡ ok tt)
        ↔ All (IsNameOf properties) values
  unfolding validate_required_entries
  validate_required_entries_iff [] properties = (λ h. tt, λ h. refl)
  validate_required_entries_iff (value ∷ values) properties =
      elim (Option-cases (string_of json value))
        as (λ _.
          (validate_required_entries json (value ∷ values) properties ≡ ok tt)
          ↔ All (IsNameOf properties) (value ∷ values)) [
            | inl n ↦ (λ h. cc, λ p. let found = p.0.1 in cc)
            | inr (key, found) ↦
                let parts =
                  step_iff _ _ (test_not_iff (has_value (member key properties)) _)
                    (validate_required_entries_iff values properties) in
                rw (found, validate_required_entries)
                  (
                    λ h. let p = parts.0 h in ((key, refl, p.0), p.1),
                    λ p.
                        let same : p.0.0 ≡ key = cc in
                        parts.1 (
                          subst (λ (k : Bytes). has_value (member k properties) ≡ true) same p.0.2,
                          p.1,
                        ),
                  )
          ]

  validate_required_iff :
      (values : Option (List J)) (properties : List (Bytes × J))
      → (validate_required json values properties ≡ ok tt) ↔ Fits (All (IsNameOf properties)) values
  validate_required_iff none properties = (λ h. tt, λ h. refl)
  validate_required_iff (some values) properties = validate_required_entries_iff values properties

  validate_additional_iff :
      (b : Option Bool) → (validate_additional json b ≡ ok tt) ↔ Fits (λ c. c ≡ false) b
  validate_additional_iff none = (λ h. tt, λ h. refl)
  validate_additional_iff (some b) = test_iff b _

  pub validate_tool_parameters_schema_iff :
      (schema : J) → (validate_tool_parameters_schema json schema ≡ ok tt) ↔ IsToolSchema schema
  unfolding validate_tool_parameters_schema
  validate_tool_parameters_schema_iff schema = keys_iff schema_keys _ schema _ (
      required_iff json (string_of json) (text "type") schema _ _ (λ type.
        step_iff _ _ (both (test_not_iff (type ==ᵇ text "object") _) (==ᵇ_iff type (text "object")))
          (required_iff json (members_of json) (text "properties") schema _ _ (λ properties.
            step_iff _ _ (validate_properties_iff properties) (
              optional_iff json (array_of json) (text "required") schema _ _ (λ values.
                step_iff _ _ (validate_required_iff values properties) (
                  optional_last_iff json (boolean_of json) (text "additionalProperties") schema _ _
                    validate_additional_iff)))))))

validate_command_iff :
    (command : List Bytes) → (validate_command command ≡ ok tt) ↔ All (λ s. s ≢ []) command
unfolding validate_command
validate_command_iff [] = (λ h. tt, λ h. refl)
validate_command_iff (arg ∷ command) =
    step_iff _ _ (both (test_iff (is_empty arg) _) (nonempty_iff arg))
      (validate_command_iff command)

-- A name of a variable of the environment: not empty, and without `=`.
abbrev pub IsVariable : Bytes × Bytes → Type 0
IsVariable (key, value) = (key ≢ []) × (has_byte 61 key ≡ false)

validate_env_iff : (env : List (Bytes × Bytes)) → (validate_env env ≡ ok tt) ↔ All IsVariable env
unfolding validate_env
validate_env_iff [] = (λ h. tt, λ h. refl)
validate_env_iff ((key, value) ∷ env) =
    let parts =
      step_iff _ _ (both (test_iff (is_empty key) _) (nonempty_iff key))
        (step_iff _ _ (test_iff (has_byte 61 key) _) (validate_env_iff env)) in
    (λ h. let p = parts.0 h in ((p.0, p.1.0), p.1.1), λ p. parts.1 (p.0.0, (p.0.1, p.1)))

module _ {J R I : Type 0} (json : JsonApi J R I) where
  -- What the check of a tool asks of its configuration.
  pub record IsCommandTool (tool : CommandToolConfig J) : Type 0 where
    pub named : tool.name ≢ []
    pub described : tool.description ≢ []
    pub runs : tool.command ≢ []
    pub arguments : All (λ s. s ≢ []) tool.command
    pub waits : tool.timeout_ms ≢ 0
    pub schema : IsToolSchema json tool.parameters_schema
    pub variables : All IsVariable tool.env

  -- The check of a tool succeeds just if it has a name, a description and a command of nonempty
  -- arguments, a timeout that is not zero, variables with names that are not empty and hold no `=`,
  -- and a schema that declares an object and has none but the four keys: each property is an object
  -- with none but three keys, of a supported type, its description a string and its enum values of
  -- that type; the required names are declared; and additional properties are not allowed.
  pub validate_tool_iff :
      (tool : CommandToolConfig J) → (validate_tool json tool ≡ ok tt) ↔ IsCommandTool tool
  unfolding validate_tool
  validate_tool_iff tool =
      let parts = step_iff _ _ (both (test_iff (is_empty tool.name) _) (nonempty_iff tool.name)) (
        step_iff _ _ (both (test_iff (is_empty tool.description) _) (nonempty_iff tool.description))
          (step_iff _ _ (both (test_iff (is_empty tool.command) _) (nonempty_iff tool.command)) (
            step_iff _ _ (validate_command_iff tool.command) (
              step_iff _ _ (both (test_iff (tool.timeout_ms == 0) _) (nonzero_iff tool.timeout_ms))
                (step_iff _ _ (validate_tool_parameters_schema_iff json tool.parameters_schema)
                  (validate_env_iff tool.env)))))) in
      (
        λ h.
            let (n, (d, (r, (a, (w, (s, v)))))) = parts.0 h in
            record {
              named = n;
              described = d;
              runs = r;
              arguments = a;
              waits = w;
              schema = s;
              variables = v;
            },
        λ p.
            parts.1
              (p.named, (p.described, (p.runs, (p.arguments, (p.waits, (p.schema, p.variables)))))),
      )
