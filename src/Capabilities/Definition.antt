-- ===== src/Capabilities/Definition.antt =====
-- `validate_capability_definition` and `validate_capability_template_definition` of
-- capabilities/validation.py, with the patterns of schemas/validation.py.
use Prim.Native.Char.{code}
use Prim.Native.String.{String}
use grantora.Prelude.{
  ℕ, Bool, true, false, not, ◌&&◌, ◌||◌, Option, none, some, List, [], ◌∷◌, any, all, ltb, ◌==◌,
  nat_eq, string_eq, if◌then◌else◌,
}
use grantora.Prelude.Text.{text_length, strip, is_digit, is_lower}
use grantora.Json.{Json}
use grantora.Capabilities.Validation.{SchemaError, JsonSchema, check_json_schema}

-- `[a-z0-9]` and `[a-z0-9_]`.
abbrev pub is_plain : ℕ → Bool
is_plain n = is_lower n || is_digit n

abbrev pub is_word : ℕ → Bool
is_word n = is_plain n || n == b'_'

-- `[._-]` beside a word, and `[.-]` where the underscore belongs to the words.
abbrev pub is_separator : ℕ → Bool
is_separator n = n == b'.' || n == b'_' || n == b'-'

abbrev pub is_dot_or_dash : ℕ → Bool
is_dot_or_dash n = n == b'.' || n == b'-'

-- The rest of a text of words that single separators part; the flag says that a word has begun.
unfoldable pub words_from : (ℕ → Bool) → (ℕ → Bool) → Bool → String → Bool
words_from word separator begun String.[] = begun
words_from word separator begun (String.◌∷◌ c s) =
    let on = words_from word separator true s in
    let parted = words_from word separator false s in
    if word (code c) then on else if separator (code c) && begun then parted else false

unfoldable pub starts_plain : (ℕ → Bool) → (ℕ → Bool) → String → Bool
unfolding words_from
starts_plain word separator String.[] = false
starts_plain word separator (String.◌∷◌ c s) =
    if is_plain (code c) then words_from word separator true s else false

-- `re.fullmatch(CAPABILITY_ID_PATTERN, value)` and `re.fullmatch(IDENTIFIER_PATTERN, value)`.
unfoldable pub is_capability_id : String → Bool
unfolding starts_plain
is_capability_id = starts_plain is_plain is_separator

unfoldable pub is_identifier : String → Bool
unfolding starts_plain
is_identifier = starts_plain is_word is_dot_or_dash

-- `_check_pattern_value` and `_check_text_value`, as tests.
abbrev pub has_pattern : (String → Bool) → ℕ → String → Bool
has_pattern pattern max_length value =
    not (value == "") && not (ltb max_length (text_length value)) && pattern value

abbrev pub is_text : ℕ → String → Bool
is_text max_length value =
    not (value == "") && not (strip value == "") && not (ltb max_length (text_length value))

abbrev is_one_of : List String → String → Bool
is_one_of options value = any (λ o. o == value) options

abbrev pub valid_auth_modes : List String
valid_auth_modes = "system" ∷ "user" ∷ "user+scope" ∷ "admin" ∷ []

abbrev pub valid_risk_classes : List String
valid_risk_classes = "read_only" ∷ "draft" ∷ "side_effect" ∷ "destructive" ∷ "admin" ∷ []

abbrev pub valid_secret_types : List String
valid_secret_types =
    "api_key" ∷ "bearer_token" ∷ "basic_auth" ∷ "oauth_refresh_token" ∷ "session_cookie" ∷ []

abbrev pub definition_invalid : SchemaError
definition_invalid = record {
  code = "capability_definition_invalid";
  message = "Capability definition is invalid";
}

-- The arguments of the check.
pub record CapabilityDefinition : Type 0 where
  pub capability_id : String
  pub name : String
  pub provider_type : String
  pub adapter : String
  pub operation : String
  pub auth_mode : String
  pub risk_class : String
  pub input_schema : Json
  pub output_schema : Json

unfoldable pub names_ok : CapabilityDefinition → Bool
unfolding is_capability_id is_identifier strip text_length
names_ok d =
    has_pattern is_capability_id 128 d.capability_id
    && is_text 255 d.name
    && has_pattern is_identifier 64 d.provider_type
    && has_pattern is_identifier 64 d.adapter
    && has_pattern is_capability_id 128 d.operation
    && is_one_of valid_auth_modes d.auth_mode
    && is_one_of valid_risk_classes d.risk_class

-- The secret types and the permissions of a template.
unfoldable pub texts_ok : List String → List String → Bool
unfolding strip text_length
texts_ok required_secret_types upstream_permissions =
    all (is_one_of valid_secret_types) required_secret_types
    && all (is_text 128) upstream_permissions

abbrev pub or_then : Option SchemaError → Option SchemaError → Option SchemaError
or_then none later = later
or_then (some e) later = some e

module _ (validator : JsonSchema) where
  unfoldable pub validate_capability_definition : CapabilityDefinition → Option SchemaError
  unfolding names_ok check_json_schema
  validate_capability_definition d =
      if names_ok d
      then or_then (check_json_schema validator d.input_schema)
          (check_json_schema validator d.output_schema)
      else some definition_invalid

  unfoldable pub validate_capability_template_definition :
      CapabilityDefinition → List String → List String → Option SchemaError
  unfolding validate_capability_definition texts_ok
  validate_capability_template_definition d required_secret_types upstream_permissions =
      or_then (validate_capability_definition d) (
        if texts_ok required_secret_types upstream_permissions
        then none
        else some definition_invalid)
