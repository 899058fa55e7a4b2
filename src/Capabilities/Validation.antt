-- ===== src/Capabilities/Validation.antt =====
-- The schema checks of capabilities/validation.py. A check returns the error that it raises, or
-- `none`. The validator of JSON Schema documents is a library: `JsonSchema` is what the code calls.
pub mod Shape
pub mod Bounds
use grantora.Prelude.{
  ℕ, String, Bool, true, false, ◌&&◌, not, Option, none, some, ltb, if◌then◌else◌,
}
use grantora.Json.{Json, get?, is_false, is_str}
use Shape.{walk_schema_nodes, max_capability_schema_nodes}

-- `CapabilitySchemaValidationError`.
pub record SchemaError : Type 0 where
  pub code : String
  pub message : String

-- `Draft202012Validator`: whether `check_schema` accepts a schema, and whether `iter_errors` finds
-- no error in an instance.
pub record JsonSchema : Type 0 where
  pub check_schema : Json → Bool
  pub has_no_errors : Json → Json → Bool

abbrev pub schema_invalid : SchemaError
schema_invalid = record {
  code = "capability_schema_invalid";
  message = "Capability schema is invalid";
}

abbrev small_enough : Option ℕ → Bool
small_enough none = false
small_enough (some nodes) = not (ltb max_capability_schema_nodes nodes)

-- `_check_capability_schema_shape`: every refusal is the same error.
unfoldable pub shape_ok : Json → Bool
shape_ok schema =
    is_str "object" (get? "type" schema)
    && is_false (get? "additionalProperties" schema)
    && small_enough (walk_schema_nodes schema 0)

module _ (validator : JsonSchema) where
  unfoldable pub check_json_schema : Json → Option SchemaError
  check_json_schema schema =
      if shape_ok schema
      then (if validator.check_schema schema then none else some schema_invalid)
      else some schema_invalid

  unfoldable pub validate_json_schema : Json → Json → SchemaError → Option SchemaError
  unfolding check_json_schema
  validate_json_schema instance_value schema failure = elim (check_json_schema schema) [
    | some e ↦ some e
    | none ↦ if validator.has_no_errors schema instance_value then none else some failure
  ]
