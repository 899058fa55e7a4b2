-- ===== src/Adapters/Templates/Registry.antt =====
-- `_validate_capability_template_registry` of adapters/templates.py, which runs at import.
use grantora.Prelude.{Option, none, List, [], ◌∷◌}
use grantora.Capabilities.Validation.{SchemaError, JsonSchema}
use grantora.Capabilities.Definition.{
  CapabilityDefinition, validate_capability_template_definition, or_then,
}
use grantora.Adapters.Templates.{CapabilityTemplate}

abbrev pub definition_of : CapabilityTemplate → CapabilityDefinition
definition_of t = record {
  capability_id = t.id;
  name = t.name;
  provider_type = t.provider_type;
  adapter = t.adapter;
  operation = t.operation;
  auth_mode = t.auth_mode;
  risk_class = t.risk_class;
  input_schema = t.input_schema;
  output_schema = t.output_schema;
}

module _ (validator : JsonSchema) where
  abbrev pub validate_template : CapabilityTemplate → Option SchemaError
  validate_template t =
      validate_capability_template_definition validator (definition_of t) t.required_secret_types
        t.upstream_permissions

  -- The first template that is refused raises.
  unfoldable pub validate_templates : List CapabilityTemplate → Option SchemaError
  unfolding validate_capability_template_definition
  validate_templates [] = none
  validate_templates (t ∷ ts) =
      let later = validate_templates ts in or_then (validate_template t) later
