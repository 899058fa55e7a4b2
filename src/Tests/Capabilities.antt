-- ===== src/Tests/Capabilities.antt =====
-- Witnesses for capabilities/ and adapters/.
use grantora.Prelude.{◌≡◌, refl, ◌↔◌, true, none, string_eq}
use grantora.Capabilities.Validation.Shape.{walk_schema_nodes}
use grantora.Adapters.Templates.{capability_templates}
use grantora.Adapters.Templates.Registry.{validate_templates}
use grantora.Capabilities.Validation.{shape_ok}
use grantora.Capabilities.Validation.Bounds.{IsSchemaShape, shape_ok_iff}
use grantora.Tests.Fixture.{closed_schema, lenient}

shape_ok_iff_example : (shape_ok closed_schema ≡ true) ↔ IsSchemaShape closed_schema
shape_ok_iff_example = shape_ok_iff closed_schema

-- The templates pass the check at import.
templates_pass : validate_templates lenient capability_templates ≡ none
unfolding validate_templates shape_ok walk_schema_nodes
templates_pass = refl
