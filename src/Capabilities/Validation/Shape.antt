-- ===== src/Capabilities/Validation/Shape.antt =====
-- `_walk_schema_nodes` of capabilities/validation.py.
use grantora.Prelude.{
  ℕ, ◌+◌, String, Bool, ◌||◌, Option, none, some, any, ltb, ◌==◌, string_eq, if◌then◌else◌,
}
use grantora.Json.{Json, null, bool, num, str, arr, obj, Items, nil, cons, Fields, end, field, keys}

abbrev pub max_capability_schema_depth : ℕ
max_capability_schema_depth = 12

abbrev pub max_capability_schema_nodes : ℕ
max_capability_schema_nodes = 400

-- `key in FORBIDDEN_SCHEMA_REFERENCE_KEYS`.
abbrev pub is_reference_key : String → Bool
is_reference_key key = key == "$ref" || key == "$dynamicRef"

abbrev pub add_nodes : Option ℕ → Option ℕ → Option ℕ
add_nodes none _ = none
add_nodes (some a) none = none
add_nodes (some a) (some b) = some (a + b)

-- `none` where the walk raises.
unfoldable mutual
  pub walk_schema_nodes : Json → ℕ → Option ℕ
  walk_schema_nodes (obj fs) depth =
      let items = walk_fields fs (depth + 1) in
      if ltb max_capability_schema_depth depth
      then none
      else if any is_reference_key (keys fs)
      then none
      else add_nodes (some 1) items
  walk_schema_nodes (arr xs) depth =
      let items = walk_items xs (depth + 1) in
      if ltb max_capability_schema_depth depth then none else add_nodes (some 1) items
  walk_schema_nodes null depth = if ltb max_capability_schema_depth depth then none else some 1
  walk_schema_nodes (bool b) depth = if ltb max_capability_schema_depth depth then none else some 1
  walk_schema_nodes (num n) depth = if ltb max_capability_schema_depth depth then none else some 1
  walk_schema_nodes (str s) depth = if ltb max_capability_schema_depth depth then none else some 1

  pub walk_items : Items → ℕ → Option ℕ
  walk_items nil depth = some 0
  walk_items (cons x xs) depth = add_nodes (walk_schema_nodes x depth) (walk_items xs depth)

  pub walk_fields : Fields → ℕ → Option ℕ
  walk_fields end depth = some 0
  walk_fields (field k v fs) depth = add_nodes (walk_schema_nodes v depth) (walk_fields fs depth)
