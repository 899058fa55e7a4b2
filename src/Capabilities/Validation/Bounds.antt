-- ===== src/Capabilities/Validation/Bounds.antt =====
-- Which schemas pass `_check_capability_schema_shape` of capabilities/validation.py: the walk, that
-- counts and raises on its way, against the height, the size and the keys of the document.
use Prim.Native.Nat.{max}
use grantora.Prelude.{
  ℕ, suc, ◌+◌, ◌≤◌, ◌≡◌, ◌↔◌, Bool, true, ◌&&◌, not, Option, none, some, arith, any, leb,
  if◌then◌else◌,
}
use grantora.Json.{
  Json, null, bool, num, str, arr, obj, Items, nil, cons, Fields, end, field, keys, get?, is_str,
  is_false,
}
use grantora.Capabilities.Validation.Shape.{
  walk_schema_nodes, walk_items, walk_fields, is_reference_key, max_capability_schema_depth,
}
use grantora.Capabilities.Validation.{shape_ok}

-- The longest way down from a document, the number of its nodes, and that no object in it has a
-- reference key.
mutual
  pub height : Json → ℕ
  height (obj fs) = height_fields fs
  height (arr xs) = height_items xs
  height null = 0
  height (bool b) = 0
  height (num n) = 0
  height (str s) = 0

  pub height_items : Items → ℕ
  height_items nil = 0
  height_items (cons x xs) = max (suc (height x)) (height_items xs)

  pub height_fields : Fields → ℕ
  height_fields end = 0
  height_fields (field k v fs) = max (suc (height v)) (height_fields fs)

mutual
  pub node_count : Json → ℕ
  node_count (obj fs) = suc (node_count_fields fs)
  node_count (arr xs) = suc (node_count_items xs)
  node_count null = 1
  node_count (bool b) = 1
  node_count (num n) = 1
  node_count (str s) = 1

  pub node_count_items : Items → ℕ
  node_count_items nil = 0
  node_count_items (cons x xs) = node_count x + node_count_items xs

  pub node_count_fields : Fields → ℕ
  node_count_fields end = 0
  node_count_fields (field k v fs) = node_count v + node_count_fields fs

mutual
  pub has_no_references : Json → Bool
  has_no_references (obj fs) = not (any is_reference_key (keys fs)) && no_references_fields fs
  has_no_references (arr xs) = no_references_items xs
  has_no_references null = true
  has_no_references (bool b) = true
  has_no_references (num n) = true
  has_no_references (str s) = true

  pub no_references_items : Items → Bool
  no_references_items nil = true
  no_references_items (cons x xs) = has_no_references x && no_references_items xs

  pub no_references_fields : Fields → Bool
  no_references_fields end = true
  no_references_fields (field k v fs) = has_no_references v && no_references_fields fs

-- What the walk of a part finds: its nodes, unless it is too high or has a reference.
abbrev found : ℕ → Bool → ℕ → Option ℕ
found top clean nodes = if leb top max_capability_schema_depth && clean then some nodes else none

mutual
  unfolding walk_schema_nodes height node_count has_no_references

  walk-found :
      (v : Json) (d : ℕ)
      → walk_schema_nodes v d ≡ found (d + height v) (has_no_references v) (node_count v)
  walk-found (obj fs) d = ground (arith, walk_fields-found fs d)
  walk-found (arr xs) d = ground (arith, walk_items-found xs d)
  walk-found null d = ground arith
  walk-found (bool b) d = ground arith
  walk-found (num n) d = ground arith
  walk-found (str s) d = ground arith

  walk_items-found :
      (xs : Items) (d : ℕ)
      → d ≤ max_capability_schema_depth
      → walk_items xs (d + 1)
        ≡ found (d + height_items xs) (no_references_items xs) (node_count_items xs)
  walk_items-found nil d h = ground arith
  walk_items-found (cons x xs) d h = ground (arith, walk-found x (d + 1), walk_items-found xs d h)

  walk_fields-found :
      (fs : Fields) (d : ℕ)
      → d ≤ max_capability_schema_depth
      → walk_fields fs (d + 1)
        ≡ found (d + height_fields fs) (no_references_fields fs) (node_count_fields fs)
  walk_fields-found end d h = ground arith
  walk_fields-found (field k v fs) d h =
      ground (arith, walk-found v (d + 1), walk_fields-found fs d h)

-- A document that may be a capability's schema.
pub record IsSchemaShape (schema : Json) : Type 0 where
  pub is_object : is_str "object" (get? "type" schema) ≡ true
  pub is_closed : is_false (get? "additionalProperties" schema) ≡ true
  pub low : height schema ≤ 12
  pub no_references : has_no_references schema ≡ true
  pub small : node_count schema ≤ 400

-- The check accepts a schema exactly if its type is the text "object", its additional properties are
-- false, it nests at most 12 deep, no object in it has a key "$ref" or "$dynamicRef", and it has at
-- most 400 nodes.
pub shape_ok_iff : (schema : Json) → (shape_ok schema ≡ true) ↔ IsSchemaShape schema
unfolding shape_ok
shape_ok_iff schema =
    (λ h. ground (arith, walk-found schema 0), λ s. ground (arith, walk-found schema 0))
