-- ===== src/Adapters/Templates.antt =====
-- adapters/templates.py: the capabilities that are offered for the applications that an adapter
-- serves.
pub mod Registry
use grantora.Prelude.{
  ℕ, String, false, Option, none, some, List, [], ◌∷◌, find?, filter, ◌==◌, string_eq, pos,
}
use grantora.Prelude.Text.{text_leb}
use grantora.Json.{Json, bool, num, str, arr, obj, Items, nil, cons, Fields, end, field}
use grantora.Db.Queries.Joins.{sort_by}

pub record CapabilityTemplate : Type 0 where
  pub id : String
  pub name : String
  pub version : ℕ
  pub provider_type : String
  pub adapter : String
  pub operation : String
  pub auth_mode : String
  pub risk_class : String
  pub input_schema : Json
  pub output_schema : Json
  pub required_secret_types : List String
  pub upstream_permissions : List String

abbrev pub texts : List String → Items
texts [] = nil
texts (s ∷ later) = cons (str s) (texts later)

-- A schema of one type, and a schema of objects with these properties and no others.
abbrev pub typed : String → Json
typed type = obj (field "type" (str type) end)

abbrev pub closed : Fields → List String → Json
closed properties required = obj (
    field "type" (str "object") (
      field "properties" (obj properties)
        (field "required" (arr (texts required)) (field "additionalProperties" (bool false) end))))

abbrev pub list_of : String → Json → Json
list_of key item =
    closed (field key (obj (field "type" (str "array") (field "items" item end))) end) (key ∷ [])

abbrev pub constant : String → Json
constant value = obj (field "type" (str "string") (field "const" (str value) end))

abbrev pub or_none : String → Json
or_none type = obj (field "type" (arr (texts (type ∷ "null" ∷ []))) end)

-- The input of a search.
abbrev search_input : Json
search_input =
    closed
      (field "query" (obj (field "type" (str "string") (field "minLength" (num (pos 1)) end))) (
        field "limit"
          (obj (
            field "type" (str "integer")
              (field "minimum" (num (pos 1)) (field "maximum" (num (pos 50)) end))))
          end))
      ("query" ∷ [])

abbrev pub contact_schema : Json
contact_schema =
    closed
      (field "display_name" (typed "string") (
        field "phone" (typed "string")
          (field "company" (typed "string") (field "source" (constant "nethvoice") end))))
      ("display_name" ∷ "phone" ∷ "company" ∷ "source" ∷ [])

abbrev pub nethvoice_phonebook_search_template : CapabilityTemplate
nethvoice_phonebook_search_template = record {
  id = "nethvoice.phonebook.search";
  name = "Search phonebook";
  version = 1;
  provider_type = "nethvoice";
  adapter = "nethvoice";
  operation = "phonebook.search";
  auth_mode = "user";
  risk_class = "read_only";
  input_schema = search_input;
  output_schema = list_of "contacts" contact_schema;
  required_secret_types = "api_key" ∷ "bearer_token" ∷ [];
  upstream_permissions = "phonebook:read" ∷ [];
}

abbrev pub file_schema : Json
file_schema =
    closed
      (field "path" (typed "string") (
        field "display_name" (typed "string") (
          field "mime_type" (typed "string") (
            field "size" (or_none "integer") (
              field "modified_at" (or_none "string")
                (field "source" (constant "nextcloud") end))))))
      ("path" ∷ "display_name" ∷ "mime_type" ∷ "size" ∷ "modified_at" ∷ "source" ∷ [])

abbrev pub nextcloud_files_search_template : CapabilityTemplate
nextcloud_files_search_template = record {
  id = "nextcloud.files.search";
  name = "Search files";
  version = 1;
  provider_type = "nextcloud";
  adapter = "nextcloud";
  operation = "files.search";
  auth_mode = "user";
  risk_class = "read_only";
  input_schema = search_input;
  output_schema = list_of "files" file_schema;
  required_secret_types = "basic_auth" ∷ "bearer_token" ∷ [];
  upstream_permissions = "files:read" ∷ "search:read" ∷ [];
}

abbrev pub capability_templates : List CapabilityTemplate
capability_templates = nethvoice_phonebook_search_template ∷ nextcloud_files_search_template ∷ []

unfoldable pub get_capability_template : String → Option CapabilityTemplate
get_capability_template template_id = find? (λ t. t.id == template_id) capability_templates

unfoldable pub list_capability_templates : Option String → List CapabilityTemplate
unfolding sort_by text_leb
list_capability_templates provider_type =
    let templates =
      sort_by (λ (t : CapabilityTemplate) u. text_leb t.id u.id) capability_templates in
    elim provider_type [ none ↦ templates | some p ↦ filter (λ t. t.provider_type == p) templates ]
