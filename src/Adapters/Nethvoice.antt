-- ===== src/Adapters/Nethvoice.antt =====
-- adapters/nethvoice.py: the search in a phone book.
pub mod Contacts
use grantora.Prelude.{
  ℕ, String, Bool, true, false, not, Option, none, some, List, [], ◌∷◌, ℤ, pos, take, or_else, ◌==◌,
  string_eq, if◌then◌else◌,
}
use grantora.Prelude.Text.{strip, ◌<>◌}
use grantora.Json.{
  Json, null, bool, num, str, arr, obj, Items, nil, cons, Fields, end, field, field?, or_null,
}
use grantora.Db.Models.{Capability}
use grantora.Adapters.{
  Adapter, AdapterResult, InvocationContext, SecretMaterial, HealthResult, ok_result, error_result,
}
use grantora.Adapters.Http.{Response, Sent, Exchange, send_with_read_only_retries}
use grantora.Adapters.Upstream.{
  GetRequest, Options, query_of, maximum_limit, limit_within, error_of_status, invalid_response,
  too_large, payload_too_large, conclude, health_of, first_present, nonblank, first_string,
  as_mappings, items_of,
}

abbrev default_phonebook_limit : ℕ
default_phonebook_limit = 50

abbrev nethvoice_source : String
nethvoice_source = "nethvoice"

-- The constructor's defaults.
abbrev pub default_options : Options
default_options = record {
  max_response_bytes = pos 10485760;
  search_path = "/api/phonebook/search";
  health_check_path = some "/api/phonebook/search";
  read_retry_attempts = pos 2;
}

unfoldable pub auth_headers : SecretMaterial → Option (List (String × String))
auth_headers secret =
    if secret.secret_type == "bearer_token"
    then some (("Authorization", "Bearer " <> secret.value) ∷ [])
    else if secret.secret_type == "api_key"
    then some (("X-API-Key", secret.value) ∷ [])
    else none

unfoldable pub schema_maximum_limit : Json → ℕ
unfolding maximum_limit
schema_maximum_limit input_schema = maximum_limit default_phonebook_limit input_schema

unfoldable pub requested_limit : Json → Json → ℕ
unfolding limit_within
requested_limit input input_schema = limit_within default_phonebook_limit input input_schema

unfoldable pub error_result_from_response : Response → Option AdapterResult
unfolding error_of_status
error_result_from_response r =
    error_of_status "The upstream phonebook endpoint was not found" r.status_code

abbrev list_keys : List String
list_keys = "contacts" ∷ "results" ∷ "items" ∷ []

-- The value that stands for the list of contacts in an object.
unfoldable raw_contacts : Fields → Json
unfolding first_present
raw_contacts payload = elim (first_present list_keys payload) [
  | null ↦ elim (or_null (field? "data" payload)) [ obj fs ↦ first_present list_keys fs | v ↦ v ]
  | v ↦ v
]

unfoldable pub extract_contact_items : Json → Option (List Fields)
unfolding raw_contacts as_mappings
extract_contact_items (arr items) = as_mappings (arr items)
extract_contact_items (obj payload) = as_mappings (raw_contacts payload)
extract_contact_items _ = none

-- `" ".join(name_parts)`, `None` where there is no part.
abbrev join_names : Option String → Option String → Option String
join_names none none = none
join_names (some first) none = some first
join_names none (some last) = some last
join_names (some first) (some last) = some (first <> " " <> last)

abbrev pub name_keys : List String
name_keys = "display_name" ∷ "displayName" ∷ "full_name" ∷ "fullName" ∷ "fullname" ∷ "name" ∷ []

abbrev pub first_name_keys : List String
first_name_keys = "first_name" ∷ "firstName" ∷ "given_name" ∷ "givenName" ∷ []

abbrev pub last_name_keys : List String
last_name_keys = "last_name" ∷ "lastName" ∷ "family_name" ∷ "familyName" ∷ []

unfoldable pub display_name : Fields → Option String
unfolding first_string
display_name raw_contact = elim (first_string name_keys raw_contact) [
  | some name ↦ some name
  | none ↦
      join_names (first_string first_name_keys raw_contact)
        (first_string last_name_keys raw_contact)
]

-- The number in an entry, which is a text or an object.
unfoldable phone_of_entry : Json → Option String
unfolding nonblank first_string
phone_of_entry (obj fs) = first_string ("number" ∷ "phone" ∷ "value" ∷ []) fs
phone_of_entry v = nonblank v

unfoldable phone_in : Items → Option String
unfolding phone_of_entry
phone_in nil = none
phone_in (cons entry later) =
    let rest = phone_in later in
    elim (phone_of_entry entry) [ some phone ↦ some phone | none ↦ rest ]

unfoldable pub phone_from_sequence : Json → Option String
unfolding phone_in
phone_from_sequence (arr entries) = phone_in entries
phone_from_sequence _ = none

unfoldable phone_in_lists : List String → Fields → Option String
unfolding phone_from_sequence
phone_in_lists [] raw_contact = none
phone_in_lists (key ∷ later) raw_contact =
    let rest = phone_in_lists later raw_contact in
    elim (phone_from_sequence (or_null (field? key raw_contact))) [
      | some phone ↦ some phone
      | none ↦ rest
    ]

abbrev pub phone_keys : List String
phone_keys =
    "phone" ∷ "phone_number" ∷ "phoneNumber" ∷ "number" ∷ "mobile" ∷ "mobile_phone" ∷ "mobilePhone"
    ∷ "telephone" ∷ "extension" ∷ []

abbrev pub phone_list_keys : List String
phone_list_keys = "phones" ∷ "phone_numbers" ∷ "phoneNumbers" ∷ "numbers" ∷ []

unfoldable pub phone_number : Fields → Option String
unfolding first_string phone_in_lists
phone_number raw_contact = elim (first_string phone_keys raw_contact) [
  | some phone ↦ some phone
  | none ↦ phone_in_lists phone_list_keys raw_contact
]

unfoldable pub company : Fields → Option String
unfolding first_string
company raw_contact =
    first_string
      ("company" ∷ "company_name" ∷ "companyName" ∷ "organization" ∷ "organisation" ∷ "org" ∷ [])
      raw_contact

abbrev pub contact : String → String → String → Fields
contact name phone company_name = field "display_name" (str name) (
    field "phone" (str phone)
      (field "company" (str company_name) (field "source" (str nethvoice_source) end)))

unfoldable pub normalized_contact : Fields → Option Fields
unfolding display_name phone_number company
normalized_contact raw_contact = elim (display_name raw_contact) [
  | none ↦ none
  | some name ↦ elim (phone_number raw_contact) [
    | none ↦ none
    | some phone ↦ some (contact name phone (or_else (company raw_contact) ""))
  ]
]

-- The loop of `_normalized_contacts`, that gives up at the first contact without a name or a number.
unfoldable pub normalize_all : List Fields → Option (List Fields)
unfolding normalized_contact
normalize_all [] = some []
normalize_all (raw_contact ∷ later) =
    let rest = normalize_all later in
    elim (normalized_contact raw_contact) [
      | none ↦ none
      | some c ↦ elim rest [ none ↦ none | some cs ↦ some (c ∷ cs) ]
    ]

unfoldable pub normalized_contacts : Json → ℕ → Option (List Fields)
unfolding extract_contact_items normalize_all
normalized_contacts payload limit = elim (extract_contact_items payload) [
  | none ↦ none
  | some items ↦ normalize_all (take limit items)
]

module _ (options : Options) where
  -- What `invoke` does with a response.
  unfoldable pub read_response : ℕ → Response → AdapterResult
  unfolding error_result_from_response normalized_contacts items_of
  read_response limit r = elim (error_result_from_response r) [
    | some failure ↦ failure
    | none ↦
        if too_large r options.max_response_bytes
        then payload_too_large r.status_code
        else elim r.json [
          | none ↦ invalid_response r.status_code
          | some payload ↦ elim (normalized_contacts payload limit) [
            | none ↦ invalid_response r.status_code
            | some contacts ↦
                ok_result (obj (field "contacts" (arr (items_of contacts)) end))
                  (some r.status_code)
          ]
        ]
  ]

  abbrev pub search_request : String → List (String × String) → String → ℕ → GetRequest
  search_request base_url headers query limit = record {
    base_url = base_url;
    path = options.search_path;
    headers = headers;
    params = field "query" (str query) (field "limit" (num (pos limit)) end);
  }

module _ (repr : Json → String) (answer : GetRequest → ℕ → Sent) (options : Options) where
  unfoldable pub invoke :
      Capability → Json → InvocationContext → SecretMaterial → Option AdapterResult
  unfolding auth_headers requested_limit query_of send_with_read_only_retries conclude read_response
  invoke capability input context secret =
      if not (capability.operation == "phonebook.search")
      then some (
          error_result "adapter_operation_unsupported"
            "Capability operation is not supported by this adapter" none false)
      else elim context.application.base_url [
        | none ↦ some (
            error_result "upstream_not_found" "The upstream application endpoint was not configured"
              none false)
        | some base_url ↦ elim (auth_headers secret) [
          | none ↦ some (
              error_result "secret_type_unsupported" "Required upstream secret could not be used"
                none false)
          | some headers ↦
              let limit = requested_limit input capability.input_schema in
              let request = search_request options base_url headers (query_of repr input) limit in
              let exchanged =
                send_with_read_only_retries capability (answer request)
                  options.read_retry_attempts in
              conclude (λ r. some (read_response options limit r)) exchanged.reply
        ]
      ]

  unfoldable pub adapter : Adapter
  unfolding invoke
  adapter = record { id = "nethvoice"; provider_type = "nethvoice"; invoke = invoke }

unfoldable pub health : Options → Option String → (String → String → Sent) → Option HealthResult
unfolding health_of
health options base_url answer =
    health_of "The upstream phonebook endpoint was not found" options base_url answer
