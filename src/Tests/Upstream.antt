-- ===== src/Tests/Upstream.antt =====
-- Runs and witnesses for adapters/http.py, nethvoice.py and nextcloud.py.
use grantora.Prelude.Text.{text_length, int_of_digits}
use grantora.Prelude.{
  ltb, is_some, if◌then◌else◌, ℕ, suc, zero, String, ◌≡◌, refl, none, some, [], pos,
}
use grantora.Json.{Json, obj, end, field, str, num, arr, nil, cons}
use grantora.Db.Models.{Capability}
use grantora.Adapters.{InvocationContext, SecretMaterial, ok_result}
use grantora.Adapters.Http.{Sent, response, timed_out}
use grantora.Adapters.Upstream.{GetRequest}
use grantora.Adapters.Nethvoice
use grantora.Adapters.Nethvoice.{invoke}
use grantora.Adapters.Nethvoice.Contacts.{IsContact, HasRaised, invoke-IsContacts}
use grantora.Adapters.Http.{send_with_read_only_retries, attempts_for_capability}
use grantora.Adapters.Http.Retries.{IsExchange, send-IsExchange}
use grantora.Adapters.Upstream.Answers.{Gives}
use grantora.Adapters.{get}
use grantora.Adapters.Mock
use grantora.Adapters.Nextcloud.Files.{Library}
use grantora.Adapters.Nextcloud.Search
use grantora.Adapters.Nextcloud.Found.{IsFile}
use grantora.Adapters.Nextcloud.Results
use grantora.Adapters.Nextcloud.Results.{invoke-IsFiles}
use grantora.Adapters.Defaults.{create_default_adapter_registry, nethvoice}
use grantora.Adapters.Templates.{nethvoice_phonebook_search_template}
use grantora.Prelude.{◌≤◌, ◌⊎◌, max_with, string_eq, if◌then◌else◌}
use grantora.Tests.Fixture.{search, settings}

abbrev call : InvocationContext
call = record {
  request_id = "r";
  workspace = record { id = 1; slug = "acme" };
  agent = record { id = 3; slug = "hermes" };
  user = record { id = 4; external_id = "alice" };
  application = record { id = 2; provider_type = "nethvoice"; base_url = some "http://pbx" };
  capability = record { id = "mock.phonebook.search"; operation = "phonebook.search" };
}

abbrev token : SecretMaterial
token = record { secret_type = "bearer_token"; value = "t" }

abbrev page : Json
page = obj (
    field "data"
      (obj (
        field "items"
          (arr (
            cons
              (obj (
                field "firstName" (str " Ada ") (
                  field "lastName" (str "L")
                    (field "phones" (arr (cons (num (pos 1)) (cons (str " 12 ") nil))) end))))
              nil))
          end))
      end)

-- A time-out, and then a page with one contact.
abbrev then_page : GetRequest → ℕ → Sent
then_page request zero = timed_out
then_page request (suc n) =
    response (record { status_code = 200; content_length = 100; json = some page })

abbrev no_repr : Json → String
no_repr v = ""

abbrev no_request : GetRequest
no_request = record { base_url = ""; path = ""; headers = []; params = end }

abbrev no_input : Json
no_input = obj end

finds_ada :
    invoke no_repr then_page Nethvoice.default_options search
      (obj (field "query" (str "a") end))
      call
      token
    ≡ some (
        ok_result
          (obj (
            field "contacts"
              (arr (
                cons
                  (obj (
                    field "display_name" (str "Ada L") (
                      field "phone"
                        (str "12")
                        (field "company" (str "") (field "source" (str "nethvoice") end)))))
                  nil))
              end))
          (some 200))
unfolding invoke
finds_ada = refl

send-IsExchange_example :
    let attempts = attempts_for_capability search (pos 2) in
    IsExchange
      (then_page no_request)
      attempts
      0
      (send_with_read_only_retries search (then_page no_request) (pos 2))
    × (attempts ≤ max_with 1 (pos 2))
    × ((search.risk_class ≡ "read_only") ⊎ (attempts ≡ 1))
send-IsExchange_example = send-IsExchange search (then_page no_request) (pos 2)

-- The second request is the last one.
two_sends : (send_with_read_only_retries search (then_page no_request) (pos 2)).sends ≡ 2
unfolding send_with_read_only_retries
two_sends = refl

invoke-IsContacts_example :
    let limit = Nethvoice.requested_limit no_input search.input_schema in
    (1 ≤ limit)
    × (limit ≤ Nethvoice.schema_maximum_limit search.input_schema)
    × Gives "contacts" IsContact limit
        (HasRaised no_repr then_page Nethvoice.default_options)
        (invoke no_repr then_page Nethvoice.default_options search no_input call token)
invoke-IsContacts_example =
    invoke-IsContacts no_repr then_page Nethvoice.default_options search no_input call token

abbrev files : Capability
files = record search { operation = "files.search" }

abbrev plain_library : Library
plain_library = record {
  b64encode = λ s. s;
  urlparse = λ s. some ("", s);
  unquote = λ s. s;
  timestamp = λ n. some "1970-01-01T00:00:00Z";
  isdigit = λ s. is_some (int_of_digits s);
  int = λ s. if ltb 4300 (text_length s) then none else int_of_digits s;
}

-- A page with one file, known by its address.
abbrev file_page : Json
file_page = obj (
    field "ocs"
      (obj (
        field "data"
          (obj (
            field "entries"
              (arr (
                cons
                  (obj (
                    field "resourceUrl" (str "/remote.php/dav/files/alice/docs/plan.txt")
                      (field "size" (str "12") (field "mtime" (num (pos 0)) end))))
                  nil))
              end))
          end))
      end)

abbrev then_file : GetRequest → ℕ → Sent
then_file request n =
    response (record { status_code = 200; content_length = 100; json = some file_page })

finds_plan :
    Search.invoke plain_library no_repr then_file Search.default_options files no_input call token
    ≡ some (
        ok_result
          (obj (
            field "files"
              (arr (
                cons
                  (obj (
                    field "path" (str "/docs/plan.txt") (
                      field "display_name" (str "plan.txt") (
                        field "mime_type" (str "") (
                          field "size" (num (pos 12)) (
                            field "modified_at"
                              (str "1970-01-01T00:00:00Z")
                              (field "source" (str "nextcloud") end)))))))
                  nil))
              end))
          (some 200))
unfolding Search.invoke int_of_digits
finds_plan = refl

invoke-IsFiles_example :
    let limit = Search.requested_limit no_input files.input_schema in
    (1 ≤ limit)
    × (limit ≤ Search.schema_maximum_limit files.input_schema)
    × Gives "files" IsFile limit
        (Results.HasRaised plain_library no_repr then_file Search.default_options)
        (Search.invoke plain_library no_repr then_file Search.default_options files no_input call
          token)
invoke-IsFiles_example =
    invoke-IsFiles plain_library no_repr then_file Search.default_options files no_input call token

-- The default registry has the adapter that the first template names.
serves_phonebook :
    get nethvoice_phonebook_search_template.adapter
      (create_default_adapter_registry plain_library no_repr then_file (some settings))
    ≡ some (nethvoice plain_library no_repr then_file (some settings))
unfolding get create_default_adapter_registry Mock.adapter Nethvoice.adapter Search.adapter
serves_phonebook = refl
