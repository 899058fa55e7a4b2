-- ===== src/Adapters/Mock.antt =====
-- adapters/mock.py: an adapter without an upstream application.
use grantora.Prelude.{none, some, Option, ◌==◌, string_eq, if◌then◌else◌}
use grantora.Json.{Json, str, arr, obj, nil, end, field}
use grantora.Db.Models.{Capability}
use grantora.Adapters.{Adapter, AdapterResult, InvocationContext, SecretMaterial, ok_result}

unfoldable pub invoke :
    Capability → Json → InvocationContext → SecretMaterial → Option AdapterResult
invoke capability input context secret =
    if capability.operation == "phonebook.search"
    then some (ok_result (obj (field "contacts" (arr nil) end)) none)
    else some (
        ok_result (obj (field "echo" input (field "capability" (str context.capability.id) end)))
          none)

unfoldable pub adapter : Adapter
unfolding invoke
adapter = record { id = "mock"; provider_type = "mock"; invoke = invoke }
