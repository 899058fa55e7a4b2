-- ===== src/Adapters/Defaults.antt =====
-- `create_default_adapter_registry` of adapters/registry.py. What the upstream applications answer and
-- the functions of the standard library are parameters, as in the adapters.
use grantora.Prelude.{ℕ, String, Option, none, some, List, [], ◌∷◌, string_eq}
use grantora.Json.{Json}
use grantora.Config.{Settings}
use grantora.Adapters
use grantora.Adapters.{Adapter, AdapterRegistry, register}
use grantora.Adapters.Http.{Sent}
use grantora.Adapters.Upstream.{GetRequest, Options}
use grantora.Adapters.Nextcloud.Files.{Library}
use grantora.Adapters.Mock
use grantora.Adapters.Nethvoice
use grantora.Adapters.Nextcloud.Search

-- `AdapterRegistry(adapters)`.
unfoldable pub registry_of : AdapterRegistry → List Adapter → AdapterRegistry
unfolding register
registry_of r [] = r
registry_of r (a ∷ later) = registry_of (register a r) later

-- The options that the settings, if there are any, override.
abbrev pub from_settings : Option Settings → Options → Options
from_settings none options = options
from_settings (some settings) options = record options {
  max_response_bytes = settings.upstream_max_response_bytes;
  read_retry_attempts = settings.upstream_read_retry_attempts;
}

module _ (library : Library) (repr : Json → String) (answer : GetRequest → ℕ → Sent)
    (settings : Option Settings) where
  abbrev pub nethvoice : Adapter
  nethvoice = Nethvoice.adapter repr answer (from_settings settings Nethvoice.default_options)

  abbrev pub nextcloud : Adapter
  nextcloud = Search.adapter library repr answer (from_settings settings Search.default_options)

  unfoldable pub create_default_adapter_registry : AdapterRegistry
  unfolding registry_of
  create_default_adapter_registry =
      registry_of Adapters.empty (Mock.adapter ∷ nethvoice ∷ nextcloud ∷ [])
