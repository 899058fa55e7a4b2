-- ===== src/Capabilities.antt =====
-- capabilities/: the permissions of a risk class, and the checks on capability definitions.
pub mod Validation
pub mod Definition
use grantora.Prelude.{String, Option, none, some, ◌==◌, string_eq, if◌then◌else◌}

abbrev pub describe_permission : String
describe_permission = "capability.describe"

-- `RISK_CLASS_PERMISSIONS.get(risk_class)`.
unfoldable pub invoke_permission_for_risk_class : String → Option String
invoke_permission_for_risk_class risk_class =
    if risk_class == "read_only"
    then some "capability.invoke.read_only"
    else if risk_class == "draft"
    then some "capability.invoke.side_effect"
    else if risk_class == "side_effect"
    then some "capability.invoke.side_effect"
    else if risk_class == "destructive"
    then some "capability.invoke.destructive"
    else none
