-- ===== src/IncidentSync/Adapters.antt =====
-- What the kinds of adapters of backend/app/incident_sync.py can do: `_ADAPTERS`, `adapter_for` and
-- `adapter_capabilities`.
use aira_agent.Base.{
  String, Option, List, [], ◌∷◌, Bool, true, false, if◌then◌else◌, ◌==◌, or_text, any,
}

-- The flags of an adapter class.
pub record Adapter : Type 0 where
  pub kind : String
  pub supports_refresh : Bool
  pub supports_push_outward : Bool
  pub supports_status_sync : Bool
  pub inbound_fields : List String
  pub supports_apply_resolved : Bool
  pub supports_apply_missing : Bool
  pub supports_external_resolve : Bool
  pub supports_external_reopen : Bool
  pub supports_external_acknowledge : Bool

abbrev pub generic : Adapter
generic = record {
  kind = "generic";
  supports_refresh = true;
  supports_push_outward = true;
  supports_status_sync = false;
  inbound_fields = [];
  supports_apply_resolved = true;
  supports_apply_missing = true;
  supports_external_resolve = false;
  supports_external_reopen = false;
  supports_external_acknowledge = false;
}

abbrev pub pagerduty : Adapter
pagerduty = record {
  kind = "pagerduty";
  supports_refresh = true;
  supports_push_outward = true;
  supports_status_sync = true;
  inbound_fields = "assignee" ∷ "severity" ∷ "updated_at" ∷ "comment_count" ∷ [];
  supports_apply_resolved = true;
  supports_apply_missing = true;
  supports_external_resolve = true;
  supports_external_reopen = true;
  supports_external_acknowledge = true;
}

abbrev pub opsgenie : Adapter
opsgenie = record {
  kind = "opsgenie";
  supports_refresh = true;
  supports_push_outward = true;
  supports_status_sync = true;
  inbound_fields = "assignee" ∷ "severity" ∷ "updated_at" ∷ [];
  supports_apply_resolved = true;
  supports_apply_missing = true;
  supports_external_resolve = true;
  supports_external_reopen = false;
  supports_external_acknowledge = true;
}

-- `OutboundOnlyAdapter`, which the kind jira has, takes the rest from the generic one.
abbrev pub outbound_only : Adapter
outbound_only = record generic {
  supports_refresh = false;
  supports_apply_resolved = false;
  supports_apply_missing = false;
  supports_external_resolve = false;
  supports_external_reopen = false;
  supports_external_acknowledge = false;
}

-- _ADAPTERS.get(kind or "generic", _GENERIC)
unfoldable pub adapter_for : Option String → Adapter
adapter_for kind =
    let k = or_text kind "generic" in
    if k == "pagerduty"
    then pagerduty
    else if k == "opsgenie"
    then opsgenie
    else if k == "jira"
    then outbound_only
    else generic

pub data SupportLevel : Type 0 where
  rich refresh_only outbound : SupportLevel

-- The keys of `adapter_capabilities` that a policy asks for.
pub data Capability : Type 0 where
  refresh push_outward relink_validation status_sync apply_resolved apply_missing : Capability
  external_resolve external_reopen external_acknowledge : Capability

unfoldable pub capable_of : Option String → Capability → Bool
capable_of kind refresh = (adapter_for kind).supports_refresh
capable_of kind push_outward = (adapter_for kind).supports_push_outward
capable_of kind relink_validation = (adapter_for kind).supports_refresh
capable_of kind status_sync = (adapter_for kind).supports_status_sync
capable_of kind apply_resolved = (adapter_for kind).supports_apply_resolved
capable_of kind apply_missing = (adapter_for kind).supports_apply_missing
capable_of kind external_resolve = (adapter_for kind).supports_external_resolve
capable_of kind external_reopen = (adapter_for kind).supports_external_reopen
capable_of kind external_acknowledge = (adapter_for kind).supports_external_acknowledge

-- field in adapter_inbound_fields(kind)
unfoldable pub has_field : Option String → String → Bool
has_field kind field = any (λ f. f == field) (adapter_for kind).inbound_fields

unfoldable pub support_level : Option String → SupportLevel
support_level kind =
    if capable_of kind status_sync
    then rich
    else if capable_of kind refresh
    then refresh_only
    else outbound
