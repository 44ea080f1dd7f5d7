-- ===== src/IncidentSync/Policy.antt =====
-- Which actions and inbound fields a target of backend/app/incident_sync.py allows: the policy tables,
-- the profiles, `target_action_policy`, `inbound_field_policy` and `effective_target_policy`. The texts
-- of the reasons are left out. `overrides.get(field)` is a function of the field.
use aira_agent.Base.{
  String, Option, none, some, List, [], ◌∷◌, ◌++◌, map, Bool, true, false, if◌then◌else◌, ◌==◌,
  or_text, any,
}
use aira_agent.Base.Table.{find}
use aira_agent.IncidentSync.Adapters.{
  Capability, refresh, push_outward, apply_resolved, apply_missing, external_resolve,
  external_reopen, external_acknowledge, capable_of, has_field,
}

pub record ActionPolicy : Type 0 where
  pub action : String
  pub capability : Capability
  pub override_field : String

-- `_ACTION_POLICY`
abbrev pub action_policies : List ActionPolicy
action_policies =
    record {
      action = "accept_resolved";
      capability = apply_resolved;
      override_field = "allow_apply_resolved";
    }
    ∷ record {
      action = "accept_missing";
      capability = apply_missing;
      override_field = "allow_apply_missing";
    }
    ∷ record {
      action = "external_resolve";
      capability = external_resolve;
      override_field = "allow_external_resolve";
    }
    ∷ record {
      action = "external_reopen";
      capability = external_reopen;
      override_field = "allow_external_reopen";
    }
    ∷ record {
      action = "external_acknowledge";
      capability = external_acknowledge;
      override_field = "allow_external_acknowledge";
    }
    ∷ record {
      action = "resend_current_state";
      capability = push_outward;
      override_field = "allow_push_outward";
    }
    ∷ []

pub record FieldPolicy : Type 0 where
  pub field_of : String
  pub override_field : String

-- `_INBOUND_FIELD_POLICY`, whose capability keys are the fields themselves
abbrev pub field_policies : List FieldPolicy
field_policies =
    record { field_of = "assignee"; override_field = "allow_external_assignee" }
    ∷ record { field_of = "severity"; override_field = "allow_external_severity" }
    ∷ record { field_of = "updated_at"; override_field = "allow_external_updated_at" }
    ∷ record { field_of = "comment_count"; override_field = "allow_external_comment_count" }
    ∷ []

pub data Category : Type 0 where
  actions inbound : Category

-- What a profile sets for a key.
pub record Default : Type 0 where
  pub key : String
  pub value : Bool

pub record Profile : Type 0 where
  pub name : String
  pub kind : String
  pub default_actions : List Default
  pub default_inbound : List Default

-- `_PROFILES`
abbrev pub profiles : List Profile
profiles =
    record { name = "generic"; kind = "generic"; default_actions = []; default_inbound = [] }
    ∷ record { name = "pagerduty"; kind = "pagerduty"; default_actions = []; default_inbound = [] }
    ∷ record {
      name = "pagerduty-readonly";
      kind = "pagerduty";
      default_actions =
          record { key = "external_resolve"; value = false }
          ∷ record { key = "external_reopen"; value = false }
          ∷ record { key = "external_acknowledge"; value = false }
          ∷ record { key = "resend_current_state"; value = false }
          ∷ [];
      default_inbound = [];
    }
    ∷ record { name = "opsgenie"; kind = "opsgenie"; default_actions = []; default_inbound = [] }
    ∷ record { name = "jira-outbound"; kind = "jira"; default_actions = []; default_inbound = [] }
    ∷ []

-- _PROFILES.get(name or "")
unfoldable pub profile_for : Option String → Option Profile
profile_for name = find (λ p. p.name) (or_text name "") profiles

unfoldable pub default_profile_for_kind : Option String → String
default_profile_for_kind kind =
    let k = or_text kind "generic" in if k == "jira" then "jira-outbound" else k

abbrev pub defaults_of : Category → Profile → List Default
defaults_of actions p = p.default_actions
defaults_of inbound p = p.default_inbound

unfoldable pub profile_default : Option String → Category → String → Option Bool
profile_default name category key = elim (profile_for name) [
  | none ↦ none
  | some p ↦ elim (find (λ d. d.key) key (defaults_of category p)) [
    | none ↦ none
    | some d ↦ some d.value
  ]
]

pub data PolicyCode : Type 0 where
  allowed denied_capability denied_target denied_profile denied_unknown : PolicyCode

abbrev pub is_allowed : PolicyCode → Bool
is_allowed allowed = true
is_allowed _ = false

-- Capability, then the override of the target, then the default of its profile.
unfoldable pub narrow : Bool → Option Bool → Option Bool → PolicyCode
narrow false override default = denied_capability
narrow true (some false) default = denied_target
narrow true (some true) default = allowed
narrow true none (some false) = denied_profile
narrow true none (some true) = allowed
narrow true none none = allowed

module _ (kind : Option String) (overrides : String → Option Bool) (profile : Option String) where
  unfoldable pub target_action_policy : String → PolicyCode
  target_action_policy action = elim (find (λ p. p.action) action action_policies) [
    | none ↦ denied_unknown
    | some p ↦
        narrow (capable_of kind p.capability) (overrides p.override_field)
          (profile_default profile actions action)
  ]

  unfoldable pub inbound_field_policy : String → PolicyCode
  inbound_field_policy field =
      if field == "suggestions"
      then narrow (capable_of kind refresh) (overrides "allow_external_suggestions")
          (profile_default profile inbound field)
      else elim (find (λ p. p.field_of) field field_policies) [
        | none ↦ denied_unknown
        | some p ↦
            narrow (has_field kind field) (overrides p.override_field)
              (profile_default profile inbound field)
      ]

pub data Source : Type 0 where
  by_capability by_override by_profile by_default : Source

-- `_decision_source`
unfoldable pub decision_source : Bool → Option Bool → PolicyCode → Source
decision_source false override code = by_capability
decision_source true (some b) code = by_override
decision_source true none denied_profile = by_profile
decision_source true none _ = by_default

-- An entry of `effective_target_policy`.
pub record Entry : Type 0 where
  pub key : String
  pub capable : Bool
  pub profile_default : Option Bool
  pub override : Option Bool
  pub effective : Bool
  pub source : Source
  pub code : PolicyCode

unfoldable pub entry : String → Bool → Option Bool → Option Bool → PolicyCode → Entry
entry key capable default override code = record {
  key = key;
  capable = capable;
  profile_default = default;
  override = override;
  effective = is_allowed code;
  source = decision_source capable override code;
  code = code;
}

pub record Effective : Type 0 where
  pub actions_of : List Entry
  pub inbound_of : List Entry

-- The target of an active link, as far as a policy asks for it.
pub record Target : Type 0 where
  pub kind : Option String
  pub overrides : String → Option Bool
  pub profile : Option String

module _ (t : Target) where
  abbrev pub action_entry : ActionPolicy → Entry
  action_entry p =
      entry p.action (capable_of t.kind p.capability) (profile_default t.profile actions p.action)
        (t.overrides p.override_field) (target_action_policy t.kind t.overrides t.profile p.action)

  abbrev pub field_entry : FieldPolicy → Entry
  field_entry p =
      entry p.field_of (has_field t.kind p.field_of) (profile_default t.profile inbound p.field_of)
        (t.overrides p.override_field)
        (inbound_field_policy t.kind t.overrides t.profile p.field_of)

  abbrev pub suggestions_entry : Entry
  suggestions_entry =
      entry "suggestions" (capable_of t.kind refresh)
        (profile_default t.profile inbound "suggestions") (t.overrides "allow_external_suggestions")
        (inbound_field_policy t.kind t.overrides t.profile "suggestions")

  unfoldable pub effective_target_policy : Effective
  effective_target_policy = record {
    actions_of = map action_entry action_policies;
    inbound_of = map field_entry field_policies ++ suggestions_entry ∷ [];
  }

-- `_any_target_allows`, without the reason
unfoldable pub any_target_allows : List Target → String → Bool
any_target_allows links action =
    any (λ t. is_allowed (target_action_policy t.kind t.overrides t.profile action)) links
