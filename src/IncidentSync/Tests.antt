-- ===== src/IncidentSync/Tests.antt =====
-- The mirroring of incidents of backend/app/incident_sync.py at concrete targets and records.
use aira_agent.Base.{
  ℕ, String, none, some, List, [], ◌∷◌, true, ◌==◌, ◌≡◌, refl, All, any, map, zero, suc,
  if◌then◌else◌, keep, first,
}
use aira_agent.Base.Int.{pos}
use aira_agent.Base.Table.{find, update}
use aira_agent.Base.Order.{sort_by, insert_by}
use aira_agent.Base.Text.{take_text}
use aira_agent.Webhooks.Decision.{lets_through, csv_set}
use aira_agent.IncidentSync.Adapters.{capable_of, adapter_for}
use aira_agent.IncidentSync.Policy.{
  effective_target_policy, target_action_policy, PolicyCode, allowed, denied_profile,
  denied_capability, narrow, profile_default, profile_for,
}
use aira_agent.IncidentSync.Policy as Policies
use aira_agent.IncidentSync.Narrowing.{IsNarrowed, effective_target_policy-IsNarrowed}
use aira_agent.IncidentSync.Row.{
  Status, Target, Snapshot, Record, Sync, Settings, accepted, refused, Transport, synced, failed,
}
use aira_agent.IncidentSync.Records.{
  export, new_records, new_record, mirrors, attempt_each, attempt, attempt_found, attempt_to,
  attempted, attempt_cap, links_after, upsert_link, linked, new_link, flush_pending, redrive,
  redrive_found, redrive_failed, redriven, redrive_cap, delete_target,
}
use aira_agent.IncidentSync.Runs.{Op, step, run}
use aira_agent.IncidentSync.Links.{refers, run_keeps_reference}
use aira_agent.IncidentSync.Mirrored.{AllMirrored, run-AllMirrored}

abbrev settings : Settings
settings = record { incident_sync_max_attempts = pos 2; incident_sync_max_redrives = pos 1 }

abbrev pager : Target
pager = record {
  id = "t1";
  name = "On call";
  kind = "pagerduty";
  url = "https://example.org";
  secret = none;
  enabled = true;
  sync_actions = none;
  consecutive_failures = 0;
}

abbrev incident : Snapshot
incident = record {
  incident_id = "i1";
  signal = some "queue:stuck";
  state = some "open";
  severity = some "critical";
  classification = none;
  subject = none;
  assignee = none;
  note = some "";
}

abbrev start : Sync
start = record { targets = pager ∷ []; records = []; links = []; draws = 0; sends = 0; now = 100 }

-- The first two requests fail, later ones are accepted.
abbrev flaky : Transport
flaky zero t r = refused "Timeout"
flaky (suc zero) t r = refused "HTTP503"
flaky (suc (suc n)) t r = accepted (some "ref-1") none

abbrev uuid4 : ℕ → String
uuid4 zero = "r1"
uuid4 (suc zero) = "l1"
uuid4 (suc (suc zero)) = "l2"
uuid4 (suc (suc (suc zero))) = "r2"
uuid4 (suc (suc (suc (suc n)))) = "l3"

-- An export that fails, a retry that exhausts the attempts, and a redrive that succeeds.
abbrev calls : List Op
calls =
    Op.mirror (some incident) "opened" (some "ops")
    ∷ Op.flush 50
    ∷ Op.recover "r1"
    ∷ Op.recover "r1"
    ∷ Op.delete "t1"
    ∷ Op.wait 5
    ∷ []

abbrev status_of : Record → String × (Status × ℕ)
status_of r = (r.id, (r.status, r.attempts))

calls_statuses :
    map status_of (run settings flaky uuid4 calls start).records
    ≡ ("r1", (failed, 2)) ∷ ("r2", (synced, 1)) ∷ []
unfolding run step export new_records new_record mirrors lets_through csv_set keep attempt_each
    attempt attempt_found attempt_to attempted attempt_cap links_after upsert_link linked new_link
    find update flush_pending sort_by insert_by redrive redrive_found redrive_failed redriven
    redrive_cap first delete_target take_text
calls_statuses = refl

-- A store that has a link, with a reference.
abbrev linked_store : Sync
linked_store = record start {
  links =
      record {
        id = "l1";
        incident_id = "i1";
        target_id = "t1";
        external_ref = some "ref-0";
        external_url = none;
        last_action = some "opened";
        last_record_id = none;
        last_synced_at = some 90;
        created_at = 80;
      }
      ∷ [];
}

-- What an observe-only profile sets, an override may lift, but nothing goes beyond the adapter.
readonly_resolves :
    target_action_policy
      (some "pagerduty")
      (λ f. none)
      (some "pagerduty-readonly")
      "external_resolve"
    ≡ denied_profile
unfolding target_action_policy find narrow capable_of adapter_for profile_default profile_for
readonly_resolves = refl

lifted_resolves :
    target_action_policy
      (some "pagerduty")
      (λ f. some true)
      (some "pagerduty-readonly")
      "external_resolve"
    ≡ allowed
unfolding target_action_policy find narrow capable_of adapter_for
lifted_resolves = refl

jira_resolves :
    target_action_policy (some "jira") (λ f. some true) (some "jira-outbound") "external_resolve"
    ≡ denied_capability
unfolding target_action_policy find narrow capable_of adapter_for
jira_resolves = refl

abbrev policy : Policies.Target
policy = record {
  kind = some "pagerduty";
  overrides = λ f. if f == "allow_external_resolve" then some true else none;
  profile = some "pagerduty-readonly";
}

effective_target_policy-IsNarrowed_example :
    All IsNarrowed (effective_target_policy policy).actions_of
    × All IsNarrowed (effective_target_policy policy).inbound_of
effective_target_policy-IsNarrowed_example = effective_target_policy-IsNarrowed policy

run-AllMirrored_example : AllMirrored settings (run settings flaky uuid4 calls start)
run-AllMirrored_example = run-AllMirrored settings flaky uuid4 calls start tt

run_keeps_reference_example :
    any (refers "i1" "t1") (run settings flaky uuid4 calls linked_store).links ≡ true
unfolding any refers
run_keeps_reference_example =
    run_keeps_reference settings flaky uuid4 "i1" "t1" calls linked_store refl
