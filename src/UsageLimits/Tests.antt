-- ===== src/UsageLimits/Tests.antt =====
-- One owner at the limit, and the theorems there.
use aira_agent.Base.{◌≤◌, [], ◌∷◌, true, refl, arith, tally}
use aira_agent.Base.Text.{after_prefix}
use aira_agent.UsageLimits.{
  Usage, execution, Settings, count_in_window, in_window, limit_for, is_workspace_owner,
}
use aira_agent.UsageLimits.Quota.{Reach, guarded, Reach-within}

abbrev settings : Settings
settings = record {
  quotas_enabled = true;
  quota_window_seconds = 60;
  execution_starts_per_window = 2;
  artifact_generations_per_window = 2;
  startup_validations_per_window = 1;
  workspace_execution_starts_per_window = 5;
  workspace_artifact_generations_per_window = 5;
  workspace_startup_validations_per_window = 5;
  max_pending_flows_per_owner = 3;
  workspace_max_pending_flows = 5;
}

abbrev usage : Usage
usage = record {
  records =
      record { id = "r1"; owner = "account:1"; kind = "execution_start"; created_at = 10 } ∷ [];
  rejections = [];
  now = 20;
}

abbrev after : Usage
after = guarded settings "r2" "account:1" execution usage

Reach-within_example :
    count_in_window "account:1" "execution_start" 60 after
    ≤ limit_for settings execution "account:1"
unfolding count_in_window tally in_window limit_for is_workspace_owner after_prefix
Reach-within_example =
    Reach-within settings {u = usage} {v = after} "account:1" execution refl
      (Reach.acts "r2" "account:1" execution Reach.done) (omega arith)
