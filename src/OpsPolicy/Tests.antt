-- ===== src/OpsPolicy/Tests.antt =====
-- A table of a job that has waited too long and a failed one, and the theorems at it.
use aira_agent.Base.{
  ℕ, ◌+◌, String, Option, none, some, List, [], ◌∷◌, Bool, true, ◌≡◌, ◌&&◌, All, tally,
}
use aira_agent.Base.Int.{pos}
use aira_agent.Base.Order.{Ordered}
use aira_agent.JobPolicy.{Settings}
use aira_agent.ExecutionQueue.Status.{Status, queued, failed}
use aira_agent.ExecutionQueue.Job.{ExecutionJob}
use aira_agent.OpsPolicy.Classify.{SloPolicy}
use aira_agent.OpsPolicy.Health.{
  OpsAlert, alerts, health, is_alerting, sooner, job_alert, backlog_alert,
}
use aira_agent.OpsPolicy.Alerts.{IsAlerting, alerts_exact}

abbrev settings : Settings
settings = record {
  queue_concurrency = λ _. none;
  queue_per_owner_inflight_cap = pos 3;
  queue_scheduling_enabled = true;
  job_max_attempts = pos 3;
}

abbrev policy : SloPolicy
policy = record {
  enabled = true;
  queued_seconds = 300;
  running_default = 120;
  running_seconds = [];
  cancel_seconds = 60;
  backlog_threshold = 20;
}

abbrev row : String → Status → ExecutionJob
row id status = record {
  id = id;
  owner = "account:1";
  session_id = none;
  actor_account_id = none;
  kind = "artifact";
  status = status;
  exec_class = some "artifact";
  priority = 50;
  title = none;
  progress = none;
  payload_json = "{}";
  result_json = none;
  dedup_key = none;
  attempts = 1;
  run_id = none;
  parent_job_id = none;
  origin = none;
  created_at = 0;
  updated_at = 0;
  started_at = none;
  finished_at = none;
}

abbrev jobs : List ExecutionJob
jobs = row "j1" queued ∷ row "j2" failed ∷ []

abbrev json_error : String → Option String
json_error text = none

abbrev now : ℕ
now = 400000000

alerts_exact_example :
    All IsAlerting (alerts settings json_error policy now 200 jobs)
    × Ordered sooner (alerts settings json_error policy now 200 jobs)
    × ((q : OpsAlert → Bool)
        → tally q (alerts settings json_error policy now 200 jobs)
          ≡ tally
              (λ c. is_alerting c.verdict.severity && q (job_alert c))
              (health settings json_error policy now 200 jobs).classifications
            + tally
                (λ b. q (backlog_alert b))
                (health settings json_error policy now 200 jobs).backlog)
alerts_exact_example = alerts_exact settings json_error policy now 200 jobs
