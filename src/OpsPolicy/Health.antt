-- ===== src/OpsPolicy/Health.antt =====
-- `health`, `_backlog` and `alerts` of backend/app/ops_policy.py, on the table of the queue.
use aira_agent.Base.{
  ℕ, suc, ◌*◌, String, Option, none, some, List, [], ◌∷◌, ◌++◌, map, Bool, true, false, ◌||◌, ltb,
  leb, ◌==◌, if◌then◌else◌, or_text, keep, take, is_text,
}
use aira_agent.Base.Order.{sort_by}
use aira_agent.JobPolicy.{Settings, Counts, bump}
use aira_agent.ExecutionQueue.Status.{Status, failed, queued, is_active, is_queued}
use aira_agent.ExecutionQueue.Job.{ExecutionJob}
use aira_agent.OpsPolicy.Classify.{
  HealthClass, healthy, stuck, retry_exhausted, triage_needed, resolved, backlog_pressure, Severity,
  info, warning, critical, SloPolicy, Reason, jobs_queued, JobHealth, classify_job,
}

abbrev pub is_failed : Status → Bool
is_failed failed = true
is_failed _ = false

-- status IN active + failed
unfoldable pub watched : ExecutionJob → Bool
watched r = is_active r.status || is_failed r.status

-- ORDER BY created_at DESC
unfoldable pub newer : ExecutionJob → ExecutionJob → Bool
newer a b = leb b.created_at a.created_at

-- child_map.get(row.id, []): only failed rows have their children looked up
unfoldable pub children_of : List ExecutionJob → ExecutionJob → List ExecutionJob
children_of jobs row =
    if is_failed row.status then keep (λ c. is_text c.parent_job_id row.id) jobs else []

unfoldable pub recent_rows : ℕ → List ExecutionJob → List ExecutionJob
recent_rows limit jobs = take limit (sort_by newer (keep watched jobs))

unfoldable pub classifications :
    Settings → (String → Option String) → SloPolicy → ℕ → ℕ → List ExecutionJob → List JobHealth
classifications s json_error p now limit jobs =
    map (λ row. classify_job s json_error row now (children_of jobs row) p) (recent_rows limit jobs)

-- GROUP BY exec_class, count(id)
abbrev pub same_class : Option String → Option String → Bool
same_class none none = true
same_class (some a) (some b) = a == b
same_class none (some b) = false
same_class (some a) none = false

unfoldable pub group_into : Option String → List (Option String × ℕ) → List (Option String × ℕ)
group_into c [] = (c, 1) ∷ []
group_into c ((d, n) ∷ groups) =
    if same_class d c then (d, suc n) ∷ groups else (d, n) ∷ group_into c groups

unfoldable pub queued_by_class : List ExecutionJob → List (Option String × ℕ)
queued_by_class [] = []
queued_by_class (r ∷ rs) =
    let groups = queued_by_class rs in
    if is_queued r.status then group_into r.exec_class groups else groups

pub record Backlog : Type 0 where
  pub exec_class : String
  pub queued : ℕ
  pub threshold : ℕ
  pub severity : Severity
  pub reason : Reason

unfoldable pub backlog_of : SloPolicy → List (Option String × ℕ) → List Backlog
backlog_of p [] = []
backlog_of p ((exec_class, count) ∷ groups) =
    let rest = backlog_of p groups in
    let name = or_text exec_class "interactive" in
    if ltb p.backlog_threshold count
    then record {
      exec_class = name;
      queued = count;
      threshold = p.backlog_threshold;
      severity = if ltb (p.backlog_threshold * 2) count then critical else warning;
      reason = jobs_queued count name p.backlog_threshold;
    }
      ∷ rest
    else rest

-- `_backlog`
unfoldable pub backlog : SloPolicy → List ExecutionJob → List Backlog
backlog p jobs = backlog_of p (queued_by_class jobs)

-- the texts of the classes
abbrev pub class_text : HealthClass → String
class_text healthy = "healthy"
class_text stuck = "stuck"
class_text retry_exhausted = "retry_exhausted"
class_text triage_needed = "triage_needed"
class_text resolved = "resolved"
class_text backlog_pressure = "backlog_pressure"

unfoldable pub summarize : List JobHealth → Counts → Counts
summarize [] counts = counts
summarize (c ∷ cs) counts = summarize cs (bump (class_text c.verdict.classification) counts)

unfoldable pub summarize_backlog : List Backlog → Counts → Counts
summarize_backlog [] counts = counts
summarize_backlog (b ∷ bs) counts = summarize_backlog bs (bump (class_text backlog_pressure) counts)

pub record Snapshot : Type 0 where
  pub classifications : List JobHealth
  pub backlog : List Backlog
  pub summary : Counts

unfoldable pub health :
    Settings → (String → Option String) → SloPolicy → ℕ → ℕ → List ExecutionJob → Snapshot
health s json_error p now limit jobs =
    let cs = classifications s json_error p now limit jobs in
    let bs = backlog p jobs in
    record { classifications = cs; backlog = bs; summary = summarize_backlog bs (summarize cs []) }

-- The keys of an alert that its routing reads.
pub record OpsAlert : Type 0 where
  pub job_id : Option String
  pub exec_class : Option String
  pub status : Status
  pub classification : HealthClass
  pub severity : Severity
  pub reason : Reason

abbrev pub is_alerting : Severity → Bool
is_alerting info = false
is_alerting _ = true

unfoldable pub job_alert : JobHealth → OpsAlert
job_alert c = record {
  job_id = some c.job_id;
  exec_class = c.exec_class;
  status = c.status;
  classification = c.verdict.classification;
  severity = c.verdict.severity;
  reason = c.verdict.reason;
}

unfoldable pub backlog_alert : Backlog → OpsAlert
backlog_alert b = record {
  job_id = none;
  exec_class = some b.exec_class;
  status = queued;
  classification = backlog_pressure;
  severity = b.severity;
  reason = b.reason;
}

-- 0 if critical else 1
abbrev alert_key : Severity → ℕ
alert_key critical = 0
alert_key _ = 1

unfoldable pub sooner : OpsAlert → OpsAlert → Bool
sooner a b = leb (alert_key a.severity) (alert_key b.severity)

unfoldable pub alerts_of : Snapshot → List OpsAlert
alerts_of h = sort_by sooner (
    map job_alert (keep (λ c. is_alerting c.verdict.severity) h.classifications)
    ++ map backlog_alert h.backlog)

unfoldable pub alerts :
    Settings → (String → Option String) → SloPolicy → ℕ → ℕ → List ExecutionJob → List OpsAlert
alerts s json_error p now limit jobs = alerts_of (health s json_error p now limit jobs)
