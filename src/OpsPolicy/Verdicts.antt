-- ===== src/OpsPolicy/Verdicts.antt =====
-- The verdicts of backend/app/ops_policy.py against an independent reading: whose clock a job is
-- measured by, and what is worth an alert.
use aira_agent.Base.{ℕ, none, some, List, Bool, true, false, not, ◌≡◌, ◌&&◌, ◌||◌, any, arith}
use aira_agent.JobPolicy.{Settings}
use aira_agent.ExecutionQueue.Status.{queued, cancel_requested, is_terminal, is_active}
use aira_agent.ExecutionQueue.Job.{ExecutionJob}
use aira_agent.OpsPolicy.Classify.{
  HealthClass, stuck, retry_exhausted, triage_needed, SloPolicy, classify, classify_terminal,
  classify_active, classify_queued, classify_canceling, classify_running, exceeds, age,
  running_limit, or_time, within,
}
use aira_agent.OpsPolicy.Health.{is_alerting}

-- Since when a job that is not over is in its state, by its time stamps.
abbrev pub since : ExecutionJob → ℕ
since r = elim r.status [
  | queued ↦ r.created_at
  | cancel_requested ↦ r.updated_at
  | _ ↦ elim r.started_at [ none ↦ r.created_at | some t ↦ t ]
]

-- How many seconds it may stay there.
abbrev pub budget : SloPolicy → ExecutionJob → ℕ
budget p r = elim r.status [
  | queued ↦ p.queued_seconds
  | cancel_requested ↦ p.cancel_seconds
  | _ ↦ running_limit p r.exec_class
]

abbrev pub is_stuck : HealthClass → Bool
is_stuck stuck = true
is_stuck _ = false

abbrev pub is_exhausted : HealthClass → Bool
is_exhausted retry_exhausted = true
is_exhausted _ = false

abbrev pub is_triage : HealthClass → Bool
is_triage triage_needed = true
is_triage _ = false

-- A job that is not over is classified as stuck exactly when the checks are enabled and it has been
-- in its state for longer than the seconds allowed for that state, zero seconds standing for no limit.
pub stuck_exact :
    (s : Settings) (r : ExecutionJob) (now : ℕ) (children : List ExecutionJob) (p : SloPolicy)
    → is_terminal r.status ≡ false
    → is_stuck (classify s r now children p).classification
      ≡ p.enabled && exceeds (age (since r) now) (budget p r)
unfolding classify classify_active classify_queued classify_canceling classify_running is_terminal
    or_time within
stuck_exact s r now children p over = ground arith

-- A verdict is worth an alert exactly when the job is stuck, has spent its attempts, or waits for
-- triage while no retry or replay of it is under way.
pub alerting_exact :
    (s : Settings) (r : ExecutionJob) (now : ℕ) (children : List ExecutionJob) (p : SloPolicy)
    → is_alerting (classify s r now children p).severity
      ≡ is_stuck (classify s r now children p).classification
        || is_exhausted (classify s r now children p).classification
        || is_triage (classify s r now children p).classification
          && not (any (λ c. is_active c.status) children)
unfolding classify classify_terminal classify_active classify_queued classify_canceling
    classify_running is_terminal or_time within
alerting_exact s r now children p = ground arith
