-- ===== src/IncidentMetrics/Tests.antt =====
-- The metrics of backend/app/incident_metrics.py on concrete samples and counts.
use aira_agent.Base.{ℕ, ◌*◌, none, some, [], ◌∷◌, map, ◌≡◌, refl, tally}
use aira_agent.Base.Order.{sort_by, insert_by}
use aira_agent.IncidentMetrics.{
  count_in_windows, count_in, within, Aggregates, Candidate, Code, Severity, critical, warning,
  repeated_auth_failures, drift_backlog, candidate_alerts, found_alerts, crossed, crossed_by,
  severity_of, comes_before,
}

abbrev day : ℕ
day = 86400000000

-- A time of the last second of the window counts, and one in the future does not.
windows_counted :
    count_in_windows (some 0 ∷ some day ∷ some (3 * day) ∷ none ∷ []) day
    ≡ ("24h", 2) ∷ ("7d", 2) ∷ ("30d", 2) ∷ []
unfolding count_in_windows count_in within tally
windows_counted = refl

abbrev aggregates : Aggregates
aggregates = record {
  auth_failures_by_target = ("pager", 3) ∷ ("jira", 2) ∷ [];
  validation_failures_by_target = [];
  drift_backlog = 12;
  stale_count = 0;
  recon_failures_24h = 4;
}

abbrev code_of : Candidate → Code × Severity
code_of c = (c.code, c.severity)

aggregates_alert :
    map code_of (candidate_alerts aggregates)
    ≡ (drift_backlog, critical) ∷ (repeated_auth_failures, warning) ∷ []
unfolding candidate_alerts found_alerts crossed crossed_by severity_of comes_before sort_by
    insert_by
aggregates_alert = refl
