-- ===== src/OpsPolicy/Classify.antt =====
-- `SLOPolicy`, `classify_job` and its two halves in backend/app/ops_policy.py, with `scope_of` and
-- `failure_class_of` of backend/app/observability.py. The thresholds are natural numbers (the
-- settings' validators refuse others); a reason is the facts that its text is made of; a time is a
-- number of microseconds.
use aira_agent.Base.{
  ℕ, ◌+◌, ◌-◌, ◌*◌, ◌/◌, String, Option, none, some, List, [], ◌∷◌, Bool, true, false, ◌&&◌, ltb,
  leb, eqb, ◌==◌, if◌then◌else◌, or_text, any,
}
use aira_agent.Base.Int.{ℤ, pos, negsuc, at_least}
use aira_agent.Base.Text.{take_text, strip, before, after_prefix}
use aira_agent.JobPolicy.{Settings}
use aira_agent.ExecutionQueue.Status.{
  Status, completed, canceled, queued, cancel_requested, is_terminal, is_active,
}
use aira_agent.ExecutionQueue.Job.{
  ExecutionJob, Value, outcome, error_result, canceled_result, not_json,
}

pub data HealthClass : Type 0 where
  healthy stuck retry_exhausted triage_needed resolved backlog_pressure : HealthClass

pub data Severity : Type 0 where
  info warning critical : Severity

-- The settings that `from_settings` reads.
pub record SloSettings : Type 0 where
  pub slo_enabled : Bool
  pub slo_queued_seconds : ℕ
  pub slo_running_seconds_default : ℕ
  pub slo_running_seconds_artifact : ℕ
  pub slo_running_seconds_validation : ℕ
  pub slo_running_seconds_maintenance : ℕ
  pub slo_cancel_seconds : ℕ
  pub slo_backlog_threshold : ℕ

-- `SLOPolicy`. The entry "default" of the dictionary has a field of its own.
pub record SloPolicy : Type 0 where
  pub enabled : Bool
  pub queued_seconds : ℕ
  pub running_default : ℕ
  pub running_seconds : List (String × ℕ)
  pub cancel_seconds : ℕ
  pub backlog_threshold : ℕ

unfoldable pub from_settings : SloSettings → SloPolicy
from_settings s = record {
  enabled = s.slo_enabled;
  queued_seconds = s.slo_queued_seconds;
  running_default = s.slo_running_seconds_default;
  running_seconds =
      ("artifact", s.slo_running_seconds_artifact)
      ∷ ("validation", s.slo_running_seconds_validation)
      ∷ ("maintenance", s.slo_running_seconds_maintenance)
      ∷ [];
  cancel_seconds = s.slo_cancel_seconds;
  backlog_threshold = s.slo_backlog_threshold;
}

limit_in : List (String × ℕ) → String → ℕ → ℕ
limit_in [] name otherwise = otherwise
limit_in ((n, seconds) ∷ rest) name otherwise =
    if n == name then seconds else limit_in rest name otherwise

unfoldable pub running_limit : SloPolicy → Option String → ℕ
unfolding limit_in
running_limit p exec_class = limit_in p.running_seconds (or_text exec_class "") p.running_default

-- The facts of a reason's text.
pub data Reason : Type 0 where
  completed_cleanly canceled_cleanly succeeded_later in_progress attempts_spent replay_candidate :
      Reason
  checks_disabled queued_in_time canceling_in_time running_in_time : Reason
  queued_long canceling_long : ℤ → Reason
  running_long : ℤ → ℕ → Reason
  jobs_queued : ℕ → String → ℕ → Reason

-- The dictionary that the two halves return.
pub record Verdict : Type 0 where
  pub classification : HealthClass
  pub severity : Severity
  pub reason : Reason
  pub age_seconds : Option ℤ

abbrev verdict : HealthClass → Severity → Reason → Option ℤ → Verdict
verdict c s r a = record { classification = c; severity = s; reason = r; age_seconds = a }

-- now - ts, in microseconds
unfoldable pub age : ℕ → ℕ → ℤ
age ts now = if leb ts now then pos (now - ts) else negsuc (ts - now - 1)

-- int(...) of the seconds: towards zero
unfoldable pub whole_seconds : ℤ → ℤ
whole_seconds (pos us) = pos (us / 1000000)
whole_seconds (negsuc us) = let s = (us + 1) / 1000000 in if eqb s 0 then pos 0 else negsuc (s - 1)

-- `limit and age > limit`
unfoldable pub exceeds : ℤ → ℕ → Bool
exceeds (pos us) limit = ltb 0 limit && ltb (limit * 1000000) us
exceeds (negsuc us) limit = false

unfoldable pub classify_terminal : Settings → ExecutionJob → List ExecutionJob → Verdict
classify_terminal s row children = elim row.status [
  | completed ↦ verdict healthy info completed_cleanly none
  | canceled ↦ verdict healthy info canceled_cleanly none
  | _ ↦
      if any (λ c. elim c.status [ completed ↦ true | _ ↦ false ]) children
      then verdict resolved info succeeded_later none
      else if any (λ c. is_active c.status) children
      then verdict triage_needed info in_progress none
      else if leb (at_least 1 s.job_max_attempts) row.attempts
      then verdict retry_exhausted critical attempts_spent none
      else verdict triage_needed warning replay_candidate none
]

unfoldable pub or_time : Option ℕ → ℕ → ℕ
or_time none t = t
or_time (some t) _ = t

unfoldable pub within : Reason → ℤ → Verdict
within reason a = verdict healthy info reason (some (whole_seconds a))

unfoldable pub classify_queued : ExecutionJob → ℕ → SloPolicy → Verdict
unfolding within
classify_queued row now p =
    let a = age row.created_at now in
    if exceeds a p.queued_seconds
    then verdict stuck warning (queued_long (whole_seconds a)) (some (whole_seconds a))
    else within queued_in_time a

unfoldable pub classify_canceling : ExecutionJob → ℕ → SloPolicy → Verdict
unfolding within
classify_canceling row now p =
    let a = age row.updated_at now in
    if exceeds a p.cancel_seconds
    then verdict stuck critical (canceling_long (whole_seconds a)) (some (whole_seconds a))
    else within canceling_in_time a

unfoldable pub classify_running : ExecutionJob → ℕ → SloPolicy → Verdict
unfolding within or_time
classify_running row now p =
    let a = age (or_time row.started_at row.created_at) now in
    let limit = running_limit p row.exec_class in
    if exceeds a limit
    then verdict stuck critical (running_long (whole_seconds a) limit) (some (whole_seconds a))
    else within running_in_time a

unfoldable pub classify_active : ExecutionJob → ℕ → SloPolicy → Verdict
classify_active row now p =
    if p.enabled
    then elim row.status [
      | queued ↦ classify_queued row now p
      | cancel_requested ↦ classify_canceling row now p
      | _ ↦ classify_running row now p
    ]
    else verdict healthy info checks_disabled none

unfoldable pub classify : Settings → ExecutionJob → ℕ → List ExecutionJob → SloPolicy → Verdict
classify s row now children p =
    if is_terminal row.status then classify_terminal s row children else classify_active row now p

abbrev scope_rest : Option String → String → Option (String × Option String)
scope_rest none name = none
scope_rest (some rest) name = some (name, some rest)

unfoldable pub scope_of : Option String → String × Option String
scope_of none = ("unknown", none)
scope_of (some owner) =
    if owner == ""
    then ("unknown", none)
    else elim (scope_rest (after_prefix "account:" owner) "account") [
      | some s ↦ s
      | none ↦ elim (scope_rest (after_prefix "workspace:" owner) "workspace") [
        | some s ↦ s
        | none ↦ ("session", none)
      ]
    ]

-- error.split(":", 1)[0].strip()[:60]; 58 is the colon
error_class : Option String → Option String
error_class none = none
error_class (some e) = if e == "" then none else some (take_text 60 (strip (before 58 e)))

-- `json_error` reads the text under "error" of a handler's result, where it is one: `json.loads`.
unfoldable pub failure_class_of : (String → Option String) → Option Value → Option String
unfolding error_class
failure_class_of json_error none = none
failure_class_of json_error (some (outcome text)) = error_class (json_error text)
failure_class_of json_error (some (error_result message)) = error_class (some message)
failure_class_of json_error (some canceled_result) = none
failure_class_of json_error (some not_json) = none

-- The dictionary of `classify_job`.
pub record JobHealth : Type 0 where
  pub job_id : String
  pub kind : String
  pub exec_class : Option String
  pub status : Status
  pub origin : Option String
  pub verdict : Verdict
  pub failure_class : Option String
  pub scope : String × Option String
  pub created_at : ℕ

unfoldable pub classify_job :
    Settings
    → (String → Option String)
    → ExecutionJob
    → ℕ
    → List ExecutionJob
    → SloPolicy
    → JobHealth
classify_job s json_error row now children p = record {
  job_id = row.id;
  kind = row.kind;
  exec_class = row.exec_class;
  status = row.status;
  origin = row.origin;
  verdict = classify s row now children p;
  failure_class = failure_class_of json_error row.result_json;
  scope = scope_of (some row.owner);
  created_at = row.created_at;
}
