-- ===== src/ExecutionQueue/Job.antt =====
-- The rows of backend/app/execution_queue.py (`ExecutionJob` of backend/app/db/models.py), the views
-- and dictionaries made of them, and the state of the queue. A time is a number; `now` is the clock
-- that `_now()` reads, which moves between operations. `signals` is what the queue hands, best
-- effort, to the observability and activity services.
use aira_agent.Base.{ℕ, String, Option, none, some, List, ◌∷◌, [], ◌++◌, Bool, false}
use aira_agent.Base.Table.{find}
use aira_agent.ExecutionQueue.Status.{Status, is_cancel, can_cancel, can_retry}

-- What a job leaves as its result, and what `json.dumps` is given: the dictionary of a handler (as
-- its JSON text), the dictionaries that the queue makes itself, or a value that JSON cannot hold.
pub data Value : Type 0 where
  outcome : (text : String) → Value
  error_result : (message : String) → Value
  canceled_result not_json : Value

pub record ExecutionJob : Type 0 where
  pub id : String
  pub owner : String
  pub session_id : Option String
  pub actor_account_id : Option String
  pub kind : String
  pub status : Status
  pub exec_class : Option String
  pub priority : ℕ
  pub title : Option String
  pub progress : Option String
  pub payload_json : String
  pub result_json : Option Value
  pub dedup_key : Option String
  pub attempts : ℕ
  pub run_id : Option String
  pub parent_job_id : Option String
  pub origin : Option String
  pub created_at : ℕ
  pub updated_at : ℕ
  pub started_at : Option ℕ
  pub finished_at : Option ℕ

-- The keyword arguments of `enqueue`. The payload is given as its JSON text.
pub record NewJob : Type 0 where
  pub owner : String
  pub kind : String
  pub payload : String
  pub session_id : Option String
  pub actor_account_id : Option String
  pub title : Option String
  pub dedup_key : Option String
  pub run_id : Option String

-- `JobView`: what a handler sees of a job.
pub record JobView : Type 0 where
  pub id : String
  pub owner : String
  pub session_id : Option String
  pub actor_account_id : Option String
  pub kind : String
  pub title : Option String
  pub attempts : ℕ
  pub payload : String

-- The dictionary that `_clean` builds.
pub record JobDict : Type 0 where
  pub id : String
  pub kind : String
  pub status : Status
  pub title : Option String
  pub progress : Option String
  pub result : Option Value
  pub origin : Option String
  pub can_cancel : Bool
  pub can_retry : Bool
  pub created_at : ℕ
  pub updated_at : ℕ

pub data Signal : Type 0 where
  queued_event claimed_event canceled_event completed_event : (owner job_id kind : String) → Signal
  failed_event : (owner job_id kind failure_class : String) → Signal
  retrying_event replayed_event : (owner job_id kind parent_job_id : String) → Signal
  canceled_activity retry_activity : (owner : String) (actor_id title : Option String) → Signal

pub record Queue : Type 0 where
  pub jobs : List ExecutionJob
  pub signals : List Signal
  pub now : ℕ

abbrev pub job_id : ExecutionJob → String
job_id j = j.id

-- session.get(ExecutionJob, id)
unfoldable pub get_row : String → Queue → Option ExecutionJob
get_row id q = find job_id id q.jobs

unfoldable pub emit : Signal → Queue → Queue
emit s q = record q { signals = q.signals ++ s ∷ [] }

unfoldable pub view_of : ExecutionJob → JobView
view_of r = record {
  id = r.id;
  owner = r.owner;
  session_id = r.session_id;
  actor_account_id = r.actor_account_id;
  kind = r.kind;
  title = r.title;
  attempts = r.attempts;
  payload = r.payload_json;
}

unfoldable pub clean : ExecutionJob → JobDict
clean r = record {
  id = r.id;
  kind = r.kind;
  status = r.status;
  title = r.title;
  progress = r.progress;
  result = r.result_json;
  origin = r.origin;
  can_cancel = can_cancel r.status;
  can_retry = can_retry r.status;
  created_at = r.created_at;
  updated_at = r.updated_at;
}

status_is_cancel : Option ExecutionJob → Bool
status_is_cancel none = false
status_is_cancel (some r) = is_cancel r.status

unfoldable pub is_cancelled : String → Queue → Bool
unfolding status_is_cancel
is_cancelled id q = status_is_cancel (get_row id q)

cleaned : Option ExecutionJob → Option JobDict
cleaned none = none
cleaned (some r) = some (clean r)

unfoldable pub get_raw : String → Queue → Option JobDict
unfolding cleaned
get_raw id q = cleaned (get_row id q)
