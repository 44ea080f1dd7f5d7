-- ===== src/UsageLimits.antt =====
-- backend/app/usage_limits.py: quotas on the records of one owner and kind in a window of time, and on
-- an owner's pending flows, whose number the guided flow store gives. A time is in microseconds.
pub mod Quota
mod Tests
use aira_agent.Base.{
  ℕ, ◌+◌, ◌-◌, ◌*◌, String, Option, none, some, List, [], ◌∷◌, ◌++◌, Bool, true, false, not, ◌&&◌,
  ltb, leb, ◌==◌, if◌then◌else◌, keep, tally,
}
use aira_agent.Base.Text.{after_prefix}

pub record UsageRecord : Type 0 where
  pub id : String
  pub owner : String
  pub kind : String
  pub created_at : ℕ

pub record Usage : Type 0 where
  pub records : List UsageRecord
  pub rejections : List (String × String)
  pub now : ℕ

-- Three of the four kinds are counted in a window; the fourth is that of pending flows.
pub data Kind : Type 0 where
  execution artifact startup : Kind

abbrev pub kind_text : Kind → String
kind_text execution = "execution_start"
kind_text artifact = "artifact_generation"
kind_text startup = "startup_validation"

abbrev pub pending_text : String
pending_text = "pending_flow"

pub record Settings : Type 0 where
  pub quotas_enabled : Bool
  pub quota_window_seconds : ℕ
  pub execution_starts_per_window : ℕ
  pub artifact_generations_per_window : ℕ
  pub startup_validations_per_window : ℕ
  pub workspace_execution_starts_per_window : ℕ
  pub workspace_artifact_generations_per_window : ℕ
  pub workspace_startup_validations_per_window : ℕ
  pub max_pending_flows_per_owner : ℕ
  pub workspace_max_pending_flows : ℕ

pub record QuotaDecision : Type 0 where
  pub allowed : Bool
  pub kind : String
  pub message : String

-- created_at >= now - window: written without the difference, which may lie before time 0
unfoldable pub in_window : String → String → ℕ → ℕ → UsageRecord → Bool
in_window owner kind window_seconds now r =
    r.owner == owner && (r.kind == kind && leb now (r.created_at + window_seconds * 1000000))

unfoldable pub count_in_window : String → String → ℕ → Usage → ℕ
count_in_window owner kind window_seconds u =
    tally (in_window owner kind window_seconds u.now) u.records

unfoldable pub check : String → String → ℕ → ℕ → Usage → Bool
check owner kind limit window_seconds u = ltb (count_in_window owner kind window_seconds u) limit

unfoldable pub record_usage : String → String → String → Usage → Usage
record_usage id owner kind u = record u {
  records = u.records ++ record { id = id; owner = owner; kind = kind; created_at = u.now } ∷ [];
}

-- created_at < now - age
unfoldable pub is_old : ℕ → ℕ → UsageRecord → Bool
is_old older_than_seconds now r = ltb (r.created_at + older_than_seconds * 1000000) now

unfoldable pub purge_old : ℕ → Usage → ℕ × Usage
purge_old older_than_seconds u = (
  tally (is_old older_than_seconds u.now) u.records,
  record u { records = keep (λ r. not (is_old older_than_seconds u.now r)) u.records },
)

abbrev found_prefix : Option String → Bool
found_prefix none = false
found_prefix (some rest) = true

unfoldable pub is_workspace_owner : String → Bool
is_workspace_owner owner = found_prefix (after_prefix "workspace:" owner)

abbrev workspace_limit : Settings → Kind → ℕ
workspace_limit s execution = s.workspace_execution_starts_per_window
workspace_limit s artifact = s.workspace_artifact_generations_per_window
workspace_limit s startup = s.workspace_startup_validations_per_window

abbrev personal_limit : Settings → Kind → ℕ
personal_limit s execution = s.execution_starts_per_window
personal_limit s artifact = s.artifact_generations_per_window
personal_limit s startup = s.startup_validations_per_window

unfoldable pub limit_for : Settings → Kind → String → ℕ
limit_for s kind owner =
    if is_workspace_owner owner then workspace_limit s kind else personal_limit s kind

unfoldable pub pending_cap : Settings → String → ℕ
pending_cap s owner =
    if is_workspace_owner owner
    then s.workspace_max_pending_flows
    else s.max_pending_flows_per_owner

-- _LIMIT_MESSAGES
limit_message : Kind → String
limit_message execution =
    "Execution is temporarily rate-limited for this session because the execution quota was reached. Please try again shortly."
limit_message artifact =
    "Artifact generation is temporarily rate-limited. Please try again shortly."
limit_message startup =
    "Runtime validation is temporarily rate-limited for this session. Please try again shortly."

abbrev allow : String → QuotaDecision
allow kind = record { allowed = true; kind = kind; message = "" }

unfoldable pub log_rejection : String → String → Usage → Usage
log_rejection owner kind u = record u { rejections = u.rejections ++ (owner, kind) ∷ [] }

unfoldable pub check_windowed : Settings → String → Kind → Usage → QuotaDecision × Usage
unfolding limit_message
check_windowed s owner kind u =
    if not s.quotas_enabled
    then (allow (kind_text kind), u)
    else if check owner (kind_text kind) (limit_for s kind owner) s.quota_window_seconds u
    then (allow (kind_text kind), u)
    else (
      record { allowed = false; kind = kind_text kind; message = limit_message kind },
      log_rejection owner (kind_text kind) u,
    )

-- `QuotaService.record`
unfoldable pub record_action : Settings → String → String → Kind → Usage → Usage
record_action s id owner kind u =
    if s.quotas_enabled then record_usage id owner (kind_text kind) u else u

-- `count_pending` of the guided flow store is an argument.
unfoldable pub check_pending_flows :
    Settings → (String → ℕ) → String → Usage → QuotaDecision × Usage
check_pending_flows s count_pending owner u =
    if not s.quotas_enabled
    then (allow pending_text, u)
    else if ltb (count_pending owner) (pending_cap s owner)
    then (allow pending_text, u)
    else (
      record {
        allowed = false;
        kind = pending_text;
        message =
            "You already have too many pending approval flows. Resolve or cancel one before starting another.";
      },
      log_rejection owner pending_text u,
    )
