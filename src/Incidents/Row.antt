-- ===== src/Incidents/Row.antt =====
-- The rows of backend/app/incidents.py (`OperatorIncident` and `OperatorIncidentEvent` of
-- backend/app/db/models.py), the alerts of a sweep, and the dictionary that `_clean` builds. A time
-- is a number of microseconds; `now` is the clock that `_now()` reads.
use Prim.Native.String.{◌++◌ as append}
use aira_agent.Base.{
  ℕ, String, Option, none, some, List, Bool, true, false, leb, ◌==◌, if◌then◌else◌, truthy,
}
use aira_agent.Base.Int.{ℤ}
use aira_agent.Base.Text.{take_text, strip}

pub data State : Type 0 where
  opened acknowledged silenced recovered : State

pub record Incident : Type 0 where
  pub id : String
  pub signal : String
  pub classification : Option String
  pub subject : String
  pub source : String
  pub state : State
  pub severity : Option String
  pub occurrences : ℕ
  pub note : Option String
  pub acknowledged_at : Option ℕ
  pub silenced_until : Option ℕ
  pub recovered_at : Option ℕ
  pub assignee : Option String
  pub assigned_at : Option ℕ
  pub first_seen : ℕ
  pub last_seen : ℕ

pub record IncidentEvent : Type 0 where
  pub incident_id : String
  pub action : String
  pub actor : Option String
  pub detail : Option String
  pub state : State
  pub created_at : ℕ

-- What `_emit_sync` hands to the external sync after a commit.
pub record Exported : Type 0 where
  pub incident_id : String
  pub action : String
  pub actor : Option String

pub record Incidents : Type 0 where
  pub rows : List Incident
  pub events : List IncidentEvent
  pub exported : List Exported
  pub now : ℕ

pub record Settings : Type 0 where
  pub incident_max_silence_seconds : ℤ
  pub incident_default_silence_seconds : ℤ

pub record Alert : Type 0 where
  pub classification : Option String
  pub job_id : Option String
  pub exec_class : Option String
  pub severity : Option String

abbrev pub incident_id : Incident → String
incident_id r = r.id

abbrev pub row_signal : Incident → String
row_signal r = r.signal

-- a or b, for optional texts
abbrev pub or_else : Option String → Option String → Option String
or_else a b = if truthy a then a else b

-- f"{x}" of an optional text
abbrev pub shown : Option String → String
shown none = "None"
shown (some s) = s

unfoldable pub signal_of : Alert → String
signal_of a = append (shown a.classification) (append ":" (shown (or_else a.job_id a.exec_class)))

-- str(job_id or exec_class or "")[:120]
unfoldable pub subject_of : Alert → String
subject_of a = take_text 120 (shown (or_else a.job_id (or_else a.exec_class (some ""))))

-- detail[:280] if detail else None
unfoldable pub bound_detail : Option String → Option String
bound_detail none = none
bound_detail (some d) = if d == "" then none else some (take_text 280 d)

-- (actor or "").strip()[:80] or None
unfoldable pub bound_actor : Option String → Option String
bound_actor none = none
bound_actor (some a) =
    let handle = take_text 80 (strip a) in if handle == "" then none else some handle

-- `_log`
unfoldable pub log_event :
    String → String → Option String → Option String → State → ℕ → IncidentEvent
log_event id action actor detail state now = record {
  incident_id = id;
  action = action;
  actor = bound_actor actor;
  detail = bound_detail detail;
  state = state;
  created_at = now;
}

abbrev pub is_silenced : State → Bool
is_silenced silenced = true
is_silenced _ = false

abbrev pub is_recovered : State → Bool
is_recovered recovered = true
is_recovered _ = false

abbrev pub is_some {ℓ} : {A : Type ℓ} → Option A → Bool
is_some none = false
is_some (some a) = true

-- silenced_until is None or silenced_until <= now
abbrev pub elapsed : Option ℕ → ℕ → Bool
elapsed none now = true
elapsed (some t) now = leb t now

abbrev acknowledged_or_open : Option ℕ → State
acknowledged_or_open none = opened
acknowledged_or_open (some t) = acknowledged

-- `ACKNOWLEDGED if row.acknowledged_at else OPEN`
unfoldable pub unsilenced_state : Incident → State
unsilenced_state r = acknowledged_or_open r.acknowledged_at

-- The state that `_clean` shows: a silence whose window has elapsed is over.
unfoldable pub effective_state : ℕ → Incident → State
unfolding unsilenced_state
effective_state now r =
    if is_silenced r.state
    then (if elapsed r.silenced_until now then unsilenced_state r else r.state)
    else r.state

pub record IncidentDict : Type 0 where
  pub id : String
  pub signal : String
  pub classification : Option String
  pub subject : String
  pub source : String
  pub state : State
  pub severity : Option String
  pub occurrences : ℕ
  pub note : Option String
  pub assignee : Option String
  pub assigned_at : Option ℕ
  pub acknowledged : Bool
  pub acknowledged_at : Option ℕ
  pub silenced_until : Option ℕ
  pub recovered_at : Option ℕ
  pub first_seen : ℕ
  pub last_seen : ℕ

-- `silenced_until` as it is shown: only while it lies ahead
abbrev pub shown_until : Option ℕ → ℕ → Option ℕ
shown_until t now = if elapsed t now then none else t

unfoldable pub clean : ℕ → Incident → IncidentDict
clean now r = record {
  id = r.id;
  signal = r.signal;
  classification = r.classification;
  subject = r.subject;
  source = r.source;
  state = effective_state now r;
  severity = r.severity;
  occurrences = r.occurrences;
  note = r.note;
  assignee = r.assignee;
  assigned_at = r.assigned_at;
  acknowledged = is_some r.acknowledged_at;
  acknowledged_at = r.acknowledged_at;
  silenced_until = shown_until r.silenced_until now;
  recovered_at = r.recovered_at;
  first_seen = r.first_seen;
  last_seen = r.last_seen;
}
