-- ===== src/IncidentSync/Row.antt =====
-- The rows and the settings of the mirroring of incidents: `ExternalIncidentTarget`,
-- `IncidentSyncRecord` and `IncidentExternalLink` of backend/app/db/models.py, as
-- backend/app/incident_sync.py uses them. Times are numbers of microseconds; `draws` counts the ids
-- drawn by `uuid4().hex`, `sends` the requests made.
use aira_agent.Base.{ℕ, String, Option, List, Bool, true, false, ◌&&◌, ◌==◌}
use aira_agent.Base.Int.{ℤ}

pub data Status : Type 0 where
  pending synced failed : Status

abbrev pub is_pending : Status → Bool
is_pending pending = true
is_pending _ = false

abbrev pub is_synced : Status → Bool
is_synced synced = true
is_synced _ = false

abbrev pub is_failed : Status → Bool
is_failed failed = true
is_failed _ = false

pub record Target : Type 0 where
  pub id : String
  pub name : String
  pub kind : String
  pub url : String
  pub secret : Option String
  pub enabled : Bool
  pub sync_actions : Option String
  pub consecutive_failures : ℕ

-- The fields of an incident that are exported.
pub record Snapshot : Type 0 where
  pub incident_id : String
  pub signal : Option String
  pub state : Option String
  pub severity : Option String
  pub classification : Option String
  pub subject : Option String
  pub assignee : Option String
  pub note : Option String

pub record Record : Type 0 where
  pub id : String
  pub target_id : String
  pub snapshot : Snapshot
  pub action : String
  pub actor : Option String
  pub status : Status
  pub attempts : ℕ
  pub last_error : Option String
  pub external_ref : Option String
  pub external_url : Option String
  pub redrive_of : Option String
  pub created_at : ℕ
  pub updated_at : ℕ

pub record Link : Type 0 where
  pub id : String
  pub incident_id : String
  pub target_id : String
  pub external_ref : Option String
  pub external_url : Option String
  pub last_action : Option String
  pub last_record_id : Option String
  pub last_synced_at : Option ℕ
  pub created_at : ℕ

pub record Sync : Type 0 where
  pub targets : List Target
  pub records : List Record
  pub links : List Link
  pub draws : ℕ
  pub sends : ℕ
  pub now : ℕ

pub record Settings : Type 0 where
  pub incident_sync_max_attempts : ℤ
  pub incident_sync_max_redrives : ℤ

abbrev pub target_key : Target → String
target_key t = t.id

abbrev pub record_key : Record → String
record_key r = r.id

-- What `_send` answers: the reference and the url that the adapter reads from a response, or the name
-- of the error, which it gives with every answer that is not ok.
pub data Sent : Type 0 where
  accepted : Option String → Option String → Sent
  refused : String → Sent

-- The nth request: the payload and its shape are made of the target and the record.
abbrev pub Transport : Type 0
Transport = ℕ → Target → Record → Sent

abbrev pub is_link : String → String → Link → Bool
is_link incident_id target_id l = l.incident_id == incident_id && l.target_id == target_id
