-- ===== src/Webhooks/Row.antt =====
-- The rows of backend/app/webhooks.py (`WebhookDestination`, `WebhookDelivery` and `AlertOccurrence`
-- of backend/app/db/models.py), its settings, and the adapters of the destinations. A time is a
-- number of microseconds, a window a number of seconds. `draws` counts the ids drawn by
-- `uuid4().hex`, `sends` the requests sent.
use Prim.Native.String.{◌++◌ as append}
use aira_agent.Base.{
  ℕ, String, Option, none, some, List, Bool, true, false, ltb, if◌then◌else◌, ◌==◌, or_text,
}
use aira_agent.Base.Int.{ℤ, pos, at_least}
use aira_agent.Incidents.Row.{Alert, or_else}

pub data Status : Type 0 where
  pending delivered failed : Status

pub record Destination : Type 0 where
  pub id : String
  pub name : String
  pub url : String
  pub kind : String
  pub enabled : Bool
  pub subscription : String
  pub min_severity : String
  pub event_filter : Option String
  pub alert_filter : Option String
  pub origin_filter : Option String
  pub suppress_seconds : Option ℤ
  pub escalate_after : Option ℤ
  pub stat_routed : ℕ
  pub stat_suppressed : ℕ
  pub stat_skipped : ℕ
  pub max_attempts : Option ℤ
  pub consecutive_failures : ℕ
  pub cooldown_until : Option ℕ
  pub secret : Option String
  pub created_at : ℕ
  pub updated_at : ℕ

-- The keys of an observability event that the service reads.
pub record Event : Type 0 where
  pub id : String
  pub event_type : Option String
  pub origin : Option String
  pub severity : Option String
  pub job_id : Option String
  pub source_id : Option String

-- What `payload_json` holds the JSON text of.
pub data Payload : Type 0 where
  alert : Alert → Payload
  event : Event → Payload

pub record Delivery : Type 0 where
  pub id : String
  pub destination_id : String
  pub source_type : String
  pub source_id : Option String
  pub event_type : Option String
  pub severity : Option String
  pub status : Status
  pub attempts : ℕ
  pub response_code : Option ℕ
  pub last_error : Option String
  pub dedup_key : Option String
  pub redrive_of : Option String
  pub payload : Payload
  pub created_at : ℕ
  pub updated_at : ℕ

pub record Occurrence : Type 0 where
  pub signal : String
  pub count : ℕ
  pub last_severity : Option String
  pub first_seen : ℕ
  pub last_seen : ℕ

pub record Webhooks : Type 0 where
  pub destinations : List Destination
  pub deliveries : List Delivery
  pub occurrences : List Occurrence
  pub now : ℕ
  pub draws : ℕ
  pub sends : ℕ

pub record Settings : Type 0 where
  pub webhooks_enabled : Bool
  pub webhook_max_attempts : ℤ
  pub webhook_max_redrives : ℤ
  pub webhook_suppress_seconds : ℤ
  pub webhook_escalation_resolve_seconds : ℤ
  pub webhook_cooldown_threshold : ℤ
  pub webhook_cooldown_seconds : ℤ

abbrev pub destination_id : Destination → String
destination_id d = d.id

abbrev pub delivery_id : Delivery → String
delivery_id r = r.id

abbrev pub signal : Occurrence → String
signal o = o.signal

abbrev pub is_pending : Status → Bool
is_pending pending = true
is_pending _ = false

abbrev pub is_delivered : Status → Bool
is_delivered delivered = true
is_delivered _ = false

abbrev pub is_failed : Status → Bool
is_failed failed = true
is_failed _ = false

-- What an adapter posts: the payload as it is, or Slack's text beside it.
pub data Body : Type 0 where
  structured : Payload → Body
  slack : String → Payload → Body

pub record Adapter : Type 0 where
  pub kind : String
  pub payload_shape : String
  pub default_max_attempts : Option ℤ
  pub backoff : String

abbrev webhook_adapter : Adapter
webhook_adapter = record {
  kind = "webhook";
  payload_shape = "structured_json";
  default_max_attempts = none;
  backoff = "standard";
}

abbrev slack_adapter : Adapter
slack_adapter = record {
  kind = "slack";
  payload_shape = "slack_text";
  default_max_attempts = some (pos 2);
  backoff = "fast";
}

-- `_ADAPTERS.get(kind or KIND_WEBHOOK, _ADAPTERS[KIND_WEBHOOK])`
unfoldable pub adapter_for : Option String → Adapter
adapter_for kind = if or_text kind "webhook" == "slack" then slack_adapter else webhook_adapter

-- payload.get("classification") or payload.get("event_type") or "signal"
abbrev slack_label : Payload → String
slack_label (alert a) = or_text a.classification "signal"
slack_label (event e) = or_text e.event_type "signal"

abbrev payload_severity : Payload → Option String
payload_severity (alert a) = a.severity
payload_severity (event e) = e.severity

-- payload.get("job_id") or payload.get("source_id") or payload.get("id") or ""
abbrev slack_ref : Payload → String
slack_ref (alert a) = or_text a.job_id ""
slack_ref (event e) = or_text (or_else e.job_id e.source_id) e.id

-- f"{before}{x}{after}" if x else ""
abbrev around : String → Option String → String → String
around before none after = ""
around before (some x) after = if x == "" then "" else append before (append x after)

unfoldable pub slack_text : Payload → String
slack_text p = append "[AIRA-X] " (
    append (slack_label p)
      (append (around " (" (payload_severity p) ")") (around " — " (some (slack_ref p)) "")))

-- `prepare` of the adapter of a kind: the url, the body and the secret that signs it.
unfoldable pub prepare : Destination → Payload → String × Body × Option String
prepare d p =
    if or_text (some d.kind) "webhook" == "slack"
    then (d.url, slack (slack_text p) p, none)
    else (d.url, structured p, d.secret)

unfoldable pub effective_max_attempts : Settings → Option String → Option ℤ → ℕ
effective_max_attempts c kind (some n) = at_least 1 n
effective_max_attempts c kind none = elim (adapter_for kind).default_max_attempts [
  | some n ↦ at_least 1 n
  | none ↦ at_least 1 c.webhook_max_attempts
]

unfoldable pub in_cooldown : Option ℕ → ℕ → Bool
in_cooldown none now = false
in_cooldown (some until) now = ltb now until
