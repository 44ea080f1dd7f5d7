-- ===== src/Webhooks/Samples.antt =====
-- Two destinations with deliveries in every status, and an incident, for the tests.
use aira_agent.Base.{ℕ, suc, zero, String, none, some, [], ◌∷◌, true, false}
use aira_agent.Base.Int.{pos}
use aira_agent.Incidents.Row.{Alert, Incident, Incidents, incident_id, signal_of}
use aira_agent.Incidents.Row as Ledger
use aira_agent.Webhooks.Row.{
  pending, delivered, failed, Destination, Payload, Delivery, Webhooks, Settings,
}
use aira_agent.Webhooks.Delivery.{Transport}

abbrev pub settings : Settings
settings = record {
  webhooks_enabled = true;
  webhook_max_attempts = pos 2;
  webhook_max_redrives = pos 3;
  webhook_suppress_seconds = pos 300;
  webhook_escalation_resolve_seconds = pos 1800;
  webhook_cooldown_threshold = pos 2;
  webhook_cooldown_seconds = pos 600;
}

abbrev pub uuid4 : ℕ → String
uuid4 zero = "u0"
uuid4 (suc n) = "u1"

abbrev pub hook : Destination
hook = record {
  id = "d1";
  name = "Ops";
  url = "https://ops.example";
  kind = "webhook";
  enabled = true;
  subscription = "alerts";
  min_severity = "warning";
  event_filter = none;
  alert_filter = none;
  origin_filter = none;
  suppress_seconds = none;
  escalate_after = none;
  stat_routed = 0;
  stat_suppressed = 0;
  stat_skipped = 0;
  max_attempts = none;
  consecutive_failures = 0;
  cooldown_until = none;
  secret = some "s3cret";
  created_at = 1;
  updated_at = 1;
}

abbrev pub cooling : Destination
cooling = record hook { id = "d2"; cooldown_until = some 50; created_at = 2 }

abbrev pub stuck : Alert
stuck = record {
  classification = some "stuck";
  job_id = some "j1";
  exec_class = none;
  severity = some "critical";
}

abbrev pub backlog : Alert
backlog = record {
  classification = some "backlog";
  job_id = none;
  exec_class = some "interactive";
  severity = some "warning";
}

abbrev pub lost : Delivery
lost = record {
  id = "w1";
  destination_id = "d1";
  source_type = "alert";
  source_id = some "stuck:j1";
  event_type = some "stuck";
  severity = some "critical";
  status = failed;
  attempts = 2;
  response_code = some 500;
  last_error = some "HTTP500";
  dedup_key = some "alert:d1:stuck:j1";
  redrive_of = none;
  payload = Payload.alert stuck;
  created_at = 5;
  updated_at = 9;
}

abbrev pub waiting : Delivery
waiting = record lost {
  id = "w2";
  status = pending;
  attempts = 1;
  last_error = none;
  created_at = 6;
}

abbrev pub done : Delivery
done = record lost { id = "w3"; status = delivered; last_error = none; created_at = 7 }

abbrev pub service : Webhooks
service = record {
  destinations = hook ∷ cooling ∷ [];
  deliveries = lost ∷ waiting ∷ done ∷ [];
  occurrences = [];
  now = 10;
  draws = 0;
  sends = 0;
}

-- A transport that never gets through.
abbrev pub down : Transport
down n url body secret = record { ok = false; code = none; error = some "ConnectionError" }

abbrev pub incident : Incident
incident = record {
  id = "i1";
  signal = "stuck:j1";
  classification = some "stuck";
  subject = "j1";
  source = "alert";
  state = Ledger.State.opened;
  severity = some "critical";
  occurrences = 2;
  note = none;
  acknowledged_at = none;
  silenced_until = none;
  recovered_at = none;
  assignee = none;
  assigned_at = none;
  first_seen = 5;
  last_seen = 9;
}

abbrev pub ledger : Incidents
ledger = record { rows = incident ∷ []; events = []; exported = []; now = 10 }

abbrev pub silence_settings : Ledger.Settings
silence_settings = record {
  incident_max_silence_seconds = pos 86400;
  incident_default_silence_seconds = pos 3600;
}
