-- ===== src/Webhooks/Destinations.antt =====
-- The destinations of backend/app/webhooks.py: `_clean_destination`, `delete_destination`,
-- `list_destinations`, `clear_cooldown` and `destination_policy`.
use mathlib.Core.Option
use aira_agent.Base.{
  ℕ, String, Option, none, some, List, map, Bool, true, false, not, leb, eqb, ◌==◌, truthy, keep,
}
use aira_agent.Base.Int.{ℤ, pos, negsuc}
use aira_agent.Base.Table.{find, update}
use aira_agent.Base.Order.{sort_by}
use aira_agent.Webhooks.Row.{
  Destination, Webhooks, destination_id, in_cooldown, Settings, adapter_for, effective_max_attempts,
}

pub record DestinationDict : Type 0 where
  pub id : String
  pub name : String
  pub url : String
  pub kind : String
  pub payload_shape : String
  pub enabled : Bool
  pub subscription : String
  pub min_severity : String
  pub event_filter : Option String
  pub alert_filter : Option String
  pub origin_filter : Option String
  pub suppress_seconds : Option ℤ
  pub escalate_after : Option ℤ
  pub is_escalation : Bool
  pub max_attempts : Option ℤ
  pub effective_max_attempts : ℕ
  pub backoff : String
  pub cooling_down : Bool
  pub cooldown_until : Option ℕ
  pub consecutive_failures : ℕ
  pub has_secret : Bool
  pub created_at : ℕ

-- bool(escalate_after)
abbrev pub is_escalation : Option ℤ → Bool
is_escalation none = false
is_escalation (some (pos n)) = not (eqb n 0)
is_escalation (some (negsuc n)) = true

unfoldable pub clean_destination : Settings → ℕ → Destination → DestinationDict
clean_destination c now d = record {
  id = d.id;
  name = d.name;
  url = d.url;
  kind = d.kind;
  payload_shape = (adapter_for (some d.kind)).payload_shape;
  enabled = d.enabled;
  subscription = d.subscription;
  min_severity = d.min_severity;
  event_filter = d.event_filter;
  alert_filter = d.alert_filter;
  origin_filter = d.origin_filter;
  suppress_seconds = d.suppress_seconds;
  escalate_after = d.escalate_after;
  is_escalation = is_escalation d.escalate_after;
  max_attempts = d.max_attempts;
  effective_max_attempts = effective_max_attempts c (some d.kind) d.max_attempts;
  backoff = (adapter_for (some d.kind)).backoff;
  cooling_down = in_cooldown d.cooldown_until now;
  cooldown_until = d.cooldown_until;
  consecutive_failures = d.consecutive_failures;
  has_secret = truthy d.secret;
  created_at = d.created_at;
}

-- whether the table loses a row
abbrev has_row : Option Destination → Bool
has_row none = false
has_row (some d) = true

unfoldable pub delete_destination : String → Webhooks → Bool × Webhooks
delete_destination id s = (
  has_row (find destination_id id s.destinations),
  record s { destinations = keep (λ d. not (d.id == id)) s.destinations },
)

-- ORDER BY created_at DESC
abbrev pub created_later : Destination → Destination → Bool
created_later d e = leb e.created_at d.created_at

unfoldable pub list_destinations : Settings → Webhooks → List DestinationDict
list_destinations c s = map (clean_destination c s.now) (sort_by created_later s.destinations)

abbrev pub cleared : Destination → Destination
cleared d = record d { cooldown_until = none; consecutive_failures = 0 }

unfoldable pub clear_cooldown : String → Webhooks → Bool × Webhooks
clear_cooldown id s = elim (find destination_id id s.destinations) [
  | none ↦ (false, s)
  | some d ↦ (true, record s { destinations = update destination_id id cleared s.destinations })
]

pub record DestinationPolicy : Type 0 where
  pub destination_id : String
  pub kind : String
  pub payload_shape : String
  pub backoff : String
  pub max_attempts : ℕ
  pub max_attempts_source : String
  pub cooldown_threshold : ℤ
  pub cooldown_seconds : ℤ
  pub consecutive_failures : ℕ
  pub cooling_down : Bool
  pub cooldown_until : Option ℕ

abbrev provenance : Option ℤ → Option ℤ → String
provenance (some n) default = "destination"
provenance none (some n) = "adapter"
provenance none none = "global"

unfoldable pub policy_of : Settings → ℕ → Destination → DestinationPolicy
policy_of c now d = record {
  destination_id = d.id;
  kind = d.kind;
  payload_shape = (adapter_for (some d.kind)).payload_shape;
  backoff = (adapter_for (some d.kind)).backoff;
  max_attempts = effective_max_attempts c (some d.kind) d.max_attempts;
  max_attempts_source = provenance d.max_attempts (adapter_for (some d.kind)).default_max_attempts;
  cooldown_threshold = c.webhook_cooldown_threshold;
  cooldown_seconds = c.webhook_cooldown_seconds;
  consecutive_failures = d.consecutive_failures;
  cooling_down = in_cooldown d.cooldown_until now;
  cooldown_until = d.cooldown_until;
}

unfoldable pub destination_policy : Settings → String → Webhooks → Option DestinationPolicy
destination_policy c id s = Option.map (policy_of c s.now) (find destination_id id s.destinations)
