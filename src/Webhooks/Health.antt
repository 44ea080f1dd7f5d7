-- ===== src/Webhooks/Health.antt =====
-- The health of the destinations in backend/app/webhooks.py: `destination_health`.
use aira_agent.Base.{
  ℕ, String, Option, none, some, List, map, Bool, true, false, not, ◌&&◌, leb, eqb, if◌then◌else◌,
  ◌==◌, truthy, keep, tally, first,
}
use aira_agent.Base.Table.{find}
use aira_agent.Base.Order.{sort_by}
use aira_agent.Webhooks.Row.{
  Destination, Delivery, Webhooks, destination_id, is_pending, is_delivered, is_failed, in_cooldown,
}
use aira_agent.Webhooks.Destinations.{created_later, is_escalation}
use aira_agent.Webhooks.Routing.{sent_later}
use aira_agent.Webhooks.Redrive.{is_redrive}

pub data Health : Type 0 where
  disabled cooling_down failing degraded healthy : Health

-- The classification of `_health_of`; the reasons that go with it are texts for the operator.
unfoldable pub classify : Destination → Bool → ℕ → ℕ → Health
classify d cooling losses successes =
    if not d.enabled
    then disabled
    else if cooling
    then cooling_down
    else if leb 1 losses && eqb successes 0
    then failing
    else if leb 1 losses
    then degraded
    else healthy

-- health in ("healthy", "degraded")
abbrev is_up : Health → Bool
is_up healthy = true
is_up degraded = true
is_up _ = false

pub record DestinationHealth : Type 0 where
  pub destination_id : String
  pub name : String
  pub kind : String
  pub enabled : Bool
  pub is_escalation : Bool
  pub delivered : ℕ
  pub failed_terminal : ℕ
  pub pending : ℕ
  pub redrive_resolved : ℕ
  pub routed : ℕ
  pub suppressed : ℕ
  pub skipped : ℕ
  pub consecutive_failures : ℕ
  pub cooling_down : Bool
  pub cooldown_until : Option ℕ
  pub escalation_eligible : Bool
  pub last_error : Option String
  pub health : Health

abbrev error_of : Option Delivery → Option String
error_of none = none
error_of (some r) = r.last_error

unfoldable pub health_of : Webhooks → Destination → DestinationHealth
health_of s d =
    let rows = keep (λ r. r.destination_id == d.id) s.deliveries in
    let successes = tally (λ r. is_delivered r.status) rows in
    let losses = tally (λ r. is_failed r.status && not (is_redrive r)) rows in
    let cooling = in_cooldown d.cooldown_until s.now in
    let health = classify d cooling losses successes in
    record {
      destination_id = d.id;
      name = d.name;
      kind = d.kind;
      enabled = d.enabled;
      is_escalation = is_escalation d.escalate_after;
      delivered = successes;
      failed_terminal = losses;
      pending = tally (λ r. is_pending r.status) rows;
      redrive_resolved = tally (λ r. is_redrive r && is_delivered r.status) rows;
      routed = d.stat_routed;
      suppressed = d.stat_suppressed;
      skipped = d.stat_skipped;
      consecutive_failures = d.consecutive_failures;
      cooling_down = cooling;
      cooldown_until = d.cooldown_until;
      escalation_eligible = is_escalation d.escalate_after && is_up health;
      last_error = error_of (first (λ r. truthy r.last_error) (sort_by sent_later rows));
      health = health;
    }

unfoldable pub destination_health : Webhooks → List DestinationHealth
destination_health s = map (health_of s) (sort_by created_later s.destinations)

unfoldable pub destination_health_one : String → Webhooks → Option DestinationHealth
destination_health_one id s = elim (find destination_id id s.destinations) [
  | none ↦ none
  | some d ↦ some (health_of s d)
]
