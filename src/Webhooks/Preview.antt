-- ===== src/Webhooks/Preview.antt =====
-- Two more operations of the routing of backend/app/webhooks.py: `route_observability`, and the dry
-- run `routing_preview`.
use Prim.Native.String.{◌++◌ as append}
use mathlib.Core.Option
use aira_agent.Base.{
  ℕ, suc, String, Option, none, some, List, [], ◌∷◌, ◌++◌, map, Bool, ◌&&◌, ◌||◌, if◌then◌else◌,
  ◌==◌, or_text,
}
use aira_agent.Base.Int.{ℤ}
use aira_agent.Base.Table.{find}
use aira_agent.Incidents.Row.{Alert, signal_of}
use aira_agent.Webhooks.Row.{
  Destination, Event, Payload, Delivery, Occurrence, Webhooks, Settings, destination_id, signal,
  in_cooldown,
}
use aira_agent.Webhooks.Decision.{Decision, alert_routing_decision, csv_set, lets_through}
use aira_agent.Webhooks.Destinations.{DestinationDict, clean_destination}
use aira_agent.Webhooks.Routing.{alert_key, dedup_state, new_delivery, window_of, takes_events}

-- The loop of `route_observability` under way.
pub record Queued : Type 0 where
  pub added : List Delivery
  pub draws : ℕ
  pub queued : ℕ

-- f"obs:{dest.id}:{event.get('id')}"
abbrev event_key : Destination → Event → String
event_key d e = append "obs:" (append d.id (append ":" e.id))

unfoldable pub event_delivery : String → ℕ → Destination → Event → Delivery
event_delivery id now d e =
    new_delivery id d "observability" e.id e.event_type none (Payload.event e) (event_key d e) now

-- (eorigin or "normal") in origin_set, and etype in type_set
abbrev pub takes_event : Destination → Event → Bool
takes_event d e =
    lets_through (csv_set d.event_filter) e.event_type
    && lets_through (csv_set d.origin_filter) (some (or_text e.origin "normal"))

module _ (uuid4 : ℕ → String) where
  unfoldable pub queue_to : ℕ → Event → Destination → Queued → Destination × Queued
  queue_to now e d w =
      if in_cooldown d.cooldown_until now
      then (record d { stat_skipped = suc d.stat_skipped }, w)
      else if takes_event d e
      then (
        d,
        record {
          added = w.added ++ event_delivery (uuid4 w.draws) now d e ∷ [];
          draws = suc w.draws;
          queued = suc w.queued;
        },
      )
      else (d, w)

  unfoldable pub queue_all : ℕ → Event → List Destination → Queued → List Destination × Queued
  queue_all now e [] w = ([], w)
  queue_all now e (d ∷ ds) w =
      let (d', w') = if takes_events d then queue_to now e d w else (d, w) in
      let (ds', w'') = queue_all now e ds w' in (d' ∷ ds', w'')

  unfoldable pub route_observability : Settings → Event → Webhooks → ℕ × Webhooks
  route_observability c e s =
      let (ds, w) =
        queue_all s.now e s.destinations (record { added = []; draws = s.draws; queued = 0 }) in
      if c.webhooks_enabled
      then (
        w.queued,
        record s { destinations = ds; deliveries = s.deliveries ++ w.added; draws = w.draws },
      )
      else (0, s)

pub record Previewed : Type 0 where
  pub classification : Option String
  pub severity : Option String
  pub job_id : Option String
  pub occurrences : ℕ
  pub decision : Decision

-- occ.count if occ is not None else 1
abbrev count_of_row : Option Occurrence → ℕ
count_of_row none = 1
count_of_row (some o) = o.count

unfoldable pub preview : Settings → Webhooks → Destination → Alert → Previewed
preview c s d a =
    let count = count_of_row (find signal (signal_of a) s.occurrences) in
    record {
      classification = a.classification;
      severity = a.severity;
      job_id = a.job_id;
      occurrences = count;
      decision =
          alert_routing_decision d a (dedup_state s.deliveries (alert_key d (signal_of a)) s.now)
            (window_of c d) d.escalate_after count;
    }

pub record Preview : Type 0 where
  pub destination : DestinationDict
  pub effective_window_seconds : ℤ
  pub decisions : List Previewed

unfoldable pub preview_of : Settings → List Alert → Webhooks → Destination → Preview
preview_of c alerts s d = record {
  destination = clean_destination c s.now d;
  effective_window_seconds = window_of c d;
  decisions =
      if d.subscription == "alerts" || d.subscription == "both"
      then map (preview c s d) alerts
      else [];
}

unfoldable pub routing_preview : Settings → String → List Alert → Webhooks → Option Preview
routing_preview c id alerts s =
    Option.map (preview_of c alerts s) (find destination_id id s.destinations)
