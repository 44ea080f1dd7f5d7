-- ===== src/Webhooks/Routing.antt =====
-- The routing of backend/app/webhooks.py: `route_alerts_detailed` with `_dedup_state`
-- and `_enqueue_delivery`. The sessions do not flush on their own: a query does not see what the same sweep has added.
use Prim.Native.String.{◌++◌ as append}
use aira_agent.Base.{
  ℕ, suc, ◌+◌, ◌-◌, String, Option, none, some, List, [], ◌∷◌, ◌++◌, Bool, false, ◌&&◌, ◌||◌, leb,
  if◌then◌else◌, ◌==◌, is_text, keep, best, length,
}
use aira_agent.Base.Int.{ℤ}
use aira_agent.JobPolicy.{contains}
use aira_agent.Incidents.Row.{Alert, signal_of}
use aira_agent.Webhooks.Row.{
  pending, Destination, Payload, Delivery, Webhooks, Settings, is_pending, in_cooldown,
}
use aira_agent.Webhooks.Decision.{
  Decision, DedupState, Action, route, suppress, skip, action_of, alert_routing_decision,
  severity_of,
}
use aira_agent.Webhooks.Occurrences.{Occurring, begin_occurring, count_at, distinct_signals}
use aira_agent.Webhooks.Destinations.{is_escalation}

-- f"alert:{dest.id}:{sig}"
abbrev pub alert_key : Destination → String → String
alert_key d sig = append "alert:" (append d.id (append ":" sig))

-- ORDER BY created_at DESC
abbrev pub sent_later : Delivery → Delivery → Bool
sent_later r q = leb q.created_at r.created_at

unfoldable pub dedup_state : List Delivery → String → ℕ → DedupState
dedup_state rows key now = elim (best sent_later (keep (λ r. is_text r.dedup_key key) rows)) [
  | none ↦ record { in_flight = false; last_severity = none; last_age = none }
  | some r ↦ record {
    in_flight = is_pending r.status;
    last_severity = r.severity;
    last_age = some (now - r.created_at);
  }
]

unfoldable pub new_delivery :
    String
    → Destination
    → String
    → String
    → Option String
    → Option String
    → Payload
    → String
    → ℕ
    → Delivery
new_delivery id d source_type source_id event_type severity payload key now = record {
  id = id;
  destination_id = d.id;
  source_type = source_type;
  source_id = if source_id == "" then none else some source_id;
  event_type = event_type;
  severity = severity;
  status = pending;
  attempts = 0;
  response_code = none;
  last_error = none;
  dedup_key = some key;
  redrive_of = none;
  payload = payload;
  created_at = now;
  updated_at = now;
}

pub record Counts : Type 0 where
  pub routed : ℕ
  pub suppressed : ℕ
  pub skipped : ℕ
  pub escalated : ℕ
  pub silenced : ℕ

abbrev pub no_counts : Counts
no_counts = record { routed = 0; suppressed = 0; skipped = 0; escalated = 0; silenced = 0 }

-- A routing loop under way: the deliveries it adds, the ids drawn, and its counts.
pub record Routing : Type 0 where
  pub added : List Delivery
  pub draws : ℕ
  pub counts : Counts

-- dest.suppress_seconds if dest.suppress_seconds is not None else default_window
abbrev pub window_of : Settings → Destination → ℤ
window_of c d = elim d.suppress_seconds [ none ↦ c.webhook_suppress_seconds | some w ↦ w ]

unfoldable pub decide :
    Settings → List Delivery → List (String × ℕ) → ℕ → Destination → Alert → Decision
decide c rows occ now d a =
    alert_routing_decision d a (dedup_state rows (alert_key d (signal_of a)) now) (window_of c d)
      d.escalate_after (count_at (signal_of a) occ)

unfoldable pub alert_delivery : String → ℕ → Destination → Alert → Delivery
alert_delivery id now d a =
    new_delivery id d "alert" (signal_of a) a.classification (some (severity_of a))
      (Payload.alert a) (alert_key d (signal_of a)) now

-- What the branch of a decision does to the destination's counters, the counts and the deliveries.
unfoldable pub act :
    (uuid4 : ℕ → String) → Action → ℕ → Alert → Destination → Routing → Destination × Routing
act uuid4 route now a d w = (
  record d { stat_routed = suc d.stat_routed },
  record {
    added = w.added ++ alert_delivery (uuid4 w.draws) now d a ∷ [];
    draws = suc w.draws;
    counts = record w.counts {
      routed = suc w.counts.routed;
      escalated =
          if is_escalation d.escalate_after then suc w.counts.escalated else w.counts.escalated;
    };
  },
)
act uuid4 suppress now a d w = (
  record d { stat_suppressed = suc d.stat_suppressed },
  record w { counts = record w.counts { suppressed = suc w.counts.suppressed } },
)
act uuid4 skip now a d w = (
  record d { stat_skipped = suc d.stat_skipped },
  record w { counts = record w.counts { skipped = suc w.counts.skipped } },
)

module _ (c : Settings) (uuid4 : ℕ → String) (silenced : List String) (rows : List Delivery)
    (occ : List (String × ℕ)) (now : ℕ) where
  unfoldable pub route_alert : Alert → Destination → Routing → Destination × Routing
  route_alert a d w =
      if contains (signal_of a) silenced
      then (d, record w { counts = record w.counts { silenced = suc w.counts.silenced } })
      else act uuid4 (action_of (decide c rows occ now d a)) now a d w

  unfoldable pub route_each : List Alert → Destination → Routing → Destination × Routing
  route_each [] d w = (d, w)
  route_each (a ∷ alerts) d w = let (d', w') = route_alert a d w in route_each alerts d' w'

  -- One destination of the loop; a destination that cools down skips every alert.
  unfoldable pub route_to : List Alert → Destination → Routing → Destination × Routing
  route_to alerts d w =
      if in_cooldown d.cooldown_until now
      then (
        record d { stat_skipped = d.stat_skipped + length alerts },
        record w { counts = record w.counts { skipped = w.counts.skipped + length alerts } },
      )
      else route_each alerts d w

  -- The loop over the destinations that `subscribed` selects; the others stay as they are.
  unfoldable pub route_all :
      (Destination → Bool) → List Alert → List Destination → Routing → List Destination × Routing
  route_all subscribed alerts [] w = ([], w)
  route_all subscribed alerts (d ∷ ds) w =
      let (d', w') = if subscribed d then route_to alerts d w else (d, w) in
      let (ds', w'') = route_all subscribed alerts ds w' in (d' ∷ ds', w'')

-- enabled, and the subscription is one of the two
abbrev pub takes_alerts : Destination → Bool
takes_alerts d = d.enabled && (d.subscription == "alerts" || d.subscription == "both")

abbrev pub takes_events : Destination → Bool
takes_events d = d.enabled && (d.subscription == "events" || d.subscription == "both")

module _ (c : Settings) (uuid4 : ℕ → String) where
  unfoldable pub sweep_routes : List String → List Alert → Webhooks → List Destination × Routing
  sweep_routes silenced alerts s =
      route_all c uuid4 silenced s.deliveries (begin_occurring c alerts s).occ s.now takes_alerts
        alerts s.destinations (record { added = []; draws = s.draws; counts = no_counts })

  -- A commit that raises loses what the sweep did, and its counts are returned all the same.
  unfoldable pub commit_routes :
      Occurring → List Destination × Routing → Webhooks → Counts × Webhooks
  commit_routes o (ds, w) s = (
    w.counts,
    if distinct_signals o.added
        then record s {
          destinations = ds;
          deliveries = s.deliveries ++ w.added;
          occurrences = o.rows ++ o.added;
          draws = w.draws;
        }
        else record s { draws = w.draws },
  )

  unfoldable pub route_alerts_detailed : List String → List Alert → Webhooks → Counts × Webhooks
  route_alerts_detailed silenced [] s = (no_counts, s)
  route_alerts_detailed silenced (a ∷ alerts) s =
      if c.webhooks_enabled
      then commit_routes (begin_occurring c (a ∷ alerts) s) (sweep_routes silenced (a ∷ alerts) s) s
      else (no_counts, s)

  unfoldable pub route_alerts : List String → List Alert → Webhooks → ℕ × Webhooks
  route_alerts silenced alerts s =
      let (counts, s') = route_alerts_detailed silenced alerts s in (counts.routed, s')
