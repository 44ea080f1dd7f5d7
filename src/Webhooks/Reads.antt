-- ===== src/Webhooks/Reads.antt =====
-- The inspection of backend/app/webhooks.py: `recent_deliveries`, `get_delivery` and `analytics`.
use aira_agent.Base.{
  ℕ, suc, ◌+◌, ◌-◌, ◌*◌, String, Option, none, some, List, [], ◌∷◌, map, Bool, true, false, not,
  ◌&&◌, leb, min, if◌then◌else◌, ◌==◌, keep, take,
}
use aira_agent.Base.Int.{ℤ, at_least}
use aira_agent.Base.Table.{find}
use aira_agent.Base.Order.{sort_by}
use aira_agent.Webhooks.Row.{
  Status, pending, delivered, failed, Destination, Delivery, Webhooks, destination_id, delivery_id,
}
use aira_agent.Webhooks.Destinations.{is_escalation}
use aira_agent.Webhooks.Routing.{sent_later}
use aira_agent.Webhooks.Redrive.{DeliveryDict, clean_delivery, is_redrive}

abbrev same_status : Status → Status → Bool
same_status pending pending = true
same_status delivered delivered = true
same_status failed failed = true
same_status _ _ = false

-- `if status:` and the like, over the rows that pass
abbrev of_status : Option Status → Delivery → Bool
of_status none r = true
of_status (some st) r = same_status r.status st

abbrev of_destination : Option String → Delivery → Bool
of_destination none r = true
of_destination (some id) r = if id == "" then true else r.destination_id == id

abbrev has_parent : Delivery → Bool
has_parent r = elim r.redrive_of [ none ↦ false | some _ ↦ true ]

abbrev of_lineage : Option Bool → Delivery → Bool
of_lineage none r = true
of_lineage (some b) r = if b then has_parent r else not (has_parent r)

pub record Recent : Type 0 where
  pub delivery : DeliveryDict
  pub destination_name : Option String

-- names.get(destination_id)
abbrev name_at : String → List Destination → Option String
name_at id ds = elim (find destination_id id ds) [ none ↦ none | some d ↦ some d.name ]

abbrev recent_row : Webhooks → Delivery → Recent
recent_row s r = record {
  delivery = clean_delivery false r;
  destination_name = name_at r.destination_id s.destinations;
}

unfoldable pub recent_deliveries :
    Option Status → Option String → Option Bool → ℕ → Webhooks → List Recent
recent_deliveries status destination redrives limit s = map (recent_row s) (
    take (min limit 200) (
      sort_by sent_later (
        keep (λ r. of_status status r && of_destination destination r && of_lineage redrives r)
          s.deliveries)))

unfoldable pub get_delivery : String → Webhooks → Option DeliveryDict
get_delivery id s = elim (find delivery_id id s.deliveries) [
  | none ↦ none
  | some r ↦ some (clean_delivery true r)
]

pub record Buckets : Type 0 where
  pub delivered : ℕ
  pub failed : ℕ
  pub pending : ℕ

abbrev pub no_buckets : Buckets
no_buckets = record { delivered = 0; failed = 0; pending = 0 }

-- k[_status_bucket(status)] += 1
abbrev pub add_status : Status → Buckets → Buckets
add_status delivered b = record b { delivered = suc b.delivered }
add_status failed b = record b { failed = suc b.failed }
add_status pending b = record b { pending = suc b.pending }

pub record Totals : Type 0 where
  pub attempted : ℕ
  pub statuses : Buckets
  pub redriven : ℕ

abbrev pub add_total : Delivery → Totals → Totals
add_total r t = record {
  attempted = suc t.attempted;
  statuses = add_status r.status t.statuses;
  redriven = if is_redrive r then suc t.redriven else t.redriven;
}

-- by_kind.setdefault(kind, …)[bucket] += 1
unfoldable pub add_kind : String → Status → List (String × Buckets) → List (String × Buckets)
add_kind kind st [] = (kind, add_status st no_buckets) ∷ []
add_kind kind st ((k, b) ∷ rest) =
    if k == kind then (k, add_status st b) ∷ rest else (k, b) ∷ add_kind kind st rest

pub record DestinationStats : Type 0 where
  pub destination_id : String
  pub name : Option String
  pub kind : String
  pub statuses : Buckets

unfoldable pub add_destination :
    DestinationStats → Status → List DestinationStats → List DestinationStats
add_destination d st [] = record d { statuses = add_status st d.statuses } ∷ []
add_destination d st (x ∷ xs) =
    if x.destination_id == d.destination_id
    then record x { statuses = add_status st x.statuses } ∷ xs
    else x ∷ add_destination d st xs

pub record Summary : Type 0 where
  pub totals : Totals
  pub by_kind : List (String × Buckets)
  pub by_destination : List DestinationStats

-- dest.kind if dest else "unknown"
abbrev pub kind_at : String → List Destination → String
kind_at id ds = elim (find destination_id id ds) [ none ↦ "unknown" | some d ↦ d.kind ]

-- The entry of a destination before its first delivery.
abbrev pub stats_of : Delivery → List Destination → DestinationStats
stats_of r ds = record {
  destination_id = r.destination_id;
  name = name_at r.destination_id ds;
  kind = kind_at r.destination_id ds;
  statuses = no_buckets;
}

unfoldable pub summarize : List Destination → List Delivery → Summary → Summary
summarize ds [] t = t
summarize ds (r ∷ rs) t = summarize ds rs (record {
  totals = add_total r t.totals;
  by_kind = add_kind (kind_at r.destination_id ds) r.status t.by_kind;
  by_destination = add_destination (stats_of r ds) r.status t.by_destination;
})

pub record RoutingTotals : Type 0 where
  pub routed : ℕ
  pub suppressed : ℕ
  pub skipped : ℕ
  pub escalation_destinations : ℕ

unfoldable pub routing_totals : List Destination → RoutingTotals
routing_totals [] = record { routed = 0; suppressed = 0; skipped = 0; escalation_destinations = 0 }
routing_totals (d ∷ ds) =
    let t = routing_totals ds in
    record {
      routed = d.stat_routed + t.routed;
      suppressed = d.stat_suppressed + t.suppressed;
      skipped = d.stat_skipped + t.skipped;
      escalation_destinations =
          if is_escalation d.escalate_after
          then suc t.escalation_destinations
          else t.escalation_destinations;
    }

pub record Analytics : Type 0 where
  pub window_minutes : ℤ
  pub summary : Summary
  pub routing : RoutingTotals

-- now - timedelta(minutes = max(1, since_minutes))
abbrev pub cutoff : ℤ → ℕ → ℕ
cutoff since now = now - at_least 1 since * 60000000

unfoldable pub analytics : ℤ → Webhooks → Analytics
analytics since s = record {
  window_minutes = since;
  summary =
      summarize s.destinations (keep (λ r. leb (cutoff since s.now) r.created_at) s.deliveries)
        (record {
          totals = record { attempted = 0; statuses = no_buckets; redriven = 0 };
          by_kind = [];
          by_destination = [];
        });
  routing = routing_totals s.destinations;
}
