-- ===== src/Webhooks/Redrive.antt =====
-- The recovery of failed deliveries in backend/app/webhooks.py: `redrive`, `dead_letters` with
-- `_dead_letter_state`, and `delivery_lineage`.
use aira_agent.Base.{
  ℕ, suc, String, Option, none, some, List, [], ◌∷◌, ◌++◌, map, Bool, true, false, not, ◌&&◌, leb,
  min, if◌then◌else◌, ◌==◌, is_text, or_text, keep, any, first, take, length,
}
use aira_agent.Base.Int.{at_least}
use aira_agent.Base.Table.{find}
use aira_agent.Base.Order.{sort_by}
use aira_agent.Webhooks.Row.{
  Status, pending, Destination, Delivery, Webhooks, Settings, Payload, destination_id, delivery_id,
  is_pending, is_delivered, is_failed,
}
use aira_agent.Webhooks.Routing.{sent_later}
use aira_agent.Webhooks.Delivery.{sent_earlier}

pub record DeliveryDict : Type 0 where
  pub id : String
  pub destination_id : String
  pub source_type : String
  pub source_id : Option String
  pub event_type : Option String
  pub severity : Option String
  pub status : Status
  pub attempts : ℕ
  pub response_code : Option ℕ
  pub last_error : Option String
  pub redrive_of : Option String
  pub is_redrive : Bool
  pub created_at : ℕ
  pub updated_at : ℕ
  pub payload : Option Payload

-- bool(redrive_of)
abbrev pub is_redrive : Delivery → Bool
is_redrive r = not (or_text r.redrive_of "" == "")

unfoldable pub clean_delivery : Bool → Delivery → DeliveryDict
clean_delivery include_payload r = record {
  id = r.id;
  destination_id = r.destination_id;
  source_type = r.source_type;
  source_id = r.source_id;
  event_type = r.event_type;
  severity = r.severity;
  status = r.status;
  attempts = r.attempts;
  response_code = r.response_code;
  last_error = r.last_error;
  redrive_of = r.redrive_of;
  is_redrive = is_redrive r;
  created_at = r.created_at;
  updated_at = r.updated_at;
  payload = if include_payload then some r.payload else none;
}

pub data RedriveReply : Type 0 where
  not_found limit_reached : RedriveReply
  not_failed : Status → RedriveReply
  in_flight scheduled : DeliveryDict → RedriveReply

unfoldable pub child_of : String → Delivery → Bool
child_of id r = is_text r.redrive_of id

unfoldable pub children : String → List Delivery → List Delivery
children id rows = sort_by sent_earlier (keep (child_of id) rows)

-- max(1, settings.webhook_max_redrives)
unfoldable pub redrive_cap : Settings → ℕ
redrive_cap c = at_least 1 c.webhook_max_redrives

unfoldable pub redriven_row : String → String → ℕ → Delivery → Delivery
redriven_row id of now r = record r {
  id = id;
  status = pending;
  attempts = 0;
  response_code = none;
  last_error = none;
  redrive_of = some of;
  dedup_key = none;
  created_at = now;
  updated_at = now;
}

abbrev pub open_row : Delivery → Bool
open_row r = is_pending r.status

module _ (c : Settings) (uuid4 : ℕ → String) where
  -- A row that failed, by its children and the one of them that is pending.
  unfoldable pub redrive_failed :
      String → Delivery → List Delivery → Option Delivery → Webhooks → RedriveReply × Webhooks
  redrive_failed id r kids (some child) s = (in_flight (clean_delivery false child), s)
  redrive_failed id r kids none s =
      let child = redriven_row (uuid4 s.draws) id s.now r in
      if leb (redrive_cap c) (length kids) then (limit_reached, s) else (
        scheduled (clean_delivery false child),
        record s { deliveries = s.deliveries ++ child ∷ []; draws = suc s.draws },
      )

  unfoldable pub redrive_found : String → Delivery → Webhooks → RedriveReply × Webhooks
  redrive_found id r s =
      let kids = children id s.deliveries in
      if is_failed r.status
      then redrive_failed id r kids (first open_row kids) s
      else (not_failed r.status, s)

  unfoldable pub redrive : String → Webhooks → RedriveReply × Webhooks
  redrive id s = elim (find delivery_id id s.deliveries) [
    | none ↦ (not_found, s)
    | some r ↦ redrive_found id r s
  ]

pub data DeadLetterState : Type 0 where
  redrive_candidate redriven resolved exhausted : DeadLetterState

unfoldable pub dead_letter_state : Settings → List Delivery → DeadLetterState
dead_letter_state c kids =
    if any (λ r. is_delivered r.status) kids
    then resolved
    else if any open_row kids
    then redriven
    else if leb (redrive_cap c) (length kids)
    then exhausted
    else redrive_candidate

pub record DeadLetter : Type 0 where
  pub delivery : DeliveryDict
  pub dead_letter_state : DeadLetterState
  pub redrive_count : ℕ
  pub redrive_ids : List String

unfoldable pub dead_letter : Settings → Webhooks → Delivery → DeadLetter
dead_letter c s r =
    let kids = keep (child_of r.id) s.deliveries in
    record {
      delivery = clean_delivery false r;
      dead_letter_state = dead_letter_state c kids;
      redrive_count = length kids;
      redrive_ids = map delivery_id kids;
    }

-- status = failed AND redrive_of IS NULL
abbrev failed_original : Delivery → Bool
failed_original r = is_failed r.status && (elim r.redrive_of [ none ↦ true | some _ ↦ false ])

unfoldable pub dead_letters : Settings → ℕ → Webhooks → List DeadLetter
dead_letters c limit s =
    map (dead_letter c s)
      (take (min limit 200) (sort_by sent_later (keep failed_original s.deliveries)))

pub data LineageState : Type 0 where
  dead : DeadLetterState → LineageState
  resolved in_progress : LineageState

pub record Lineage : Type 0 where
  pub root_id : String
  pub destination_id : String
  pub destination_name : Option String
  pub destination_kind : Option String
  pub source_type : String
  pub source_id : Option String
  pub event_type : Option String
  pub state : LineageState
  pub attempts : List DeliveryDict

unfoldable pub lineage_state : Settings → Status → List Delivery → LineageState
lineage_state c Status.failed kids = dead (dead_letter_state c kids)
lineage_state c Status.delivered kids = LineageState.resolved
lineage_state c Status.pending kids = in_progress

abbrev name_of : Option Destination → Option String
name_of none = none
name_of (some d) = some d.name

abbrev kind_of : Option Destination → Option String
kind_of none = none
kind_of (some d) = some d.kind

unfoldable pub lineage_of : Settings → Webhooks → Delivery → Lineage
lineage_of c s root =
    let kids = children root.id s.deliveries in
    let dest = find destination_id root.destination_id s.destinations in
    record {
      root_id = root.id;
      destination_id = root.destination_id;
      destination_name = name_of dest;
      destination_kind = kind_of dest;
      source_type = root.source_type;
      source_id = root.source_id;
      event_type = root.event_type;
      state = lineage_state c root.status kids;
      attempts = clean_delivery false root ∷ map (clean_delivery false) kids;
    }

-- session.get(WebhookDelivery, row.redrive_of or row.id) or row
abbrev root_of : Webhooks → Delivery → Delivery
root_of s r = elim (find delivery_id (or_text r.redrive_of r.id) s.deliveries) [
  | none ↦ r
  | some root ↦ root
]

unfoldable pub delivery_lineage : Settings → String → Webhooks → Option Lineage
delivery_lineage c id s = elim (find delivery_id id s.deliveries) [
  | none ↦ none
  | some r ↦ some (lineage_of c s (root_of s r))
]
