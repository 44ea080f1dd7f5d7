-- ===== src/Webhooks/Delivery.antt =====
-- The worker step of backend/app/webhooks.py: `deliver_pending` with `_on_delivery_success` and
-- `_on_delivery_failure`. `send` is the transport `_send`: it may answer each request as it likes.
use aira_agent.Base.{
  ℕ, suc, ◌+◌, ◌*◌, String, Option, none, some, List, [], ◌∷◌, map, Bool, false, ◌&&◌, leb,
  if◌then◌else◌, or_text, keep, take,
}
use aira_agent.Base.Int.{pos, negsuc, at_least, ℤ}
use aira_agent.Base.Text.{take_text}
use aira_agent.Base.Table.{find, update}
use aira_agent.Base.Order.{sort_by}
use aira_agent.Webhooks.Row.{
  pending, delivered, failed, Destination, Payload, Delivery, Webhooks, Settings, Body,
  destination_id, delivery_id, is_pending, prepare, effective_max_attempts,
}

-- (ok, status_code, error_class)
pub record Sent : Type 0 where
  pub ok : Bool
  pub code : Option ℕ
  pub error : Option String

-- The nth request: its url, its body and the secret that signs it.
abbrev pub Transport : Type 0
Transport = ℕ → String → Body → Option String → Sent

-- What the query keeps of a pending delivery.
pub record Snapshot : Type 0 where
  pub id : String
  pub destination_id : String
  pub payload : Payload
  pub attempts : ℕ

unfoldable pub snapshot_of : Delivery → Snapshot
snapshot_of r = record {
  id = r.id;
  destination_id = r.destination_id;
  payload = r.payload;
  attempts = r.attempts;
}

-- ORDER BY created_at ASC
abbrev pub sent_earlier : Delivery → Delivery → Bool
sent_earlier r q = leb r.created_at q.created_at

abbrev pub pending_row : Delivery → Bool
pending_row r = is_pending r.status

unfoldable pub pending_rows : ℕ → Webhooks → List Snapshot
pending_rows max_deliveries s =
    map snapshot_of (take max_deliveries (sort_by sent_earlier (keep pending_row s.deliveries)))

unfoldable pub on_delivery_success : Destination → Destination
on_delivery_success d = record d { consecutive_failures = 0; cooldown_until = none }

-- cooldown_seconds > 0 and consecutive_failures >= threshold
unfoldable pub cools_down : ℤ → ℕ → ℕ → Bool
cools_down (negsuc n) threshold streak = false
cools_down (pos n) threshold streak = leb 1 n && leb threshold streak

-- now + timedelta(seconds = cooldown_seconds)
unfoldable pub cooldown_end : ℤ → ℕ → ℕ
cooldown_end seconds now = now + at_least 0 seconds * 1000000

unfoldable pub on_delivery_failure : Settings → ℕ → Destination → Destination
on_delivery_failure c now d =
    let streak = suc d.consecutive_failures in
    record d {
      consecutive_failures = streak;
      cooldown_until =
          if cools_down c.webhook_cooldown_seconds (at_least 1 c.webhook_cooldown_threshold) streak
          then some (cooldown_end c.webhook_cooldown_seconds now)
          else d.cooldown_until;
    }

-- The three ends of one attempt.
pub data Ending : Type 0 where
  delivers fails retries : Ending

unfoldable pub ending : Sent → ℕ → ℕ → Ending
ending sent attempts budget =
    if sent.ok then delivers else if leb budget attempts then fails else retries

-- (err or "DeliveryError")[:120]
abbrev error_text : Sent → Option String
error_text sent = some (take_text 120 (or_text sent.error "DeliveryError"))

abbrev pub ended_status : Ending → Delivery → Delivery
ended_status delivers r = record r { status = delivered; last_error = none }
ended_status fails r = record r { status = failed }
ended_status retries r = record r { status = pending }

unfoldable pub attempted : Sent → ℕ → ℕ → Ending → Delivery → Delivery
attempted sent attempts now e r = ended_status e (record r {
  attempts = attempts;
  response_code = sent.code;
  last_error = error_text sent;
  updated_at = now;
})

-- What the end does to the destination, if there is one.
unfoldable pub ended_destination : Settings → ℕ → Ending → Destination → Destination
ended_destination c now delivers d = on_delivery_success d
ended_destination c now fails d = on_delivery_failure c now d
ended_destination c now retries d = d

pub record Delivered : Type 0 where
  pub delivered : ℕ
  pub failed : ℕ
  pub retried : ℕ

abbrev counted : Ending → Delivered → Delivered
counted delivers n = record n { delivered = suc n.delivered }
counted fails n = record n { failed = suc n.failed }
counted retries n = record n { retried = suc n.retried }

unfoldable pub budget_of : Settings → Option Destination → ℕ
budget_of c none = effective_max_attempts c none none
budget_of c (some d) = effective_max_attempts c (some d.kind) d.max_attempts

module _ (c : Settings) (send : Transport) where
  -- The request, where the destination exists, and its number.
  unfoldable pub post : Option Destination → Snapshot → ℕ → Sent × ℕ
  post none p n = (record { ok = false; code = none; error = some "NoDestination" }, n)
  post (some d) p n =
      let (url, body, secret) = prepare d p.payload in (send n url body secret, suc n)

  -- The last transaction of one delivery, on a row that is still there.
  unfoldable pub finish : Snapshot → Sent → Ending → Delivered × Webhooks → Delivered × Webhooks
  finish p sent e (n, s) = (
    counted e n,
    record s {
      deliveries = update delivery_id p.id (attempted sent (suc p.attempts) s.now e) s.deliveries;
      destinations =
          update destination_id p.destination_id (ended_destination c s.now e) s.destinations;
    },
  )

  -- `if row is None: continue`
  unfoldable pub finish_found :
      Snapshot → Sent → Ending → Option Delivery → Delivered × Webhooks → Delivered × Webhooks
  finish_found p sent e none t = t
  finish_found p sent e (some r) t = finish p sent e t

  unfoldable pub deliver_sent :
      Snapshot → ℕ → Sent × ℕ → Delivered × Webhooks → Delivered × Webhooks
  deliver_sent p budget (sent, sends) (n, s) =
      finish_found p sent (ending sent (suc p.attempts) budget) (find delivery_id p.id s.deliveries)
        (n, record s { sends = sends })

  unfoldable pub deliver_one : Snapshot → Delivered × Webhooks → Delivered × Webhooks
  deliver_one p (n, s) =
      let dest = find destination_id p.destination_id s.destinations in
      deliver_sent p (budget_of c dest) (post dest p s.sends) (n, s)

  unfoldable pub deliver_each : List Snapshot → Delivered × Webhooks → Delivered × Webhooks
  deliver_each [] t = t
  deliver_each (p ∷ ps) t = deliver_each ps (deliver_one p t)

  unfoldable pub deliver_pending : ℕ → Webhooks → Delivered × Webhooks
  deliver_pending max_deliveries s =
      deliver_each (pending_rows max_deliveries s)
        (record { delivered = 0; failed = 0; retried = 0 }, s)
