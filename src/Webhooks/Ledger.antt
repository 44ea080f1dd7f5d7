-- ===== src/Webhooks/Ledger.antt =====
-- The operations of backend/app/webhooks.py as steps of its state, and what they do to the table of
-- deliveries.
use aira_agent.Base.{ℕ, String, List, ◌≡◌, arith}
use aira_agent.Incidents.Row.{Alert}
use aira_agent.Webhooks.Row.{Webhooks, Settings, Event}
use aira_agent.Webhooks.Destinations.{delete_destination, clear_cooldown}
use aira_agent.Webhooks.Configure.{
  NewDestination, Change, create_destination, update_destination, commit_changed,
}
use aira_agent.Webhooks.Routing.{route_alerts_detailed}
use aira_agent.Webhooks.Preview.{route_observability}
use aira_agent.Webhooks.Delivery.{Transport, deliver_pending}
use aira_agent.Webhooks.Redrive.{redrive}

-- A call of the service, or time that passes. The settings and the source of ids are fixed, the
-- transport is any.
pub data Step (c : Settings) (uuid4 : ℕ → String) : Webhooks → Webhooks → Type 0 where
  creates : {s : Webhooks} (n : NewDestination) → Step c uuid4 s (create_destination c uuid4 n s).1
  updates :
      {s : Webhooks} (id : String) (changes : List Change)
      → Step c uuid4 s (update_destination c id changes s).1
  deletes : {s : Webhooks} (id : String) → Step c uuid4 s (delete_destination id s).1
  clears : {s : Webhooks} (id : String) → Step c uuid4 s (clear_cooldown id s).1
  routes_event : {s : Webhooks} (e : Event) → Step c uuid4 s (route_observability uuid4 c e s).1
  routes_alerts :
      {s : Webhooks} (silenced : List String) (alerts : List Alert)
      → Step c uuid4 s (route_alerts_detailed c uuid4 silenced alerts s).1
  delivers :
      {s : Webhooks} (send : Transport) (max_deliveries : ℕ)
      → Step c uuid4 s (deliver_pending c send max_deliveries s).1
  redrives : {s : Webhooks} (id : String) → Step c uuid4 s (redrive c uuid4 id s).1
  waits : {s : Webhooks} (now : ℕ) → Step c uuid4 s (record s { now = now })

pub data Reach (c : Settings) (uuid4 : ℕ → String) : Webhooks → Webhooks → Type 0 where
  done : {s : Webhooks} → Reach c uuid4 s s
  next : {s t u : Webhooks} → Step c uuid4 s t → Reach c uuid4 t u → Reach c uuid4 s u

-- What the steps keep, the runs keep.
pub Reach-keeps {κ} :
    (c : Settings) (uuid4 : ℕ → String) (P : Webhooks → Type κ)
    → ((s t : Webhooks) → Step c uuid4 s t → P s → P t)
    → {s t : Webhooks} → Reach c uuid4 s t
    → P s
    → P t
Reach-keeps c uuid4 P keeps done h = h
Reach-keeps c uuid4 P keeps (next step rest) h = Reach-keeps c uuid4 P keeps rest (keeps _ _ step h)

module _ (c : Settings) (uuid4 : ℕ → String) (s : Webhooks) where
  -- What only configures the destinations leaves the deliveries alone.
  pub create_keeps :
      (n : NewDestination) → (create_destination c uuid4 n s).1.deliveries ≡ s.deliveries
  unfolding create_destination
  create_keeps n = ground arith

  pub update_keeps :
      (id : String) (changes : List Change)
      → (update_destination c id changes s).1.deliveries ≡ s.deliveries
  unfolding update_destination commit_changed
  update_keeps id changes = ground arith

  pub clear_keeps : (id : String) → (clear_cooldown id s).1.deliveries ≡ s.deliveries
  unfolding clear_cooldown
  clear_keeps id = ground arith
