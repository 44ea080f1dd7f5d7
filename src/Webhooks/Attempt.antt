-- ===== src/Webhooks/Attempt.antt =====
-- The two ends of one delivery in `deliver_pending` of backend/app/webhooks.py.
use aira_agent.Base.{ℕ, suc, Option, none, some, ◌≡◌, refl}
use aira_agent.Base.Table.{find}
use aira_agent.Webhooks.Row.{Delivery, Settings, Webhooks, destination_id, delivery_id}
use aira_agent.Webhooks.Delivery.{
  Delivered, Sent, Snapshot, Transport, budget_of, deliver_one, finish_found, ending, finish,
  finish_found, deliver_sent, post,
}

module _ {κ} (P : Delivered × Webhooks → Type κ) (c : Settings) (send : Transport) (p : Snapshot)
    (n : Delivered) (s : Webhooks) where
  finish_found-cases :
      (sent : Sent) (k budget : ℕ) (o : Option Delivery)
      → (o ≡ none → P (n, record s { sends = k }))
      → ((r : Delivery)
          → o ≡ some r
          → P (
              finish c send p sent
                (ending sent (suc p.attempts) budget)
                (n, record s { sends = k })))
      → P (
          finish_found c send p sent
            (ending sent (suc p.attempts) budget)
            o
            (n, record s { sends = k }))
  unfolding finish_found
  finish_found-cases sent k budget none gone there = gone refl
  finish_found-cases sent k budget (some r) gone there = there r refl

  -- Either the row is gone, or the attempt ends in one of its three ways.
  pub deliver_one-cases :
      ((k : ℕ) → find delivery_id p.id s.deliveries ≡ none → P (n, record s { sends = k }))
      → ((r : Delivery) (sent : Sent) (k : ℕ)
          → find delivery_id p.id s.deliveries ≡ some r
          → P (
              finish c send p sent
                (ending sent
                  (suc p.attempts)
                  (budget_of c (find destination_id p.destination_id s.destinations)))
                (n, record s { sends = k })))
      → P (deliver_one c send p (n, s))
  unfolding deliver_one deliver_sent
  deliver_one-cases gone there =
      let x = post c send (find destination_id p.destination_id s.destinations) p s.sends in
      finish_found-cases x.0 x.1 _ (find delivery_id p.id s.deliveries) (gone x.1)
        (λ r e. there r x.0 x.1 e)
