-- ===== src/Webhooks/Stale.antt =====
-- Two workers in `deliver_pending` of backend/app/webhooks.py: the last transaction of an attempt does not
-- look at the status that the row has by then.
use mathlib.Core.List.{Memᴰ}
use aira_agent.Base.{
  ℕ, suc, some, true, false, ◌≡◌, ◌≤◌, refl, arith, ◌∙◌, ap, eq_iff, tally, keep, length-keep,
}
use aira_agent.Base.Table.{find, update, find-update}
use aira_agent.Base.Order.{sort_by, length-sort_by}
use aira_agent.Base.Distinct.{find-mem, mem_kept, mem_sorted, mem_mapped, take_all}
use aira_agent.Webhooks.Row.{
  pending, delivered, Webhooks, Settings, Delivery, Destination, destination_id, delivery_id,
  prepare, effective_max_attempts,
}
use aira_agent.Webhooks.Delivery.{
  Transport, Sent, Snapshot, Ending, Delivered, attempted, finish, finish_found, deliver_sent,
  deliver_one, delivers, fails, retries, ending, budget_of, post, pending_row, pending_rows,
  snapshot_of, sent_earlier, ended_destination, on_delivery_success,
}

-- A pending row is taken by a run whose limit is large enough.
pending-taken :
    (limit : ℕ) (s : Webhooks) (k : _) (q : Delivery)
    → find delivery_id k s.deliveries ≡ some q
    → pending_row q ≡ true
    → tally pending_row s.deliveries ≤ limit
    → Memᴰ (snapshot_of q) (pending_rows limit s)
unfolding pending_rows
pending-taken limit s k q at waits few = mem_mapped snapshot_of _ (
    rw
      (take_all limit (sort_by sent_earlier (keep pending_row s.deliveries)) (
        omega (
          arith,
          few,
          length-sort_by sent_earlier (keep pending_row s.deliveries),
          length-keep pending_row s.deliveries,
        )))
      (mem_sorted sent_earlier _
        (mem_kept pending_row s.deliveries (find-mem delivery_id k s.deliveries at) waits)))

keeps_key :
    (sent : Sent) (attempts now : ℕ) (e : Ending) (r : Delivery)
    → delivery_id (attempted sent attempts now e r) ≡ delivery_id r
unfolding attempted
keeps_key sent attempts now delivers r = refl
keeps_key sent attempts now fails r = refl
keeps_key sent attempts now retries r = refl

module _ (c : Settings) (send : Transport) (p : Snapshot) where
  -- What one attempt leaves, where its row and its destination are there.
  module _ (n : Delivered) (s : Webhooks) (r : Delivery) (d : Destination) (e : Ending) where
    abbrev answer : Sent
    answer = (post c send (some d) p s.sends).0

    abbrev left_by : Webhooks
    left_by = record s {
      sends = suc s.sends;
      deliveries = update delivery_id p.id (attempted answer (suc p.attempts) s.now e) s.deliveries;
      destinations =
          update destination_id p.destination_id (ended_destination c s.now e) s.destinations;
    }

    one_attempt :
        find delivery_id p.id s.deliveries ≡ some r
        → find destination_id p.destination_id s.destinations ≡ some d
        → ending answer (suc p.attempts) (budget_of c (some d)) ≡ e
        → (deliver_one c send p (n, s)).1 ≡ left_by
    unfolding deliver_one deliver_sent finish_found finish post
    one_attempt at to end = rw (to, at, end) refl

    row_after :
        find delivery_id p.id s.deliveries ≡ some r
        → find delivery_id p.id left_by.deliveries
          ≡ some (attempted answer (suc p.attempts) s.now e r)
    unfolding attempted
    row_after at =
        find-update delivery_id p.id p.id _ s.deliveries (keeps_key answer (suc p.attempts) s.now e)
        ∙ ground (arith, at, eq_iff p.id p.id)

  destination_after :
      (s : Webhooks) (d : Destination)
      → find destination_id p.destination_id s.destinations ≡ some d
      → find destination_id p.destination_id (
          update destination_id p.destination_id
            (ended_destination c s.now delivers)
            s.destinations)
        ≡ some (on_delivery_success d)
  unfolding ended_destination on_delivery_success
  destination_after s d to =
      find-update destination_id p.destination_id p.destination_id _ s.destinations (λ x. refl)
      ∙ ground (arith, to, eq_iff p.destination_id p.destination_id)

  accepted :
      (s : Webhooks) (d : Destination)
      → (post c send (some d) p s.sends).0.ok ≡ true
      → ending (post c send (some d) p s.sends).0 (suc p.attempts) (budget_of c (some d)) ≡ delivers
  unfolding ending
  accepted s d won = rw won refl

  -- A success changes nothing of what the next request sends.
  refused :
      (k : ℕ) (d : Destination)
      → (post c send (some d) p k).0.ok ≡ false
      → suc (suc p.attempts) ≤ budget_of c (some d)
      → ending
          (post c send (some (on_delivery_success d)) p k).0
          (suc p.attempts)
          (budget_of c (some (on_delivery_success d)))
        ≡ retries
  unfolding ending post on_delivery_success budget_of prepare effective_max_attempts
  refused k d lost more = rw lost (ground (arith, more))

  -- Two workers hold one reading `p` of a delivery. The attempt of the first is accepted, and the row
  -- is delivered. The attempt of the second fails with attempts left by what it had read: the row is
  -- pending again, and the next run of `deliver_pending` with room for all pending rows takes it, so
  -- that it is sent once more.
  pub stale_attempt_reopens :
      (n n' : Delivered) (limit : ℕ) (s : Webhooks) (r : Delivery) (d : Destination)
      → find delivery_id p.id s.deliveries ≡ some r
      → find destination_id p.destination_id s.destinations ≡ some d
      → (post c send (some d) p s.sends).0.ok ≡ true
      → (post c send (some d) p (suc s.sends)).0.ok ≡ false
      → suc (suc p.attempts) ≤ budget_of c (some d)
      → tally pending_row (deliver_one c send p (n', (deliver_one c send p (n, s)).1)).1.deliveries
        ≤ limit
      → ((q : Delivery) × (find delivery_id p.id (deliver_one c send p (n, s)).1.deliveries
            ≡ some q)
          × (q.status ≡ delivered))
        × ((q : Delivery) × (find delivery_id p.id
                (deliver_one c send p (n', (deliver_one c send p (n, s)).1)).1.deliveries
              ≡ some q)
            × (q.status ≡ pending)
            × (q.attempts ≡ suc p.attempts)
            × Memᴰ
                (snapshot_of q)
                (pending_rows limit (deliver_one c send p (n', (deliver_one c send p (n, s)).1)).1))
  unfolding attempted
  stale_attempt_reopens n n' limit s r d at to won lost more few = (
    (sent, ap (λ t. find delivery_id p.id t.deliveries) one ∙ row_after n s r d delivers at, refl),
    (again, found, refl, refl, pending-taken limit _ p.id again found refl few),
  )
    where
      first : Webhooks
      first = left_by n s r d delivers

      sent : Delivery
      sent = attempted (post c send (some d) p s.sends).0 (suc p.attempts) s.now delivers r

      again : Delivery
      again =
          attempted (post c send (some (on_delivery_success d)) p (suc s.sends)).0 (suc p.attempts)
            s.now retries sent

      one : (deliver_one c send p (n, s)).1 ≡ first
      one = one_attempt n s r d delivers at to (accepted s d won)

      two :
          (deliver_one c send p (n', first)).1
          ≡ left_by n' first sent (on_delivery_success d) retries
      two =
          one_attempt n' first sent (on_delivery_success d) retries (row_after n s r d delivers at)
            (destination_after s d to) (refused (suc s.sends) d lost more)

      found :
          find delivery_id p.id
            (deliver_one c send p (n', (deliver_one c send p (n, s)).1)).1.deliveries
          ≡ some again
      found =
          ap (λ t. find delivery_id p.id (deliver_one c send p (n', t)).1.deliveries) one
          ∙ ap (λ t. find delivery_id p.id t.deliveries) two
          ∙ row_after n' first sent (on_delivery_success d) retries (row_after n s r d delivers at)
