-- ===== src/Webhooks/Lineage.antt =====
-- How often a delivery can be redriven in backend/app/webhooks.py.
use aira_agent.Base.{
  ℕ, suc, String, Option, none, some, List, [], ◌∷◌, ◌++◌, true, ◌≡◌, refl, ◌≤◌, arith, All, tally,
  tally-append, length-keep, ◌∙◌, keep, length, leb, eq_iff, if_split, Option-cases, inl, inr,
  if_both,
}
use aira_agent.Base.Table.{find, tally-update-le}
use aira_agent.Base.Order.{length-sort_by}
use aira_agent.Incidents.Row.{Alert}
use aira_agent.Webhooks.Row.{Webhooks, Settings, Delivery, delivery_id, is_failed}
use aira_agent.Webhooks.Destinations.{delete_destination, clear_cooldown}
use aira_agent.Webhooks.Configure.{create_destination, update_destination}
use aira_agent.Webhooks.Occurrences.{begin_occurring, distinct_signals}
use aira_agent.Webhooks.Routing.{
  route_alerts_detailed, commit_routes, sweep_routes, alert_delivery, new_delivery, takes_alerts,
  no_counts, Counts,
}
use aira_agent.Webhooks.Preview.{route_observability, event_delivery}
use aira_agent.Webhooks.Delivery.{
  Transport, sent_earlier, Snapshot, Sent, Ending, Delivered, attempted, finish, deliver_one,
  deliver_each, deliver_pending, delivers, fails, retries,
}
use aira_agent.Webhooks.Redrive.{
  RedriveReply, limit_reached, not_failed, child_of, children, redrive_cap, redriven_row,
  redrive_failed, redrive_found, redrive,
}
use aira_agent.Webhooks.Attempt.{deliver_one-cases}
use aira_agent.Webhooks.Added.{All-route_all, All-queue_all}
use aira_agent.Webhooks.Ledger
use aira_agent.Webhooks.Ledger.{
  Step, Reach, Reach-keeps, create_keeps, update_keeps, clear_keeps, creates, updates, deletes,
  clears, routes_event, routes_alerts, redrives, waits,
}

-- How many redrives of one delivery there are.
unfoldable pub redrives_of : String → Webhooks → ℕ
redrives_of id s = tally (child_of id) s.deliveries

-- The count depends on the table of deliveries only.
same_table :
    (id : String) (s t : Webhooks)
    → t.deliveries ≡ s.deliveries
    → redrives_of id t ≡ redrives_of id s
unfolding redrives_of
same_table id s t e = rw e refl

no_redrives :
    (id : String) (rs : List Delivery)
    → All (λ r. r.redrive_of ≡ none) rs
    → tally (child_of id) rs ≡ 0
unfolding tally child_of
no_redrives id [] h = refl
no_redrives id (r ∷ rs) h = rw (h.0, no_redrives id rs h.1) refl

length-children :
    (id : String) (rows : List Delivery) → length (children id rows) ≡ tally (child_of id) rows
unfolding children
length-children id rows =
    length-sort_by sent_earlier (keep (child_of id) rows) ∙ length-keep (child_of id) rows

module _ (c : Settings) (uuid4 : ℕ → String) (id : String) where
  added_none :
      (s : Webhooks) (added : List Delivery)
      → All (λ r. r.redrive_of ≡ none) added
      → tally (child_of id) (s.deliveries ++ added) ≡ tally (child_of id) s.deliveries
  added_none s added h =
      omega (arith, tally-append (child_of id) s.deliveries added, no_redrives id added h)

  routes_event_keeps :
      (e : _) (s : Webhooks) → redrives_of id (route_observability uuid4 c e s).1 ≡ redrives_of id s
  unfolding route_observability redrives_of event_delivery new_delivery
  routes_event_keeps e s =
      if_both {A = ℕ × Webhooks}
        (λ t. (tally (child_of id) t.1.deliveries ≡ tally (child_of id) s.deliveries))
        c.webhooks_enabled _ (0, s)
        (added_none s _ (
          All-queue_all (λ r. r.redrive_of ≡ none) uuid4 s.now e (λ _ _. refl) s.destinations _ tt))
        refl

  routes_alerts_keeps :
      (silenced : List String) (alerts : List Alert) (s : Webhooks)
      → redrives_of id (route_alerts_detailed c uuid4 silenced alerts s).1 ≡ redrives_of id s
  unfolding route_alerts_detailed commit_routes sweep_routes redrives_of alert_delivery new_delivery
  routes_alerts_keeps silenced [] s = refl
  routes_alerts_keeps silenced (a ∷ alerts) s =
      if_both {A = Counts × Webhooks}
        (λ t. (tally (child_of id) t.1.deliveries ≡ tally (child_of id) s.deliveries))
        c.webhooks_enabled _ (no_counts, s)
        (if_both {A = Webhooks}
          (λ t. tally (child_of id) t.deliveries ≡ tally (child_of id) s.deliveries)
          (distinct_signals (begin_occurring c (a ∷ alerts) s).added) _ _
          (added_none s _ (
            All-route_all (λ r. r.redrive_of ≡ none) uuid4 s.now c silenced s.deliveries _
              (λ _ _ _ _. refl) takes_alerts (a ∷ alerts) s.destinations _ tt))
          refl)
        refl

  child_of-attempted :
      (sent : Sent) (n now : ℕ) (e : Ending) (r : Delivery)
      → child_of id (attempted sent n now e r) ≡ true
      → child_of id r ≡ true
  unfolding attempted child_of
  child_of-attempted sent n now delivers r h = h
  child_of-attempted sent n now fails r h = h
  child_of-attempted sent n now retries r h = h

  deliver_one_keeps :
      (send : Transport) (p : Snapshot) (t : Delivered × Webhooks)
      → redrives_of id (deliver_one c send p t).1 ≤ redrives_of id t.1
  unfolding redrives_of finish
  deliver_one_keeps send p (n, s) =
      deliver_one-cases (λ t. redrives_of id t.1 ≤ redrives_of id s) c send p n s
        (λ k e. omega arith)
        (λ r sent k e.
          tally-update-le delivery_id (child_of id) p.id _ s.deliveries
            (λ q _. child_of-attempted sent (suc p.attempts) s.now _ q))

  deliver_each_keeps :
      (send : Transport) (ps : List Snapshot) (t : Delivered × Webhooks)
      → redrives_of id (deliver_each c send ps t).1 ≤ redrives_of id t.1
  unfolding deliver_each
  deliver_each_keeps send [] t = omega arith
  deliver_each_keeps send (p ∷ ps) t =
      omega (arith, deliver_one_keeps send p t, deliver_each_keeps send ps (deliver_one c send p t))

  -- A redrive adds a child to the delivery it names, and only below the cap.
  redrive_failed_bounded :
      (d : String) (r : Delivery) (o : Option Delivery) (s : Webhooks)
      → redrives_of id s ≤ redrive_cap c
      → redrives_of id (redrive_failed c uuid4 d r (children d s.deliveries) o s).1 ≤ redrive_cap c
  unfolding redrive_failed redrives_of redriven_row tally child_of
  redrive_failed_bounded d r (some child) s h = h
  redrive_failed_bounded d r none s h =
      if_split {A = RedriveReply × Webhooks} (λ t. redrives_of id t.1 ≤ redrive_cap c)
        (leb (redrive_cap c) (length (children d s.deliveries))) (limit_reached, s) _ (λ _. h)
        (λ below. ground (
          arith,
          tally-append (child_of id) s.deliveries (redriven_row (uuid4 s.draws) d s.now r ∷ []),
          length-children d s.deliveries,
          eq_iff d id,
        ))

  redrive_bounded :
      (d : String) (s : Webhooks)
      → redrives_of id s ≤ redrive_cap c
      → redrives_of id (redrive c uuid4 d s).1 ≤ redrive_cap c
  unfolding redrive redrive_found
  redrive_bounded d s h = elim (Option-cases (find delivery_id d s.deliveries)) [
    | inl e ↦ rw (e, redrive) h
    | inr (r, e) ↦
        rw (e, redrive)
          (if_both {A = RedriveReply × Webhooks} (λ t. redrives_of id t.1 ≤ redrive_cap c)
            (is_failed r.status) _ (not_failed r.status, s) (redrive_failed_bounded d r _ s h) h)
  ]

  Step-bounded :
      (s t : Webhooks)
      → Step c uuid4 s t
      → redrives_of id s ≤ redrive_cap c
      → redrives_of id t ≤ redrive_cap c
  unfolding delete_destination deliver_pending redrives_of
  Step-bounded s t (creates n) h =
      omega
        (arith, h, same_table id s (create_destination c uuid4 n s).1 (create_keeps c uuid4 s n))
  Step-bounded s t (updates d changes) h = omega (
    arith,
    h,
    same_table id s (update_destination c d changes s).1 (update_keeps c uuid4 s d changes),
  )
  Step-bounded s t (deletes d) h = h
  Step-bounded s t (clears d) h =
      omega (arith, h, same_table id s (clear_cooldown d s).1 (clear_keeps c uuid4 s d))
  Step-bounded s t (routes_event e) h = rw (routes_event_keeps e s) h
  Step-bounded s t (routes_alerts silenced alerts) h = rw (routes_alerts_keeps silenced alerts s) h
  Step-bounded s t (Ledger.delivers send max_deliveries) h =
      omega (arith, h, deliver_each_keeps send _ (_, s))
  Step-bounded s t (redrives d) h = redrive_bounded d s h
  Step-bounded s t (waits now) h = h

  -- However the service is used, no delivery is redriven more often than the cap allows: the redrives of
  -- a delivery stay at most max(1, webhook_max_redrives) in every state that its operations reach
  -- from one where they are.
  pub redrives-bounded :
      {s t : Webhooks}
      → Reach c uuid4 s t
      → redrives_of id s ≤ redrive_cap c
      → redrives_of id t ≤ redrive_cap c
  redrives-bounded = Reach-keeps c uuid4 (λ s. redrives_of id s ≤ redrive_cap c) Step-bounded
