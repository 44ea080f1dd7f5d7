-- ===== src/Webhooks/Configured.antt =====
-- The configuration of the destinations in backend/app/webhooks.py stays valid.
use aira_agent.Base.{
  ℕ, String, Option, none, some, List, [], ◌∷◌, ◌≡◌, arith, All, All-append, if_both, if_split,
  Option-cases, inl, inr,
}
use aira_agent.Base.Table.{find, All-update}
use aira_agent.Base.Query.{All-mem}
use aira_agent.Base.Distinct.{All-keep_sub, find-mem}
use aira_agent.Incidents.Row.{Alert}
use aira_agent.Webhooks.Row.{Webhooks, Settings, Destination, destination_id}
use aira_agent.Webhooks.Destinations.{DestinationDict, delete_destination, clear_cooldown, cleared}
use aira_agent.Webhooks.Configure.{
  Change, is_accepted, changed, create_destination, update_destination, commit_changed,
}
use aira_agent.Webhooks.Routing.{
  Counts, route_alerts_detailed, commit_routes, sweep_routes, takes_alerts, no_counts,
}
use aira_agent.Webhooks.Occurrences.{begin_occurring, distinct_signals}
use aira_agent.Webhooks.Preview.{route_observability}
use aira_agent.Webhooks.Delivery.{
  Transport, Snapshot, Delivered, finish, deliver_one, deliver_each, deliver_pending,
}
use aira_agent.Webhooks.Redrive.{redrive, redrive_found, redrive_failed}
use aira_agent.Webhooks.Attempt.{deliver_one-cases}
use aira_agent.Webhooks.Ledger
use aira_agent.Webhooks.Ledger.{
  Step, Reach, Reach-keeps, creates, updates, deletes, clears, routes_event, routes_alerts,
  redrives, waits,
}
use aira_agent.Webhooks.Configuration.{
  IsConfigured, OrNone, new_destination-IsConfigured, changed-IsConfigured, route_all-IsConfigured,
  queue_all-IsConfigured, ended-IsConfigured,
}

module _ (c : Settings) (uuid4 : ℕ → String) where
  deliver_one-IsConfigured :
      (send : Transport) (p : Snapshot) (t : Delivered × Webhooks)
      → All IsConfigured t.1.destinations
      → All IsConfigured (deliver_one c send p t).1.destinations
  unfolding finish
  deliver_one-IsConfigured send p (n, s) h =
      deliver_one-cases (λ t. All IsConfigured t.1.destinations) c send p n s (λ k e. h)
        (λ r sent k e.
          All-update destination_id IsConfigured p.destination_id _ s.destinations
            (λ d _. ended-IsConfigured c uuid4 s.now _ d) h)

  deliver_each-IsConfigured :
      (send : Transport) (ps : List Snapshot) (t : Delivered × Webhooks)
      → All IsConfigured t.1.destinations
      → All IsConfigured (deliver_each c send ps t).1.destinations
  unfolding deliver_each
  deliver_each-IsConfigured send [] t h = h
  deliver_each-IsConfigured send (p ∷ ps) t h =
      deliver_each-IsConfigured send ps (deliver_one c send p t)
        (deliver_one-IsConfigured send p t h)

  update-IsConfigured :
      (id : String) (changes : List Change) (s : Webhooks)
      → All IsConfigured s.destinations
      → All IsConfigured (update_destination c id changes s).1.destinations
  unfolding update_destination
  update-IsConfigured id changes s h = elim (Option-cases (find destination_id id s.destinations)) [
    | inl e ↦ rw (e, update_destination) h
    | inr (d, e) ↦
        rw (e, update_destination)
          (commit (changed changes d) (
            changed-IsConfigured changes d (
              All-mem IsConfigured s.destinations h (find-mem destination_id id s.destinations e))))
  ]
    where
      commit :
          (o : Option Destination)
          → OrNone IsConfigured o
          → All IsConfigured (commit_changed c o s).1.destinations
      commit none k = unfold commit_changed in h
      commit (some d) k =
          unfold commit_changed in
          All-update destination_id IsConfigured d.id _ s.destinations (λ _ _ _. configured) h
        where
          configured : IsConfigured (record d { updated_at = s.now })
          configured = unfold IsConfigured OrNone in k

  clear-IsConfigured :
      (id : String) (s : Webhooks)
      → All IsConfigured s.destinations
      → All IsConfigured (clear_cooldown id s).1.destinations
  unfolding clear_cooldown
  clear-IsConfigured id s h = elim (Option-cases (find destination_id id s.destinations)) [
    | inl e ↦ rw (e, clear_cooldown) h
    | inr (d, e) ↦
        rw (e, clear_cooldown)
          (All-update destination_id IsConfigured id cleared s.destinations
            (λ x _ g. unfold IsConfigured in g) h)
  ]

  alerts-IsConfigured :
      (silenced : List String) (alerts : List Alert) (s : Webhooks)
      → All IsConfigured s.destinations
      → All IsConfigured (route_alerts_detailed c uuid4 silenced alerts s).1.destinations
  unfolding route_alerts_detailed commit_routes sweep_routes
  alerts-IsConfigured silenced [] s h = h
  alerts-IsConfigured silenced (a ∷ alerts) s h =
      if_both {A = Counts × Webhooks} (λ x. All IsConfigured x.1.destinations) c.webhooks_enabled _
        (no_counts, s)
        (if_both {A = Webhooks} (λ x. All IsConfigured x.destinations)
          (distinct_signals (begin_occurring c (a ∷ alerts) s).added) _ _
          (route_all-IsConfigured c uuid4 silenced s.deliveries _ s.now takes_alerts (a ∷ alerts)
            s.destinations _ h)
          h)
        h

  redrive_destinations :
      (id : String) (s : Webhooks) → (redrive c uuid4 id s).1.destinations ≡ s.destinations
  unfolding redrive redrive_found redrive_failed
  redrive_destinations id s = ground arith

  Step-IsConfigured :
      (s t : Webhooks)
      → Step c uuid4 s t
      → All IsConfigured s.destinations
      → All IsConfigured t.destinations
  unfolding create_destination delete_destination deliver_pending route_observability
  Step-IsConfigured s t (creates n) h =
      if_split {A = Option DestinationDict × Webhooks} (λ x. All IsConfigured x.1.destinations)
        (is_accepted n) _ (none, s)
        (λ e.
          All-append IsConfigured s.destinations _ h
            (new_destination-IsConfigured n (uuid4 s.draws) s.now e, tt))
        (λ _. h)
  Step-IsConfigured s t (updates id changes) h = update-IsConfigured id changes s h
  Step-IsConfigured s t (deletes id) h = All-keep_sub IsConfigured _ s.destinations h
  Step-IsConfigured s t (clears id) h = clear-IsConfigured id s h
  Step-IsConfigured s t (routes_event e) h =
      if_both {A = ℕ × Webhooks} (λ x. All IsConfigured x.1.destinations) c.webhooks_enabled _
        (0, s) (queue_all-IsConfigured c uuid4 s.now e s.destinations _ h) h
  Step-IsConfigured s t (routes_alerts silenced alerts) h = alerts-IsConfigured silenced alerts s h
  Step-IsConfigured s t (Ledger.delivers send max_deliveries) h =
      deliver_each-IsConfigured send _ (_, s) h
  Step-IsConfigured s t (redrives id) h = rw (redrive_destinations id s) h
  Step-IsConfigured s t (waits now) h = h

  -- However the service is used, every destination keeps a subscription, a severity floor and a kind that
  -- are among those allowed, a suppression window of at least 0 and bounds on escalation and
  -- attempts of at least 1, in every state that its operations reach from one where they all do.
  pub destinations-IsConfigured :
      {s t : Webhooks}
      → Reach c uuid4 s t
      → All IsConfigured s.destinations
      → All IsConfigured t.destinations
  destinations-IsConfigured =
      Reach-keeps c uuid4 (λ s. All IsConfigured s.destinations) Step-IsConfigured
