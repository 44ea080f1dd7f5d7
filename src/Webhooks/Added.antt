-- ===== src/Webhooks/Added.antt =====
-- What the routing loops of backend/app/webhooks.py add: every delivery is one that they make, and no
-- alert is left out of their counts.
use aira_agent.Base.{
  ℕ, suc, ◌+◌, ◌*◌, String, List, [], ◌∷◌, Bool, ◌≡◌, refl, arith, if_both, if_split, false, All,
  All-append, length, length-append, tally, Bool-cases, inl, inr,
}
use aira_agent.JobPolicy.{contains}
use aira_agent.Incidents.Row.{Alert, signal_of}
use aira_agent.Webhooks.Row.{Destination, Event, Delivery, Settings, in_cooldown}
use aira_agent.Webhooks.Decision.{Action, route, suppress, skip}
use aira_agent.Webhooks.Routing.{
  Routing, Counts, act, alert_delivery, route_alert, route_each, route_to, route_all, takes_events,
}
use aira_agent.Webhooks.Preview.{Queued, takes_event, event_delivery, queue_to, queue_all}

module _ {κ} (P : Delivery → Type κ) (uuid4 : ℕ → String) (now : ℕ) where
  module _ (c : Settings) (silenced : List String) (rows : List Delivery) (occ : List (String × ℕ))
      (made : (id : String) (d : Destination) (a : Alert)
        → contains (signal_of a) silenced ≡ false
        → P (alert_delivery id now d a)) where
    All-act :
        (x : Action) (a : Alert) (d : Destination) (w : Routing)
        → contains (signal_of a) silenced ≡ false
        → All P w.added
        → All P (act uuid4 x now a d w).1.added
    unfolding act
    All-act route a d w heard h = All-append P w.added _ h (made _ d a heard, tt)
    All-act suppress a d w heard h = h
    All-act skip a d w heard h = h

    All-route_each :
        (alerts : List Alert) (d : Destination) (w : Routing)
        → All P w.added
        → All P (route_each c uuid4 silenced rows occ now alerts d w).1.added
    unfolding route_each route_alert
    All-route_each [] d w h = h
    All-route_each (a ∷ alerts) d w h = All-route_each alerts _ _ (
        if_split {A = Destination × Routing} (λ t. All P t.1.added)
          (contains (signal_of a) silenced) _ _ (λ _. h) (λ heard. All-act _ a d w heard h))

    All-route_to :
        (alerts : List Alert) (d : Destination) (w : Routing)
        → All P w.added
        → All P (route_to c uuid4 silenced rows occ now alerts d w).1.added
    unfolding route_to
    All-route_to alerts d w h =
        if_both {A = Destination × Routing} (λ t. All P t.1.added)
          (in_cooldown d.cooldown_until now) _ _ h (All-route_each alerts d w h)

    pub All-route_all :
        (to : Destination → Bool) (alerts : List Alert) (ds : List Destination) (w : Routing)
        → All P w.added
        → All P (route_all c uuid4 silenced rows occ now to alerts ds w).1.added
    unfolding route_all
    All-route_all to alerts [] w h = h
    All-route_all to alerts (d ∷ ds) w h = All-route_all to alerts ds _ (
        if_both {A = Destination × Routing} (λ t. All P t.1.added) (to d)
          (route_to c uuid4 silenced rows occ now alerts d w) (d, w) (All-route_to alerts d w h) h)

  module _ (e : Event)
      (made : (id : String) (d : Destination) → P (event_delivery id now d e)) where
    All-queue_to :
        (d : Destination) (w : Queued) → All P w.added → All P (queue_to uuid4 now e d w).1.added
    unfolding queue_to
    All-queue_to d w h = elim (Bool-cases (in_cooldown d.cooldown_until now)) [
      | inl q ↦ rw q h
      | inr q ↦ rw q (
          if_both {A = Destination × Queued} (λ t. All P t.1.added) (takes_event d e) _ (d, w)
            (All-append P w.added (event_delivery (uuid4 w.draws) now d e ∷ []) h (made _ d, tt)) h)
    ]

    pub All-queue_all :
        (ds : List Destination) (w : Queued)
        → All P w.added
        → All P (queue_all uuid4 now e ds w).1.added
    unfolding queue_all
    All-queue_all [] w h = h
    All-queue_all (d ∷ ds) w h = All-queue_all ds _ (
        if_both {A = Destination × Queued} (λ t. All P t.1.added) (takes_events d)
          (queue_to uuid4 now e d w) (d, w) (All-queue_to d w h) h)

-- routed + suppressed + skipped + silenced
abbrev pub total : Counts → ℕ
total n = n.routed + n.suppressed + n.skipped + n.silenced

-- What a loop adds is what it counts as routed.
abbrev pub Accounted : Routing → Routing → Type 0
Accounted w w' = length w'.added + w.counts.routed ≡ length w.added + w'.counts.routed

module _ (c : Settings) (uuid4 : ℕ → String) (silenced : List String) (rows : List Delivery)
    (occ : List (String × ℕ)) (now : ℕ) where
  act-counts :
      (x : Action) (a : Alert) (d : Destination) (w : Routing)
      → (total (act uuid4 x now a d w).1.counts ≡ suc (total w.counts))
        × Accounted w (act uuid4 x now a d w).1
  unfolding act
  act-counts route a d w = (
    omega arith,
    omega (arith, length-append w.added (alert_delivery (uuid4 w.draws) now d a ∷ [])),
  )
  act-counts suppress a d w = (omega arith, refl)
  act-counts skip a d w = (omega arith, refl)

  route_alert-counts :
      (a : Alert) (d : Destination) (w : Routing)
      → (total (route_alert c uuid4 silenced rows occ now a d w).1.counts ≡ suc (total w.counts))
        × Accounted w (route_alert c uuid4 silenced rows occ now a d w).1
  unfolding route_alert
  route_alert-counts a d w =
      if_both {A = Destination × Routing}
        (λ t. (total t.1.counts ≡ suc (total w.counts)) × Accounted w t.1) _ _ _ (omega arith, refl)
        (act-counts _ a d w)

  route_each-counts :
      (alerts : List Alert) (d : Destination) (w : Routing)
      → (total (route_each c uuid4 silenced rows occ now alerts d w).1.counts
          ≡ total w.counts + length alerts)
        × Accounted w (route_each c uuid4 silenced rows occ now alerts d w).1
  unfolding route_each
  route_each-counts [] d w = (omega arith, refl)
  route_each-counts (a ∷ alerts) d w =
      let step = route_alert-counts a d w in
      let (d', w') = route_alert c uuid4 silenced rows occ now a d w in
      let rest = route_each-counts alerts d' w' in
      (omega (arith, step.0, rest.0), omega (arith, step.1, rest.1))

  route_to-counts :
      (alerts : List Alert) (d : Destination) (w : Routing)
      → (total (route_to c uuid4 silenced rows occ now alerts d w).1.counts
          ≡ total w.counts + length alerts)
        × Accounted w (route_to c uuid4 silenced rows occ now alerts d w).1
  unfolding route_to
  route_to-counts alerts d w =
      if_both {A = Destination × Routing}
        (λ t. (total t.1.counts ≡ total w.counts + length alerts) × Accounted w t.1) _ _ _
        (omega arith, refl) (route_each-counts alerts d w)

  pub route_all-counts :
      (to : Destination → Bool) (alerts : List Alert) (ds : List Destination) (w : Routing)
      → (total (route_all c uuid4 silenced rows occ now to alerts ds w).1.counts
          ≡ total w.counts + tally to ds * length alerts)
        × Accounted w (route_all c uuid4 silenced rows occ now to alerts ds w).1
  unfolding route_all tally
  route_all-counts to alerts [] w = (omega arith, refl)
  route_all-counts to alerts (d ∷ ds) w = elim (Bool-cases (to d)) [
    | inl e ↦ rw e (
        let step = route_to-counts alerts d w in
        let (d', w') = route_to c uuid4 silenced rows occ now alerts d w in
        let rest = route_all-counts to alerts ds w' in
        (omega (arith, step.0, rest.0), omega (arith, step.1, rest.1)))
    | inr e ↦ rw e (route_all-counts to alerts ds w)
  ]
