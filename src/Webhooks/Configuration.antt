-- ===== src/Webhooks/Configuration.antt =====
-- A destination of backend/app/webhooks.py with a valid configuration, and what one call does to it.
use aira_agent.Base.{
  ℕ, String, Option, none, some, List, [], ◌∷◌, Bool, true, false, ◌≡◌, refl, arith, All, if_both,
  Bool-cases, inl, inr,
}
use aira_agent.Incidents.Row.{Alert}
use aira_agent.Webhooks.Row.{Settings, Delivery, Destination, Event}
use aira_agent.Webhooks.Decision.{Action, route, suppress, skip}
use aira_agent.Webhooks.Configure.{
  NewDestination, Change, is_accepted, new_destination, change, changed, is_subscription,
  is_severity, is_kind, is_from, valid_or_none,
}
use aira_agent.Webhooks.Routing.{
  Routing, act, route_alert, route_each, route_to, route_all, takes_events,
}
use aira_agent.Webhooks.Preview.{Queued, queue_to, queue_all, takes_event}
use aira_agent.Webhooks.Row.{in_cooldown}
use aira_agent.Webhooks.Delivery.{
  Ending, ended_destination, on_delivery_success, on_delivery_failure, delivers, fails, retries,
}

-- The configuration that `create_destination` accepts, its name and url apart.
unfoldable pub IsConfigured : Destination → Type 0
IsConfigured d =
    (is_subscription d.subscription ≡ true)
    × (is_severity d.min_severity ≡ true)
    × (is_kind d.kind ≡ true)
    × (is_from 0 d.suppress_seconds ≡ true)
    × (is_from 1 d.escalate_after ≡ true)
    × (is_from 1 d.max_attempts ≡ true)

pub new_destination-IsConfigured :
    (n : NewDestination) (id : String) (now : ℕ)
    → is_accepted n ≡ true
    → IsConfigured (new_destination n id now)
unfolding IsConfigured new_destination is_accepted
new_destination-IsConfigured n id now h =
    (ground arith, ground arith, ground arith, ground arith, ground arith, ground arith)

-- A predicate on a result, if there is one.
unfoldable pub OrNone : (Destination → Type 0) → Option Destination → Type 0
OrNone P none = Unit
OrNone P (some d) = P d

valid-OrNone :
    (P : Destination → Type 0) (b : Bool) (d : Destination)
    → (b ≡ true → P d)
    → OrNone P (valid_or_none b d)
unfolding OrNone
valid-OrNone P true d f = f refl
valid-OrNone P false d f = tt

change-IsConfigured :
    (x : Change) (d : Destination) → IsConfigured d → OrNone IsConfigured (change x d)
unfolding change OrNone IsConfigured
change-IsConfigured (Change.name x) d h = h
change-IsConfigured (Change.url x) d h = h
change-IsConfigured (Change.kind x) d h =
    valid-OrNone IsConfigured (is_kind x) _ (λ e. (h.0, h.1, e, h.3, h.4, h.5))
change-IsConfigured (Change.subscription x) d h =
    valid-OrNone IsConfigured (is_subscription x) _ (λ e. (e, h.1, h.2, h.3, h.4, h.5))
change-IsConfigured (Change.min_severity x) d h =
    valid-OrNone IsConfigured (is_severity x) _ (λ e. (h.0, e, h.2, h.3, h.4, h.5))
change-IsConfigured (Change.event_filter x) d h = h
change-IsConfigured (Change.alert_filter x) d h = h
change-IsConfigured (Change.origin_filter x) d h = h
change-IsConfigured (Change.secret x) d h = h
change-IsConfigured (Change.enabled x) d h = h
change-IsConfigured (Change.suppress_seconds x) d h =
    valid-OrNone IsConfigured (is_from 0 (some x)) _ (λ e. (h.0, h.1, h.2, e, h.4, h.5))
change-IsConfigured (Change.escalate_after x) d h =
    valid-OrNone IsConfigured (is_from 1 (some x)) _ (λ e. (h.0, h.1, h.2, h.3, e, h.5))
change-IsConfigured (Change.max_attempts x) d h =
    valid-OrNone IsConfigured (is_from 1 (some x)) _ (λ e. (h.0, h.1, h.2, h.3, h.4, e))
change-IsConfigured Change.skipped d h = h

pub changed-IsConfigured :
    (xs : List Change) (d : Destination) → IsConfigured d → OrNone IsConfigured (changed xs d)
unfolding changed
changed-IsConfigured [] d h = unfold OrNone in h
changed-IsConfigured (x ∷ xs) d h =
    continue (change x d) (change-IsConfigured x d h) (changed-IsConfigured xs)
  where
    continue :
        (o : Option Destination)
        → OrNone IsConfigured o
        → ((d' : Destination) → IsConfigured d' → OrNone IsConfigured (changed xs d'))
        → OrNone IsConfigured (elim o [ none ↦ none | some d' ↦ changed xs d' ])
    continue none k rest = unfold OrNone in tt
    continue (some d') k rest = rest d' (unfold OrNone in k)

act-IsConfigured :
    (uuid4 : ℕ → String) (x : Action) (now : ℕ) (a : Alert) (d : Destination) (w : Routing)
    → IsConfigured d
    → IsConfigured (act uuid4 x now a d w).0
unfolding act IsConfigured
act-IsConfigured uuid4 route now a d w h = h
act-IsConfigured uuid4 suppress now a d w h = h
act-IsConfigured uuid4 skip now a d w h = h

module _ (c : Settings) (uuid4 : ℕ → String) where
  module _ (silenced : List String) (rows : List Delivery) (occ : List (String × ℕ)) (now : ℕ) where
    route_each-IsConfigured :
        (alerts : List Alert) (d : Destination) (w : Routing)
        → IsConfigured d
        → IsConfigured (route_each c uuid4 silenced rows occ now alerts d w).0
    unfolding route_each route_alert
    route_each-IsConfigured [] d w h = h
    route_each-IsConfigured (a ∷ alerts) d w h = route_each-IsConfigured alerts _ _ (
        if_both {A = Destination × Routing} (λ t. IsConfigured t.0) _ _ _ h
          (act-IsConfigured uuid4 _ now a d w h))

    route_to-IsConfigured :
        (alerts : List Alert) (d : Destination) (w : Routing)
        → IsConfigured d
        → IsConfigured (route_to c uuid4 silenced rows occ now alerts d w).0
    unfolding route_to
    route_to-IsConfigured alerts d w h =
        if_both {A = Destination × Routing} (λ t. IsConfigured t.0)
          (in_cooldown d.cooldown_until now) (record d { stat_skipped = _ }, _) _
          (unfold IsConfigured in h) (route_each-IsConfigured alerts d w h)

    pub route_all-IsConfigured :
        (to : Destination → Bool) (alerts : List Alert) (ds : List Destination) (w : Routing)
        → All IsConfigured ds
        → All IsConfigured (route_all c uuid4 silenced rows occ now to alerts ds w).0
    unfolding route_all
    route_all-IsConfigured to alerts [] w h = tt
    route_all-IsConfigured to alerts (d ∷ ds) w h = (
      if_both {A = Destination × Routing} (λ t. IsConfigured t.0) (to d)
          (route_to c uuid4 silenced rows occ now alerts d w) (d, w)
          (route_to-IsConfigured alerts d w h.0) h.0,
      route_all-IsConfigured to alerts ds _ h.1,
    )

  queue_to-IsConfigured :
      (now : ℕ) (e : Event) (d : Destination) (w : Queued)
      → IsConfigured d
      → IsConfigured (queue_to uuid4 now e d w).0
  unfolding queue_to IsConfigured
  queue_to-IsConfigured now e d w h = elim (Bool-cases (in_cooldown d.cooldown_until now)) [
    | inl q ↦ rw q h
    | inr q ↦ rw q (
        if_both {A = Destination × Queued} (λ t. IsConfigured t.0) (takes_event d e) (d, _) (d, w) h
          h)
  ]

  pub queue_all-IsConfigured :
      (now : ℕ) (e : Event) (ds : List Destination) (w : Queued)
      → All IsConfigured ds
      → All IsConfigured (queue_all uuid4 now e ds w).0
  unfolding queue_all
  queue_all-IsConfigured now e [] w h = tt
  queue_all-IsConfigured now e (d ∷ ds) w h = (
    if_both {A = Destination × Queued} (λ t. IsConfigured t.0) (takes_events d)
        (queue_to uuid4 now e d w) (d, w) (queue_to-IsConfigured now e d w h.0) h.0,
    queue_all-IsConfigured now e ds _ h.1,
  )

  pub ended-IsConfigured :
      (now : ℕ) (e : Ending) (d : Destination)
      → IsConfigured d
      → IsConfigured (ended_destination c now e d)
  unfolding ended_destination on_delivery_success on_delivery_failure IsConfigured
  ended-IsConfigured now delivers d h = h
  ended-IsConfigured now fails d h = h
  ended-IsConfigured now retries d h = h
