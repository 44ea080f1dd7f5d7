-- ===== src/Webhooks/Secrets.antt =====
-- What the reads of backend/app/webhooks.py show of a destination's secret.
use mathlib.Core.Option
use aira_agent.Base.{
  ℕ, String, Option, none, some, List, [], ◌∷◌, map, ◌≡◌, refl, ap, ◌∙◌, arith, not, ◌==◌, truthy,
  Option-cases, inl, inr,
}
use aira_agent.Base.Table.{find}
use aira_agent.Base.Order.{sort_by, insert_by}
use aira_agent.Incidents.Row.{Alert}
use aira_agent.Webhooks.Row.{
  Webhooks, Settings, Destination, destination_id, adapter_for, effective_max_attempts, in_cooldown,
}
use aira_agent.Webhooks.Destinations.{
  clean_destination, list_destinations, destination_policy, policy_of, created_later,
}
use aira_agent.Webhooks.Preview.{preview, preview_of, routing_preview}
use aira_agent.Webhooks.Decision.{alert_routing_decision}
use aira_agent.Webhooks.Health.{destination_health, health_of, classify}
use aira_agent.Webhooks.Routing.{window_of}

-- The rows with other secrets: each secret is replaced by what `f` makes of it.
unfoldable pub resealed : (String → String) → Destination → Destination
resealed f d = record d { secret = elim d.secret [ none ↦ none | some x ↦ some (f x) ] }

unfoldable pub reseal : (String → String) → Webhooks → Webhooks
reseal f s = record s { destinations = map (resealed f) s.destinations }

module _ (f : String → String) (seals : (x : String) → (f x == "") ≡ (x == "")) where
  truthy-resealed :
      (o : Option String) → truthy (elim o [ none ↦ none | some x ↦ some (f x) ]) ≡ truthy o
  truthy-resealed none = refl
  truthy-resealed (some x) = ap not (seals x)

  clean_resealed :
      (c : Settings) (now : ℕ) (d : Destination)
      → clean_destination c now (resealed f d) ≡ clean_destination c now d
  unfolding clean_destination resealed
  clean_resealed c now d =
      ap (λ b. record (clean_destination c now d) { has_secret = b }) (truthy-resealed d.secret)

  find-resealed :
      (id : String) (ds : List Destination)
      → find destination_id id (map (resealed f) ds)
        ≡ (elim (find destination_id id ds) [ none ↦ none | some d ↦ some (resealed f d) ])
  unfolding find resealed
  find-resealed id [] = refl
  find-resealed id (d ∷ ds) = ground (arith, find-resealed id ds)

  insert_by-resealed :
      (d : Destination) (ds : List Destination)
      → insert_by created_later (resealed f d) (map (resealed f) ds)
        ≡ map (resealed f) (insert_by created_later d ds)
  unfolding insert_by resealed
  insert_by-resealed d [] = refl
  insert_by-resealed d (e ∷ ds) = ground (arith, insert_by-resealed d ds)

  sort_by-resealed :
      (ds : List Destination)
      → sort_by created_later (map (resealed f) ds) ≡ map (resealed f) (sort_by created_later ds)
  unfolding sort_by
  sort_by-resealed [] = refl
  sort_by-resealed (d ∷ ds) =
      ap (insert_by created_later (resealed f d)) (sort_by-resealed ds)
      ∙ insert_by-resealed d (sort_by created_later ds)

  map-same {ℓ} :
      {A : Type ℓ} (g : Destination → A) (ds : List Destination)
      → ((d : Destination) → g (resealed f d) ≡ g d)
      → map g (map (resealed f) ds) ≡ map g ds
  map-same g [] same = refl
  map-same g (d ∷ ds) same = rw (same d, map-same g ds same) refl

  at_resealed {ℓ} :
      {A : Type ℓ} (g h : Destination → A) (id : String) (ds : List Destination)
      → ((d : Destination) → g (resealed f d) ≡ h d)
      → Option.map g (find destination_id id (map (resealed f) ds))
        ≡ Option.map h (find destination_id id ds)
  at_resealed g h id ds same =
      ap (Option.map g) (find-resealed id ds) ∙ (elim (Option-cases (find destination_id id ds)) [
        | inl e ↦ rw e refl
        | inr (d, e) ↦ rw e (ap some (same d))
      ])

  preview-resealed :
      (c : Settings) (s : Webhooks) (d : Destination) (alerts : List Alert)
      → map (preview c (reseal f s) (resealed f d)) alerts ≡ map (preview c s d) alerts
  unfolding preview resealed reseal alert_routing_decision
  preview-resealed c s d [] = refl
  preview-resealed c s d (a ∷ alerts) = rw (preview-resealed c s d alerts) refl

  policy_resealed :
      (c : Settings) (d : Destination)
      → (window_of c (resealed f d) ≡ window_of c d)
        × ((resealed f d).subscription ≡ d.subscription)
  unfolding resealed
  policy_resealed c d = (refl, refl)

  preview_of-resealed :
      (c : Settings) (s : Webhooks) (alerts : List Alert) (d : Destination)
      → preview_of c alerts (reseal f s) (resealed f d) ≡ preview_of c alerts s d
  unfolding preview_of clean_destination resealed adapter_for effective_max_attempts in_cooldown
      reseal
  preview_of-resealed c s alerts d =
      rw
        (
          clean_resealed c s.now d,
          (policy_resealed c d).0,
          (policy_resealed c d).1,
          preview-resealed c s d alerts,
        )
        (unfold reseal in refl)

  -- No read tells one secret from another: if every secret is replaced by another that is empty exactly
  -- if the first is, the list of the destinations, the policy, the routing preview and the health of
  -- each stay as they are.
  pub reads_hide_secrets :
      (c : Settings) (s : Webhooks) (id : String) (alerts : List Alert)
      → (list_destinations c (reseal f s) ≡ list_destinations c s)
        × (destination_policy c id (reseal f s) ≡ destination_policy c id s)
        × (routing_preview c id alerts (reseal f s) ≡ routing_preview c id alerts s)
        × (destination_health (reseal f s) ≡ destination_health s)
  unfolding reseal list_destinations destination_policy routing_preview destination_health health_of
  reads_hide_secrets c s id alerts = (
    ap (map (clean_destination c s.now)) (sort_by-resealed s.destinations)
        ∙ map-same (clean_destination c s.now) (sort_by created_later s.destinations)
            (clean_resealed c s.now),
    at_resealed _ _ id s.destinations (λ d. unfold policy_of resealed in refl),
    at_resealed _ _ id s.destinations (preview_of-resealed c s alerts),
    ap (map (health_of (reseal f s))) (sort_by-resealed s.destinations)
        ∙ map-same (health_of s) (sort_by created_later s.destinations)
            (λ d. unfold resealed classify in refl),
  )
