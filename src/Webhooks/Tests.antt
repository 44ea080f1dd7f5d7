-- ===== src/Webhooks/Tests.antt =====
-- The theorems on backend/app/webhooks.py at the destinations and deliveries of Samples.
use mathlib.Core.List.{Memᴰ}
use aira_agent.Base.{
  zero, suc, ◌+◌, ◌*◌, ◌≤◌, ◌↔◌, String, none, some, [], ◌∷◌, true, false, ◌≡◌, refl, arith, All,
  any, leb, length, tally, keep, ◌==◌, Bool-cases, inl, inr, if◌then◌else◌, ◌<◌,
}
use aira_agent.Base.Int.{pos, at_least}
use aira_agent.Base.Table.{find, update}
use aira_agent.Base.Order.{sort_by}
use aira_agent.Base.Distinct.{Distinct, apart}
use aira_agent.JobPolicy.{contains}
use aira_agent.Webhooks.Row.{
  pending, delivered, Settings, Webhooks, Delivery, delivery_id, in_cooldown,
  effective_max_attempts, adapter_for,
}
use aira_agent.Webhooks.Destinations.{list_destinations, destination_policy}
use aira_agent.Webhooks.Configure.{is_subscription, is_severity, is_kind, is_from}
use aira_agent.Webhooks.Occurrences.{begin_occurring, distinct_signals}
use aira_agent.Webhooks.Routing.{route_alerts_detailed, takes_alerts}
use aira_agent.Webhooks.Preview.{routing_preview}
use aira_agent.Webhooks.Delivery.{
  budget_of, deliver_one, Delivered, Transport, snapshot_of, pending_rows, deliver_pending,
  on_delivery_success, pending_row, post, deliver_sent, finish_found, finish, ending, attempted,
  ended_destination,
}
use aira_agent.Webhooks.Redrive.{
  in_flight, clean_delivery, redriven_row, redrive, child_of, children, redrive_cap,
  dead_letter_state,
}
use aira_agent.Webhooks.Reads.{analytics, cutoff}
use aira_agent.Webhooks.Health.{destination_health}
use aira_agent.Webhooks.Added.{total}
use aira_agent.Webhooks.Conserve.{sweep_counts_all}
use aira_agent.Webhooks.Lost.{lost_sweep_reported}
use aira_agent.Webhooks.Ledger.{Reach, Step}
use aira_agent.Webhooks.Lineage.{redrives_of, redrives-bounded}
use aira_agent.Webhooks.Settle.{AtMostLeft, runs, runs_settle}
use aira_agent.Webhooks.Stale.{stale_attempt_reopens}
use aira_agent.Webhooks.Cooldown.{fail_at, cooldown_exact}
use aira_agent.Webhooks.Recover.{Answers, dead_letter_state-Answers, redrive_again}
use aira_agent.Webhooks.Configuration.{IsConfigured}
use aira_agent.Webhooks.Configured.{destinations-IsConfigured}
use aira_agent.Webhooks.Secrets.{reseal, reads_hide_secrets}
use aira_agent.Webhooks.Totals.{Agrees, size, analytics-Agrees}
use aira_agent.Webhooks.Samples.{
  settings, uuid4, hook, stuck, backlog, lost, waiting, service, down,
}

sweep_counts_all_example :
    (total (route_alerts_detailed settings uuid4 [] (stuck ∷ backlog ∷ []) service).0
      ≡ tally takes_alerts service.destinations * 2)
    × (length (route_alerts_detailed settings uuid4 [] (stuck ∷ backlog ∷ []) service).1.deliveries
        ≡ 3
          + (if distinct_signals (begin_occurring settings (stuck ∷ backlog ∷ []) service).added
              then (route_alerts_detailed settings uuid4 [] (stuck ∷ backlog ∷ []) service).0.routed
              else 0))
sweep_counts_all_example = sweep_counts_all settings uuid4 [] (stuck ∷ backlog ∷ []) service refl

redrives-bounded_example :
    redrives_of "w1" (redrive settings uuid4 "w1" service).1 ≤ redrive_cap settings
redrives-bounded_example =
    redrives-bounded settings uuid4 "w1" {s = service} {t = (redrive settings uuid4 "w1" service).1}
      (Reach.next (Step.redrives "w1") Reach.done)
      (unfold redrives_of redrive_cap tally child_of in omega arith)

runs_settle_example : tally pending_row (runs settings down 5 1 service).deliveries ≡ 0
runs_settle_example =
    runs_settle settings down 5 0 service
      (unfold Distinct in
        (
          (apart "w1" "w2" refl, (apart "w1" "w3" refl, tt)),
          ((apart "w2" "w3" refl, tt), (tt, tt)),
        ))
      (unfold tally in omega arith)
      (unfold AtMostLeft find budget_of effective_max_attempts adapter_for in
        (λ e. omega arith, (λ e. omega arith, (λ e. omega arith, tt))))

-- A transport that gets through once.
abbrev flaky : Transport
flaky zero url body secret = record { ok = true; code = some 200; error = none }
flaky (suc n) url body secret = record { ok = false; code = some 503; error = some "HTTP503" }

abbrev three : Settings
three = record settings { webhook_max_attempts = pos 3 }

abbrev nothing : Delivered
nothing = record { delivered = 0; failed = 0; retried = 0 }

-- The store after an attempt of a worker that has read the waiting delivery.
abbrev attempt_of_waiting : Webhooks → Webhooks
attempt_of_waiting s = (deliver_one three flaky (snapshot_of waiting) (nothing, s)).1

few_pending : tally pending_row (attempt_of_waiting (attempt_of_waiting service)).deliveries ≤ 5
unfolding tally deliver_one deliver_sent finish_found finish ending attempted find update post
    snapshot_of ended_destination on_delivery_success budget_of effective_max_attempts adapter_for
few_pending = omega arith

stale_attempt_reopens_example :
    ((q : Delivery) × (find delivery_id "w2" (attempt_of_waiting service).deliveries ≡ some q)
      × (q.status ≡ delivered))
    × ((q : Delivery) × (find delivery_id "w2"
            (attempt_of_waiting (attempt_of_waiting service)).deliveries
          ≡ some q)
        × (q.status ≡ pending)
        × (q.attempts ≡ 2)
        × Memᴰ (snapshot_of q) (pending_rows 5 (attempt_of_waiting (attempt_of_waiting service))))
unfolding snapshot_of
stale_attempt_reopens_example =
    stale_attempt_reopens three flaky (snapshot_of waiting) nothing nothing 5 service waiting hook
      (unfold find in refl) (unfold find in refl) (unfold post in refl) (unfold post in refl)
      (unfold budget_of effective_max_attempts adapter_for in omega arith) few_pending

cooldown_exact_example :
    (in_cooldown (fail_at settings (10 ∷ 7 ∷ []) (on_delivery_success hook)).cooldown_until 20
      ≡ true)
    ↔ (at_least 1 (pos 2) ≤ 2) × (20 < 10 + 600 * 1000000)
cooldown_exact_example = cooldown_exact settings hook 599 refl 10 (7 ∷ []) 20

dead_letter_state-Answers_example :
    Answers "w1" lost
      (dead_letter_state settings (keep (child_of "w1") service.deliveries))
      service
      (redrive settings uuid4 "w1" service)
dead_letter_state-Answers_example =
    dead_letter_state-Answers settings uuid4 "w1" service lost (unfold find in refl) refl

redrive_again_example : redrive settings uuid4 "w1" (redrive settings uuid4 "w1" service).1 ≡ (
  in_flight (clean_delivery false (redriven_row "u0" "w1" 10 lost)),
  (redrive settings uuid4 "w1" service).1,
)
redrive_again_example =
    redrive_again settings uuid4 "w1" service lost (unfold find in refl) refl
      (unfold children keep child_of sort_by any in refl)
      (unfold children keep child_of sort_by redrive_cap in refl)

destinations-IsConfigured_example :
    All IsConfigured (deliver_pending settings down 5 service).1.destinations
destinations-IsConfigured_example =
    destinations-IsConfigured settings uuid4 {s = service}
      {t = (deliver_pending settings down 5 service).1}
      (Reach.next (Step.delivers down 5) Reach.done)
      (unfold IsConfigured is_subscription is_severity is_kind is_from contains in
        ((refl, refl, refl, refl, refl, refl), ((refl, refl, refl, refl, refl, refl), tt)))

-- another secret that is empty exactly if the first is
abbrev other_secret : String → String
other_secret x = if x == "" then x else "hidden"

other_secret-empty : (x : String) → (other_secret x == "") ≡ (x == "")
other_secret-empty x = elim (Bool-cases (x == "")) [ inl e ↦ rw e e | inr e ↦ rw e refl ]

reads_hide_secrets_example :
    (list_destinations settings (reseal other_secret service) ≡ list_destinations settings service)
    × (destination_policy settings "d1" (reseal other_secret service)
        ≡ destination_policy settings "d1" service)
    × (routing_preview settings "d1" (stuck ∷ []) (reseal other_secret service)
        ≡ routing_preview settings "d1" (stuck ∷ []) service)
    × (destination_health (reseal other_secret service) ≡ destination_health service)
reads_hide_secrets_example =
    reads_hide_secrets other_secret other_secret-empty settings service "d1" (stuck ∷ [])

analytics-Agrees_example :
    Agrees (λ b. b.delivered) (analytics (pos 60) service).summary
    × Agrees (λ b. b.failed) (analytics (pos 60) service).summary
    × Agrees (λ b. b.pending) (analytics (pos 60) service).summary
    × ((analytics (pos 60) service).summary.totals.attempted
        ≡ size (analytics (pos 60) service).summary.totals.statuses)
    × ((analytics (pos 60) service).summary.totals.attempted
        ≡ tally (λ r. leb (cutoff (pos 60) 10) r.created_at) service.deliveries)
analytics-Agrees_example = analytics-Agrees (pos 60) service

lost_sweep_reported_example :
    ((route_alerts_detailed settings uuid4 [] (backlog ∷ backlog ∷ []) service).1 ≡ record service {
      draws = (route_alerts_detailed settings uuid4 [] (backlog ∷ backlog ∷ []) service).1.draws;
    })
    × (total (route_alerts_detailed settings uuid4 [] (backlog ∷ backlog ∷ []) service).0
        ≡ tally takes_alerts service.destinations * 2)
lost_sweep_reported_example =
    lost_sweep_reported settings uuid4 [] backlog backlog [] service refl refl (unfold find in refl)
