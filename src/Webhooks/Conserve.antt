-- ===== src/Webhooks/Conserve.antt =====
-- What a routing sweep of backend/app/webhooks.py accounts for.
use aira_agent.Base.{
  ℕ, ◌+◌, ◌*◌, String, List, [], ◌∷◌, true, ◌≡◌, arith, length, length-append, tally, if◌then◌else◌,
  Bool-cases, if_split, inl, inr,
}
use aira_agent.Incidents.Row.{Alert}
use aira_agent.Webhooks.Row.{Settings, Webhooks}
use aira_agent.Webhooks.Occurrences.{begin_occurring, distinct_signals}
use aira_agent.Webhooks.Routing.{
  Routing, Counts, sweep_routes, commit_routes, route_alerts_detailed, takes_alerts, no_counts,
}
use aira_agent.Webhooks.Added.{total, route_all-counts}

module _ (c : Settings) (uuid4 : ℕ → String) (silenced : List String) where
  -- With webhooks enabled, a sweep of `route_alerts_detailed` counts each pair of an alert and an enabled
  -- destination that takes alerts exactly once, as routed, suppressed, skipped or silenced; and the
  -- table grows by as many deliveries as are counted as routed if the new signals among the alerts
  -- are distinct, and by none if they are not.
  pub sweep_counts_all :
      (alerts : List Alert) (s : Webhooks)
      → c.webhooks_enabled ≡ true
      → (total (route_alerts_detailed c uuid4 silenced alerts s).0
          ≡ tally takes_alerts s.destinations * length alerts)
        × (length (route_alerts_detailed c uuid4 silenced alerts s).1.deliveries
            ≡ length s.deliveries
              + (if distinct_signals (begin_occurring c alerts s).added
                  then (route_alerts_detailed c uuid4 silenced alerts s).0.routed
                  else 0))
  unfolding route_alerts_detailed commit_routes sweep_routes
  sweep_counts_all [] s on = (omega arith, ground arith)
  sweep_counts_all (a ∷ alerts) s on =
      let start : Routing = record { added = []; draws = s.draws; counts = no_counts } in
      let counts =
        route_all-counts c uuid4 silenced s.deliveries (begin_occurring c (a ∷ alerts) s).occ s.now
          takes_alerts (a ∷ alerts) s.destinations start in
      if_split {A = Counts × Webhooks}
        (λ t.
          (total t.0 ≡ tally takes_alerts s.destinations * length (a ∷ alerts))
          × (length t.1.deliveries
              ≡ length s.deliveries
                + (if distinct_signals (begin_occurring c (a ∷ alerts) s).added
                    then t.0.routed
                    else 0)))
        c.webhooks_enabled _ (no_counts, s) (λ _. (omega (arith, counts.0), grown counts.1))
        (λ off. absurd (cc (on, off)))
    where
      grown :
          length (sweep_routes c uuid4 silenced (a ∷ alerts) s).1.added + 0
            ≡ 0 + (sweep_routes c uuid4 silenced (a ∷ alerts) s).1.counts.routed
          → length
              (commit_routes c uuid4
                (begin_occurring c (a ∷ alerts) s)
                (sweep_routes c uuid4 silenced (a ∷ alerts) s)
                s).1.deliveries
            ≡ length s.deliveries
              + (if distinct_signals (begin_occurring c (a ∷ alerts) s).added
                  then (sweep_routes c uuid4 silenced (a ∷ alerts) s).1.counts.routed
                  else 0)
      grown h = elim (Bool-cases (distinct_signals (begin_occurring c (a ∷ alerts) s).added)) [
        | inl e ↦ rw e (
            omega (
              arith,
              h,
              length-append s.deliveries (sweep_routes c uuid4 silenced (a ∷ alerts) s).1.added,
            ))
        | inr e ↦ rw e (omega arith)
      ]
