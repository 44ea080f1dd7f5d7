-- ===== src/IncidentMetrics/Candidates.antt =====
-- The candidate alerts of backend/app/incident_metrics.py.
use aira_agent.Base.{
  ℕ, String, List, [], ◌∷◌, Bool, true, false, ◌≡◌, ◌≤◌, refl, arith, leb, All, All-append, tally,
  Bool-cases, inl, inr,
}
use aira_agent.Base.Order.{Ordered, All-sort_by, tally-sort_by, sort_by-Ordered}
use aira_agent.IncidentMetrics.{
  Code, repeated_auth_failures, repeated_validation_failures, drift_backlog, stale_readiness,
  reconciliation_failures, Candidate, severity_of, crossed, crossed_by, comes_before, Aggregates,
  found_alerts, candidate_alerts,
}

-- A count that has reached its threshold, with the severity that goes with it.
pub record IsCrossed (c : Candidate) : Type 0 where
  pub reached : c.threshold ≤ c.count
  pub graded : c.severity ≡ severity_of c.count c.threshold

crossed-IsCrossed :
    (code : Code) (subject : String) (threshold count : ℕ)
    → All IsCrossed (crossed code subject threshold count)
unfolding crossed
crossed-IsCrossed code subject threshold count = elim (Bool-cases (leb threshold count)) [
  | inl e ↦ rw e (record { reached = ground (arith, e); graded = refl }, tt)
  | inr e ↦ rw e tt
]

crossed_by-IsCrossed :
    (code : Code) (threshold : ℕ) (counts : List (String × ℕ))
    → All IsCrossed (crossed_by code threshold counts)
unfolding crossed_by
crossed_by-IsCrossed code threshold [] = tt
crossed_by-IsCrossed code threshold ((name, count) ∷ rest) =
    All-append IsCrossed (crossed code name threshold count) _
      (crossed-IsCrossed code name threshold count) (crossed_by-IsCrossed code threshold rest)

found_alerts-IsCrossed : (g : Aggregates) → All IsCrossed (found_alerts g)
unfolding found_alerts
found_alerts-IsCrossed g =
    All-append IsCrossed _ _
      (crossed_by-IsCrossed repeated_auth_failures 3 g.auth_failures_by_target)
      (All-append IsCrossed _ _
        (crossed_by-IsCrossed repeated_validation_failures 3 g.validation_failures_by_target)
        (All-append IsCrossed _ _
          (crossed-IsCrossed drift_backlog "incident-sync" 5 g.drift_backlog)
          (All-append IsCrossed _ _
            (crossed-IsCrossed stale_readiness "incident-sync" 3 g.stale_count)
            (crossed-IsCrossed reconciliation_failures "incident-sync" 5 g.recon_failures_24h))))

before_total : (x y : Candidate) → comes_before x y ≡ false → comes_before y x ≡ true
unfolding comes_before
before_total x y h = ground (arith, h)

before_trans :
    (x y z : Candidate)
    → comes_before x y ≡ true
    → comes_before y z ≡ true
    → comes_before x z ≡ true
unfolding comes_before
before_trans x y z h k = ground (arith, h, k)

-- The candidate alerts are those found, each on a count that has reached its threshold and critical
-- exactly from twice the threshold on; the critical ones come first, and higher counts before lower.
pub candidate_alerts_exact :
    (g : Aggregates)
    → All IsCrossed (candidate_alerts g)
      × Ordered comes_before (candidate_alerts g)
      × ((q : Candidate → Bool) → tally q (candidate_alerts g) ≡ tally q (found_alerts g))
unfolding candidate_alerts
candidate_alerts_exact g = (
  All-sort_by IsCrossed comes_before (found_alerts g) (found_alerts-IsCrossed g),
  sort_by-Ordered comes_before before_total before_trans (found_alerts g),
  λ q. tally-sort_by q comes_before (found_alerts g),
)
