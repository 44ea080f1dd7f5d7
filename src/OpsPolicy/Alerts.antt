-- ===== src/OpsPolicy/Alerts.antt =====
-- What `health` counts and what `alerts` returns in backend/app/ops_policy.py.
use mathlib.Core.Logic.{◌↔◌}
use aira_agent.Base.{
  ℕ, suc, ◌+◌, ◌≤◌, ◌<◌, String, Option, none, some, List, [], ◌∷◌, map, Bool, true, ◌≡◌, ◌&&◌,
  arith, if◌then◌else◌, refl, Bool-cases, inl, inr, keep, tally, tally-append, All, All-append,
  length, take, eq_iff, ◌==◌, ◌∙◌, ap, ltb,
}
use aira_agent.Base.Order.{
  sort_by, Ordered, sort_by-Ordered, All-sort_by, tally-sort_by, length-take,
}
use aira_agent.JobPolicy.{Settings, Counts, bump, count_of}
use aira_agent.JobPolicy.Counts.{count_of-bump}
use aira_agent.ExecutionQueue.Status.{is_queued}
use aira_agent.ExecutionQueue.Job.{ExecutionJob}
use aira_agent.OpsPolicy.Classify.{
  HealthClass, backlog_pressure, SloPolicy, JobHealth, classify_job,
}
use aira_agent.OpsPolicy.Health.{
  Backlog, OpsAlert, alerts, alerts_of, health, classifications, children_of, newer, watched,
  recent_rows, backlog, backlog_of, queued_by_class, group_into, same_class, summarize,
  summarize_backlog, class_text, job_alert, backlog_alert, is_alerting, sooner,
}

abbrev pub IsAlerting : OpsAlert → Type 0
IsAlerting a = is_alerting a.severity ≡ true

jobs-IsAlerting :
    (cs : List JobHealth)
    → All IsAlerting (map job_alert (keep (λ c. is_alerting c.verdict.severity) cs))
unfolding keep job_alert
jobs-IsAlerting [] = tt
jobs-IsAlerting (c ∷ cs) = elim (Bool-cases (is_alerting c.verdict.severity)) [
  | inl e ↦ rw e (e, jobs-IsAlerting cs)
  | inr e ↦ rw e (jobs-IsAlerting cs)
]

backlog-IsAlerting :
    (p : SloPolicy) (groups : List (Option String × ℕ))
    → All IsAlerting (map backlog_alert (backlog_of p groups))
unfolding backlog_of backlog_alert
backlog-IsAlerting p [] = tt
backlog-IsAlerting p ((c, n) ∷ groups) = elim (Bool-cases (ltb p.backlog_threshold n)) [
  | inl e ↦ rw e (ground arith, backlog-IsAlerting p groups)
  | inr e ↦ rw e (backlog-IsAlerting p groups)
]

tally-jobs :
    (q : OpsAlert → Bool) (cs : List JobHealth)
    → tally q (map job_alert (keep (λ c. is_alerting c.verdict.severity) cs))
      ≡ tally (λ c. is_alerting c.verdict.severity && q (job_alert c)) cs
unfolding tally keep
tally-jobs q [] = refl
tally-jobs q (c ∷ cs) = ground (arith, tally-jobs q cs)

tally-backlog :
    (q : OpsAlert → Bool) (bs : List Backlog)
    → tally q (map backlog_alert bs) ≡ tally (λ b. q (backlog_alert b)) bs
unfolding tally
tally-backlog q [] = refl
tally-backlog q (b ∷ bs) = ground (arith, tally-backlog q bs)

-- The alerts are all warnings or critical, the critical ones come first, and whatever is asked of an
-- alert, as many alerts have it as do those of the jobs classified as alerting and those of the
-- classes under pressure together: none is lost, invented or repeated.
pub alerts_exact :
    (s : Settings) (json_error : String → Option String) (p : SloPolicy) (now limit : ℕ)
    (jobs : List ExecutionJob)
    → All IsAlerting (alerts s json_error p now limit jobs)
      × Ordered sooner (alerts s json_error p now limit jobs)
      × ((q : OpsAlert → Bool)
          → tally q (alerts s json_error p now limit jobs)
            ≡ tally
                (λ c. is_alerting c.verdict.severity && q (job_alert c))
                (health s json_error p now limit jobs).classifications
              + tally (λ b. q (backlog_alert b)) (health s json_error p now limit jobs).backlog)
unfolding alerts alerts_of health backlog
alerts_exact s json_error p now limit jobs =
    let cs = classifications s json_error p now limit jobs in
    let bs = backlog_of p (queued_by_class jobs) in
    (
      All-sort_by IsAlerting sooner _ (
          All-append IsAlerting _ _ (jobs-IsAlerting cs)
            (backlog-IsAlerting p (queued_by_class jobs))),
      sort_by-Ordered sooner (λ x y. unfold sooner in ground arith)
          (λ x y z. unfold sooner in ground arith) _,
      λ q.
          tally-sort_by q sooner _
          ∙ tally-append q (map job_alert (keep (λ c. is_alerting c.verdict.severity) cs))
              (map backlog_alert bs)
          ∙ rw (tally-jobs q cs, tally-backlog q bs) refl,
    )

abbrev pub same_health : HealthClass → HealthClass → Bool
same_health a b = class_text a == class_text b

count-summarize :
    (k : HealthClass) (cs : List JobHealth) (m : Counts)
    → count_of (class_text k) (summarize cs m)
      ≡ tally (λ c. same_health c.verdict.classification k) cs + count_of (class_text k) m
unfolding summarize tally
count-summarize k [] m = omega arith
count-summarize k (c ∷ cs) m = ground (
  arith,
  count-summarize k cs (bump (class_text c.verdict.classification) m),
  count_of-bump (class_text c.verdict.classification) (class_text k) m,
)

count-summarize_backlog :
    (k : HealthClass) (bs : List Backlog) (m : Counts)
    → count_of (class_text k) (summarize_backlog bs m)
      ≡ (if same_health backlog_pressure k then length bs else 0) + count_of (class_text k) m
unfolding summarize_backlog
count-summarize_backlog k [] m = ground arith
count-summarize_backlog k (b ∷ bs) m = ground (
  arith,
  count-summarize_backlog k bs (bump "backlog_pressure" m),
  count_of-bump "backlog_pressure" (class_text k) m,
)

length-map {ℓ κ} :
    {A : Type ℓ} {B : Type κ} (f : A → B) (xs : List A) → length (map f xs) ≡ length xs
length-map f [] = refl
length-map f (x ∷ xs) = ap suc (length-map f xs)

-- how many rows a group holds
unfoldable pub group_count : Option String → List (Option String × ℕ) → ℕ
group_count c [] = 0
group_count c ((d, n) ∷ groups) = if same_class d c then n else group_count c groups

-- The summary counts the verdicts of each class and, for the backlog, the classes under pressure; and
-- no more rows are classified than the limit.
pub summary_exact :
    (s : Settings) (json_error : String → Option String) (p : SloPolicy) (now limit : ℕ)
    (jobs : List ExecutionJob) (k : HealthClass)
    → (count_of (class_text k) (health s json_error p now limit jobs).summary
        ≡ tally
            (λ c. same_health c.verdict.classification k)
            (health s json_error p now limit jobs).classifications
          + (if same_health backlog_pressure k
              then length (health s json_error p now limit jobs).backlog
              else 0))
      × (length (health s json_error p now limit jobs).classifications ≤ limit)
unfolding health count_of
summary_exact s json_error p now limit jobs k =
    let cs = classifications s json_error p now limit jobs in
    let bs = backlog p jobs in
    (
      omega (arith, count-summarize_backlog k bs (summarize cs []), count-summarize k cs []),
      unfold classifications recent_rows in
          omega (
            arith,
            length-map (λ row. classify_job s json_error row now (children_of jobs row) p)
                (take limit (sort_by newer (keep watched jobs))),
            length-take limit (sort_by newer (keep watched jobs)),
          ),
    )

same_class_iff : (a b : Option String) → (same_class a b ≡ true) ↔ (a ≡ b)
same_class_iff none none = ground arith
same_class_iff none (some b) = ground arith
same_class_iff (some a) none = ground arith
same_class_iff (some a) (some b) = ground (arith, eq_iff a b)

count-group_into :
    (c d : Option String) (groups : List (Option String × ℕ))
    → group_count c (group_into d groups)
      ≡ (if same_class d c then suc (group_count c groups) else group_count c groups)
unfolding group_count group_into
count-group_into c d [] = ground arith
count-group_into c d ((e, n) ∷ groups) =
    ground (
      arith,
      same_class_iff e d,
      same_class_iff e c,
      same_class_iff d c,
      count-group_into c d groups,
    )

unfoldable pub queued_of : Option String → ExecutionJob → Bool
queued_of c r = is_queued r.status && same_class r.exec_class c

abbrev pub IsPressed : SloPolicy → Backlog → Type 0
IsPressed p b = p.backlog_threshold < b.queued

pressed :
    (p : SloPolicy) (groups : List (Option String × ℕ)) → All (IsPressed p) (backlog_of p groups)
unfolding backlog_of
pressed p [] = tt
pressed p ((c, n) ∷ groups) = elim (Bool-cases (ltb p.backlog_threshold n)) [
  | inl e ↦ rw e (ground arith, pressed p groups)
  | inr e ↦ rw e (pressed p groups)
]

groups_count :
    (c : Option String) (jobs : List ExecutionJob)
    → group_count c (queued_by_class jobs) ≡ tally (queued_of c) jobs
unfolding queued_by_class tally queued_of
groups_count c [] = unfold group_count in refl
groups_count c (r ∷ jobs) =
    ground (arith, groups_count c jobs, count-group_into c r.exec_class (queued_by_class jobs))

-- The groups of the backlog count, for each execution class and for none, the queued jobs of that
-- class, and every class that is reported as under pressure has more queued jobs than the threshold.
pub backlog_exact :
    (p : SloPolicy) (jobs : List ExecutionJob)
    → ((c : Option String) → group_count c (queued_by_class jobs) ≡ tally (queued_of c) jobs)
      × All (IsPressed p) (backlog p jobs)
unfolding backlog
backlog_exact p jobs = (λ c. groups_count c jobs, pressed p (queued_by_class jobs))
