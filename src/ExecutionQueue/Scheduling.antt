-- ===== src/ExecutionQueue/Scheduling.antt =====
-- What `claim` of backend/app/execution_queue.py picks, against the rows themselves.
use mathlib.Core.List.{Memᴰ}
use aira_agent.Base.{
  ℕ, ◌+◌, ◌<◌, ◌≤◌, ◌⊎◌, String, ◌≡◌, refl, none, some, List, ◌∷◌, [], Bool, true, false, ◌&&◌,
  arith, ◌==◌, inl, inr, then_value, Option-cases, tally, keep, best, All,
}
use aira_agent.Base.Query.{
  All-mem, All-keep, All-map, mem-keep, best-mem, best-least, best-none, tally-keep, keep-nil,
}
use aira_agent.Base.Table.{find, update}
use aira_agent.JobPolicy.{Settings, Counts, count_of, bump}
use aira_agent.JobPolicy.Counts.{count_of-bump}
use aira_agent.ExecutionQueue.Status.{is_queued}
use aira_agent.ExecutionQueue.Job.{ExecutionJob, JobView, Queue, job_id, get_row, emit, view_of}
use aira_agent.ExecutionQueue.Claim.{
  occupies, class_key, owner_key, count_from, class_counts, owner_counts, eligible,
  scheduled_before, select_next, start_row, guarded_update, claim_picked, claim,
}

-- The counting loop agrees with a count of the rows that have the key.
count_of-count_from :
    (key : ExecutionJob → String) (k : String) (rows : List ExecutionJob) (m : Counts)
    → count_of k (count_from key rows m) ≡ count_of k m + tally (λ r. key r == k) rows
unfolding count_from tally
count_of-count_from key k [] m = omega arith
count_of-count_from key k (r ∷ rows) m =
    ground (arith, count_of-count_from key k rows (bump (key r) m), count_of-bump (key r) k m)

-- How many rows occupy a slot of a class, and of an owner.
abbrev pub in_class : String → ExecutionJob → Bool
in_class name r = occupies r && class_key r == name

abbrev pub of_owner : String → ExecutionJob → Bool
of_owner owner r = occupies r && owner_key r == owner

unfoldable pub class_load : String → List ExecutionJob → ℕ
class_load name rows = tally (in_class name) rows

unfoldable pub owner_load : String → List ExecutionJob → ℕ
owner_load owner rows = tally (of_owner owner) rows

-- The dictionaries of counts that `claim` fills hold, at every key, how many of the rows that
-- occupy a worker have that class, or that owner.
pub counts_exact :
    (k : String) (rows : List ExecutionJob)
    → (count_of k (class_counts rows) ≡ class_load k rows)
      × (count_of k (owner_counts rows) ≡ owner_load k rows)
unfolding class_counts owner_counts class_load owner_load count_of
counts_exact k rows = (
  omega (
    arith,
    count_of-count_from class_key k (keep occupies rows) [],
    tally-keep (λ r. class_key r == k) occupies rows,
  ),
  omega (
    arith,
    count_of-count_from owner_key k (keep occupies rows) [],
    tally-keep (λ r. owner_key r == k) occupies rows,
  ),
)

scheduled_total : (a b : ExecutionJob) → scheduled_before a b ≡ false → scheduled_before b a ≡ true
unfolding scheduled_before
scheduled_total a b h = ground arith

scheduled_trans :
    (a b c : ExecutionJob)
    → scheduled_before a b ≡ true
    → scheduled_before b c ≡ true
    → scheduled_before a c ≡ true
unfolding scheduled_before
scheduled_trans a b c p q = ground arith

-- Every row is the one that its id finds.
abbrev pub IsKeyed : List ExecutionJob → Type 0
IsKeyed rows = All (λ r. find job_id r.id rows ≡ some r) rows

-- A job of higher priority comes first, and of two of one priority the one created earlier.
abbrev pub ComesFirst : ExecutionJob → ExecutionJob → Type 0
ComesFirst r x =
    (x.priority < r.priority) ⊎ (x.priority ≡ r.priority) × (r.created_at ≤ x.created_at)

scheduled_before-ComesFirst :
    (r : ExecutionJob) (xs : List ExecutionJob)
    → All (λ x. scheduled_before r x ≡ true) xs
    → All (ComesFirst r) xs
scheduled_before-ComesFirst r xs =
    All-map (λ x. scheduled_before r x ≡ true) (ComesFirst r) xs
      λ x h. unfold scheduled_before in ground arith

-- What the scheduler may hand out next: a row that no other eligible row comes before.
pub record IsNext (s : Settings) (rows : List ExecutionJob) (r : ExecutionJob) : Type 0 where
  pub listed : Memᴰ r rows
  pub eligible_row : eligible s rows r ≡ true
  pub first_of_all : All (λ x. eligible s rows x ≡ true → ComesFirst r x) rows

pub select_next-IsNext :
    (s : Settings) (rows : List ExecutionJob) (r : ExecutionJob)
    → s.queue_scheduling_enabled ≡ true
    → select_next s rows ≡ some r
    → IsNext s rows r
unfolding select_next
select_next-IsNext s rows r on h =
    let picked : best scheduled_before (keep (eligible s rows) rows) ≡ some r =
      then_value s.queue_scheduling_enabled _ _ on h in
    let (m, e) = mem-keep (eligible s rows) rows (best-mem scheduled_before _ picked) in
    record {
      listed = m;
      eligible_row = e;
      first_of_all = All-keep (ComesFirst r) (eligible s rows) rows (
          scheduled_before-ComesFirst r _
            (best-least scheduled_before scheduled_total scheduled_trans _ r picked));
    }

-- A picked row that the table still holds as it was is claimed.
claim_held :
    (s : Settings) (q : Queue) (r : ExecutionJob)
    → select_next s q.jobs ≡ some r
    → get_row r.id q ≡ some r
    → is_queued r.status ≡ true
    → ((claim s q).0 ≡ some (view_of (start_row q.now r)))
      × ((claim s q).1.jobs ≡ update job_id r.id (start_row q.now) q.jobs)
unfolding claim claim_picked guarded_update emit
claim_held s q r picked at idle = rw picked (rw at (rw idle (refl, refl)))

eligible_queued :
    (s : Settings) (rows : List ExecutionJob) (r : ExecutionJob)
    → eligible s rows r ≡ true
    → is_queued r.status ≡ true
unfolding eligible
eligible_queued s rows r h = ground arith

module _ (s : Settings) (q : Queue) (on : s.queue_scheduling_enabled ≡ true)
    (keyed : IsKeyed q.jobs) where
  pub picked_held :
      (r : ExecutionJob)
      → select_next s q.jobs ≡ some r
      → ((claim s q).0 ≡ some (view_of (start_row q.now r)))
        × ((claim s q).1.jobs ≡ update job_id r.id (start_row q.now) q.jobs)
  picked_held r picked =
      let n = select_next-IsNext s q.jobs r on picked in
      claim_held s q r picked
        (unfold get_row in All-mem (λ x. find job_id x.id q.jobs ≡ some x) q.jobs keyed n.listed)
        (eligible_queued s q.jobs r n.eligible_row)

  -- With scheduling on, in a table where every row is the one its id finds, a claim that hands out
  -- a job hands out an eligible row that no other eligible row comes before in the order of
  -- priority and age, and it starts that row and changes no other.
  pub claim-IsNext :
      (v : JobView)
      → (claim s q).0 ≡ some v
      → (r : ExecutionJob) × IsNext s q.jobs r
        × (v ≡ view_of (start_row q.now r))
        × ((claim s q).1.jobs ≡ update job_id r.id (start_row q.now) q.jobs)
  claim-IsNext v h = elim (Option-cases (select_next s q.jobs)) [
    | inl e ↦ absurd (unfold claim claim_picked in cc (rw e at h))
    | inr (r, e) ↦
        (let (won, rows) = picked_held r e in (r, select_next-IsNext s q.jobs r on e, cc, rows))
  ]

  -- With scheduling on, in a table where every row is the one its id finds, a claim that hands out
  -- nothing found no eligible row: eligible work is never passed over.
  pub claim_idle : (claim s q).0 ≡ none → All (λ x. eligible s q.jobs x ≡ false) q.jobs
  claim_idle h = elim (Option-cases (select_next s q.jobs)) [
    | inl e ↦ keep-nil (eligible s q.jobs) q.jobs (
        best-none scheduled_before _
          (unfold select_next in then_value s.queue_scheduling_enabled _ _ on e))
    | inr (r, e) ↦ absurd (cc (picked_held r e).0)
  ]
