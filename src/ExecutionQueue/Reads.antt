-- ===== src/ExecutionQueue/Reads.antt =====
-- `recent` of backend/app/execution_queue.py, and what a scope sees by it.
use aira_agent.Base.{
  ℕ, ◌≤◌, String, Option, none, some, List, [], ◌∷◌, map, Bool, true, not, ◌≡◌, ◌&&◌, ◌||◌, ◌==◌,
  if◌then◌else◌, leb, keep, take, length, All, arith, Bool-cases, inl, inr,
}
use aira_agent.Base.Order.{
  sort_by, Ordered, sort_by-Ordered, All-sort_by, All-take, Ordered-take, length-take,
}
use aira_agent.ExecutionQueue.Status.{is_active}
use aira_agent.ExecutionQueue.Job.{ExecutionJob, JobDict, Queue, clean}

-- owner == o, and status IN active if asked
unfoldable pub visible : String → Bool → ExecutionJob → Bool
visible owner active_only r = r.owner == owner && (not active_only || is_active r.status)

-- ORDER BY created_at DESC
unfoldable pub latest : ExecutionJob → ExecutionJob → Bool
latest a b = leb b.created_at a.created_at

unfoldable pub recent_jobs : String → ℕ → Bool → Queue → List ExecutionJob
recent_jobs owner limit active_only q =
    take limit (sort_by latest (keep (visible owner active_only) q.jobs))

unfoldable pub recent : Option String → ℕ → Bool → Queue → List JobDict
recent none limit active_only q = []
recent (some owner) limit active_only q =
    if owner == "" then [] else map clean (recent_jobs owner limit active_only q)

keep-All : (p : ExecutionJob → Bool) (rs : List ExecutionJob) → All (λ r. p r ≡ true) (keep p rs)
unfolding keep
keep-All p [] = tt
keep-All p (r ∷ rs) = elim (Bool-cases (p r)) [
  | inl e ↦ rw e (e, keep-All p rs)
  | inr e ↦ rw e (keep-All p rs)
]

-- The rows that `recent` shows are at most `limit`, are visible to the owner (its own, and active ones
-- only if asked), and come newest first.
pub recent_jobs_exact :
    (owner : String) (limit : ℕ) (active_only : Bool) (q : Queue)
    → (length (recent_jobs owner limit active_only q) ≤ limit)
      × All (λ r. visible owner active_only r ≡ true) (recent_jobs owner limit active_only q)
      × Ordered latest (recent_jobs owner limit active_only q)
unfolding recent_jobs
recent_jobs_exact owner limit active_only q =
    let rows = keep (visible owner active_only) q.jobs in
    (
      length-take limit (sort_by latest rows),
      All-take (λ r. visible owner active_only r ≡ true) limit _
          (All-sort_by (λ r. visible owner active_only r ≡ true) latest rows
            (keep-All (visible owner active_only) q.jobs)),
      Ordered-take latest limit _ (
          sort_by-Ordered latest (λ x y. unfold latest in ground arith)
            (λ x y z. unfold latest in ground arith) rows),
    )
