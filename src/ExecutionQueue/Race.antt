-- ===== src/ExecutionQueue/Race.antt =====
-- Races of backend/app/execution_queue.py: two workers that picked the same row, and a cancel
-- request that meets the write of a status.
use mathlib.Core.Path.{subst}
use aira_agent.Base.{
  ℕ, suc, zero, ◌≤◌, String, ◌≡◌, refl, sym, ap, ◌∙◌, Option, none, some, true, false, arith, inl,
  inr, Option-cases,
}
use aira_agent.Base.Table.{find-key}
use aira_agent.ExecutionQueue.Status.{Status, is_queued, is_terminal, is_cancel, is_interruptible}
use aira_agent.ExecutionQueue.Job.{
  ExecutionJob, JobView, Queue, job_id, get_row, is_cancelled, view_of,
}
use aira_agent.ExecutionQueue.Claim.{claim_picked, guarded_update, start_row}
use aira_agent.ExecutionQueue.Cancel.{
  transition, encode, set_row, write_row, request_cancel, ask_cancel,
}
use aira_agent.ExecutionQueue.Writes.{get_row-write_row, transition_writes, request_cancel_busy}
use aira_agent.ExecutionQueue.Runs.{claim_picked-IsClaimed}
use aira_agent.ExecutionQueue.Lifecycle.{at_row}

-- The guarded UPDATE on a row that is not queued any more changes nothing and wins nothing.
pub claim_lost :
    (row : ExecutionJob) (q : Queue)
    → ((r : ExecutionJob) → get_row row.id q ≡ some r → is_queued r.status ≡ false)
    → claim_picked (some row) q ≡ (none, q)
unfolding claim_picked
claim_lost row q off = go (get_row row.id q) refl
  where
    go : (o : Option ExecutionJob) → get_row row.id q ≡ o → guarded_update row.id o q ≡ (none, q)
    go none e = unfold guarded_update in refl
    go (some r) e = unfold guarded_update in rw (off r e) refl

guarded_update-id :
    (id : String) (o : Option ExecutionJob) (q : Queue) (v : JobView)
    → get_row id q ≡ o
    → (guarded_update id o q).0 ≡ some v
    → v.id ≡ id
unfolding guarded_update get_row view_of start_row
guarded_update-id id none q v at h = cc
guarded_update-id id (some r) q v at h = ground (arith, find-key job_id id q.jobs {r = r} at)

claimed_id :
    (row : ExecutionJob) (q : Queue) (v : JobView)
    → (claim_picked (some row) q).0 ≡ some v
    → v.id ≡ row.id
unfolding claim_picked
claimed_id row q v = guarded_update-id row.id (get_row row.id q) q v refl

claimed_off_queue :
    (row : ExecutionJob) (q : Queue) (v : JobView)
    → (claim_picked (some row) q).0 ≡ some v
    → (r : ExecutionJob) → get_row row.id (claim_picked (some row) q).1 ≡ some r
    → is_queued r.status ≡ false
claimed_off_queue row q v won r g =
    let c = claim_picked-IsClaimed (some row) q v won in
    let f : get_row row.id (claim_picked (some row) q).1 ≡ some c.row =
      subst (λ k. get_row k (claim_picked (some row) q).1 ≡ some c.row) (claimed_id row q v won)
        c.found in
    at_row (λ x. is_queued x.status ≡ false) f g
      (subst (λ st. is_queued st ≡ false) (sym c.status) (unfold is_queued in refl))

-- How many of `n` workers that picked the same row win it, when their UPDATEs reach the table one
-- after another.
unfoldable pub winners : ℕ → ExecutionJob → Queue → ℕ
winners zero row q = 0
winners (suc n) row q =
    let rest = winners n row (claim_picked (some row) q).1 in
    elim (claim_picked (some row) q).0 [ none ↦ rest | some v ↦ suc rest ]

losers :
    (n : ℕ) (row : ExecutionJob) (q : Queue)
    → ((r : ExecutionJob) → get_row row.id q ≡ some r → is_queued r.status ≡ false)
    → winners n row q ≡ 0
unfolding winners
losers zero row q off = refl
losers (suc n) row q off =
    let lost = claim_lost row q off in
    rw (ap (λ (p : Option JobView × Queue). p.0) lost, winners)
      (subst (λ (p : Option JobView × Queue). winners n row p.1 ≡ 0) (sym lost)
        (losers n row q off))

-- However many workers have picked the same row, at most one of them wins it, in whatever state the
-- table is that their UPDATEs reach one after another.
pub winners-le_one : (n : ℕ) (row : ExecutionJob) (q : Queue) → winners n row q ≤ 1
unfolding winners
winners-le_one zero row q = omega arith
winners-le_one (suc n) row q = elim (Option-cases (claim_picked (some row) q).0) [
  | inl e ↦ rw (e, winners) (winners-le_one n row (claim_picked (some row) q).1)
  | inr (v, e) ↦
      rw (e, winners)
        (omega (arith, losers n row (claim_picked (some row) q).1 (claimed_off_queue row q v e)))
]

pub is_cancelled_row :
    (id : String) (q : Queue) (r : ExecutionJob)
    → get_row id q ≡ some r
    → is_cancelled id q ≡ is_cancel r.status
unfolding is_cancelled
is_cancelled_row id q r at = rw at refl

module _ (owner id : String) (q : Queue) (r : ExecutionJob) (at : get_row id q ≡ some r)
    (mine : r.owner ≡ owner) (busy : is_interruptible r.status ≡ true) where
  asked : get_row id (write_row id (ask_cancel q.now) q) ≡ some (ask_cancel q.now r)
  asked = get_row-write_row id (ask_cancel q.now) q (λ x. unfold ask_cancel in refl) at

  overwritten :
      (status : Status) (progress : Option String)
      → get_row id
          (write_row id (set_row status progress none q.now) (write_row id (ask_cancel q.now) q))
        ≡ some (set_row status progress none q.now (ask_cancel q.now r))
  overwritten status progress =
      get_row-write_row id (set_row status progress none q.now) (write_row id (ask_cancel q.now) q)
        (λ x. unfold set_row in refl) asked

  -- If a job is running, validating, repairing or awaiting approval and its owner asks to cancel
  -- it, then the request is on record, but a `transition` of the job to any status that is not a
  -- cancel succeeds and erases it, so the checkpoints that follow do not see it.
  pub lost_cancel :
      (status : Status) (progress : Option String)
      → is_cancel status ≡ false
      → (is_cancelled id (request_cancel owner id q).1 ≡ true)
        × (q2 : Queue) × (transition id status progress none (request_cancel owner id q).1
            ≡ some q2)
        × (is_cancelled id q2 ≡ false)
  unfolding write_row
  lost_cancel status progress plain = rw (request_cancel_busy owner id q r at mine busy) (
    is_cancelled_row id _ _ asked ∙ (unfold ask_cancel is_cancel in refl),
    _,
    transition_writes id status progress none none (write_row id (ask_cancel q.now) q) _ asked
        (unfold ask_cancel is_terminal in refl) (unfold encode in refl),
    is_cancelled_row id _ _ (overwritten status progress) ∙ (unfold set_row in plain),
  )
