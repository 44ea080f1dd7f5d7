-- ===== src/ExecutionQueue/Drain.antt =====
-- The invariants that `drain` of backend/app/execution_queue.py keeps, and why it stops.
use mathlib.Core.Path.{subst}
use aira_agent.Base.{
  ℕ, suc, zero, ◌+◌, ◌≤◌, ◌<◌, String, ◌≡◌, ◌≢◌, refl, Option, none, some, not, ◌&&◌, arith, ◌⊎◌,
  inl, inr, if_both, Option-cases, ltb,
}
use aira_agent.JobPolicy.{Settings}
use aira_agent.ExecutionQueue.Job.{
  ExecutionJob, NewJob, Value, JobView, Queue, get_row, get_raw, is_cancelled,
}
use aira_agent.ExecutionQueue.Enqueue.{enqueue, retry, replay}
use aira_agent.ExecutionQueue.Claim.{claim, claim_picked, guarded_update, select_next}
use aira_agent.ExecutionQueue.Cancel.{transition, request_cancel}
use aira_agent.ExecutionQueue.Worker.{
  HandlerOutcome, returned, raised_canceled, raised, Handler, Handlers, handler_for, Run, idle,
  crashed, ran, and_then, report, finish_canceled, finish_failed, finish_completed, requeue,
  after_handler, call_handler, run_claimed, run_once, Drained, drained, drain_crashed, one_more,
  after_round, drain, max_attempts,
}
use aira_agent.ExecutionQueue.Lifecycle.{
  Reach, here, Linked, Reach-Linked, AllBounded, Reach-AllBounded,
}
use aira_agent.ExecutionQueue.Refine.{
  enqueue-Reach, retry-Reach, replay-Reach, claim_picked-Reach, request_cancel-Reach,
  transition-Reach,
}
use aira_agent.ExecutionQueue.Runs.{
  AreHandlers, IsClaimed, claim_picked-IsClaimed, run_claimed-Reach, run_once-Reach, drain-Reach,
}
use aira_agent.ExecutionQueue.Dedup.{IsDeduped, Reach-IsDeduped}
use aira_agent.ExecutionQueue.Status.{Status, queued}

-- The queue after a `transition`, which an exception leaves as it was.
abbrev pub or_same : Option Queue → Queue → Queue
or_same none q = q
or_same (some q') q = q'

-- With handlers that change the table by lifecycle steps and leave their own job in place, every
-- operation of the queue, on every branch, is a sequence of lifecycle steps: what it does to the
-- table is insertions of fresh work, starts of queued jobs, and status writes that leave a terminal
-- status alone. The arguments are whatever they may be, but for a `transition` to queued, which is
-- asked of a job with attempts left.
pub operations-Reach :
    (s : Settings) (hs : Handlers) (q : Queue) (id : String) (status : Status)
    (ok : AreHandlers s hs)
    (room : (r : ExecutionJob)
      → get_row id q ≡ some r
      → status ≡ queued
      → r.attempts < max_attempts s)
    → ((a : NewJob) (new_id : String) → Reach s q (enqueue a new_id q).1)
      × ((owner id new_id : String) → Reach s q (retry owner id new_id q).1)
      × ((id by new_id : String) → Reach s q (replay id by new_id q).1)
      × ((owner id : String) → Reach s q (request_cancel owner id q).1)
      × ((progress : Option String) (result : Option Value)
          → Reach s q (or_same (transition id status progress result q) q))
      × Reach s q (claim s q).1
      × Reach s q (run_once s hs q).1
      × ((left : ℕ) → Reach s q (drain s hs left q).1)
operations-Reach s hs q id status ok room = (
  λ a new_id. enqueue-Reach a new_id q,
  λ owner id new_id. retry-Reach owner id new_id q,
  λ id by new_id. replay-Reach id by new_id q,
  λ owner id. request_cancel-Reach owner id q,
  λ progress result. moved progress result (transition id status progress result q) refl,
  unfold claim in claim_picked-Reach (select_next s q.jobs) q,
  run_once-Reach hs q ok,
  λ left. drain-Reach hs left q ok,
)
  where
    moved :
        (progress : Option String) (result : Option Value) (o : Option Queue)
        → transition id status progress result q ≡ o
        → Reach s q (or_same o q)
    moved progress result none e = here
    moved progress result (some q') e = transition-Reach id status progress result q room e

-- With handlers that change the table by lifecycle steps and leave their own job in place, and a
-- table in which no job was started more often than the configured attempts and no two jobs are in
-- flight under one owner and key, a drain loses no job and changes none in what it is, leaves a job
-- that is over as it ended, and keeps both bounds.
pub drain_keeps :
    (s : Settings) (hs : Handlers) (left : ℕ) (q : Queue)
    → AreHandlers s hs
    → AllBounded s q
    → IsDeduped q
    → Linked q (drain s hs left q).1
      × AllBounded s (drain s hs left q).1
      × IsDeduped (drain s hs left q).1
drain_keeps s hs left q ok bounded deduped =
    let r = drain-Reach {s = s} hs left q ok in
    (Reach-Linked q r, Reach-AllBounded s q _ r bounded, Reach-IsDeduped r deduped)

-- A run is reported as the row of its job, unless an exception leaves it.
abbrev Reports : JobView → Run × Queue → Type 0
Reports v p = (p.0 ≡ crashed) ⊎ (p.0 ≡ ran (get_raw v.id p.1))

settled-Reports :
    (v : JobView) (o : Option Queue) (q : Queue) (rest : Queue → Run × Queue)
    → ((t : Queue) → (rest t).0 ≡ ran (get_raw v.id (rest t).1))
    → Reports v (and_then o q rest)
unfolding and_then
settled-Reports v none q rest h = inl refl
settled-Reports v (some t) q rest h = inr (h t)

module _ (v : JobView) (q : Queue) where
  canceled-Reports : Reports v (finish_canceled v q)
  unfolding finish_canceled report
  canceled-Reports = settled-Reports v _ q _ (λ t. refl)

  failed-Reports :
      (progress : String) (result : Value) (name : String)
      → Reports v (finish_failed v progress result name q)
  unfolding finish_failed report
  failed-Reports progress result name = settled-Reports v _ q _ (λ t. refl)

  completed-Reports : (result : Value) → Reports v (finish_completed v result q)
  unfolding finish_completed report
  completed-Reports result = settled-Reports v _ q _ (λ t. refl)

  requeued-Reports : Reports v (requeue v q)
  unfolding requeue report
  requeued-Reports = settled-Reports v _ q _ (λ t. refl)

  after_handler-Reports :
      (s : Settings) (end : HandlerOutcome) → Reports v (after_handler s v end q)
  unfolding after_handler
  after_handler-Reports s raised_canceled = canceled-Reports
  after_handler-Reports s (raised name message) =
      if_both (Reports v) (ltb v.attempts (max_attempts s) && not (is_cancelled v.id q)) _ _
        requeued-Reports
        (if_both (Reports v) (is_cancelled v.id q) _ _ canceled-Reports (failed-Reports _ _ _))
  after_handler-Reports s (returned result) =
      if_both (Reports v) (is_cancelled v.id q) _ _ canceled-Reports (completed-Reports result)

call_handler-Reports :
    (s : Settings) (o : Option Handler) (v : JobView) (q : Queue) → Reports v (call_handler s o v q)
unfolding call_handler
call_handler-Reports s none v q = failed-Reports v q _ _ _
call_handler-Reports s (some h) v q = after_handler-Reports v (h v q).1 s (h v q).0

claimed_found :
    {s : Settings} (v : JobView) (q q' : Queue)
    → IsClaimed v q
    → Reach s q q'
    → get_raw v.id q' ≢ none
claimed_found v q q' c r e =
    let (row, found, _) = Reach-Linked q r v.id c.row c.found in
    unfold get_raw in cc (rw found at e)

run_claimed-Reports :
    (s : Settings) (hs : Handlers) (v : JobView) (q : Queue)
    → Reports v (run_claimed s hs (some v) q)
unfolding run_claimed
run_claimed-Reports s hs v q =
    if_both (Reports v) (is_cancelled v.id q) _ _ (canceled-Reports v q)
      (call_handler-Reports s (handler_for v.kind hs) v q)

-- A job that was claimed is still there when its run ends: `run_once` never reports None for it.
run_claimed-ne-lost :
    (s : Settings) (hs : Handlers) (v : JobView) (q : Queue)
    → AreHandlers s hs
    → IsClaimed v q
    → (run_claimed s hs (some v) q).0 ≢ ran none
run_claimed-ne-lost s hs v q ok c e = elim (run_claimed-Reports s hs v q) [
  | inl f ↦ cc
  | inr f ↦
      claimed_found v q (run_claimed s hs (some v) q).1 c
        (run_claimed-Reach hs (some v) q ok
          (λ w e1. let same : v ≡ w = cc in subst (λ z. IsClaimed z q) same c))
        (cc)
]

run_claimed-ne-idle :
    (s : Settings) (hs : Handlers) (v : JobView) (q : Queue)
    → (run_claimed s hs (some v) q).0 ≢ idle
run_claimed-ne-idle s hs v q e = elim (run_claimed-Reports s hs v q) [ inl f ↦ cc | inr f ↦ cc ]

claim_none :
    (o : Option ExecutionJob) (q : Queue) → (claim_picked o q).0 ≡ none → (claim_picked o q).1 ≡ q
unfolding claim_picked
claim_none none q h = refl
claim_none (some row) q h = go (get_row row.id q) h
  where
    go :
        (o : Option ExecutionJob)
        → (guarded_update row.id o q).0 ≡ none
        → (guarded_update row.id o q).1 ≡ q
    go none h = unfold guarded_update in refl
    go (some r) h = unfold guarded_update in ground arith

-- What a run says about the claim that it began with.
run_once_ends :
    (s : Settings) (hs : Handlers) (q : Queue)
    → AreHandlers s hs
    → ((run_once s hs q).0 ≢ ran none)
      × ((run_once s hs q).0 ≡ idle → ((claim s q).0 ≡ none) × ((run_once s hs q).1 ≡ q))
run_once_ends s hs q ok = elim (Option-cases (claim s q).0) [
  | inl e ↦
      unfold run_once run_claimed in
      rw e (λ f. cc, λ _. (refl, unfold claim in claim_none (select_next s q.jobs) q e))
  | inr (v, e) ↦
      unfold run_once in
      rw e (
        run_claimed-ne-lost s hs v (claim s q).1 ok
            (unfold claim in claim_picked-IsClaimed (select_next s q.jobs) q v e),
        λ f. absurd (run_claimed-ne-idle s hs v (claim s q).1 f),
      )
]

after_round_stops :
    (s : Settings) (left n : ℕ) (run : Run) (q t : Queue) (rest : Drained × Queue)
    → run ≢ ran none
    → (run ≡ idle → ((claim s q).0 ≡ none) × (t ≡ q))
    → ((m : ℕ) → rest.0 ≡ drained m → (m ≤ left) × (m < left → (claim s rest.1).0 ≡ none))
    → (after_round run t rest).0 ≡ drained n
    → (n ≤ suc left) × (n < suc left → (claim s (after_round run t rest).1).0 ≡ none)
unfolding after_round
after_round_stops s left n idle q t rest lost free ih h =
    (ground arith, λ _. rw (free refl).1 (free refl).0)
after_round_stops s left n crashed q t rest lost free ih h = absurd (cc)
after_round_stops s left n (ran none) q t rest lost free ih h = absurd (lost refl)
after_round_stops s left n (ran (some job)) q t rest lost free ih h = go rest.0 refl h
  where
    go :
        (d : Drained)
        → rest.0 ≡ d
        → one_more d ≡ drained n
        → (n ≤ suc left) × (n < suc left → (claim s rest.1).0 ≡ none)
    go (drained m) e f =
        let same : m + 1 ≡ n = ground arith in
        (omega (arith, (ih m e).0), λ lt. (ih m e).1 (omega arith))
    go drain_crashed e f = absurd (cc)

-- With handlers that change the table by lifecycle steps and leave their own job in place, a
-- `drain` that no exception leaves runs at most `max_jobs` jobs, and where it runs fewer, the queue
-- has nothing left that a worker could claim.
pub drain_stops :
    (s : Settings) (hs : Handlers) (left n : ℕ) (q : Queue)
    → AreHandlers s hs
    → (drain s hs left q).0 ≡ drained n
    → (n ≤ left) × (n < left → (claim s (drain s hs left q).1).0 ≡ none)
unfolding drain after_round
drain_stops s hs zero n q ok h = ground arith
drain_stops s hs (suc left) n q ok h =
    let (lost, free) = run_once_ends s hs q ok in
    after_round_stops s left n (run_once s hs q).0 q (run_once s hs q).1
      (drain s hs left (run_once s hs q).1) lost free
      (λ m. drain_stops s hs left m (run_once s hs q).1 ok) h
