-- ===== src/ExecutionQueue/Refine.antt =====
-- Every operation of backend/app/execution_queue.py is a sequence of the steps of `Lifecycle`.
use Prim.Native.String.{◌++◌ as append}
use aira_agent.Base.{
  ℕ, ◌<◌, String, ◌≡◌, ◌≢◌, refl, Option, none, some, false, not, ◌&&◌, ◌||◌, arith, ◌==◌, eq_iff,
  inl, inr, if_both, if_split, Bool-cases,
}
use mathlib.Core.Path.{subst}
use aira_agent.JobPolicy.{Settings}
use aira_agent.ExecutionQueue.Status.{
  Status, queued, cancel_requested, is_terminal, is_queued, is_retryable, same_status,
  same_status_iff, is_queued_iff,
}
use aira_agent.ExecutionQueue.Job.{
  ExecutionJob, NewJob, Value, JobView, Queue, Signal, claimed_event, canceled_event,
  canceled_activity, retry_activity, get_row, emit,
}
use aira_agent.ExecutionQueue.Enqueue.{
  enqueue, existing_job, enqueue_row, new_row, insert_row, enqueue_clone, enqueue_clone_row,
  clone_row, RetryReply, retry, retry_found, replay, replay_found, replay_key, in_flight_job,
}
use aira_agent.ExecutionQueue.Claim.{claim_picked, guarded_update}
use aira_agent.ExecutionQueue.Cancel.{
  transition, transition_row, set_row, write_row, request_cancel, cancel_row, cancel_owned,
  cancel_queued, ask_cancel, encode, CancelReply,
}
use aira_agent.ExecutionQueue.Worker.{max_attempts}
use aira_agent.ExecutionQueue.Lifecycle.{
  SameJob, Moves, Step, quiet, insert, start, move, Reach, here, next,
}

-- With a key the query for work in flight is the one that `existing_job` made.
in_flight_none :
    (a : NewJob) (q : Queue) (key : String)
    → a.dedup_key ≡ some key
    → key ≢ ""
    → existing_job a q ≡ none
    → in_flight_job a.owner key q ≡ none
unfolding existing_job
in_flight_none a q key k full e = ground (arith, eq_iff key "")

SameJob-set_row :
    (status : Status) (progress : Option String) (result : Option Value) (now : ℕ)
    (r : ExecutionJob)
    → SameJob r (set_row status progress result now r)
unfolding set_row
SameJob-set_row status progress result now r = ground arith

SameJob-cancel_queued : (now : ℕ) (r : ExecutionJob) → SameJob r (cancel_queued now r)
unfolding cancel_queued
SameJob-cancel_queued now r = ground arith

SameJob-ask_cancel : (now : ℕ) (r : ExecutionJob) → SameJob r (ask_cancel now r)
unfolding ask_cancel
SameJob-ask_cancel now r = ground arith

Moves-live :
    {s : Settings} (r r' : ExecutionJob)
    → is_terminal r.status ≡ false
    → r'.attempts ≡ r.attempts
    → r'.status ≢ queued
    → Moves s r r'
Moves-live r r' live same off = record {
  attempts = same;
  terminal = λ over. cc;
  requeued = λ e. absurd (off e);
}

module _ {s : Settings} where
  one : {q q' : Queue} → Step s q q' → Reach s q q'
  one st = next here st

  pub Reach-emit : {q t : Queue} (x : Signal) → Reach s q t → Reach s q (emit x t)
  unfolding emit
  Reach-emit x r = next r (quiet refl)

  insert_row-Reach :
      (r : ExecutionJob) (q : Queue)
      → r.status ≡ queued
      → r.attempts ≡ 0
      → ((key : String) → r.dedup_key ≡ some key → key ≢ "" → in_flight_job r.owner key q ≡ none)
      → Reach s q (insert_row r q)
  unfolding insert_row
  insert_row-Reach r q idle fresh alone = one (insert r idle fresh alone refl)

  write_row-Reach :
      (id : String) (r : ExecutionJob) (f : ExecutionJob → ExecutionJob) (q : Queue)
      → get_row id q ≡ some r
      → ((x : ExecutionJob) → SameJob x (f x))
      → Moves s r (f r)
      → Reach s q (write_row id f q)
  unfolding write_row
  write_row-Reach id r f q at same moves = one (move id r f at same moves refl)

  enqueue_row-Reach :
      (o : Option ExecutionJob) (a : NewJob) (id : String) (q : Queue)
      → existing_job a q ≡ o
      → Reach s q (enqueue_row o a id q).1
  unfolding enqueue_row new_row
  enqueue_row-Reach (some x) a id q e = here
  enqueue_row-Reach none a id q e = Reach-emit _ (
      insert_row-Reach (new_row a id q.now) q refl refl
        (λ key k full. in_flight_none a q key k full e))

  pub enqueue-Reach : (a : NewJob) (id : String) (q : Queue) → Reach s q (enqueue a id q).1
  unfolding enqueue
  enqueue-Reach a id q = elim (Bool-cases (a.owner == "" || a.kind == "")) [
    | inl e ↦ rw e here
    | inr e ↦ rw e (enqueue_row-Reach (existing_job a q) a id q refl)
  ]

  enqueue_clone-Reach :
      (parent : ExecutionJob) (origin key id : String) (q : Queue)
      → Reach s q (enqueue_clone parent origin key id q).1
  unfolding enqueue_clone clone_row
  enqueue_clone-Reach parent origin key id q = go (in_flight_job parent.owner key q) refl
    where
      go :
          (o : Option ExecutionJob)
          → in_flight_job parent.owner key q ≡ o
          → Reach s q (enqueue_clone_row o parent origin key id q).1
      go (some x) e = here
      go none e = Reach-emit _ (
          insert_row-Reach (clone_row parent origin key id q.now) q refl refl
            (λ key1 k _. let same : key1 ≡ key = cc in rw same e))

  pub retry-Reach : (owner id new_id : String) (q : Queue) → Reach s q (retry owner id new_id q).1
  unfolding retry
  retry-Reach owner id new_id q = go (get_row id q)
    where
      go : (o : Option ExecutionJob) → Reach s q (retry_found o owner id new_id q).1
      go none = here
      go (some r) =
          if_both (λ (p : RetryReply × Queue). Reach s q p.1) (r.owner == owner) _ _
            (if_both (λ (p : RetryReply × Queue). Reach s q p.1) (is_retryable r.status) _ _
              (Reach-emit (retry_activity owner r.actor_account_id r.title)
                (enqueue_clone-Reach r "retry" (append "retry:" id) new_id q))
              here)
            here

  pub claim_picked-Reach :
      (row : Option ExecutionJob) (q : Queue) → Reach s q (claim_picked row q).1
  unfolding claim_picked
  claim_picked-Reach none q = here
  claim_picked-Reach (some row) q = go (get_row row.id q) refl
    where
      go :
          (o : Option ExecutionJob) → get_row row.id q ≡ o → Reach s q (guarded_update row.id o q).1
      go none e = here
      go (some r) e =
          if_split (λ (p : Option JobView × Queue). Reach s q p.1) (is_queued r.status) _ _
            (λ idle.
              Reach-emit (claimed_event r.owner row.id r.kind)
                (one (start row.id r q.now e ((is_queued_iff r.status).0 idle) refl)))
            (λ _. here)

  at_result : {q t u : Queue} → some t ≡ some u → Reach s q t → Reach s q u
  at_result {q} {t} {u} e = let same : t ≡ u = cc in subst (Reach s q) same

  write_status :
      (id : String) (r : ExecutionJob) (status : Status) (progress : Option String)
      (text : Option Value) (q : Queue)
      → get_row id q ≡ some r
      → (is_terminal r.status && not (same_status status r.status)) ≡ false
      → (status ≡ queued → r.attempts < max_attempts s)
      → Reach s q (write_row id (set_row status progress text q.now) q)
  write_status id r status progress text q at open_guard room =
      write_row-Reach id r (set_row status progress text q.now) q at
        (SameJob-set_row status progress text q.now)
        (unfold set_row in
          record {
            attempts = refl;
            terminal = λ over. (same_status_iff status r.status).0 (ground arith);
            requeued = room;
          })

  written :
      (r : ExecutionJob) (id : String) (status : Status) (progress : Option String)
      (result : Option Value) (q : Queue) {q' : Queue}
      → get_row id q ≡ some r
      → (status ≡ queued → r.attempts < max_attempts s)
      → (is_terminal r.status && not (same_status status r.status)) ≡ false
      → (v : Option (Option Value)) → encode result ≡ v
      → transition_row (some r) id status progress result q ≡ some q'
      → Reach s q q'
  unfolding transition_row
  written r id status progress result q at room g none ve h = cc (rw (g, ve) at h)
  written r id status progress result q at room g (some text) ve h =
      at_result (rw (g, ve) at h) (write_status id r status progress text q at g room)

  -- A status change that the guard of `transition` lets through, or stops, is at most one step.
  pub transition-Reach :
      (id : String) (status : Status) (progress : Option String) (result : Option Value) (q : Queue)
      {q' : Queue}
      → ((r : ExecutionJob) → get_row id q ≡ some r → status ≡ queued → r.attempts < max_attempts s)
      → transition id status progress result q ≡ some q'
      → Reach s q q'
  unfolding transition transition_row
  transition-Reach id status progress result q {q'} room = go (get_row id q) refl
    where
      go :
          (o : Option ExecutionJob)
          → get_row id q ≡ o
          → transition_row o id status progress result q ≡ some q'
          → Reach s q q'
      go none e h = at_result h here
      go (some r) e h =
          elim (Bool-cases (is_terminal r.status && not (same_status status r.status))) [
            | inl g ↦ at_result (rw g at h) here
            | inr g ↦ written r id status progress result q e (room r e) g (encode result) refl h
          ]

  cancel_owned-Reach :
      (r : ExecutionJob) (owner id : String) (q : Queue)
      → get_row id q ≡ some r
      → Reach s q (cancel_owned r owner id q).1
  unfolding cancel_owned cancel_queued ask_cancel
  cancel_owned-Reach r owner id q e =
      if_split (λ (p : CancelReply × Queue). Reach s q p.1) (is_terminal r.status) _ _ (λ _. here)
        λ live.
          if_both (λ (p : CancelReply × Queue). Reach s q p.1)
            (same_status r.status cancel_requested) _ _ here
            (if_both (λ (p : CancelReply × Queue). Reach s q p.1) (is_queued r.status) _ _
              (Reach-emit (canceled_event owner id r.kind) (
                Reach-emit (canceled_activity owner r.actor_account_id r.title) (
                  write_row-Reach id r (cancel_queued q.now) q e (SameJob-cancel_queued q.now)
                    (Moves-live r (cancel_queued q.now r) live refl (λ c. cc)))))
              (write_row-Reach id r (ask_cancel q.now) q e (SameJob-ask_cancel q.now)
                (Moves-live r (ask_cancel q.now r) live refl (λ c. cc))))

  pub request_cancel-Reach :
      (owner id : String) (q : Queue) → Reach s q (request_cancel owner id q).1
  unfolding request_cancel
  request_cancel-Reach owner id q = go (get_row id q) refl
    where
      go : (o : Option ExecutionJob) → get_row id q ≡ o → Reach s q (cancel_row o owner id q).1
      go none e = here
      go (some r) e =
          if_both (λ (p : CancelReply × Queue). Reach s q p.1) (r.owner == owner) _ _
            (cancel_owned-Reach r owner id q e) here

  pub replay-Reach :
      (id requested_by new_id : String) (q : Queue) → Reach s q (replay id requested_by new_id q).1
  unfolding replay
  replay-Reach id requested_by new_id q = go (get_row id q)
    where
      go : (o : Option ExecutionJob) → Reach s q (replay_found o id requested_by new_id q).1
      go none = here
      go (some r) = enqueue_clone-Reach r "replay" (replay_key id requested_by) new_id q
