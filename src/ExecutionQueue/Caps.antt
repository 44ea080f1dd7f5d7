-- ===== src/ExecutionQueue/Caps.antt =====
-- A claim of backend/app/execution_queue.py takes no class over its cap and no owner over their share.
use mathlib.Core.List.{Memᴰ}
use mathlib.Core.Path.{subst}
use aira_agent.Base.{
  ℕ, ◌≤◌, ◌<◌, String, ◌≡◌, refl, some, List, Bool, true, false, arith, ◌==◌, eq_iff, inl, inr,
  Bool-cases, Option-cases, tally, or_text,
}
use aira_agent.Base.Query.{All-mem}
use aira_agent.Base.Table.{find, update, tally-update-le, tally-update-le_suc}
use aira_agent.JobPolicy.{
  Settings, ExecutionClass, blocked_classes, blocked_owners, contains, classes, concurrency_cap,
  per_owner_cap,
}
use aira_agent.JobPolicy.Counts.{blocked_owners_free}
use aira_agent.JobPolicy.Caps.{blocked_classes_free}
use aira_agent.ExecutionQueue.Job.{ExecutionJob, Queue, job_id}
use aira_agent.ExecutionQueue.Claim.{
  class_key, owner_key, class_counts, owner_counts, eligible, select_next, start_row, claim_picked,
  claim,
}
use aira_agent.ExecutionQueue.Lifecycle.{at_row}
use aira_agent.ExecutionQueue.Scheduling.{
  in_class, of_owner, class_load, owner_load, counts_exact, IsKeyed, select_next-IsNext,
  picked_held,
}

name_full : (c : ExecutionClass) → Memᴰ c classes → (c.name == "") ≡ false
name_full c m =
    All-mem (λ (d : ExecutionClass). (d.name == "") ≡ false) classes
      (refl, (refl, (refl, (refl, tt)))) m

-- A row of the class that is eligible finds the class below its cap.
class_room :
    (s : Settings) (rows : List ExecutionJob) (r : ExecutionJob) (c : ExecutionClass)
    → Memᴰ c classes
    → 0 < concurrency_cap c s
    → eligible s rows r ≡ true
    → (class_key r == c.name) ≡ true
    → class_load c.name rows < concurrency_cap c s
class_room s rows r c m capped e k = omega (
  arith,
  (counts_exact c.name rows).0,
  blocked_classes_free c (class_counts rows) s m open_class capped,
)
  where
    open_class : contains c.name (blocked_classes (class_counts rows) s) ≡ false
    open_class =
        unfold eligible class_key in
        ground (arith, name_full c m, eq_iff (or_text r.exec_class "") c.name)

owner_room :
    (s : Settings) (rows : List ExecutionJob) (r : ExecutionJob)
    → eligible s rows r ≡ true
    → owner_load r.owner rows < per_owner_cap s
owner_room s rows r e = omega (
  arith,
  (counts_exact r.owner rows).1,
  blocked_owners_free r.owner (owner_counts rows) s open_owner,
)
  where
    open_owner : contains r.owner (blocked_owners (owner_counts rows) s) ≡ false
    open_owner = unfold eligible in ground arith

owner_of :
    (owner : String) (r : ExecutionJob) (now : ℕ)
    → of_owner owner (start_row now r) ≡ true
    → r.owner ≡ owner
unfolding start_row owner_key
owner_of owner r now t = ground (arith, eq_iff r.owner owner)

-- Starting a row that its id finds keeps a load within a bound, if a row of that load finds room.
load_after :
    (load : ExecutionJob → Bool) (cap now : ℕ) (rows : List ExecutionJob) (r : ExecutionJob)
    → find job_id r.id rows ≡ some r
    → tally load rows ≤ cap
    → (load (start_row now r) ≡ true → tally load rows < cap)
    → tally load (update job_id r.id (start_row now) rows) ≤ cap
load_after load cap now rows r at within room = elim (Bool-cases (load (start_row now r))) [
  | inl e ↦ omega (arith, room e, tally-update-le_suc job_id load r.id (start_row now) rows)
  | inr e ↦ omega (
    arith,
    tally-update-le job_id load r.id (start_row now) rows
        (λ y g. at_row (λ z. load (start_row now z) ≡ true → load z ≡ true) at g (λ t. cc)),
  )
]

module _ (s : Settings) (q : Queue) (on : s.queue_scheduling_enabled ≡ true)
    (keyed : IsKeyed q.jobs) where
  held : (r : ExecutionJob) → select_next s q.jobs ≡ some r → find job_id r.id q.jobs ≡ some r
  held r e =
      All-mem (λ x. find job_id x.id q.jobs ≡ some x) q.jobs keyed
        (select_next-IsNext s q.jobs r on e).listed

  -- With scheduling on, in a table where every row is the one its id finds, a claim leaves every
  -- execution class that has a cap, and is within it, within that cap.
  pub claim_class_cap :
      (c : ExecutionClass)
      → Memᴰ c classes
      → 0 < concurrency_cap c s
      → class_load c.name q.jobs ≤ concurrency_cap c s
      → class_load c.name (claim s q).1.jobs ≤ concurrency_cap c s
  claim_class_cap c m capped within = elim (Option-cases (select_next s q.jobs)) [
    | inl e ↦ unfold claim claim_picked in rw e within
    | inr (r, e) ↦ rw (picked_held s q on keyed r e).1 (
        unfold class_load in
        load_after (in_class c.name) (concurrency_cap c s) q.now q.jobs r (held r e) within λ t.
          class_room s q.jobs r c m capped (select_next-IsNext s q.jobs r on e).eligible_row
            (unfold start_row class_key in ground arith))
  ]

  -- With scheduling on, in a table where every row is the one its id finds, a claim leaves every
  -- owner that runs no more jobs than one owner may within that number.
  pub claim_owner_cap :
      (owner : String)
      → owner_load owner q.jobs ≤ per_owner_cap s
      → owner_load owner (claim s q).1.jobs ≤ per_owner_cap s
  claim_owner_cap owner within = elim (Option-cases (select_next s q.jobs)) [
    | inl e ↦ unfold claim claim_picked in rw e within
    | inr (r, e) ↦ rw (picked_held s q on keyed r e).1 (
        unfold owner_load in
        load_after (of_owner owner) (per_owner_cap s) q.now q.jobs r (held r e) within λ t.
          subst (λ w. tally (of_owner w) q.jobs < per_owner_cap s) (owner_of owner r q.now t)
            (unfold owner_load in
              owner_room s q.jobs r (select_next-IsNext s q.jobs r on e).eligible_row))
  ]
