-- ===== src/Webhooks/Settle.antt =====
-- The deliveries of backend/app/webhooks.py come to an end: what a run of `deliver_pending` leaves.
use mathlib.Core.List.{Memᴰ}
use aira_agent.Base.{
  ℕ, zero, suc, ◌+◌, some, List, [], true, ◌≡◌, refl, ◌≤◌, arith, All, take, tally, keep,
  Bool-cases, inl, inr, length-keep,
}
use aira_agent.Base.Table.{find, find-key}
use aira_agent.Base.Query.{All-zip, All-intro}
use aira_agent.Base.Order.{length-sort_by, sort_by, All-sort_by, All-take}
use aira_agent.Base.Distinct.{
  Distinct, Distinct-keep, Distinct-sort_by, Distinct-take, Distinct-find, find-mem, All-kept,
  All-keep_sub, mem_kept, mem_sorted, take_all, mem_mapped, All-mapped, Distinct-map, tally-zero,
}
use aira_agent.Webhooks.Row.{Webhooks, Settings, Delivery, delivery_id, is_pending}
use aira_agent.Webhooks.Delivery.{
  Transport, deliver_pending, pending_row, pending_rows, snapshot_of, sent_earlier,
}
use aira_agent.Webhooks.Underway.{Underway, Fits, deliver_each-Underway}
use aira_agent.Webhooks.Budget.{budget_for}

-- Runs of `deliver_pending`, one after the other.
unfoldable pub runs : Settings → Transport → ℕ → ℕ → Webhooks → Webhooks
runs c send max_deliveries zero s = s
runs c send max_deliveries (suc n) s =
    runs c send max_deliveries n (deliver_pending c send max_deliveries s).1

-- The attempts that a pending delivery may still need.
unfoldable pub AtMostLeft : Settings → ℕ → Webhooks → Type 0
AtMostLeft c m s =
    All
      (λ r.
        is_pending r.status ≡ true → budget_for c s.destinations r.destination_id ≤ m + r.attempts)
      s.deliveries

module _ (c : Settings) (send : Transport) (limit : ℕ) where
  begin-Underway :
      (m : ℕ) (s : Webhooks)
      → Distinct delivery_id s.deliveries
      → tally pending_row s.deliveries ≤ limit
      → AtMostLeft c (suc m) s
      → Underway c s m (pending_rows limit s) s
  unfolding pending_rows AtMostLeft Fits snapshot_of
  begin-Underway m s keys few left = record {
    budgets = λ d. refl;
    found = λ id r e pend. inr (
      snapshot_of r,
      mem_mapped snapshot_of _ (
          all_taken (
            mem_sorted sent_earlier _
              (mem_kept pending_row s.deliveries (find-mem delivery_id id s.deliveries e) pend))),
      find-key delivery_id id s.deliveries e,
    );
    coming = All-mapped snapshot_of (Fits c s m s) _ (
        All-take (λ r. Fits c s m s (snapshot_of r)) limit _
          (All-sort_by (λ r. Fits c s m s (snapshot_of r)) sent_earlier _
            (All-zip (λ r. pending_row r ≡ true) _ (λ r. Fits c s m s (snapshot_of r)) _ fitting
              (All-kept pending_row s.deliveries)
              (All-keep_sub _ pending_row s.deliveries (
                All-zip _ (λ r. find delivery_id r.id s.deliveries ≡ some r) _ s.deliveries
                  (λ r h e. (h, e)) left
                  (All-intro _ s.deliveries
                    (λ r. Distinct-find delivery_id s.deliveries keys)))))));
    apart =
        Distinct-map snapshot_of (λ p. p.id) _
          (Distinct-take delivery_id limit _ (
            Distinct-sort_by delivery_id sent_earlier _
              (Distinct-keep delivery_id pending_row s.deliveries keys)));
    keyed = keys;
    fewer = omega arith;
    ended = λ id r e done. e;
  }
    where
      rows : List Delivery
      rows = sort_by sent_earlier (keep pending_row s.deliveries)

      all_taken : {r : Delivery} → Memᴰ r rows → Memᴰ r (take limit rows)
      all_taken {r} m =
          rw
            (take_all limit rows (
              omega (
                arith,
                few,
                length-sort_by sent_earlier (keep pending_row s.deliveries),
                length-keep pending_row s.deliveries,
              )))
            m

      fitting :
          (r : Delivery)
          → pending_row r ≡ true
          → (pending_row r ≡ true
              → budget_for c s.destinations r.destination_id ≤ suc m + r.attempts)
            × (find delivery_id r.id s.deliveries ≡ some r)
          → Fits c s m s (snapshot_of r)
      fitting r pend (h, e) = (h pend, λ q f. (cc (e, f), cc (pend, e, f)))

  deliver_pending-Underway :
      (m : ℕ) (s : Webhooks)
      → Distinct delivery_id s.deliveries
      → tally pending_row s.deliveries ≤ limit
      → AtMostLeft c (suc m) s
      → Underway c s m [] (deliver_pending c send limit s).1
  unfolding deliver_pending
  deliver_pending-Underway m s keys few left =
      deliver_each-Underway c send s m (pending_rows limit s) _ (begin-Underway m s keys few left)

  -- A pending row that a run leaves has attempts left, and fewer than before.
  left_after :
      (m : ℕ) (s t : Webhooks) (r : Delivery)
      → Underway c s m [] t
      → Memᴰ r t.deliveries
      → is_pending r.status ≡ true
      → (budget_for c t.destinations r.destination_id ≤ m + r.attempts)
        × (suc r.attempts ≤ budget_for c t.destinations r.destination_id)
  left_after m s t r u at pend =
      elim (u.found r.id r (Distinct-find delivery_id t.deliveries u.keyed at) pend) [
        | inl h ↦ (
          omega (arith, h.0, u.budgets r.destination_id),
          omega (arith, h.1, u.budgets r.destination_id),
        )
        | inr (p, none_left, _) ↦ absurd (elim none_left [ ])
      ]

  -- Whatever the transport answers, every delivery comes to an end: if the ids of the deliveries are
  -- distinct, no more of them are pending than a run of `deliver_pending` takes, and none has more
  -- than n + 1 attempts left in its budget, then n + 1 runs leave none pending.
  pub runs_settle :
      (n : ℕ) (s : Webhooks)
      → Distinct delivery_id s.deliveries
      → tally pending_row s.deliveries ≤ limit
      → AtMostLeft c (suc n) s
      → tally pending_row (runs c send limit (suc n) s).deliveries ≡ 0
  unfolding runs
  runs_settle zero s keys few left =
      let u = deliver_pending-Underway zero s keys few left in
      tally-zero pending_row _ (
        All-intro _ _ (λ r at. elim (Bool-cases (pending_row r)) [
          | inl pend ↦ (let h = left_after zero s _ r u at pend in absurd (omega (arith, h.0, h.1)))
          | inr e ↦ e
        ]))
  runs_settle (suc n) s keys few left =
      let u = deliver_pending-Underway (suc n) s keys few left in
      runs_settle n (deliver_pending c send limit s).1 u.keyed (omega (arith, few, u.fewer))
        (unfold AtMostLeft in All-intro _ _ (λ r at pend. (left_after (suc n) s _ r u at pend).0))
