-- ===== src/Webhooks/Underway.antt =====
-- The middle of a run of `deliver_pending` of backend/app/webhooks.py.
use mathlib.Core.List.{Memᴰ}
use aira_agent.Base.{
  ℕ, suc, ◌+◌, String, some, List, [], ◌∷◌, true, false, ◌≡◌, ◌≢◌, sym, ◌∙◌, ap, ◌≤◌, ◌⊎◌, arith,
  All, tally, Bool-cases, inl, inr, eq_iff, ◌==◌,
}
use aira_agent.Base.Table.{find, update, find-update, tally-update-le}
use aira_agent.Base.Query.{All-zip}
use aira_agent.Base.Distinct.{Distinct, Distinct-update}
use aira_agent.Webhooks.Row.{Webhooks, Settings, Delivery, delivery_id, is_pending}
use aira_agent.Webhooks.Delivery.{
  Transport, Snapshot, Sent, Delivered, attempted, finish, deliver_one, deliver_each, ending,
  pending_row,
}
use aira_agent.Webhooks.Attempt.{deliver_one-cases}
use aira_agent.Webhooks.Budget.{budget_for, budget_kept, attempted_row}

abbrev pub budget_at : Settings → Webhooks → Delivery → ℕ
budget_at c s r = budget_for c s.destinations r.destination_id

-- A snapshot that still fits its row: it is pending, and has at most `m` attempts left after the next.
unfoldable pub Fits : Settings → Webhooks → ℕ → Webhooks → Snapshot → Type 0
Fits c start m s p =
    (budget_for c start.destinations p.destination_id ≤ suc m + p.attempts)
    × ((r : Delivery)
        → find delivery_id p.id s.deliveries ≡ some r
        → (r.destination_id ≡ p.destination_id) × (is_pending r.status ≡ true))

-- What holds in the middle of a run that began in `start`, with the snapshots `ps` still to come:
-- budgets are as they were, and every pending delivery either awaits its attempt or has had it, with
-- attempts left and at most `m` of them.
pub record Underway (c : Settings) (start : Webhooks) (m : ℕ) (ps : List Snapshot) (s : Webhooks)
    : Type 0 where
  pub budgets : (d : String) → budget_for c s.destinations d ≡ budget_for c start.destinations d
  pub found :
      (id : String) (r : Delivery)
      → find delivery_id id s.deliveries ≡ some r
      → is_pending r.status ≡ true
      → (budget_at c start r ≤ m + r.attempts) × (suc r.attempts ≤ budget_at c start r)
        ⊎ (p : Snapshot) × Memᴰ p ps × (p.id ≡ id)
  pub coming : All (Fits c start m s) ps
  pub apart : Distinct (λ p. p.id) ps
  pub keyed : Distinct delivery_id s.deliveries
  pub fewer : tally pending_row s.deliveries ≤ tally pending_row start.deliveries
  pub ended :
      (id : String) (r : Delivery)
      → find delivery_id id start.deliveries ≡ some r
      → is_pending r.status ≡ false
      → find delivery_id id s.deliveries ≡ some r

-- A row that is found after a write is the written one or was found before it.
found_after :
    (k id : String) (f : Delivery → Delivery) (rows : List Delivery) (r q : Delivery)
    → ((x : Delivery) → delivery_id (f x) ≡ delivery_id x)
    → find delivery_id k rows ≡ some r
    → find delivery_id id (update delivery_id k f rows) ≡ some q
    → ((k ≡ id) × (q ≡ f r)) ⊎ ((k ≢ id) × (find delivery_id id rows ≡ some q))
found_after k id f rows r q same at e = elim (Bool-cases (k == id)) [
  | inl b ↦ inl ((eq_iff k id).0 b, ground (arith, b, at, find-update delivery_id k id f rows same))
  | inr b ↦
      inr (
        ground (arith, b, eq_iff k id),
        ground (arith, b, find-update delivery_id k id f rows same),
      )
]

module _ (c : Settings) (send : Transport) (start : Webhooks) (m : ℕ) where
  finish-Underway :
      (p : Snapshot) (ps : List Snapshot) (sent : Sent) (n : Delivered) (s : Webhooks)
      (r : Delivery)
      → find delivery_id p.id s.deliveries ≡ some r
      → Underway c start m (p ∷ ps) s
      → Underway c start m ps
          (finish c send p sent
            (ending sent (suc p.attempts) (budget_for c s.destinations p.destination_id))
            (n, s)).1
  unfolding finish Fits Distinct
  finish-Underway p ps sent n s r at u = record {
    budgets = λ d. budget_kept c s.now _ p.destination_id d s.destinations ∙ u.budgets d;
    found = λ id q e pend. elim (after id q e) [
      | inl (_, w) ↦ inl (written q w pend)
      | inr (other, f) ↦ elim (u.found id q f pend) [
        | inl h ↦ inl h
        | inr (p', Memᴰ.head g, h) ↦ absurd (other (rw (← g) h))
        | inr (p', Memᴰ.tail g, h) ↦ inr (p', g, h)
      ]
    ];
    coming =
        All-zip (λ x. p.id ≢ x.id) (Fits c start m s) _ ps
          (λ x far fits. (
            fits.0,
            λ q e. elim (after x.id q e) [ inl (k, _) ↦ absurd (far k) | inr (_, f) ↦ fits.1 q f ],
          ))
          u.apart.0 u.coming.1;
    apart = u.apart.1;
    keyed = Distinct-update delivery_id p.id _ s.deliveries (λ x. (facts x).0) u.keyed;
    fewer = omega (
      arith,
      u.fewer,
      tally-update-le delivery_id pending_row p.id (written_row) s.deliveries
          (λ x e _. (u.coming.0.1 x e).1),
    );
    ended = λ id q e done. elim (Bool-cases (p.id == id)) [
      | inl b ↦ absurd (ended_differs id q b (u.ended id q e done) done)
      | inr b ↦
          find-update delivery_id p.id id written_row s.deliveries (λ x. (facts x).0)
          ∙ rw b (u.ended id q e done)
    ];
  }
    where
      written_row : Delivery → Delivery
      written_row =
          attempted sent (suc p.attempts) s.now
            (ending sent (suc p.attempts) (budget_for c s.destinations p.destination_id))

      facts :
          (x : Delivery)
          → (delivery_id (written_row x) ≡ delivery_id x)
            × ((written_row x).destination_id ≡ x.destination_id)
            × ((written_row x).attempts ≡ suc p.attempts)
            × (is_pending (written_row x).status ≡ true
                → suc (suc p.attempts) ≤ budget_for c s.destinations p.destination_id)
      facts x = attempted_row sent (suc p.attempts) s.now _ x

      after :
          (id : String) (q : Delivery)
          → find delivery_id id (update delivery_id p.id written_row s.deliveries) ≡ some q
          → ((p.id ≡ id) × (q ≡ written_row r))
            ⊎ ((p.id ≢ id) × (find delivery_id id s.deliveries ≡ some q))
      after id q e = found_after p.id id written_row s.deliveries r q (λ x. (facts x).0) at e

      ended_differs :
          (id : String) (q : Delivery)
          → (p.id == id) ≡ true
          → find delivery_id id s.deliveries ≡ some q
          → is_pending q.status ≢ false
      ended_differs id q b g done =
          let same : p.id ≡ id = (eq_iff p.id id).0 b in
          cc (done, (u.coming.0.1 q (ap (λ x. find delivery_id x s.deliveries) same ∙ g)).1)

      written :
          (q : Delivery)
          → q ≡ written_row r
          → is_pending q.status ≡ true
          → (budget_at c start q ≤ m + q.attempts) × (suc q.attempts ≤ budget_at c start q)
      written q w pend =
          let to : q.destination_id ≡ p.destination_id =
            (ap (λ x. x.destination_id) w ∙ (facts r).1) ∙ (u.coming.0.1 r at).0 in
          let count : q.attempts ≡ suc p.attempts = ap (λ x. x.attempts) w ∙ (facts r).2 in
          rw (to, count)
            (
              omega (arith, u.coming.0.0),
              omega (
                arith,
                (facts r).3 (sym (ap (λ x. is_pending x.status) w) ∙ pend),
                u.budgets p.destination_id,
              ),
            )

  deliver_one-Underway :
      (p : Snapshot) (ps : List Snapshot) (n : Delivered) (s : Webhooks)
      → Underway c start m (p ∷ ps) s
      → Underway c start m ps (deliver_one c send p (n, s)).1
  unfolding Fits Distinct
  deliver_one-Underway p ps n s u =
      deliver_one-cases (λ t. Underway c start m ps t.1) c send p n s
        (λ k gone. record {
          budgets = u.budgets;
          found = λ id q e pend. elim (u.found id q e pend) [
            | inl h ↦ inl h
            | inr (p', Memᴰ.head g, h) ↦ absurd (cc (gone, e, g, h))
            | inr (p', Memᴰ.tail g, h) ↦ inr (p', g, h)
          ];
          coming = u.coming.1;
          apart = u.apart.1;
          keyed = u.keyed;
          fewer = u.fewer;
          ended = u.ended;
        })
        (λ r sent k at.
          finish-Underway p ps sent n (record s { sends = k }) r at
            (record {
              budgets = u.budgets;
              found = u.found;
              coming = u.coming;
              apart = u.apart;
              keyed = u.keyed;
              fewer = u.fewer;
              ended = u.ended;
            }))

  pub deliver_each-Underway :
      (ps : List Snapshot) (t : Delivered × Webhooks)
      → Underway c start m ps t.1
      → Underway c start m [] (deliver_each c send ps t).1
  unfolding deliver_each
  deliver_each-Underway [] t u = u
  deliver_each-Underway (p ∷ ps) (n, s) u =
      deliver_each-Underway ps (deliver_one c send p (n, s)) (deliver_one-Underway p ps n s u)
