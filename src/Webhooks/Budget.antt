-- ===== src/Webhooks/Budget.antt =====
-- What one attempt of `deliver_pending` of backend/app/webhooks.py does to its row and to the budget of its
-- destination.
use aira_agent.Base.{
  ℕ, suc, String, Option, none, some, List, true, ◌≡◌, refl, sym, ◌∙◌, ap, ◌≤◌, arith, Bool-cases,
  inl, inr, leb, eq_iff, if◌then◌else◌, ◌==◌,
}
use aira_agent.Base.Table.{find, update, find-update}
use aira_agent.Webhooks.Row.{Settings, Delivery, Destination, destination_id, is_pending}
use aira_agent.Webhooks.Delivery.{
  Sent, Ending, attempted, ended_destination, delivers, fails, retries, ending, budget_of,
  on_delivery_success, on_delivery_failure,
}

pub ended_policy :
    (c : Settings) (now : ℕ) (e : Ending) (d : Destination)
    → budget_of c (some (ended_destination c now e d)) ≡ budget_of c (some d)
unfolding budget_of ended_destination on_delivery_success on_delivery_failure
ended_policy c now delivers d = refl
ended_policy c now fails d = refl
ended_policy c now retries d = refl

pub ended_id :
    (c : Settings) (now : ℕ) (e : Ending) (d : Destination)
    → destination_id (ended_destination c now e d) ≡ destination_id d
unfolding ended_destination on_delivery_success on_delivery_failure
ended_id c now delivers d = refl
ended_id c now fails d = refl
ended_id c now retries d = refl

-- What an attempt does to its row.
pub attempted_row :
    (sent : Sent) (n now budget : ℕ) (r : Delivery)
    → let q = attempted sent n now (ending sent n budget) r in
      (q.id ≡ r.id)
      × (q.destination_id ≡ r.destination_id)
      × (q.attempts ≡ n)
      × (is_pending q.status ≡ true → suc n ≤ budget)
unfolding attempted ending
attempted_row sent n now budget r = elim (Bool-cases sent.ok) [
  | inl e ↦ rw e (refl, refl, refl, λ h. absurd (cc))
  | inr e ↦ rw e (elim (Bool-cases (leb budget n)) [
    | inl f ↦ rw f (refl, refl, refl, λ h. absurd (cc))
    | inr f ↦ rw f (refl, refl, refl, λ h. ground arith)
  ])
]

-- The budget of a delivery's destination, as `deliver_pending` computes it.
abbrev pub budget_for : Settings → List Destination → String → ℕ
budget_for c ds d = budget_of c (find destination_id d ds)

pub budget_kept :
    (c : Settings) (now : ℕ) (e : Ending) (k d : String) (ds : List Destination)
    → budget_for c (update destination_id k (ended_destination c now e) ds) d ≡ budget_for c ds d
budget_kept c now e k d ds =
    go (find destination_id k ds) refl (find-update destination_id k d _ ds (ended_id c now e))
  where
    go :
        (o : Option Destination)
        → find destination_id k ds ≡ o
        → find destination_id d (update destination_id k (ended_destination c now e) ds) ≡ (
            if k == d
            then elim (find destination_id k ds) [
              | none ↦ none
              | some r ↦ some (ended_destination c now e r)
            ]
            else find destination_id d ds)
        → budget_for c (update destination_id k (ended_destination c now e) ds) d
          ≡ budget_for c ds d
    go none q u = ap (budget_of c) (ground (arith, q, u, eq_iff k d))
    go (some r) q u = elim (Bool-cases (k == d)) [
      | inl f ↦
          ap (budget_of c) (u ∙ rw (f, q) refl)
          ∙ ended_policy c now e r
          ∙ ap (budget_of c) (sym q ∙ ap (λ x. find destination_id x ds) ((eq_iff k d).0 f))
      | inr f ↦ ap (budget_of c) (u ∙ rw f refl)
    ]
