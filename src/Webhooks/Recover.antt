-- ===== src/Webhooks/Recover.antt =====
-- The dead-letter view of backend/app/webhooks.py and the redrive that it offers.
use mathlib.Core.List.{Memᴰ}
use aira_agent.Base.{
  ℕ, suc, String, some, List, [], ◌∷◌, ◌++◌, true, false, ◌≡◌, refl, arith, ap, sym, ◌∙◌, keep, any,
  first, length, leb, Bool-cases, inl, inr, eq_iff, is_text_iff,
}
use aira_agent.Base.Table.{find, find-append}
use aira_agent.Base.Order.{sort_by, length-sort_by, All-sort_by}
use aira_agent.Base.Query.{All-zip, All-intro}
use aira_agent.Base.Distinct.{All-keep_sub, All-kept}
use aira_agent.Webhooks.Row.{
  pending, is_pending, failed, Webhooks, Settings, Delivery, delivery_id, is_delivered,
}
use aira_agent.Webhooks.Delivery.{sent_earlier}
use aira_agent.Webhooks.Redrive.{
  RedriveReply, limit_reached, in_flight, scheduled, child_of, children, redrive_cap, redriven_row,
  redrive_failed, redrive_found, redrive, DeadLetterState, redrive_candidate, redriven, resolved,
  exhausted, dead_letter_state, clean_delivery, open_row,
}
use aira_agent.Base.First.{All-first, any-sort_by, first-none, first-some, first-only}

keep-append :
    (id : String) (xs : List Delivery) (z : Delivery)
    → child_of id z ≡ true
    → keep (child_of id) (xs ++ z ∷ []) ≡ keep (child_of id) xs ++ z ∷ []
unfolding keep
keep-append id [] z h = rw h refl
keep-append id (x ∷ xs) z h = ground (arith, keep-append id xs z h)

-- A new delivery of what a failed one was to deliver, under its id as the original.
pub record IsRetryOf (id : String) (r child : Delivery) : Type 0 where
  pub waits : child.status ≡ pending
  pub unused : child.attempts ≡ 0
  pub original : child.redrive_of ≡ some id
  pub same_destination : child.destination_id ≡ r.destination_id
  pub same_payload : child.payload ≡ r.payload

-- A delivery of the table that is pending, with a failed one as its original.
pub record IsUnderWay (id : String) (s : Webhooks) (child : Delivery) : Type 0 where
  pub there : Memᴰ child s.deliveries
  pub waits : is_pending child.status ≡ true
  pub original : child.redrive_of ≡ some id

-- What a redrive does with a failed delivery that the dead-letter view shows in a state.
unfoldable pub Answers :
    String → Delivery → DeadLetterState → Webhooks → RedriveReply × Webhooks → Type 0
Answers id r redrive_candidate s (reply, t) =
    (child : Delivery) × IsRetryOf id r child
    × (reply ≡ scheduled (clean_delivery false child))
    × (t.deliveries ≡ s.deliveries ++ child ∷ [])
Answers id r redriven s (reply, t) =
    (child : Delivery) × IsUnderWay id s child
    × (reply ≡ in_flight (clean_delivery false child))
    × (t ≡ s)
Answers id r exhausted s (reply, t) = (reply ≡ limit_reached) × (t ≡ s)
Answers id r resolved s answer = Unit

module _ (c : Settings) (uuid4 : ℕ → String) (id : String) (s : Webhooks) (r : Delivery) where
  failed_row :
      find delivery_id id s.deliveries ≡ some r
      → r.status ≡ failed
      → redrive c uuid4 id s
        ≡ redrive_failed c uuid4 id r
            (children id s.deliveries)
            (first open_row (children id s.deliveries))
            s
  unfolding redrive redrive_found
  failed_row at lost = rw (at, redrive, redrive_found, lost) refl

  under_way :
      (child : Delivery)
      → first open_row (children id s.deliveries) ≡ some child
      → IsUnderWay id s child
  unfolding children child_of
  under_way child e =
      let ((at, of), waits) =
        All-first open_row Both (sort_by sent_earlier (keep (child_of id) s.deliveries))
          (All-sort_by Both sent_earlier (keep (child_of id) s.deliveries) (
            All-zip (λ x. Memᴰ x s.deliveries) (λ x. child_of id x ≡ true) Both
              (keep (child_of id) s.deliveries) (λ x a b. (a, b))
              (All-keep_sub (λ x. Memᴰ x s.deliveries) (child_of id) s.deliveries
                (All-intro (λ x. Memᴰ x s.deliveries) s.deliveries (λ x m. m)))
              (All-kept (child_of id) s.deliveries)))
          e in
      record { there = at; waits = waits; original = (is_text_iff child.redrive_of id).0 of }
    where
      Both : Delivery → Type 0
      Both x = Memᴰ x s.deliveries × (child_of id x ≡ true)

  -- What a failed delivery's redrive does, by its children.
  answer_open :
      any open_row (children id s.deliveries) ≡ true
      → Answers id r redriven s (
          redrive_failed c uuid4 id r
            (children id s.deliveries)
            (first open_row (children id s.deliveries))
            s)
  unfolding Answers redrive_failed
  answer_open open_one =
      let (child, e) = first-some open_row (children id s.deliveries) open_one in
      rw e (child, under_way child e, refl, refl)

  answer_exhausted :
      any open_row (children id s.deliveries) ≡ false
      → leb (redrive_cap c) (length (children id s.deliveries)) ≡ true
      → Answers id r exhausted s (
          redrive_failed c uuid4 id r
            (children id s.deliveries)
            (first open_row (children id s.deliveries))
            s)
  unfolding Answers redrive_failed
  answer_exhausted closed cap =
      rw (first-none open_row (children id s.deliveries) closed, cap) (refl, refl)

  answer_candidate :
      any open_row (children id s.deliveries) ≡ false
      → leb (redrive_cap c) (length (children id s.deliveries)) ≡ false
      → Answers id r redrive_candidate s (
          redrive_failed c uuid4 id r
            (children id s.deliveries)
            (first open_row (children id s.deliveries))
            s)
  unfolding Answers redrive_failed redriven_row
  answer_candidate closed cap =
      rw (first-none open_row (children id s.deliveries) closed, cap)
        (redriven_row (uuid4 s.draws) id s.now r, retries, refl, refl)
    where
      retries : IsRetryOf id r (redriven_row (uuid4 s.draws) id s.now r)
      retries = record {
        waits = refl;
        unused = refl;
        original = refl;
        same_destination = refl;
        same_payload = refl;
      }

  -- The dead-letter view keeps its word: the redrive of a failed delivery that it shows as a candidate
  -- schedules a new delivery, which is pending, unused and to the same destination with the same
  -- payload; of one that it shows as redriven it returns a redrive of it that is pending, and changes
  -- nothing; and of one that it shows as exhausted it is refused. Of one shown as resolved nothing is claimed.
  pub dead_letter_state-Answers :
      find delivery_id id s.deliveries ≡ some r
      → r.status ≡ failed
      → Answers id r
          (dead_letter_state c (keep (child_of id) s.deliveries))
          s
          (redrive c uuid4 id s)
  unfolding dead_letter_state
  dead_letter_state-Answers at lost =
      rw (failed_row at lost)
        (elim (Bool-cases (any (λ k. is_delivered k.status) (keep (child_of id) s.deliveries))) [
          | inl e ↦ rw e (unfold Answers in tt)
          | inr e ↦ rw e (elim (Bool-cases (any open_row (keep (child_of id) s.deliveries))) [
            | inl o ↦ rw o (answer_open (same_open ∙ o))
            | inr o ↦
                rw o
                  (elim (Bool-cases
                    (leb (redrive_cap c) (length (keep (child_of id) s.deliveries)))) [
                      | inl k ↦ rw k (answer_exhausted (same_open ∙ o) (same_length ∙ k))
                      | inr k ↦ rw k (answer_candidate (same_open ∙ o) (same_length ∙ k))
                    ])
          ])
        ])
    where
      same_open :
          any open_row (children id s.deliveries) ≡ any open_row (keep (child_of id) s.deliveries)
      same_open =
          unfold children in any-sort_by open_row sent_earlier (keep (child_of id) s.deliveries)

      same_length :
          leb (redrive_cap c) (length (children id s.deliveries))
          ≡ leb (redrive_cap c) (length (keep (child_of id) s.deliveries))
      same_length =
          ap (leb (redrive_cap c))
            (unfold children in length-sort_by sent_earlier (keep (child_of id) s.deliveries))

module _ (c : Settings) (uuid4 : ℕ → String) (id : String) (s : Webhooks) (r : Delivery) where
  -- The state after a redrive that was scheduled.
  abbrev after_redrive : Webhooks
  after_redrive = record s {
    deliveries = s.deliveries ++ redriven_row (uuid4 s.draws) id s.now r ∷ [];
    draws = suc s.draws;
  }

  scheduled_once :
      find delivery_id id s.deliveries ≡ some r
      → r.status ≡ failed
      → any open_row (children id s.deliveries) ≡ false
      → leb (redrive_cap c) (length (children id s.deliveries)) ≡ false
      → redrive c uuid4 id s ≡ (
        scheduled (clean_delivery false (redriven_row (uuid4 s.draws) id s.now r)),
        after_redrive,
      )
  unfolding redrive_failed
  scheduled_once at lost closed cap =
      failed_row c uuid4 id s r at lost
      ∙ rw (first-none open_row (children id s.deliveries) closed, cap) refl

  is_child : child_of id (redriven_row (uuid4 s.draws) id s.now r) ≡ true
  unfolding child_of redriven_row
  is_child = ground (arith, eq_iff id id)

  only_open :
      any open_row (children id s.deliveries) ≡ false
      → first open_row (children id after_redrive.deliveries)
        ≡ some (redriven_row (uuid4 s.draws) id s.now r)
  unfolding children
  only_open closed =
      ap (λ kids. first open_row (sort_by sent_earlier kids))
        (keep-append id s.deliveries (redriven_row (uuid4 s.draws) id s.now r) is_child)
      ∙ first-only open_row sent_earlier (keep (child_of id) s.deliveries)
          (redriven_row (uuid4 s.draws) id s.now r)
          (sym (any-sort_by open_row sent_earlier (keep (child_of id) s.deliveries)) ∙ closed)
          (unfold redriven_row in refl)

  -- Redriving twice is redriving once: after a redrive that scheduled a new delivery, the redrive of the
  -- same failed delivery returns that delivery as in flight and changes nothing.
  pub redrive_again :
      find delivery_id id s.deliveries ≡ some r
      → r.status ≡ failed
      → any open_row (children id s.deliveries) ≡ false
      → leb (redrive_cap c) (length (children id s.deliveries)) ≡ false
      → redrive c uuid4 id (redrive c uuid4 id s).1 ≡ (
        in_flight (clean_delivery false (redriven_row (uuid4 s.draws) id s.now r)),
        (redrive c uuid4 id s).1,
      )
  redrive_again at lost closed cap = rw (scheduled_once at lost closed cap) (again at lost closed)
    where
      again :
          find delivery_id id s.deliveries ≡ some r
          → r.status ≡ failed
          → any open_row (children id s.deliveries) ≡ false
          → redrive c uuid4 id after_redrive ≡ (
            in_flight (clean_delivery false (redriven_row (uuid4 s.draws) id s.now r)),
            after_redrive,
          )
      again at lost closed =
          failed_row c uuid4 id after_redrive r (find-append delivery_id id s.deliveries _ at) lost
          ∙ ap
              (λ o.
                redrive_failed c uuid4 id r (children id after_redrive.deliveries) o after_redrive)
              (only_open closed)
          ∙ unfold redrive_failed in refl
