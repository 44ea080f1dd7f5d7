-- ===== src/Webhooks/Totals.antt =====
-- The sums of `analytics` of backend/app/webhooks.py.
use aira_agent.Base.{
  ℕ, suc, ◌+◌, String, List, [], ◌∷◌, ◌≡◌, refl, ap, arith, leb, keep, length, tally, if◌then◌else◌,
  length-keep, ◌∙◌,
}
use aira_agent.Base.Int.{ℤ}
use aira_agent.Webhooks.Row.{
  Status, pending, delivered, failed, Webhooks, Destination, Delivery, is_pending, is_delivered,
  is_failed,
}
use aira_agent.Webhooks.Reads.{
  Buckets, no_buckets, add_status, add_kind, add_destination, DestinationStats, Summary, summarize,
  analytics, cutoff, stats_of, kind_at,
}

unfoldable pub sum_kinds : (Buckets → ℕ) → List (String × Buckets) → ℕ
sum_kinds g [] = 0
sum_kinds g ((k, b) ∷ rest) = g b + sum_kinds g rest

unfoldable pub sum_destinations : (Buckets → ℕ) → List DestinationStats → ℕ
sum_destinations g [] = 0
sum_destinations g (x ∷ xs) = g x.statuses + sum_destinations g xs

-- A bucket grows by one for its status and by nothing for another.
abbrev pub CountsOne : (Buckets → ℕ) → (Status → ℕ) → Type 0
CountsOne g one =
    (g no_buckets ≡ 0) × ((st : Status) (b : Buckets) → g (add_status st b) ≡ one st + g b)

module _ (g : Buckets → ℕ) (one : Status → ℕ) (h : CountsOne g one) where
  sum-add_kind :
      (kind : String) (st : Status) (xs : List (String × Buckets))
      → sum_kinds g (add_kind kind st xs) ≡ one st + sum_kinds g xs
  unfolding sum_kinds add_kind
  sum-add_kind kind st [] = omega (arith, h.0, h.1 st no_buckets)
  sum-add_kind kind st ((k, b) ∷ xs) = ground (arith, h.1 st b, sum-add_kind kind st xs)

  sum-add_destination :
      (d : DestinationStats) (st : Status) (xs : List DestinationStats)
      → d.statuses ≡ no_buckets
      → sum_destinations g (add_destination d st xs) ≡ one st + sum_destinations g xs
  unfolding sum_destinations add_destination
  sum-add_destination d st [] e =
      omega (arith, ap (λ b. g (add_status st b)) e, h.0, h.1 st no_buckets)
  sum-add_destination d st (x ∷ xs) e =
      ground (arith, h.1 st x.statuses, sum-add_destination d st xs e)

  summarize-agrees :
      (ds : List Destination) (rs : List Delivery) (t : Summary)
      → g t.totals.statuses ≡ sum_kinds g t.by_kind
      → g t.totals.statuses ≡ sum_destinations g t.by_destination
      → let u = summarize ds rs t in
        (g u.totals.statuses ≡ sum_kinds g u.by_kind)
        × (g u.totals.statuses ≡ sum_destinations g u.by_destination)
  unfolding summarize
  summarize-agrees ds [] t k d = (k, d)
  summarize-agrees ds (r ∷ rs) t k d =
      summarize-agrees ds rs _
        (omega (
          arith,
          k,
          h.1 r.status t.totals.statuses,
          sum-add_kind (kind_at r.destination_id ds) r.status t.by_kind,
        ))
        (omega (
          arith,
          d,
          h.1 r.status t.totals.statuses,
          sum-add_destination (stats_of r ds) r.status t.by_destination refl,
        ))

-- The three counts of a bucket.
abbrev pub size : Buckets → ℕ
size b = b.delivered + b.failed + b.pending

one_delivered :
    (st : Status) (b : Buckets)
    → (add_status st b).delivered ≡ (if is_delivered st then 1 else 0) + b.delivered
one_delivered pending b = omega arith
one_delivered delivered b = omega arith
one_delivered failed b = omega arith

one_failed :
    (st : Status) (b : Buckets)
    → (add_status st b).failed ≡ (if is_failed st then 1 else 0) + b.failed
one_failed pending b = omega arith
one_failed delivered b = omega arith
one_failed failed b = omega arith

one_pending :
    (st : Status) (b : Buckets)
    → (add_status st b).pending ≡ (if is_pending st then 1 else 0) + b.pending
one_pending pending b = omega arith
one_pending delivered b = omega arith
one_pending failed b = omega arith

size-add_status : (st : Status) (b : Buckets) → size (add_status st b) ≡ suc (size b)
size-add_status pending b = omega arith
size-add_status delivered b = omega arith
size-add_status failed b = omega arith

attempted-size :
    (ds : List Destination) (rs : List Delivery) (t : Summary)
    → t.totals.attempted ≡ size t.totals.statuses
    → ((summarize ds rs t).totals.attempted ≡ size (summarize ds rs t).totals.statuses)
      × ((summarize ds rs t).totals.attempted ≡ length rs + t.totals.attempted)
unfolding summarize
attempted-size ds [] t h = (h, omega arith)
attempted-size ds (r ∷ rs) t h =
    let rest =
      attempted-size ds rs _ (omega (arith, h, size-add_status r.status t.totals.statuses)) in
    (rest.0, rest.1 ∙ omega arith)

-- What a field of the buckets counts in all, by kind and by destination.
unfoldable pub Agrees : (Buckets → ℕ) → Summary → Type 0
Agrees g t =
    (g t.totals.statuses ≡ sum_kinds g t.by_kind)
    × (g t.totals.statuses ≡ sum_destinations g t.by_destination)

-- The sums of `analytics` agree: of the deliveries in the window, those delivered, those failed and those
-- pending are as many in the totals as over the kinds and over the destinations, and together they
-- are the deliveries attempted, which are all those of the window.
pub analytics-Agrees :
    (since : ℤ) (s : Webhooks)
    → Agrees (λ b. b.delivered) (analytics since s).summary
      × Agrees (λ b. b.failed) (analytics since s).summary
      × Agrees (λ b. b.pending) (analytics since s).summary
      × ((analytics since s).summary.totals.attempted
          ≡ size (analytics since s).summary.totals.statuses)
      × ((analytics since s).summary.totals.attempted
          ≡ tally (λ r. leb (cutoff since s.now) r.created_at) s.deliveries)
unfolding Agrees analytics
analytics-Agrees since s =
    let total =
      attempted-size s.destinations (keep (λ r. leb (cutoff since s.now) r.created_at) s.deliveries)
        _ refl in
    (
      summarize-agrees _ _ (refl, one_delivered) s.destinations _ _ (unfold sum_kinds in refl)
          (unfold sum_destinations in refl),
      summarize-agrees _ _ (refl, one_failed) s.destinations _ _ (unfold sum_kinds in refl)
          (unfold sum_destinations in refl),
      summarize-agrees _ _ (refl, one_pending) s.destinations _ _ (unfold sum_kinds in refl)
          (unfold sum_destinations in refl),
      total.0,
      omega (arith, total.1, length-keep (λ r. leb (cutoff since s.now) r.created_at) s.deliveries),
    )
