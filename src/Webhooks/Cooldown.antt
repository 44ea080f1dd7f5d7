-- ===== src/Webhooks/Cooldown.antt =====
-- When a destination of backend/app/webhooks.py cools down.
use aira_agent.Base.{
  ℕ, suc, ◌+◌, ◌*◌, ◌<◌, none, some, List, [], ◌∷◌, true, false, ◌≡◌, ◌≤◌, ◌↔◌, refl, arith, leb,
  ltb, length, inl, inr, Bool-cases, if◌then◌else◌, ap, ◌∙◌, if_true, if_false,
}
use aira_agent.Base.Int.{pos, at_least}
use aira_agent.Webhooks.Row.{Destination, Settings, in_cooldown}
use aira_agent.Webhooks.Delivery.{
  cools_down, cooldown_end, on_delivery_failure, on_delivery_success,
}

-- Terminal failures at the times of a list, the last of them first.
unfoldable pub fail_at : Settings → List ℕ → Destination → Destination
fail_at c [] d = d
fail_at c (t ∷ ts) d = on_delivery_failure c t (fail_at c ts d)

module _ (c : Settings) (d : Destination) where
  streak : (ts : List ℕ) → (fail_at c ts (on_delivery_success d)).consecutive_failures ≡ length ts
  unfolding fail_at on_delivery_failure on_delivery_success
  streak [] = refl
  streak (t ∷ ts) = rw (streak ts) refl

  module _ (k : ℕ) (on : c.webhook_cooldown_seconds ≡ pos (suc k)) where
    cools_down-leb : (threshold m : ℕ) → cools_down (pos (suc k)) threshold m ≡ leb threshold m
    unfolding cools_down
    cools_down-leb threshold m = ground arith

    -- What one more failure sets.
    cools :
        (t : ℕ) (ts : List ℕ)
        → (fail_at c (t ∷ ts) (on_delivery_success d)).cooldown_until ≡ (
            if leb (at_least 1 c.webhook_cooldown_threshold) (suc (length ts))
            then some (cooldown_end c.webhook_cooldown_seconds t)
            else (fail_at c ts (on_delivery_success d)).cooldown_until)
    unfolding fail_at on_delivery_failure
    cools t ts =
        ap
          (λ x.
            if x
            then some (cooldown_end c.webhook_cooldown_seconds t)
            else (fail_at c ts (on_delivery_success d)).cooldown_until)
          (ap
              (λ z.
                cools_down z (at_least 1 c.webhook_cooldown_threshold)
                  (suc (fail_at c ts (on_delivery_success d)).consecutive_failures))
              on
            ∙ cools_down-leb (at_least 1 c.webhook_cooldown_threshold)
                (suc (fail_at c ts (on_delivery_success d)).consecutive_failures)
            ∙ ap (λ x. leb (at_least 1 c.webhook_cooldown_threshold) (suc x)) (streak ts))

    none_yet :
        (ts : List ℕ)
        → leb (at_least 1 c.webhook_cooldown_threshold) (length ts) ≡ false
        → (fail_at c ts (on_delivery_success d)).cooldown_until ≡ none
    unfolding fail_at on_delivery_success
    none_yet [] short = refl
    none_yet (t ∷ ts) short = cools t ts ∙ if_false _ _ short ∙ none_yet ts (ground (arith, short))

    ends :
        (t now : ℕ)
        → ltb now (cooldown_end c.webhook_cooldown_seconds t) ≡ ltb now (t + suc k * 1000000)
    unfolding cooldown_end
    ends t now = ap (λ z. ltb now (cooldown_end z t)) on ∙ ground arith

    -- After a success and terminal failures at times of any order, the last of them at t, a destination
    -- cools down at a time exactly if the streak has reached max(1, webhook_cooldown_threshold) and
    -- the time is before t and the k + 1 seconds of the cooldown.
    pub cooldown_exact :
        (t : ℕ) (ts : List ℕ) (now : ℕ)
        → (in_cooldown (fail_at c (t ∷ ts) (on_delivery_success d)).cooldown_until now ≡ true)
          ↔ (at_least 1 c.webhook_cooldown_threshold ≤ suc (length ts))
            × (now < t + suc k * 1000000)
    unfolding in_cooldown
    cooldown_exact t ts now =
        elim (Bool-cases (leb (at_least 1 c.webhook_cooldown_threshold) (suc (length ts)))) [
          | inl e ↦
              (let same = ap (λ u. in_cooldown u now) (cools t ts ∙ if_true _ _ e) ∙ ends t now in
                (λ h. (ground arith, ground (arith, same, h)), λ h. same ∙ ground (arith, h)))
          | inr e ↦
              (let same =
                  ap (λ u. in_cooldown u now)
                    (cools t ts ∙ if_false _ _ e ∙ none_yet ts (ground (arith, e))) in
                (λ h. absurd (cc (same, h)), λ h. absurd (ground (arith, e, h))))
        ]
