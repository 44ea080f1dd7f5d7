-- ===== src/Base/First.antt =====
-- The first row of a query, in a list and in its sorted form.
use mathlib.Core.Path.{◌≡◌, refl, ◌∙◌}
use mathlib.Core.Logic.{inl, inr}
use mathlib.Core.Bool.{Bool, true, false, ◌||◌}
use mathlib.Core.Option.{none, some}
use mathlib.Core.List.{List, [], ◌∷◌, ◌++◌}
use native.Mathlib.Omega.{arith}
use aira_agent.Base.Tests.{Bool-cases}
use aira_agent.Base.Lists.{All, any, first}
use aira_agent.Base.Order.{insert_by, sort_by}

module _ {ℓ} {A : Type ℓ} (p : A → Bool) where
  any-insert_by :
      (le : A → A → Bool) (x : A) (xs : List A) → any p (insert_by le x xs) ≡ (p x || any p xs)
  unfolding any insert_by
  any-insert_by le x [] = refl
  any-insert_by le x (y ∷ ys) = ground (arith, any-insert_by le x ys)

  pub any-sort_by : (le : A → A → Bool) (xs : List A) → any p (sort_by le xs) ≡ any p xs
  unfolding any sort_by
  any-sort_by le [] = refl
  any-sort_by le (x ∷ xs) = ground (arith, any-insert_by le x (sort_by le xs), any-sort_by le xs)

  pub first-none : (xs : List A) → any p xs ≡ false → first p xs ≡ none
  unfolding any first
  first-none [] h = refl
  first-none (x ∷ xs) h = ground (arith, first-none xs)

  pub first-some : (xs : List A) → any p xs ≡ true → (x : A) × (first p xs ≡ some x)
  unfolding any first
  first-some [] h = absurd (cc)
  first-some (x ∷ xs) h = elim (Bool-cases (p x)) [
    | inl e ↦ rw e (x, refl)
    | inr e ↦ rw e (first-some xs (rw e at h))
  ]

  -- The row that is found meets the test, and what all rows meet.
  pub All-first {κ} :
      (P : A → Type κ) (xs : List A) {x : A} → All P xs → first p xs ≡ some x → P x × (p x ≡ true)
  unfolding first
  All-first P [] h e = absurd (cc)
  All-first P (y ∷ xs) {x} h e = elim (Bool-cases (p y)) [
    | inl t ↦ (let same : x ≡ y = cc (rw t at e) in rw same (h.0, t))
    | inr f ↦ All-first P xs h.1 (rw f at e)
  ]

  first-insert_by :
      (le : A → A → Bool) (x : A) (xs : List A)
      → p x ≡ false
      → first p (insert_by le x xs) ≡ first p xs
  unfolding first insert_by
  first-insert_by le x [] h = ground arith
  first-insert_by le x (y ∷ ys) h = ground (arith, first-insert_by le x ys h)

  -- The only row that meets a test is the first that does, in whatever order.
  pub first-only :
      (le : A → A → Bool) (xs : List A) (z : A)
      → any p xs ≡ false
      → p z ≡ true
      → first p (sort_by le (xs ++ z ∷ [])) ≡ some z
  unfolding any sort_by insert_by first
  first-only le [] z none_yet h = ground arith
  first-only le (x ∷ xs) z none_yet h =
      first-insert_by le x (sort_by le (xs ++ z ∷ [])) (ground arith)
      ∙ first-only le xs z (ground arith) h
