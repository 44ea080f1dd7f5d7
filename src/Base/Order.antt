-- ===== src/Base/Order.antt =====
-- Sorting as Python's `sorted` and SQL's ORDER BY do it: rows that the order does not tell apart
-- keep their places.
use Prim.Native.Nat.{ℕ, zero, suc, ◌≤◌}
use mathlib.Core.Path.{◌≡◌, refl}
use mathlib.Core.Logic.{inl, inr}
use mathlib.Core.Bool.{Bool, true, false}
use mathlib.Core.List.{List, [], ◌∷◌}
use native.Mathlib.Omega.{arith}
use aira_agent.Base.Tests.{if◌then◌else◌, Bool-cases}
use aira_agent.Base.Lists.{All, tally, length, take}

module _ {ℓ} {A : Type ℓ} where
  unfoldable pub insert_by : (A → A → Bool) → A → List A → List A
  insert_by le x [] = x ∷ []
  insert_by le x (y ∷ ys) = if le x y then x ∷ y ∷ ys else y ∷ insert_by le x ys

  unfoldable pub sort_by : (A → A → Bool) → List A → List A
  sort_by le [] = []
  sort_by le (x ∷ xs) = insert_by le x (sort_by le xs)

  -- Each row comes before every later one.
  abbrev pub Ordered : (A → A → Bool) → List A → Type ℓ
  Ordered le [] = Unit
  Ordered le (x ∷ xs) = All (λ y. le x y ≡ true) xs × Ordered le xs

  pub All-insert_by {κ} :
      (P : A → Type κ) (le : A → A → Bool) (x : A) (xs : List A)
      → P x
      → All P xs
      → All P (insert_by le x xs)
  unfolding insert_by
  All-insert_by P le x [] p h = (p, tt)
  All-insert_by P le x (y ∷ ys) p h = elim (Bool-cases (le x y)) [
    | inl e ↦ rw e (p, h)
    | inr e ↦ rw e (h.0, All-insert_by P le x ys p h.1)
  ]

  pub All-sort_by {κ} :
      (P : A → Type κ) (le : A → A → Bool) (xs : List A) → All P xs → All P (sort_by le xs)
  unfolding sort_by
  All-sort_by P le [] h = tt
  All-sort_by P le (x ∷ xs) h = All-insert_by P le x (sort_by le xs) h.0 (All-sort_by P le xs h.1)

  tally-insert_by :
      (p : A → Bool) (le : A → A → Bool) (x : A) (xs : List A)
      → tally p (insert_by le x xs) ≡ tally p (x ∷ xs)
  unfolding tally insert_by
  tally-insert_by p le x [] = refl
  tally-insert_by p le x (y ∷ ys) = ground (arith, tally-insert_by p le x ys)

  -- A sorted list has the rows of the list.
  pub tally-sort_by :
      (p : A → Bool) (le : A → A → Bool) (xs : List A) → tally p (sort_by le xs) ≡ tally p xs
  unfolding tally sort_by
  tally-sort_by p le [] = refl
  tally-sort_by p le (x ∷ xs) =
      ground (arith, tally-insert_by p le x (sort_by le xs), tally-sort_by p le xs)

  length-insert_by :
      (le : A → A → Bool) (x : A) (xs : List A) → length (insert_by le x xs) ≡ suc (length xs)
  unfolding insert_by
  length-insert_by le x [] = refl
  length-insert_by le x (y ∷ ys) = ground (arith, length-insert_by le x ys)

  pub length-sort_by : (le : A → A → Bool) (xs : List A) → length (sort_by le xs) ≡ length xs
  unfolding sort_by
  length-sort_by le [] = refl
  length-sort_by le (x ∷ xs) =
      omega (arith, length-insert_by le x (sort_by le xs), length-sort_by le xs)

  insert_by-Ordered :
      (le : A → A → Bool)
      → ((x y : A) → le x y ≡ false → le y x ≡ true)
      → ((x y z : A) → le x y ≡ true → le y z ≡ true → le x z ≡ true)
      → (x : A) (xs : List A) → Ordered le xs
      → Ordered le (insert_by le x xs)
  unfolding insert_by
  insert_by-Ordered le total trans x [] h = (tt, tt)
  insert_by-Ordered le total trans x (y ∷ ys) h = elim (Bool-cases (le x y)) [
    | inl e ↦ rw e ((e, below e ys h.0), h)
    | inr e ↦ rw e (
      All-insert_by (λ z. le y z ≡ true) le x ys (total x y e) h.0,
      insert_by-Ordered le total trans x ys h.1,
    )
  ]
    where
      below :
          le x y ≡ true → (zs : List A) → All (λ z. le y z ≡ true) zs → All (λ z. le x z ≡ true) zs
      below e [] k = tt
      below e (z ∷ zs) k = (trans x y z e k.0, below e zs k.1)

  pub sort_by-Ordered :
      (le : A → A → Bool)
      → ((x y : A) → le x y ≡ false → le y x ≡ true)
      → ((x y z : A) → le x y ≡ true → le y z ≡ true → le x z ≡ true)
      → (xs : List A) → Ordered le (sort_by le xs)
  unfolding sort_by
  sort_by-Ordered le total trans [] = tt
  sort_by-Ordered le total trans (x ∷ xs) =
      insert_by-Ordered le total trans x (sort_by le xs) (sort_by-Ordered le total trans xs)

  pub length-take : (n : ℕ) (xs : List A) → length (take n xs) ≤ n
  length-take zero xs = omega arith
  length-take (suc n) [] = omega arith
  length-take (suc n) (x ∷ xs) = omega (arith, length-take n xs)

  pub All-take {κ} : (P : A → Type κ) (n : ℕ) (xs : List A) → All P xs → All P (take n xs)
  All-take P zero xs h = tt
  All-take P (suc n) [] h = tt
  All-take P (suc n) (x ∷ xs) h = (h.0, All-take P n xs h.1)

  pub Ordered-take :
      (le : A → A → Bool) (n : ℕ) (xs : List A) → Ordered le xs → Ordered le (take n xs)
  Ordered-take le zero xs h = tt
  Ordered-take le (suc n) [] h = tt
  Ordered-take le (suc n) (x ∷ xs) h =
      (All-take (λ y. le x y ≡ true) n xs h.0, Ordered-take le n xs h.1)
