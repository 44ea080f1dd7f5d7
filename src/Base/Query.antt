-- ===== src/Base/Query.antt =====
-- What the queries of `Lists` return: a filtered, ordered list's first row, and counts of filters.
use mathlib.Core.List.{Memᴰ}
use mathlib.Core.Path.{◌≡◌, refl, subst, sym}
use mathlib.Core.Logic.{◌⊎◌, inl, inr}
use mathlib.Core.Bool.{Bool, true, false, ◌&&◌}
use mathlib.Core.Option.{none, some}
use mathlib.Core.List.{List, [], ◌∷◌}
use native.Mathlib.Omega.{arith}
use aira_agent.Base.Tests.{Bool-cases, Option-cases}
use aira_agent.Base.Lists.{All, keep, tally, best}

module _ {ℓ} {A : Type ℓ} where
  pub All-mem {κ} : (P : A → Type κ) (xs : List A) {x : A} → All P xs → Memᴰ x xs → P x
  All-mem P [] h m = elim m [ ]
  All-mem P (y ∷ xs) h (Memᴰ.head e) = subst P (sym e) h.0
  All-mem P (y ∷ xs) h (Memᴰ.tail m) = All-mem P xs h.1 m

  pub All-intro {κ} : (P : A → Type κ) (xs : List A) → ((x : A) → Memᴰ x xs → P x) → All P xs
  All-intro P [] f = tt
  All-intro P (x ∷ xs) f = (f x (Memᴰ.head refl), All-intro P xs (λ y m. f y (Memᴰ.tail m)))

  pub mem-keep :
      (p : A → Bool) (xs : List A) {x : A} → Memᴰ x (keep p xs) → Memᴰ x xs × (p x ≡ true)
  unfolding keep
  mem-keep p [] m = elim m [ ]
  mem-keep p (y ∷ xs) {x} m = elim (Bool-cases (p y)) [
    | inl e ↦ here e (rw e at m) (mem-keep p xs)
    | inr e ↦ (let (a, b) = mem-keep p xs (rw e at m) in (Memᴰ.tail a, b))
  ]
    where
      here :
          p y ≡ true
          → Memᴰ x (y ∷ keep p xs)
          → (Memᴰ x (keep p xs) → Memᴰ x xs × (p x ≡ true))
          → Memᴰ x (y ∷ xs) × (p x ≡ true)
      here e (Memᴰ.head q) later = (Memᴰ.head q, subst (λ z. p z ≡ true) (sym q) e)
      here e (Memᴰ.tail t) later = (let (a, b) = later t in (Memᴰ.tail a, b))

  pub All-keep {κ} :
      (P : A → Type κ) (p : A → Bool) (xs : List A)
      → All P (keep p xs)
      → All (λ x. p x ≡ true → P x) xs
  unfolding keep
  All-keep P p [] h = tt
  All-keep P p (x ∷ xs) h = elim (Bool-cases (p x)) [
    | inl e ↦ (let g : P x × All P (keep p xs) = rw e at h in (λ _. g.0, All-keep P p xs g.1))
    | inr e ↦ (λ t. cc, All-keep P p xs (rw e at h))
  ]

  pub tally-keep : (p q : A → Bool) (xs : List A) → tally p (keep q xs) ≡ tally (λ x. q x && p x) xs
  unfolding tally keep
  tally-keep p q [] = refl
  tally-keep p q (x ∷ xs) = ground (arith, tally-keep p q xs)

  pub All-map {κ μ} :
      (P : A → Type κ) (Q : A → Type μ) (xs : List A) → ((x : A) → P x → Q x) → All P xs → All Q xs
  All-map P Q [] f h = tt
  All-map P Q (x ∷ xs) f h = (f x h.0, All-map P Q xs f h.1)

  pub All-zip {κ μ ν} :
      (P : A → Type κ) (Q : A → Type μ) (S : A → Type ν) (xs : List A)
      → ((x : A) → P x → Q x → S x)
      → All P xs
      → All Q xs
      → All S xs
  All-zip P Q S [] f h k = tt
  All-zip P Q S (x ∷ xs) f h k = (f x h.0 k.0, All-zip P Q S xs f h.1 k.1)

  pub best-none : (le : A → A → Bool) (xs : List A) → best le xs ≡ none → xs ≡ []
  unfolding best
  best-none le [] h = refl
  best-none le (x ∷ xs) h = ground arith

  -- How the first row of `x ∷ xs` comes about.
  best_cases :
      (le : A → A → Bool) (x : A) (xs : List A) (r : A)
      → best le (x ∷ xs) ≡ some r
      → (best le xs ≡ none) × (r ≡ x)
        ⊎ (y : A) × (best le xs ≡ some y) × ((le x y ≡ true) × (r ≡ x) ⊎ (le x y ≡ false) × (r ≡ y))
  unfolding best
  best_cases le x xs r h = elim (Option-cases (best le xs)) [
    | inl e ↦ inl (e, ground arith)
    | inr (y, e) ↦ inr (y, e, ground arith)
  ]

  pub best-mem : (le : A → A → Bool) (xs : List A) {r : A} → best le xs ≡ some r → Memᴰ r xs
  best-mem le [] h = unfold best in cc
  best-mem le (x ∷ xs) {r} h = elim (best_cases le x xs r h) [
    | inl (_, e) ↦ Memᴰ.head e
    | inr (y, _, inl (_, e)) ↦ Memᴰ.head e
    | inr (y, b, inr (_, e)) ↦ Memᴰ.tail (subst (λ z. Memᴰ z xs) (sym e) (best-mem le xs b))
  ]

  -- The first row of an ordered query comes before every other.
  pub best-least :
      (le : A → A → Bool)
      → ((x y : A) → le x y ≡ false → le y x ≡ true)
      → ((x y z : A) → le x y ≡ true → le y z ≡ true → le x z ≡ true)
      → (xs : List A) (r : A) → best le xs ≡ some r
      → All (λ x. le r x ≡ true) xs
  best-least le total trans [] r h = tt
  best-least le total trans (x ∷ xs) r h = elim (best_cases le x xs r h) [
    | inl (b, e) ↦ at_first e (rw (best-none le xs b) (self, tt))
    | inr (y, b, inl (t, e)) ↦ at_first e (
      self,
      All-map (λ z. le y z ≡ true) (λ z. le x z ≡ true) xs (λ z. trans x y z t)
          (best-least le total trans xs y b),
    )
    | inr (y, b, inr (f, e)) ↦ at_first e (total x y f, best-least le total trans xs y b)
  ]
    where
      self : le x x ≡ true
      self = elim (Bool-cases (le x x)) [ inl e ↦ e | inr e ↦ total x x e ]

      at_first :
          {w : A} → r ≡ w → All (λ z. le w z ≡ true) (x ∷ xs) → All (λ z. le r z ≡ true) (x ∷ xs)
      at_first e = subst (λ w. All (λ z. le w z ≡ true) (x ∷ xs)) (sym e)

  pub keep-nil : (p : A → Bool) (xs : List A) → keep p xs ≡ [] → All (λ x. p x ≡ false) xs
  unfolding keep
  keep-nil p [] h = tt
  keep-nil p (x ∷ xs) h = elim (Bool-cases (p x)) [
    | inl e ↦ absurd (cc (rw e at h))
    | inr e ↦ (e, keep-nil p xs (rw e at h))
  ]
