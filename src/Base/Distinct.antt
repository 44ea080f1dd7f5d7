-- ===== src/Base/Distinct.antt =====
-- Rows with keys of their own, as a primary key has it, through the queries of `Lists`, `Order` and
-- `Table`.
use Prim.Native.Nat.{ℕ, zero, suc, ◌≤◌}
use Prim.Native.String.{String}
use mathlib.Core.Path.{◌≡◌, ap, refl, sym, ◌∙◌}
use mathlib.Core.Logic.{◌≢◌, inl, inr}
use mathlib.Core.Bool.{Bool, true, false}
use mathlib.Core.Option.{some}
use mathlib.Core.List.{List, [], ◌∷◌, Memᴰ, map}
use native.Mathlib.Omega.{arith}
use text.Mathlib.Text.{◌==◌}
use text.Mathlib.TextEquality.{eq_iff}
use aira_agent.Base.Tests.{Bool-cases}
use aira_agent.Base.Lists.{All, keep, tally, take, length}
use aira_agent.Base.Query.{All-mem}
use aira_agent.Base.Order.{insert_by, sort_by, All-insert_by, All-sort_by, All-take}
use aira_agent.Base.Table.{find, update, All-update}

-- Keys that a test tells apart.
pub apart : (a b : String) → (a == b) ≡ false → a ≢ b
apart a b h = ground (arith, h, eq_iff a b)

module _ {ℓ} {A : Type ℓ} where
  pub All-keep_sub {κ} :
      (P : A → Type κ) (p : A → Bool) (xs : List A) → All P xs → All P (keep p xs)
  unfolding keep
  All-keep_sub P p [] h = tt
  All-keep_sub P p (x ∷ xs) h = elim (Bool-cases (p x)) [
    | inl e ↦ rw e (h.0, All-keep_sub P p xs h.1)
    | inr e ↦ rw e (All-keep_sub P p xs h.1)
  ]

  -- What a filter keeps meets its test.
  pub All-kept : (p : A → Bool) (xs : List A) → All (λ x. p x ≡ true) (keep p xs)
  unfolding keep
  All-kept p [] = tt
  All-kept p (x ∷ xs) = elim (Bool-cases (p x)) [
    | inl e ↦ rw e (rw e refl, All-kept p xs)
    | inr e ↦ rw e (All-kept p xs)
  ]

  pub mem_kept : (p : A → Bool) (xs : List A) {x : A} → Memᴰ x xs → p x ≡ true → Memᴰ x (keep p xs)
  unfolding keep
  mem_kept p [] m h = elim m [ ]
  mem_kept p (y ∷ xs) {x} (Memᴰ.head q) h = rw (← q, h) (Memᴰ.head refl)
  mem_kept p (y ∷ xs) {x} (Memᴰ.tail m) h = elim (Bool-cases (p y)) [
    | inl e ↦ rw e (Memᴰ.tail (mem_kept p xs m h))
    | inr e ↦ rw e (mem_kept p xs m h)
  ]

  mem_inserted_self : (le : A → A → Bool) (x : A) (xs : List A) → Memᴰ x (insert_by le x xs)
  unfolding insert_by
  mem_inserted_self le x [] = Memᴰ.head refl
  mem_inserted_self le x (y ∷ ys) = elim (Bool-cases (le x y)) [
    | inl e ↦ rw e (Memᴰ.head refl)
    | inr e ↦ rw e (Memᴰ.tail (mem_inserted_self le x ys))
  ]

  mem_inserted :
      (le : A → A → Bool) (x : A) (xs : List A) {z : A} → Memᴰ z xs → Memᴰ z (insert_by le x xs)
  unfolding insert_by
  mem_inserted le x [] m = elim m [ ]
  mem_inserted le x (y ∷ ys) (Memᴰ.head q) = elim (Bool-cases (le x y)) [
    | inl e ↦ rw e (Memᴰ.tail (Memᴰ.head q))
    | inr e ↦ rw e (Memᴰ.head q)
  ]
  mem_inserted le x (y ∷ ys) (Memᴰ.tail m) = elim (Bool-cases (le x y)) [
    | inl e ↦ rw e (Memᴰ.tail (Memᴰ.tail m))
    | inr e ↦ rw e (Memᴰ.tail (mem_inserted le x ys m))
  ]

  pub mem_sorted : (le : A → A → Bool) (xs : List A) {z : A} → Memᴰ z xs → Memᴰ z (sort_by le xs)
  unfolding sort_by
  mem_sorted le [] m = elim m [ ]
  mem_sorted le (x ∷ xs) {z} (Memᴰ.head q) = rw q (mem_inserted_self le x (sort_by le xs))
  mem_sorted le (x ∷ xs) {z} (Memᴰ.tail m) = mem_inserted le x (sort_by le xs) (mem_sorted le xs m)

  -- A limit that is not reached takes all.
  pub take_all : (n : ℕ) (xs : List A) → length xs ≤ n → take n xs ≡ xs
  take_all zero [] h = refl
  take_all zero (x ∷ xs) h = absurd (omega arith)
  take_all (suc n) [] h = refl
  take_all (suc n) (x ∷ xs) h = rw (take_all n xs (omega arith)) refl

  -- The lists in which no test holds.
  pub tally-zero : (p : A → Bool) (xs : List A) → All (λ x. p x ≡ false) xs → tally p xs ≡ 0
  unfolding tally
  tally-zero p [] h = refl
  tally-zero p (x ∷ xs) h = rw (h.0, tally-zero p xs h.1) refl

module _ {ℓ κ} {A : Type ℓ} {B : Type κ} (f : A → B) where
  pub mem_mapped : (xs : List A) {x : A} → Memᴰ x xs → Memᴰ (f x) (map f xs)
  mem_mapped [] m = elim m [ ]
  mem_mapped (y ∷ xs) (Memᴰ.head q) = Memᴰ.head (ap f q)
  mem_mapped (y ∷ xs) (Memᴰ.tail m) = Memᴰ.tail (mem_mapped xs m)

  pub All-mapped {μ} : (P : B → Type μ) (xs : List A) → All (λ x. P (f x)) xs → All P (map f xs)
  All-mapped P [] h = tt
  All-mapped P (x ∷ xs) h = (h.0, All-mapped P xs h.1)

module _ {ℓ} {R : Type ℓ} (key : R → String) where
  -- No two rows have the same key.
  unfoldable pub Distinct : List R → Type 0
  Distinct [] = Unit
  Distinct (r ∷ rs) = All (λ x. key r ≢ key x) rs × Distinct rs

  pub Distinct-keep : (p : R → Bool) (rs : List R) → Distinct rs → Distinct (keep p rs)
  unfolding Distinct keep
  Distinct-keep p [] h = tt
  Distinct-keep p (r ∷ rs) h = elim (Bool-cases (p r)) [
    | inl e ↦ rw e (All-keep_sub (λ x. key r ≢ key x) p rs h.0, Distinct-keep p rs h.1)
    | inr e ↦ rw e (Distinct-keep p rs h.1)
  ]

  Distinct-insert_by :
      (le : R → R → Bool) (r : R) (rs : List R)
      → All (λ x. key r ≢ key x) rs
      → Distinct rs
      → Distinct (insert_by le r rs)
  unfolding Distinct insert_by
  Distinct-insert_by le r [] n h = (tt, tt)
  Distinct-insert_by le r (y ∷ ys) n h = elim (Bool-cases (le r y)) [
    | inl e ↦ rw e (n, h)
    | inr e ↦ rw e (
      All-insert_by (λ x. key y ≢ key x) le r ys (λ q. n.0 (sym q)) h.0,
      Distinct-insert_by le r ys n.1 h.1,
    )
  ]

  pub Distinct-sort_by : (le : R → R → Bool) (rs : List R) → Distinct rs → Distinct (sort_by le rs)
  unfolding Distinct sort_by
  Distinct-sort_by le [] h = tt
  Distinct-sort_by le (r ∷ rs) h =
      Distinct-insert_by le r (sort_by le rs) (All-sort_by (λ x. key r ≢ key x) le rs h.0)
        (Distinct-sort_by le rs h.1)

  pub Distinct-take : (n : ℕ) (rs : List R) → Distinct rs → Distinct (take n rs)
  unfolding Distinct
  Distinct-take zero rs h = tt
  Distinct-take (suc n) [] h = tt
  Distinct-take (suc n) (r ∷ rs) h =
      (All-take (λ x. key r ≢ key x) n rs h.0, Distinct-take n rs h.1)

  -- A write that keeps the keys.
  pub Distinct-update :
      (k : String) (f : R → R) (rs : List R)
      → ((r : R) → key (f r) ≡ key r)
      → Distinct rs
      → Distinct (update key k f rs)
  unfolding Distinct update
  Distinct-update k f [] same h = tt
  Distinct-update k f (r ∷ rs) same h = elim (Bool-cases (key r == k)) [
    | inl e ↦ rw e (rw (same r) h.0, h.1)
    | inr e ↦ rw e (
      All-update key (λ x. key r ≢ key x) k f rs (λ x _ n q. n (q ∙ same x)) h.0,
      Distinct-update k f rs same h.1,
    )
  ]

  -- A row of the table is the one that its key finds.
  pub Distinct-find : (rs : List R) {r : R} → Distinct rs → Memᴰ r rs → find key (key r) rs ≡ some r
  unfolding Distinct find
  Distinct-find [] h m = elim m [ ]
  Distinct-find (x ∷ rs) {r} h (Memᴰ.head q) = ground (arith, q, eq_iff (key x) (key r))
  Distinct-find (x ∷ rs) {r} h (Memᴰ.tail m) = ground (
    arith,
    All-mem (λ y. key x ≢ key y) rs h.0 m,
    eq_iff (key x) (key r),
    Distinct-find rs {r = r} h.1 m,
  )

  pub find-mem : (k : String) (rs : List R) {r : R} → find key k rs ≡ some r → Memᴰ r rs
  unfolding find
  find-mem k [] h = absurd (cc)
  find-mem k (x ∷ rs) {r} h = elim (Bool-cases (key x == k)) [
    | inl e ↦ Memᴰ.head (ground (arith, rw e at h))
    | inr e ↦ Memᴰ.tail (find-mem k rs (rw e at h))
  ]

module _ {ℓ κ} {A : Type ℓ} {B : Type κ} (f : A → B) (key : B → String) where
  -- A mapping that keeps the keys.
  pub Distinct-map : (xs : List A) → Distinct (λ x. key (f x)) xs → Distinct key (map f xs)
  unfolding Distinct
  Distinct-map [] h = tt
  Distinct-map (x ∷ xs) h = (All-mapped f (λ y. key (f x) ≢ key y) xs h.0, Distinct-map xs h.1)
