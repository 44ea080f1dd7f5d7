-- ===== src/Base/Table.antt =====
-- A database table with a text primary key, as the list of its rows in the order of insertion:
-- `session.get(Row, id)`, a write to the row that it returned, and what both keep.
use Prim.Native.String.{String}
use Prim.Native.Nat.{suc, ◌≤◌}
use mathlib.Core.Path.{◌≡◌, ◌∙◌}
use mathlib.Core.Logic.{inl, inr}
use mathlib.Core.Bool.{Bool, true}
use mathlib.Core.Option.{Option, none, some}
use mathlib.Core.List.{List, [], ◌∷◌, ◌++◌}
use native.Mathlib.Omega.{arith}
use text.Mathlib.Text.{◌==◌}
use text.Mathlib.TextEquality.{eq_iff}
use aira_agent.Base.Tests.{if◌then◌else◌, Bool-cases}
use aira_agent.Base.Lists.{All, tally}

module _ {ℓ} {R : Type ℓ} (key : R → String) where
  -- session.get(Row, id)
  unfoldable pub find : String → List R → Option R
  find k [] = none
  find k (r ∷ rs) = if key r == k then some r else find k rs

  -- UPDATE ... SET f WHERE id = k. Keys are unique, so at most one row is written.
  unfoldable pub update : String → (R → R) → List R → List R
  update k f [] = []
  update k f (r ∷ rs) = if key r == k then f r ∷ rs else r ∷ update k f rs

  pub find-key : (k : String) (rs : List R) {r : R} → find k rs ≡ some r → key r ≡ k
  unfolding find
  find-key k [] h = ground arith
  find-key k (x ∷ xs) {r} h = ground (arith, eq_iff (key x) k, find-key k xs {r = r})

  -- A lookup after a write: the written row under its own key, and no other row is touched.
  pub find-update :
      (k j : String) (f : R → R) (rs : List R)
      → ((r : R) → key (f r) ≡ key r)
      → find j (update k f rs)
        ≡ (if k == j then elim (find k rs) [ none ↦ none | some r ↦ some (f r) ] else find j rs)
  unfolding find update
  find-update k j f [] same = ground arith
  find-update k j f (x ∷ xs) same =
      ground
        (arith, same x, eq_iff (key x) k, eq_iff (key x) j, eq_iff k j, find-update k j f xs same)

  pub find-append :
      (k : String) (rs ss : List R) {r : R} → find k rs ≡ some r → find k (rs ++ ss) ≡ some r
  unfolding find
  find-append k [] ss h = ground arith
  find-append k (x ∷ xs) ss {r} h = ground (arith, find-append k xs ss {r = r})

  -- After a write every row that was there is there, related to what it was.
  pub find-update_linked {κ} :
      (Q : R → R → Type κ) (k j : String) (f : R → R) (rs : List R)
      → ((r : R) → key (f r) ≡ key r)
      → ((r : R) → Q r r)
      → ((r : R) → find k rs ≡ some r → Q r (f r))
      → (r : R) → find j rs ≡ some r
      → (r' : R) × (find j (update k f rs) ≡ some r') × Q r r'
  find-update_linked Q k j f rs same still written r h = elim (Bool-cases (k == j)) [
    | inl e ↦ (f r, find-update k j f rs same ∙ cc (e, here e), written r (here e))
    | inr e ↦ (r, find-update k j f rs same ∙ cc (e), still r)
  ]
    where
      here : (k == j) ≡ true → find k rs ≡ some r
      here e = rw ((eq_iff k j).0 e) h

  -- A predicate on all rows is kept by a write that keeps it on the row that is written.
  pub All-update {κ} :
      (P : R → Type κ) (k : String) (f : R → R) (rs : List R)
      → ((r : R) → find k rs ≡ some r → P r → P (f r))
      → All P rs
      → All P (update k f rs)
  unfolding find update
  All-update P k f [] step h = tt
  All-update P k f (x ∷ xs) step h = elim (Bool-cases (key x == k)) [
    | inl e ↦ rw e (step x (rw e) h.0, h.1)
    | inr e ↦ rw e (h.0, All-update P k f xs (λ r g. step r (rw e g)) h.1)
  ]

  -- A count of rows does not grow by a write that brings no row into it.
  pub tally-update-le :
      (p : R → Bool) (k : String) (f : R → R) (rs : List R)
      → ((r : R) → find k rs ≡ some r → p (f r) ≡ true → p r ≡ true)
      → tally p (update k f rs) ≤ tally p rs
  unfolding find update tally
  tally-update-le p k f [] step = omega arith
  tally-update-le p k f (x ∷ xs) step = elim (Bool-cases (key x == k)) [
    | inl e ↦ rw e (ground (arith, step x (rw e)))
    | inr e ↦ rw e (ground (arith, tally-update-le p k f xs (λ r g. step r (rw e g))))
  ]

  -- One write brings at most one row into a count.
  pub tally-update-le_suc :
      (p : R → Bool) (k : String) (f : R → R) (rs : List R)
      → tally p (update k f rs) ≤ suc (tally p rs)
  unfolding update tally
  tally-update-le_suc p k f [] = omega arith
  tally-update-le_suc p k f (x ∷ xs) = ground (arith, tally-update-le_suc p k f xs)

  -- The row that a write leaves under its key.
  pub find-update_self :
      (k : String) (f : R → R) (rs : List R) {r : R}
      → ((r : R) → key (f r) ≡ key r)
      → find k rs ≡ some r
      → find (key r) (update k f rs) ≡ some (f r)
  unfolding find update
  find-update_self k f [] same h = cc
  find-update_self k f (x ∷ xs) {r} same h = elim (Bool-cases (key x == k)) [
    | inl e ↦ rw e (ground (arith, rw e at h, same r, eq_iff (key (f r)) (key r)))
    | inr e ↦ rw e (
        ground (
          arith,
          find-update_self k f xs {r = r} same (rw e at h),
          find-key k xs {r = r} (rw e at h),
          eq_iff (key x) (key r),
          eq_iff (key x) k,
        ))
  ]
