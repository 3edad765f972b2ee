-- ===== src/Prelude/Keys.antt =====
-- Tables in which an id stands once, as the primary keys of the database see to.
use Prim.Native.Nat.{ℕ}
use mathlib.Core.Path.{◌≡◌}
use mathlib.Core.Logic.{inl, inr}
use mathlib.Core.Bool.{Bool, true, false}
use mathlib.Core.Option.{none, some}
use mathlib.Core.List.{[], ◌∷◌}
use native.Mathlib.Omega.{arith}
use pee_rahat.Prelude.Tests.{◌==◌, Bool-cases}
use pee_rahat.Prelude.Tables.{Table, find, find_first, find_where, update, find-update, Each}

module _ {ℓ} {R : Type ℓ} where
  abbrev pub HasUniqueIds : Table R → Type ℓ
  HasUniqueIds [] = Unit
  HasUniqueIds ((k, r) ∷ t) = (find k t ≡ none) × HasUniqueIds t

  -- A row that a search finds is the row of its id.
  pub find-find_first :
      (p : ℕ → R → Bool) {k : ℕ} {r : R} (t : Table R)
      → HasUniqueIds t
      → find_first p t ≡ some (k, r)
      → find k t ≡ some r
  find-find_first p [] u e = cc
  find-find_first p {k} {r} ((j, s) ∷ t) u e = elim (Bool-cases (p j s)) [
    | inl hit ↦ ground arith
    | inr miss ↦
        let there : find k t ≡ some r = find-find_first p t u.1 (rw miss at e) in
        elim (Bool-cases (k == j)) [ inl same ↦ absurd (ground arith) | inr other ↦ ground arith ]
  ]

  pub HasUniqueIds-update :
      (k : ℕ) (f : R → R) (t : Table R) → HasUniqueIds t → HasUniqueIds (update k f t)
  HasUniqueIds-update k f [] u = tt
  HasUniqueIds-update k f ((j, r) ∷ t) u = elim (Bool-cases (k == j)) [
    | inl same ↦ rw same (ground (arith, find-update k j f t), HasUniqueIds-update k f t u.1)
    | inr other ↦ rw other (ground (arith, find-update k j f t), HasUniqueIds-update k f t u.1)
  ]

  -- Every row that a search returns passes its test.
  pub Each-find_where :
      (p : ℕ → R → Bool) (t : Table R) → Each (λ k r. p k r ≡ true) (find_where p t)
  Each-find_where p [] = tt
  Each-find_where p ((k, r) ∷ t) = elim (Bool-cases (p k r)) [
    | inl hit ↦ rw hit (hit, Each-find_where p t)
    | inr miss ↦ rw miss (Each-find_where p t)
  ]

  find_where-find :
      (p : ℕ → R → Bool) (whole t : Table R)
      → ((k : ℕ) (r : R) → find k t ≡ some r → find k whole ≡ some r)
      → HasUniqueIds t
      → Each (λ k r. (p k r ≡ true) × (find k whole ≡ some r)) (find_where p t)
  find_where-find p whole [] part u = tt
  find_where-find p whole ((k, r) ∷ t) part u =
      let rest = find_where-find p whole t (λ j s e. part j s (ground arith)) u.1 in
      elim (Bool-cases (p k r)) [
        | inl hit ↦ rw hit ((hit, part k r (ground arith)), rest)
        | inr miss ↦ rw miss rest
      ]

  -- The rows that a search returns pass its test and are the rows of their ids.
  pub Each-find_where-find :
      (p : ℕ → R → Bool) (t : Table R)
      → HasUniqueIds t
      → Each (λ k r. (p k r ≡ true) × (find k t ≡ some r)) (find_where p t)
  Each-find_where-find p t u = find_where-find p t t (λ k r e. e) u

  -- If a search fails, no row passes its test.
  pub find-find_first-none :
      (p : ℕ → R → Bool) (k : ℕ) {r : R} (t : Table R)
      → find_first p t ≡ none
      → find k t ≡ some r
      → p k r ≡ false
  find-find_first-none p k [] none_there e = cc
  find-find_first-none p k ((j, s) ∷ t) none_there e = elim (Bool-cases (p j s)) [
    | inl hit ↦ absurd (ground arith)
    | inr miss ↦ elim (Bool-cases (k == j)) [
      | inl same ↦ ground arith
      | inr other ↦ find-find_first-none p k t (rw miss at none_there) (rw other at e)
    ]
  ]
