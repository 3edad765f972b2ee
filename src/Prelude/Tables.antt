-- ===== src/Prelude/Tables.antt =====
-- A database table: rows under their ids, newest first, with the calls of the client library that
-- the services make on it.
use Prim.Native.Nat.{ℕ, suc, ◌≤◌, max}
use mathlib.Core.Path.{◌≡◌, refl}
use mathlib.Core.Logic.{◌≢◌, ◌⊎◌, inl, inr}
use mathlib.Core.Bool.{Bool, true, false}
use mathlib.Core.Option
use mathlib.Core.Option.{Option, none, some}
use mathlib.Core.List.{List, [], ◌∷◌}
use native.Mathlib.Omega.{arith}
use pee_rahat.Prelude.Tests.{◌==◌, if◌then◌else◌, Bool-cases, Option-cases}

abbrev pub Table {ℓ} : Type ℓ → Type ℓ
Table R = List (ℕ × R)

module _ {ℓ} {R : Type ℓ} where
  -- `findUnique` by id
  abbrev pub find : ℕ → Table R → Option R
  find k [] = none
  find k ((j, r) ∷ t) = if k == j then some r else find k t

  -- `update` by id of a row that is there; without one nothing changes
  abbrev pub update : ℕ → (R → R) → Table R → Table R
  update k f [] = []
  update k f ((j, r) ∷ t) = (if k == j then (j, f r) else (j, r)) ∷ update k f t

  -- `updateMany`
  abbrev pub update_where : (ℕ → R → Bool) → (R → R) → Table R → Table R
  update_where p f [] = []
  update_where p f ((j, r) ∷ t) = (if p j r then (j, f r) else (j, r)) ∷ update_where p f t

  -- `findMany`
  abbrev pub find_where : (ℕ → R → Bool) → Table R → Table R
  find_where p [] = []
  find_where p ((j, r) ∷ t) = let rest = find_where p t in if p j r then (j, r) ∷ rest else rest

  -- `findFirst`
  abbrev pub find_first : (ℕ → R → Bool) → Table R → Option (ℕ × R)
  find_first p [] = none
  find_first p ((j, r) ∷ t) = if p j r then some (j, r) else find_first p t

  -- The id of a created row: one that no row has.
  abbrev pub fresh_id : Table R → ℕ
  fresh_id [] = 0
  fresh_id ((j, r) ∷ t) = max (suc j) (fresh_id t)

  -- Every row satisfies `P`.
  abbrev pub Each {κ} : (ℕ → R → Type κ) → Table R → Type κ
  Each P [] = Unit
  Each P ((j, r) ∷ t) = P j r × Each P t

  pub find-update :
      (k j : ℕ) (f : R → R) (t : Table R)
      → find j (update k f t) ≡ (if j == k then Option.map f (find j t) else find j t)
  find-update k j f [] = ground arith
  find-update k j f ((i, r) ∷ t) = ground (arith, find-update k j f t)

  pub find-fresh_id : (k : ℕ) (t : Table R) → fresh_id t ≤ k → find k t ≡ none
  find-fresh_id k [] h = refl
  find-fresh_id k ((j, r) ∷ t) h = ground (arith, find-fresh_id k t)

  pub Each-find {κ} :
      (P : ℕ → R → Type κ) (k : ℕ) {r : R} (t : Table R) → Each P t → find k t ≡ some r → P k r
  Each-find P k [] h e = cc
  Each-find P k ((j, r') ∷ t) h e = elim (Bool-cases (k == j)) [
    | inl same ↦ ground arith
    | inr other ↦ Each-find P k t h.1 (rw other at e)
  ]

  -- A row that is found after an insertion is the new one or was there.
  pub find-cons :
      (k i : ℕ) (r : R) {b : R} (t : Table R)
      → find i ((k, r) ∷ t) ≡ some b
      → (k ≡ i) × (r ≡ b) ⊎ (k ≢ i) × (find i t ≡ some b)
  find-cons k i r t e = elim (Bool-cases (i == k)) [
    | inl same ↦ inl (ground arith)
    | inr other ↦ inr (ground arith)
  ]

  -- A row that is found after an update comes from one that was there.
  pub find-update_cases :
      (k i : ℕ) (f : R → R) {b : R} (t : Table R)
      → find i (update k f t) ≡ some b
      → (a : R) × (find i t ≡ some a) × ((i ≡ k) × (f a ≡ b) ⊎ (i ≢ k) × (a ≡ b))
  find-update_cases k i f {b} t e = elim (Option-cases (find i t)) [
    | inl missing ↦ absurd (ground (arith, find-update k i f t))
    | inr (a, there) ↦ elim (Bool-cases (i == k)) [
      | inl same ↦ (a, there, inl (ground (arith, find-update k i f t)))
      | inr other ↦ (a, there, inr (ground (arith, find-update k i f t)))
    ]
  ]

  -- A predicate of every row is kept or made by an update of many rows.
  pub Each-update_where {κ κ'} :
      {P : ℕ → R → Type κ} {Q : ℕ → R → Type κ'} (p : ℕ → R → Bool) (f : R → R) (t : Table R)
      → ((k : ℕ) (r : R) → P k r → p k r ≡ true → Q k (f r))
      → ((k : ℕ) (r : R) → P k r → p k r ≡ false → Q k r)
      → Each P t
      → Each Q (update_where p f t)
  Each-update_where p f [] change stay h = tt
  Each-update_where p f ((k, r) ∷ t) change stay h = elim (Bool-cases (p k r)) [
    | inl hit ↦ rw hit (change k r h.0 hit, Each-update_where p f t change stay h.1)
    | inr miss ↦ rw miss (stay k r h.0 miss, Each-update_where p f t change stay h.1)
  ]
