-- ===== src/Groups/Flow/Steps.antt =====
-- Changes of the bookings that move groups forwards only.
use pee_rahat.Prelude.{
  ℕ, ◌<◌, ◌≡◌, refl, sym, subst, ◌∙◌, Option, none, some, find, update, find-update, Table, Result,
  arith, inl, inr, ◌⊎◌, Result-cases, Bool-cases, HasUniqueIds, HasUniqueIds-update, ◌==◌,
}
use pee_rahat.Store.{
  GroupStatus, Booking, Db, Action, ◌>>=◌, reads, gets, modify, fanout_booking_change,
}
use pee_rahat.Store.Effects.{fanout_booking_change-Announces}

abbrev pub rank : Option GroupStatus → ℕ
rank none = 2
rank (some GroupStatus.forming) = 0
rank (some GroupStatus.tutor_review) = 1
rank (some GroupStatus.confirmed) = 2
rank (some GroupStatus.failed) = 2

-- The state stays, or moves forwards, where `confirmed` and `failed` are the last.
abbrev pub Flow : Option GroupStatus → Option GroupStatus → Type 0
Flow s s' = (s ≡ s') ⊎ (rank s < rank s')

pub Flow-trans : (a b c : Option GroupStatus) → Flow a b → Flow b c → Flow a c
Flow-trans a b c (inl e) q = subst (λ x. Flow x c) (sym e) q
Flow-trans a b c (inr h) (inl e) = subst (λ x. Flow a x) e (inr h)
Flow-trans a b c (inr h) (inr k) = inr (omega arith)

-- Every booking is still there, and its group has not moved backwards.
pub record Follows (db db' : Db) : Type 0 where
  pub unique : HasUniqueIds db'.bookings
  pub forward :
      (j : ℕ) (b : Booking)
      → find j db.bookings ≡ some b
      → (b' : Booking) × (find j db'.bookings ≡ some b') × Flow b.group_status b'.group_status

pub Follows-trans : (a b c : Db) → Follows a b → Follows b c → Follows a c
Follows-trans a b c p q = record {
  unique = q.unique;
  forward = λ j x found.
      let (y, there, step) = p.forward j x found in
      let (z, there', step') = q.forward j y there in
      (z, there', Flow-trans x.group_status y.group_status z.group_status step step');
}

-- The bookings are as before, or one of them has moved forwards.
abbrev pub Touches : Table Booking → Table Booking → Type 0
Touches t t' =
    (t' ≡ t)
    ⊎ (k : ℕ) × (f : Booking → Booking) × (t' ≡ update k f t)
      × ((b : Booking) → find k t ≡ some b → Flow b.group_status (f b).group_status)

pub Touches-Follows :
    (db db' : Db) → HasUniqueIds db.bookings → Touches db.bookings db'.bookings → Follows db db'
Touches-Follows db db' u (inl same) = record {
  unique = rw same u;
  forward = λ j b found. (b, rw same found, inl refl);
}
Touches-Follows db db' u (inr (k, f, e, step)) = record {
  unique = rw e (HasUniqueIds-update k f db.bookings u);
  forward = λ j b found. elim (Bool-cases (j == k)) [
    | inl same ↦
        let is_k : j ≡ k = ground arith in
        (
          f b,
          rw e (ground (arith, find-update k j f db.bookings)),
          step b (subst (λ x. find x db.bookings ≡ some b) is_k found),
        )
    | inr other ↦ (b, rw e (ground (arith, find-update k j f db.bookings)), inl refl)
  ];
}

module _ {A : Type 0} where
  -- The action leaves the bookings as they are.
  unfoldable pub KeepsBookings : Action A → Type 0
  KeepsBookings m = (db : Db) → (m db).1.bookings ≡ db.bookings

  -- The action changes no booking, or applies `f` to the row `k` and to no other.
  unfoldable pub ChangesOnly : ℕ → (Booking → Booking) → Action A → Type 0
  ChangesOnly k f m =
      (db : Db) → ((m db).1.bookings ≡ db.bookings) ⊎ ((m db).1.bookings ≡ update k f db.bookings)

module _ {A B : Type 0} (m : Action A) (f : A → Action B) where
  pub KeepsBookings-bind :
      KeepsBookings m → ((a : A) → KeepsBookings (f a)) → KeepsBookings (m >>= f)
  unfolding KeepsBookings
  KeepsBookings-bind h g db = elim (Result-cases (m db).0) [
    | inr (e, stop) ↦ rw (stop, ◌>>=◌) (h db)
    | inl (a, go) ↦ rw (go, ◌>>=◌) (g a (m db).1 ∙ h db)
  ]

  -- A call that may change the row, before others that change none.
  pub ChangesOnly-then :
      (k : ℕ) (g : Booking → Booking)
      → ChangesOnly k g m
      → ((a : A) → KeepsBookings (f a))
      → ChangesOnly k g (m >>= f)
  unfolding KeepsBookings ChangesOnly
  ChangesOnly-then k g h rest db = elim (Result-cases (m db).0) [
    | inr (e, stop) ↦ rw (stop, ◌>>=◌) (h db)
    | inl (a, go) ↦
        rw (go, ◌>>=◌)
          (subst (λ t. (t ≡ db.bookings) ⊎ (t ≡ update k g db.bookings)) (sym (rest a (m db).1))
            (h db))
  ]

  -- Calls that change none, before one that may.
  pub ChangesOnly-after :
      (k : ℕ) (g : Booking → Booking)
      → KeepsBookings m
      → ((a : A) → ChangesOnly k g (f a))
      → ChangesOnly k g (m >>= f)
  unfolding KeepsBookings ChangesOnly
  ChangesOnly-after k g h rest db = elim (Result-cases (m db).0) [
    | inr (e, stop) ↦ rw (stop, ◌>>=◌) (inl (h db))
    | inl (a, go) ↦
        rw (go, ◌>>=◌)
          (subst (λ t. ((f a (m db).1).1.bookings ≡ t) ⊎ ((f a (m db).1).1.bookings ≡ update k g t))
            (h db) (rest a (m db).1))
  ]

pub fanout-KeepsBookings : (k : ℕ) → KeepsBookings (fanout_booking_change k)
unfolding KeepsBookings
fanout-KeepsBookings k db = let (es, told) = fanout_booking_change-Announces k db in ground arith

module _ {A : Type 0} where
  pub reads-KeepsBookings : (f : Db → Result A) → KeepsBookings (reads f)
  unfolding KeepsBookings
  reads-KeepsBookings f db = refl

  pub gets-KeepsBookings : (f : Db → A) → KeepsBookings (gets f)
  unfolding KeepsBookings
  gets-KeepsBookings f db = refl

pub modify-KeepsBookings :
    (f : Db → Db) → ((db : Db) → (f db).bookings ≡ db.bookings) → KeepsBookings (modify f)
unfolding KeepsBookings
modify-KeepsBookings f h db = h db
