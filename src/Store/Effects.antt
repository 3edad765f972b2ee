-- ===== src/Store/Effects.antt =====
-- The announcements of a change (`fanoutBookingChange`) and the tables.
use pee_rahat.Prelude.{
  ℕ, ◌≡◌, refl, Option, none, some, List, ◌∷◌, find, Result, ok, arith, inl, inr, Option-cases,
}
use pee_rahat.Store.Rows.{Booking, Db, Effect, invalidate}
use pee_rahat.Store.Actions.{Action, ◌>>◌, audience_of, fanout_rows, fanout_booking_change}

-- The action ends well, and changes nothing but the calls made.
abbrev pub Announces : {A : Type 0} → A → Action A → Type 0
Announces a m = (db : Db) → (es : List Effect) × (m db ≡ (ok a, record db { effects = es }))

fanout_rows-effects :
    (k : ℕ) (o : Option Booking) (db : Db)
    → (es : List Effect) × (◌≡◌ {A = Result (Unit {0}) × Db}
        (ok tt, fanout_rows k o db)
        (ok tt, record db { effects = es }))
unfolding fanout_rows
fanout_rows-effects k none db = (db.effects, refl)
fanout_rows-effects k (some b) db = elim (Option-cases (find b.tutor_id db.tutors)) [
  | inl missing ↦ (db.effects, rw (missing, fanout_rows))
  | inr (t, e) ↦ (invalidate (audience_of db k b t) ∷ db.effects, rw (e, fanout_rows))
]

pub fanout_booking_change-Announces :
    (k : ℕ) → Announces {A = Unit {0}} tt (fanout_booking_change k)
unfolding fanout_booking_change
fanout_booking_change-Announces k db = fanout_rows-effects k (find k db.bookings) db

pub pair_eq {ℓ κ} :
    {A : Type ℓ} {B : Type κ} (p : A × B) {a : A} {b : B} → p.0 ≡ a → p.1 ≡ b → p ≡ (a, b)
pair_eq p h k = λ i. (h i, k i)

-- A call after one that ended well starts where that one left off.
pub then_ok :
    {A : Type 0} (m : Action (Unit {0})) (n : Action A) (db : Db)
    → (m db).0 ≡ ok tt
    → (m >> n) db ≡ n (m db).1
then_ok m n db h = ground (arith, h)
