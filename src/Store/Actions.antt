-- ===== src/Store/Actions.antt =====
-- Actions on the database: the state comes back after a throw too, since what was written outside a
-- transaction stays written. Each write names the table that it changes.
use pee_rahat.Prelude.{
  ℕ, ◌==◌, if◌then◌else◌, Bool, Option, none, some, List, [], ◌∷◌, map, any, find, find_first,
  find_where, update, Error, Result, ok, err, bad_request,
}
use pee_rahat.Store.Rows.{
  User, TutorProfile, Booking, PaymentIntent, PostponeRequest, Effect, Db, invalidate,
}

abbrev pub Action : Type 0 → Type 0
Action A = Db → Result A × Db

module _ {A : Type 0} where
  abbrev pub pure : A → Action A
  pure a db = (ok a, db)

  abbrev pub raise : Error → Action A
  raise e db = (err e, db)

  abbrev pub gets : (Db → A) → Action A
  gets f db = (ok (f db), db)

  -- What may throw but writes nothing.
  abbrev pub reads : (Db → Result A) → Action A
  reads f db = (f db, db)

  abbrev pub or_raise : Option A → Error → Action A
  or_raise none e = raise e
  or_raise (some a) e = pure a

  -- `$transaction`: all of its writes, or none.
  abbrev pub transaction : Action A → Action A
  transaction m db = let (r, db') = m db in elim r [ ok a ↦ (ok a, db') | err e ↦ (err e, db) ]

module _ {A B : Type 0} where
  infixl 5 ◌>>=◌ ◌>>◌
  -- The next call sees what the one before it has written; a throw ends the chain.
  abbrev pub ◌>>=◌ : Action A → (A → Action B) → Action B
  ◌>>=◌ call next db =
      let (r, db') = call db in elim r [ err e ↦ (err e, db') | ok value ↦ next value db' ]

  abbrev pub ◌>>◌ : Action A → Action B → Action B
  call >> next = call >>= λ _. next

-- `if (c) throw e`
abbrev pub raise_if : Bool → Error → Action (Unit {0})
raise_if c e db = (if c then err e else ok tt, db)

abbrev pub modify : (Db → Db) → Action (Unit {0})
modify f db = (ok tt, f db)

abbrev pub update_booking : ℕ → (Booking → Booking) → Action (Unit {0})
update_booking k f = modify (λ db. record db { bookings = update k f db.bookings })

abbrev pub update_intent : ℕ → (PaymentIntent → PaymentIntent) → Action (Unit {0})
update_intent k f = modify (λ db. record db { intents = update k f db.intents })

abbrev pub update_request : ℕ → (PostponeRequest → PostponeRequest) → Action (Unit {0})
update_request k f = modify (λ db. record db { requests = update k f db.requests })

abbrev pub emit : Effect → Action (Unit {0})
emit e = modify (λ db. record db { effects = e ∷ db.effects })

-- `common/user-lookup.ts`: the row of the caller, by the id in the access token.
abbrev pub require_user : ℕ → Action (ℕ × User)
require_user supabase_id = do
  or_raise (← gets (λ db. find_first (λ k u. u.supabase_id == supabase_id) db.users)) bad_request

abbrev pub add_new : ℕ → List ℕ → List ℕ
add_new x xs = if any (λ y. y == x) xs then xs else x ∷ xs

-- `Array.from(new Set(xs))`, up to order
abbrev pub dedup : List ℕ → List ℕ
dedup [] = []
dedup (x ∷ xs) = add_new x (dedup xs)

-- The users whom a change of a booking concerns: its student, its tutor and its participants.
abbrev pub audience_of : Db → ℕ → Booking → TutorProfile → List ℕ
audience_of db k b t = dedup (
    b.student_id
    ∷ t.user_id
    ∷ map (λ p. p.1.student_id) (find_where (λ _ p. p.booking_id == k) db.participants))

unfoldable pub fanout_rows : ℕ → Option Booking → Db → Db
fanout_rows k none db = db
fanout_rows k (some b) db = elim (find b.tutor_id db.tutors) [
  | none ↦ db
  | some t ↦ record db { effects = invalidate (audience_of db k b t) ∷ db.effects }
]

-- `fanoutBookingChange` and `fanoutBookingChangeById`
unfoldable pub fanout_booking_change : ℕ → Action (Unit {0})
unfolding fanout_rows
fanout_booking_change k = modify (λ db. fanout_rows k (find k db.bookings) db)
