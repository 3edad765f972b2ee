-- ===== src/Payments/Release/Frozen.antt =====
-- `releaseForPayout` and the escrows that do not hold, among them those that `report` has frozen.
use pee_rahat.Prelude.{
  ℕ, ◌≡◌, refl, true, false, ◌==◌, some, [], ◌∷◌, Table, find, find-update, update, arith, inl, inr,
  Bool-cases, Option-cases, Result-cases, HasUniqueIds, find-find_first, HasUniqueIds-update, Each,
  Each-find_where, ok,
}
use pee_rahat.Store.{PaymentStatus, Booking, TutorProfile, PaymentIntent, Db}
use pee_rahat.Bookings.Lifecycle.{
  belongs_to, intent_of, is_held, set_intent_status, report_checks, freeze_held, report,
}
use pee_rahat.Payments.Release.{
  holds_escrow, is_releasable, release_rows, release_intent, release_each, release_for_payout,
}

module _ (now : ℕ) (seen : Db) (unique : HasUniqueIds seen.intents) (j : ℕ) (i : PaymentIntent)
    (stored : find j seen.intents ≡ some i) (not_held : is_held i.status ≡ false) where
  other_intent :
      (k id : ℕ) (x : PaymentIntent)
      → intent_of seen k ≡ some (id, x)
      → is_held x.status ≡ true
      → (j == id) ≡ false
  other_intent k id x linked held = elim (Bool-cases (j == id)) [
    | inr other ↦ other
    | inl same ↦
        let there = find-find_first (λ _ i. belongs_to k i) seen.intents unique linked in
        absurd (ground arith)
  ]

  release_intent-keeps :
      (k : ℕ) (b : Booking) (t : TutorProfile) (db : Db)
      → holds_escrow (intent_of seen k) ≡ true
      → find j db.intents ≡ some i
      → find j (release_intent now k b t (intent_of seen k) db).1.intents ≡ some i
  unfolding release_rows
  release_intent-keeps k b t db held e = elim (Option-cases (intent_of seen k)) [
    | inl unlinked ↦ absurd (ground arith)
    | inr (p, linked) ↦
        let other = other_intent k p.0 p.1 linked (ground arith) in
        ground (
          arith,
          find-update p.0 j
              (λ (i : PaymentIntent). record i {
                status = PaymentStatus.released_for_payout;
                released_at = some now;
              })
              db.intents,
        )
  ]

  release_each-keeps :
      (rest : Table Booking) (db : Db)
      → Each (λ k b. is_releasable now seen k b ≡ true) rest
      → find j db.intents ≡ some i
      → find j (release_each now seen rest db).1.intents ≡ some i
  unfolding release_each is_releasable
  release_each-keeps [] db h e = e
  release_each-keeps ((k, b) ∷ rest) db h e = elim (Option-cases (find b.tutor_id seen.tutors)) [
    | inl no_tutor ↦ ground arith
    | inr (t, known) ↦
        let e1 = release_intent-keeps k b t db (ground arith) e in
        elim (Result-cases (release_intent now k b t (intent_of seen k) db).0) [
          | inr (x, stop) ↦ ground arith
          | inl (n, go) ↦
              let db1 = (release_intent now k b t (intent_of seen k) db).1 in
              let e2 = release_each-keeps rest db1 h.1 e1 in
              elim (Result-cases (release_each now seen rest db1).0) [
                | inr (x, stop) ↦ ground arith
                | inl (m, more) ↦ ground arith
              ]
        ]
  ]

-- A run of the release, whatever its outcome, leaves every escrow that does not hold as it was: one that
-- is disputed, refunded or paid out is not released.
pub release_for_payout-keeps :
    (now j : ℕ) (db : Db) (i : PaymentIntent)
    → HasUniqueIds db.intents
    → find j db.intents ≡ some i
    → is_held i.status ≡ false
    → find j (release_for_payout now db).1.intents ≡ some i
unfolding release_for_payout
release_for_payout-keeps now j db i unique stored not_held =
    release_each-keeps now db unique j i stored not_held _ db
      (Each-find_where (is_releasable now db) db.bookings) stored

report-intents :
    (now supabase_id k id : ℕ) (db : Db) (x : PaymentIntent)
    → intent_of db k ≡ some (id, x)
    → is_held x.status ≡ true
    → (report now supabase_id k db).0 ≡ ok tt
    → (report now supabase_id k db).1.intents
      ≡ update id (set_intent_status PaymentStatus.disputed) db.intents
unfolding report report_checks freeze_held
report-intents now supabase_id k id db x linked held done = ground arith

-- After a student's report of a class whose escrow holds, the escrow is disputed, and a run of the
-- release at any later instant leaves it disputed with its amount.
pub report_freezes :
    (now supabase_id k later id : ℕ) (db : Db) (x : PaymentIntent)
    → HasUniqueIds db.intents
    → intent_of db k ≡ some (id, x)
    → is_held x.status ≡ true
    → (report now supabase_id k db).0 ≡ ok tt
    → find id (release_for_payout later (report now supabase_id k db).1).1.intents
      ≡ some (record x { status = PaymentStatus.disputed })
report_freezes now supabase_id k later id db x unique linked held done =
    let rows = report-intents now supabase_id k id db x linked held done in
    let there = find-find_first (λ _ i. belongs_to k i) db.intents unique linked in
    let frozen = set_intent_status PaymentStatus.disputed in
    release_for_payout-keeps later id (report now supabase_id k db).1 (frozen x)
      (rw rows (HasUniqueIds-update id frozen db.intents unique))
      (rw rows (ground (arith, find-update id id frozen db.intents))) refl
