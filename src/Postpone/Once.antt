-- ===== src/Postpone/Once.antt =====
-- Repeated runs of `resolveTimeout` of apps/api/src/bookings/postpone.service.ts.
use pee_rahat.Prelude.{
  ℕ, ◌≡◌, refl, subst, false, some, find, find_first, find-update, update, arith, inl, inr, ok,
  Bool-cases, Option-cases, Result-cases,
}
use pee_rahat.Money.RefundPolicy.{RefundPolicy}
use pee_rahat.Store.{Booking, PostponeStatus, PostponeRequest, Db}
use pee_rahat.Store.Effects.{fanout_booking_change-Announces}
use pee_rahat.Bookings.Overlap.{is_negotiating}
use pee_rahat.Postpone.Resolve.{
  Closing, outcome_of, has_request, settle_rows, apply_resolution, is_engaged, closing_by_timeout,
  resolve_open, resolve_found, resolve_timeout,
}

-- The request as the transaction leaves it.
abbrev closed : ℕ → Closing → PostponeRequest → PostponeRequest
closed now c r = record r {
  status = PostponeStatus.expired;
  resolved_as = some (outcome_of c);
  resolved_at = some now;
}

module _ (policy : RefundPolicy) (now request_id : ℕ) where
  apply_resolution-requests :
      (k : ℕ) (b : Booking) (r : PostponeRequest) (c : Closing) (actor : ℕ) (db : Db)
      → (apply_resolution policy now k b request_id r c actor db).0 ≡ ok tt
      → (apply_resolution policy now k b request_id r c actor db).1.requests
        ≡ update request_id (closed now c) db.requests
  unfolding apply_resolution settle_rows
  apply_resolution-requests k b r c actor db h = ground arith

  -- The request is closed after its booking was found and resolved.
  resolve_open-closes :
      (r : PostponeRequest) (k : ℕ) (b : Booking) (db db' : Db)
      → find request_id db.requests ≡ some r
      → resolve_open policy now request_id r (some (k, b)) db ≡ (ok tt, db')
      → (r' : PostponeRequest) × (find request_id db'.requests ≡ some r')
        × (is_negotiating r'.status ≡ false)
  unfolding resolve_open
  resolve_open-closes r k b db db' found h = elim (Option-cases (find b.tutor_id db.tutors)) [
    | inl no_tutor ↦ absurd (ground arith)
    | inr (t, known) ↦
        let c = closing_by_timeout (is_engaged db b t r) r.initiator_role in
        let settle = apply_resolution policy now k b request_id r c r.initiator_id db in
        elim (Result-cases settle.0) [
          | inr (e, stop) ↦ absurd (ground arith)
          | inl (u, go) ↦
              let rows = apply_resolution-requests k b r c r.initiator_id db go in
              let (es, told) = fanout_booking_change-Announces k settle.1 in
              let kept : settle.1.requests ≡ db'.requests = ground arith in
              let now_closed : find request_id db'.requests ≡ some (closed now c r) =
                ground (arith, find-update request_id request_id (closed now c) db.requests) in
              (closed now c r, now_closed, refl)
        ]
  ]

  resolve_found_twice :
      (now' : ℕ) (db db' : Db)
      → resolve_found policy now request_id (find request_id db.requests) db ≡ (ok tt, db')
      → resolve_found policy now' request_id (find request_id db'.requests) db' ≡ (ok tt, db')
  unfolding resolve_open
  resolve_found_twice now' db db' h = elim (Option-cases (find request_id db.requests)) [
    | inl no_request ↦
        let same : db ≡ db' = ground arith in
        subst
          (λ d. resolve_found policy now' request_id (find request_id d.requests) d ≡ (ok tt, d))
          same (rw no_request)
    | inr (r, found) ↦ elim (Bool-cases (is_negotiating r.status)) [
      | inr shut ↦
          let same : db ≡ db' = ground arith in
          subst
            (λ d. resolve_found policy now' request_id (find request_id d.requests) d ≡ (ok tt, d))
            same (rw (found, shut))
      | inl open_request ↦
          elim (Option-cases (find_first (λ _ b. has_request request_id b) db.bookings)) [
            | inl no_booking ↦
                let same : db ≡ db' = ground arith in
                subst
                  (λ d.
                    resolve_found policy now' request_id (find request_id d.requests) d
                    ≡ (ok tt, d))
                  same (rw (found, open_request, no_booking))
            | inr (p, linked) ↦
                let h' : resolve_open policy now request_id r (some (p.0, p.1)) db ≡ (ok tt, db') =
                  ground arith in
                let (r', found', shut) = resolve_open-closes r p.0 p.1 db db' found h' in
                rw (found', shut)
          ]
    ]
  ]

-- The job of a timeout is idempotent: once it has ended well, whatever it found, the same job at any
-- later instant ends well and changes nothing, so the escrow is divided at most once.
pub resolve_timeout_twice :
    (policy : RefundPolicy) (now now' request_id : ℕ) (db db' : Db)
    → resolve_timeout policy now request_id db ≡ (ok tt, db')
    → resolve_timeout policy now' request_id db' ≡ (ok tt, db')
unfolding resolve_timeout
resolve_timeout_twice policy now now' request_id db db' h =
    resolve_found_twice policy now request_id now' db db' h
