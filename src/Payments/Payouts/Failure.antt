-- ===== src/Payments/Payouts/Failure.antt =====
-- `markFailed` of apps/api/src/payments/payouts.service.ts and the batches after it.
use pee_rahat.Prelude.{
  ℕ, ◌-◌, ◌*◌, ◌≤◌, ◌<◌, ◌≡◌, ◌≢◌, ◌∙◌, Bool, true, false, ◌==◌, none, some, [], ◌∷◌, Table, find,
  arith, inl, inr, Bool-cases, or_default, find-update, update_where,
}
use pee_rahat.Store.{PaymentStatus, PaymentItemType, PayoutStatus, PaymentIntent, Payout, Db}
use pee_rahat.Payments.Payouts.{
  is_due, last_period_end, period_start_at, is_completed, is_linked_to, mark_failed,
}

-- The next period begins no earlier than any payout's period ends.
last_period_end_le :
    (t : Table Payout) (k : ℕ) (p : Payout)
    → find k t ≡ some p
    → p.period_end ≤ or_default (last_period_end t) 0
last_period_end_le [] k p e = cc
last_period_end_le ((j, q) ∷ rest) k p e = ground (arith, last_period_end_le rest k p)

last_period_end-is_some :
    (t : Table Payout) (k d : ℕ) {p : Payout}
    → find k t ≡ some p
    → or_default (last_period_end t) d ≡ or_default (last_period_end t) 0
last_period_end-is_some [] k d e = cc
last_period_end-is_some ((j, q) ∷ rest) k d e = ground arith

find-update_where :
    (p : PaymentIntent → Bool) (f : PaymentIntent → PaymentIntent) (j : ℕ) {i : PaymentIntent}
    (t : Table PaymentIntent)
    → find j t ≡ some i
    → p i ≡ true
    → find j (update_where (λ _ x. p x) f t) ≡ some (f i)
find-update_where p f j [] e hit = absurd (ground arith)
find-update_where p f j {i} ((k, x) ∷ t) e hit = elim (Bool-cases (j == k)) [
  | inl same ↦ let it : x ≡ i = ground (arith, e, same) in ground (arith, same, it, hit)
  | inr other ↦
      let rest = find-update_where p f j t (rw other at e) hit in
      elim (Bool-cases (p x)) [
        | inl changed ↦ ground (arith, other, rest, changed)
        | inr kept ↦ ground (arith, other, rest, kept)
      ]
]

not-is_completed : (s : PayoutStatus) → s ≢ PayoutStatus.completed → is_completed s ≡ false
not-is_completed s other = elim (Bool-cases (is_completed s)) [
  | inr open_payout ↦ open_payout
  | inl done ↦ absurd (ground arith)
]

mark_failed-rows :
    (k reason j : ℕ) (db : Db) {p : Payout} {i : PaymentIntent}
    → find k db.payouts ≡ some p
    → is_completed p.status ≡ false
    → find j db.intents ≡ some i
    → i.payout_id ≡ some k
    → (find k (mark_failed k reason db).1.payouts
        ≡ some (record p { status = PayoutStatus.failed; notes = some reason }))
      × (find j (mark_failed k reason db).1.intents ≡ some (record i { payout_id = none }))
unfolding mark_failed
mark_failed-rows k reason j db found open_payout there linked =
    let fail : Payout → Payout =
      λ p. record p { status = PayoutStatus.failed; notes = some reason } in
    let unlink : PaymentIntent → PaymentIntent = λ i. record i { payout_id = none } in
    let failed = find-update k k fail db.payouts in
    let unlinked =
      find-update_where (is_linked_to k) unlink j db.intents there (ground (arith, linked)) in
    (ground (arith, found, open_payout, failed), ground (arith, found, open_payout, unlinked))

-- If a payout that is not completed has gathered the released escrow `j` of a class, and that escrow was
-- released before the end of the payout's period, then `markFailed` takes the escrow out of the payout.
-- As long as the payout's row stays as `markFailed` left it, no batch of the default period, which
-- `runScheduledPayout` and `generateBatch` take, selects the escrow as it is then, at whatever instant
-- and to whatever end; a batch of an explicit period that has the instant of the release selects it.
pub mark_failed_strands :
    (k reason j class t now end from to : ℕ) (db db' : Db) (p : Payout) (i : PaymentIntent)
    → find k db.payouts ≡ some p
    → p.status ≢ PayoutStatus.completed
    → find j db.intents ≡ some i
    → i.payout_id ≡ some k
    → i.status ≡ PaymentStatus.released_for_payout
    → i.item_type ≡ PaymentItemType.booking
    → i.booking_id ≡ some class
    → i.released_at ≡ some t
    → t < p.period_end
    → from ≤ t
    → t < to
    → find k db'.payouts ≡ find k (mark_failed k reason db).1.payouts
    → (find j (mark_failed k reason db).1.intents ≡ some (record i { payout_id = none }))
      × (is_due (period_start_at now db') end (record i { payout_id = none }) ≡ false)
      × (is_due from to (record i { payout_id = none }) ≡ true)
unfolding is_due
mark_failed_strands k reason j class t now end from to db db' p i found unfinished there linked
      status item booked released early after before kept =
    let still_open = not-is_completed p.status unfinished in
    let (failed, unlinked) = mark_failed-rows k reason j db found still_open there linked in
    let row = kept ∙ failed in
    let low = last_period_end_le db'.payouts k _ row in
    let first = last_period_end-is_some db'.payouts k (now - 60 * 86400000) row in
    (
      unlinked,
      ground (arith, released, low, first, early),
      ground (arith, status, item, booked, released, after, before),
    )
