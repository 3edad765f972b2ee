-- ===== src/Payments/Payouts/Tests.antt =====
-- Runs of the payout batches on the sample database.
use pee_rahat.Prelude.{◌≡◌, refl, true, false, none, some, [], find, ok, sum_by, arith}
use pee_rahat.Store.{Db, PaymentIntent, PaymentStatus}
use pee_rahat.Samples.{payable_db, batched_db, batch, intent_with}
use pee_rahat.Money.Rounding.{unset}
use pee_rahat.Money.Pricing.{price_payout, commission_pct, withholding_tax_pct, read_pct}
use pee_rahat.Payments.Payouts.{
  is_due, gather, add_to_bucket, pay_buckets, compute_for_period, period_start_at, mark_failed,
}
use pee_rahat.Payments.Payouts.Gathering.{booked_amount, gather-total, compute_for_period_twice}
use pee_rahat.Payments.Payouts.Failure.{mark_failed_strands}

abbrev paid_db : Db
paid_db = (compute_for_period unset unset 0 100 payable_db).1

first_run : compute_for_period unset unset 0 100 payable_db ≡ (ok 1, paid_db)
unfolding compute_for_period is_due gather add_to_bucket pay_buckets price_payout commission_pct
    withholding_tax_pct read_pct
first_run = refl

compute_for_period_twice_example : compute_for_period unset unset 0 100 paid_db ≡ (ok 0, paid_db)
compute_for_period_twice_example =
    compute_for_period_twice unset unset 0 100 1 payable_db paid_db first_run

gather-total_example :
    sum_by (λ e. e.1.gross) (gather payable_db payable_db.intents [])
    ≡ sum_by (booked_amount payable_db) payable_db.intents
gather-total_example = gather-total payable_db payable_db.intents

abbrev stranded : PaymentIntent
stranded = intent_with PaymentStatus.released_for_payout (some 50) none

mark_failed_strands_example :
    let after = (mark_failed 30 9 batched_db).1 in
    (find 40 after.intents ≡ some stranded)
    × (is_due (period_start_at 200 after) 300 stranded ≡ false)
    × (is_due 0 300 stranded ≡ true)
mark_failed_strands_example =
    mark_failed_strands 30 9 40 10 50 200 300 0 300 batched_db (mark_failed 30 9 batched_db).1 batch
      (intent_with PaymentStatus.released_for_payout (some 50) (some 30)) refl (λ same. cc) refl
      refl refl refl refl refl (omega arith) (omega arith) (omega arith) refl
