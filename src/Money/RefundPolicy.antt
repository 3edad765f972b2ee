-- ===== src/Money/RefundPolicy.antt =====
-- apps/api/src/payments/refund-policy.service.ts: how the money of a booking is split when a
-- postponement ends without agreement. Amounts are whole baht; the student's part is
-- signed, since it is what the two rounded parts leave.
pub mod Balance
mod Tests
use pee_rahat.Prelude.{
  ℕ, ◌+◌, ltb, Bool, true, false, if◌then◌else◌, ℤ, pos, negsuc, ◌-ℤ◌, Result, ok, err, plain,
  ◌>>=◌, ◌>>◌, throw_if,
}
use pee_rahat.Money.Rounding.{hundred_percent, round_pct, EnvValue, unset, not_finite, number}

pub data PostponeInitiator : Type 0 where
  student tutor : PostponeInitiator

pub data PostponeOutcome : Type 0 where
  agreed no_agreement unresponsive tutor_initiated_no_agreement : PostponeOutcome

pub record RefundPolicyInput : Type 0 where
  pub initiator : PostponeInitiator
  pub was_short_notice : Bool
  pub outcome : PostponeOutcome
  pub amount_thb : ℤ

pub record RefundSplit : Type 0 where
  pub tutor_thb : ℕ
  pub platform_thb : ℕ
  pub student_refund_thb : ℤ

-- The fields of `RefundPolicyService`, in hundredths of a percent.
pub record RefundPolicy : Type 0 where
  pub tutor_cut_short_notice : ℕ
  pub platform_fee_short_notice : ℕ

abbrev pub default_tutor_cut_short_notice : ℕ
default_tutor_cut_short_notice = 5000

abbrev pub default_platform_fee_short_notice : ℕ
default_platform_fee_short_notice = 1000

-- The `readPct` of this file, which unlike that of pricing.ts admits 100.
unfoldable pub read_pct : EnvValue → ℕ → Result ℕ
read_pct unset fallback = ok fallback
read_pct not_finite fallback = err plain
read_pct (number (negsuc n)) fallback = err plain
read_pct (number (pos n)) fallback = if ltb hundred_percent n then err plain else ok n

-- The constructor.
unfoldable pub new_refund_policy : EnvValue → EnvValue → Result RefundPolicy
unfolding read_pct
new_refund_policy tutor_env platform_env = do
  cut ← read_pct tutor_env default_tutor_cut_short_notice
  fee ← read_pct platform_env default_platform_fee_short_notice
  throw_if (ltb hundred_percent (cut + fee)) plain
  ok (record { tutor_cut_short_notice = cut; platform_fee_short_notice = fee })

abbrev pub full_refund : ℕ → RefundSplit
full_refund amount = record { tutor_thb = 0; platform_thb = 0; student_refund_thb = pos amount }

-- Case A, the split of a short-notice request of the student.
unfoldable pub split_short_notice : RefundPolicy → ℕ → RefundSplit
split_short_notice policy amount =
    let tutor_part = round_pct amount policy.tutor_cut_short_notice in
    let platform_part = round_pct amount policy.platform_fee_short_notice in
    record {
      tutor_thb = tutor_part;
      platform_thb = platform_part;
      student_refund_thb = pos amount -ℤ pos tutor_part -ℤ pos platform_part;
    }

-- The cases of `computeSplit` on an amount that is not negative.
unfoldable pub split_by_outcome :
    RefundPolicy → PostponeOutcome → PostponeInitiator → Bool → ℕ → RefundSplit
split_by_outcome policy agreed initiator short amount = record {
  tutor_thb = amount;
  platform_thb = 0;
  student_refund_thb = pos 0;
}
split_by_outcome policy unresponsive initiator short amount = full_refund amount
split_by_outcome policy tutor_initiated_no_agreement initiator short amount = full_refund amount
split_by_outcome policy no_agreement student true amount = split_short_notice policy amount
split_by_outcome policy no_agreement student false amount = full_refund amount
split_by_outcome policy no_agreement tutor short amount = full_refund amount

split_amount : RefundPolicy → RefundPolicyInput → ℤ → Result RefundSplit
split_amount policy input (negsuc n) = err plain
split_amount policy input (pos n) =
    ok (split_by_outcome policy input.outcome input.initiator input.was_short_notice n)

unfoldable pub compute_split : RefundPolicy → RefundPolicyInput → Result RefundSplit
unfolding split_amount
compute_split policy input = split_amount policy input input.amount_thb

unfoldable pub compute_admin_manual_refund : ℤ → Result RefundSplit
compute_admin_manual_refund (negsuc n) = err plain
compute_admin_manual_refund (pos n) = ok (full_refund n)
