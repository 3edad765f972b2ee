-- ===== src/Money/RefundPolicy/Tests.antt =====
-- Runs of the refund split.
use pee_rahat.Prelude.{◌≡◌, refl, true, pos, ok, err, plain, ◌-ℤ◌, ◌+ℤ◌}
use pee_rahat.Money.Rounding.{unset, number, round_pct}
use pee_rahat.Money.RefundPolicy.{
  student, no_agreement, RefundPolicy, RefundPolicyInput, new_refund_policy, compute_split,
  split_by_outcome, split_short_notice,
}
use pee_rahat.Money.RefundPolicy.Balance.{compute_split-total}

abbrev default_policy : RefundPolicy
default_policy = record { tutor_cut_short_notice = 5000; platform_fee_short_notice = 1000 }

new_default : new_refund_policy unset unset ≡ ok default_policy
unfolding new_refund_policy
new_default = refl

new_over_100 : new_refund_policy (number (pos 9500)) unset ≡ err plain
unfolding new_refund_policy
new_over_100 = refl

short_notice_350 :
    compute_split default_policy (record {
      initiator = student;
      was_short_notice = true;
      outcome = no_agreement;
      amount_thb = pos 350;
    })
    ≡ ok (record { tutor_thb = 175; platform_thb = 35; student_refund_thb = pos 140 })
unfolding compute_split split_by_outcome split_short_notice round_pct ◌-ℤ◌
short_notice_350 = refl

abbrev late_request : RefundPolicyInput
late_request = record {
  initiator = student;
  was_short_notice = true;
  outcome = no_agreement;
  amount_thb = pos 350;
}

compute_split-total_example : pos 175 +ℤ pos 35 +ℤ pos 140 ≡ pos 350
compute_split-total_example = compute_split-total default_policy late_request short_notice_350
