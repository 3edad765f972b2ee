-- ===== src/Money/RefundPolicy/Balance.antt =====
-- The three parts of a refund split of apps/api/src/payments/refund-policy.service.ts.
use pee_rahat.Prelude.{
  ℕ, zero, suc, ◌+◌, ◌*◌, ◌≤◌, ◌<◌, ◌≡◌, refl, arith, Bool, true, false, ℤ, pos, negsuc, ◌+ℤ◌, ◌≤ℤ◌,
  int_laws, ok,
}
use native.Mathlib.Nat.{mul-le-mul_left}
use pee_rahat.Money.Rounding.{hundred_percent, round_pct}
use pee_rahat.Money.RefundPolicy.{
  PostponeInitiator, student, tutor, PostponeOutcome, agreed, no_agreement, unresponsive,
  tutor_initiated_no_agreement, RefundPolicyInput, RefundSplit, RefundPolicy, split_short_notice,
  split_by_outcome, split_amount, compute_split,
}

abbrev pub total : RefundSplit → ℤ
total s = pos s.tutor_thb +ℤ pos s.platform_thb +ℤ s.student_refund_thb

split_by_outcome-total :
    (policy : RefundPolicy) (o : PostponeOutcome) (i : PostponeInitiator) (short : Bool) (n : ℕ)
    → total (split_by_outcome policy o i short n) ≡ pos n
unfolding split_by_outcome split_short_notice
split_by_outcome-total policy agreed i short n = omega int_laws
split_by_outcome-total policy unresponsive i short n = omega int_laws
split_by_outcome-total policy tutor_initiated_no_agreement i short n = omega int_laws
split_by_outcome-total policy no_agreement student true n = omega int_laws
split_by_outcome-total policy no_agreement student false n = omega int_laws
split_by_outcome-total policy no_agreement tutor short n = omega int_laws

split_amount-total :
    (policy : RefundPolicy) (input : RefundPolicyInput) (z : ℤ) {s : RefundSplit}
    → split_amount policy input z ≡ ok s
    → total s ≡ z
unfolding split_amount
split_amount-total policy input (negsuc n) e = cc
split_amount-total policy input (pos n) {s} e =
    ground
      (arith, split_by_outcome-total policy input.outcome input.initiator input.was_short_notice n)

-- Whatever the percentages, the three parts of a split that is computed sum to the amount.
pub compute_split-total :
    (policy : RefundPolicy) (input : RefundPolicyInput) {s : RefundSplit}
    → compute_split policy input ≡ ok s
    → pos s.tutor_thb +ℤ pos s.platform_thb +ℤ s.student_refund_thb ≡ input.amount_thb
unfolding compute_split
compute_split-total policy input e = split_amount-total policy input input.amount_thb e

-- The split of an amount that is not negative is computed.
pub compute_split_total_function :
    (policy : RefundPolicy) (input : RefundPolicyInput) (n : ℕ)
    → input.amount_thb ≡ pos n
    → (s : RefundSplit) × (compute_split policy input ≡ ok s)
unfolding compute_split split_amount
compute_split_total_function policy input n e = (
  split_by_outcome policy input.outcome input.initiator input.was_short_notice n,
  rw (e, split_amount),
)

-- The student's part, the only one that the code gets by subtraction, is not negative.
abbrev pub IsNonneg : RefundSplit → Type 0
IsNonneg s = pos 0 ≤ℤ s.student_refund_thb

-- Two rounded shares that take less than 100% together leave something or nothing, never less.
shares-le : (a c f : ℕ) → c + f < hundred_percent → round_pct a c + round_pct a f ≤ a
unfolding round_pct
shares-le zero c f h = omega arith
shares-le (suc a) c f h =
    let top : (suc a) * (c + f) ≤ (suc a) * 9999 = mul-le-mul_left (suc a) (omega arith) in
    omega (arith, top)

split_short_notice-IsNonneg :
    (policy : RefundPolicy) (n : ℕ)
    → policy.tutor_cut_short_notice + policy.platform_fee_short_notice < hundred_percent
    → IsNonneg (split_short_notice policy n)
unfolding split_short_notice
split_short_notice-IsNonneg policy n h =
    omega (int_laws, shares-le n policy.tutor_cut_short_notice policy.platform_fee_short_notice h)

split_by_outcome-IsNonneg :
    (policy : RefundPolicy) (o : PostponeOutcome) (i : PostponeInitiator) (short : Bool) (n : ℕ)
    → policy.tutor_cut_short_notice + policy.platform_fee_short_notice < hundred_percent
    → IsNonneg (split_by_outcome policy o i short n)
unfolding split_by_outcome
split_by_outcome-IsNonneg policy agreed i short n h = omega arith
split_by_outcome-IsNonneg policy unresponsive i short n h = omega arith
split_by_outcome-IsNonneg policy tutor_initiated_no_agreement i short n h = omega arith
split_by_outcome-IsNonneg policy no_agreement student true n h =
    split_short_notice-IsNonneg policy n h
split_by_outcome-IsNonneg policy no_agreement student false n h = omega arith
split_by_outcome-IsNonneg policy no_agreement tutor short n h = omega arith

-- For a whole amount that is not negative the split is computed. If the two percentages of the policy
-- sum to less than 100%, its refund is not negative, on any outcome.
compute_split-IsNonneg :
    (policy : RefundPolicy) (o : PostponeOutcome) (i : PostponeInitiator) (short : Bool) (n : ℕ)
    → policy.tutor_cut_short_notice + policy.platform_fee_short_notice < hundred_percent
    → (s : RefundSplit) × (compute_split policy
          (record { initiator = i; was_short_notice = short; outcome = o; amount_thb = pos n })
        ≡ ok s)
      × IsNonneg s
unfolding compute_split split_amount
compute_split-IsNonneg policy o i short n h =
    (split_by_outcome policy o i short n, refl, split_by_outcome-IsNonneg policy o i short n h)

abbrev pub half_and_half : RefundPolicy
half_and_half = record { tutor_cut_short_notice = 5000; platform_fee_short_notice = 5000 }

halves : (n : ℕ) → round_pct (2 * n + 1) 5000 ≡ n + 1
unfolding round_pct
halves n = omega arith

-- The constructor admits percentages that sum to 100%. At 50% and 50% a short-notice request of the
-- student over an odd amount is split with a refund of -1.
compute_split_may_be_negative :
    (n : ℕ)
    → (s : RefundSplit) × (compute_split half_and_half (record {
      initiator = student;
      was_short_notice = true;
      outcome = no_agreement;
      amount_thb = pos (2 * n + 1);
    })
        ≡ ok s)
      × (s.student_refund_thb ≡ negsuc 0)
unfolding compute_split split_amount split_by_outcome split_short_notice
compute_split_may_be_negative n =
    (split_short_notice half_and_half (2 * n + 1), refl, omega (int_laws, halves n))
