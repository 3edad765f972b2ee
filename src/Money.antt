-- ===== src/Money.antt =====
-- What a payment is split into: rounding and percentages (`Money/Rounding`), the payout's deductions
-- (apps/api/src/payments/pricing.ts) and the refund split of a postponement
-- (apps/api/src/payments/refund-policy.service.ts).
pub mod Rounding
pub mod Pricing
pub mod RefundPolicy
