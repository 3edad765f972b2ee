-- ===== src/Payments.antt =====
-- apps/api/src/payments: the intents and the slips (`payments.service.ts`, with the administrator's
-- part in `admin.service.ts`), the check of a slip (`zercle-slip.service.ts`), the QR payload
-- (`promptpay.ts`), the escrow's release, and the payouts to the tutors (`payouts.service.ts`).
pub mod Payouts
pub mod Release
pub mod PromptPay
pub mod Zercle
pub mod Intents
pub mod Slips
