-- ===== src/Money/Pricing/Conservation.antt =====
-- The parts of a payout of apps/api/src/payments/pricing.ts against its gross amount.
use pee_rahat.Prelude.{
  ℕ, ◌+◌, ◌*◌, ◌-◌, ◌≤◌, ◌<◌, ◌≡◌, refl, arith, leb, ℤ, pos, negsuc, ok, inl, inr, Result-cases,
  Bool-cases, subst,
}
use pee_rahat.Money.Rounding.{hundred_percent, round_pct, round_pct-le, round_pct_near, EnvValue}
use pee_rahat.Money.Pricing.{
  PayoutPricing, read_pct, commission_pct, withholding_tax_pct, split_gross, price_payout,
}

-- A percentage that is read is below 100%, if the fallback is.
pub read_pct-lt :
    (e : EnvValue) (d : ℕ) {p : ℕ} → d < hundred_percent → read_pct e d ≡ ok p → p < hundred_percent
unfolding read_pct
read_pct-lt e d h r = ground arith

-- A payout in which nothing is lost: each deduction is within half a baht of its percentage.
pub record IsExactSplit (gross commission withholding : ℕ) (p : PayoutPricing) : Type 0 where
  pub same_gross : p.gross_thb ≡ gross
  pub adds_up : p.commission_thb + p.withholding_tax_thb + p.net_thb ≡ gross
  pub commission_low : gross * commission ≤ p.commission_thb * 10000 + 5000
  pub commission_high : p.commission_thb * 10000 ≤ gross * commission + 5000
  pub tax_low : (gross - p.commission_thb) * withholding ≤ p.withholding_tax_thb * 10000 + 5000
  pub tax_high : p.withholding_tax_thb * 10000 ≤ (gross - p.commission_thb) * withholding + 5000

pub split_gross-IsExactSplit :
    (g c w : ℕ) → c ≤ hundred_percent → w ≤ hundred_percent → IsExactSplit g c w (split_gross g c w)
unfolding split_gross
split_gross-IsExactSplit g c w hc hw = record {
  same_gross = refl;
  adds_up = omega (arith, round_pct-le g c hc, round_pct-le (g - round_pct g c) w hw);
  commission_low = (round_pct_near g c).0;
  commission_high = (round_pct_near g c).1;
  tax_low = (round_pct_near (g - round_pct g c) w).0;
  tax_high = (round_pct_near (g - round_pct g c) w).1;
}

-- The payout of a whole, non-negative gross amount is computed exactly when both percentages can be
-- read and their sum is below 100%. It is then an exact split at those percentages.
pub price_payout-IsExactSplit :
    (ce we : EnvValue) (g : ℕ) {c w : ℕ}
    → commission_pct ce ≡ ok c
    → withholding_tax_pct we ≡ ok w
    → c + w < hundred_percent
    → (p : PayoutPricing) × (price_payout ce we (pos g) ≡ ok p) × IsExactSplit g c w p
unfolding price_payout
price_payout-IsExactSplit ce we g {c} {w} ec ew h =
    (split_gross g c w, ground arith, split_gross-IsExactSplit g c w (omega arith) (omega arith))

-- Conversely a result, for any amount and any environment, is the exact split of a whole amount that
-- is not negative, at two percentages that could be read and that sum to less than 100%.
price_payout_sound :
    (ce we : EnvValue) (z : ℤ) {p : PayoutPricing}
    → price_payout ce we z ≡ ok p
    → (g c w : ℕ) × (z ≡ pos g)
      × (commission_pct ce ≡ ok c)
      × (withholding_tax_pct we ≡ ok w)
      × (c + w < hundred_percent)
      × IsExactSplit g c w p
unfolding price_payout
price_payout_sound ce we (negsuc n) e = cc
price_payout_sound ce we (pos n) {p} e = elim (Result-cases (commission_pct ce)) [
  | inr (x, bad) ↦ ground arith
  | inl (c, ec) ↦ elim (Result-cases (withholding_tax_pct we)) [
    | inr (x, bad) ↦ ground arith
    | inl (w, ew) ↦ elim (Bool-cases (leb hundred_percent (c + w))) [
      | inl over ↦ ground arith
      | inr under ↦
          let below : c + w < hundred_percent = ground arith in
          let split = split_gross-IsExactSplit n c w (omega arith) (omega arith) in
          let same : split_gross n c w ≡ p = ground arith in
          (n, c, w, refl, ec, ew, below, subst (IsExactSplit n c w) same split)
    ]
  ]
]
