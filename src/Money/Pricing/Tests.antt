-- ===== src/Money/Pricing/Tests.antt =====
-- Runs of the payout arithmetic.
use pee_rahat.Prelude.{◌≡◌, refl, arith, pos, ok, plain, err}
use pee_rahat.Money.Rounding.{unset, number, round_pct}
use pee_rahat.Money.Pricing.{
  PayoutPricing, price_payout, split_gross, commission_pct, withholding_tax_pct, read_pct,
}
use pee_rahat.Money.Pricing.Conservation.{IsExactSplit, price_payout-IsExactSplit}

default_commission : commission_pct unset ≡ ok 1000
unfolding commission_pct read_pct
default_commission = refl

default_withholding : withholding_tax_pct unset ≡ ok 300
unfolding withholding_tax_pct read_pct
default_withholding = refl

-- 350 baht at 10% and 3%: 35, then round(9.45) = 9, net 306.
price_350 :
    price_payout unset unset (pos 350)
    ≡ ok (record { gross_thb = 350; commission_thb = 35; withholding_tax_thb = 9; net_thb = 306 })
unfolding price_payout commission_pct withholding_tax_pct read_pct split_gross round_pct
price_350 = refl

price_misconfigured : price_payout (number (pos 9800)) unset (pos 350) ≡ err plain
unfolding price_payout commission_pct withholding_tax_pct read_pct
price_misconfigured = refl

price_payout-IsExactSplit_example :
    (p : PayoutPricing) × (price_payout unset unset (pos 350) ≡ ok p) × IsExactSplit 350 1000 300 p
price_payout-IsExactSplit_example =
    price_payout-IsExactSplit unset unset 350 default_commission default_withholding (omega arith)
