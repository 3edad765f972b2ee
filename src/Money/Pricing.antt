-- ===== src/Money/Pricing.antt =====
-- apps/api/src/payments/pricing.ts: what a tutor is paid out of a gross amount. Amounts are whole
-- baht; the environment's two values are parameters, in the form of `Money/Rounding`.
pub mod Conservation
mod Tests
use pee_rahat.Prelude.{
  ℕ, ◌+◌, ◌-◌, leb, if◌then◌else◌, ℤ, pos, negsuc, Result, ok, err, plain, ◌>>=◌, ◌>>◌, throw_if,
}
use pee_rahat.Money.Rounding.{hundred_percent, round_pct, EnvValue, unset, not_finite, number}

abbrev pub default_commission_pct : ℕ
default_commission_pct = 1000

abbrev pub default_withholding_pct : ℕ
default_withholding_pct = 300

pub record PayoutPricing : Type 0 where
  pub gross_thb : ℕ
  pub commission_thb : ℕ
  pub withholding_tax_thb : ℕ
  pub net_thb : ℕ

unfoldable pub read_pct : EnvValue → ℕ → Result ℕ
read_pct unset fallback = ok fallback
read_pct not_finite fallback = err plain
read_pct (number (negsuc n)) fallback = err plain
read_pct (number (pos n)) fallback = if leb hundred_percent n then err plain else ok n

unfoldable pub commission_pct : EnvValue → Result ℕ
commission_pct e = read_pct e default_commission_pct

unfoldable pub withholding_tax_pct : EnvValue → Result ℕ
withholding_tax_pct e = read_pct e default_withholding_pct

-- The arithmetic of `pricePayout`, once its checks have passed. `-` on ℕ is exact here, since
-- neither share exceeds what it is taken from.
unfoldable pub split_gross : ℕ → ℕ → ℕ → PayoutPricing
split_gross gross commission withholding =
    let commission_thb = round_pct gross commission in
    let after_commission = gross - commission_thb in
    let withholding_tax_thb = round_pct after_commission withholding in
    record {
      gross_thb = gross;
      commission_thb = commission_thb;
      withholding_tax_thb = withholding_tax_thb;
      net_thb = after_commission - withholding_tax_thb;
    }

price_checked : EnvValue → EnvValue → ℕ → Result PayoutPricing
price_checked commission_env withholding_env gross = do
  commission ← commission_pct commission_env
  withholding ← withholding_tax_pct withholding_env
  throw_if (leb hundred_percent (commission + withholding)) plain
  ok (split_gross gross commission withholding)

unfoldable pub price_payout : EnvValue → EnvValue → ℤ → Result PayoutPricing
unfolding price_checked
price_payout commission_env withholding_env (negsuc n) = err plain
price_payout commission_env withholding_env (pos n) = price_checked commission_env withholding_env n
