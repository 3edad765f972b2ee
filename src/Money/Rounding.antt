-- ===== src/Money/Rounding.antt =====
-- Percentages and `Math.round`. A percentage read from the environment is a number with at most two
-- decimals, kept in hundredths of a percent, so 100% is 10000; the products and quotients of the
-- source are then exact, and `Math.round` is the only rounding.
use pee_rahat.Prelude.{ℕ, ◌+◌, ◌*◌, ◌/◌, ◌≤◌, ◌≡◌, arith, ℤ}

-- A percentage in hundredths.
abbrev pub hundred_percent : ℕ
hundred_percent = 10000

-- `Math.round((amount * pct) / 100)`: half is rounded up.
unfoldable pub round_pct : ℕ → ℕ → ℕ
round_pct amount pct = (2 * (amount * pct) + 10000) / 20000

-- What `process.env[key]` holds: nothing or "", a text that `Number` takes to no finite number, or
-- a number, in hundredths.
pub data EnvValue : Type 0 where
  unset not_finite : EnvValue
  number : ℤ → EnvValue

-- The rounded share is within half a unit of the exact one.
pub round_pct_near :
    (a p : ℕ) → (a * p ≤ round_pct a p * 10000 + 5000) × (round_pct a p * 10000 ≤ a * p + 5000)
unfolding round_pct
round_pct_near a p = (omega arith, omega arith)

-- A share of at most 100% is at most the whole.
pub round_pct-le : (a p : ℕ) → p ≤ hundred_percent → round_pct a p ≤ a
unfolding round_pct
round_pct-le a p h = grind arith

pub round_pct-zero : (p : ℕ) → round_pct 0 p ≡ 0
unfolding round_pct
round_pct-zero p = omega arith
