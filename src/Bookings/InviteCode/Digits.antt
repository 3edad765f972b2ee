-- ===== src/Bookings/InviteCode/Digits.antt =====
-- The digits of `generateInviteCode` and the instant of `clampInviteExpiry`.
use pee_rahat.Prelude.{ℕ, ◌+◌, ◌*◌, ◌<◌, ◌≡◌, refl, List, [], ◌∷◌, length, All, arith}
use pee_rahat.Calendar.{hour_ms}
use pee_rahat.Bookings.InviteCode.{generate_invite_code, clamp_invite_expiry}

-- The number that a list of digits denotes, the first digit the highest.
abbrev pub value_of : ℕ → ℕ → List ℕ → ℕ
value_of base acc [] = acc
value_of base acc (d ∷ ds) = value_of base (acc * base + d) ds

-- The code of five bytes has eight digits, each below 32, and they denote in base 32 the number that the
-- bytes denote in base 256.
generate_invite_code_digits :
    (a b c d e : ℕ)
    → a < 256
    → b < 256
    → c < 256
    → d < 256
    → e < 256
    → let code = generate_invite_code (a ∷ b ∷ c ∷ d ∷ e ∷ []) in
      (length code ≡ 8)
      × All (λ x. x < 32) code
      × (value_of 32 0 code ≡ value_of 256 0 (a ∷ b ∷ c ∷ d ∷ e ∷ []))
unfolding generate_invite_code
generate_invite_code_digits a b c d e ha hb hc hd he = (refl, omega arith, omega arith)

-- The invitation ends after `now` exactly if the class begins more than an hour after `now`.
clamp_invite_expiry_iff :
    (now at : ℕ)
    → (now < clamp_invite_expiry now at → now + hour_ms < at)
      × (now + hour_ms < at → now < clamp_invite_expiry now at)
unfolding clamp_invite_expiry
clamp_invite_expiry_iff now at = (λ h. ground arith, λ h. ground arith)
