-- ===== src/Bookings/InviteCode.antt =====
-- `generateInviteCode` and `clampInviteExpiry` of apps/api/src/bookings/bookings.service.ts. The random
-- bytes are an argument; a character of the code is its index in the alphabet of 32 characters.
pub mod Digits
mod Tests
use pee_rahat.Prelude.{
  ℕ, zero, suc, ◌+◌, ◌-◌, ◌*◌, ◌/◌, ◌%◌, ◌^◌, ltb, if◌then◌else◌, List, [], ◌∷◌, ◌++◌,
}
use pee_rahat.Calendar.{hour_ms}

-- `(value << 8) | byte`: the result of `<<` is taken modulo 2 ^ 32, and its low eight bits are free.
-- The sign that JavaScript gives to bit 31 does not show, since the value is only shifted by `>>>`.
abbrev shift_in : ℕ → ℕ → ℕ
shift_in value byte = (value * 256 + byte) % 2 ^ 32

-- `(value >>> bits) & 0x1f`
abbrev five_bits_at : ℕ → ℕ → ℕ
five_bits_at value bits = value / 2 ^ bits % 32

record Emitted : Type 0 where
  left : ℕ
  digits : List ℕ

-- `while (bits >= 5)`: at most twelve bits wait, so two rounds are enough.
emit_digits : ℕ → ℕ → ℕ → Emitted
emit_digits zero value bits = record { left = bits; digits = [] }
emit_digits (suc fuel) value bits =
    let rest = emit_digits fuel value (bits - 5) in
    if ltb bits 5
    then record { left = bits; digits = [] }
    else record { left = rest.left; digits = five_bits_at value (bits - 5) ∷ rest.digits }

-- The loop over the bytes.
code_of_bytes : ℕ → ℕ → List ℕ → List ℕ
code_of_bytes value bits [] = []
code_of_bytes value bits (byte ∷ bytes) =
    let value' = shift_in value byte in
    let out = emit_digits 3 value' (bits + 8) in out.digits ++ code_of_bytes value' out.left bytes

unfoldable pub generate_invite_code : List ℕ → List ℕ
unfolding code_of_bytes emit_digits
generate_invite_code bytes = code_of_bytes 0 0 bytes

-- The default is a day before the class, and an hour before it if that has passed.
unfoldable pub clamp_invite_expiry : ℕ → ℕ → ℕ
clamp_invite_expiry now scheduled_at =
    let default_expiry = scheduled_at - 24 * hour_ms in
    if ltb now default_expiry then default_expiry else scheduled_at - 1 * hour_ms
