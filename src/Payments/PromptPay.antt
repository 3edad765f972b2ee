-- ===== src/Payments/PromptPay.antt =====
-- The payload of the QR code: apps/api/src/payments/promptpay.ts. An amount is a whole number of baht,
-- as the columns are. The merchant's id of the environment is an argument; an empty one counts as not
-- set.
pub mod Parser
mod Scan
mod RoundTrip
mod Endless
mod Tests
use pee_rahat.Prelude.{
  ℕ, zero, suc, ◌+◌, ◌-◌, ◌*◌, ◌/◌, ◌%◌, Bool, true, false, ◌&&◌, ltb, leb, ◌==◌, if◌then◌else◌, [],
  ◌∷◌, ◌++◌, length, Text, is_empty, Result, ok, err, plain, ◌>>=◌, ◌>>◌, throw_if,
}
use Prim.Native.Nat.{bit_xor}

-- `n.toString()`; `n` rounds are more than enough.
digits_of : ℕ → ℕ → Text → Text
digits_of zero n acc = acc
digits_of (suc fuel) n acc = elim (ltb n 10) [
  | true ↦ (b'0' + n) ∷ acc
  | false ↦ digits_of fuel (n / 10) ((b'0' + n % 10) ∷ acc)
]

unfoldable pub decimal : ℕ → Text
unfolding digits_of
decimal n = digits_of (suc n) n []

-- `padStart(2, "0")` of a number
unfoldable pub pad_two : ℕ → Text
pad_two n = if ltb n 10 then b'0' ∷ decimal n else decimal n

unfoldable pub tlv : Text → Text → Result Text
tlv tag value =
    throw_if (ltb 99 (length value)) plain >> ok (tag ++ pad_two (length value) ++ value)

abbrev crc_bit : ℕ → ℕ
crc_bit crc = if crc / 32768 % 2 == 1 then bit_xor (crc * 2) 4129 % 65536 else crc * 2 % 65536

abbrev crc_byte : ℕ → ℕ → ℕ
crc_byte crc c =
    crc_bit
      (crc_bit (crc_bit (crc_bit (crc_bit (crc_bit (crc_bit (crc_bit (bit_xor crc (c * 256)))))))))

crc_from : ℕ → Text → ℕ
crc_from crc [] = crc
crc_from crc (c ∷ cs) = crc_from (crc_byte crc c) cs

abbrev hex_digit : ℕ → ℕ
hex_digit d = if ltb d 10 then b'0' + d else b'A' + (d - 10)

-- Four digits in upper case: the sum is below 2 ^ 16.
unfoldable pub crc16_ccitt_false : Text → Text
unfolding crc_from
crc16_ccitt_false s =
    let crc = crc_from 65535 s in
    hex_digit (crc / 4096 % 16)
    ∷ hex_digit (crc / 256 % 16)
    ∷ hex_digit (crc / 16 % 16)
    ∷ hex_digit (crc % 16)
    ∷ []

abbrev is_digit : ℕ → Bool
is_digit c = leb b'0' c && leb c b'9'

-- `raw.replace(/\D/g, "")`
abbrev only_digits : Text → Text
only_digits [] = []
only_digits (c ∷ cs) = let rest = only_digits cs in if is_digit c then c ∷ rest else rest

-- A mobile number loses its leading zero to the country's prefix.
abbrev as_mobile : Text → Result Text
as_mobile [] = err plain
as_mobile (c ∷ cs) = if c == b'0' then ok (b'0' ∷ b'0' ∷ b'6' ∷ b'6' ∷ cs) else err plain

unfoldable pub format_merchant_id : Text → Result Text
format_merchant_id raw =
    let digits = only_digits raw in
    if length digits == 10
    then as_mobile digits
    else if length digits == 13
    then ok digits
    else if length digits == 15
    then ok digits
    else err plain

-- `amountThb.toFixed(2)`
abbrev format_amount : ℕ → Text
format_amount amount = decimal amount ++ b'.' ∷ b'0' ∷ b'0' ∷ []

abbrev prompt_pay_aid : Text
prompt_pay_aid =
    b'A' ∷ b'0' ∷ b'0' ∷ b'0' ∷ b'0' ∷ b'0' ∷ b'0' ∷ b'6' ∷ b'7' ∷ b'7' ∷ b'0' ∷ b'1' ∷ b'0' ∷ b'1'
    ∷ b'1' ∷ b'1' ∷ []

unfoldable pub encode_prompt_pay_payload : Text → ℕ → Result Text
encode_prompt_pay_payload merchant_id amount = do
  aid ← tlv (b'0' ∷ b'0' ∷ []) prompt_pay_aid
  merchant ← format_merchant_id merchant_id >>= tlv (b'0' ∷ b'1' ∷ [])
  version ← tlv (b'0' ∷ b'0' ∷ []) (b'0' ∷ b'1' ∷ [])
  method ← tlv (b'0' ∷ b'1' ∷ []) (b'1' ∷ b'2' ∷ [])
  account ← tlv (b'2' ∷ b'9' ∷ []) (aid ++ merchant)
  currency ← tlv (b'5' ∷ b'3' ∷ []) (b'7' ∷ b'6' ∷ b'4' ∷ [])
  total ← tlv (b'5' ∷ b'4' ∷ []) (format_amount amount)
  country ← tlv (b'5' ∷ b'8' ∷ []) (b'T' ∷ b'H' ∷ [])
  let head =
      version ++ method ++ account ++ currency ++ total ++ country ++ b'6' ∷ b'3' ∷ b'0' ∷ b'4' ∷ []
  ok (head ++ crc16_ccitt_false head)

-- "promptpay-stub:amount="
abbrev stub_prefix : Text
stub_prefix =
    b'p' ∷ b'r' ∷ b'o' ∷ b'm' ∷ b'p' ∷ b't' ∷ b'p' ∷ b'a' ∷ b'y' ∷ b'-' ∷ b's' ∷ b't' ∷ b'u' ∷ b'b'
    ∷ b':' ∷ b'a' ∷ b'm' ∷ b'o' ∷ b'u' ∷ b'n' ∷ b't' ∷ b'=' ∷ []

unfoldable pub build_prompt_pay_payload : Text → ℕ → Result Text
build_prompt_pay_payload merchant_id amount =
    if is_empty merchant_id
    then ok (stub_prefix ++ decimal amount)
    else encode_prompt_pay_payload merchant_id amount
