-- ===== src/Payments/PromptPay/Tests.antt =====
-- The payload's theorems on concrete inputs.
use pee_rahat.Prelude.{◌≡◌, ◌<◌, refl, true, none, some, [], ◌∷◌, Text, ok, ◌>>=◌, arith, length}
use pee_rahat.Payments.PromptPay.{
  encode_prompt_pay_payload, format_amount, format_merchant_id, decimal,
}
use pee_rahat.Payments.PromptPay.Parser.{parse_prompt_pay_payload}
use pee_rahat.Payments.PromptPay.RoundTrip.{sent, parse-encode}
use pee_rahat.Payments.PromptPay.Endless.{parse_prompt_pay_payload-never}

-- "0812345678"
abbrev mobile : Text
mobile = b'0' ∷ b'8' ∷ b'1' ∷ b'2' ∷ b'3' ∷ b'4' ∷ b'5' ∷ b'6' ∷ b'7' ∷ b'8' ∷ []

abbrev mobile_id : Text
mobile_id =
    b'0' ∷ b'0' ∷ b'6' ∷ b'6' ∷ b'8' ∷ b'1' ∷ b'2' ∷ b'3' ∷ b'4' ∷ b'5' ∷ b'6' ∷ b'7' ∷ b'8' ∷ []

mobile_formatted : format_merchant_id mobile ≡ ok mobile_id
unfolding format_merchant_id
mobile_formatted = refl

amount_short : length (format_amount 350) < 100
unfolding decimal
amount_short = ground arith

parse-encode_example :
    (encode_prompt_pay_payload mobile 350 >>= λ payload. ok (parse_prompt_pay_payload 7 payload))
    ≡ ok (some (sent mobile_id 350))
parse-encode_example =
    parse-encode mobile mobile_id 350 mobile_formatted amount_short 7 (omega arith)

sent_example : sent mobile_id 350 ≡ record {
  merchant_id = mobile_id;
  amount_text = b'3' ∷ b'5' ∷ b'0' ∷ b'.' ∷ b'0' ∷ b'0' ∷ [];
  currency = b'7' ∷ b'6' ∷ b'4' ∷ [];
  country = b'T' ∷ b'H' ∷ [];
  crc_ok = true;
}
unfolding sent decimal
sent_example = refl

-- "00-4?"
parse_prompt_pay_payload-never_example :
    parse_prompt_pay_payload 100 (b'0' ∷ b'0' ∷ b'-' ∷ b'4' ∷ b'?' ∷ []) ≡ none
parse_prompt_pay_payload-never_example = parse_prompt_pay_payload-never b'0' b'0' b'?' [] refl 100
