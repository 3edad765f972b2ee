-- ===== src/Payments/PromptPay/Parser.antt =====
-- The parser of QR payloads: `parsePromptPayPayload` of apps/api/src/payments/promptpay.ts. The
-- amount is left as the text that `parseFloat` is given. A loop is on fuel, since a length may be
-- negative; `none` says that the fuel ran out.
use pee_rahat.Prelude.{
  ℕ, zero, suc, ◌+◌, ◌-◌, ◌*◌, Bool, true, false, ◌&&◌, ◌==◌, if◌then◌else◌, or_default, Option,
  none, some, List, [], ◌∷◌, length, take, drop, Text, text_eq, trim_start, ℤ, pos, negsuc, ◌+ℤ◌,
  sub_ℕ, ltb_ℤ,
}
use pee_rahat.Payments.PromptPay.{is_digit, crc16_ccitt_false}

-- The digits that a text begins with, after a number.
abbrev pub digits_value : ℕ → Text → ℕ
digits_value acc [] = acc
digits_value acc (c ∷ cs) =
    let more = digits_value (acc * 10 + (c - b'0')) cs in if is_digit c then more else acc

abbrev pub parse_unsigned : Text → Option ℕ
parse_unsigned [] = none
parse_unsigned (c ∷ cs) = if is_digit c then some (digits_value (c - b'0') cs) else none

abbrev negate : ℕ → ℤ
negate zero = pos 0
negate (suc n) = negsuc n

abbrev with_sign : (ℕ → ℤ) → Option ℕ → Option ℤ
with_sign f none = none
with_sign f (some n) = some (f n)

abbrev pub parse_signed : Text → Option ℤ
parse_signed [] = none
parse_signed (c ∷ cs) =
    if c == b'-'
    then with_sign negate (parse_unsigned cs)
    else if c == b'+'
    then with_sign pos (parse_unsigned cs)
    else with_sign pos (parse_unsigned (c ∷ cs))

-- `parseInt(s, 10)`; `none` is NaN.
unfoldable pub parse_int : Text → Option ℤ
parse_int s = parse_signed (trim_start s)

-- A bound of `slice`: a negative one counts from the end.
abbrev pub bound : ℕ → ℤ → ℕ
bound size (pos n) = n
bound size (negsuc n) = size - (n + 1)

-- `s.slice(a, b)`
unfoldable pub slice : Text → ℤ → ℤ → Text
slice s a b = let start = bound (length s) a in take (bound (length s) b - start) (drop start s)

-- An object whose keys are texts: the newest entry of a key counts.
abbrev pub Tags : Type 0
Tags = List (Text × Text)

abbrev pub get_tag : Text → Tags → Option Text
get_tag key [] = none
get_tag key ((k, v) ∷ tags) = let rest = get_tag key tags in if text_eq k key then some v else rest

abbrev pub crc_tag : Text
crc_tag = b'6' ∷ b'3' ∷ []

-- One of the two loops: it runs while at least `margin` characters and one more are left, and the
-- outer one, `breaks`, ends with the tag of the check sum. A length that is no number has an empty
-- value, and is the last.
unfoldable pub scan_tags : ℕ → ℕ → Bool → Text → ℤ → Tags → Option Tags
scan_tags zero margin breaks s i tags = none
scan_tags (suc fuel) margin breaks s i tags =
    let tag = slice s i (i +ℤ pos 2) in
    elim (ltb_ℤ (i +ℤ pos margin) (pos (length s))) [
      | false ↦ some tags
      | true ↦ elim (parse_int (slice s (i +ℤ pos 2) (i +ℤ pos 4))) [
        | none ↦ some ((tag, slice s (i +ℤ pos 4) (pos 0)) ∷ tags)
        | some size ↦
            let tags' = (tag, slice s (i +ℤ pos 4) (i +ℤ pos 4 +ℤ size)) ∷ tags in
            let rest = scan_tags fuel margin breaks s (i +ℤ pos 4 +ℤ size) tags' in
            if breaks && text_eq tag crc_tag then some tags' else rest
      ]
    ]

pub record ParsedPromptPay : Type 0 where
  pub merchant_id : Text
  pub amount_text : Text
  pub currency : Text
  pub country : Text
  pub crc_ok : Bool

abbrev pub same_crc : Option Text → Text → Bool
same_crc none computed = false
same_crc (some given) computed = text_eq given computed

abbrev pub parsed : Text → Tags → Tags → ParsedPromptPay
parsed payload tags inner = record {
  merchant_id = or_default (get_tag (b'0' ∷ b'1' ∷ []) inner) [];
  amount_text = or_default (get_tag (b'5' ∷ b'4' ∷ []) tags) (b'0' ∷ []);
  currency = or_default (get_tag (b'5' ∷ b'3' ∷ []) tags) [];
  country = or_default (get_tag (b'5' ∷ b'8' ∷ []) tags) [];
  crc_ok =
      same_crc (get_tag crc_tag tags)
        (crc16_ccitt_false (slice payload (pos 0) (sub_ℕ (length payload) 4)));
}

unfoldable pub parse_prompt_pay_payload : ℕ → Text → Option ParsedPromptPay
parse_prompt_pay_payload fuel payload = elim (scan_tags fuel 4 true payload (pos 0) []) [
  | none ↦ none
  | some tags ↦
      elim (scan_tags fuel 0 false (or_default (get_tag (b'2' ∷ b'9' ∷ []) tags) []) (pos 0) []) [
        | none ↦ none
        | some inner ↦ some (parsed payload tags inner)
      ]
]
