-- ===== src/Payments/PromptPay/RoundTrip.antt =====
-- Payloads that `encodePromptPayPayload` writes and `parsePromptPayPayload` reads.
use pee_rahat.Prelude.{
  or_default, ℕ, suc, ◌≤◌, ◌+◌, ◌-◌, ◌<◌, ◌≡◌, refl, sym, subst, ◌∙◌, ap, true, false, ltb, some,
  List, [], ◌∷◌, ◌++◌, All, length, length-append, Text, text_eq, text_eq_iff, pos, sub_ℕ, ok,
  ◌>>=◌, arith,
}
use mathlib.Core.List.{append_assoc, append-nil}
use pee_rahat.Payments.PromptPay.{
  tlv, crc16_ccitt_false, format_merchant_id, format_amount, prompt_pay_aid,
  encode_prompt_pay_payload,
}
use pee_rahat.Payments.PromptPay.Parser.{
  parse_int, slice, Tags, get_tag, crc_tag, scan_tags, ParsedPromptPay, parsed,
  parse_prompt_pay_payload,
}
use pee_rahat.Payments.PromptPay.Scan.{
  length-print_field, Field, print_field, print, add_all, fuel_for, IsReadable, slice-append,
  scan_tags-field, scan_tags-front, scan_tags-end, parse_int-size,
}

tlv-field :
    (a b : ℕ) (v : Text)
    → length v < 100
    → tlv (a ∷ b ∷ []) v ≡ ok (print_field (record { first = a; second = b; value = v }))
unfolding tlv
tlv-field a b v h = let short : ltb 99 (length v) ≡ false = ground arith in rw short

length-crc16_ccitt_false : (s : Text) → length (crc16_ccitt_false s) ≡ 4
unfolding crc16_ccitt_false
length-crc16_ccitt_false s = refl

length-format_merchant_id :
    (raw : Text) {id : Text} → format_merchant_id raw ≡ ok id → length id < 16
unfolding format_merchant_id
length-format_merchant_id raw h = ground arith

abbrev field : ℕ → ℕ → Text → Field
field a b v = record { first = a; second = b; value = v }

-- The fields inside the merchant's one, and those of the payload before the check sum.
unfoldable pub inner_fields : Text → List Field
inner_fields id = field b'0' b'0' prompt_pay_aid ∷ field b'0' b'1' id ∷ []

unfoldable pub fields : Text → ℕ → List Field
fields id amount =
    field b'0' b'0' (b'0' ∷ b'1' ∷ [])
    ∷ field b'0' b'1' (b'1' ∷ b'2' ∷ [])
    ∷ field b'2' b'9' (print (inner_fields id))
    ∷ field b'5' b'3' (b'7' ∷ b'6' ∷ b'4' ∷ [])
    ∷ field b'5' b'4' (format_amount amount)
    ∷ field b'5' b'8' (b'T' ∷ b'H' ∷ [])
    ∷ []

abbrev crc_head : Text
crc_head = b'6' ∷ b'3' ∷ b'0' ∷ b'4' ∷ []

unfoldable pub head_of : Text → ℕ → Text
head_of id amount = print (fields id amount) ++ crc_head

inner_fields-print :
    (id : Text)
    → print_field (field b'0' b'0' prompt_pay_aid) ++ print_field (field b'0' b'1' id)
      ≡ print (inner_fields id)
unfolding inner_fields
inner_fields-print id =
    ap (λ s. print_field (field b'0' b'0' prompt_pay_aid) ++ s)
      (sym (append-nil (print_field (field b'0' b'1' id))))

parse_prompt_pay_payload-lem :
    (fuel : ℕ) (payload : Text) (tags inner : Tags)
    → scan_tags fuel 4 true payload (pos 0) [] ≡ some tags
    → scan_tags fuel 0 false (or_default (get_tag (b'2' ∷ b'9' ∷ []) tags) []) (pos 0) []
      ≡ some inner
    → parse_prompt_pay_payload fuel payload ≡ some (parsed payload tags inner)
unfolding parse_prompt_pay_payload
parse_prompt_pay_payload-lem fuel payload tags inner h h' =
    rw (h, parse_prompt_pay_payload, h', parse_prompt_pay_payload) refl

-- What the parser is to give back.
unfoldable pub sent : Text → ℕ → ParsedPromptPay
sent id amount = record {
  merchant_id = id;
  amount_text = format_amount amount;
  currency = b'7' ∷ b'6' ∷ b'4' ∷ [];
  country = b'T' ∷ b'H' ∷ [];
  crc_ok = true;
}

module _ (merchant id : Text) (amount : ℕ) (formatted : format_merchant_id merchant ≡ ok id)
    (short : length (format_amount amount) < 100) where
  id-lt : length id < 16
  id-lt = length-format_merchant_id merchant formatted

  account-lt : length (print (inner_fields id)) < 100
  unfolding inner_fields
  account-lt =
      let aid = field b'0' b'0' prompt_pay_aid in
      let own = field b'0' b'1' id in
      omega (
        arith,
        id-lt,
        length-print_field aid (omega arith),
        length-print_field own (omega (arith, id-lt)),
        length-append (print_field aid) (print (own ∷ [])),
        length-append (print_field own) [],
      )

  head_of-fields :
      print_field (field b'0' b'0' (b'0' ∷ b'1' ∷ []))
        ++ print_field (field b'0' b'1' (b'1' ∷ b'2' ∷ []))
        ++ print_field (field b'2' b'9' (print (inner_fields id)))
        ++ print_field (field b'5' b'3' (b'7' ∷ b'6' ∷ b'4' ∷ []))
        ++ print_field (field b'5' b'4' (format_amount amount))
        ++ print_field (field b'5' b'8' (b'T' ∷ b'H' ∷ []))
        ++ b'6' ∷ b'3' ∷ b'0' ∷ b'4' ∷ []
      ≡ head_of id amount
  unfolding head_of fields
  head_of-fields = simp (append_assoc, append-nil)

  inner-IsReadable : All (IsReadable false) (inner_fields id)
  unfolding inner_fields
  inner-IsReadable = let lt : length id < 100 = omega (arith, id-lt) in ground (arith, lt)

  fields-IsReadable : All (IsReadable true) (fields id amount)
  unfolding fields
  fields-IsReadable =
      let lt : length (print (inner_fields id)) < 100 = account-lt in ground (arith, short)

  encode_prompt_pay_payload-fields :
      encode_prompt_pay_payload merchant amount
      ≡ ok (head_of id amount ++ crc16_ccitt_false (head_of id amount))
  unfolding encode_prompt_pay_payload head_of fields
  encode_prompt_pay_payload-fields =
      let account : print_field (field b'0' b'0' prompt_pay_aid) ++ print_field (field b'0' b'1' id)
          ≡ print (inner_fields id) =
        inner_fields-print id in
      rw
        (
          tlv-field b'0' b'0' prompt_pay_aid (omega arith),
          formatted,
          tlv-field b'0' b'1' id (omega (arith, id-lt)),
          tlv-field b'0' b'0' (b'0' ∷ b'1' ∷ []) (omega arith),
          tlv-field b'0' b'1' (b'1' ∷ b'2' ∷ []) (omega arith),
          account,
          tlv-field b'2' b'9' (print (inner_fields id)) account-lt,
          tlv-field b'5' b'3' (b'7' ∷ b'6' ∷ b'4' ∷ []) (omega arith),
          tlv-field b'5' b'4' (format_amount amount) short,
          tlv-field b'5' b'8' (b'T' ∷ b'H' ∷ []) (omega arith),
        )
        (ap (λ (h : Text). ok (h ++ crc16_ccitt_false h)) head_of-fields)

  -- The fuel that the outer loop uses, and one more for the inner one's end.
  scanned :
      (k : ℕ) (crc : Text)
      → length crc ≡ 4
      → scan_tags (fuel_for (fields id amount) (suc k)) 4 true (head_of id amount ++ crc) (pos 0) []
        ≡ some ((crc_tag, crc) ∷ add_all (fields id amount) [])
  unfolding head_of
  scanned k crc four =
      let all = print (fields id amount) in
      let whole = all ++ (crc_head ++ crc) in
      let room : 4 < 4 + length (crc_head ++ crc) = omega (arith, four) in
      let first =
        scan_tags-front (fields id amount) (crc_head ++ crc) (suc k) 4 true fields-IsReadable
          room in
      let room2 : 4 < 4 + length (crc ++ []) = omega (arith, four, length-append crc []) in
      let size : parse_int (b'0' ∷ b'4' ∷ []) ≡ some (pos (length crc)) =
        parse_int-size 4 (omega arith) ∙ ap (λ (n : ℕ). some (pos n)) (sym four) in
      let last =
        scan_tags-field all crc [] b'6' b'3' b'0' b'4' k 4 true (add_all (fields id amount) [])
          room2 size in
      let tail : all ++ (crc_head ++ (crc ++ [])) ≡ whole =
        ap (λ t. all ++ (crc_head ++ t)) (append-nil crc) in
      let last' =
        subst
          (λ (s : Text).
            scan_tags (suc k) 4 true s (pos (length all)) (add_all (fields id amount) [])
            ≡ some ((crc_tag, crc) ∷ add_all (fields id amount) []))
          tail last in
      rw (append_assoc all crc_head crc) (first ∙ last')

  inner_scanned :
      (k : ℕ)
      → scan_tags (fuel_for (inner_fields id) (suc k)) 0 false (print (inner_fields id)) (pos 0) []
        ≡ some (add_all (inner_fields id) [])
  inner_scanned k =
      let s = print (inner_fields id) in
      let read =
        scan_tags-front (inner_fields id) [] (suc k) 0 false inner-IsReadable (omega arith) in
      let ends =
        scan_tags-end k 0 (length s) false s (add_all (inner_fields id) []) (omega arith) in
      subst
        (λ (t : Text).
          scan_tags (fuel_for (inner_fields id) (suc k)) 0 false t (pos 0) []
          ≡ scan_tags (suc k) 0 false t (pos (length s)) (add_all (inner_fields id) []))
        (append-nil s) read
      ∙ ends

  checked :
      (crc : Text)
      → length crc ≡ 4
      → let payload = head_of id amount ++ crc in
        slice payload (pos 0) (sub_ℕ (length payload) 4) ≡ head_of id amount
  checked crc four =
      let h = head_of id amount in
      let long : length (h ++ crc) ≡ length h + 4 =
        length-append h crc ∙ ap (λ (n : ℕ). length h + n) four in
      let cut : sub_ℕ (length (h ++ crc)) 4 ≡ pos (length h) = rw long (ground arith) in
      rw cut (slice-append [] h crc 0 (length h) refl (omega arith))

  parsed-lem :
      let crc = crc16_ccitt_false (head_of id amount) in
      parsed
        (head_of id amount ++ crc)
        ((crc_tag, crc) ∷ add_all (fields id amount) [])
        (add_all (inner_fields id) [])
      ≡ sent id amount
  unfolding fields inner_fields sent
  parsed-lem =
      let crc = crc16_ccitt_false (head_of id amount) in
      let same : text_eq crc crc ≡ true = (text_eq_iff crc crc).1 refl in
      rw (checked crc (length-crc16_ccitt_false (head_of id amount)), same) refl

  account_tag :
      (crc : Text)
      → or_default (get_tag (b'2' ∷ b'9' ∷ []) ((crc_tag, crc) ∷ add_all (fields id amount) [])) []
        ≡ print (inner_fields id)
  unfolding fields
  account_tag crc = refl

  fuel-lem :
      (k : ℕ)
      → fuel_for (fields id amount) (suc k)
        ≡ fuel_for (inner_fields id) (suc (suc (suc (suc (suc k)))))
  unfolding fields inner_fields
  fuel-lem k = refl

  parse-encode_from :
      (k : ℕ)
      → parse_prompt_pay_payload
          (fuel_for (fields id amount) (suc k))
          (head_of id amount ++ crc16_ccitt_false (head_of id amount))
        ≡ some (sent id amount)
  parse-encode_from k =
      let crc = crc16_ccitt_false (head_of id amount) in
      parse_prompt_pay_payload-lem (fuel_for (fields id amount) (suc k)) _
        ((crc_tag, crc) ∷ add_all (fields id amount) []) (add_all (inner_fields id) [])
        (scanned k crc (length-crc16_ccitt_false (head_of id amount)))
        (rw (account_tag crc, fuel-lem k) (inner_scanned (suc (suc (suc (suc k))))))
      ∙ ap (λ x. some x) parsed-lem

  -- For a merchant id that formats and an amount whose printed form fits a field, and with fuel for at
  -- least seven rounds: the payload is built, and the parser gives back the formatted id, the amount,
  -- the currency and the country, and finds the check sum right.
  pub parse-encode :
      (fuel : ℕ)
      → 7 ≤ fuel
      → (encode_prompt_pay_payload merchant amount >>= λ payload.
          ok (parse_prompt_pay_payload fuel payload))
        ≡ ok (some (sent id amount))
  unfolding fields
  parse-encode fuel enough =
      let k = fuel - 7 in
      let all : fuel ≡ suc (suc (suc (suc (suc (suc (suc k)))))) = omega arith in
      rw (encode_prompt_pay_payload-fields, all) (ap (λ x. ok x) (parse-encode_from k))
