-- ===== src/Payments/PromptPay/Endless.antt =====
-- A length of -4 in the payload that `parsePromptPayPayload` reads.
use pee_rahat.Prelude.{
  trim_start, ℕ, zero, suc, ◌≡◌, refl, true, false, none, some, [], ◌∷◌, length, Text, text_eq, pos,
  negsuc, ltb_ℤ, ◌+ℤ◌, arith,
}
use pee_rahat.Payments.PromptPay.Parser.{
  parse_int, slice, Tags, crc_tag, scan_tags, parse_prompt_pay_payload,
}

abbrev stuck : ℕ → ℕ → ℕ → Text → Text
stuck a b c rest = a ∷ b ∷ b'-' ∷ b'4' ∷ c ∷ rest

module _ (a b c : ℕ) (rest : Text) where
  runs : ltb_ℤ (pos 0 +ℤ pos 4) (pos (length (stuck a b c rest))) ≡ true
  unfolding ◌+ℤ◌ ltb_ℤ
  runs = ground arith

  tag-lem : slice (stuck a b c rest) (pos 0) (pos 0 +ℤ pos 2) ≡ a ∷ b ∷ []
  unfolding slice ◌+ℤ◌
  tag-lem = refl

  size-lem :
      parse_int (slice (stuck a b c rest) (pos 0 +ℤ pos 2) (pos 0 +ℤ pos 4)) ≡ some (negsuc 3)
  unfolding slice ◌+ℤ◌ parse_int trim_start
  size-lem = refl

  back : pos 0 +ℤ pos 4 +ℤ negsuc 3 ≡ pos 0
  unfolding ◌+ℤ◌
  back = refl

  -- The loop goes back to where it started.
  scan_tags-stuck :
      (fuel : ℕ) (tags : Tags)
      → text_eq (a ∷ b ∷ []) crc_tag ≡ false
      → scan_tags fuel 4 true (stuck a b c rest) (pos 0) tags ≡ none
  unfolding scan_tags
  scan_tags-stuck zero tags h = refl
  scan_tags-stuck (suc f) tags h =
      rw (runs, scan_tags, size-lem, back, tag-lem, h) (scan_tags-stuck f _ h)

-- A payload of at least five characters whose first tag is not the check sum's and has the length
-- "-4" is never parsed, whatever the number of rounds.
pub parse_prompt_pay_payload-never :
    (a b c : ℕ) (rest : Text)
    → text_eq (a ∷ b ∷ []) crc_tag ≡ false
    → (fuel : ℕ) → parse_prompt_pay_payload fuel (stuck a b c rest) ≡ none
unfolding parse_prompt_pay_payload
parse_prompt_pay_payload-never a b c rest h fuel =
    rw (scan_tags-stuck a b c rest fuel [] h, parse_prompt_pay_payload) refl
