-- ===== src/Payments/PromptPay/Scan.antt =====
-- What the loops of the parser read off printed fields.
use pee_rahat.Prelude.{
  ℕ, zero, suc, ◌+◌, ◌-◌, ◌*◌, ◌/◌, ◌%◌, ◌≤◌, ◌<◌, ◌≡◌, refl, sym, subst, ◌∙◌, ap, Bool, true,
  false, ◌&&◌, ltb, if◌then◌else◌, some, List, [], ◌∷◌, ◌++◌, All, length, take-append, drop-append,
  length-append, Text, text_eq, trim_start, pos, ◌+ℤ◌, ltb_ℤ, arith,
}
use mathlib.Core.List.{append_assoc}
use pee_rahat.Payments.PromptPay.{decimal, digits_of, pad_two}
use pee_rahat.Payments.PromptPay.Parser.{parse_int, slice, Tags, crc_tag, scan_tags}

-- A field: the two characters of its tag, and its value.
pub record Field : Type 0 where
  pub first : ℕ
  pub second : ℕ
  pub value : Text

abbrev pub tag_of : Field → Text
tag_of x = x.first ∷ x.second ∷ []

abbrev pub print_field : Field → Text
print_field x = x.first ∷ x.second ∷ (pad_two (length x.value) ++ x.value)

-- Two digits are read back.
pad_two-lem : (n : ℕ) → n < 100 → pad_two n ≡ (b'0' + n / 10) ∷ (b'0' + n % 10) ∷ []
unfolding pad_two decimal digits_of
pad_two-lem zero h = refl
pad_two-lem (suc m) h = ground arith

parse_int-digits :
    (a b : ℕ) → a < 10 → b < 10 → parse_int ((b'0' + a) ∷ (b'0' + b) ∷ []) ≡ some (pos (a * 10 + b))
unfolding parse_int trim_start
parse_int-digits a b ha hb = ground arith

pos-add : (a b : ℕ) → pos a +ℤ pos b ≡ pos (a + b)
unfolding ◌+ℤ◌
pos-add a b = ground arith

ltb_ℤ-pos : (a b : ℕ) → a < b → ltb_ℤ (pos a) (pos b) ≡ true
unfolding ltb_ℤ
ltb_ℤ-pos a b h = ground arith

-- The part of a text between two others.
pub slice-append :
    (xs ys zs : Text) (i j : ℕ)
    → length xs ≡ i
    → i + length ys ≡ j
    → slice (xs ++ (ys ++ zs)) (pos i) (pos j) ≡ ys
unfolding slice
slice-append xs ys zs i j at_i at_j =
    let size : j - i ≡ length ys = omega arith in
    rw (size, drop-append i xs (ys ++ zs) at_i) (take-append (length ys) ys zs refl)

module _ (pre v rest : Text) (a b c d : ℕ) where
  -- The text of one field between what was read and the rest.
  abbrev whole : Text
  whole = pre ++ (a ∷ b ∷ c ∷ d ∷ (v ++ rest))

  slice-tag : slice whole (pos (length pre)) (pos (length pre) +ℤ pos 2) ≡ a ∷ b ∷ []
  slice-tag =
      rw (pos-add (length pre) 2) (
        slice-append pre (a ∷ b ∷ []) (c ∷ d ∷ (v ++ rest)) (length pre) (length pre + 2) refl refl)

  slice-size : slice whole (pos (length pre) +ℤ pos 2) (pos (length pre) +ℤ pos 4) ≡ c ∷ d ∷ []
  slice-size =
      let l = length pre in
      let cut =
        slice-append (pre ++ (a ∷ b ∷ [])) (c ∷ d ∷ []) (v ++ rest) (l + 2) (l + 4)
          (length-append pre (a ∷ b ∷ [])) (omega arith) in
      rw (pos-add l 2, pos-add l 4)
        (subst (λ s. slice s (pos (l + 2)) (pos (l + 4)) ≡ c ∷ d ∷ [])
          (append_assoc pre (a ∷ b ∷ []) (c ∷ d ∷ (v ++ rest))) cut)

  slice-value :
      slice whole (pos (length pre) +ℤ pos 4) (pos (length pre) +ℤ pos 4 +ℤ pos (length v)) ≡ v
  slice-value =
      let l = length pre in
      let cut =
        slice-append (pre ++ (a ∷ b ∷ c ∷ d ∷ [])) v rest (l + 4) (l + 4 + length v)
          (length-append pre (a ∷ b ∷ c ∷ d ∷ [])) refl in
      rw (pos-add l 4, pos-add (l + 4) (length v))
        (subst (λ s. slice s (pos (l + 4)) (pos (l + 4 + length v)) ≡ v)
          (append_assoc pre (a ∷ b ∷ c ∷ d ∷ []) (v ++ rest)) cut)

  -- One round of the loop.
  pub scan_tags-field :
      (f margin : ℕ) (breaks : Bool) (tags : Tags)
      → margin < 4 + length (v ++ rest)
      → parse_int (c ∷ d ∷ []) ≡ some (pos (length v))
      → scan_tags (suc f) margin breaks whole (pos (length pre)) tags ≡ (
          if breaks && text_eq (a ∷ b ∷ []) crc_tag
          then some ((a ∷ b ∷ [], v) ∷ tags)
          else scan_tags f margin breaks whole
              (pos (length pre + 4 + length v))
              ((a ∷ b ∷ [], v) ∷ tags))
  unfolding scan_tags
  scan_tags-field f margin breaks tags room size =
      let l = length pre in
      let runs : ltb_ℤ (pos l +ℤ pos margin) (pos (length whole)) ≡ true = rw (pos-add l margin) (
        ltb_ℤ-pos (l + margin) (length whole)
          (omega (arith, length-append pre (a ∷ b ∷ c ∷ d ∷ (v ++ rest))))) in
      let sized : parse_int (slice whole (pos l +ℤ pos 2) (pos l +ℤ pos 4))
          ≡ some (pos (length v)) =
        ap parse_int slice-size ∙ size in
      let next : pos l +ℤ pos 4 +ℤ pos (length v) ≡ pos (l + 4 + length v) =
        rw (pos-add l 4) (pos-add (l + 4) (length v)) in
      rw (runs, scan_tags, sized, slice-tag, slice-value, next)

abbrev pub print : List Field → Text
print [] = []
print (x ∷ xs) = print_field x ++ print xs

abbrev pub add_all : List Field → Tags → Tags
add_all [] tags = tags
add_all (x ∷ xs) tags = add_all xs ((tag_of x, x.value) ∷ tags)

-- One unit of fuel for each field, and `f` more.
abbrev pub fuel_for : List Field → ℕ → ℕ
fuel_for [] f = f
fuel_for (x ∷ xs) f = suc (fuel_for xs f)

-- A field that the loop reads and goes on.
abbrev pub IsReadable : Bool → Field → Type 0
IsReadable breaks x = (length x.value < 100) × ((breaks && text_eq (tag_of x) crc_tag) ≡ false)

-- A printed field at the front of a text.
print_field-digits :
    (x : Field) (ys : Text)
    → length x.value < 100
    → let n = length x.value in
      print_field x ++ ys ≡ x.first ∷ x.second ∷ (b'0' + n / 10) ∷ (b'0' + n % 10) ∷ (x.value ++ ys)
print_field-digits x ys h = rw (pad_two-lem (length x.value) h)

pub length-print_field :
    (x : Field) → length x.value < 100 → length (print_field x) ≡ 4 + length x.value
length-print_field x h = omega (
  arith,
  ap length (pad_two-lem (length x.value) h),
  length-append (pad_two (length x.value)) x.value,
)

pub parse_int-size :
    (n : ℕ) → n < 100 → parse_int ((b'0' + n / 10) ∷ (b'0' + n % 10) ∷ []) ≡ some (pos n)
parse_int-size n h =
    parse_int-digits (n / 10) (n % 10) (omega arith) (omega arith)
    ∙ ap (λ (m : ℕ). some (pos m)) (omega arith)

-- The loop reads printed fields, and stands behind them.
pub scan_tags-print :
    (xs : List Field) (pre rest : Text) (f margin : ℕ) (breaks : Bool) (tags : Tags)
    → All (IsReadable breaks) xs
    → margin < 4 + length rest
    → scan_tags (fuel_for xs f) margin breaks (pre ++ (print xs ++ rest)) (pos (length pre)) tags
      ≡ scan_tags f margin breaks
          (pre ++ (print xs ++ rest))
          (pos (length pre + length (print xs)))
          (add_all xs tags)
scan_tags-print [] pre rest f margin breaks tags h room =
    ap (λ (n : ℕ). scan_tags f margin breaks (pre ++ rest) (pos n) tags) (omega arith)
scan_tags-print (x ∷ xs) pre rest f margin breaks tags h room =
    let n = length x.value in
    let v = x.value in
    let after = print xs ++ rest in
    let c = b'0' + n / 10 in
    let d = b'0' + n % 10 in
    let read = pre ++ (x.first ∷ x.second ∷ c ∷ d ∷ v) in
    let front : print (x ∷ xs) ++ rest ≡ x.first ∷ x.second ∷ c ∷ d ∷ (v ++ after) =
      append_assoc (print_field x) (print xs) rest ∙ print_field-digits x after h.0.0 in
    let same : read ++ after ≡ pre ++ (x.first ∷ x.second ∷ c ∷ d ∷ (v ++ after)) =
      append_assoc pre (x.first ∷ x.second ∷ c ∷ d ∷ v) after in
    let here : length read ≡ length pre + 4 + n =
      omega (arith, length-append pre (x.first ∷ x.second ∷ c ∷ d ∷ v)) in
    let all = whole pre v after x.first x.second c d in
    let tags' : Tags = (tag_of x, v) ∷ tags in
    let loop = λ (k : ℕ) (s : Text) (i : ℕ) (t : Tags). scan_tags k margin breaks s (pos i) t in
    let size : length read + length (print xs) ≡ length pre + length (print (x ∷ xs)) = omega (
      arith,
      here,
      ap length (print_field-digits x (print xs) h.0.0),
      length-append v (print xs),
    ) in
    let step =
      scan_tags-field pre v after x.first x.second c d (fuel_for xs f) margin breaks tags
        (omega (arith, length-append v after, length-append (print xs) rest))
        (parse_int-size n h.0.0) in
    let more = scan_tags-print xs read rest f margin breaks ((tag_of x, v) ∷ tags) h.1 room in
    let onward =
      ap (λ i. loop (fuel_for xs f) all i tags') (sym here)
      ∙ subst
          (λ s.
            loop (fuel_for xs f) s (length read) tags'
            ≡ loop f s (length read + length (print xs)) (add_all xs tags'))
          same more
      ∙ ap (λ i. loop f all i (add_all xs tags')) size in
    subst
      (λ s.
        loop (suc (fuel_for xs f)) s (length pre) tags
        ≡ loop f s (length pre + length (print (x ∷ xs))) (add_all xs tags'))
      (sym (ap (λ s. pre ++ s) front)) (rw h.0.1 at step ∙ onward)

-- From the front of a text.
pub scan_tags-front :
    (xs : List Field) (rest : Text) (f margin : ℕ) (breaks : Bool)
    → All (IsReadable breaks) xs
    → margin < 4 + length rest
    → scan_tags (fuel_for xs f) margin breaks (print xs ++ rest) (pos 0) []
      ≡ scan_tags f margin breaks (print xs ++ rest) (pos (length (print xs))) (add_all xs [])
scan_tags-front xs rest f margin breaks readable room =
    scan_tags-print xs [] rest f margin breaks [] readable room
    ∙ ap (λ (n : ℕ). scan_tags f margin breaks (print xs ++ rest) (pos n) (add_all xs []))
        (omega arith)

-- The loop ends where too little is left.
pub scan_tags-end :
    (f margin i : ℕ) (breaks : Bool) (s : Text) (tags : Tags)
    → length s ≤ i + margin
    → scan_tags (suc f) margin breaks s (pos i) tags ≡ some tags
unfolding scan_tags ltb_ℤ
scan_tags-end f margin i breaks s tags h =
    let ends : ltb (i + margin) (length s) ≡ false = ground arith in
    rw (pos-add i margin, scan_tags) (ground arith)
