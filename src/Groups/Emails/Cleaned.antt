-- ===== src/Groups/Emails/Cleaned.antt =====
-- The result of `normalizeInviteEmails` against a description of it.
use pee_rahat.Prelude.{
  ◌≡◌, refl, Bool, true, false, ◌&&◌, ◌||◌, not, List, [], ◌∷◌, ◌++◌, Text, is_empty, has, any,
  text_eq, text_eq_iff, ok, err, bad_request, arith, inl, inr, ◌⊎◌, Bool-cases, subst,
}
use pee_rahat.Groups.Emails.{normalize, collect_emails, normalize_invite_emails}

-- No text stands twice.
abbrev pub IsDuplicateFree : List Text → Type 0
IsDuplicateFree [] = Unit
IsDuplicateFree (x ∷ xs) = (has xs x ≡ false) × IsDuplicateFree xs

has-append : (xs ys : List Text) (e : Text) → has (xs ++ ys) e ≡ (has xs e || has ys e)
has-append [] ys e = refl
has-append (x ∷ xs) ys e = ground (arith, has-append xs ys e)

IsDuplicateFree-append :
    (xs : List Text) (e : Text)
    → has xs e ≡ false
    → IsDuplicateFree xs
    → IsDuplicateFree (xs ++ e ∷ [])
IsDuplicateFree-append [] e h d = (refl, tt)
IsDuplicateFree-append (x ∷ xs) e h d = (
  ground (arith, has-append xs (e ∷ []) x, text_eq_iff e x, text_eq_iff x e, text_eq_iff x x),
  IsDuplicateFree-append xs e (ground arith) d.1,
)

-- An address that the call refuses: the host's, or one of a participant.
abbrev pub is_refused : Text → List Text → Text → Bool
is_refused host already r =
    not (is_empty (normalize r)) && (text_eq (normalize r) host || has already (normalize r))

-- Some address of the list is `e`, up to the case and the spaces.
abbrev pub is_asked : List Text → Text → Bool
is_asked raw e = any (λ r. text_eq (normalize r) e) raw

-- A list of addresses without repetition that has `e` exactly if `e` is not empty and was asked for.
pub record IsCleaned (raw out : List Text) : Type 0 where
  pub duplicate_free : IsDuplicateFree out
  pub same : (e : Text) → has out e ≡ (not (is_empty e) && is_asked raw e)

module _ (host : Text) (already : List Text) where
  -- What the loop makes of the addresses that it has and of those that are left.
  record Continues (raw out result : List Text) : Type 0 where
    duplicate_free : IsDuplicateFree result
    same : (e : Text) → has result e ≡ (has out e || (not (is_empty e) && is_asked raw e))

  skipped :
      (r : Text) (rest out result : List Text)
      → is_empty (normalize r) ≡ true ⊎ (has out (normalize r) ≡ true)
      → Continues rest out result
      → Continues (r ∷ rest) out result
  skipped r rest out result (inl empty) c = record {
    duplicate_free = c.duplicate_free;
    same = λ e. elim (Bool-cases (text_eq (normalize r) e)) [
      | inl same ↦
          let is_r = (text_eq_iff (normalize r) e).0 same in
          let gone : is_empty e ≡ true = subst (λ x. is_empty x ≡ true) is_r empty in
          ground (arith, c.same e)
      | inr other ↦ ground (arith, c.same e)
    ];
  }
  skipped r rest out result (inr listed) c = record {
    duplicate_free = c.duplicate_free;
    same = λ e. elim (Bool-cases (text_eq (normalize r) e)) [
      | inl same ↦
          let is_r = (text_eq_iff (normalize r) e).0 same in
          let there : has out e ≡ true = subst (λ x. has out x ≡ true) is_r listed in
          ground (arith, c.same e)
      | inr other ↦ ground (arith, c.same e)
    ];
  }

  added :
      (r : Text) (rest out result : List Text)
      → is_empty (normalize r) ≡ false
      → Continues rest (out ++ normalize r ∷ []) result
      → Continues (r ∷ rest) out result
  added r rest out result full c = record {
    duplicate_free = c.duplicate_free;
    same = λ e. elim (Bool-cases (text_eq (normalize r) e)) [
      | inl same ↦
          let is_r = (text_eq_iff (normalize r) e).0 same in
          let there : is_empty e ≡ false = subst (λ x. is_empty x ≡ false) is_r full in
          ground (arith, c.same e, has-append out (normalize r ∷ []) e)
      | inr other ↦ ground (arith, c.same e, has-append out (normalize r ∷ []) e)
    ];
  }

  collect_emails-cases :
      (raw out : List Text)
      → IsDuplicateFree out
      → ((result : List Text) × (any (is_refused host already) raw ≡ false)
          × (collect_emails host already raw out ≡ ok result)
          × Continues raw out result)
        ⊎ (any (is_refused host already) raw ≡ true)
          × (collect_emails host already raw out ≡ err bad_request)
  unfolding collect_emails
  collect_emails-cases [] out d =
      inl (out, refl, refl, record { duplicate_free = d; same = λ e. ground arith })
  collect_emails-cases (r ∷ rest) out d = elim (Bool-cases (is_empty (normalize r))) [
    | inl empty ↦ elim (collect_emails-cases rest out d) [
      | inl (result, fine, done, c) ↦
          inl (result, ground arith, ground arith, skipped r rest out result (inl empty) c)
      | inr (bad, stop) ↦ inr (ground arith, ground arith)
    ]
    | inr full ↦ elim (Bool-cases (text_eq (normalize r) host || has already (normalize r))) [
      | inl refused ↦ inr (ground arith, ground arith)
      | inr admitted ↦ elim (Bool-cases (has out (normalize r))) [
        | inl listed ↦ elim (collect_emails-cases rest out d) [
          | inl (result, fine, done, c) ↦
              inl (result, ground arith, ground arith, skipped r rest out result (inr listed) c)
          | inr (bad, stop) ↦ inr (ground arith, ground arith)
        ]
        | inr new ↦
            elim (collect_emails-cases rest (out ++ normalize r ∷ [])
              (IsDuplicateFree-append out (normalize r) new d)) [
                | inl (result, fine, done, c) ↦
                    inl (result, ground arith, ground arith, added r rest out result full c)
                | inr (bad, stop) ↦ inr (ground arith, ground arith)
              ]
      ]
    ]
  ]

-- The addresses of an invitation are refused exactly if one of them that is not empty is the host's or
-- a participant's, up to case and spaces. Otherwise the result has no address twice, and has an
-- address exactly if it is not empty and was asked for.
normalize_invite_emails-IsCleaned :
    (raw already : List Text) (host_email : Text)
    → ((out : List Text) × (any (is_refused (normalize host_email) already) raw ≡ false)
        × (normalize_invite_emails raw host_email already ≡ ok out)
        × IsCleaned raw out)
      ⊎ (any (is_refused (normalize host_email) already) raw ≡ true)
        × (normalize_invite_emails raw host_email already ≡ err bad_request)
unfolding normalize_invite_emails
normalize_invite_emails-IsCleaned raw already host_email =
    elim (collect_emails-cases (normalize host_email) already raw [] tt) [
      | inl (out, fine, done, c) ↦
          inl (out, fine, done, record { duplicate_free = c.duplicate_free; same = c.same })
      | inr (bad, stop) ↦ inr (bad, stop)
    ]
