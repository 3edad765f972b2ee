-- ===== src/Groups/Emails.antt =====
-- `normalizeInviteEmails` of apps/api/src/bookings/group-session.service.ts. The addresses have passed
-- the schema's check, so that they are ASCII, for which `Prelude/Text` has the case and the spaces.
pub mod Cleaned
mod Tests
use pee_rahat.Prelude.{
  Bool, true, false, ◌||◌, if◌then◌else◌, List, [], ◌∷◌, ◌++◌, Text, is_empty, has, text_eq,
  to_lower, trim, Result, ok, err, bad_request,
}

-- `e.toLowerCase().trim()`
unfoldable pub normalize : Text → Text
normalize e = trim (to_lower e)

-- The loop; `seen` and `out` hold the same addresses.
unfoldable pub collect_emails : Text → List Text → List Text → List Text → Result (List Text)
collect_emails host already [] out = ok out
collect_emails host already (r ∷ rest) out =
    let e = normalize r in
    let skip = collect_emails host already rest out in
    let take = collect_emails host already rest (out ++ e ∷ []) in
    if is_empty e
    then skip
    else if text_eq e host || has already e
    then err bad_request
    else if has out e
    then skip
    else take

unfoldable pub normalize_invite_emails : List Text → Text → List Text → Result (List Text)
normalize_invite_emails raw host_email already =
    collect_emails (normalize host_email) already raw []
