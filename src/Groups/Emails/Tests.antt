-- ===== src/Groups/Emails/Tests.antt =====
-- Runs of the cleaning of addresses.
use pee_rahat.Prelude.{◌≡◌, refl, [], ◌∷◌, List, Text, ok, err, bad_request, to_lower, trim}
use pee_rahat.Groups.Emails.{normalize, collect_emails, normalize_invite_emails}

-- " Ab", "AB" and "" are one address, "ab"
abbrev asked : List Text
asked = (b' ' ∷ b'A' ∷ b'b' ∷ []) ∷ (b'A' ∷ b'B' ∷ []) ∷ [] ∷ []

cleaned_once :
    normalize_invite_emails asked (b'h' ∷ []) ((b'c' ∷ []) ∷ []) ≡ ok ((b'a' ∷ b'b' ∷ []) ∷ [])
unfolding normalize_invite_emails collect_emails normalize to_lower trim
cleaned_once = refl

self_invited : normalize_invite_emails asked (b'a' ∷ b'B' ∷ []) [] ≡ err bad_request
unfolding normalize_invite_emails collect_emails normalize to_lower trim
self_invited = refl
