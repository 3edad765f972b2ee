-- ===== src/Bookings/InviteCode/Tests.antt =====
-- A run of the code.
use pee_rahat.Prelude.{◌≡◌, refl, [], ◌∷◌}
use pee_rahat.Bookings.InviteCode.{generate_invite_code}

code_of_ff :
    generate_invite_code (255 ∷ 0 ∷ 255 ∷ 0 ∷ 1 ∷ []) ≡ 31 ∷ 28 ∷ 0 ∷ 15 ∷ 30 ∷ 0 ∷ 0 ∷ 1 ∷ []
unfolding generate_invite_code
code_of_ff = refl
