-- ===== src/Auth/AccountRequests/Kept.antt =====
-- What the requests of Auth/AccountRequests leave of the users of
-- backend/app/modules/auth/models.py.
use ai_business_automation.Prelude.{true, ◌≡◌, ◌⊎◌}
use ai_business_automation.Auth.Models.{User}
use ai_business_automation.Auth.Platform.{Platform}

-- The same account afterwards: verification and the password may differ, and verification is not
-- taken back.
abbrev pub IsSameAccount : User → User → Type 0
IsSameAccount u u' =
    (u'.id ≡ u.id)
    × (u'.email ≡ u.email)
    × (u'.full_name ≡ u.full_name)
    × (u'.is_active ≡ u.is_active)
    × ((u'.is_verified ≡ u.is_verified) ⊎ (u'.is_verified ≡ true))
