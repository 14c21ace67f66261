-- ===== src/Tests/Names.antt =====
-- Runs of the checks of request bodies in backend/app/modules, and of the slugs of organizations.
use Prim.Native.Char.{Char, code}
use ai_business_automation.Prelude.{
  ◌≤◌, String, some, none, false, true, [], ◌∷◌, ◌≡◌, refl, str_eq, Bool, leb, ◌&&◌,
}
use ai_business_automation.Errors.{ok, err, bad_request, scalar_one_or_none}
use ai_business_automation.Organizations.Roles.{owner}
use ai_business_automation.Organizations.Models.{Organization}
use ai_business_automation.Organizations.Orgs.{OrgCreate, OrgDb, create_org}
use ai_business_automation.Organizations.Slugs.{count, slugify}
use ai_business_automation.Organizations.Schemas.{
  name_not_empty, org_name_not_empty, slug_format, org_create,
}
use ai_business_automation.Organizations.Schemas.Names.{IsUrlText, create_org-IsUrlText}
use ai_business_automation.Auth.Schemas.{validate_password_strength}
use ai_business_automation.Tests.Samples.{whole, sample_member}

abbrev same : String → String
same s = s

-- Spaces become dashes, runs of dashes one, and the rest is dropped.
slugify_name : slugify same "acme  (north) & sons -" ≡ "acme-north-sons"
unfolding slugify
slugify_name = refl

slugify_dropped : slugify same "!?" ≡ "org"
unfolding slugify
slugify_dropped = refl

-- A derived slug can be shorter than `slug_format` lets a given one be.
slugify_short : slugify same "x" ≡ "x"
unfolding slugify
slugify_short = refl

slug_format_short : slug_format same same (some "x") ≡ err bad_request
unfolding slug_format
slug_format_short = refl

-- The digits of ASCII.
abbrev ascii_digit : Char → Bool
ascii_digit c = leb b'0' (code c) && leb (code c) b'9'

password_passes : validate_password_strength ascii_digit "Secret01" ≡ ok "Secret01"
unfolding validate_password_strength
password_passes = refl

password_with_newline : validate_password_strength ascii_digit "Secret01\n" ≡ ok "Secret01\n"
unfolding validate_password_strength
password_with_newline = refl

password_without_capital : validate_password_strength ascii_digit "secret01" ≡ err bad_request
unfolding validate_password_strength
password_without_capital = refl

abbrev no_orgs : OrgDb whole
no_orgs = record {
  organizations = [];
  members = [];
  departments = [];
  invitations = [];
  api_keys = [];
}

abbrev body : OrgCreate
body = record { name = "acme north"; slug = none }

abbrev acme_north : Organization whole
acme_north = record {
  id = 9;
  name = "acme north";
  slug = "acme-north";
  plan = "free";
  is_active = true;
  settings = 0;
  storage_used_bytes = 0;
}

body_passes : org_create same same body ≡ ok body
unfolding org_create org_name_not_empty name_not_empty slug_format
body_passes = refl

created :
    create_org (slugify same) 9 11 100 body no_orgs
    ≡ ok (
      acme_north,
      record no_orgs {
        organizations = acme_north ∷ [];
        members = sample_member 11 9 100 owner ∷ [];
      },
    )
unfolding create_org scalar_one_or_none slugify
created = refl

create_org-IsUrlText_example :
    (str_eq "acme north" "" ≡ false) × (count "acme north" ≤ 255) × IsUrlText "acme-north"
create_org-IsUrlText_example =
    create_org-IsUrlText same same 9 11 100 body body no_orgs body_passes created
