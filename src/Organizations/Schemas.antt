-- ===== src/Organizations/Schemas.antt =====
-- The checks of request bodies in backend/app/modules/organizations/schemas.py. `strip` and `lower`
-- are `str.strip` and `str.lower`; a refused body is answered before the endpoint runs.
pub mod Names
use Prim.Native.String
use ai_business_automation.Prelude.{
  ℕ, String, Option, none, some, Bool, true, false, not, ◌&&◌, List, [], ◌∷◌, str_eq, ltb, leb, any,
  if◌then◌else◌,
}
use ai_business_automation.Errors.{Result, ok, err, bad_request, ◌>>=◌}
use ai_business_automation.Organizations.Orgs.{OrgCreate}
use ai_business_automation.Organizations.Slugs.{count, has_slug_chars, starts_dashed, is_dash}

-- `if b: raise ValueError(...)`
abbrev pub refuse_if : {A : Type 0} → Bool → A → Result A
refuse_if refused value = if refused then err bad_request else ok value

-- Whether the last character is a dash.
abbrev pub ends_dashed : String → Bool
ends_dashed String.[] = false
ends_dashed (String.◌∷◌ c String.[]) = is_dash c
ends_dashed (String.◌∷◌ c (String.◌∷◌ d s)) = ends_dashed (String.◌∷◌ d s)

-- `_SLUG_RE.match(v)` on a text without white space at its ends: a letter or digit, 1 to 98 letters,
-- digits or dashes, and a letter or digit.
abbrev pub is_slug : String → Bool
is_slug s =
    has_slug_chars s
    && not (starts_dashed s)
    && not (ends_dashed s)
    && leb 3 (count s)
    && leb (count s) 100

abbrev pub valid_scope_names : List String
valid_scope_names = "workflow:read" ∷ "workflow:execute" ∷ "analytics:read" ∷ "reports:read" ∷ []

abbrev pub has_unknown_scope : List String → Bool
has_unknown_scope [] = false
has_unknown_scope (s ∷ scopes) =
    let rest = has_unknown_scope scopes in if any (str_eq s) valid_scope_names then rest else true

-- `APIKeyCreate.valid_scopes`
unfoldable pub valid_scopes : List String → Result (List String)
valid_scopes [] = err bad_request
valid_scopes (s ∷ scopes) = refuse_if (has_unknown_scope (s ∷ scopes)) (s ∷ scopes)

module _ (strip : String → String) where
  -- `name_not_empty` of departments, and `label_not_empty`
  unfoldable pub name_not_empty : String → Result String
  name_not_empty v = refuse_if (str_eq (strip v) "") (strip v)

  -- `OrgUpdate.name_not_empty`
  unfoldable pub new_name_not_empty : Option String → Result (Option String)
  new_name_not_empty none = ok none
  new_name_not_empty (some v) = name_not_empty v >>= λ name. ok (some name)

  -- `OrgCreate.name_not_empty`
  unfoldable pub org_name_not_empty : String → Result String
  org_name_not_empty v = name_not_empty v >>= λ name. refuse_if (ltb 255 (count name)) name

module _ (strip lower : String → String) where
  -- `OrgCreate.slug_format`
  unfoldable pub slug_format : Option String → Result (Option String)
  slug_format none = ok none
  slug_format (some v) = refuse_if (not (is_slug (lower (strip v)))) (some (lower (strip v)))

  -- The body of a request to create an organization, as the endpoint gets it.
  unfoldable pub org_create : OrgCreate → Result OrgCreate
  org_create body = do
    name ← org_name_not_empty strip body.name
    slug ← slug_format body.slug
    ok (record { name = name; slug = slug })
