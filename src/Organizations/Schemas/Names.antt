-- ===== src/Organizations/Schemas/Names.antt =====
-- The names and slugs of the organizations that modules/organizations creates.
use ai_business_automation.Prelude.{
  ℕ, ◌≤◌, String, Option, none, some, Bool, Bool-cases, true, false, not, ◌≡◌, refl, ◌∙◌, sym,
  subst, inl, inr, arith, str_eq, ltb, is_some, select,
}
use ai_business_automation.Errors.{ok, conflict, scalar_one_or_none, >>=-eq-ok, raise_if->>}
use ai_business_automation.Database.{add_row}
use ai_business_automation.Workflows.Graph.{Values}
use ai_business_automation.Organizations.Models.{Organization}
use ai_business_automation.Organizations.Orgs.{OrgCreate, OrgDb, create_org, chosen_slug}
use ai_business_automation.Organizations.Slugs.{count, has_slug_chars, starts_dashed, slugify}
use ai_business_automation.Organizations.Slugs.Shape.{slugify-IsSlug, has_slug_chars_if_plain}
use ai_business_automation.Organizations.Schemas.{
  refuse_if, is_slug, slug_format, org_name_not_empty, name_not_empty, org_create,
}

-- What is said of the slug of an organization.
abbrev pub IsUrlText : String → Type 0
IsUrlText s =
    (has_slug_chars s ≡ true) × (starts_dashed s ≡ false) × (1 ≤ count s) × (count s ≤ 100)

slugify-IsUrlText : (lower : String → String) (name : String) → IsUrlText (slugify lower name)
slugify-IsUrlText lower name =
    let (plain, start, some_chars, short) = slugify-IsSlug lower name in
    (has_slug_chars_if_plain (slugify lower name) plain, start, some_chars, short)

is_slug-IsUrlText : (s : String) → is_slug s ≡ true → IsUrlText s
is_slug-IsUrlText s h = (ground (arith, h), ground (arith, h), ground (arith, h), ground (arith, h))

chosen_slug-IsUrlText :
    (lower : String → String) (name : String) (slug : Option String)
    → ((s : String) → slug ≡ some s → is_slug s ≡ true)
    → IsUrlText (chosen_slug (slugify lower) (record { name = name; slug = slug }))
chosen_slug-IsUrlText lower name none given = slugify-IsUrlText lower name
chosen_slug-IsUrlText lower name (some s) given = elim (Bool-cases (str_eq s "")) [
  | inl empty ↦ rw empty (slugify-IsUrlText lower name)
  | inr full ↦ rw full (is_slug-IsUrlText s (given s refl))
]

module _ {v : Values} where
  -- The slug and the name of an organization that `create_org` returns.
  create_org-eq-ok :
      (slug_of : String → String) (org_id member_id user_id : ℕ) (payload : OrgCreate)
      (db : OrgDb v) {org : Organization v} {db' : OrgDb v}
      → create_org slug_of org_id member_id user_id payload db ≡ ok (org, db')
      → (org.slug ≡ chosen_slug slug_of payload) × (org.name ≡ payload.name)
  unfolding create_org
  create_org-eq-ok slug_of org_id member_id user_id payload db {org} h =
      let slug = chosen_slug slug_of payload in
      let (taken, _, h1) =
        >>=-eq-ok (scalar_one_or_none (select (λ o. str_eq o.slug slug) db.organizations)) _ h in
      let (_, h2) = raise_if->> (is_some taken) conflict _ h1 in
      let (orgs, _, h3) = >>=-eq-ok (add_row _ _ db.organizations) _ h2 in
      let (rows, _, h4) = >>=-eq-ok (add_row _ _ db.members) _ h3 in (ground arith, ground arith)

refuse_if-eq-ok :
    {A : Type 0} (refused : Bool) (value : A) {a : A}
    → refuse_if refused value ≡ ok a
    → (refused ≡ false) × (value ≡ a)
refuse_if-eq-ok true value h = cc
refuse_if-eq-ok false value h = (refl, ground arith)

module _ (strip : String → String) where
  org_name_not_empty-eq-ok :
      (v : String) {name : String}
      → org_name_not_empty strip v ≡ ok name
      → (str_eq name "" ≡ false) × (count name ≤ 255)
  unfolding org_name_not_empty name_not_empty
  org_name_not_empty-eq-ok v h =
      let (x, e, k) = >>=-eq-ok (refuse_if (str_eq (strip v) "") (strip v)) _ h in
      let (full, same) = refuse_if-eq-ok (str_eq (strip v) "") (strip v) e in
      let (short, last) = refuse_if-eq-ok (ltb 255 (count x)) x k in
      (
        subst (λ y. str_eq y "" ≡ false) (same ∙ last) full,
        subst (λ y. count y ≤ 255) last (ground (arith, short)),
      )

module _ (strip lower : String → String) where
  slug_format-eq-some :
      (slug : Option String) {given : Option String}
      → slug_format strip lower slug ≡ ok given
      → (s : String) → given ≡ some s
      → is_slug s ≡ true
  unfolding slug_format
  slug_format-eq-some none h s e = cc
  slug_format-eq-some (some v) h s e =
      let (good, same) =
        refuse_if-eq-ok (not (is_slug (lower (strip v)))) (some (lower (strip v))) h in
      let is : lower (strip v) ≡ s = ground (arith, same, e) in
      subst (λ x. is_slug x ≡ true) is (ground (arith, good))

  module _ {v : Values} where
    -- An organization that is created from a body that passed its checks has a name of 1 to 255
    -- characters and a slug of 1 to 100, all of them small letters of ASCII, digits or dashes, the
    -- first no dash, whether the slug was given or made from the name.
    pub create_org-IsUrlText :
        (org_id member_id user_id : ℕ) (body payload : OrgCreate) (db : OrgDb v)
        {org : Organization v} {db' : OrgDb v}
        → org_create strip lower body ≡ ok payload
        → create_org (slugify lower) org_id member_id user_id payload db ≡ ok (org, db')
        → (str_eq org.name "" ≡ false) × (count org.name ≤ 255) × IsUrlText org.slug
    unfolding org_create
    create_org-IsUrlText org_id member_id user_id body payload db checked h =
        let (name, e, k) = >>=-eq-ok (org_name_not_empty strip body.name) _ checked in
        let (slug, e1, k1) = >>=-eq-ok (slug_format strip lower body.slug) _ k in
        let (full, short) = org_name_not_empty-eq-ok strip body.name e in
        let (is_slug_of, is_name) =
          create_org-eq-ok (slugify lower) org_id member_id user_id payload db h in
        let same_name : name ≡ payload.name = ground arith in
        let same_slug : slug ≡ payload.slug = ground arith in
        let named = same_name ∙ sym is_name in
        (
          subst (λ y. str_eq y "" ≡ false) named full,
          subst (λ y. count y ≤ 255) named short,
          subst IsUrlText (sym is_slug_of) (
              chosen_slug-IsUrlText lower payload.name payload.slug
                (λ s q. slug_format-eq-some body.slug e1 s (same_slug ∙ q))),
        )
