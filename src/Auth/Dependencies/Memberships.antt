-- ===== src/Auth/Dependencies/Memberships.antt =====
-- The memberships that `_get_user_memberships` of backend/app/modules/auth/service.py finds.
use ai_business_automation.Prelude.{
  ℕ, Option, none, some, Bool-cases, true, false, List, [], ◌∷◌, ◌++◌, ◌≡◌, refl, subst, inl, inr,
  arith, ◌==◌, ==_iff, ◌&&◌, select, if◌then◌else◌, Member, mem-map, mem-select, mem-append,
}
use ai_business_automation.Workflows.Graph.{Values}
use ai_business_automation.Organizations.Models.{Organization, OrgMember}
use ai_business_automation.Auth.Memberships.{Membership, joined, join_rows}
use ai_business_automation.Auth.Sessions.Login.{IsChosen}

module _ {v : Values} where
  -- What a membership of a user comes from.
  pub record Joined (user_id : ℕ) (members : List OrgMember) (organizations : List (Organization v))
      (m : Membership v) : Type 0 where
    pub row : OrgMember
    pub is_row : Member row members
    pub of_user : row.user_id ≡ user_id
    pub of_org : row.organization_id ≡ m.org_id
    pub in_role : row.role ≡ m.role
    pub is_org : Member m.org organizations
    pub has_id : m.org.id ≡ m.org_id
    pub active : m.org.is_active ≡ true

  joined-Joined :
      (row : OrgMember) (organizations : List (Organization v)) (m : Membership v)
      → Member m (joined row organizations)
      → (row.organization_id ≡ m.org_id)
        × (row.role ≡ m.role)
        × Member m.org organizations
        × (m.org.id ≡ m.org_id)
        × (m.org.is_active ≡ true)
  joined-Joined row organizations m h =
      let (o, k, e) =
        (mem-map (λ x. record { org_id = row.organization_id; role = row.role; org = x }) m
            (select (λ x. (x.id == row.organization_id) && x.is_active) organizations)).0
          h in
      let (l, c) =
        (mem-select (λ x. (x.id == row.organization_id) && x.is_active) o organizations).0 k in
      subst
        (λ (x : Membership v).
          (row.organization_id ≡ x.org_id)
          × (row.role ≡ x.role)
          × Member x.org organizations
          × (x.org.id ≡ x.org_id)
          × (x.org.is_active ≡ true))
        e (refl, refl, l, ground (arith, c), ground (arith, c))

  Joined-more :
      (user_id : ℕ) (row : OrgMember) (members : List OrgMember)
      (organizations : List (Organization v)) (m : Membership v)
      → Joined user_id members organizations m
      → Joined user_id (row ∷ members) organizations m
  Joined-more user_id row members organizations m j = record {
    row = j.row;
    is_row = inr j.is_row;
    of_user = j.of_user;
    of_org = j.of_org;
    in_role = j.in_role;
    is_org = j.is_org;
    has_id = j.has_id;
    active = j.active;
  }

  pub join_rows-Joined :
      (user_id : ℕ) (members : List OrgMember) (organizations : List (Organization v))
      (m : Membership v)
      → Member m (join_rows user_id members organizations)
      → Joined user_id members organizations m
  join_rows-Joined user_id [] organizations m h = absurd h
  join_rows-Joined user_id (row ∷ members) organizations m h =
      let rest = join_rows user_id members organizations in
      let drop : (row.user_id == user_id) ≡ false → Member m rest =
        λ o. subst (λ b. Member m (if b then joined row organizations ++ rest else rest)) o h in
      let keep : (row.user_id == user_id) ≡ true → Member m (joined row organizations ++ rest) =
        λ o. subst (λ b. Member m (if b then joined row organizations ++ rest else rest)) o h in
      elim (Bool-cases (row.user_id == user_id)) [
        | inr other ↦
            Joined-more user_id row members organizations m
              (join_rows-Joined user_id members organizations m (drop other))
        | inl own ↦
            elim ((mem-append m (joined row organizations)
                (join_rows user_id members organizations)).0
              (keep own)) [
                | inl k ↦
                    let (o, r, i, n, a) = joined-Joined row organizations m k in
                    record {
                      row = row;
                      is_row = inl refl;
                      of_user = (==_iff row.user_id user_id).0 own;
                      of_org = o;
                      in_role = r;
                      is_org = i;
                      has_id = n;
                      active = a;
                    }
                | inr k ↦
                    Joined-more user_id row members organizations m
                      (join_rows-Joined user_id members organizations m k)
              ]
      ]

  pub IsChosen-mem :
      (org_id : Option ℕ) (ms : List (Membership v)) (m : Membership v)
      → IsChosen org_id ms (some m)
      → Member m ms
  IsChosen-mem none ms m h = rw h.0 (inl refl)
  IsChosen-mem (some o) ms m h = h.0
