-- ===== src/Organizations/Members/Laws.antt =====
-- What `update_member` and `remove_member` of backend/app/modules/organizations/service.py do.
use ai_business_automation.Prelude.{
  Bool-cases, ==_iff, any-mem, sym, not, ℕ, ◌<◌, Option, Bool, true, false, List, [], ◌∷◌, ◌≡◌,
  refl, ap, ◌∙◌, subst, ◌⊎◌, inl, inr, arith, ◌==◌, ◌&&◌, select, Member, mem-select,
}
use ai_business_automation.Errors.{
  ok, >>=-eq-ok, or_raise-eq-ok, scalar-eq-some, scalar_one_or_none, or_raise, not_found,
}
use ai_business_automation.Database.{
  delete_row, UniqueKeys, change_row, mem-change_row, select-change_row_nil,
}
use ai_business_automation.Organizations.Roles.{Role, owner, role_rank, is_assignable}
use ai_business_automation.Organizations.Models.{OrgMember}
use ai_business_automation.Organizations.Members.{
  MemberUpdate, member_id, is_owner, is_member, with_update, update_member, remove_member,
}

-- The owners of an organization.
abbrev pub owns : ℕ → OrgMember → Bool
owns org_id m = m.organization_id == org_id && is_owner m.role

-- A query for a member that found exactly one row.
pub member-eq-ok :
    (org_id user_id : ℕ) (members : List OrgMember) (found : Option OrgMember) {m : OrgMember}
    → scalar_one_or_none (select (is_member org_id user_id) members) ≡ ok found
    → or_raise found not_found ≡ ok m
    → select (is_member org_id user_id) members ≡ m ∷ []
member-eq-ok org_id user_id members found {m} h k =
    let q = or_raise-eq-ok found not_found k in
    scalar-eq-some (select (is_member org_id user_id) members) (h ∙ ap ok q)

-- When `update_member` returns, one row was found, the new role ranks below the caller's, and
-- that row was changed.
pub update_member-eq-ok :
    (org_id user_id : ℕ) (payload : MemberUpdate) (caller : OrgMember) (members : List OrgMember)
    {members' : List OrgMember}
    → update_member org_id user_id payload caller members ≡ ok members'
    → (target : OrgMember) × (select (is_member org_id user_id) members ≡ target ∷ [])
      × (role_rank payload.role < role_rank caller.role)
      × (members' ≡ change_row member_id target.id (with_update payload) members)
unfolding update_member
update_member-eq-ok org_id user_id payload caller members {members'} h =
    let (found, e, h1) =
      >>=-eq-ok (scalar_one_or_none (select (is_member org_id user_id) members)) _ h in
    let (target, e1, h2) = >>=-eq-ok (or_raise found not_found) _ h1 in
    let both : (role_rank payload.role < role_rank caller.role)
        × (members' ≡ change_row member_id target.id (with_update payload) members) =
      ground arith in
    (target, member-eq-ok org_id user_id members found e e1, both.0, both.1)

-- No caller can grant a role of his own rank or above: after `update_member` each member is as
-- before, or has a role that ranks below the caller's.
pub update_member_grants_below :
    (org_id user_id : ℕ) (payload : MemberUpdate) (caller : OrgMember) (members : List OrgMember)
    {members' : List OrgMember}
    → update_member org_id user_id payload caller members ≡ ok members'
    → (m : OrgMember) → Member m members'
    → Member m members ⊎ (role_rank m.role < role_rank caller.role)
update_member_grants_below org_id user_id payload caller members h m k =
    let (target, _, below, same) = update_member-eq-ok org_id user_id payload caller members h in
    elim (mem-change_row member_id target.id (with_update payload) m members
      (subst (Member m) same k)) [ inl old ↦ inl old | inr (r, _, _, e) ↦ inr (rw e below) ]

assignable-not-owner : (r : Role) → is_assignable r ≡ true → is_owner r ≡ false
assignable-not-owner owner h = cc
assignable-not-owner _ h = refl

-- The role of the member himself is not looked at: any caller who ranks above the new role, a
-- manager who gives the role of an employee among them, can give it to the only owner of the
-- organization, which then has no owner.
pub update_member_unseats_owner :
    (org_id user_id : ℕ) (payload : MemberUpdate) (caller target : OrgMember)
    (members : List OrgMember)
    → select (is_member org_id user_id) members ≡ target ∷ []
    → select (owns org_id) members ≡ target ∷ []
    → is_assignable payload.role ≡ true
    → role_rank payload.role < role_rank caller.role
    → (members' : List OrgMember) × (update_member org_id user_id payload caller members
        ≡ ok members')
      × (select (owns org_id) members' ≡ [])
unfolding update_member scalar_one_or_none
update_member_unseats_owner org_id user_id payload caller target members found one plain below = (
  change_row member_id target.id (with_update payload) members,
  rw found (ground arith),
  select-change_row_nil member_id (owns org_id) (with_update payload) target members
      (λ r m o. elim (rw one at ((mem-select (owns org_id) r members).1 (m, o))) [
        | inl e ↦ e
        | inr no_more ↦ absurd no_more
      ])
      (λ r. ground (arith, assignable-not-owner payload.role plain)),
)

unique-eq :
    (members : List OrgMember) (a b : OrgMember)
    → UniqueKeys member_id members
    → Member a members
    → Member b members
    → a.id ≡ b.id
    → a ≡ b
unique-eq [] a b u m k e = absurd m
unique-eq (r ∷ members) a b u (inl p) (inl q) e = p ∙ sym q
unique-eq (r ∷ members) a b u (inl p) (inr k) e = absurd (
    cc (
      u.0,
      any-mem (λ x. x.id == r.id) b members k ((==_iff b.id r.id).1 (sym e ∙ ap member_id p)),
    ))
unique-eq (r ∷ members) a b u (inr m) (inl q) e =
    absurd (
      cc (u.0, any-mem (λ x. x.id == r.id) a members m ((==_iff a.id r.id).1 (e ∙ ap member_id q))))
unique-eq (r ∷ members) a b u (inr m) (inr k) e = unique-eq members a b u.1 m k e

-- When `remove_member` returns, one row was found, it is not an owner's, and it was deleted.
remove_member-eq-ok :
    (org_id user_id : ℕ) (members : List OrgMember) {members' : List OrgMember}
    → remove_member org_id user_id members ≡ ok members'
    → (target : OrgMember) × (select (is_member org_id user_id) members ≡ target ∷ [])
      × (is_owner target.role ≡ false)
      × (members' ≡ delete_row member_id target.id members)
unfolding remove_member
remove_member-eq-ok org_id user_id members {members'} h =
    let (found, e, h1) =
      >>=-eq-ok (scalar_one_or_none (select (is_member org_id user_id) members)) _ h in
    let (target, e1, h2) = >>=-eq-ok (or_raise found not_found) _ h1 in
    let both : (is_owner target.role ≡ false)
        × (members' ≡ delete_row member_id target.id members) =
      ground arith in
    (target, member-eq-ok org_id user_id members found e e1, both.0, both.1)

-- In a table with unique keys, a removal that goes through leaves every owner of every
-- organization a member.
pub remove_member_keeps_owners :
    (org_id user_id : ℕ) (members : List OrgMember) {members' : List OrgMember}
    → UniqueKeys member_id members
    → remove_member org_id user_id members ≡ ok members'
    → (m : OrgMember) → Member m members
    → is_owner m.role ≡ true
    → Member m members'
remove_member_keeps_owners org_id user_id members keys h m here own =
    let (target, found, plain, same) = remove_member-eq-ok org_id user_id members h in
    let (k, _) = (mem-select (is_member org_id user_id) target members).0 (rw found (inl refl)) in
    subst (Member m) (sym same) (
      (mem-select (λ r. not (r.id == target.id)) m members).1 (
        here,
        elim (Bool-cases (m.id == target.id)) [
          | inl at ↦ absurd (
              cc
                (own, plain, unique-eq members m target keys here k ((==_iff m.id target.id).0 at)))
          | inr off ↦ rw off refl
        ],
      ))
