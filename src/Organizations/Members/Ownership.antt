-- ===== src/Organizations/Members/Ownership.antt =====
-- `transfer_ownership` of backend/app/modules/organizations/service.py.
use ai_business_automation.Prelude.{
  ℕ, some, Bool-cases, true, List, [], ◌∷◌, ◌≡◌, refl, ap, ◌∙◌, inl, inr, arith, ◌==◌, ==_iff,
  if◌then◌else◌, map, select, Member, mem-select,
}
use ai_business_automation.Errors.{ok, scalar_one_or_none}
use ai_business_automation.Database.{change_row, UniqueKeys, select-map_one}
use ai_business_automation.Organizations.Roles.{owner, admin}
use ai_business_automation.Organizations.Models.{OrgMember}
use ai_business_automation.Organizations.Members.{
  member_id, is_member, with_role, demote, transfer_ownership,
}
use ai_business_automation.Organizations.Members.Laws.{owns}

-- Both writes, on one row.
abbrev both : OrgMember → OrgMember → OrgMember → OrgMember
both caller heir r =
    let r' = if r.id == caller.id then with_role admin r else r in
    if r'.id == heir.id then with_role owner r' else r'

change_row-change_row :
    (caller heir : OrgMember) (members : List OrgMember)
    → change_row member_id heir.id (with_role owner) (demote (some caller) members)
      ≡ map (both caller heir) members
unfolding change_row
change_row-change_row caller heir [] = refl
change_row-change_row caller heir (r ∷ members) =
    ap (λ l. both caller heir r ∷ l) (change_row-change_row caller heir members)

both-heir : (caller heir : OrgMember) → both caller heir heir ≡ with_role owner heir
both-heir caller heir = ground (arith, ==_iff heir.id heir.id)

-- Whom the two writes leave an owner is the heir.
both-owns :
    (org_id : ℕ) (caller heir : OrgMember) (members : List OrgMember)
    → select (owns org_id) members ≡ caller ∷ []
    → (r : OrgMember) → Member r members
    → owns org_id (both caller heir r) ≡ true
    → r.id ≡ heir.id
both-owns org_id caller heir members one r m o = elim (Bool-cases (r.id == heir.id)) [
  | inl at ↦ (==_iff r.id heir.id).0 at
  | inr off ↦ elim (Bool-cases (r.id == caller.id)) [
    | inl demoted ↦ ground arith
    | inr kept ↦
        let still : owns org_id r ≡ true = rw (kept, off) at o in
        elim (rw one at ((mem-select (owns org_id) r members).1 (m, still))) [
          | inl e ↦ cc (kept, (==_iff r.id caller.id).1 (ap member_id e))
          | inr no_more ↦ absurd no_more
        ]
  ]
]

-- In a table with unique keys, when the only owner of an organization hands over to one of its
-- members, the call returns, and that member is then the only owner.
pub transfer_ownership_moves :
    (org_id heir_id caller_id : ℕ) (members : List OrgMember) (caller heir : OrgMember)
    → UniqueKeys member_id members
    → select (owns org_id) members ≡ caller ∷ []
    → select (is_member org_id caller_id) members ≡ caller ∷ []
    → select (is_member org_id heir_id) members ≡ heir ∷ []
    → (members' : List OrgMember) × (transfer_ownership org_id heir_id caller_id members
        ≡ ok members')
      × (select (owns org_id) members' ≡ with_role owner heir ∷ [])
unfolding transfer_ownership scalar_one_or_none
transfer_ownership_moves org_id heir_id caller_id members caller heir keys one called inherits =
    let (m, at) = (mem-select (is_member org_id heir_id) heir members).0 (rw inherits (inl refl)) in
    let ours : owns org_id (both caller heir heir) ≡ true =
      rw (both-heir caller heir) (ground arith) in
    (
      change_row member_id heir.id (with_role owner) (demote (some caller) members),
      rw (called, inherits) refl,
      ap (select (owns org_id)) (change_row-change_row caller heir members)
          ∙ select-map_one member_id (owns org_id) (both caller heir) heir members keys m ours
              (both-owns org_id caller heir members one)
          ∙ ap (λ h. h ∷ []) (both-heir caller heir),
    )
