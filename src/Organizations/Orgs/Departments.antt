-- ===== src/Organizations/Orgs/Departments.antt =====
-- `uq_departments_org_name` under the department functions of
-- backend/app/modules/organizations/service.py.
use ai_business_automation.Prelude.{
  Member, any, any-mem, mem-select, ==_iff, ℕ, true, List, [], ◌∷◌, ◌≡◌, ◌≢◌, refl, inl, arith,
  eq_iff, select,
}
use ai_business_automation.Errors.{app, err, uncaught, conflict, scalar_one_or_none}
use ai_business_automation.Organizations.Models.{Department}
use ai_business_automation.Organizations.Orgs.{
  department_clashes, is_department, name_taken, create_department, update_department,
}

create_department_taken :
    (id : ℕ) (rows : List Department) (taken : Department)
    → Member taken rows
    → create_department id taken.organization_id taken.organization_id taken.name rows
      ≡ err (app conflict)
unfolding create_department
create_department_taken id rows taken m =
    let dept : Department = record {
      id = id;
      organization_id = taken.organization_id;
      name = taken.name;
    } in
    let clash : any (department_clashes dept) rows ≡ true =
      any-mem (department_clashes dept) taken rows m
        (ground (arith, eq_iff taken.name taken.name)) in
    rw ((==_iff taken.organization_id taken.organization_id).1 refl) (rw clash refl)

update_department_taken :
    (rows : List Department) (taken dept : Department)
    → Member taken rows
    → select (is_department taken.organization_id dept.id) rows ≡ dept ∷ []
    → dept.id ≢ taken.id
    → update_department taken.organization_id dept.id taken.organization_id taken.name rows
      ≡ err uncaught
unfolding update_department scalar_one_or_none
update_department_taken rows taken dept m one differ =
    let (_, own) =
      (mem-select (is_department taken.organization_id dept.id) dept rows).0 (rw one (inl refl)) in
    let clash : any (name_taken dept taken.name) rows ≡ true =
      any-mem (name_taken dept taken.name) taken rows m
        (ground (arith, eq_iff taken.name taken.name, own, differ)) in
    rw ((==_iff taken.organization_id taken.organization_id).1 refl) (rw one (rw clash refl))

-- A name that a department of the organization has cannot be given again: creating a department
-- of that name is answered 409, but renaming another department of the organization to it ends in
-- an exception that nothing catches.
pub department_name_taken :
    (id org_id : ℕ) (rows : List Department) (taken dept : Department)
    → Member taken rows
    → taken.organization_id ≡ org_id
    → select (is_department org_id dept.id) rows ≡ dept ∷ []
    → dept.id ≢ taken.id
    → (create_department id org_id org_id taken.name rows ≡ err (app conflict))
      × (update_department org_id dept.id org_id taken.name rows ≡ err uncaught)
department_name_taken id org_id rows taken dept m e one differ = rw (← e) (
  create_department_taken id rows taken m,
  update_department_taken rows taken dept m (rw e one) differ,
)
