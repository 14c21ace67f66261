-- ===== src/Organizations/Invitations/Laws.antt =====
-- An invitation of backend/app/modules/organizations/service.py from its issue to its use.
use ai_business_automation.Prelude.{
  ℕ, ◌≤◌, ◌<◌, String, Option, none, some, Bool, true, false, not, List, [], ◌∷◌, ◌++◌, ◌≡◌, refl,
  ap, ◌∙◌, subst, inl, inr, arith, str_eq, eq_iff, is_some, select, mem-select,
}
use ai_business_automation.Errors.{
  app, ok, err, ◌>>=◌, ◌>>◌, >>=-eq-ok, or_raise-eq-ok, scalar-eq-some, scalar-eq-none, raise_if->>,
  scalar_one_or_none, or_raise, not_found, conflict, forbidden, raise_if,
}
use ai_business_automation.Database.{add_row, change_row, select-change_row_nil}
use ai_business_automation.Organizations.Models.{OrgMember, Invitation}
use ai_business_automation.Organizations.Members.{is_member}
use ai_business_automation.Organizations.Invitations.{
  invitation_id, member_clashes, opens, accepted, accept_invitation, join, membership,
}

not-eq-false : (b : Bool) → not b ≡ false → b ≡ true
not-eq-false true h = refl
not-eq-false false h = cc

is_some-eq-false : {A : Type 0} (o : Option A) → is_some o ≡ false → o ≡ none
is_some-eq-false none h = refl
is_some-eq-false (some a) h = cc

add_row-eq-ok :
    (new : OrgMember) (members : List OrgMember) {members' : List OrgMember}
    → add_row (member_clashes new) new members ≡ ok members'
    → members' ≡ members ++ new ∷ []
add_row-eq-ok new members h = ground arith

join-eq-ok :
    (lower : String → String) (id user_id : ℕ) (user_email : String) (inv : Invitation)
    (members : List OrgMember) {members' : List OrgMember}
    → join lower id user_id user_email inv members ≡ ok members'
    → (lower inv.email ≡ lower user_email)
      × (select (is_member inv.organization_id user_id) members ≡ [])
      × (members' ≡ members ++ membership id user_id inv ∷ [])
unfolding join
join-eq-ok lower id user_id user_email inv members {members'} h =
    let k =
      add_row (member_clashes (membership id user_id inv)) (membership id user_id inv) members in
    let found = scalar_one_or_none (select (is_member inv.organization_id user_id) members) in
    let (same, h1) =
      raise_if->> (not (str_eq (lower inv.email) (lower user_email))) (forbidden "EMAIL_MISMATCH")
        (found >>= λ (a : Option OrgMember). raise_if (is_some a) conflict >> k) h in
    let (already, e, h2) =
      >>=-eq-ok found (λ (a : Option OrgMember). raise_if (is_some a) conflict >> k) h1 in
    let (fresh, h3) = raise_if->> (is_some already) conflict k h2 in
    (
      (eq_iff (lower inv.email) (lower user_email)).0 (not-eq-false _ same),
      scalar-eq-none (select (is_member inv.organization_id user_id) members)
          (e ∙ ap ok (is_some-eq-false already fresh)),
      add_row-eq-ok (membership id user_id inv) members h3,
    )

-- What an invitation that a token opens is.
opens-eq-true :
    (token_hash : String) (now : ℕ) (i : Invitation)
    → opens token_hash now i ≡ true
    → (i.token_hash ≡ token_hash) × (i.accepted_at ≡ none) × (now < i.expires_at)
opens-eq-true token_hash now i h = (
  ground (arith, eq_iff i.token_hash token_hash),
  is_some-eq-false i.accepted_at (ground arith),
  ground arith,
)

module _ (hash_token : String → String) (lower : String → String) where
  -- When `accept_invitation` returns, exactly one invitation is opened by the token: it has the
  -- hash of the token, was not accepted before and has not expired; it was sent to the caller's
  -- address up to case, the caller was no member of its organization, he is added as one with the
  -- invited role, and the invitation is marked as accepted at that time.
  pub accept_invitation-eq-ok :
      (id : ℕ) (token : String) (now user_id : ℕ) (user_email : String) (members : List OrgMember)
      (invitations : List Invitation) {inv : Invitation} {members' : List OrgMember}
      {invitations' : List Invitation}
      → accept_invitation hash_token lower id token now user_id user_email members invitations
        ≡ ok (inv, members', invitations')
      → (select (opens (hash_token token) now) invitations ≡ inv ∷ [])
        × (lower inv.email ≡ lower user_email)
        × (select (is_member inv.organization_id user_id) members ≡ [])
        × (members'
            ≡ members
              ++ record {
                id = id;
                organization_id = inv.organization_id;
                user_id = user_id;
                role = inv.role;
                department_id = none;
              }
                ∷ [])
        × (invitations'
            ≡ change_row invitation_id inv.id
                (λ i. record i { accepted_at = some now })
                invitations)
        × (inv.token_hash ≡ hash_token token)
        × (inv.accepted_at ≡ none)
        × (now < inv.expires_at)
  unfolding accept_invitation
  accept_invitation-eq-ok id token now user_id user_email members invitations {inv} {members'}
        {invitations'} h =
      let (found, e, h1) =
        >>=-eq-ok (scalar_one_or_none (select (opens (hash_token token) now) invitations)) _ h in
      let (i, e1, h2) = >>=-eq-ok (or_raise found not_found) _ h1 in
      let (joined, e2, h3) = >>=-eq-ok (join lower id user_id user_email i members) _ h2 in
      let at : i ≡ inv = ground arith in
      let one =
        scalar-eq-some (select (opens (hash_token token) now) invitations)
          (e ∙ ap ok (or_raise-eq-ok found not_found e1)) in
      let got : join lower id user_id user_email inv members ≡ ok members' =
        subst (λ x. join lower id user_id user_email x members ≡ ok members') at
          (e2 ∙ ground arith) in
      let (mail, fresh, added) = join-eq-ok lower id user_id user_email inv members got in
      let only = one ∙ ap (λ x. x ∷ []) at in
      let (_, opened) =
        (mem-select (opens (hash_token token) now) inv invitations).0 (rw only (inl refl)) in
      let (hash, pending, early) = opens-eq-true (hash_token token) now inv opened in
      (only, mail, fresh, added, ground arith, hash, pending, early)

  -- An invitation is used once: after it was accepted, its token is refused with 404 at any later
  -- time, for any user.
  pub accept_invitation_once :
      (id : ℕ) (token : String) (now user_id : ℕ) (user_email : String) (members : List OrgMember)
      (invitations : List Invitation) {inv : Invitation} {members' : List OrgMember}
      {invitations' : List Invitation}
      → accept_invitation hash_token lower id token now user_id user_email members invitations
        ≡ ok (inv, members', invitations')
      → (id' later user_id' : ℕ) (user_email' : String) (members'' : List OrgMember) → now ≤ later
      → accept_invitation hash_token lower id' token later user_id' user_email' members''
          invitations'
        ≡ err (app not_found)
  unfolding accept_invitation scalar_one_or_none
  accept_invitation_once id token now user_id user_email members invitations {inv} h id' later
        user_id' user_email' members'' le =
      let (one, _, _, _, same, _, _, _) =
        accept_invitation-eq-ok id token now user_id user_email members invitations h in
      let closed =
        select-change_row_nil invitation_id (opens (hash_token token) later) (accepted now) inv
          invitations
          (λ r m o.
            elim (rw one at
              ((mem-select (opens (hash_token token) now) r invitations).1 (m, ground arith))) [
                | inl e ↦ e
                | inr no_more ↦ absurd no_more
              ])
          (λ r. ground arith) in
      rw same (rw closed refl)
