-- ===== src/Auth/Accounts/Joining.antt =====
-- Registration with the token of an invitation in backend/app/modules/auth/service.py.
use ai_business_automation.Prelude.{
  ℕ, ◌+◌, ◌*◌, ◌≤◌, ◌<◌, ◌⊎◌, inl, inr, String, Option, none, some, true, false, [], ◌∷◌, List,
  ◌++◌, ◌≡◌, ◌≢◌, refl, ap, sym, ◌∙◌, arith, str_eq, is_some, select, select-select, any,
}
use ai_business_automation.Errors.{ok, scalar_one_or_none}
use ai_business_automation.Database.{change_row}
use ai_business_automation.Workflows.Graph.{Values}
use ai_business_automation.Organizations.Models.{Invitation}
use ai_business_automation.Organizations.Invitations.{
  invitation_id, opens, accepted, membership, member_clashes,
}
use ai_business_automation.Organizations.Orgs.{OrgDb}
use ai_business_automation.Auth.Models.{User, AuthDb, user_key, token_clashes}
use ai_business_automation.Auth.Platform.{Platform}
use ai_business_automation.Auth.OneTime.{new_row}
use ai_business_automation.Auth.Accounts.{
  RegisterRequest, Mail, verified, has_email, get_user_by_email, user_clashes, new_user,
  accept_invite, invited, register,
}

-- The only invitation with the hash of a token is the only one that the token can open.
only_invitation :
    (token_hash : String) (now : ℕ) (invitations : List Invitation) (inv : Invitation)
    → select (λ i. str_eq i.token_hash token_hash) invitations ≡ inv ∷ []
    → select (opens token_hash now) invitations ≡ select (opens token_hash now) (inv ∷ [])
only_invitation token_hash now invitations inv one =
    sym (
      select-select (opens token_hash now) (λ i. str_eq i.token_hash token_hash) invitations
        (λ i h. ground arith))
    ∙ ap (select (opens token_hash now)) one

-- An invitation that was neither accepted nor has expired.
abbrev pub IsPending : ℕ → Invitation → Type 0
IsPending now inv = (inv.accepted_at ≡ none) × (now < inv.expires_at)

-- One that was accepted, or has expired.
abbrev pub IsClosed : ℕ → Invitation → Type 0
IsClosed now inv = (inv.accepted_at ≢ none) ⊎ (inv.expires_at ≤ now)

selected :
    (token_hash : String) (inv : Invitation) (invitations : List Invitation)
    → select (λ i. str_eq i.token_hash token_hash) invitations ≡ inv ∷ []
    → str_eq inv.token_hash token_hash ≡ true
selected token_hash inv [] h = cc
selected token_hash inv (i ∷ invitations) h = ground (arith, selected token_hash inv invitations, h)

pending-opens :
    (token_hash : String) (now : ℕ) (inv : Invitation) (invitations : List Invitation)
    → select (λ i. str_eq i.token_hash token_hash) invitations ≡ inv ∷ []
    → IsPending now inv
    → select (opens token_hash now) invitations ≡ inv ∷ []
pending-opens token_hash now inv invitations one (pending, early) =
    let hit = selected token_hash inv invitations one in
    let open_ : opens token_hash now inv ≡ true = rw (hit, pending) (ground (arith, early)) in
    only_invitation token_hash now invitations inv one ∙ rw open_ refl

accepted_is_some : (o : Option ℕ) → o ≢ none → is_some o ≡ true
accepted_is_some none h = absurd (h refl)
accepted_is_some (some t) h = refl

closed-opens :
    (token_hash : String) (now : ℕ) (inv : Invitation) (invitations : List Invitation)
    → select (λ i. str_eq i.token_hash token_hash) invitations ≡ inv ∷ []
    → IsClosed now inv
    → select (opens token_hash now) invitations ≡ []
closed-opens token_hash now inv invitations one (inl taken) =
    let was = accepted_is_some inv.accepted_at taken in
    let shut : opens token_hash now inv ≡ false = ground (arith, was) in
    only_invitation token_hash now invitations inv one ∙ rw shut refl
closed-opens token_hash now inv invitations one (inr late) =
    let shut : opens token_hash now inv ≡ false = ground (arith, late) in
    only_invitation token_hash now invitations inv one ∙ rw shut refl

module _ (p : Platform) {v : Values} where
  abbrev with_member : ℕ → ℕ → ℕ → Invitation → OrgDb v → OrgDb v
  with_member now member_id user_id inv org = record org {
    members = org.members ++ membership member_id user_id inv ∷ [];
    invitations = change_row invitation_id inv.id (accepted now) org.invitations;
  }

  invited-ok :
      (now member_id user_id : ℕ) (token : String) (inv : Invitation) (org : OrgDb v)
      → str_eq token "" ≡ false
      → select (opens (p.hash_token token) now) org.invitations ≡ inv ∷ []
      → any (member_clashes (membership member_id user_id inv)) org.members ≡ false
      → invited p now member_id user_id (some token) org
        ≡ ok (true, with_member now member_id user_id inv org)
  unfolding accept_invite
  invited-ok now member_id user_id token inv org full one apart =
      rw full (rw (accept_invite, one) (rw apart refl))

  invited-closed :
      (now member_id user_id : ℕ) (token : String) (org : OrgDb v)
      → str_eq token "" ≡ false
      → select (opens (p.hash_token token) now) org.invitations ≡ []
      → invited p now member_id user_id (some token) org ≡ ok (false, org)
  unfolding accept_invite
  invited-closed now member_id user_id token org full none_open =
      rw full (rw (accept_invite, none_open) refl)

  -- Whoever holds the token of the only invitation with its hash, which was neither accepted nor
  -- has expired, registers any free address with it, if the drawn identifiers are new and he is no
  -- member yet: the new user is verified, he is a member of the inviting
  -- organization in the role of the invitation, the invitation is marked as accepted, and no mail
  -- is sent. The address of the invitation is not looked at.
  pub register-invited :
      (user_id row_id : ℕ) (plain : String) (salt now : ℕ) (body : RegisterRequest) (db : AuthDb v)
      (token : String) (inv : Invitation)
      → body.invite_token ≡ some token
      → str_eq token "" ≡ false
      → select (λ i. str_eq i.token_hash (p.hash_token token)) db.org.invitations ≡ inv ∷ []
      → IsPending now inv
      → select (has_email p body.email) db.users ≡ []
      → any (user_clashes p (new_user p user_id salt body)) db.users ≡ false
      → any (member_clashes (membership row_id user_id inv)) db.org.members ≡ false
      → (user : User) × (db' : AuthDb v) × (register p user_id row_id plain salt now body db
          ≡ ok ((user, none), db'))
        × (user.id ≡ user_id)
        × (user.email ≡ body.email)
        × (user.hashed_password ≡ some (p.hash_password salt body.password))
        × (user.is_verified ≡ true)
        × (user.is_active ≡ true)
        × (db'.users
            ≡ change_row user_key user_id
                (λ u. record u { is_verified = true })
                (db.users ++ record user { is_verified = false } ∷ []))
        × (db'.org.members
            ≡ db.org.members
              ++ record {
                id = row_id;
                organization_id = inv.organization_id;
                user_id = user_id;
                role = inv.role;
                department_id = none;
              }
                ∷ [])
        × (db'.org.invitations
            ≡ change_row invitation_id inv.id
                (λ i. record i { accepted_at = some now })
                db.org.invitations)
  unfolding register get_user_by_email scalar_one_or_none
  register-invited user_id row_id plain salt now body db token inv asked full one pending free apart
        alone =
      let opened = pending-opens (p.hash_token token) now inv db.org.invitations one pending in
      (
        verified (new_user p user_id salt body),
        record db {
          users =
              change_row user_key user_id verified (db.users ++ new_user p user_id salt body ∷ []);
          org = with_member now row_id user_id inv db.org;
        },
        rw free (
            rw apart (
              rw asked
                (rw (invited-ok now row_id user_id token inv db.org full opened alone) refl))),
        refl,
        refl,
        refl,
        refl,
        refl,
        refl,
        refl,
        refl,
      )

  -- With the token of an invitation that was accepted or has expired, the only one with its hash,
  -- a registration of a free address is one without an invitation, if what it draws is new: the new user is not verified, the members and invitations stay as they
  -- are, and a token that verifies his address within a day is stored and mailed to him.
  pub register-uninvited :
      (user_id row_id : ℕ) (plain : String) (salt now : ℕ) (body : RegisterRequest) (db : AuthDb v)
      (token : String) (inv : Invitation)
      → body.invite_token ≡ some token
      → str_eq token "" ≡ false
      → select (λ i. str_eq i.token_hash (p.hash_token token)) db.org.invitations ≡ inv ∷ []
      → IsClosed now inv
      → select (has_email p body.email) db.users ≡ []
      → any (user_clashes p (new_user p user_id salt body)) db.users ≡ false
      → any
          (token_clashes (new_row row_id user_id (p.hash_token plain) (now + 86400)))
          db.email_verification_tokens
        ≡ false
      → (user : User) × (mail : Mail) × (db' : AuthDb v) × (register p user_id row_id plain salt now
            body db
          ≡ ok ((user, some mail), db'))
        × (user.email ≡ body.email)
        × (user.is_verified ≡ false)
        × (mail.to ≡ body.email)
        × (mail.token ≡ plain)
        × (db'.users ≡ db.users ++ user ∷ [])
        × (db'.org ≡ db.org)
        × (db'.email_verification_tokens
            ≡ db.email_verification_tokens
              ++ record {
                id = row_id;
                user_id = user_id;
                token_hash = p.hash_token plain;
                expires_at = now + 24 * 3600;
                used_at = none;
              }
                ∷ [])
  unfolding register get_user_by_email scalar_one_or_none
  register-uninvited user_id row_id plain salt now body db token inv asked full one closed free
        apart alone =
      let shut = closed-opens (p.hash_token token) now inv db.org.invitations one closed in
      (
        new_user p user_id salt body,
        record { to = body.email; token = plain },
        record db {
          users = db.users ++ new_user p user_id salt body ∷ [];
          email_verification_tokens =
              db.email_verification_tokens
              ++ new_row row_id user_id (p.hash_token plain) (now + 86400) ∷ [];
        },
        rw free (
            rw apart (
              rw asked
                (rw (invited-closed now row_id user_id token db.org full shut) (rw alone refl)))),
        refl,
        refl,
        refl,
        refl,
        refl,
        refl,
        refl,
      )
