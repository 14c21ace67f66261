-- ===== src/Tests/Sessions.antt =====
-- Runs of the sessions in backend/app/modules/auth: a login, what it is good for, and its ends.
use ai_business_automation.Prelude.{ℕ, some, List, [], ◌∷◌, ◌≡◌, refl, arith}
use ai_business_automation.Errors.{Result, err, ok, scalar_one_or_none}
use ai_business_automation.Database.{change_row}
use ai_business_automation.Security.{Claims, create_refresh_token, decode_refresh_token}
use ai_business_automation.Organizations.Roles.{owner, employee, role_text}
use ai_business_automation.Organizations.Members.{with_role}
use ai_business_automation.Organizations.Dependencies.{require_org_member}
use ai_business_automation.Auth.Models.{AuthDb}
use ai_business_automation.Auth.OneTime.{redeem}
use ai_business_automation.Auth.Accounts.{
  get_user_by_email, reset_password, change_password, delete_keys,
}
use ai_business_automation.Auth.Sessions.{
  LoginRequest, session, session_key, store_refresh_token, access_for, refresh_for, login,
  check_user, resolve,
}
use ai_business_automation.Auth.Refresh.{refresh, refresh_key, session_user, reused}
use ai_business_automation.Auth.Memberships.{Membership, get_user_memberships, first}
use ai_business_automation.Auth.Sessions.Login.{Opened, login-Opened}
use ai_business_automation.Auth.Sessions.Runs.{Runs, done, wait, step, login_step}
use ai_business_automation.Auth.Sessions.Rotation.{refresh_once, refresh-reset_password}
use ai_business_automation.Auth.Sessions.Lasting.{refresh-login}
use ai_business_automation.Auth.Dependencies.{claim_or_empty, get_current_user}
use ai_business_automation.Auth.Dependencies.Identity.{
  IsClaimed, get_current_user-login, require_org_member-login,
}
use ai_business_automation.Auth.Router.{clear_refresh_cookie, logout_endpoint}
use ai_business_automation.Auth.Router.Leaving.{refresh-logout_endpoint}
use ai_business_automation.Tests.Samples.{whole, ada, bob}
use ai_business_automation.Tests.Redis.{Entry, listed-IsRedis}
use ai_business_automation.Tests.Platform.{
  bench, bench-IsLawful, auth_db, ada_user, initech, reset_row,
}

abbrev credentials : LoginRequest
credentials = record { email = "ada@example.org"; password = "Secret01"; org_id = some 7 }

abbrev ada_at_initech : Membership whole
ada_at_initech = record { org_id = 7; role = owner; org = initech }

abbrev access : Claims
access = access_for bench 1000 100 1 2 (some ada_at_initech)

abbrev fresh : Claims
fresh = refresh_for bench 1000 100 1

abbrev stored : List Entry
stored = store_refresh_token bench 1000 100 1 fresh []

login_lem :
    login bench 1 2 1000 credentials auth_db []
    ≡ (ok (session access fresh (some (initech, owner))), stored)
unfolding login check_user get_user_by_email scalar_one_or_none resolve get_user_memberships
login_lem = refl

login-Opened_example :
    Opened bench 1 2 1000 credentials auth_db [] access fresh (some (initech, owner)) stored
login-Opened_example = login-Opened bench 1 2 1000 credentials auth_db [] login_lem

-- Ada has another name by then, and Redis another session.
abbrev later_db : AuthDb whole
later_db = record auth_db { users = record ada_user { full_name = "Ada L." } ∷ [] }

abbrev two_stored : List Entry
two_stored = store_refresh_token bench 1500 100 9 (refresh_for bench 1500 100 9) stored

refresh-login_example :
    (refresh bench 3 4 2000 fresh later_db two_stored).0
    ≡ ok (
      access_for bench 2000 100 3 4 (first (get_user_memberships 100 later_db.org)),
      refresh_for bench 2000 100 3,
    )
refresh-login_example =
    refresh-login bench bench-IsLawful 1 2 1000 credentials auth_db [] 3 4 2000 ada_user
      (record ada_user { full_name = "Ada L." }) later_db two_stored login_lem refl refl refl refl
      (omega arith)

abbrev rotated_store : List Entry
rotated_store = store_refresh_token bench 2000 100 3 (refresh_for bench 2000 100 3) []

refresh_lem : refresh bench 3 4 2000 fresh auth_db stored ≡ (
  ok (access_for bench 2000 100 3 4 (some ada_at_initech), refresh_for bench 2000 100 3),
  rotated_store,
)
unfolding refresh refresh_key decode_refresh_token create_refresh_token session_user
    scalar_one_or_none get_user_memberships
refresh_lem = refl

fresh_key : refresh_key bench 2000 fresh ≡ ok (session_key bench 100 1)
unfolding refresh_key decode_refresh_token create_refresh_token
fresh_key = refl

-- Another login comes between.
abbrev between : List Entry
between = (login bench 5 6 2500 credentials auth_db rotated_store).1

between-Runs : Runs bench whole (session_key bench 100 1) 2000 rotated_store 3000 between
between-Runs =
    wait (omega arith) (step (login_step 5 6 credentials auth_db refl) (wait (omega arith) done))

fresh_key_later : refresh_key bench 3000 fresh ≡ ok (session_key bench 100 1)
unfolding refresh_key decode_refresh_token create_refresh_token
fresh_key_later = refl

refresh_once_example :
    refresh bench 7 8 3000 fresh auth_db between
    ≡ (err (reused bench), bench.redis.delete (session_key bench 100 1) between)
refresh_once_example =
    refresh_once bench listed-IsRedis 3 4 2000 fresh auth_db stored (session_key bench 100 1) 3000
      between 7 8 fresh auth_db refresh_lem fresh_key refl between-Runs fresh_key_later

-- The session is left by the endpoint.
abbrev endpoint_store : List Entry
endpoint_store = (logout_endpoint bench 1500 access later_db stored).1

endpoint-Runs : Runs bench whole (session_key bench 100 1) 1500 endpoint_store 3000 endpoint_store
endpoint-Runs = wait (omega arith) done

refresh-logout_endpoint_example :
    ((logout_endpoint bench 1500 access later_db stored).0 ≡ ok clear_refresh_cookie)
    × ((refresh bench 7 8 3000 fresh auth_db endpoint_store).0 ≡ err (reused bench))
refresh-logout_endpoint_example =
    refresh-logout_endpoint bench bench-IsLawful 1 2 1000 credentials auth_db [] 1500 3000 7 8
      stored endpoint_store ada_user (record ada_user { full_name = "Ada L." }) later_db auth_db
      login_lem refl refl refl (omega arith) endpoint-Runs (omega arith)

-- The password is reset.
abbrev reset : Result (AuthDb whole) × List Entry
reset = reset_password bench 0 1500 "r0" "Secret02" auth_db stored

abbrev reset_db : AuthDb whole
reset_db = elim reset.0 [ err e ↦ auth_db | ok db ↦ db ]

reset_lem : reset_password bench 0 1500 "r0" "Secret02" auth_db stored ≡ (ok reset_db, [])
unfolding reset_password change_password redeem scalar_one_or_none change_row delete_keys
reset_lem = refl

reset-Runs : Runs bench whole (session_key bench 100 1) 1500 [] 3000 []
reset-Runs = wait (omega arith) done

refresh-reset_password_example :
    refresh bench 7 8 3000 fresh auth_db []
    ≡ (err (reused bench), bench.redis.delete (session_key bench 100 1) [])
refresh-reset_password_example =
    refresh-reset_password bench listed-IsRedis 0 1500 "r0" "Secret02" auth_db stored reset_row
      (session_key bench 100 1) 3000 [] 7 8 fresh auth_db reset_lem refl refl reset-Runs
      fresh_key_later

get_current_user-login_example :
    (payload : Claims) × (get_current_user bench 1500 access later_db
      ≡ ok (record ada_user { full_name = "Ada L." }, payload))
    × (◌≡◌ {A = ℕ} 100 100)
    × (payload.session_id ≡ some (bench.show_id 1))
    × IsClaimed bench (some (initech, owner)) payload
get_current_user-login_example =
    get_current_user-login bench bench-IsLawful 1 2 1000 credentials auth_db [] 1500 ada_user
      (record ada_user { full_name = "Ada L." }) later_db login_lem refl refl refl (omega arith)

-- Her role has changed since the login.
abbrev demoted_db : AuthDb whole
demoted_db = record auth_db {
  org = record auth_db.org { members = with_role employee ada ∷ bob ∷ [] };
}

require_org_member-login_example :
    (payload : Claims) × (get_current_user bench 1500 access demoted_db ≡ ok (ada_user, payload))
    × (payload.role ≡ some (role_text owner))
    × (require_org_member bench.parse_id
          (claim_or_empty payload.org_id)
          100
          demoted_db.org.organizations
          demoted_db.org.members
        ≡ ok (with_role employee ada))
require_org_member-login_example =
    require_org_member-login bench bench-IsLawful 1 2 1000 credentials auth_db [] 1500 ada_user
      ada_user demoted_db initech (with_role employee ada) login_lem refl refl refl refl refl refl
      (omega arith)
