-- ===== src/Tests/Accounts.antt =====
-- Accounts: an administrator and an operator with a live session, and what the routes make of them.
use gov_crawler.Base.{
  ℕ, ◌+◌, ◌*◌, ◌≡◌, ◌≤◌, ◌<◌, refl, Bool, true, false, ◌==◌, ◌&&◌, Option, none, some, List, [],
  ◌∷◌, arith, if◌then◌else◌, is_some, length,
}
use gov_crawler.Base.Table
use gov_crawler.Base.Http.{ok, http_error, is_ok}
use gov_crawler.Base.Text.{Text, codes, text_eq, text_in}
use gov_crawler.Auth.{Role, RolePermission, User, UserPermission, UserSession, AuthDb, is_user}
use gov_crawler.Auth.Permissions.{permission_catalog}
use gov_crawler.Auth.Users.{
  get_user_by_email, get_user_by_id, set_password, set_user_active, count_active_admins,
}
use gov_crawler.Auth.Roles.{role_keys}
use gov_crawler.Auth.Sessions.{get_session_by_hash, has_hash}
use gov_crawler.Auth.Effective.{
  put_override, is_override, resolve_effective_permissions, set_user_permission_override,
  grant_effect, deny_effect,
}
use gov_crawler.Auth.Overrides.{override_of, UniqueOverrides, put_override-override_of}
use gov_crawler.Auth.Resolution.{
  decided, role_holds, resolve_effective_permissions-override_of,
  set_user_permission_override-resolve,
}
use gov_crawler.Auth.Guard.{
  Crypto, AuthConfig, Request, Payload, CurrentUser, authenticate, get_current_user, unauthorized,
  client_ip,
}
use gov_crawler.Auth.Revocation.{get_current_user-revoked}
use gov_crawler.Auth.Routes.{LoginState, login, login_checked}
use gov_crawler.Auth.SessionRoutes.{presented_token, refresh}
use gov_crawler.Auth.Refresh.{live, refresh-reuse, refresh-rotated_away}
use gov_crawler.Auth.Login.{under_limit, may_log_in, login-is_ok, login_checked-lockout}
use gov_crawler.Auth.Admin.{patch_user}
use gov_crawler.Auth.LastAdmin.{ValidUsers}
use gov_crawler.Auth.Accounts.{patches, done, step, AccountSteps-ValidUsers}

abbrev pub boss : User
boss = record {
  id = 1;
  email = codes "a@b.in";
  password_hash = codes "pw1";
  full_name = none;
  is_active = true;
  is_admin = true;
  role_id = none;
  token_version = 0;
  failed_logins = 0;
  locked_until = none;
  last_login_at = none;
}

abbrev pub clerk : User
clerk = record {
  id = 2;
  email = codes "c@b.in";
  password_hash = codes "pw2";
  full_name = none;
  is_active = true;
  is_admin = false;
  role_id = some 1;
  token_version = 3;
  failed_logins = 4;
  locked_until = none;
  last_login_at = none;
}

abbrev session_of : Option ℕ → UserSession
session_of revoked_at = record {
  id = 1;
  user_id = 2;
  refresh_token_hash = codes "r1";
  user_agent = none;
  ip = none;
  created_at = 0;
  last_used_at = none;
  expires_at = 900;
  revoked_at = revoked_at;
}

abbrev denied : UserPermission
denied = record { user_id = 2; permission_key = codes "leads.edit"; effect = deny_effect }

abbrev pub office : Option ℕ → AuthDb
office revoked_at = record {
  roles = record { id = 1; name = codes "Clerk"; description = none; is_system = false } ∷ [];
  next_role_id = 2;
  permissions = permission_catalog;
  role_permissions =
      record { role_id = 1; permission_key = codes "leads.view" }
      ∷ record { role_id = 1; permission_key = codes "leads.edit" }
      ∷ [];
  users = boss ∷ clerk ∷ [];
  next_user_id = 3;
  user_permissions = denied ∷ [];
  sessions = session_of revoked_at ∷ [];
  next_session_id = 2;
  audit_log = [];
}

office_unique : UniqueOverrides (office none).user_permissions
unfolding UniqueOverrides Table.count
office_unique i k = ground arith

office-clerk : (r : Option ℕ) → get_user_by_id 2 (office r) ≡ some clerk
unfolding get_user_by_id Table.first
office-clerk r = refl

abbrev clerk_token : Payload
clerk_token = record { sub = 2; tv = some 3; type = some (codes "access"); iat = 0; exp = 900 }

abbrev pub crypto : Crypto
crypto = record {
  encode = λ (p : Payload) (secret : Text). codes "t";
  decode_token =
      λ (t secret : Text) (now : ℕ). if text_eq t (codes "t") then some clerk_token else none;
  hash_refresh_token = λ (t : Text). t;
  verify_password = λ (hash p : Text). text_eq hash p;
}

abbrev pub config : AuthConfig
config = record {
  jwt_secret = codes "s";
  jwt_secret_prev = none;
  access_ttl_minutes = 15;
  refresh_ttl_days = 30;
  lockout_threshold = 5;
  lockout_minutes = 15;
  login_rate_limit_attempts = 20;
  login_rate_limit_window_minutes = 15;
}

abbrev pub request : Request
request = record {
  method = codes "POST";
  authorization = some (codes "Bearer t");
  x_csrf_token = none;
  x_forwarded_for = some (codes " 10.0.0.1, 10.0.0.2");
  user_agent = none;
  access_cookie = none;
  refresh_cookie = some (codes "r1");
  csrf_cookie = none;
  client = none;
}

put_override-override_of_example :
    override_of 2
      (codes "leads.edit")
      (put_override 2 (codes "leads.view") (some deny_effect) (office none).user_permissions)
    ≡ some deny_effect
unfolding override_of Table.first text_eq
put_override-override_of_example =
    put_override-override_of 2 (codes "leads.view") (some deny_effect)
      (office none).user_permissions 2 (codes "leads.edit")

resolve_effective_permissions-override_of_example :
    text_in (codes "leads.edit") (resolve_effective_permissions 2 (office none))
    ≡ decided
        (override_of 2 (codes "leads.edit") (office none).user_permissions)
        (role_holds 2 (codes "leads.edit") (office none))
resolve_effective_permissions-override_of_example =
    resolve_effective_permissions-override_of 2 (codes "leads.edit") clerk (office none)
      office_unique (office-clerk none) refl

set_user_permission_override-resolve_example :
    text_in (codes "leads.edit") (
      resolve_effective_permissions 2
        ((set_user_permission_override 2 (codes "leads.edit") none (office none)).1))
    ≡ decided none (role_holds 2 (codes "leads.edit") (office none))
unfolding decided text_eq
set_user_permission_override-resolve_example =
    set_user_permission_override-resolve 2 (codes "leads.edit") (codes "leads.edit") none clerk
      (office none) office_unique (office-clerk none) refl

abbrev pub clerk_user : CurrentUser
clerk_user = record {
  id = 2;
  email = codes "c@b.in";
  is_admin = false;
  permissions = codes "leads.view" ∷ [];
}

office_accepts : get_current_user crypto config request 10 (office none) ≡ ok clerk_user
unfolding get_current_user authenticate get_user_by_id resolve_effective_permissions
    gov_crawler.Base.Text.starts_with gov_crawler.Base.Text.drop_prefix
    gov_crawler.Auth.Guard.decode_token_with_rotation text_eq Table.first
    gov_crawler.Auth.Effective.apply_overrides Table.select gov_crawler.Auth.Effective.discard
    Table.delete role_keys
office_accepts = refl

get_current_user-revoked_example :
    (get_current_user crypto config request 10 ((set_password 2 (codes "pw3") 11 (office none)).1)
      ≡ unauthorized (codes "Token has been revoked"))
    × (get_current_user crypto config request 10 ((set_user_active 2 false 11 (office none)).1)
        ≡ unauthorized (codes "User not found or inactive"))
get_current_user-revoked_example =
    get_current_user-revoked crypto config request 10 clerk_user (codes "pw3") 11 (office none)
      office_accepts

office_token : presented_token (some (codes "r1")) request ≡ some (codes "r1")
unfolding presented_token
office_token = refl

office_session : (r : Option ℕ) → get_session_by_hash (codes "r1") (office r) ≡ some (session_of r)
unfolding get_session_by_hash Table.first text_eq
office_session r = refl

office_one : Table.count (has_hash (codes "r1")) (office none).sessions ≤ 1
unfolding Table.count text_eq
office_one = omega arith

other_hash : text_eq (codes "r2") (codes "r1") ≡ false
unfolding text_eq
other_hash = refl

office_refreshes :
    is_ok ((refresh crypto config (some (codes "r1")) request (codes "r2") 20 (office none)).0)
    ≡ true
unfolding refresh presented_token get_session_by_hash Table.first text_eq
    gov_crawler.Auth.SessionRoutes.refresh_session get_user_by_id
    gov_crawler.Auth.SessionRoutes.rotate
office_refreshes = refl

desk-clerk : get_user_by_email (codes "c@b.in") (office none) ≡ some clerk
unfolding get_user_by_email Table.first text_eq gov_crawler.Base.Text.lower
    gov_crawler.Base.Text.strip
desk-clerk = refl

wrong : text_eq (codes "pw2") (codes "no") ≡ false
unfolding text_eq
wrong = refl

office-ValidUsers : ValidUsers (office none)
unfolding ValidUsers Table.count count_active_admins
office-ValidUsers = (λ (i : ℕ). ground arith, λ (i : ℕ) (h : 3 ≤ i). ground (arith, h), omega arith)

refresh-reuse_example :
    ((refresh crypto config (some (codes "r1")) request (codes "r2") 20 (office (some 9))).0
      ≡ unauthorized (codes "Invalid or expired refresh token"))
    × ((j : ℕ)
        → live j
            (refresh crypto config (some (codes "r1")) request (codes "r2") 20 (office (some 9))).1
          ≡ (if j == 2 then 0 else live j (office (some 9))))
refresh-reuse_example =
    refresh-reuse crypto config (some (codes "r1")) request (codes "r2") 20 (office (some 9))
      (codes "r1") (session_of (some 9)) (office_token) (office_session (some 9)) refl

refresh-rotated_away_example :
    refresh crypto config
      (some (codes "r1"))
      request
      (codes "r3")
      30
      ((refresh crypto config (some (codes "r1")) request (codes "r2") 20 (office none)).1)
    ≡ (
      unauthorized (codes "Invalid or expired refresh token"),
      (refresh crypto config (some (codes "r1")) request (codes "r2") 20 (office none)).1,
    )
refresh-rotated_away_example =
    refresh-rotated_away crypto config (some (codes "r1")) request (codes "r2") (codes "r3") 20 30
      (office none) (codes "r1") office_token office_one other_hash office_refreshes

abbrev desk : LoginState
desk = record { db = office none; failed_login_attempts = [] }

login-is_ok_example :
    is_ok ((login crypto config (codes " C@b.in") (codes "pw2") (codes "r2") request 20 5 desk).0)
    ≡ under_limit config (client_ip request) 5 desk
      && may_log_in crypto (codes "pw2") 20 (get_user_by_email (codes " C@b.in") desk.db)
login-is_ok_example =
    login-is_ok crypto config (codes " C@b.in") (codes "pw2") (codes "r2") request 20 5 desk

login_checked-lockout_example :
    let st' : LoginState =
      (login_checked crypto config
        (codes "c@b.in")
        (codes "no")
        (codes "r2")
        request
        20
        5
        desk).1 in
    login_checked crypto config (codes "c@b.in") (codes "pw2") (codes "r3") request 900 6 st'
    ≡ (http_error 423 (codes "Account temporarily locked. Try again later."), st')
login_checked-lockout_example =
    login_checked-lockout crypto config (codes "c@b.in") (codes "no") request 20 5 desk clerk
      (codes "pw2") (codes "r2") (codes "r3") request 900 6 desk-clerk refl refl wrong (omega arith)
      (omega arith)

AccountSteps-ValidUsers_example :
    ValidUsers ((patch_user 1 (some false) none clerk_user none 20 (office none)).1)
AccountSteps-ValidUsers_example =
    AccountSteps-ValidUsers
      (step (patches 1 (some false) none clerk_user none 20 (office none))
        (done ((patch_user 1 (some false) none clerk_user none 20 (office none)).1)))
      office-ValidUsers
