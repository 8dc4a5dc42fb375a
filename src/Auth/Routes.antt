-- ===== src/Auth/Routes.antt =====
-- cloud/api/auth.py: login with its rate limit. A fresh refresh
-- token is an argument, and so are the two clocks: `now` of the database and `mono` of the rate limit.
-- Cookies of the response repeat the tokens of its body and are left out.
use gov_crawler.Base.{
  ℕ, ◌+◌, ◌-◌, ◌*◌, Bool, false, not, Option, none, some, List, [], ◌∷◌, ◌++◌, ltb, leb,
  if◌then◌else◌, length,
}
use gov_crawler.Base.Table
use gov_crawler.Base.Http.{Response, ok, http_error}
use gov_crawler.Base.Text.{Text, codes, text_eq, is_empty}
use gov_crawler.Auth.{User, AuthDb, write_audit}
use gov_crawler.Auth.Users.{get_user_by_email, record_login_success, record_login_failure}
use gov_crawler.Auth.Sessions.{create_session}
use gov_crawler.Auth.Roles.{get_role_name}
use gov_crawler.Auth.Effective.{resolve_effective_permissions}
use gov_crawler.Auth.Guard.{
  Crypto, AuthConfig, Request, create_access_token, client_ip, unauthorized,
}

-- The database and the failed attempts of each address, newest last.
pub record LoginState : Type 0 where
  pub db : AuthDb
  pub failed_login_attempts : List (Text × List ℕ)

unfoldable pub attempts_of : Text → List (Text × List ℕ) → List ℕ
attempts_of ip [] = []
attempts_of ip ((k, ts) ∷ rest) =
    let more = attempts_of ip rest in if text_eq k ip then ts else more

unfoldable pub set_attempts : Text → List ℕ → List (Text × List ℕ) → List (Text × List ℕ)
set_attempts ip ts [] = (ip, ts) ∷ []
set_attempts ip ts ((k, old) ∷ rest) =
    let more = set_attempts ip ts rest in if text_eq k ip then (k, ts) ∷ rest else (k, old) ∷ more

-- The attempts within the window.
abbrev pub recent : ℕ → ℕ → List ℕ → List ℕ
recent mono window ts = Table.select (λ (t : ℕ). ltb (mono - t) window) ts

abbrev pub window_seconds : AuthConfig → ℕ
window_seconds config = config.login_rate_limit_window_minutes * 60

abbrev pub with_attempts : Text → List ℕ → LoginState → LoginState
with_attempts ip ts st = record st {
  failed_login_attempts = set_attempts ip ts st.failed_login_attempts;
}

unfoldable pub check_address : AuthConfig → Text → ℕ → LoginState → Response {0} Unit × LoginState
check_address config ip mono st =
    let attempts = recent mono (window_seconds config) (attempts_of ip st.failed_login_attempts) in
    (
      if leb config.login_rate_limit_attempts (length attempts)
          then http_error 429 (codes "Too many login attempts from this network. Try again later.")
          else ok tt,
      with_attempts ip attempts st,
    )

unfoldable pub check_login_rate_limit :
    AuthConfig → Option Text → ℕ → LoginState → Response {0} Unit × LoginState
unfolding check_address
check_login_rate_limit config none mono st = (ok tt, st)
check_login_rate_limit config (some ip) mono st =
    if is_empty ip then (ok tt, st) else check_address config ip mono st

unfoldable pub record_login_failure_for_rate_limit : Option Text → ℕ → LoginState → LoginState
record_login_failure_for_rate_limit none mono st = st
record_login_failure_for_rate_limit (some ip) mono st =
    if is_empty ip
    then st
    else with_attempts ip (attempts_of ip st.failed_login_attempts ++ mono ∷ []) st

pub record UserOut : Type 0 where
  pub id : ℕ
  pub email : Text
  pub full_name : Option Text
  pub is_admin : Bool
  pub role : Option Text
  pub permissions : List Text

pub record TokenResponse : Type 0 where
  pub access_token : Text
  pub refresh_token : Text
  pub user : UserOut

unfoldable pub user_out : User → AuthDb → UserOut
user_out user db = record {
  id = user.id;
  email = user.email;
  full_name = user.full_name;
  is_admin = user.is_admin;
  role = get_role_name user.role_id db;
  permissions = resolve_effective_permissions user.id db;
}

abbrev pub days : ℕ → ℕ
days n = n * 86400

abbrev pub access_token_of : Crypto → AuthConfig → User → ℕ → Text
access_token_of crypto config user now =
    create_access_token crypto user.id user.token_version config.jwt_secret
      config.access_ttl_minutes now

unfoldable pub issue_tokens :
    Crypto → AuthConfig → User → Text → Request → ℕ → AuthDb → (Text × Text) × AuthDb
issue_tokens crypto config user fresh request now db = (
  (access_token_of crypto config user now, fresh),
  (create_session user.id (crypto.hash_refresh_token fresh) (now + days config.refresh_ttl_days)
      request.user_agent (client_ip request) now db).1,
)

abbrev pub audit : ℕ → Text → Text → ℕ → Option Text → ℕ → AuthDb → AuthDb
audit user_id action target_type target_id ip now db =
    write_audit (some user_id) action (some target_type) (some target_id) ip now db

abbrev pub with_db : AuthDb → LoginState → LoginState
with_db db st = record st { db = db }

-- A wrong password: counted for the account and for the address, and audited.
unfoldable pub reject_password :
    AuthConfig → User → Option Text → ℕ → ℕ → LoginState → Response TokenResponse × LoginState
reject_password config user ip now mono st =
    let counted =
      record_login_failure user.id config.lockout_threshold config.lockout_minutes now st.db in
    let audited = audit user.id (codes "user.login_failed") (codes "user") user.id ip now counted in
    (
      unauthorized (codes "Invalid email or password"),
      record_login_failure_for_rate_limit ip mono (with_db audited st),
    )

unfoldable pub accept_password :
    Crypto
    → AuthConfig
    → User
    → Text
    → Request
    → ℕ
    → LoginState
    → Response TokenResponse × LoginState
accept_password crypto config user fresh request now st =
    let reset = record_login_success user.id now st.db in
    let issued = issue_tokens crypto config user fresh request now reset in
    let audited =
      audit user.id (codes "user.login") (codes "user") user.id (client_ip request) now issued.1 in
    (
      ok (record {
        access_token = issued.0.0;
        refresh_token = issued.0.1;
        user = user_out user audited;
      }),
      with_db audited st,
    )

abbrev pub is_locked : ℕ → User → Bool
is_locked now user = elim user.locked_until [ none ↦ false | some t ↦ ltb now t ]

-- The checks of a found account, in the order of the route.
unfoldable pub login_user :
    Crypto
    → AuthConfig
    → User
    → Text
    → Text
    → Request
    → ℕ
    → ℕ
    → LoginState
    → Response TokenResponse × LoginState
login_user crypto config user password fresh request now mono st =
    if is_locked now user
    then (http_error 423 (codes "Account temporarily locked. Try again later."), st)
    else if not user.is_active
    then (http_error 403 (codes "Account is disabled"), st)
    else if not (crypto.verify_password user.password_hash password)
    then reject_password config user (client_ip request) now mono st
    else accept_password crypto config user fresh request now st

unfoldable pub login_checked :
    Crypto
    → AuthConfig
    → Text
    → Text
    → Text
    → Request
    → ℕ
    → ℕ
    → LoginState
    → Response TokenResponse × LoginState
login_checked crypto config email password fresh request now mono st =
    elim (get_user_by_email email st.db) [
      | none ↦ (
        unauthorized (codes "Invalid email or password"),
        record_login_failure_for_rate_limit (client_ip request) mono st,
      )
      | some user ↦ login_user crypto config user password fresh request now mono st
    ]

unfoldable pub after_limit :
    Crypto
    → AuthConfig
    → Text
    → Text
    → Text
    → Request
    → ℕ
    → ℕ
    → Response {0} Unit × LoginState
    → Response TokenResponse × LoginState
unfolding login_checked
after_limit crypto config email password fresh request now mono (http_error status detail, st) =
    (http_error status detail, st)
after_limit crypto config email password fresh request now mono (ok _, st) =
    login_checked crypto config email password fresh request now mono st

unfoldable pub login :
    Crypto
    → AuthConfig
    → Text
    → Text
    → Text
    → Request
    → ℕ
    → ℕ
    → LoginState
    → Response TokenResponse × LoginState
unfolding after_limit
login crypto config email password fresh request now mono st =
    after_limit crypto config email password fresh request now mono
      (check_login_rate_limit config (client_ip request) mono st)
