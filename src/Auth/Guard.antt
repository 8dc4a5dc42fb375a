-- ===== src/Auth/Guard.antt =====
-- cloud/api/deps.py: who a request is from, and what that user may do; the access token of
-- cloud/security/jwt.py. Signing, decoding and hashing are third-party calls, the fields of Crypto.
use gov_crawler.Base.{
  ℕ, ◌+◌, ◌*◌, Bool, false, not, ◌&&◌, ◌||◌, Option, none, some, List, [], ◌∷◌, ◌==◌, if◌then◌else◌,
}
use gov_crawler.Base.Http.{Response, ok, http_error}
use gov_crawler.Base.Text.{
  Text, codes, text_eq, text_in, all, is_empty, starts_with, drop_prefix, strip, split,
}
use gov_crawler.Auth.{User, AuthDb}
use gov_crawler.Auth.Users.{get_user_by_id}
use gov_crawler.Auth.Effective.{resolve_effective_permissions}

pub record Payload : Type 0 where
  pub sub : ℕ
  pub tv : Option ℕ
  pub type : Option Text
  pub iat : ℕ
  pub exp : ℕ

-- pyjwt's encode and decode under a secret (decode at a time, none for an invalid or expired token),
-- sha256 of a refresh token, and argon2's check of a password.
pub record Crypto : Type 0 where
  pub encode : Payload → Text → Text
  pub decode_token : Text → Text → ℕ → Option Payload
  pub hash_refresh_token : Text → Text
  pub verify_password : Text → Text → Bool

-- config["auth"]
pub record AuthConfig : Type 0 where
  pub jwt_secret : Text
  pub jwt_secret_prev : Option Text
  pub access_ttl_minutes : ℕ
  pub refresh_ttl_days : ℕ
  pub lockout_threshold : ℕ
  pub lockout_minutes : ℕ
  pub login_rate_limit_attempts : ℕ
  pub login_rate_limit_window_minutes : ℕ

-- The headers and cookies that the routes read.
pub record Request : Type 0 where
  pub method : Text
  pub authorization : Option Text
  pub x_csrf_token : Option Text
  pub x_forwarded_for : Option Text
  pub user_agent : Option Text
  pub access_cookie : Option Text
  pub refresh_cookie : Option Text
  pub csrf_cookie : Option Text
  pub client : Option Text

pub record CurrentUser : Type 0 where
  pub id : ℕ
  pub email : Text
  pub is_admin : Bool
  pub permissions : List Text

abbrev pub access : Text
access = codes "access"

unfoldable pub create_access_token : Crypto → ℕ → ℕ → Text → ℕ → ℕ → Text
create_access_token crypto user_id token_version secret ttl_minutes now =
    let payload : Payload = record {
      sub = user_id;
      tv = some token_version;
      type = some access;
      iat = now;
      exp = now + ttl_minutes * 60;
    } in
    crypto.encode payload secret

-- `if x` for an optional text: None and the empty text are falsy.
abbrev pub truthy : Option Text → Bool
truthy none = false
truthy (some s) = not (is_empty s)

-- The second secret, where one is set.
previous : Crypto → Text → ℕ → Option Text → Option Payload
previous crypto token now none = none
previous crypto token now (some prev) =
    if is_empty prev then none else crypto.decode_token token prev now

unfoldable pub decode_token_with_rotation : Crypto → AuthConfig → Text → ℕ → Option Payload
unfolding previous
decode_token_with_rotation crypto config token now =
    elim (crypto.decode_token token config.jwt_secret now) [
      | some payload ↦ some payload
      | none ↦ previous crypto token now config.jwt_secret_prev
    ]

abbrev pub can : Text → CurrentUser → Bool
can perm user = user.is_admin || text_in perm user.permissions

abbrev pub has_all : List Text → CurrentUser → Bool
has_all perms user = user.is_admin || all (λ (p : Text). text_in p user.permissions) perms

abbrev bearer : Text
bearer = codes "Bearer "

abbrev pub extract_token : Request → Option Text
extract_token request = elim request.authorization [
  | none ↦ request.access_cookie
  | some header ↦
      if starts_with header bearer then some (drop_prefix header bearer) else request.access_cookie
]

abbrev pub unauthorized : {A : Type 0} → Text → Response A
unauthorized detail = http_error 401 detail

abbrev pub tv_matches : Option ℕ → ℕ → Bool
tv_matches none version = false
tv_matches (some tv) version = tv == version

abbrev pub is_access : Option Text → Bool
is_access none = false
is_access (some t) = text_eq t access

-- The checks of an account that a payload names.
abbrev pub check_account : Payload → Option User → AuthDb → Response CurrentUser
check_account payload none db = unauthorized (codes "User not found or inactive")
check_account payload (some user) db =
    if not user.is_active
    then unauthorized (codes "User not found or inactive")
    else if not (tv_matches payload.tv user.token_version)
    then unauthorized (codes "Token has been revoked")
    else ok (record {
      id = user.id;
      email = user.email;
      is_admin = user.is_admin;
      permissions = resolve_effective_permissions user.id db;
    })

-- The checks of a decoded payload.
unfoldable pub authenticate : Payload → AuthDb → Response CurrentUser
authenticate payload db =
    if not (is_access payload.type)
    then unauthorized (codes "Invalid token type")
    else check_account payload (get_user_by_id payload.sub db) db

unfoldable pub get_current_user : Crypto → AuthConfig → Request → ℕ → AuthDb → Response CurrentUser
get_current_user crypto config request now db = elim (extract_token request) [
  | none ↦ unauthorized (codes "Not authenticated")
  | some token ↦
      if is_empty token
      then unauthorized (codes "Not authenticated")
      else elim (decode_token_with_rotation crypto config token now) [
        | none ↦ unauthorized (codes "Invalid or expired token")
        | some payload ↦ authenticate payload db
      ]
]

abbrev pub forbidden : {A : Type 0} → Response A
forbidden = http_error 403 (codes "Insufficient permissions")

unfoldable pub require : List Text → CurrentUser → Response CurrentUser
require perms user = if not (has_all perms user) then forbidden else ok user

-- The dependency `require(...)` of a route: the user first, then the permissions.
unfoldable pub require_user :
    Crypto → AuthConfig → List Text → Request → ℕ → AuthDb → Response CurrentUser
require_user crypto config perms request now db =
    elim (get_current_user crypto config request now db) [
      | http_error status detail ↦ http_error status detail
      | ok user ↦ require perms user
    ]

abbrev owns : Option ℕ → CurrentUser → Bool
owns none user = false
owns (some owner) user = owner == user.id

abbrev allowed : Option Text → CurrentUser → Bool
allowed none user = false
allowed (some perm) user = not (is_empty perm) && can perm user

unfoldable pub forbid_unless_owner : Option ℕ → CurrentUser → Option Text → Response {0} Unit
forbid_unless_owner owner_id user allow =
    if owns owner_id user || user.is_admin
    then ok tt
    else if allowed allow user
    then ok tt
    else forbidden

-- `split(",")[0].strip()`; a split has at least one part.
abbrev first_part : Text → Text
first_part s = elim (split 44 s) [ [] ↦ [] | x ∷ xs ↦ strip x ]

unfoldable pub client_ip : Request → Option Text
client_ip request = elim request.x_forwarded_for [
  | none ↦ request.client
  | some forwarded ↦ if is_empty forwarded then request.client else some (first_part forwarded)
]

abbrev pub safe_methods : List Text
safe_methods = codes "GET" ∷ codes "HEAD" ∷ codes "OPTIONS" ∷ []

-- The cookie and the header are there and equal.
abbrev same_token : Option Text → Option Text → Bool
same_token none header = false
same_token (some c) none = false
same_token (some c) (some h) = not (is_empty c) && not (is_empty h) && text_eq c h

unfoldable pub verify_csrf : Request → Response {0} Unit
verify_csrf request =
    if text_in request.method safe_methods
    then ok tt
    else if truthy request.authorization
    then ok tt
    else if not (same_token request.csrf_cookie request.x_csrf_token)
    then http_error 403 (codes "Missing or invalid CSRF token")
    else ok tt
