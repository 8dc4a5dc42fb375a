-- ===== src/Auth/SessionRoutes.antt =====
-- cloud/api/auth.py: refresh, logout and the session list. The dependency that checks the caller has
-- run, and its user is an argument; cookies of the response are left out.
use gov_crawler.Base.{
  ℕ, ◌+◌, Bool, not, Option, none, some, List, map, ltb, ◌==◌, if◌then◌else◌, is_some, opt_eq,
}
use gov_crawler.Base.Http.{Response, ok, http_error}
use gov_crawler.Base.Text.{Text, codes}
use gov_crawler.Auth.{User, UserSession, AuthDb}
use gov_crawler.Auth.Users.{get_user_by_id}
use gov_crawler.Auth.Sessions.{
  get_session_by_hash, get_session_by_id, list_active_sessions, rotate_session, revoke_session,
  revoke_sessions_except, revoke_session_family,
}
use gov_crawler.Auth.Guard.{Crypto, AuthConfig, Request, CurrentUser, truthy, unauthorized}
use gov_crawler.Auth.Routes.{TokenResponse, user_out, days, audit, access_token_of}

-- `req.refresh_token or request.cookies.get("refresh")`, none where that is falsy.
unfoldable pub presented_token : Option Text → Request → Option Text
presented_token body request =
    if truthy body
    then body
    else if truthy request.refresh_cookie
    then request.refresh_cookie
    else none

-- A token whose session was revoked: every session of the account is revoked.
unfoldable pub reuse_detected : UserSession → ℕ → AuthDb → Response TokenResponse × AuthDb
reuse_detected session now db =
    let killed = revoke_session_family session.user_id now db in
    (
      unauthorized (codes "Invalid or expired refresh token"),
      audit session.user_id (codes "user.session_reuse_detected") (codes "session") session.id none
          now killed,
    )

-- The session's token replaced by the fresh one.
unfoldable pub rotate :
    Crypto → AuthConfig → UserSession → User → Text → ℕ → AuthDb → Response TokenResponse × AuthDb
rotate crypto config session user fresh now db =
    let rotated =
      rotate_session session.id (crypto.hash_refresh_token fresh)
        (now + days config.refresh_ttl_days) now db in
    (
      ok (record {
        access_token = access_token_of crypto config user now;
        refresh_token = fresh;
        user = user_out user rotated;
      }),
      rotated,
    )

-- The checks of a found session, in the order of the route.
unfoldable pub refresh_session :
    Crypto → AuthConfig → UserSession → Text → ℕ → AuthDb → Response TokenResponse × AuthDb
refresh_session crypto config session fresh now db =
    if is_some session.revoked_at
    then reuse_detected session now db
    else if ltb session.expires_at now
    then (unauthorized (codes "Invalid or expired refresh token"), db)
    else elim (get_user_by_id session.user_id db) [
      | none ↦ (unauthorized (codes "User not found or inactive"), db)
      | some user ↦
          if not user.is_active
          then (unauthorized (codes "User not found or inactive"), db)
          else rotate crypto config session user fresh now db
    ]

unfoldable pub refresh :
    Crypto
    → AuthConfig
    → Option Text
    → Request
    → Text
    → ℕ
    → AuthDb
    → Response TokenResponse × AuthDb
refresh crypto config body request fresh now db = elim (presented_token body request) [
  | none ↦ (unauthorized (codes "No refresh token provided"), db)
  | some presented ↦ elim (get_session_by_hash (crypto.hash_refresh_token presented) db) [
    | none ↦ (unauthorized (codes "Invalid or expired refresh token"), db)
    | some session ↦ refresh_session crypto config session fresh now db
  ]
]

unfoldable pub logout : Crypto → Option Text → Request → ℕ → AuthDb → AuthDb
logout crypto body request now db = elim (presented_token body request) [
  | none ↦ db
  | some presented ↦ elim (get_session_by_hash (crypto.hash_refresh_token presented) db) [
    | none ↦ db
    | some session ↦
        audit session.user_id (codes "user.logout") (codes "session") session.id none now
          (revoke_session session.id now db)
  ]
]

session_id : Option UserSession → Option ℕ
session_id none = none
session_id (some session) = some session.id

unfoldable pub current_session_id : Crypto → Request → AuthDb → Option ℕ
unfolding session_id
current_session_id crypto request db = elim (presented_token none request) [
  | none ↦ none
  | some presented ↦ session_id (get_session_by_hash (crypto.hash_refresh_token presented) db)
]

-- Each active session, and whether it is the caller's own.
unfoldable pub list_sessions :
    Crypto → Request → CurrentUser → ℕ → AuthDb → List (UserSession × Bool)
list_sessions crypto request user now db =
    map (λ (s : UserSession). (s, opt_eq (some s.id) (current_session_id crypto request db)))
      (list_active_sessions user.id now db)

unfoldable pub revoke_own_session : ℕ → CurrentUser → ℕ → AuthDb → Response {0} Unit × AuthDb
revoke_own_session id user now db = elim (get_session_by_id id db) [
  | none ↦ (http_error 404 (codes "Session not found"), db)
  | some session ↦
      if not (session.user_id == user.id)
      then (http_error 404 (codes "Session not found"), db)
      else (
        ok tt,
        audit user.id (codes "user.session_revoke") (codes "session") id none now
            (revoke_session id now db),
      )
]

-- The number of sessions revoked, for the message.
unfoldable pub revoke_other_sessions : Crypto → Request → CurrentUser → ℕ → AuthDb → ℕ × AuthDb
revoke_other_sessions crypto request user now db =
    let done = revoke_sessions_except user.id (current_session_id crypto request db) now db in
    (
      done.0,
      audit user.id (codes "user.session_revoke_others") (codes "user") user.id none now done.1,
    )
