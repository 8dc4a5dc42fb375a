-- ===== src/Auth/Refresh.antt =====
-- What a refresh does to the sessions of an account.
use gov_crawler.Base.{
  ℕ, ◌+◌, ◌≤◌, ◌≡◌, refl, sym, subst, Bool, true, false, not, Option, none, some, List, [], ◌∷◌,
  arith, ltb, ◌==◌, if◌then◌else◌, Bool-cases, Option-cases, inl, inr, is_some, ==_refl, ◌⊎◌,
}
use gov_crawler.Base.Table
use gov_crawler.Base.Table.{first-update, first-eq-some, count-update}
use gov_crawler.Base.Selects.{first-update_leaves}
use gov_crawler.Base.Http.{Response, is_ok}
use gov_crawler.Base.Text.{Text, codes, text_eq}
use gov_crawler.Auth.{User, UserSession, AuthDb, is_session, write_audit}
use gov_crawler.Auth.Users.{get_user_by_id}
use gov_crawler.Auth.Sessions.{
  has_hash, get_session_by_hash, is_live, revoked, rotated, to_revoke, revoke_sessions_except,
  revoke_session_family, rotate_session,
}
use gov_crawler.Auth.Guard.{Crypto, AuthConfig, Request, unauthorized}
use gov_crawler.Auth.Routes.{TokenResponse, days}
use gov_crawler.Auth.SessionRoutes.{
  presented_token, reuse_detected, rotate, refresh_session, refresh,
}

unfoldable pub live : ℕ → AuthDb → ℕ
live i db = Table.count (is_live i) db.sessions

-- The rows that a revocation without a spared session hits.
to_revoke-is_live : (i : ℕ) (s : UserSession) → to_revoke i none s ≡ is_live i s
to_revoke-is_live i s = ground arith

-- The revocation of a family ends each live session of the account and no other.
revoke_session_family-live :
    (i j t : ℕ) (db : AuthDb)
    → live j (revoke_session_family i t db) ≡ (if j == i then 0 else live j db)
unfolding live revoke_session_family revoke_sessions_except Table.count Table.update
revoke_session_family-live i j t db = rows db.sessions
  where
    rows :
        (ss : List UserSession)
        → Table.count (is_live j) (Table.update (to_revoke i none) (revoked t) ss)
          ≡ (if j == i then 0 else Table.count (is_live j) ss)
    rows [] = ground arith
    rows (s ∷ ss) = ground (arith, rows ss)

-- A session of the account is revoked after it.
revoke_session_family-revoked :
    (i t : ℕ) (h : Text) (s : UserSession) (db : AuthDb)
    → get_session_by_hash h db ≡ some s
    → s.user_id ≡ i
    → (s' : UserSession) × (get_session_by_hash h (revoke_session_family i t db) ≡ some s')
      × (is_some s'.revoked_at ≡ true)
unfolding get_session_by_hash revoke_session_family revoke_sessions_except
revoke_session_family-revoked i t h s db e same = (
  if to_revoke i none s then revoked t s else s,
  rw
      (
        first-update (to_revoke i none) (has_hash h) (revoked t) (λ (a : UserSession). refl)
            db.sessions,
        e,
      )
      refl,
  elim (Bool-cases (to_revoke i none s)) [
    | inl hit ↦ rw hit refl
    | inr miss ↦ rw miss (ground (arith, same))
  ],
)

-- The route on a presented token whose session is found.
refresh-found :
    (crypto : Crypto) (config : AuthConfig) (body : Option Text) (request : Request) (fresh : Text)
    → (now : ℕ) (db : AuthDb) (presented : Text) (s : UserSession)
    → presented_token body request ≡ some presented
    → get_session_by_hash (crypto.hash_refresh_token presented) db ≡ some s
    → refresh crypto config body request fresh now db ≡ refresh_session crypto config s fresh now db
unfolding refresh
refresh-found crypto config body request fresh now db presented s token found =
    rw (token, found, refresh) refl

refresh-unknown :
    (crypto : Crypto) (config : AuthConfig) (body : Option Text) (request : Request) (fresh : Text)
    → (now : ℕ) (db : AuthDb) (presented : Text) → presented_token body request ≡ some presented
    → get_session_by_hash (crypto.hash_refresh_token presented) db ≡ none
    → refresh crypto config body request fresh now db
      ≡ (unauthorized (codes "Invalid or expired refresh token"), db)
unfolding refresh
refresh-unknown crypto config body request fresh now db presented token found =
    rw (token, found, refresh) refl

refresh_session-dead :
    (crypto : Crypto) (config : AuthConfig) (s : UserSession) (fresh : Text) (now : ℕ) (db : AuthDb)
    → is_some s.revoked_at ≡ true
    → refresh_session crypto config s fresh now db ≡ reuse_detected s now db
unfolding refresh_session
refresh_session-dead crypto config s fresh now db dead = rw dead refl

-- A refresh token whose session was revoked is refused and ends every live session of the account; the
-- live sessions of the other accounts stay.
pub refresh-reuse :
    (crypto : Crypto) (config : AuthConfig) (body : Option Text) (request : Request) (fresh : Text)
    → (now : ℕ) (db : AuthDb) (presented : Text) (s : UserSession)
    → presented_token body request ≡ some presented
    → get_session_by_hash (crypto.hash_refresh_token presented) db ≡ some s
    → is_some s.revoked_at ≡ true
    → ((refresh crypto config body request fresh now db).0
        ≡ unauthorized (codes "Invalid or expired refresh token"))
      × ((j : ℕ)
          → live j (refresh crypto config body request fresh now db).1
            ≡ (if j == s.user_id then 0 else live j db))
unfolding reuse_detected live write_audit revoke_session_family
refresh-reuse crypto config body request fresh now db presented s token found dead =
    rw
      (
        refresh-found crypto config body request fresh now db presented s token found,
        refresh_session-dead crypto config s fresh now db dead,
      )
      (refl, λ (j : ℕ). revoke_session_family-live s.user_id j now db)

-- A session that was refreshed has the fresh token's hash and nothing else of the database changes.
refresh_session-rotates :
    (crypto : Crypto) (config : AuthConfig) (s : UserSession) (fresh : Text) (now : ℕ) (db : AuthDb)
    → is_ok ((refresh_session crypto config s fresh now db).0) ≡ true
    → (refresh_session crypto config s fresh now db).1
      ≡ rotate_session s.id
          (crypto.hash_refresh_token fresh)
          (now + days config.refresh_ttl_days)
          now
          db
unfolding refresh_session reuse_detected rotate
refresh_session-rotates crypto config s fresh now db =
    revoked_case (is_some s.revoked_at)
      (expired (ltb s.expires_at now) (account (get_user_by_id s.user_id db)))
  where
    Rotates : Response TokenResponse × AuthDb → Type 0
    Rotates r =
        is_ok r.0 ≡ true
        → r.1
          ≡ rotate_session s.id (crypto.hash_refresh_token fresh)
              (now + days config.refresh_ttl_days) now db

    checked : Option User → Response TokenResponse × AuthDb
    checked o = elim o [
      | none ↦ (unauthorized (codes "User not found or inactive"), db)
      | some user ↦
          if not user.is_active
          then (unauthorized (codes "User not found or inactive"), db)
          else rotate crypto config s user fresh now db
    ]

    active :
        (u : User) (b : Bool)
        → Rotates (
            if not b
            then (unauthorized (codes "User not found or inactive"), db)
            else rotate crypto config s u fresh now db)
    active u true h = refl
    active u false h = cc

    account : (o : Option User) → Rotates (checked o)
    account none h = cc
    account (some u) h = active u u.is_active h

    late : Response TokenResponse × AuthDb → Bool → Response TokenResponse × AuthDb
    late r b = if b then (unauthorized (codes "Invalid or expired refresh token"), db) else r

    expired :
        (b : Bool)
        → Rotates (checked (get_user_by_id s.user_id db))
        → Rotates (late (checked (get_user_by_id s.user_id db)) b)
    expired true k h = cc
    expired false k h = k h

    revoked_case :
        (b : Bool)
        → Rotates (late (checked (get_user_by_id s.user_id db)) (ltb s.expires_at now))
        → Rotates (
            if b
            then reuse_detected s now db
            else late (checked (get_user_by_id s.user_id db)) (ltb s.expires_at now))
    revoked_case true k h = cc
    revoked_case false k h = k h

-- The hash that a rotation replaces is no session's any more.
rotate_session-gone :
    (s : UserSession) (h h' : Text) (expires now : ℕ) (db : AuthDb)
    → Table.count (has_hash h) db.sessions ≤ 1
    → text_eq h' h ≡ false
    → get_session_by_hash h db ≡ some s
    → get_session_by_hash h (rotate_session s.id h' expires now db) ≡ none
unfolding get_session_by_hash rotate_session
rotate_session-gone s h h' expires now db one differs found =
    first-update_leaves (is_session s.id) (has_hash h) (rotated h' expires now) s db.sessions one
      found (==_refl s.id) (λ (a : UserSession). differs)

-- After a refresh that succeeded, the token that it replaced finds no session: presented again, it is
-- refused and the database stays as it is, so the account's sessions stay live. The condition is that
-- the presented token's hash is the hash of one session at most and differs from the fresh token's.
pub refresh-rotated_away :
    (crypto : Crypto) (config : AuthConfig) (body : Option Text) (request : Request)
    → (fresh fresh' : Text) (now now' : ℕ) (db : AuthDb) (presented : Text)
    → presented_token body request ≡ some presented
    → Table.count (has_hash (crypto.hash_refresh_token presented)) db.sessions ≤ 1
    → text_eq (crypto.hash_refresh_token fresh) (crypto.hash_refresh_token presented) ≡ false
    → is_ok ((refresh crypto config body request fresh now db).0) ≡ true
    → refresh crypto config body request fresh' now'
        ((refresh crypto config body request fresh now db).1)
      ≡ (
        unauthorized (codes "Invalid or expired refresh token"),
        (refresh crypto config body request fresh now db).1,
      )
refresh-rotated_away crypto config body request fresh fresh' now now' db presented token one differs
      done =
    refresh-unknown crypto config body request fresh' now' after presented token
      (gone (Option-cases (get_session_by_hash h db)))
  where
    h : Text
    h = crypto.hash_refresh_token presented

    after : AuthDb
    after = (refresh crypto config body request fresh now db).1

    NoneIn : Response TokenResponse × AuthDb → Type 0
    NoneIn r = get_session_by_hash h r.1 ≡ none

    gone :
        (get_session_by_hash h db ≡ none)
          ⊎ ((s : UserSession) × (get_session_by_hash h db ≡ some s))
        → get_session_by_hash h after ≡ none
    gone (inl none_found) =
        subst NoneIn
          (sym (refresh-unknown crypto config body request fresh now db presented token none_found))
          none_found
    gone (inr (s, found)) =
        subst NoneIn
          (sym (refresh-found crypto config body request fresh now db presented s token found))
          (subst (λ (d : AuthDb). get_session_by_hash h d ≡ none)
            (sym (refresh_session-rotates crypto config s fresh now db (ok_here s found)))
            (rotate_session-gone s h (crypto.hash_refresh_token fresh)
              (now + days config.refresh_ttl_days) now db one differs found))
      where
        ok_here :
            (s : UserSession)
            → get_session_by_hash h db ≡ some s
            → is_ok ((refresh_session crypto config s fresh now db).0) ≡ true
        ok_here s found =
            subst (λ (r : Response TokenResponse × AuthDb). is_ok r.0 ≡ true)
              (refresh-found crypto config body request fresh now db presented s token found) done
