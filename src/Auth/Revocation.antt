-- ===== src/Auth/Revocation.antt =====
-- What a new password and a deactivation make of the access tokens that were issued before.
use gov_crawler.Base.{
  ℕ, ◌+◌, ◌≡◌, refl, sym, ap, ◌∙◌, Bool, true, false, not, Option, none, some, [], ◌∷◌, arith, ◌==◌,
  if◌then◌else◌,
}
use gov_crawler.Base.Table
use gov_crawler.Base.Table.{first-update, first-eq-some}
use gov_crawler.Base.Http.{Response, ok, http_error, error_ne_ok, guard_passed}
use gov_crawler.Base.Text.{Text, codes, is_empty}
use gov_crawler.Auth.{User, AuthDb, is_user}
use gov_crawler.Auth.Users.{
  get_user_by_id, update_user, with_password, set_password, with_active, set_user_active,
}
use gov_crawler.Auth.Sessions.{revoke_session_family}
use gov_crawler.Auth.Effective.{resolve_effective_permissions}
use gov_crawler.Auth.Guard.{
  Crypto, AuthConfig, Request, CurrentUser, Payload, extract_token, decode_token_with_rotation,
  tv_matches, is_access, check_account, authenticate, get_current_user, unauthorized,
}

-- The account after a change of the row with its id.
get_user-update_user :
    (i : ℕ) (f : User → User) (db : AuthDb) (u : User)
    → ((a : User) → (f a).id ≡ a.id)
    → get_user_by_id i db ≡ some u
    → get_user_by_id i (update_user i f db) ≡ some (f u)
unfolding get_user_by_id update_user
get_user-update_user i f db u same found =
    rw
      (
        first-update (is_user i) (is_user i) f (λ (a : User). ap (λ (n : ℕ). n == i) (same a))
            db.users,
        found,
        first-eq-some (is_user i) u db.users found,
      )
      refl

get_user-revoke_session_family :
    (i j t : ℕ) (db : AuthDb)
    → get_user_by_id i (revoke_session_family j t db) ≡ get_user_by_id i db
unfolding get_user_by_id revoke_session_family
get_user-revoke_session_family i j t db = refl

-- What the acceptance of a payload says of its account.
abbrev Accepted : Payload → CurrentUser → AuthDb → Type 0
Accepted p me db =
    (u : User) × (get_user_by_id p.sub db ≡ some u)
    × (u.is_active ≡ true)
    × (tv_matches p.tv u.token_version ≡ true)
    × (me.id ≡ p.sub)
    × (is_access p.type ≡ true)

id_of : Response CurrentUser → ℕ
id_of (ok m) = m.id
id_of (http_error status detail) = 0

-- The lookup by id is a selection of the table.
found :
    (i : ℕ) (u : User) (db : AuthDb)
    → get_user_by_id i db ≡ some u
    → Table.first (is_user i) db.users ≡ some u
unfolding get_user_by_id
found i u db e = e

authenticate-Accepted :
    (p : Payload) (me : CurrentUser) (db : AuthDb) → authenticate p db ≡ ok me → Accepted p me db
unfolding authenticate id_of
authenticate-Accepted p me db h = account (get_user_by_id p.sub db) refl (
    (guard_passed (not (is_access p.type)) 401 (codes "Invalid token type")
      (check_account p (get_user_by_id p.sub db) db) me h).1)
  where
    typed : not (is_access p.type) ≡ false
    typed =
        (guard_passed (not (is_access p.type)) 401 (codes "Invalid token type")
          (check_account p (get_user_by_id p.sub db) db) me h).0

    account :
        (o : Option User)
        → get_user_by_id p.sub db ≡ o
        → check_account p o db ≡ ok me
        → Accepted p me db
    account none e h' = absurd (error_ne_ok 401 (codes "User not found or inactive") me h')
    account (some u) e h' = (u, e, bool_of active.0, bool_of version.0, id_of_me, bool_of typed)
      where
        inner : Response CurrentUser
        inner = ok (record {
          id = u.id;
          email = u.email;
          is_admin = u.is_admin;
          permissions = resolve_effective_permissions u.id db;
        })

        active :
            (not u.is_active ≡ false)
            × ((if not (tv_matches p.tv u.token_version)
                  then unauthorized (codes "Token has been revoked")
                  else inner)
                ≡ ok me)
        active =
            guard_passed (not u.is_active) 401 (codes "User not found or inactive")
              (if not (tv_matches p.tv u.token_version)
                then unauthorized (codes "Token has been revoked")
                else inner)
              me h'

        version : (not (tv_matches p.tv u.token_version) ≡ false) × (inner ≡ ok me)
        version =
            guard_passed (not (tv_matches p.tv u.token_version)) 401
              (codes "Token has been revoked") inner me active.1

        bool_of : {b : Bool} → not b ≡ false → b ≡ true
        bool_of k = ground arith

        named : u.id == p.sub ≡ true
        named = first-eq-some (is_user p.sub) u db.users (found p.sub u db e)

        id_of_me : me.id ≡ p.sub
        id_of_me = sym (ap id_of version.1) ∙ (ground (arith, named))

set_password-eq :
    (i : ℕ) (hash : Text) (t : ℕ) (db : AuthDb) (u : User)
    → get_user_by_id i db ≡ some u
    → get_user_by_id i ((set_password i hash t db).1) ≡ some (with_password hash u)
unfolding set_password get_user_by_id
set_password-eq i hash t db u e =
    rw (e, set_password)
      (get_user-revoke_session_family i i t (update_user i (with_password hash) db)
        ∙ get_user-update_user i (with_password hash) db u (λ (a : User). refl) e)

set_user_active-eq :
    (i t : ℕ) (db : AuthDb) (u : User)
    → get_user_by_id i db ≡ some u
    → get_user_by_id i ((set_user_active i false t db).1) ≡ some (with_active false u)
unfolding set_user_active get_user_by_id
set_user_active-eq i t db u e =
    rw (e, set_user_active)
      (get_user-revoke_session_family i i t (update_user i (with_active false) db)
        ∙ get_user-update_user i (with_active false) db u (λ (a : User). refl) e)

next_version : (tv : Option ℕ) (v : ℕ) → tv_matches tv v ≡ true → tv_matches tv (v + 1) ≡ false
next_version none v h = refl
next_version (some tv) v h = ground arith

-- A payload that was accepted, after a new password of its account and after its deactivation.
authenticate-revoked :
    (p : Payload) (me : CurrentUser) (hash : Text) (t : ℕ) (db : AuthDb)
    → authenticate p db ≡ ok me
    → (authenticate p ((set_password me.id hash t db).1)
        ≡ unauthorized (codes "Token has been revoked"))
      × (authenticate p ((set_user_active me.id false t db).1)
          ≡ unauthorized (codes "User not found or inactive"))
unfolding authenticate
authenticate-revoked p me hash t db h = go (authenticate-Accepted p me db h)
  where
    go :
        Accepted p me db
        → (authenticate p ((set_password me.id hash t db).1)
            ≡ unauthorized (codes "Token has been revoked"))
          × (authenticate p ((set_user_active me.id false t db).1)
              ≡ unauthorized (codes "User not found or inactive"))
    go (u, e, active, version, same, type) = rw same (
      rw
          (
            type,
            set_password-eq p.sub hash t db u e,
            active,
            next_version p.tv u.token_version version,
            authenticate,
          )
          refl,
      rw (type, set_user_active-eq p.sub t db u e, authenticate) refl,
    )

-- A request that was accepted as some account's is refused once that account has a new password, and
-- once it is deactivated.
pub get_current_user-revoked :
    (crypto : Crypto) (config : AuthConfig) (request : Request) (now : ℕ)
    → (me : CurrentUser) (hash : Text) (t : ℕ) (db : AuthDb)
    → get_current_user crypto config request now db ≡ ok me
    → (get_current_user crypto config request now ((set_password me.id hash t db).1)
        ≡ unauthorized (codes "Token has been revoked"))
      × (get_current_user crypto config request now ((set_user_active me.id false t db).1)
          ≡ unauthorized (codes "User not found or inactive"))
unfolding get_current_user
get_current_user-revoked crypto config request now me hash t db = token (extract_token request)
  where
    checked : Option Payload → AuthDb → Response CurrentUser
    checked o d = elim o [
      | none ↦ unauthorized (codes "Invalid or expired token")
      | some payload ↦ authenticate payload d
    ]

    Refused : (AuthDb → Response CurrentUser) → Type 0
    Refused r =
        r db ≡ ok me
        → (r ((set_password me.id hash t db).1) ≡ unauthorized (codes "Token has been revoked"))
          × (r ((set_user_active me.id false t db).1)
              ≡ unauthorized (codes "User not found or inactive"))

    payload : (o : Option Payload) → Refused (checked o)
    payload none h = absurd (error_ne_ok 401 (codes "Invalid or expired token") me h)
    payload (some p) h = authenticate-revoked p me hash t db h

    token :
        (o : Option Text)
        → Refused (λ (d : AuthDb). elim o [
          | none ↦ unauthorized (codes "Not authenticated")
          | some s ↦
              if is_empty s
              then unauthorized (codes "Not authenticated")
              else checked (decode_token_with_rotation crypto config s now) d
        ])
    token none h = absurd (error_ne_ok 401 (codes "Not authenticated") me h)
    token (some []) h = absurd (error_ne_ok 401 (codes "Not authenticated") me h)
    token (some (c ∷ s)) h = payload (decode_token_with_rotation crypto config (c ∷ s) now) h
