-- ===== src/Auth/Users.antt =====
-- cloud/db/mixins/auth_mixin.py: accounts. `create_user` and `set_password` take the hash that
-- hash_password returned, since argon2 draws a fresh salt for every call.
use gov_crawler.Base.{
  ℕ, ◌+◌, ◌*◌, Bool, true, false, ◌&&◌, Option, none, some, List, [], ◌∷◌, ◌++◌, leb, if◌then◌else◌,
}
use gov_crawler.Base.Table
use gov_crawler.Base.Text.{Text, text_eq, any, is_empty, lower, strip}
use gov_crawler.Auth.{Role, User, AuthDb, is_user}
use gov_crawler.Auth.Sessions.{revoke_session_family}

abbrev pub has_name : Text → Role → Bool
has_name n r = text_eq r.name n

-- The role's id, none for an unknown name or for no name; an empty name is falsy.
abbrev pub role_id_of : Option Text → List Role → Option ℕ
role_id_of none roles = none
role_id_of (some n) roles =
    if is_empty n
    then none
    else elim (Table.first (has_name n) roles) [ none ↦ none | some r ↦ some r.id ]

-- None where the unique column email has the address: an IntegrityError.
unfoldable pub create_user :
    Text → Text → Option Text → Bool → Option Text → AuthDb → Option ℕ × AuthDb
create_user email password_hash full_name is_admin role_name db =
    let address = lower (strip email) in
    let user : User = record {
      id = db.next_user_id;
      email = address;
      password_hash = password_hash;
      full_name = full_name;
      is_active = true;
      is_admin = is_admin;
      role_id = role_id_of role_name db.roles;
      token_version = 0;
      failed_logins = 0;
      locked_until = none;
      last_login_at = none;
    } in
    if any (λ (u : User). text_eq u.email address) db.users then (none, db) else (
      some db.next_user_id,
      record db { users = db.users ++ user ∷ []; next_user_id = db.next_user_id + 1 },
    )

unfoldable pub get_user_by_email : Text → AuthDb → Option User
get_user_by_email email db =
    let address = lower (strip email) in
    Table.first (λ (u : User). text_eq u.email address) db.users

unfoldable pub get_user_by_id : ℕ → AuthDb → Option User
get_user_by_id user_id db = Table.first (is_user user_id) db.users

-- A change of the one row with this id.
unfoldable pub update_user : ℕ → (User → User) → AuthDb → AuthDb
update_user user_id f db = record db { users = Table.update (is_user user_id) f db.users }

abbrev pub with_password : Text → User → User
with_password password_hash u = record u {
  password_hash = password_hash;
  token_version = u.token_version + 1;
}

unfoldable pub set_password : ℕ → Text → ℕ → AuthDb → Bool × AuthDb
unfolding get_user_by_id
set_password user_id password_hash now db = elim (get_user_by_id user_id db) [
  | none ↦ (false, db)
  | some user ↦ (
    true,
    revoke_session_family user_id now (update_user user_id (with_password password_hash) db),
  )
]

abbrev pub with_active : Bool → User → User
with_active true u = record u { is_active = true }
with_active false u = record u { is_active = false; token_version = u.token_version + 1 }

unfoldable pub set_user_active : ℕ → Bool → ℕ → AuthDb → Bool × AuthDb
set_user_active user_id is_active now db = elim (get_user_by_id user_id db) [
  | none ↦ (false, db)
  | some user ↦
      let changed = update_user user_id (with_active is_active) db in
      (true, if is_active then changed else revoke_session_family user_id now changed)
]

abbrev pub is_active_admin : User → Bool
is_active_admin u = u.is_admin && u.is_active

unfoldable pub count_active_admins : AuthDb → ℕ
count_active_admins db = Table.count is_active_admin db.users

abbrev pub with_role : Option ℕ → User → User
with_role r u = record u { role_id = r }

unfoldable pub set_user_role : ℕ → Option Text → AuthDb → Bool × AuthDb
set_user_role user_id role_name db = elim (get_user_by_id user_id db) [
  | none ↦ (false, db)
  | some user ↦ elim role_name [
    | none ↦ (true, update_user user_id (with_role none) db)
    | some n ↦
        if is_empty n
        then (true, update_user user_id (with_role none) db)
        else elim (Table.first (has_name n) db.roles) [
          | none ↦ (false, db)
          | some r ↦ (true, update_user user_id (with_role (some r.id)) db)
        ]
  ]
]

abbrev pub logged_in : ℕ → User → User
logged_in now u = record u { failed_logins = 0; locked_until = none; last_login_at = some now }

unfoldable pub record_login_success : ℕ → ℕ → AuthDb → AuthDb
record_login_success user_id now db = update_user user_id (logged_in now) db

abbrev pub failed_once : ℕ → ℕ → ℕ → User → User
failed_once threshold lockout_minutes now u = record u {
  failed_logins = u.failed_logins + 1;
  locked_until =
      if leb threshold (u.failed_logins + 1)
      then some (now + lockout_minutes * 60)
      else u.locked_until;
}

unfoldable pub record_login_failure : ℕ → ℕ → ℕ → ℕ → AuthDb → AuthDb
record_login_failure user_id threshold lockout_minutes now db =
    update_user user_id (failed_once threshold lockout_minutes now) db
