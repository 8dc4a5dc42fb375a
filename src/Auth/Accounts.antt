-- ===== src/Auth/Accounts.antt =====
-- The accounts over any sequence of the administration routes that write them.
use gov_crawler.Base.{
  ℕ, ◌+◌, ◌≤◌, ◌≡◌, refl, Bool, true, false, not, Option, none, some, [], ◌∷◌, ◌++◌, arith,
  if◌then◌else◌, is_some,
}
use gov_crawler.Base.Table
use gov_crawler.Base.Table.{count-append}
use gov_crawler.Base.Http.{Response, ok, http_error}
use gov_crawler.Base.Text.{Text, codes, text_eq, any, is_empty, lower, strip}
use gov_crawler.Auth.{Role, User, AuthDb, is_user, write_audit}
use gov_crawler.Auth.Users
use gov_crawler.Auth.Users.{
  role_id_of, get_user_by_id, get_user_by_email, update_user, with_role, with_password,
  set_user_role, set_password, has_name, count_active_admins, is_active_admin,
}
use gov_crawler.Auth.Sessions.{revoke_session_family}
use gov_crawler.Auth.Guard.{CurrentUser}
use gov_crawler.Auth.Routes.{audit}
use gov_crawler.Auth.Admin.{
  guard_last_admin, then_step, patch_active, patch_role, patch_user, reset_password, create_user,
}
use gov_crawler.Auth.LastAdmin.{
  ValidUsers, either, with_option, update_user-keeps, patch_active-ValidUsers,
}

set_user_role-ValidUsers :
    (i : ℕ) (role : Option Text) (db : AuthDb)
    → ValidUsers db
    → ValidUsers ((set_user_role i role db).1)
unfolding set_user_role
set_user_role-ValidUsers i role db valid =
    with_option ValidUsers (get_user_by_id i db) (false, db) (λ (u : User). named role) valid
      (λ (u : User). go role)
  where
    found : Option Role → Bool × AuthDb
    found o = elim o [
      | none ↦ (false, db)
      | some r ↦ (true, update_user i (with_role (some r.id)) db)
    ]

    named : Option Text → Bool × AuthDb
    named o = elim o [
      | none ↦ (true, update_user i (with_role none) db)
      | some n ↦
          if is_empty n
          then (true, update_user i (with_role none) db)
          else found (Table.first (has_name n) db.roles)
    ]

    same_role : (r : Option ℕ) → ValidUsers (update_user i (with_role r) db)
    same_role r =
        update_user-keeps i (with_role r) db (λ (a : User). refl) (λ (a : User) h. h) valid

    go : (o : Option Text) → ValidUsers ((named o).1)
    go none = same_role none
    go (some n) =
        either ValidUsers (is_empty n) (true, update_user i (with_role none) db)
          (found (Table.first (has_name n) db.roles)) (same_role none)
          (with_option ValidUsers (Table.first (has_name n) db.roles) (false, db)
            (λ (r : Role). (true, update_user i (with_role (some r.id)) db)) valid
            (λ (r : Role). same_role (some r.id)))

patch_role-ValidUsers :
    (i : ℕ) (role : Option Text) (user : CurrentUser) (ip : Option Text) (now : ℕ) (db : AuthDb)
    → ValidUsers db
    → ValidUsers ((patch_role i role user ip now db).1)
unfolding patch_role write_audit ValidUsers count_active_admins
patch_role-ValidUsers i none user ip now db valid = valid
patch_role-ValidUsers i (some role) user ip now db valid =
    either ValidUsers (not done.0) (http_error 404 (codes "User or role not found"), done.1)
      (ok tt, audit user.id (codes "user.set_role") (codes "user") i ip now done.1) kept kept
  where
    done : Bool × AuthDb
    done = set_user_role i (some role) db

    kept : ValidUsers done.1
    kept = set_user_role-ValidUsers i (some role) db valid

then_step-ValidUsers :
    (r : Response {0} Unit × AuthDb) (next : AuthDb → Response {0} Unit × AuthDb)
    → ValidUsers r.1
    → ((db : AuthDb) → ValidUsers db → ValidUsers ((next db).1))
    → ValidUsers ((then_step r next).1)
then_step-ValidUsers (http_error status detail, db) next valid keeps = valid
then_step-ValidUsers (ok _, db) next valid keeps = keeps db valid

patch_user-ValidUsers :
    (i : ℕ) (active : Option Bool) (role : Option Text) (user : CurrentUser) (ip : Option Text)
    (now : ℕ)
    → (db : AuthDb) → ValidUsers db
    → ValidUsers ((patch_user i active role user ip now db).1)
unfolding patch_user
patch_user-ValidUsers i active role user ip now db valid =
    guarded (guard_last_admin i active db) refl
  where
    guarded :
        (g : Response {0} Unit)
        → guard_last_admin i active db ≡ g
        → ValidUsers (
            (then_step
              (g, db)
              (λ (db' : AuthDb).
                then_step
                  (patch_active i active user ip now db')
                  (λ (db'' : AuthDb). patch_role i role user ip now db''))).1)
    guarded (http_error status detail) e = valid
    guarded (ok tt) e =
        then_step-ValidUsers (patch_active i active user ip now db)
          (λ (db'' : AuthDb). patch_role i role user ip now db'')
          (patch_active-ValidUsers i active user ip now db e valid)
          (λ (d : AuthDb) v. patch_role-ValidUsers i role user ip now d v)

reset_password-ValidUsers :
    (i : ℕ) (hash : Text) (user : CurrentUser) (ip : Option Text) (now : ℕ) (db : AuthDb)
    → ValidUsers db
    → ValidUsers ((reset_password i hash user ip now db).1)
unfolding reset_password set_password write_audit revoke_session_family ValidUsers
    count_active_admins
reset_password-ValidUsers i hash user ip now db valid =
    either ValidUsers (not done.0) (http_error 404 (codes "User not found"), done.1)
      (ok tt, audit user.id (codes "user.reset_password") (codes "user") i ip now done.1) kept kept
  where
    done : Bool × AuthDb
    done = set_password i hash now db

    changed : ValidUsers (update_user i (with_password hash) db)
    changed =
        update_user-keeps i (with_password hash) db (λ (a : User). refl) (λ (a : User) h. h) valid

    kept : ValidUsers done.1
    kept =
        with_option ValidUsers (get_user_by_id i db) (false, db)
          (λ (u : User).
            (true, revoke_session_family i now (update_user i (with_password hash) db)))
          valid (λ (u : User). changed)

-- A new account has the next id.
appended-ValidUsers :
    (u : User) (db : AuthDb)
    → u.id ≡ db.next_user_id
    → ValidUsers db
    → ValidUsers (record db { users = db.users ++ u ∷ []; next_user_id = db.next_user_id + 1 })
unfolding ValidUsers count_active_admins Table.count
appended-ValidUsers u db next (unique, below, left) = (
  λ (i : ℕ).
      rw (count-append (is_user i) db.users (u ∷ [])) (ground (arith, unique i, below i, next)),
  λ (i : ℕ) (h : db.next_user_id + 1 ≤ i).
      rw (count-append (is_user i) db.users (u ∷ [])) (ground (arith, below i, next, h)),
  rw (count-append is_active_admin db.users (u ∷ [])) (omega (arith, left)),
)

create-ValidUsers :
    (email hash : Text) (full_name : Option Text) (is_admin : Bool) (role : Option Text)
    (db : AuthDb)
    → ValidUsers db
    → ValidUsers ((Users.create_user email hash full_name is_admin role db).1)
unfolding Users.create_user
create-ValidUsers email hash full_name is_admin role db valid =
    either ValidUsers (any (λ (u : User). text_eq u.email (lower (strip email))) db.users)
      (none, db)
      (
        some db.next_user_id,
        record db { users = db.users ++ user ∷ []; next_user_id = db.next_user_id + 1 },
      )
      valid (appended-ValidUsers user db refl valid)
  where
    user : User
    user = record {
      id = db.next_user_id;
      email = lower (strip email);
      password_hash = hash;
      full_name = full_name;
      is_active = true;
      is_admin = is_admin;
      role_id = role_id_of role db.roles;
      token_version = 0;
      failed_logins = 0;
      locked_until = none;
      last_login_at = none;
    }

create_user-ValidUsers :
    (email hash : Text) (full_name role : Option Text) (is_admin : Bool) (user : CurrentUser)
    → (ip : Option Text) (now : ℕ) (db : AuthDb) → ValidUsers db
    → ValidUsers ((create_user email hash full_name role is_admin user ip now db).1)
unfolding create_user write_audit ValidUsers count_active_admins
create_user-ValidUsers email hash full_name role is_admin user ip now db valid =
    either ValidUsers (is_some (get_user_by_email email db))
      (http_error 409 (codes "A user with this email already exists"), db) (logged made) valid
      (logged-valid made made-valid)
  where
    made : Option ℕ × AuthDb
    made = Users.create_user email hash full_name is_admin role db

    logged : Option ℕ × AuthDb → Response ℕ × AuthDb
    logged m = elim m.0 [
      | none ↦ (http_error 500 (codes "Internal Server Error"), db)
      | some id ↦ (ok id, audit user.id (codes "user.create") (codes "user") id ip now m.1)
    ]

    logged-valid : (m : Option ℕ × AuthDb) → ValidUsers m.1 → ValidUsers ((logged m).1)
    logged-valid m v =
        with_option ValidUsers m.0 (http_error 500 (codes "Internal Server Error"), db)
          (λ (id : ℕ). (ok id, audit user.id (codes "user.create") (codes "user") id ip now m.1))
          valid (λ (id : ℕ). v)

    made-valid : ValidUsers made.1
    made-valid = create-ValidUsers email hash full_name is_admin role db valid

-- A request to one of the administration routes that write accounts.
pub data AccountStep : AuthDb → AuthDb → Type 0 where
  creates :
      (email hash : Text) (full_name role : Option Text) (is_admin : Bool) (user : CurrentUser)
      → (ip : Option Text) (now : ℕ) (db : AuthDb)
      → AccountStep db ((create_user email hash full_name role is_admin user ip now db).1)
  patches :
      (i : ℕ) (active : Option Bool) (role : Option Text) (user : CurrentUser) (ip : Option Text)
      (now : ℕ)
      → (db : AuthDb) → AccountStep db ((patch_user i active role user ip now db).1)
  resets :
      (i : ℕ) (hash : Text) (user : CurrentUser) (ip : Option Text) (now : ℕ) (db : AuthDb)
      → AccountStep db ((reset_password i hash user ip now db).1)

pub data AccountSteps : AuthDb → AuthDb → Type 0 where
  done : (db : AuthDb) → AccountSteps db db
  step : {db db' db'' : AuthDb} → AccountStep db db' → AccountSteps db' db'' → AccountSteps db db''

AccountStep-ValidUsers : {db db' : AuthDb} → AccountStep db db' → ValidUsers db → ValidUsers db'
AccountStep-ValidUsers (creates email hash full_name role is_admin user ip now db) valid =
    create_user-ValidUsers email hash full_name role is_admin user ip now db valid
AccountStep-ValidUsers (patches i active role user ip now db) valid =
    patch_user-ValidUsers i active role user ip now db valid
AccountStep-ValidUsers (resets i hash user ip now db) valid =
    reset_password-ValidUsers i hash user ip now db valid

-- However accounts are created, changed and given new passwords through the administration routes, if
-- there was an active administrator and ids were unique at first, then there is one at the end, and
-- ids are still unique.
pub AccountSteps-ValidUsers :
    {db db' : AuthDb} → AccountSteps db db' → ValidUsers db → ValidUsers db'
AccountSteps-ValidUsers (done db) valid = valid
AccountSteps-ValidUsers (step s rest) valid =
    AccountSteps-ValidUsers rest (AccountStep-ValidUsers s valid)
