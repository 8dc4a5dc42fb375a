-- ===== src/Auth/Admin.antt =====
-- cloud/api/admin.py and cloud/api/roles.py: the routes that edit accounts, overrides and roles. The
-- dependency that checks the caller's permission has run, and its user is an argument. `now` is the
-- clock and `ip` the caller's address.
use gov_crawler.Base.{
  ℕ, Bool, true, false, not, ◌&&◌, ◌||◌, Option, none, some, List, ◌++◌, leb, if◌then◌else◌,
  is_some,
}
use gov_crawler.Base.Http.{Response, ok, http_error}
use gov_crawler.Base.Text.{Text, codes, text_eq, text_in, all}
use gov_crawler.Auth.{User, AuthDb}
use gov_crawler.Auth.Permissions.{permission_keys}
use gov_crawler.Auth.Users.{
  get_user_by_email, get_user_by_id, set_password, set_user_active, count_active_admins,
  set_user_role, is_active_admin,
}
use gov_crawler.Auth.Users
use gov_crawler.Auth.Roles
use gov_crawler.Auth.Roles.{RoleEdit, edited, no_role, system_role, in_use, duplicate_key, get_role}
use gov_crawler.Auth.Effective.{set_user_permission_override, grant_effect, deny_effect}
use gov_crawler.Auth.Guard.{CurrentUser}
use gov_crawler.Auth.Routes.{audit}

abbrev user_text : Text
user_text = codes "user"

abbrev role_text : Text
role_text = codes "role"

unfoldable pub create_user :
    Text
    → Text
    → Option Text
    → Option Text
    → Bool
    → CurrentUser
    → Option Text
    → ℕ
    → AuthDb
    → Response ℕ × AuthDb
create_user email password_hash full_name role is_admin user ip now db =
    let made = Users.create_user email password_hash full_name is_admin role db in
    if is_some (get_user_by_email email db)
    then (http_error 409 (codes "A user with this email already exists"), db)
    else elim made.0 [
      | none ↦ (http_error 500 (codes "Internal Server Error"), db)
      | some id ↦ (ok id, audit user.id (codes "user.create") user_text id ip now made.1)
    ]

abbrev pub check_last_admin : Option User → AuthDb → Response {0} Unit
check_last_admin none db = http_error 404 (codes "User not found")
check_last_admin (some target) db =
    if is_active_admin target && leb (count_active_admins db) 1
    then http_error 409 (codes "Cannot deactivate the last remaining admin account")
    else ok tt

-- The guard of `patch_user`: the last active administrator stays active.
unfoldable pub guard_last_admin : ℕ → Option Bool → AuthDb → Response {0} Unit
guard_last_admin user_id none db = ok tt
guard_last_admin user_id (some true) db = ok tt
guard_last_admin user_id (some false) db = check_last_admin (get_user_by_id user_id db) db

unfoldable pub patch_active :
    ℕ → Option Bool → CurrentUser → Option Text → ℕ → AuthDb → Response {0} Unit × AuthDb
patch_active user_id none user ip now db = (ok tt, db)
patch_active user_id (some is_active) user ip now db =
    let done = set_user_active user_id is_active now db in
    if not done.0
    then (http_error 404 (codes "User not found"), done.1)
    else (ok tt, audit user.id (codes "user.set_active") user_text user_id ip now done.1)

unfoldable pub patch_role :
    ℕ → Option Text → CurrentUser → Option Text → ℕ → AuthDb → Response {0} Unit × AuthDb
patch_role user_id none user ip now db = (ok tt, db)
patch_role user_id (some role) user ip now db =
    let done = set_user_role user_id (some role) db in
    if not done.0
    then (http_error 404 (codes "User or role not found"), done.1)
    else (ok tt, audit user.id (codes "user.set_role") user_text user_id ip now done.1)

-- One step after another that did not raise.
abbrev pub then_step :
    Response {0} Unit × AuthDb → (AuthDb → Response {0} Unit × AuthDb) → Response {0} Unit × AuthDb
then_step (http_error status detail, db) next = (http_error status detail, db)
then_step (ok _, db) next = next db

unfoldable pub patch_user :
    ℕ
    → Option Bool
    → Option Text
    → CurrentUser
    → Option Text
    → ℕ
    → AuthDb
    → Response {0} Unit × AuthDb
patch_user user_id is_active role user ip now db =
    then_step (guard_last_admin user_id is_active db, db)
      (λ (db' : AuthDb).
        then_step (patch_active user_id is_active user ip now db')
          (λ (db'' : AuthDb). patch_role user_id role user ip now db''))

unfoldable pub reset_password :
    ℕ → Text → CurrentUser → Option Text → ℕ → AuthDb → Response {0} Unit × AuthDb
reset_password user_id password_hash user ip now db =
    let done = set_password user_id password_hash now db in
    if not done.0
    then (http_error 404 (codes "User not found"), done.1)
    else (ok tt, audit user.id (codes "user.reset_password") user_text user_id ip now done.1)

abbrev known_effect : Option Text → Bool
known_effect none = true
known_effect (some e) = text_eq e grant_effect || text_eq e deny_effect

unfoldable pub set_user_permission :
    ℕ → Text → Option Text → CurrentUser → Option Text → ℕ → AuthDb → Response {0} Unit × AuthDb
set_user_permission user_id permission_key effect user ip now db =
    let done = set_user_permission_override user_id permission_key effect db in
    if not (text_in permission_key permission_keys)
    then (http_error 404 (codes "Unknown permission: " ++ permission_key), db)
    else if not (known_effect effect)
    then (http_error 400 (codes "effect must be 'grant', 'deny', or null"), db)
    else if not done.0
    then (http_error 404 (codes "User not found"), done.1)
    else (
      ok tt,
      audit user.id (codes "user.permission_override_set") user_text user_id ip now done.1,
    )

-- `_validate_permission_keys`; the detail also names the unknown keys.
unfoldable pub validate_permission_keys : List Text → Response {0} Unit
validate_permission_keys keys =
    if all (λ (k : Text). text_in k permission_keys) keys
    then ok tt
    else http_error 400 (codes "Unknown permission key(s)")

abbrev name_taken : Text
name_taken = codes "A role with this name already exists"

-- An IntegrityError is reported as a taken name.
abbrev made_role :
    Text → Option ℕ × AuthDb → CurrentUser → Option Text → ℕ → AuthDb → Response ℕ × AuthDb
made_role action made user ip now db = elim made.0 [
  | none ↦ (http_error 409 name_taken, db)
  | some id ↦ (ok id, audit user.id action role_text id ip now made.1)
]

unfoldable pub create_role :
    Text → Option Text → List Text → CurrentUser → Option Text → ℕ → AuthDb → Response ℕ × AuthDb
create_role name description permissions user ip now db =
    elim (validate_permission_keys permissions) [
      | http_error status detail ↦ (http_error status detail, db)
      | ok _ ↦
          made_role (codes "role.create") (Roles.create_role name description permissions db) user
            ip now db
    ]

abbrev validate_given : Option (List Text) → Response {0} Unit
validate_given none = ok tt
validate_given (some keys) = validate_permission_keys keys

-- A key given twice is an IntegrityError that this route does not catch.
abbrev edit_response :
    Text
    → Text
    → RoleEdit × AuthDb
    → ℕ
    → CurrentUser
    → Option Text
    → ℕ
    → AuthDb
    → Response {0} Unit × AuthDb
edit_response action refused done role_id user ip now db = elim done.0 [
  | edited ↦ (ok tt, audit user.id action role_text role_id ip now done.1)
  | no_role ↦ (http_error 404 (codes "Role not found"), db)
  | system_role ↦ (http_error 403 refused, db)
  | in_use ↦ (http_error 409 (codes "Role is assigned to one or more users"), db)
  | duplicate_key ↦ (http_error 500 (codes "Internal Server Error"), db)
]

unfoldable pub update_role :
    ℕ
    → Option Text
    → Option (List Text)
    → CurrentUser
    → Option Text
    → ℕ
    → AuthDb
    → Response {0} Unit × AuthDb
update_role role_id description permissions user ip now db = elim (validate_given permissions) [
  | http_error status detail ↦ (http_error status detail, db)
  | ok _ ↦
      edit_response (codes "role.update") (codes "Built-in roles cannot be modified")
        (Roles.update_role role_id description permissions db) role_id user ip now db
]

unfoldable pub delete_role : ℕ → CurrentUser → Option Text → ℕ → AuthDb → Response {0} Unit × AuthDb
delete_role role_id user ip now db =
    edit_response (codes "role.delete") (codes "Built-in roles cannot be deleted")
      (Roles.delete_role role_id db) role_id user ip now db

unfoldable pub clone_role : ℕ → Text → CurrentUser → Option Text → ℕ → AuthDb → Response ℕ × AuthDb
clone_role role_id name user ip now db = elim (get_role role_id db) [
  | none ↦ (http_error 404 (codes "Role not found"), db)
  | some source ↦
      made_role (codes "role.clone") (Roles.create_role name source.0.description source.1 db) user
        ip now db
]
