-- ===== src/Auth.antt =====
-- cloud/db/tables/auth.py: accounts, roles, permissions, refresh sessions and the audit trail, with
-- the audit write of cloud/db/mixins/auth_mixin.py. Each method of the mixin is one transaction, so it
-- is one step; the clock is an argument, in seconds. Secrets and their hashes are texts, and the
-- hashing itself is a parameter of the routes. The columns created_by, created_at and updated_at of a
-- user, and the JSON detail of an audit row, are left out: no operation here reads them.
pub mod Permissions
pub mod Users
pub mod Sessions
pub mod Roles
pub mod Effective
pub mod Overrides
pub mod Resolution
pub mod Guard
pub mod Routes
pub mod SessionRoutes
pub mod Admin
pub mod Revocation
pub mod Refresh
pub mod Login
pub mod LastAdmin
pub mod Accounts
use gov_crawler.Base.{ℕ, ◌+◌, Bool, Option, none, some, List, [], ◌∷◌, ◌++◌, ◌==◌}
use gov_crawler.Base.Text.{Text}

pub record Role : Type 0 where
  pub id : ℕ
  pub name : Text
  pub description : Option Text
  pub is_system : Bool

pub record Permission : Type 0 where
  pub key : Text
  pub description : Text

pub record User : Type 0 where
  pub id : ℕ
  pub email : Text
  pub password_hash : Text
  pub full_name : Option Text
  pub is_active : Bool
  pub is_admin : Bool
  pub role_id : Option ℕ
  pub token_version : ℕ
  pub failed_logins : ℕ
  pub locked_until : Option ℕ
  pub last_login_at : Option ℕ

pub record RolePermission : Type 0 where
  pub role_id : ℕ
  pub permission_key : Text

-- `effect` is "grant" or "deny".
pub record UserPermission : Type 0 where
  pub user_id : ℕ
  pub permission_key : Text
  pub effect : Text

pub record UserSession : Type 0 where
  pub id : ℕ
  pub user_id : ℕ
  pub refresh_token_hash : Text
  pub user_agent : Option Text
  pub ip : Option Text
  pub created_at : ℕ
  pub last_used_at : Option ℕ
  pub expires_at : ℕ
  pub revoked_at : Option ℕ

pub record AuditLog : Type 0 where
  pub user_id : Option ℕ
  pub action : Text
  pub target_type : Option Text
  pub target_id : Option ℕ
  pub ip : Option Text
  pub created_at : ℕ

-- Tables, rows in the order of their ids, with the next value of each autoincrement key.
pub record AuthDb : Type 0 where
  pub roles : List Role
  pub next_role_id : ℕ
  pub permissions : List Permission
  pub role_permissions : List RolePermission
  pub users : List User
  pub next_user_id : ℕ
  pub user_permissions : List UserPermission
  pub sessions : List UserSession
  pub next_session_id : ℕ
  pub audit_log : List AuditLog

-- `filter_by(id=...)` on each table.
abbrev pub is_role : ℕ → Role → Bool
is_role i r = r.id == i

abbrev pub is_user : ℕ → User → Bool
is_user i u = u.id == i

abbrev pub is_session : ℕ → UserSession → Bool
is_session i s = s.id == i

unfoldable pub write_audit :
    Option ℕ → Text → Option Text → Option ℕ → Option Text → ℕ → AuthDb → AuthDb
write_audit user_id action target_type target_id ip now db =
    let row : AuditLog = record {
      user_id = user_id;
      action = action;
      target_type = target_type;
      target_id = target_id;
      ip = ip;
      created_at = now;
    } in
    record db { audit_log = db.audit_log ++ row ∷ [] }
