-- ===== src/Auth/Effective.antt =====
-- cloud/db/mixins/auth_mixin.py: the grant and deny overrides of one user, and the permissions that
-- result. A Python set is a list, of which only membership is read.
use gov_crawler.Base.{
  ℕ, Bool, true, false, ◌&&◌, Option, none, some, List, [], ◌∷◌, ◌++◌, ◌==◌, if◌then◌else◌,
}
use gov_crawler.Base.Table
use gov_crawler.Base.Text.{Text, codes, text_eq}
use gov_crawler.Auth.{UserPermission, AuthDb}
use gov_crawler.Auth.Permissions.{permission_keys}
use gov_crawler.Auth.Users.{get_user_by_id}
use gov_crawler.Auth.Roles.{role_keys}

abbrev pub grant_effect : Text
grant_effect = codes "grant"

abbrev pub deny_effect : Text
deny_effect = codes "deny"

abbrev pub add : Text → List Text → List Text
add k perms = k ∷ perms

unfoldable pub discard : Text → List Text → List Text
discard k perms = Table.delete (text_eq k) perms

abbrev pub apply_override : UserPermission → List Text → List Text
apply_override o perms =
    if text_eq o.effect grant_effect
    then add o.permission_key perms
    else if text_eq o.effect deny_effect
    then discard o.permission_key perms
    else perms

unfoldable pub apply_overrides : List UserPermission → List Text → List Text
apply_overrides [] perms = perms
apply_overrides (o ∷ overrides) perms = apply_overrides overrides (apply_override o perms)

abbrev pub of_user : ℕ → UserPermission → Bool
of_user i o = o.user_id == i

-- An id of 0 is falsy.
abbrev pub role_bundle : Option ℕ → AuthDb → List Text
role_bundle none db = []
role_bundle (some r) db = if r == 0 then [] else role_keys r db.role_permissions

unfoldable pub resolve_effective_permissions : ℕ → AuthDb → List Text
resolve_effective_permissions user_id db = elim (get_user_by_id user_id db) [
  | none ↦ []
  | some user ↦
      if user.is_admin
      then permission_keys
      else apply_overrides (Table.select (of_user user_id) db.user_permissions)
          (role_bundle user.role_id db)
]

abbrev pub is_override : ℕ → Text → UserPermission → Bool
is_override i k o = o.user_id == i && text_eq o.permission_key k

abbrev pub with_effect : Text → UserPermission → UserPermission
with_effect e o = record o { effect = e }

abbrev pub override_row : ℕ → Text → Text → UserPermission
override_row i k e = record { user_id = i; permission_key = k; effect = e }

-- The table after the override of a key is removed, changed or added. It writes to every row of
-- the user and the key; the source writes to the first, the only one where `uq_user_permission` holds
-- (`write_override` of Auth/Overrides/FirstRow).
unfoldable pub put_override : ℕ → Text → Option Text → List UserPermission → List UserPermission
put_override user_id key none rows = Table.delete (is_override user_id key) rows
put_override user_id key (some effect) rows = elim (Table.first (is_override user_id key) rows) [
  | some existing ↦ Table.update (is_override user_id key) (with_effect effect) rows
  | none ↦ rows ++ override_row user_id key effect ∷ []
]

unfoldable pub set_user_permission_override : ℕ → Text → Option Text → AuthDb → Bool × AuthDb
unfolding put_override
set_user_permission_override user_id permission_key effect db = elim (get_user_by_id user_id db) [
  | none ↦ (false, db)
  | some user ↦ (
    true,
    record db { user_permissions = put_override user_id permission_key effect db.user_permissions },
  )
]

unfoldable pub list_user_permission_overrides : ℕ → AuthDb → List UserPermission
list_user_permission_overrides user_id db = Table.select (of_user user_id) db.user_permissions
