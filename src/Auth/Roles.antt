-- ===== src/Auth/Roles.antt =====
-- cloud/db/mixins/auth_mixin.py: the seeding of the catalogue, roles and their bundles.
use gov_crawler.Base.{
  ℕ, ◌+◌, Bool, true, false, ◌||◌, Option, none, some, List, [], ◌∷◌, ◌++◌, map, ltb, ◌==◌,
  if◌then◌else◌,
}
use gov_crawler.Base.Table
use gov_crawler.Base.Text.{Text, text_eq, text_in, any}
use gov_crawler.Auth.{Role, Permission, User, RolePermission, AuthDb, is_role}
use gov_crawler.Auth.Users.{has_name}

abbrev pub grant_to : ℕ → Text → RolePermission
grant_to role_id key = record { role_id = role_id; permission_key = key }

-- `query(RolePermission.permission_key).filter_by(role_id=...)`
unfoldable pub role_keys : ℕ → List RolePermission → List Text
role_keys role_id rows =
    map (λ (r : RolePermission). r.permission_key)
      (Table.select (λ (r : RolePermission). r.role_id == role_id) rows)

-- The first loop of `seed_rbac`; the keys of the catalogue are those of a dictionary.
unfoldable pub seed_permissions : List Permission → List Permission → List Permission
seed_permissions [] table = table
seed_permissions (p ∷ catalog) table =
    seed_permissions catalog
      (if any (λ (q : Permission). text_eq q.key p.key) table then table else table ++ p ∷ [])

-- The inner loop of the second: the keys that the role lacks.
unfoldable pub seed_role_keys :
    ℕ → List Text → List Text → List RolePermission → List RolePermission
seed_role_keys role_id existing [] table = table
seed_role_keys role_id existing (k ∷ keys) table =
    seed_role_keys role_id existing keys
      (if text_in k existing then table else table ++ grant_to role_id k ∷ [])

abbrev seeded_role : ℕ → Text → Role
seeded_role i name = record { id = i; name = name; description = none; is_system = true }

-- One round of the second loop: the role of this name, added where the names read before the loop
-- have none, then its keys.
unfoldable pub seed_role : List Role → Text → List Text → AuthDb → AuthDb
seed_role existing_roles role_name perm_keys db =
    elim (Table.first (has_name role_name) existing_roles) [
      | some role ↦ record db {
        role_permissions =
            seed_role_keys role.id (role_keys role.id db.role_permissions) perm_keys
              db.role_permissions;
      }
      | none ↦ record db {
        roles = db.roles ++ seeded_role db.next_role_id role_name ∷ [];
        next_role_id = db.next_role_id + 1;
        role_permissions =
            seed_role_keys db.next_role_id (role_keys db.next_role_id db.role_permissions) perm_keys
              db.role_permissions;
      }
    ]

unfoldable pub seed_roles : List Role → List (Text × List Text) → AuthDb → AuthDb
seed_roles existing_roles [] db = db
seed_roles existing_roles ((name, keys) ∷ defaults) db =
    seed_roles existing_roles defaults (seed_role existing_roles name keys db)

-- `seed_rbac` of a catalogue and of role defaults.
unfoldable pub seed_rbac : List Permission → List (Text × List Text) → AuthDb → AuthDb
seed_rbac catalog defaults db =
    let seeded = record db { permissions = seed_permissions catalog db.permissions } in
    seed_roles seeded.roles defaults seeded

-- An id of 0 is falsy.
unfoldable pub get_role_name : Option ℕ → AuthDb → Option Text
get_role_name none db = none
get_role_name (some i) db =
    if i == 0
    then none
    else elim (Table.first (is_role i) db.roles) [ none ↦ none | some r ↦ some r.name ]

-- The role and its keys; the source sorts the keys.
unfoldable pub get_role : ℕ → AuthDb → Option (Role × List Text)
get_role role_id db = elim (Table.first (is_role role_id) db.roles) [
  | none ↦ none
  | some role ↦ some (role, role_keys role_id db.role_permissions)
]

unfoldable pub list_roles : AuthDb → List (Role × List Text)
list_roles db = map (λ (r : Role). (r, role_keys r.id db.role_permissions)) db.roles

unfoldable pub has_duplicate : List Text → Bool
has_duplicate [] = false
has_duplicate (k ∷ keys) = text_in k keys || has_duplicate keys

-- None for an IntegrityError: the name is unique, and so is a key within a role.
unfoldable pub create_role : Text → Option Text → List Text → AuthDb → Option ℕ × AuthDb
create_role name description permission_keys db =
    let role : Role = record {
      id = db.next_role_id;
      name = name;
      description = description;
      is_system = false;
    } in
    if any (has_name name) db.roles || has_duplicate permission_keys then (none, db) else (
      some db.next_role_id,
      record db {
        roles = db.roles ++ role ∷ [];
        next_role_id = db.next_role_id + 1;
        role_permissions = db.role_permissions ++ map (grant_to db.next_role_id) permission_keys;
      },
    )

-- What an edit of a role ends with: True, False, a ValueError, or the IntegrityError of a key that is
-- given twice.
pub data RoleEdit : Type 0 where
  edited : RoleEdit
  no_role : RoleEdit
  system_role : RoleEdit
  in_use : RoleEdit
  duplicate_key : RoleEdit

abbrev pub described : Option Text → Role → Role
described none r = r
described (some d) r = record r { description = some d }

abbrev pub of_role : ℕ → RolePermission → Bool
of_role i r = r.role_id == i

-- The rows of a role replaced, where keys are given.
abbrev pub replace_keys : ℕ → Option (List Text) → List RolePermission → List RolePermission
replace_keys role_id none rows = rows
replace_keys role_id (some keys) rows =
    Table.delete (of_role role_id) rows ++ map (grant_to role_id) keys

abbrev repeats : Option (List Text) → Bool
repeats none = false
repeats (some keys) = has_duplicate keys

unfoldable pub update_role : ℕ → Option Text → Option (List Text) → AuthDb → RoleEdit × AuthDb
update_role role_id description permission_keys db = elim (Table.first (is_role role_id) db.roles) [
  | none ↦ (no_role, db)
  | some role ↦
      if role.is_system
      then (system_role, db)
      else if repeats permission_keys
      then (duplicate_key, db)
      else (
        edited,
        record db {
          roles = Table.update (is_role role_id) (described description) db.roles;
          role_permissions = replace_keys role_id permission_keys db.role_permissions;
        },
      )
]

abbrev pub holds_role : ℕ → User → Bool
holds_role i u = elim u.role_id [ none ↦ false | some r ↦ r == i ]

unfoldable pub role_in_use : ℕ → AuthDb → Bool
role_in_use role_id db = ltb 0 (Table.count (holds_role role_id) db.users)

unfoldable pub delete_role : ℕ → AuthDb → RoleEdit × AuthDb
unfolding role_in_use
delete_role role_id db = elim (Table.first (is_role role_id) db.roles) [
  | none ↦ (no_role, db)
  | some role ↦
      if role.is_system
      then (system_role, db)
      else if role_in_use role_id db
      then (in_use, db)
      else (
        edited,
        record db {
          roles = Table.delete (is_role role_id) db.roles;
          role_permissions = Table.delete (of_role role_id) db.role_permissions;
        },
      )
]
