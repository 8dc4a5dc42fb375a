-- ===== src/Auth/Resolution.antt =====
-- What the overrides make of the keys of a role: the result of `resolve_effective_permissions`, key by
-- key, and after an override is set.
use gov_crawler.Base.{
  ℕ, ◌≤◌, ◌≡◌, refl, ap, sym, ◌∙◌, Bool, true, false, not, ◌&&◌, Option, none, some, List, [], ◌∷◌,
  arith, if◌then◌else◌, Bool-cases, inl, inr, ==_refl,
}
use gov_crawler.Base.Table
use gov_crawler.Base.Table.{first-eq-none, first-eq-some}
use gov_crawler.Base.Selects.{first-select, count-select, first-none}
use gov_crawler.Base.Text.{text_eq_comm, Text, text_eq, text_in, any, text_eq→≡}
use gov_crawler.Auth.{User, UserPermission, AuthDb}
use gov_crawler.Auth.Users.{get_user_by_id}
use gov_crawler.Auth.Effective.{
  grant_effect, deny_effect, discard, apply_override, apply_overrides, of_user, role_bundle,
  resolve_effective_permissions, put_override, set_user_permission_override,
}
use gov_crawler.Auth.Overrides.{
  UniqueOverrides, effect_of, put_override-UniqueOverrides, override_of, put_override-override_of,
}

-- What an effect makes of a key that the role has or lacks.
unfoldable pub decided : Option Text → Bool → Bool
decided none base = base
decided (some e) base =
    if text_eq e grant_effect then true else if text_eq e deny_effect then false else base

eq_through : (k x a : Text) → text_eq x a ≡ true → text_eq k a ≡ text_eq k x
eq_through k x a h = ap (λ (t : Text). text_eq k t) (sym (text_eq→≡ x a h))

discard-in :
    (x k : Text) (ps : List Text) → text_in x (discard k ps) ≡ text_in x ps && not (text_eq k x)
unfolding text_in any discard Table.delete
discard-in x k [] = refl
discard-in x k (a ∷ ps) = ground (arith, eq_through k x a, discard-in x k ps)

abbrev has_key : Text → UserPermission → Bool
has_key x o = text_eq o.permission_key x

apply_override-in :
    (x : Text) (o : UserPermission) (ps : List Text)
    → text_in x (apply_override o ps)
      ≡ (if has_key x o then decided (some o.effect) (text_in x ps) else text_in x ps)
unfolding decided text_in any
apply_override-in x o ps = elim (Bool-cases (text_eq o.effect grant_effect)) [
  | inl g ↦ rw g (ground (arith, text_eq_comm x o.permission_key))
  | inr g ↦ elim (Bool-cases (text_eq o.effect deny_effect)) [
    | inl d ↦ rw (g, d) (ground (arith, discard-in x o.permission_key ps))
    | inr d ↦ rw (g, d) (ground arith)
  ]
]

first_effect : Text → List UserPermission → Option Text
first_effect x os = effect_of (Table.first (has_key x) os)

-- The effects of overrides with at most one for the key.
apply_overrides-in :
    (x : Text) (os : List UserPermission) (ps : List Text)
    → Table.count (has_key x) os ≤ 1
    → text_in x (apply_overrides os ps) ≡ decided (first_effect x os) (text_in x ps)
unfolding apply_overrides decided first_effect Table.first Table.count
apply_overrides-in x [] ps h = refl
apply_overrides-in x (o ∷ os) ps h = elim (Bool-cases (has_key x o)) [
  | inl hit ↦ rw hit (
      rest (rest_none hit) (apply_overrides-in x os (apply_override o ps) (ground (arith, h)))
      ∙ own hit)
  | inr miss ↦ rw miss (
      apply_overrides-in x os (apply_override o ps) (ground arith)
      ∙ ap (decided (first_effect x os)) (other miss))
]
  where
    none_left : has_key x o ≡ true → Table.count (has_key x) os ≤ 0
    none_left hit = ground (arith, h)

    rest_none : has_key x o ≡ true → first_effect x os ≡ none
    rest_none hit = ap effect_of (first-none (has_key x) os (none_left hit))

    rest :
        first_effect x os ≡ none
        → text_in x (apply_overrides os (apply_override o ps))
          ≡ decided (first_effect x os) (text_in x (apply_override o ps))
        → text_in x (apply_overrides os (apply_override o ps)) ≡ text_in x (apply_override o ps)
    rest e tail = tail ∙ ap (λ (f : Option Text). decided f (text_in x (apply_override o ps))) e

    own :
        has_key x o ≡ true
        → text_in x (apply_override o ps) ≡ decided (some o.effect) (text_in x ps)
    own hit = ground (arith, apply_override-in x o ps)

    other : has_key x o ≡ false → text_in x (apply_override o ps) ≡ text_in x ps
    other miss = ground (arith, apply_override-in x o ps)

unfoldable pub role_holds : ℕ → Text → AuthDb → Bool
unfolding text_in
role_holds i k db = elim (get_user_by_id i db) [
  | none ↦ false
  | some u ↦ text_in k (role_bundle u.role_id db)
]

-- For an account that is not an administrator's, a key is among the effective permissions exactly if
-- its override grants it, or it has no override that grants or denies it and the account's role has
-- it; where each user and key have at most one override.
pub resolve_effective_permissions-override_of :
    (i : ℕ) (k : Text) (u : User) (db : AuthDb)
    → UniqueOverrides db.user_permissions
    → get_user_by_id i db ≡ some u
    → u.is_admin ≡ false
    → text_in k (resolve_effective_permissions i db)
      ≡ decided (override_of i k db.user_permissions) (role_holds i k db)
unfolding resolve_effective_permissions role_holds override_of first_effect UniqueOverrides
resolve_effective_permissions-override_of i k u db unique found plain =
    rw (found, plain, resolve_effective_permissions, role_holds)
      (apply_overrides-in k (Table.select (of_user i) db.user_permissions)
          (role_bundle u.role_id db) at_most
        ∙ ap (λ (f : Option Text). decided f (text_in k (role_bundle u.role_id db))) the_effect)
  where
    at_most : Table.count (has_key k) (Table.select (of_user i) db.user_permissions) ≤ 1
    at_most = rw (count-select (of_user i) (has_key k) db.user_permissions) (unique i k)

    the_effect :
        first_effect k (Table.select (of_user i) db.user_permissions)
        ≡ override_of i k db.user_permissions
    the_effect = ap effect_of (first-select (of_user i) (has_key k) db.user_permissions)

abbrev with_overrides : List UserPermission → AuthDb → AuthDb
with_overrides rows db = record db { user_permissions = rows }

-- A role's keys do not depend on the overrides.
role_holds-with_overrides :
    (i : ℕ) (k : Text) (rows : List UserPermission) (db : AuthDb)
    → role_holds i k (with_overrides rows db) ≡ role_holds i k db
unfolding role_holds get_user_by_id
role_holds-with_overrides i k rows db = go (get_user_by_id i db)
  where
    bundle : (r : Option ℕ) → role_bundle r (with_overrides rows db) ≡ role_bundle r db
    bundle none = refl
    bundle (some r) = refl

    go :
        (o : Option User)
        → elim o [
          | none ↦ false
          | some u ↦ text_in k (role_bundle u.role_id (with_overrides rows db))
        ]
          ≡ elim o [ none ↦ false | some u ↦ text_in k (role_bundle u.role_id db) ]
    go none = refl
    go (some u) = ap (text_in k) (bundle u.role_id)

-- After an override of a key is set or cleared for an account that is not an administrator's, that key
-- is decided by the new effect, and every other key as before; where each user and key have at most
-- one override.
pub set_user_permission_override-resolve :
    (i : ℕ) (k l : Text) (e : Option Text) (u : User) (db : AuthDb)
    → UniqueOverrides db.user_permissions
    → get_user_by_id i db ≡ some u
    → u.is_admin ≡ false
    → text_in l (resolve_effective_permissions i ((set_user_permission_override i k e db).1)) ≡ (
        if text_eq l k
        then decided e (role_holds i k db)
        else text_in l (resolve_effective_permissions i db))
unfolding set_user_permission_override get_user_by_id
set_user_permission_override-resolve i k l e u db unique found plain =
    rw (found, set_user_permission_override)
      (resolve_effective_permissions-override_of i l u (with_overrides rows db) kept found plain
        ∙ rw
            (
              put_override-override_of i k e db.user_permissions i l,
              ==_refl i,
              role_holds-with_overrides i l rows db,
            )
            decide)
  where
    rows : List UserPermission
    rows = put_override i k e db.user_permissions

    kept : UniqueOverrides rows
    kept = put_override-UniqueOverrides i k e db.user_permissions unique

    old :
        text_in l (resolve_effective_permissions i db)
        ≡ decided (override_of i l db.user_permissions) (role_holds i l db)
    old = resolve_effective_permissions-override_of i l u db unique found plain

    decide :
        decided (if text_eq l k then e else override_of i l db.user_permissions) (role_holds i l db)
        ≡ (if text_eq l k
            then decided e (role_holds i k db)
            else text_in l (resolve_effective_permissions i db))
    decide = elim (Bool-cases (text_eq l k)) [
      | inl same ↦ rw (same, text_eq→≡ l k same) refl
      | inr other ↦ rw other (sym old)
    ]
