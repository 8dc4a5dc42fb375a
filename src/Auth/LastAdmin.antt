-- ===== src/Auth/LastAdmin.antt =====
-- The accounts under the routes that write them: their ids and the active administrators.
use gov_crawler.Base.{
  ℕ, ◌≤◌, ◌≡◌, refl, ap, Bool, true, false, not, ◌&&◌, Option, none, some, arith, leb, ◌==◌,
  if◌then◌else◌, Bool-cases, inl, inr,
}
use gov_crawler.Base.Table
use gov_crawler.Base.Table.{count-append, count-update}
use gov_crawler.Base.Selects.{count-update_one, count-update_grows, count-update_uncounted}
use gov_crawler.Base.Http.{ok, http_error, error_ne_ok, guard_passed}
use gov_crawler.Base.Text.{Text, codes}
use gov_crawler.Auth.{User, AuthDb, is_user, write_audit}
use gov_crawler.Auth.Users.{
  get_user_by_id, update_user, with_active, is_active_admin, count_active_admins, set_user_active,
}
use gov_crawler.Auth.Sessions.{revoke_session_family}
use gov_crawler.Auth.Guard.{CurrentUser}
use gov_crawler.Auth.Routes.{audit}
use gov_crawler.Auth.Admin.{check_last_admin, guard_last_admin, patch_active}

-- Unique ids below the next one, and an administrator who is active.
unfoldable pub ValidUsers : AuthDb → Type 0
ValidUsers db =
    ((i : ℕ) → Table.count (is_user i) db.users ≤ 1)
    × ((i : ℕ) → db.next_user_id ≤ i → Table.count (is_user i) db.users ≤ 0)
    × (1 ≤ count_active_admins db)

-- A change of one account that leaves enough administrators.
update_user-ValidUsers :
    (i : ℕ) (f : User → User) (db : AuthDb)
    → ((a : User) → (f a).id ≡ a.id)
    → 1 ≤ count_active_admins (update_user i f db)
    → ValidUsers db
    → ValidUsers (update_user i f db)
unfolding ValidUsers update_user
update_user-ValidUsers i f db same left (unique, below, _) = (
  λ (j : ℕ). rw (kept j) (unique j),
  λ (j : ℕ) (h : db.next_user_id ≤ j). rw (kept j) (below j h),
  left,
)
  where
    kept :
        (j : ℕ)
        → Table.count (is_user j) (Table.update (is_user i) f db.users)
          ≡ Table.count (is_user j) db.users
    kept j =
        count-update (is_user j) (is_user i) f (λ (a : User). ap (λ (n : ℕ). n == j) (same a))
          db.users

-- A change of one account that keeps an active administrator one.
pub update_user-keeps :
    (i : ℕ) (f : User → User) (db : AuthDb)
    → ((a : User) → (f a).id ≡ a.id)
    → ((a : User) → is_active_admin a ≡ true → is_active_admin (f a) ≡ true)
    → ValidUsers db
    → ValidUsers (update_user i f db)
unfolding ValidUsers count_active_admins update_user
update_user-keeps i f db same keeps valid =
    update_user-ValidUsers i f db same
      (omega (arith, valid.2, count-update_grows (is_user i) is_active_admin f keeps db.users))
      valid

-- The deactivation that the guard of `patch_user` lets pass.
deactivated-left :
    (i : ℕ) (db : AuthDb)
    → guard_last_admin i (some false) db ≡ ok tt
    → ValidUsers db
    → 1 ≤ count_active_admins (update_user i (with_active false) db)
unfolding guard_last_admin ValidUsers count_active_admins update_user get_user_by_id
deactivated-left i db passed (unique, _, left) = go (get_user_by_id i db) refl passed
  where
    go :
        (o : Option User)
        → get_user_by_id i db ≡ o
        → check_last_admin o db ≡ ok tt
        → 1 ≤ Table.count is_active_admin (Table.update (is_user i) (with_active false) db.users)
    go none e h = absurd (error_ne_ok 404 (codes "User not found") tt h)
    go (some target) e h = elim (Bool-cases (is_active_admin target)) [
      | inr out ↦ omega (
        arith,
        left,
        count-update_uncounted (is_user i) is_active_admin (with_active false) target db.users
            (unique i) (found e) out,
      )
      | inl counted ↦ omega (
        arith,
        several counted,
        count-update_one (is_user i) is_active_admin (with_active false) db.users (unique i),
      )
    ]
      where
        spared : is_active_admin target && leb (count_active_admins db) 1 ≡ false
        spared =
            (guard_passed (is_active_admin target && leb (count_active_admins db) 1) 409
              (codes "Cannot deactivate the last remaining admin account") (ok tt) tt h).0

        several : is_active_admin target ≡ true → 2 ≤ Table.count is_active_admin db.users
        several counted = ground (arith, spared)

        found : get_user_by_id i db ≡ some target → Table.first (is_user i) db.users ≡ some target
        found k = k

module _ {A B : Type 0} (P : B → Type 0) where
  -- What holds of the state of both branches.
  pub either : (b : Bool) (x y : A × B) → P x.1 → P y.1 → P ((if b then x else y).1)
  either true x y p q = p
  either false x y p q = q

  pub with_option :
      {C : Type 0} (o : Option C) (x : A × B) (f : C → A × B)
      → P x.1
      → ((c : C) → P ((f c).1))
      → P ((elim o as (λ _. A × B) [ none ↦ x | some c ↦ f c ]).1)
  with_option none x f p q = p
  with_option (some c) x f p q = q c

-- The audit trail and the sessions are other tables.
set_user_active-ValidUsers :
    (i : ℕ) (b : Bool) (now : ℕ) (db : AuthDb)
    → ValidUsers (update_user i (with_active b) db)
    → ValidUsers db
    → ValidUsers ((set_user_active i b now db).1)
unfolding set_user_active ValidUsers count_active_admins revoke_session_family
set_user_active-ValidUsers i b now db changed valid =
    with_option ValidUsers (get_user_by_id i db) (false, db) (λ (u : User). done) valid
      (λ (u : User). pick b changed)
  where
    done : Bool × AuthDb
    done =
        let next = update_user i (with_active b) db in
        (true, if b then next else revoke_session_family i now next)

    pick :
        (b : Bool)
        → ValidUsers (update_user i (with_active b) db)
        → ValidUsers (
            if b
            then update_user i (with_active b) db
            else revoke_session_family i now (update_user i (with_active b) db))
    pick true v = v
    pick false v = v

pub patch_active-ValidUsers :
    (i : ℕ) (b : Option Bool) (user : CurrentUser) (ip : Option Text) (now : ℕ) (db : AuthDb)
    → guard_last_admin i b db ≡ ok tt
    → ValidUsers db
    → ValidUsers ((patch_active i b user ip now db).1)
unfolding patch_active write_audit ValidUsers count_active_admins
patch_active-ValidUsers i none user ip now db passed valid = valid
patch_active-ValidUsers i (some b) user ip now db passed valid =
    either ValidUsers (not done.0) (http_error 404 (codes "User not found"), done.1)
      (ok tt, audit user.id (codes "user.set_active") (codes "user") i ip now done.1) kept kept
  where
    done : Bool × AuthDb
    done = set_user_active i b now db

    changed :
        (b : Bool)
        → guard_last_admin i (some b) db ≡ ok tt
        → ValidUsers (update_user i (with_active b) db)
    changed true p =
        update_user-keeps i (with_active true) db (λ (a : User). refl)
          (λ (a : User) h. ground arith) valid
    changed false p =
        update_user-ValidUsers i (with_active false) db (λ (a : User). refl)
          (deactivated-left i db p valid) valid

    kept : ValidUsers done.1
    kept = set_user_active-ValidUsers i b now db (changed b passed) valid
