-- ===== src/Auth/Login.antt =====
-- When a login succeeds, and the lockout of an account.
use gov_crawler.Base.{
  ℕ, ◌+◌, ◌*◌, ◌≤◌, ◌<◌, ◌≡◌, refl, sym, subst, Bool, true, false, not, ◌&&◌, ◌||◌, Option, none,
  some, [], ◌∷◌, arith, ltb, leb, if◌then◌else◌, length, Bool-cases, inl, inr, ==_refl, lt→ltb,
}
use gov_crawler.Base.Table.{first-update}
use gov_crawler.Base.Http.{Response, ok, http_error, is_ok}
use gov_crawler.Base.Text.{Text, codes, text_eq, is_empty, lower, strip}
use gov_crawler.Auth.{User, AuthDb, is_user, write_audit}
use gov_crawler.Auth.Users.{get_user_by_email, update_user, failed_once, record_login_failure}
use gov_crawler.Auth.Guard.{Crypto, AuthConfig, Request, client_ip, unauthorized}
use gov_crawler.Auth.Routes.{
  LoginState, TokenResponse, attempts_of, recent, window_seconds, check_address,
  check_login_rate_limit, is_locked, reject_password, accept_password, login_user, login_checked,
  after_limit, login, record_login_failure_for_rate_limit, with_attempts, with_db, audit,
}

-- Whether the address has failed less often than the limit within the window.
unfoldable pub under_limit : AuthConfig → Option Text → ℕ → LoginState → Bool
under_limit config none mono st = true
under_limit config (some ip) mono st =
    is_empty ip
    || not (
        leb config.login_rate_limit_attempts
          (length (recent mono (window_seconds config) (attempts_of ip st.failed_login_attempts))))

-- Whether the account may log in with the password.
unfoldable pub may_log_in : Crypto → Text → ℕ → Option User → Bool
may_log_in crypto password now none = false
may_log_in crypto password now (some u) =
    not (is_locked now u) && u.is_active && crypto.verify_password u.password_hash password

login_user-is_ok :
    (crypto : Crypto) (config : AuthConfig) (u : User) (password fresh : Text) (request : Request)
    → (now mono : ℕ) (st : LoginState)
    → is_ok ((login_user crypto config u password fresh request now mono st).0)
      ≡ may_log_in crypto password now (some u)
unfolding login_user reject_password accept_password may_log_in
login_user-is_ok crypto config u password fresh request now mono st =
    elim (Bool-cases (is_locked now u)) [
      | inl l ↦ rw l refl
      | inr l ↦ elim (Bool-cases u.is_active) [
        | inr a ↦ rw (l, a) refl
        | inl a ↦ elim (Bool-cases (crypto.verify_password u.password_hash password)) [
          | inl v ↦ rw (l, a, v) refl
          | inr v ↦ rw (l, a, v) refl
        ]
      ]
    ]

login_checked-is_ok :
    (crypto : Crypto) (config : AuthConfig) (email password fresh : Text) (request : Request)
    → (now mono : ℕ) (st : LoginState)
    → is_ok ((login_checked crypto config email password fresh request now mono st).0)
      ≡ may_log_in crypto password now (get_user_by_email email st.db)
unfolding login_checked may_log_in
login_checked-is_ok crypto config email password fresh request now mono st =
    go (get_user_by_email email st.db)
  where
    go :
        (o : Option User)
        → is_ok (
            (elim o as (λ x. Response TokenResponse × LoginState) [
              | none ↦ (
                unauthorized (codes "Invalid email or password"),
                record_login_failure_for_rate_limit (client_ip request) mono st,
              )
              | some user ↦ login_user crypto config user password fresh request now mono st
            ]).0)
          ≡ may_log_in crypto password now o
    go none = refl
    go (some u) = login_user-is_ok crypto config u password fresh request now mono st

-- A login succeeds exactly if the address is below the rate limit and the email is that of an account
-- that is active and not locked, and whose password hash the password matches.
pub login-is_ok :
    (crypto : Crypto) (config : AuthConfig) (email password fresh : Text) (request : Request)
    → (now mono : ℕ) (st : LoginState)
    → is_ok ((login crypto config email password fresh request now mono st).0)
      ≡ under_limit config (client_ip request) mono st
        && may_log_in crypto password now (get_user_by_email email st.db)
unfolding login after_limit check_login_rate_limit check_address under_limit
login-is_ok crypto config email password fresh request now mono st = go (client_ip request)
  where
    go :
        (ip : Option Text)
        → is_ok (
            (after_limit crypto config email password fresh request now mono
              (check_login_rate_limit config ip mono st)).0)
          ≡ under_limit config ip mono st
            && may_log_in crypto password now (get_user_by_email email st.db)
    go none = login_checked-is_ok crypto config email password fresh request now mono st
    go (some []) = login_checked-is_ok crypto config email password fresh request now mono st
    go (some (c ∷ ip)) = limited (
        leb config.login_rate_limit_attempts (
          length
            (recent mono (window_seconds config) (attempts_of (c ∷ ip) st.failed_login_attempts))))
      where
        limited :
            (b : Bool)
            → is_ok (
                (after_limit crypto config email password fresh request now mono (
                  if b
                      then http_error 429
                          (codes "Too many login attempts from this network. Try again later.")
                      else ok tt,
                  with_attempts
                      (c ∷ ip)
                      (recent mono
                        (window_seconds config)
                        (attempts_of (c ∷ ip) st.failed_login_attempts))
                      st,
                )).0)
              ≡ not b && may_log_in crypto password now (get_user_by_email email st.db)
        limited true = refl
        limited false = login_checked-is_ok crypto config email password fresh request now mono (
            with_attempts (c ∷ ip)
              (recent mono (window_seconds config) (attempts_of (c ∷ ip) st.failed_login_attempts))
              st)

-- The rate limit's bookkeeping leaves the database alone.
record_failure-db :
    (ip : Option Text) (mono : ℕ) (st : LoginState)
    → (record_login_failure_for_rate_limit ip mono st).db ≡ st.db
unfolding record_login_failure_for_rate_limit
record_failure-db none mono st = refl
record_failure-db (some []) mono st = refl
record_failure-db (some (c ∷ ip)) mono st = refl

-- The account after a wrong password.
failed_account :
    (config : AuthConfig) (email : Text) (u : User) (ip : Option Text) (now mono : ℕ)
    (st : LoginState)
    → get_user_by_email email st.db ≡ some u
    → get_user_by_email email ((reject_password config u ip now mono st).1.db)
      ≡ some (failed_once config.lockout_threshold config.lockout_minutes now u)
unfolding reject_password get_user_by_email record_login_failure update_user write_audit
failed_account config email u ip now mono st found =
    subst (λ (d : AuthDb). get_user_by_email email d ≡ some (fail u))
      (sym (record_failure-db ip mono counted))
      (rw
        (
          first-update (is_user u.id) has_address fail (λ (a : User). refl) st.db.users,
          found,
          ==_refl u.id,
        )
        refl)
  where
    fail : User → User
    fail a = failed_once config.lockout_threshold config.lockout_minutes now a

    has_address : User → Bool
    has_address a = text_eq a.email (lower (strip email))

    counted : LoginState
    counted =
        with_db
          (audit u.id (codes "user.login_failed") (codes "user") u.id ip now
            (record_login_failure u.id config.lockout_threshold config.lockout_minutes now st.db))
          st

wrong_password :
    (crypto : Crypto) (config : AuthConfig) (email password fresh : Text) (request : Request)
    → (now mono : ℕ) (st : LoginState) (u : User) → get_user_by_email email st.db ≡ some u
    → is_locked now u ≡ false
    → u.is_active ≡ true
    → crypto.verify_password u.password_hash password ≡ false
    → login_checked crypto config email password fresh request now mono st
      ≡ reject_password config u (client_ip request) now mono st
unfolding login_checked login_user
wrong_password crypto config email password fresh request now mono st u found open_now active
      wrong =
    rw (found, login_checked, login_user) (rw (open_now, active, wrong) refl)

while_locked :
    (crypto : Crypto) (config : AuthConfig) (email password fresh : Text) (request : Request)
    → (now mono : ℕ) (st : LoginState) (u : User) → get_user_by_email email st.db ≡ some u
    → is_locked now u ≡ true
    → login_checked crypto config email password fresh request now mono st
      ≡ (http_error 423 (codes "Account temporarily locked. Try again later."), st)
unfolding login_checked login_user
while_locked crypto config email password fresh request now mono st u found locked =
    rw (found, login_checked, login_user) (rw locked refl)

failed_once-is_locked :
    (threshold minutes now now' : ℕ) (u : User)
    → threshold ≤ u.failed_logins + 1
    → now' < now + minutes * 60
    → is_locked now' (failed_once threshold minutes now u) ≡ true
failed_once-is_locked threshold minutes now now' u reached early = rw (leb_true, early_true) refl
  where
    leb_true : leb threshold (u.failed_logins + 1) ≡ true
    leb_true = ground (arith, reached)

    early_true : ltb now' (now + minutes * 60) ≡ true
    early_true = lt→ltb now' (now + minutes * 60) early

-- The wrong password that reaches the threshold locks the account: until the lockout has passed, each
-- login with its email that passes the rate limit is refused with 423, the right password included.
-- The condition is an active account, not locked, whose failed logins and this one reach the threshold.
pub login_checked-lockout :
    (crypto : Crypto) (config : AuthConfig) (email password : Text) (request : Request)
    → (now mono : ℕ) (st : LoginState) (u : User)
    → (password' fresh fresh' : Text) (request' : Request) (now' mono' : ℕ)
    → get_user_by_email email st.db ≡ some u
    → is_locked now u ≡ false
    → u.is_active ≡ true
    → crypto.verify_password u.password_hash password ≡ false
    → config.lockout_threshold ≤ u.failed_logins + 1
    → now' < now + config.lockout_minutes * 60
    → let st' : LoginState =
        (login_checked crypto config email password fresh request now mono st).1 in
      login_checked crypto config email password' fresh' request' now' mono' st'
      ≡ (http_error 423 (codes "Account temporarily locked. Try again later."), st')
login_checked-lockout crypto config email password request now mono st u password' fresh fresh'
      request' now' mono' found open_now active wrong reached early =
    subst
      (λ (r : Response TokenResponse × LoginState).
        login_checked crypto config email password' fresh' request' now' mono' r.1
        ≡ (http_error 423 (codes "Account temporarily locked. Try again later."), r.1))
      (sym (
        wrong_password crypto config email password fresh request now mono st u found open_now
          active wrong))
      (while_locked crypto config email password' fresh' request' now' mono'
        (reject_password config u (client_ip request) now mono st).1
        (failed_once config.lockout_threshold config.lockout_minutes now u)
        (failed_account config email u (client_ip request) now mono st found)
        (failed_once-is_locked config.lockout_threshold config.lockout_minutes now now' u reached
          early))
