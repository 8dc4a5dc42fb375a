-- ===== src/Outreach/Dispatcher/Pool.antt =====
-- Which credentials a campaign may send through, and the turn in which each is used.
use gov_crawler.Base.{
  ℕ, zero, suc, ◌<◌, ◌≡◌, refl, Bool, true, false, not, ◌&&◌, ◌||◌, Option, none, some, List, [],
  ◌∷◌, ◌==◌, Bool-cases, ◌⊎◌, inl, inr, All, arith, length, is_some, opt_eq,
}
use native.Mathlib.Nat.{mod-lt}
use gov_crawler.Base.Table
use gov_crawler.Base.Table.{All-select}
use gov_crawler.Base.Text.{any, is_empty}
use gov_crawler.Outreach.{
  Campaign, Credential, Database, get_active_credentials, get_credentials_by_ids, get_campaign,
  is_cooled, get_credential_sent_count_today,
}
use gov_crawler.Outreach.Dispatcher.{
  nth, get_next_credential, is_capped, resolve_credential_pool, Round, Dispatch, dispatch_round,
  dispatch_loop,
}

-- A credential that may be used at the time now: enabled, assigned unless nothing is, past a cooldown
-- that it had, and under its limit of the day.
pub record IsUsable (ids : List ℕ) (now : ℕ) (db : Database) (c : Credential) : Type 0 where
  pub active : c.is_active ≡ true
  pub cooled : is_cooled now c.cooldown_until ≡ true
  pub assigned : is_empty ids ≡ false → any (λ (i : ℕ). i == c.id) ids ≡ true
  pub under_limit :
      is_capped (get_credential_sent_count_today c.id now db) c.daily_send_limit ≡ false

select-holds :
    {A : Type 0} → (p : A → Bool) (xs : List A) → All (λ a. p a ≡ true) (Table.select p xs)
unfolding Table.select
select-holds p [] = tt
select-holds p (x ∷ xs) = elim (Bool-cases (p x)) [
  | inl e ↦ rw e (e, select-holds p xs)
  | inr e ↦ rw e (select-holds p xs)
]

nth-some :
    {A : Type 0}
    → (P : A → Type 0) (xs : List A) (n : ℕ) → All P xs
    → n < length xs
    → (x : A) × (nth xs n ≡ some x) × P x
unfolding nth
nth-some P [] n all h = absurd (empty h)
  where
    empty : n < 0 → ⊥
    empty h = omega arith
nth-some P (x ∷ xs) zero all h = (x, refl, all.0)
nth-some P (x ∷ xs) (suc n) all h = nth-some P xs n all.1 (omega arith)

select-twice :
    {A : Type 0}
    → (P : A → Type 0) (p q : A → Bool) → ((x : A) → p x ≡ true → q x ≡ true → P x)
    → (xs : List A) → All P (Table.select q (Table.select p xs))
select-twice {A} P p q h xs =
    join (Table.select q (Table.select p xs))
      (All-select (λ (x : A). p x ≡ true) q (Table.select p xs) (select-holds p xs))
      (select-holds q (Table.select p xs))
  where
    join :
        (ys : List A) → All (λ (x : A). p x ≡ true) ys → All (λ (x : A). q x ≡ true) ys → All P ys
    join [] u v = tt
    join (y ∷ ys) u v = (h y u.0 v.0, join ys u.1 v.1)

pool_member :
    (ids : List ℕ) (now : ℕ) (db : Database) (c : Credential)
    → (c.is_active && is_cooled now c.cooldown_until) ≡ true
    → (is_empty ids ≡ false → any (λ (i : ℕ). i == c.id) ids ≡ true)
    → not (is_capped (get_credential_sent_count_today c.id now db) c.daily_send_limit) ≡ true
    → IsUsable ids now db c
pool_member ids now db c h assigned limit = record {
  active = both.0;
  cooled = both.1;
  assigned = assigned;
  under_limit = off _ limit;
}
  where
    and : (a b : Bool) → (a && b) ≡ true → (a ≡ true) × (b ≡ true)
    and true b e = (refl, e)
    and false b e = cc

    both : (c.is_active ≡ true) × (is_cooled now c.cooldown_until ≡ true)
    both = and c.is_active (is_cooled now c.cooldown_until) h

    off : (b : Bool) → not b ≡ true → b ≡ false
    off b e = ground arith

-- Every credential of a campaign's pool is usable at the time of the choice: enabled, past a cooldown
-- that it had, under its daily limit, and assigned to the campaign if any credential is.
pub resolve_credential_pool-IsUsable :
    (ids : List ℕ) (now : ℕ) (db : Database)
    → All (IsUsable ids now db) (resolve_credential_pool ids now db)
unfolding resolve_credential_pool get_active_credentials get_credentials_by_ids
resolve_credential_pool-IsUsable [] now db =
    select-twice (IsUsable [] now db) _ _
      (λ c h limit. pool_member [] now db c h (λ e. absurd (nothing e)) limit) db.credentials
  where
    nothing : true ≡ false → ⊥
    nothing e = cc
resolve_credential_pool-IsUsable (i ∷ is) now db =
    select-twice (IsUsable (i ∷ is) now db) _ _
      (λ c h limit.
        let listed = any (λ (j : ℕ). j == c.id) (i ∷ is) in
        let cool = is_cooled now c.cooldown_until in
        pool_member (i ∷ is) now db c (rest listed c.is_active cool h)
          (λ e. one listed c.is_active cool h) limit)
      db.credentials
  where
    one : (a b c : Bool) → (a && b && c) ≡ true → a ≡ true
    one a b c e = ground arith

    rest : (a b c : Bool) → (a && b && c) ≡ true → (b && c) ≡ true
    rest a b c e = ground arith

-- The credential of a round is one of the pool's, so it is usable, and the next turn's index is one of
-- the pool's; only an empty pool gives none.
pub get_next_credential-IsUsable :
    (ids : List ℕ) (now : ℕ) (db : Database) (index : ℕ)
    → (let pool = resolve_credential_pool ids now db in
        let next = get_next_credential pool index in
        ((pool ≡ []) × (next.0 ≡ none))
        ⊎ ((c : Credential) × (next.0 ≡ some c) × IsUsable ids now db c × (next.1 < length pool)))
unfolding get_next_credential
get_next_credential-IsUsable ids now db index =
    go (resolve_credential_pool ids now db) (resolve_credential_pool-IsUsable ids now db)
  where
    go :
        (pool : List Credential)
        → All (IsUsable ids now db) pool
        → ((pool ≡ []) × ((get_next_credential pool index).0 ≡ none))
          ⊎ ((c : Credential) × ((get_next_credential pool index).0 ≡ some c)
              × IsUsable ids now db c
              × ((get_next_credential pool index).1 < length pool))
    go [] h = inl (refl, refl)
    go (c ∷ cs) h =
        let (x, found, usable) =
          nth-some (IsUsable ids now db) (c ∷ cs) _ h (mod-lt index (omega arith)) in
        inr (x, found, usable, mod-lt (suc index) (omega arith))

-- The loop looks its campaign up without an owner, so one that has an owner is not found.
dispatch_round-owned :
    (id : ℕ) (r : Round) (d : Dispatch)
    → All (λ (c : Campaign). (c.id == id) ≡ true → is_some c.owner_id ≡ true) d.db.campaigns
    → dispatch_round id r d ≡ (false, d)
unfolding dispatch_round get_campaign Table.first
dispatch_round-owned id r d h = rw (missing d.db.campaigns h, dispatch_round, get_campaign) refl
  where
    owned : (o : Option ℕ) → is_some o ≡ true → opt_eq o none ≡ false
    owned none h = cc
    owned (some x) h = refl

    missing :
        (cs : List Campaign)
        → All (λ (c : Campaign). (c.id == id) ≡ true → is_some c.owner_id ≡ true) cs
        → Table.first (λ (c : Campaign). c.id == id && (false || opt_eq c.owner_id none)) cs ≡ none
    missing [] h = refl
    missing (c ∷ cs) h = elim (Bool-cases (c.id == id)) [
      | inl e ↦ rw (e, owned c.owner_id (h.0 e)) (missing cs h.1)
      | inr e ↦ rw e (missing cs h.1)
    ]

-- When every row of the campaign has an owner, the dispatch loop changes nothing, whatever its rounds
-- bring.
pub dispatch_loop-owned :
    (id : ℕ) (rs : List Round) (d : Dispatch)
    → All (λ (c : Campaign). (c.id == id) ≡ true → is_some c.owner_id ≡ true) d.db.campaigns
    → dispatch_loop id rs d ≡ d
unfolding dispatch_loop
dispatch_loop-owned id [] d h = refl
dispatch_loop-owned id (r ∷ rs) d h = rw (dispatch_round-owned id r d h, dispatch_loop) refl
