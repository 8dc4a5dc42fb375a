-- ===== src/Outreach/Listings/Complete.antt =====
-- The list of a campaign's emails, read page by page as the route numbers them.
use native.Mathlib.Nat.{mod-lt}
use gov_crawler.Base.{
  ℕ, ◌+◌, ◌-◌, ◌*◌, ◌/◌, ◌%◌, ◌<◌, ◌≤◌, ◌≡◌, refl, sym, ap, ◌∙◌, subst, Bool, true, false, ◌&&◌,
  Option, none, some, List, [], ◌∷◌, ◌==◌, if◌then◌else◌, ltb, length, length-take-le, arith,
  Bool-cases, inl, inr,
}
use native.Mathlib.Omega.{div_any}
use gov_crawler.Base.Table
use gov_crawler.Base.Pages.{paginate, all_pages, all_pages_complete}
use gov_crawler.Outreach.{
  CampaignEmail, EmailStatus, draft, queued, sending, sent, failed, Database, status_code, is_of,
  has_status,
}
use gov_crawler.Outreach.Listings.{get_campaign_emails, in_list, page_count}

-- What a reader asks for: the emails of the campaign, with the status if one is given.
abbrev pub Wanted : ℕ → Option EmailStatus → CampaignEmail → Type 0
Wanted campaign_id none e = e.campaign_id ≡ campaign_id
Wanted campaign_id (some st) e = (e.campaign_id ≡ campaign_id) × (e.status ≡ st)

-- The second list has the elements of the first of which P holds, each as often as it is there and in
-- their order, and no others.
pub data Picks {A : Type 0} (P : A → Type 0) : List A → List A → Type 0 where
  ends : Picks P [] []
  takes : {x : A} {xs ys : List A} → P x → Picks P xs ys → Picks P (x ∷ xs) (x ∷ ys)
  skips : {x : A} {xs ys : List A} → (P x → ⊥) → Picks P xs ys → Picks P (x ∷ xs) ys

select-Picks :
    {A : Type 0} (P : A → Type 0) (p : A → Bool)
    → ((x : A) → p x ≡ true → P x)
    → ((x : A) → p x ≡ false → P x → ⊥)
    → (xs : List A) → Picks P xs (Table.select p xs)
unfolding Table.select
select-Picks P p holds fails [] = ends
select-Picks P p holds fails (x ∷ xs) = elim (Bool-cases (p x)) [
  | inl t ↦ rw t (takes (holds x t) (select-Picks P p holds fails xs))
  | inr f ↦ rw f (skips (fails x f) (select-Picks P p holds fails xs))
]

-- Equal numbers are those of equal states.
status_of : ℕ → EmailStatus
status_of n =
    if n == 0
    then draft
    else if n == 1
    then queued
    else if n == 2
    then sending
    else if n == 3
    then sent
    else failed

status_code-inverse : (st : EmailStatus) → status_of (status_code st) ≡ st
unfolding status_of
status_code-inverse draft = refl
status_code-inverse queued = refl
status_code-inverse sending = refl
status_code-inverse sent = refl
status_code-inverse failed = refl

status_code-injective : (a b : EmailStatus) → (status_code a == status_code b) ≡ true → a ≡ b
status_code-injective a b h =
    sym (status_code-inverse a)
    ∙ (ap status_of (same (status_code a) (status_code b) h) ∙ status_code-inverse b)
  where
    same : (m n : ℕ) → (m == n) ≡ true → m ≡ n
    same m n h = ground arith

in_list-Wanted :
    (c : ℕ) (status : Option EmailStatus) (e : CampaignEmail)
    → in_list c status e ≡ true
    → Wanted c status e
in_list-Wanted c none e h = ground arith
in_list-Wanted c (some st) e h = (
  left (e.campaign_id) (has_status st e) h,
  status_code-injective e.status st (right (is_of c e) (has_status st e) h),
)
  where
    left : (k : ℕ) (b : Bool) → ((k == c) && b) ≡ true → k ≡ c
    left k b h = ground arith

    right : (a b : Bool) → (a && b) ≡ true → b ≡ true
    right a b h = ground arith

in_list-unwanted :
    (c : ℕ) (status : Option EmailStatus) (e : CampaignEmail)
    → in_list c status e ≡ false
    → Wanted c status e
    → ⊥
in_list-unwanted c none e h w = ground arith
in_list-unwanted c (some st) e h (campaign, status) =
    out e.campaign_id (status_code e.status) (status_code st) campaign (ap status_code status) h
  where
    out : (k m n : ℕ) → k ≡ c → m ≡ n → ((k == c) && (m == n)) ≡ false → ⊥
    out k m n p q h = ground arith

-- The number of pages that the route reports is enough.
page_count-enough : (total limit : ℕ) → 0 < limit → total ≤ page_count total limit * limit
unfolding page_count
page_count-enough total limit pos =
    room ((total + limit - 1) / limit) ((total + limit - 1) % limit)
      (div_any (total + limit - 1) limit) (mod-lt (total + limit - 1) pos)
  where
    times : (q : ℕ) → q * limit ≡ limit * q
    times q = ground arith

    none_left : (q r : ℕ) → (limit * q) + r ≡ total + limit - 1 → r < limit → total ≤ limit * q
    none_left q r e small = omega (arith, e, small, pos)

    zero_room : (q : ℕ) → ltb q 1 ≡ true → limit * q ≡ 0
    zero_room q e = ground arith

    room :
        (q r : ℕ)
        → (limit * q) + r ≡ total + limit - 1
        → r < limit
        → total ≤ (if ltb q 1 then 1 else q) * limit
    room q r e small = elim (Bool-cases (ltb q 1)) [
      | inl low ↦ rw low (omega (arith, none_left q r e small, zero_room q low))
      | inr high ↦ rw (high, times q) (none_left q r e small)
    ]

-- Where the limit is not 0: the pages of a campaign's emails from 1 to the number that the route reports,
-- one after another, are the emails of the database that belong to the campaign and have the status
-- asked for, each once for each row and in their order, and no others; they are as many as the total that
-- any page p reports; and page p has no more emails than the limit.
pub get_campaign_emails_complete :
    (campaign_id : ℕ) (status : Option EmailStatus) (limit p : ℕ) (db : Database)
    → 0 < limit
    → let total = (get_campaign_emails campaign_id status 1 limit db).1 in
      let pages =
        all_pages
          (λ (n : ℕ). (get_campaign_emails campaign_id status n limit db).0)
          (page_count total limit) in
      Picks (Wanted campaign_id status) db.emails pages
      × ((get_campaign_emails campaign_id status p limit db).1 ≡ length pages)
      × (length (get_campaign_emails campaign_id status p limit db).0 ≤ limit)
unfolding get_campaign_emails paginate
get_campaign_emails_complete campaign_id status limit p db pos =
    let rows = Table.select (in_list campaign_id status) db.emails in
    let all =
      all_pages_complete (page_count (length rows) limit) limit rows
        (page_count-enough (length rows) limit pos) in
    (
      subst (Picks (Wanted campaign_id status) db.emails) (sym all) (
          select-Picks (Wanted campaign_id status) (in_list campaign_id status)
            (in_list-Wanted campaign_id status) (in_list-unwanted campaign_id status) db.emails),
      ap length (sym all),
      length-take-le limit _,
    )
