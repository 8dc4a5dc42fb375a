-- ===== src/Outreach/Emails/Lifecycle.antt =====
-- The life of an email: what each operation does to the email with a given id.
use gov_crawler.Base.{
  ℕ, ◌+◌, ◌≤◌, ◌≡◌, refl, ap, ◌∙◌, subst, Bool, true, false, not, ◌&&◌, Option, none, some, List,
  [], ◌∷◌, arith, ◌==◌, if◌then◌else◌, Bool-cases, inl, inr,
}
use gov_crawler.Base.Table
use gov_crawler.Base.Table.{first-update, first-eq-some, count-update}
use gov_crawler.Outreach.{
  EmailStatus, draft, queued, sending, sent, failed, CampaignEmail, Database, has_id, has_status,
  is_of, status_code,
}
use gov_crawler.Outreach.Emails.{get_campaign_stats, update_emails}

-- The email with the id.
unfoldable pub find_email : ℕ → Database → Option CampaignEmail
find_email i db = Table.first (has_id i) db.emails

-- Ids are unique, as the primary key has it.
abbrev pub DistinctIds : List CampaignEmail → Type 0
DistinctIds [] = Unit
DistinctIds (e ∷ es) = (Table.count (has_id e.id) es ≡ 0) × DistinctIds es

abbrev bit : Bool → ℕ
bit b = if b then 1 else 0

abbrev of : ℕ → EmailStatus → CampaignEmail → Bool
of id st e = is_of id e && has_status st e

-- An email has exactly one of the states.
one_status :
    (b : Bool) (st : EmailStatus)
    → bit (b && status_code st == 0)
        + (bit (b && status_code st == 1)
            + (bit (b && status_code st == 2)
                + (bit (b && status_code st == 3) + bit (b && status_code st == 4))))
      ≡ bit b
one_status false st = refl
one_status true draft = refl
one_status true queued = refl
one_status true sending = refl
one_status true sent = refl
one_status true failed = refl

count-partition :
    (id : ℕ) (es : List CampaignEmail)
    → Table.count (of id draft) es
        + (Table.count (of id queued) es
            + (Table.count (of id sending) es
                + (Table.count (of id sent) es + Table.count (of id failed) es)))
      ≡ Table.count (is_of id) es
unfolding Table.count
count-partition id [] = refl
count-partition id (e ∷ es) = omega (arith, one_status (is_of id e) e.status, count-partition id es)

skipped-le :
    (id : ℕ) (es : List CampaignEmail)
    → Table.count (λ (e : CampaignEmail). is_of id e && has_status draft e && not e.is_selected) es
      ≤ Table.count (of id draft) es
unfolding Table.count
skipped-le id [] = omega arith
skipped-le id (e ∷ es) = ground (arith, skipped-le id es)

-- The counts of the five states and the deselected drafts make up the campaign's emails: no email is
-- counted twice and none is left out.
pub get_campaign_stats-total :
    (id : ℕ) (db : Database)
    → (let s = get_campaign_stats id db in
        (s.total ≡ Table.count (is_of id) db.emails)
        × (s.draft + s.skipped + s.queued + s.sending + s.sent + s.failed ≡ s.total))
unfolding get_campaign_stats
get_campaign_stats-total id db =
    (count-partition id db.emails, omega (arith, skipped-le id db.emails))

-- An update that keeps the ids keeps them distinct.
count-id-update :
    (i : ℕ) (p : CampaignEmail → Bool) (f : CampaignEmail → CampaignEmail)
    → ((e : CampaignEmail) → (f e).id ≡ e.id)
    → (es : List CampaignEmail)
    → Table.count (has_id i) (Table.update p f es) ≡ Table.count (has_id i) es
count-id-update i p f same es =
    count-update (has_id i) p f (λ e. ap (λ (n : ℕ). n == i) (same e)) es

pub update-DistinctIds :
    (p : CampaignEmail → Bool) (f : CampaignEmail → CampaignEmail)
    → ((e : CampaignEmail) → (f e).id ≡ e.id)
    → (es : List CampaignEmail) → DistinctIds es
    → DistinctIds (Table.update p f es)
unfolding Table.update
update-DistinctIds p f same [] d = tt
update-DistinctIds p f same (e ∷ es) d = (
  ap (λ (i : ℕ). Table.count (has_id i) (Table.update p f es)) (head_id (p e))
      ∙ (count-id-update e.id p f same es ∙ d.0),
  update-DistinctIds p f same es d.1,
)
  where
    head_id : (b : Bool) → (if b then f e else e).id ≡ e.id
    head_id true = same e
    head_id false = refl

first-count :
    (q : CampaignEmail → Bool) (a : CampaignEmail) (es : List CampaignEmail)
    → Table.first q es ≡ some a
    → 1 ≤ Table.count q es
unfolding Table.first Table.count
first-count q a [] h = cc
first-count q a (e ∷ es) h = ground (arith, first-count q a es)

-- With distinct ids, the first row of a condition is the row of its id.
pub first-by_id :
    (p : CampaignEmail → Bool) (a : CampaignEmail) (es : List CampaignEmail)
    → DistinctIds es
    → Table.first p es ≡ some a
    → Table.first (has_id a.id) es ≡ some a
unfolding Table.first
first-by_id p a [] d h = cc
first-by_id p a (e ∷ es) d h = elim (Bool-cases (p e)) [
  | inl hit ↦
      subst
        (λ (x : CampaignEmail).
          (if e.id == x.id then some e else Table.first (has_id x.id) es) ≡ some x)
        (found (p e) hit h) (self e.id (some e) (Table.first (has_id e.id) es))
  | inr miss ↦
      let below = first-by_id p a es d.1 (skip (p e) miss h) in
      rw (other e.id a.id d.0 (first-count (has_id a.id) a es below)) below
]
  where
    found : (b : Bool) → b ≡ true → (if b then some e else Table.first p es) ≡ some a → e ≡ a
    found true t eq = cc
    found false t eq = cc

    skip :
        (b : Bool)
        → b ≡ false
        → (if b then some e else Table.first p es) ≡ some a
        → Table.first p es ≡ some a
    skip true t eq = cc
    skip false t eq = eq

    self : (n : ℕ) (x y : Option CampaignEmail) → (if n == n then x else y) ≡ x
    self n x y = ground arith

    other :
        (m n : ℕ) → Table.count (has_id m) es ≡ 0 → 1 ≤ Table.count (has_id n) es → (m == n) ≡ false
    other m n none_m some_n = elim (Bool-cases (m == n)) [
      | inl same ↦ absurd (
          clash (subst (λ (k : ℕ). Table.count (has_id k) es ≡ 0) (eq_of_test m n same) none_m)
            some_n)
      | inr e ↦ e
    ]
      where
        eq_of_test : (u v : ℕ) → (u == v) ≡ true → u ≡ v
        eq_of_test u v t = ground arith

        clash : {k : ℕ} → k ≡ 0 → 1 ≤ k → ⊥
        clash u v = omega arith

-- What an update does to the email with an id.
pub find_email-update :
    (i : ℕ) (p : CampaignEmail → Bool) (f : CampaignEmail → CampaignEmail)
    → ((e : CampaignEmail) → (f e).id ≡ e.id)
    → (db : Database)
    → find_email i (update_emails p f db)
      ≡ elim (find_email i db) [ none ↦ none | some e ↦ some (if p e then f e else e) ]
unfolding find_email
find_email-update i p f same db =
    first-update p (has_id i) f (λ e. ap (λ (n : ℕ). n == i) (same e)) db.emails
