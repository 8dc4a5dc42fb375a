-- ===== src/Outreach.antt =====
-- cloud/db/mixins/outreach_mixin.py and cloud/db/tables/outreach.py: campaigns, their emails and the
-- SMTP credentials. Each method is one database transaction, so it is one step; the clock is an
-- argument, in seconds. The columns that no operation here reads or writes (names, server addresses,
-- secrets, tokens, creation times) are left out.
pub mod Emails
pub mod Dispatcher
pub mod Drafts
pub mod Staging
pub mod Campaigns
pub mod Creation
pub mod Ownership
pub mod Added
pub mod Suppression
pub mod Listings
use gov_crawler.Base.{
  ℕ, suc, ◌+◌, ◌-◌, ◌*◌, ◌/◌, Bool, true, false, not, ◌&&◌, ◌||◌, Option, none, some, List, [], ◌∷◌,
  ◌++◌, map, ltb, leb, ◌==◌, if◌then◌else◌, length, is_some, opt_eq,
}
use gov_crawler.Base.Table
use gov_crawler.Base.Text.{Text, codes, text_eq, lower, any, is_empty}

pub data CampaignStatus : Type 0 where
  running : CampaignStatus
  paused : CampaignStatus
  cancelled : CampaignStatus
  completed : CampaignStatus

pub data CampaignKind : Type 0 where
  production : CampaignKind
  test : CampaignKind

pub data EmailStatus : Type 0 where
  draft : EmailStatus
  queued : EmailStatus
  sending : EmailStatus
  sent : EmailStatus
  failed : EmailStatus

-- The value of a status as a number, to compare two of them.
abbrev pub status_code : EmailStatus → ℕ
status_code draft = 0
status_code queued = 1
status_code sending = 2
status_code sent = 3
status_code failed = 4

pub record Campaign : Type 0 where
  pub id : ℕ
  pub template_id : ℕ
  pub kind : CampaignKind
  pub test_credential_id : Option ℕ
  pub status : CampaignStatus
  pub owner_id : Option ℕ
  pub pause_reason : Option Text

pub record Credential : Type 0 where
  pub id : ℕ
  pub is_active : Bool
  pub cooldown_until : Option ℕ
  pub daily_send_limit : Option ℕ

pub record CampaignCredential : Type 0 where
  pub campaign_id : ℕ
  pub credential_id : ℕ

pub record CampaignEmail : Type 0 where
  pub id : ℕ
  pub campaign_id : ℕ
  pub lead_id : Option ℕ
  pub recipient_email : Text
  pub subject : Text
  pub body : Text
  pub status : EmailStatus
  pub is_selected : Bool
  pub missing_fields : Option Text
  pub error_message : Option Text
  pub sent_at : Option ℕ
  pub sending_since : Option ℕ
  pub credential_id : Option ℕ

pub record BlacklistRow : Type 0 where
  pub email : Text
  pub domain : Text
  pub reason : Option Text

-- Tables, rows in the order of their ids.
pub record Database : Type 0 where
  pub campaigns : List Campaign
  pub credentials : List Credential
  pub campaign_credentials : List CampaignCredential
  pub emails : List CampaignEmail
  pub next_email_id : ℕ
  pub blacklist : List BlacklistRow

abbrev pub has_id : ℕ → CampaignEmail → Bool
has_id i e = e.id == i

abbrev pub has_status : EmailStatus → CampaignEmail → Bool
has_status st e = status_code e.status == status_code st

abbrev pub is_of : ℕ → CampaignEmail → Bool
is_of c e = e.campaign_id == c

-- `add_to_blacklist`: the column email is unique, so a known address is an IntegrityError.
unfoldable pub add_to_blacklist : Text → Text → Option Text → Database → Bool × Database
add_to_blacklist email domain reason db =
    let row : BlacklistRow = record {
      email = lower email;
      domain = lower domain;
      reason = reason;
    } in
    if any (λ (b : BlacklistRow). text_eq b.email (lower email)) db.blacklist
    then (false, db)
    else (true, record db { blacklist = db.blacklist ++ row ∷ [] })

-- `get_campaign`: an SQL comparison with NULL is IS NULL for None.
unfoldable pub get_campaign : ℕ → Option ℕ → Bool → Database → Option Campaign
get_campaign id owner view_all db =
    Table.first (λ (c : Campaign). c.id == id && (view_all || opt_eq c.owner_id owner)) db.campaigns

unfoldable pub update_campaign_status :
    ℕ → CampaignStatus → Option Text → Database → Bool × Database
update_campaign_status id new_status reason db =
    let hit : Campaign → Bool = λ c. c.id == id in
    (
      ltb 0 (Table.count hit db.campaigns),
      record db {
        campaigns =
            Table.update hit
              (λ (c : Campaign). record c { status = new_status; pause_reason = reason })
              db.campaigns;
      },
    )

abbrev new_assignment : ℕ → ℕ → CampaignCredential
new_assignment id cid = record { campaign_id = id; credential_id = cid }

set_pool : CampaignKind → ℕ → List ℕ → Database → Database
set_pool test id ids db = record db {
  campaigns =
      Table.update (λ (c : Campaign). c.id == id)
        (λ (c : Campaign). record c {
          test_credential_id = elim ids [ [] ↦ none | x ∷ xs ↦ some x ];
        })
        db.campaigns;
}
set_pool production id ids db = record db {
  campaign_credentials =
      Table.delete (λ (r : CampaignCredential). r.campaign_id == id) db.campaign_credentials
      ++ map (new_assignment id) ids;
}

unfoldable pub set_campaign_credentials : ℕ → List ℕ → Database → Database
unfolding set_pool
set_campaign_credentials id ids db =
    elim (Table.first (λ (c : Campaign). c.id == id) db.campaigns) [
      | none ↦ db
      | some c ↦ set_pool c.kind id ids db
    ]

-- An id of 0 is falsy.
abbrev pub test_pool : Option ℕ → List ℕ
test_pool none = []
test_pool (some i) = if i == 0 then [] else i ∷ []

abbrev pub assigned : CampaignKind → Option ℕ → List ℕ → List ℕ
assigned test id pool = test_pool id
assigned production id pool = pool

unfoldable pub get_campaign_credential_ids : ℕ → Database → List ℕ
get_campaign_credential_ids id db = elim (Table.first (λ (c : Campaign). c.id == id) db.campaigns) [
  | none ↦ []
  | some c ↦ assigned c.kind c.test_credential_id (
      map (λ (r : CampaignCredential). r.credential_id)
        (Table.select (λ (r : CampaignCredential). r.campaign_id == id) db.campaign_credentials))
]

-- `or_(cooldown_until is None, cooldown_until < now)`: the first test is Python's identity test on the
-- column object, which is False, and NULL < now is not true.
abbrev pub is_cooled : ℕ → Option ℕ → Bool
is_cooled now none = false
is_cooled now (some t) = ltb t now

unfoldable pub get_credentials_by_ids : List ℕ → ℕ → Database → List Credential
get_credentials_by_ids ids now db =
    if is_empty ids
    then []
    else Table.select
        (λ (c : Credential).
          any (λ (i : ℕ). i == c.id) ids && c.is_active && is_cooled now c.cooldown_until)
        db.credentials

unfoldable pub get_active_credentials : ℕ → Database → List Credential
get_active_credentials now db =
    Table.select (λ (c : Credential). c.is_active && is_cooled now c.cooldown_until) db.credentials

unfoldable pub disable_credential : ℕ → Database → Database
disable_credential id db = record db {
  credentials =
      Table.update (λ (c : Credential). c.id == id)
        (λ (c : Credential). record c { is_active = false }) db.credentials;
}

unfoldable pub set_credential_cooldown : ℕ → ℕ → Database → Database
set_credential_cooldown id until db = record db {
  credentials =
      Table.update (λ (c : Credential). c.id == id)
        (λ (c : Credential). record c { cooldown_until = some until }) db.credentials;
}

abbrev pub sent_since : ℕ → Option ℕ → Bool
sent_since start none = false
sent_since start (some t) = leb start t

-- Midnight (UTC) of today, in seconds.
abbrev pub today_start : ℕ → ℕ
today_start now = now / 86400 * 86400

abbrev pub is_sent_today : ℕ → ℕ → CampaignEmail → Bool
is_sent_today cred now e =
    opt_eq e.credential_id (some cred)
    && has_status sent e
    && sent_since (today_start now) e.sent_at

unfoldable pub get_credential_sent_count_today : ℕ → ℕ → Database → ℕ
get_credential_sent_count_today cred now db = Table.count (is_sent_today cred now) db.emails
