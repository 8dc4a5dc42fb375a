-- ===== src/Outreach/Listings.antt =====
-- cloud/db/mixins/outreach_mixin.py and cloud/api/campaigns.py: the paged lists of campaigns, of the
-- emails of a campaign and of the blacklist. Rows are numbered in the order of their creation.
pub mod Complete
use gov_crawler.Base.{
  ℕ, ◌+◌, ◌-◌, ◌*◌, ◌/◌, ◌≤◌, ◌≡◌, Bool, true, false, ◌&&◌, ◌||◌, Option, none, some, List, [], ◌∷◌,
  ◌++◌, if◌then◌else◌, ltb, length, opt_eq,
}
use gov_crawler.Base.Table
use gov_crawler.Base.Pages.{paginate}
use gov_crawler.Outreach.{
  Campaign, CampaignKind, production, test, CampaignEmail, EmailStatus, BlacklistRow, Database,
  is_of, has_status,
}

unfoldable pub newest_first {ℓ} : {A : Type ℓ} → List A → List A
newest_first [] = []
newest_first (x ∷ xs) = newest_first xs ++ x ∷ []

abbrev same_kind : Option CampaignKind → CampaignKind → Bool
same_kind none kind = true
same_kind (some production) production = true
same_kind (some production) test = false
same_kind (some test) production = false
same_kind (some test) test = true

abbrev pub is_listed : Option CampaignKind → Option ℕ → Bool → Campaign → Bool
is_listed kind owner_id view_all c =
    same_kind kind c.kind && (view_all || opt_eq c.owner_id owner_id)

unfoldable pub list_campaigns :
    ℕ → ℕ → Option CampaignKind → Option ℕ → Bool → Database → List Campaign × ℕ
list_campaigns page limit kind owner_id view_all db =
    let rows = Table.select (is_listed kind owner_id view_all) db.campaigns in
    (paginate page limit (newest_first rows), length rows)

abbrev of_state : Option EmailStatus → CampaignEmail → Bool
of_state none e = true
of_state (some st) e = has_status st e

abbrev pub in_list : ℕ → Option EmailStatus → CampaignEmail → Bool
in_list campaign_id status e = is_of campaign_id e && of_state status e

unfoldable pub get_campaign_emails :
    ℕ → Option EmailStatus → ℕ → ℕ → Database → List CampaignEmail × ℕ
get_campaign_emails campaign_id status page limit db =
    let rows = Table.select (in_list campaign_id status) db.emails in
    (paginate page limit rows, length rows)

unfoldable pub list_blacklist : ℕ → ℕ → Database → List BlacklistRow × ℕ
list_blacklist page limit db =
    (paginate page limit (newest_first db.blacklist), length db.blacklist)

-- `max(1, (total + limit - 1) // limit)`
unfoldable pub page_count : ℕ → ℕ → ℕ
page_count total limit = let pages = (total + limit - 1) / limit in if ltb pages 1 then 1 else pages
