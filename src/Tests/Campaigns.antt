-- ===== src/Tests/Campaigns.antt =====
-- Campaigns: one of the operator with an email, one of another user, and a lead whose domain is on the
-- blacklist beside one whose domain is not.
use gov_crawler.Base.{
  arith, ◌≤◌, ℕ, ◌+◌, ◌≡◌, refl, true, false, ◌||◌, none, some, [], ◌∷◌, length, All,
}
use gov_crawler.Base.Table
use gov_crawler.Base.Http.{ok, is_ok}
use gov_crawler.Base.Text.{codes, is_empty, strip}
use gov_crawler.Leads.{Lead}
use gov_crawler.Outreach.{
  Campaign, production, paused, CampaignEmail, draft, BlacklistRow, Database, has_id,
}
use gov_crawler.Outreach.Emails.{NewEmail}
use gov_crawler.Outreach.Drafts.{Renderer, Template}
use gov_crawler.Outreach.Campaigns.{Site, Call, get_owned_campaign, update_campaign_email}
use gov_crawler.Outreach.Creation.{
  ProductionCampaign, create_production_campaign, get_campaign_recipient_emails, drafts_for,
  add_emails_to_campaign,
}
use gov_crawler.Outreach.Ownership.{
  edits_email, handle, owns_campaign, handle-stranger, update_campaign_email-any,
}
use gov_crawler.Base.Pages.{all_pages}
use gov_crawler.Outreach.Listings.{get_campaign_emails, page_count}
use gov_crawler.Outreach.Listings.Complete.{Wanted, Picks, get_campaign_emails_complete}
use gov_crawler.Outreach.Added.{Adds, Allowed, drafts_for-Allowed}
use gov_crawler.Outreach.Suppression.{create_production_campaign-Adds, add_emails_to_campaign-Adds}
use gov_crawler.Tests.Accounts.{office, clerk_user}
use gov_crawler.Tests.Uploads.{crawled}

abbrev letter : Template
letter = record { id = 1; subject = codes "Hello"; raw_body = codes "Dear {{ name }}" }

-- A renderer that returns the template.
abbrev plain : Renderer
plain template vars = some template

abbrev other_lead : Lead
other_lead = record crawled { id = 2; email = codes "c@d.in" }

abbrev barred : BlacklistRow
barred = record { email = codes "x@b.in"; domain = codes "b.in"; reason = none }

abbrev campaign_of : ℕ → ℕ → Campaign
campaign_of id owner = record {
  id = id;
  template_id = 1;
  kind = production;
  test_credential_id = none;
  status = paused;
  owner_id = some owner;
  pause_reason = none;
}

-- An email of the campaign of user 7.
abbrev foreign_email : CampaignEmail
foreign_email = record {
  id = 5;
  campaign_id = 2;
  lead_id = none;
  recipient_email = codes "c@d.in";
  subject = codes "Hello";
  body = codes "Dear Ann";
  status = draft;
  is_selected = true;
  missing_fields = none;
  error_message = none;
  sent_at = none;
  sending_since = none;
  credential_id = none;
}

abbrev site : Site
site = record {
  outreach = record {
    campaigns = campaign_of 1 2 ∷ campaign_of 2 7 ∷ [];
    credentials = [];
    campaign_credentials = [];
    emails = foreign_email ∷ [];
    next_email_id = 6;
    blacklist = barred ∷ [];
  };
  accounts = office none;
  templates = letter ∷ [];
  leads = crawled ∷ other_lead ∷ [];
  next_campaign_id = 3;
  active_campaign_tasks = [];
}

abbrev by_clerk : Call
by_clerk = record { user = clerk_user; ip = none; now = 50 }

drafts_for-Allowed_example :
    let r = drafts_for plain letter (crawled ∷ other_lead ∷ []) [] site in
    All (λ (n : NewEmail). Allowed [] site n.recipient_email) r.0 × (length r.0 + r.1 + r.2 ≡ 2)
drafts_for-Allowed_example = drafts_for-Allowed plain letter (crawled ∷ other_lead ∷ []) [] site

abbrev order : ProductionCampaign
order = record { template_id = 1; lead_ids = 1 ∷ 2 ∷ []; credential_ids = [] }

create_production_campaign-Adds_example :
    Adds
      (Allowed [] site)
      site.outreach.emails
      ((create_production_campaign plain order by_clerk site).1.outreach.emails)
create_production_campaign-Adds_example = create_production_campaign-Adds plain order by_clerk site

add_emails_to_campaign-Adds_example :
    Adds
      (Allowed (get_campaign_recipient_emails 1 site) site)
      site.outreach.emails
      ((add_emails_to_campaign plain 1 (1 ∷ 2 ∷ []) by_clerk site).1.outreach.emails)
add_emails_to_campaign-Adds_example = add_emails_to_campaign-Adds plain 1 (1 ∷ 2 ∷ []) by_clerk site

clerk_stranger : owns_campaign 2 clerk_user site ≡ false
unfolding owns_campaign gov_crawler.Outreach.get_campaign Table.first
clerk_stranger = refl

handle-stranger_example :
    (is_ok ((handle plain 2 (edits_email 5 (codes "a") (codes "b")) by_clerk site).0) ≡ false)
    × ((handle plain 2 (edits_email 5 (codes "a") (codes "b")) by_clerk site).1 ≡ site)
handle-stranger_example =
    handle-stranger plain 2 (edits_email 5 (codes "a") (codes "b")) by_clerk site clerk_stranger
      refl

clerk_owner : get_owned_campaign 1 clerk_user site ≡ ok (campaign_of 1 2)
unfolding get_owned_campaign gov_crawler.Outreach.get_campaign Table.first
    gov_crawler.Auth.Guard.forbid_unless_owner
clerk_owner = refl

not_blank : is_empty (strip (codes "b")) || is_empty (strip (codes "a")) ≡ false
unfolding strip
not_blank = refl

foreign_found : Table.first (has_id 5) site.outreach.emails ≡ some foreign_email
unfolding Table.first
foreign_found = refl

update_campaign_email-any_example :
    Table.first
      (has_id 5)
      ((update_campaign_email 1 5 (codes "a") (codes "b") by_clerk site).1.outreach.emails)
    ≡ some (record foreign_email { subject = codes "a"; body = codes "b" })
update_campaign_email-any_example =
    update_campaign_email-any 1 5 (codes "a") (codes "b") by_clerk site (campaign_of 1 2)
      foreign_email clerk_owner refl not_blank foreign_found

get_campaign_emails_complete_example :
    let total = (get_campaign_emails 2 (some draft) 1 50 site.outreach).1 in
    let pages =
      all_pages
        (λ (n : ℕ). (get_campaign_emails 2 (some draft) n 50 site.outreach).0)
        (page_count total 50) in
    Picks (Wanted 2 (some draft)) site.outreach.emails pages
    × ((get_campaign_emails 2 (some draft) 1 50 site.outreach).1 ≡ length pages)
    × (length (get_campaign_emails 2 (some draft) 1 50 site.outreach).0 ≤ 50)
get_campaign_emails_complete_example =
    get_campaign_emails_complete 2 (some draft) 50 1 site.outreach (omega arith)
