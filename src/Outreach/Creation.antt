-- ===== src/Outreach/Creation.antt =====
-- cloud/api/campaigns.py: the creation of a campaign with its drafts, and drafts for more leads.
use gov_crawler.Base.{
  ℕ, suc, Bool, true, false, Option, none, some, List, [], ◌∷◌, ◌++◌, map, ◌==◌, if◌then◌else◌,
}
use gov_crawler.Base.Table
use gov_crawler.Base.Http.{Response, ok, http_error}
use gov_crawler.Base.Text.{Text, codes, any, all, is_empty, text_eq}
use gov_crawler.Leads.{Lead}
use gov_crawler.Outreach.{
  CampaignStatus, paused, CampaignKind, production, test, Campaign, CampaignEmail, Database, is_of,
  set_campaign_credentials,
}
use gov_crawler.Outreach.Emails.{NewEmail, bulk_create_campaign_emails}
use gov_crawler.Outreach.Drafts.{
  Renderer, Template, Vars, render_template_string, or_else, is_blacklisted,
  get_blacklisted_emails_set, get_blacklisted_domains_set, render_draft_emails,
}
use gov_crawler.Outreach.Campaigns.{
  Site, Call, with_outreach, log, campaign_text, with_owned, bad, is_cancelled,
}

pub record DummyDetails : Type 0 where
  pub name : Option Text
  pub designation : Option Text
  pub email : Text
  pub department : Option Text

-- A validated CampaignCreate: the lists are not empty.
pub record ProductionCampaign : Type 0 where
  pub template_id : ℕ
  pub lead_ids : List ℕ
  pub credential_ids : List ℕ

pub record TestCampaign : Type 0 where
  pub template_id : ℕ
  pub dummy_details : List DummyDetails
  pub test_credential_id : Option ℕ

unfoldable pub get_template : ℕ → Site → Option Template
get_template id site = Table.first (λ (t : Template). t.id == id) site.templates

-- `get_all_leads_for_export(lead_ids=...)` for ids that are given.
unfoldable pub leads_with_ids : List ℕ → Site → List Lead
leads_with_ids ids site = Table.select (λ (l : Lead). any (λ (i : ℕ). i == l.id) ids) site.leads

-- `lead_id_by_email`; addresses are unique.
unfoldable pub lead_id_by_email : List Lead → Text → Option ℕ
lead_id_by_email [] email = none
lead_id_by_email (l ∷ ls) email =
    let more = lead_id_by_email ls email in if text_eq l.email email then some l.id else more

-- The mixin's `create_campaign`.
unfoldable pub insert_campaign : CampaignKind → ℕ → Option ℕ → CampaignStatus → ℕ → Site → ℕ × Site
insert_campaign kind template_id test_credential_id status owner site =
    let campaign : Campaign = record {
      id = site.next_campaign_id;
      template_id = template_id;
      kind = kind;
      test_credential_id = test_credential_id;
      status = status;
      owner_id = some owner;
      pause_reason = none;
    } in
    (
      site.next_campaign_id,
      record site {
        outreach = record site.outreach { campaigns = site.outreach.campaigns ++ campaign ∷ [] };
        next_campaign_id = suc site.next_campaign_id;
      },
    )

abbrev render_vars : DummyDetails → Vars
render_vars d =
    (codes "name", or_else d.name (codes "Official"))
    ∷ (codes "designation", or_else d.designation [])
    ∷ (codes "department", or_else d.department [])
    ∷ []

abbrev dummy_email : Renderer → Template → DummyDetails → NewEmail
dummy_email render template d = record {
  lead_id = none;
  recipient_email = d.email;
  subject = render_template_string render template.subject (render_vars d);
  body = render_template_string render template.raw_body (render_vars d);
  is_selected = none;
  missing_fields = none;
}

-- `create_campaign_email` of each recipient, one row after another.
unfoldable pub create_test_campaign : Renderer → TestCampaign → Call → Site → Response ℕ × Site
create_test_campaign render req call site = elim (get_template req.template_id site) [
  | none ↦ (http_error 404 (codes "Template not found"), site)
  | some template ↦
      let made =
        insert_campaign test req.template_id req.test_credential_id paused call.user.id site in
      let staged =
        bulk_create_campaign_emails made.0 (map (dummy_email render template) req.dummy_details)
          made.1.outreach in
      (
        ok made.0,
        log (codes "campaign.create") campaign_text made.0 call (with_outreach staged.1 made.1),
      )
]

abbrev pub assign_credentials : ℕ → List ℕ → Database → Database
assign_credentials id ids db = if is_empty ids then db else set_campaign_credentials id ids db

-- The drafts of leads for a campaign, without those of recipients to exclude.
unfoldable pub drafts_for :
    Renderer → Template → List Lead → List Text → Site → List NewEmail × ℕ × ℕ
drafts_for render template leads exclude site =
    render_draft_emails render leads template (get_blacklisted_emails_set site.outreach)
      (lead_id_by_email leads) (get_blacklisted_domains_set site.outreach) exclude

abbrev pub all_blacklisted : List Lead → Site → Bool
all_blacklisted leads site =
    all
      (λ (l : Lead).
        is_blacklisted l.email (get_blacklisted_emails_set site.outreach)
          (get_blacklisted_domains_set site.outreach))
      leads

unfoldable pub create_production_campaign :
    Renderer → ProductionCampaign → Call → Site → Response ℕ × Site
create_production_campaign render req call site = elim (get_template req.template_id site) [
  | none ↦ (http_error 404 (codes "Template not found"), site)
  | some template ↦
      let leads = leads_with_ids req.lead_ids site in
      let made = insert_campaign production req.template_id none paused call.user.id site in
      let drafts = drafts_for render template leads [] site in
      let staged = bulk_create_campaign_emails made.0 drafts.0 made.1.outreach in
      if is_empty leads
      then (http_error 404 (codes "No matching leads found"), site)
      else if all_blacklisted leads site
      then (http_error 422 (codes "All leads are blacklisted. No emails to stage."), site)
      else (
        ok made.0,
        log (codes "campaign.create") campaign_text made.0 call
            (with_outreach (assign_credentials made.0 req.credential_ids staged.1) made.1),
      )
]

unfoldable pub get_campaign_recipient_emails : ℕ → Site → List Text
get_campaign_recipient_emails id site =
    map (λ (e : CampaignEmail). e.recipient_email) (Table.select (is_of id) site.outreach.emails)

abbrev pub is_test : CampaignKind → Bool
is_test test = true
is_test production = false

-- The drafts of the leads that the campaign does not write to yet, and their number.
unfoldable pub stage_more : Renderer → ℕ → Template → List ℕ → Call → Site → Response ℕ × Site
stage_more render id template lead_ids call site =
    let leads = leads_with_ids lead_ids site in
    let drafts = drafts_for render template leads (get_campaign_recipient_emails id site) site in
    let staged = bulk_create_campaign_emails id drafts.0 site.outreach in
    if is_empty leads then (http_error 404 (codes "No matching leads found"), site) else (
      ok staged.0,
      log (codes "campaign.add_emails") campaign_text id call (with_outreach staged.1 site),
    )

unfoldable pub add_emails_to_campaign : Renderer → ℕ → List ℕ → Call → Site → Response ℕ × Site
add_emails_to_campaign render id lead_ids call site = with_owned id call site (λ (c : Campaign).
    if is_test c.kind
    then bad (codes "Cannot add leads to a test campaign") site
    else if is_cancelled c.status
    then bad (codes "Cannot add emails to a cancelled campaign") site
    else if is_empty lead_ids
    then bad (codes "lead_ids is empty") site
    else elim (get_template c.template_id site) as (λ _. Response ℕ × Site) [
      | none ↦ (http_error 404 (codes "Campaign template not found"), site)
      | some template ↦ stage_more render id template lead_ids call site
    ])
