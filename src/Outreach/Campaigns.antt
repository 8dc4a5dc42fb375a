-- ===== src/Outreach/Campaigns.antt =====
-- cloud/api/campaigns.py: the routes that create, change and start campaigns. The dependency that checks
-- the caller's permission has run, and its user is an argument; so are the clock and the caller's
-- address. Leads come in the order of their ids, where the query sorts them by domain.
use gov_crawler.Base.{
  ℕ, Bool, true, false, ◌&&◌, ◌||◌, Option, none, some, List, ◌∷◌, ◌++◌, ◌==◌, if◌then◌else◌,
}
use gov_crawler.Base.Http.{Response, ok, http_error}
use gov_crawler.Base.Text.{Text, codes, is_empty, strip, text_eq}
use gov_crawler.Auth.{AuthDb}
use gov_crawler.Auth.Guard.{CurrentUser, can, forbid_unless_owner}
use gov_crawler.Auth.Routes.{audit}
use gov_crawler.Leads.{Lead}
use gov_crawler.Outreach.{
  CampaignStatus, running, paused, cancelled, completed, CampaignKind, production, test, Campaign,
  CampaignEmail, Database, get_campaign, get_campaign_credential_ids, get_active_credentials,
  get_credentials_by_ids, is_of,
}
use gov_crawler.Outreach
use gov_crawler.Outreach.Emails
use gov_crawler.Outreach.Emails.{NewEmail, Stats, get_campaign_stats, bulk_create_campaign_emails}
use gov_crawler.Outreach.Dispatcher.{resolve_credential_pool}
use gov_crawler.Outreach.Drafts.{Template}

-- What the routes read and write: the outreach tables, accounts with the audit trail, templates, leads
-- and the dispatch tasks of this process.
pub record Site : Type 0 where
  pub outreach : Database
  pub accounts : AuthDb
  pub templates : List Template
  pub leads : List Lead
  pub next_campaign_id : ℕ
  pub active_campaign_tasks : List ℕ

-- The caller, its address and the clock.
pub record Call : Type 0 where
  pub user : CurrentUser
  pub ip : Option Text
  pub now : ℕ

abbrev pub with_outreach : Database → Site → Site
with_outreach db site = record site { outreach = db }

abbrev pub log : Text → Text → ℕ → Call → Site → Site
log action target id call site = record site {
  accounts = audit call.user.id action target id call.ip call.now site.accounts;
}

abbrev pub campaign_text : Text
campaign_text = codes "campaign"

abbrev email_text : Text
email_text = codes "campaign_email"

-- `_get_visible_campaign`
unfoldable pub get_visible_campaign : ℕ → CurrentUser → Site → Response Campaign
get_visible_campaign id user site =
    elim (get_campaign id (some user.id) (can (codes "campaigns.view_all") user) site.outreach) [
      | none ↦ http_error 404 (codes "Campaign not found")
      | some c ↦ ok c
    ]

abbrev pub check_owner : Campaign → Response {0} Unit → Response Campaign
check_owner c (ok _) = ok c
check_owner c (http_error status detail) = http_error status detail

-- `_get_owned_campaign`
unfoldable pub get_owned_campaign : ℕ → CurrentUser → Site → Response Campaign
get_owned_campaign id user site = elim (get_campaign id none true site.outreach) [
  | none ↦ http_error 404 (codes "Campaign not found")
  | some c ↦ check_owner c (forbid_unless_owner c.owner_id user none)
]

-- A route that starts with `_get_owned_campaign`.
unfoldable pub with_owned : ℕ → Call → Site → (Campaign → Response ℕ × Site) → Response ℕ × Site
with_owned id call site body = elim (get_owned_campaign id call.user site) [
  | http_error status detail ↦ (http_error status detail, site)
  | ok c ↦ body c
]

abbrev pub is_cancelled : CampaignStatus → Bool
is_cancelled cancelled = true
is_cancelled _ = false

abbrev is_over : CampaignStatus → Bool
is_over cancelled = true
is_over completed = true
is_over _ = false

abbrev is_running : CampaignStatus → Bool
is_running running = true
is_running _ = false

abbrev pub bad : Text → Site → Response ℕ × Site
bad detail site = (http_error 400 detail, site)

-- The detail of the refusal tells an empty pool from an exhausted one.
abbrev no_credentials : Bool → Text
no_credentials true =
    codes "No active SMTP credentials available for this campaign. Add or activate one in Settings."
no_credentials false =
    codes "All SMTP credentials assigned to this campaign have hit their daily send limit, "
    ++ codes "are cooling down, or are disabled. Try again later, or adjust the limit in Settings."

unfoldable pub start_dispatch : ℕ → Campaign → Call → Bool → Site → Response ℕ × Site
start_dispatch id c call external site =
    let stats = get_campaign_stats id site.outreach in
    let assigned_ids = get_campaign_credential_ids id site.outreach in
    let raw_creds =
      if is_empty assigned_ids
      then get_active_credentials call.now site.outreach
      else get_credentials_by_ids assigned_ids call.now site.outreach in
    let usable_creds = resolve_credential_pool assigned_ids call.now site.outreach in
    if stats.draft == 0 && stats.queued == 0
    then bad
        (codes "No selected draft or queued emails to dispatch. Select at least one email first.")
        site
    else if is_running c.status
    then (http_error 409 (codes "Campaign is already running"), site)
    else if is_empty usable_creds
    then bad (no_credentials (is_empty raw_creds)) site
    else (
      ok id,
      log (codes "campaign.dispatch") campaign_text id call (record site {
        outreach = (Outreach.update_campaign_status id running none site.outreach).1;
        active_campaign_tasks =
            if external then site.active_campaign_tasks else id ∷ site.active_campaign_tasks;
      }),
    )

unfoldable pub dispatch_campaign : ℕ → Bool → Call → Site → Response ℕ × Site
dispatch_campaign id external call site =
    with_owned id call site (λ (c : Campaign). start_dispatch id c call external site)

unfoldable pub update_campaign_credentials : ℕ → List ℕ → Call → Site → Response ℕ × Site
update_campaign_credentials id credential_ids call site = with_owned id call site (λ (c : Campaign).
    if is_over c.status
    then bad (codes "Cannot change SMTP credentials on a cancelled or completed campaign") site
    else (
      ok id,
      log (codes "campaign.set_credentials") campaign_text id call
          (with_outreach (Outreach.set_campaign_credentials id credential_ids site.outreach) site),
    ))

-- `CampaignStatus(req.status)`, none for another text.
unfoldable pub parse_status : Text → Option CampaignStatus
parse_status s =
    if text_eq s (codes "RUNNING")
    then some running
    else if text_eq s (codes "PAUSED")
    then some paused
    else if text_eq s (codes "CANCELLED")
    then some cancelled
    else if text_eq s (codes "COMPLETED")
    then some completed
    else none

unfoldable pub update_campaign_status : ℕ → Text → Call → Site → Response ℕ × Site
update_campaign_status id status call site = with_owned id call site (λ (c : Campaign).
    elim (parse_status status) as (λ _. Response ℕ × Site) [
      | none ↦
          bad
            (codes "Invalid status '"
              ++ status
              ++ codes "'. Must be one of: ['RUNNING', 'PAUSED', 'CANCELLED', 'COMPLETED']")
            site
      | some new_status ↦ (
        ok id,
        log (codes "campaign.set_status") campaign_text id call (
            with_outreach (Outreach.update_campaign_status id new_status none site.outreach).1
              site),
      )
    ])

-- The result of an operation on one email, which is audited where `action` is given.
abbrev not_editable : Option Text → Text
not_editable none = codes "Email not found or not in an editable status"
not_editable (some action) = codes "Email not found or not in DRAFT status"

abbrev pub email_response : Option Text → ℕ → Call → Site → Bool × Database → Response ℕ × Site
email_response action email_id call site (false, db) =
    (http_error 404 (not_editable action), with_outreach db site)
email_response none email_id call site (true, db) = (ok email_id, with_outreach db site)
email_response (some action) email_id call site (true, db) =
    (ok email_id, log action email_text email_id call (with_outreach db site))

unfoldable pub update_campaign_email : ℕ → ℕ → Text → Text → Call → Site → Response ℕ × Site
update_campaign_email id email_id subject body call site =
    with_owned id call site (λ (c : Campaign).
      if is_cancelled c.status
      then bad (codes "Cannot edit emails in a cancelled campaign") site
      else if is_empty (strip body) || is_empty (strip subject)
      then bad (codes "Subject and Body cannot be empty") site
      else email_response (some (codes "campaign.email_update")) email_id call site
          (Emails.update_email email_id subject body site.outreach))

unfoldable pub toggle_email_selection : ℕ → ℕ → Bool → Call → Site → Response ℕ × Site
toggle_email_selection id email_id is_selected call site =
    with_owned id call site (λ (c : Campaign).
      if is_cancelled c.status
      then bad (codes "Cannot modify emails in a cancelled campaign") site
      else email_response none email_id call site
          (Emails.set_email_selection email_id is_selected site.outreach))

unfoldable pub bulk_toggle_email_selection : ℕ → Bool → Call → Site → Response ℕ × Site
bulk_toggle_email_selection id is_selected call site = with_owned id call site (λ (c : Campaign).
    let done = Emails.set_all_email_selection id is_selected site.outreach in
    if is_cancelled c.status
    then bad (codes "Cannot modify emails in a cancelled campaign") site
    else (ok done.0, with_outreach done.1 site))

unfoldable pub delete_campaign_email : ℕ → ℕ → Call → Site → Response ℕ × Site
delete_campaign_email id email_id call site = with_owned id call site (λ (c : Campaign).
    if is_cancelled c.status
    then bad (codes "Cannot modify emails in a cancelled campaign") site
    else email_response (some (codes "campaign.email_delete")) email_id call site
        (Emails.delete_campaign_email email_id site.outreach))
