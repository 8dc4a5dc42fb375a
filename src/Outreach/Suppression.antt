-- ===== src/Outreach/Suppression.antt =====
-- What the routes that create a campaign or add to it write to campaign_emails.
use gov_crawler.Base.{
  ℕ, ◌≡◌, refl, Bool, true, false, Option, none, some, List, [], ◌==◌, if◌then◌else◌,
}
use gov_crawler.Base.Table
use gov_crawler.Base.Http.{Response, ok, http_error}
use gov_crawler.Base.Text.{Text, codes, is_empty}
use gov_crawler.Leads.{Lead}
use gov_crawler.Outreach.{
  Campaign, CampaignEmail, CampaignKind, production, test, paused, Database,
  set_campaign_credentials, set_pool,
}
use gov_crawler.Outreach.Emails.{bulk_create_campaign_emails}
use gov_crawler.Outreach.Drafts.{Renderer, Template}
use gov_crawler.Outreach.Campaigns.{
  Site, Call, log, campaign_text, with_outreach, with_owned, get_owned_campaign, is_cancelled, bad,
}
use gov_crawler.Outreach.Creation.{
  is_test, ProductionCampaign, get_template, leads_with_ids, drafts_for, insert_campaign,
  assign_credentials, all_blacklisted, create_production_campaign, get_campaign_recipient_emails,
  stage_more, add_emails_to_campaign,
}
use gov_crawler.Outreach.Added.{Adds, Adds-none, Allowed, staged-Adds}

set_campaign_credentials-emails :
    (id : ℕ) (ids : List ℕ) (db : Database)
    → (set_campaign_credentials id ids db).emails ≡ db.emails
unfolding set_campaign_credentials set_pool
set_campaign_credentials-emails id ids db =
    go (Table.first (λ (c : Campaign). c.id == id) db.campaigns)
  where
    pool : (k : CampaignKind) → (set_pool k id ids db).emails ≡ db.emails
    pool production = refl
    pool test = refl

    go :
        (o : Option Campaign)
        → (elim o as (λ _. Database) [ none ↦ db | some c ↦ set_pool c.kind id ids db ]).emails
          ≡ db.emails
    go none = refl
    go (some c) = pool c.kind

-- The emails of the site that one of two results leaves.
branch-Adds :
    (P : Text → Type 0) (es : List CampaignEmail) (b : Bool) (x y : Response ℕ × Site)
    → Adds P es x.1.outreach.emails
    → Adds P es y.1.outreach.emails
    → Adds P es (if b then x else y).1.outreach.emails
branch-Adds P es true x y p q = p
branch-Adds P es false x y p q = q

-- The creation of a campaign from leads adds drafts only, and none to a recipient whose address or
-- domain is on the blacklist.
pub create_production_campaign-Adds :
    (render : Renderer) (req : ProductionCampaign) (call : Call) (site : Site)
    → Adds
        (Allowed [] site)
        site.outreach.emails
        ((create_production_campaign render req call site).1.outreach.emails)
unfolding create_production_campaign insert_campaign
create_production_campaign-Adds render req call site = go (get_template req.template_id site)
  where
    P : Text → Type 0
    P = Allowed [] site

    leads : List Lead
    leads = leads_with_ids req.lead_ids site

    made : ℕ × Site
    made = insert_campaign production req.template_id none paused call.user.id site

    staged : Template → Database
    staged t =
        (bulk_create_campaign_emails made.0 (drafts_for render t leads [] site).0 made.1.outreach).1

    assigned :
        (t : Template)
        → Adds P site.outreach.emails
            (assign_credentials made.0 req.credential_ids (staged t)).emails
    assigned t = pick (is_empty req.credential_ids)
      where
        base : Adds P site.outreach.emails (staged t).emails
        base = staged-Adds render t leads [] site made.0 made.1.outreach

        pick :
            (b : Bool)
            → Adds P site.outreach.emails
                (if b
                  then staged t
                  else set_campaign_credentials made.0 req.credential_ids (staged t)).emails
        pick true = base
        pick false = rw (set_campaign_credentials-emails made.0 req.credential_ids (staged t)) base

    finished : Template → Response ℕ × Site
    finished t = (
      ok made.0,
      log (codes "campaign.create") campaign_text made.0 call
          (with_outreach (assign_credentials made.0 req.credential_ids (staged t)) made.1),
    )

    go :
        (o : Option Template)
        → Adds P site.outreach.emails
            (elim o as (λ _. Response ℕ × Site) [
              | none ↦ (http_error 404 (codes "Template not found"), site)
              | some t ↦
                  if is_empty leads
                  then (http_error 404 (codes "No matching leads found"), site)
                  else if all_blacklisted leads site
                  then (
                    http_error 422 (codes "All leads are blacklisted. No emails to stage."),
                    site,
                  )
                  else finished t
            ]).1.outreach.emails
    go none = Adds-none P site.outreach.emails
    go (some t) =
        branch-Adds P site.outreach.emails (is_empty leads)
          (http_error 404 (codes "No matching leads found"), site)
          (if all_blacklisted leads site
            then (http_error 422 (codes "All leads are blacklisted. No emails to stage."), site)
            else finished t)
          (Adds-none P site.outreach.emails)
          (branch-Adds P site.outreach.emails (all_blacklisted leads site)
            (http_error 422 (codes "All leads are blacklisted. No emails to stage."), site)
            (finished t) (Adds-none P site.outreach.emails) (assigned t))

stage_more-Adds :
    (render : Renderer) (id : ℕ) (t : Template) (ids : List ℕ) (call : Call) (site : Site)
    → Adds
        (Allowed (get_campaign_recipient_emails id site) site)
        site.outreach.emails
        ((stage_more render id t ids call site).1.outreach.emails)
unfolding stage_more
stage_more-Adds render id t ids call site =
    branch-Adds P site.outreach.emails (is_empty leads)
      (http_error 404 (codes "No matching leads found"), site)
      (
        ok staged.0,
        log (codes "campaign.add_emails") campaign_text id call (with_outreach staged.1 site),
      )
      (Adds-none P site.outreach.emails)
      (staged-Adds render t leads (get_campaign_recipient_emails id site) site id site.outreach)
  where
    P : Text → Type 0
    P = Allowed (get_campaign_recipient_emails id site) site

    leads : List Lead
    leads = leads_with_ids ids site

    staged : ℕ × Database
    staged =
        bulk_create_campaign_emails id
          (drafts_for render t leads (get_campaign_recipient_emails id site) site).0 site.outreach

with_owned-Adds :
    (P : Text → Type 0) (es : List CampaignEmail) (id : ℕ) (call : Call) (site : Site)
    → (body : Campaign → Response ℕ × Site) → Adds P es site.outreach.emails
    → ((c : Campaign) → Adds P es (body c).1.outreach.emails)
    → Adds P es (with_owned id call site body).1.outreach.emails
unfolding with_owned
with_owned-Adds P es id call site body refused passed = go (get_owned_campaign id call.user site)
  where
    go :
        (r : Response Campaign)
        → Adds P es
            (elim r as (λ _. Response ℕ × Site) [
              | http_error status detail ↦ (http_error status detail, site)
              | ok c ↦ body c
            ]).1.outreach.emails
    go (http_error status detail) = refused
    go (ok c) = passed c

-- Adding leads to a campaign adds drafts only, and none to a recipient who is on the blacklist or to
-- whom the campaign already writes.
pub add_emails_to_campaign-Adds :
    (render : Renderer) (id : ℕ) (ids : List ℕ) (call : Call) (site : Site)
    → Adds
        (Allowed (get_campaign_recipient_emails id site) site)
        site.outreach.emails
        ((add_emails_to_campaign render id ids call site).1.outreach.emails)
unfolding add_emails_to_campaign
add_emails_to_campaign-Adds render id ids call site =
    with_owned-Adds P site.outreach.emails id call site body same body-Adds
  where
    P : Text → Type 0
    P = Allowed (get_campaign_recipient_emails id site) site

    same : Adds P site.outreach.emails site.outreach.emails
    same = Adds-none P site.outreach.emails

    templated : Option Template → Response ℕ × Site
    templated o = elim o [
      | none ↦ (http_error 404 (codes "Campaign template not found"), site)
      | some t ↦ stage_more render id t ids call site
    ]

    with_template :
        (o : Option Template) → Adds P site.outreach.emails (templated o).1.outreach.emails
    with_template none = same
    with_template (some t) = stage_more-Adds render id t ids call site

    step :
        (b : Bool) (detail : Text) (r : Response ℕ × Site)
        → Adds P site.outreach.emails r.1.outreach.emails
        → Adds P site.outreach.emails (if b then bad detail site else r).1.outreach.emails
    step b detail r h = branch-Adds P site.outreach.emails b (bad detail site) r same h

    body : Campaign → Response ℕ × Site
    body c =
        if is_test c.kind
        then bad (codes "Cannot add leads to a test campaign") site
        else if is_cancelled c.status
        then bad (codes "Cannot add emails to a cancelled campaign") site
        else if is_empty ids
        then bad (codes "lead_ids is empty") site
        else templated (get_template c.template_id site)

    body-Adds : (c : Campaign) → Adds P site.outreach.emails (body c).1.outreach.emails
    body-Adds c =
        step (is_test c.kind) (codes "Cannot add leads to a test campaign")
          (if is_cancelled c.status
            then bad (codes "Cannot add emails to a cancelled campaign") site
            else if is_empty ids
            then bad (codes "lead_ids is empty") site
            else templated (get_template c.template_id site))
          (step (is_cancelled c.status) (codes "Cannot add emails to a cancelled campaign")
            (if is_empty ids
              then bad (codes "lead_ids is empty") site
              else templated (get_template c.template_id site))
            (step (is_empty ids) (codes "lead_ids is empty")
              (templated (get_template c.template_id site))
              (with_template (get_template c.template_id site))))
