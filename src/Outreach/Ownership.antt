-- ===== src/Outreach/Ownership.antt =====
-- Who may change a campaign.
use gov_crawler.Base.{
  ℕ, ◌≡◌, refl, sym, ap, subst, Bool, true, false, ◌||◌, Option, none, some, List, ltb, ◌==◌,
}
use gov_crawler.Base.Table
use gov_crawler.Base.Http.{Response, ok, http_error, is_ok}
use gov_crawler.Base.Text.{Text, codes, is_empty, strip}
use gov_crawler.Auth.Guard.{CurrentUser, forbid_unless_owner}
use gov_crawler.Base.Table.{first-update, first-eq-some, count-le-length}
use gov_crawler.Outreach.{Campaign, CampaignEmail, Database, get_campaign, has_id}
use gov_crawler.Outreach.Emails.{update_email}
use gov_crawler.Outreach.Drafts.{Renderer}
use gov_crawler.Outreach.Campaigns.{
  Site, Call, is_cancelled, email_response, check_owner, get_owned_campaign, with_owned,
  dispatch_campaign, update_campaign_credentials, update_campaign_status, update_campaign_email,
  toggle_email_selection, bulk_toggle_email_selection, delete_campaign_email,
}
use gov_crawler.Outreach.Creation.{add_emails_to_campaign}

-- A request that changes the campaign with this id.
pub data CampaignRequest : Type 0 where
  dispatches : Bool → CampaignRequest
  sets_credentials : List ℕ → CampaignRequest
  sets_status : Text → CampaignRequest
  edits_email : ℕ → Text → Text → CampaignRequest
  toggles_email : ℕ → Bool → CampaignRequest
  toggles_all : Bool → CampaignRequest
  deletes_email : ℕ → CampaignRequest
  adds_emails : List ℕ → CampaignRequest

unfoldable pub handle : Renderer → ℕ → CampaignRequest → Call → Site → Response ℕ × Site
handle render id (dispatches external) call site = dispatch_campaign id external call site
handle render id (sets_credentials ids) call site = update_campaign_credentials id ids call site
handle render id (sets_status status) call site = update_campaign_status id status call site
handle render id (edits_email e subject body) call site =
    update_campaign_email id e subject body call site
handle render id (toggles_email e b) call site = toggle_email_selection id e b call site
handle render id (toggles_all b) call site = bulk_toggle_email_selection id b call site
handle render id (deletes_email e) call site = delete_campaign_email id e call site
handle render id (adds_emails ids) call site = add_emails_to_campaign render id ids call site

-- Whether the user owns the campaign with this id.
unfoldable pub owns_campaign : ℕ → CurrentUser → Site → Bool
owns_campaign id user site = elim (get_campaign id none true site.outreach) [
  | none ↦ false
  | some c ↦ elim c.owner_id [ none ↦ false | some o ↦ o == user.id ]
]

forbid-stranger :
    (o : Option ℕ) (user : CurrentUser)
    → (elim o [ none ↦ false | some i ↦ i == user.id ]) ≡ false
    → user.is_admin ≡ false
    → forbid_unless_owner o user none ≡ http_error 403 (codes "Insufficient permissions")
unfolding forbid_unless_owner
forbid-stranger none user h plain = rw plain refl
forbid-stranger (some i) user h plain = rw (h, plain) refl

refused :
    (id : ℕ) (user : CurrentUser) (site : Site)
    → owns_campaign id user site ≡ false
    → user.is_admin ≡ false
    → (status : ℕ) × (detail : Text) × (get_owned_campaign id user site ≡ http_error status detail)
unfolding owns_campaign get_owned_campaign forbid_unless_owner
refused id user site stranger plain = go (get_campaign id none true site.outreach) stranger
  where
    go :
        (o : Option Campaign)
        → (elim o [
          | none ↦ false
          | some c ↦ elim c.owner_id [ none ↦ false | some i ↦ i == user.id ]
        ])
          ≡ false
        → (status : ℕ) × (detail : Text) × ((elim o [
          | none ↦ http_error 404 (codes "Campaign not found")
          | some c ↦ check_owner c (forbid_unless_owner c.owner_id user none)
        ])
            ≡ http_error status detail)
    go none h = (404, codes "Campaign not found", refl)
    go (some c) h = (
      403,
      codes "Insufficient permissions",
      ap (check_owner c) (forbid-stranger c.owner_id user h plain),
    )

with_owned-refused :
    (id : ℕ) (call : Call) (site : Site) (body : Campaign → Response ℕ × Site)
    → ((status : ℕ) × (detail : Text) × (get_owned_campaign id call.user site
          ≡ http_error status detail))
    → (is_ok ((with_owned id call site body).0) ≡ false) × ((with_owned id call site body).1 ≡ site)
unfolding with_owned
with_owned-refused id call site body (status, detail, e) = rw (e, with_owned, is_ok) (refl, refl)

-- The route of the campaign's owner.
with_owned-ok :
    (id : ℕ) (call : Call) (site : Site) (body : Campaign → Response ℕ × Site) (c : Campaign)
    → get_owned_campaign id call.user site ≡ ok c
    → with_owned id call site body ≡ body c
unfolding with_owned
with_owned-ok id call site body c e = rw (e, with_owned) refl

-- A user who neither owns the campaign nor is an administrator changes nothing by any of the routes
-- that act on it, and each of them ends with an error.
pub handle-stranger :
    (render : Renderer) (id : ℕ) (r : CampaignRequest) (call : Call) (site : Site)
    → owns_campaign id call.user site ≡ false
    → call.user.is_admin ≡ false
    → (is_ok ((handle render id r call site).0) ≡ false) × ((handle render id r call site).1 ≡ site)
unfolding handle dispatch_campaign update_campaign_credentials update_campaign_status
    update_campaign_email toggle_email_selection bulk_toggle_email_selection delete_campaign_email
    add_emails_to_campaign
handle-stranger render id r call site stranger plain =
    go r (refused id call.user site stranger plain)
  where
    Unchanged : CampaignRequest → Type 0
    Unchanged r =
        (is_ok ((handle render id r call site).0) ≡ false)
        × ((handle render id r call site).1 ≡ site)

    go :
        (r : CampaignRequest)
        → ((status : ℕ) × (detail : Text) × (get_owned_campaign id call.user site
              ≡ http_error status detail))
        → Unchanged r
    go (dispatches external) away = with_owned-refused id call site _ away
    go (sets_credentials ids) away = with_owned-refused id call site _ away
    go (sets_status status) away = with_owned-refused id call site _ away
    go (edits_email i subject body) away = with_owned-refused id call site _ away
    go (toggles_email i b) away = with_owned-refused id call site _ away
    go (toggles_all b) away = with_owned-refused id call site _ away
    go (deletes_email i) away = with_owned-refused id call site _ away
    go (adds_emails ids) away = with_owned-refused id call site _ away

-- The owner of a campaign that is not cancelled can edit an email of any campaign: the route checks
-- the campaign of its address and not that of the email. The new texts are not blank.
pub update_campaign_email-any :
    (id email_id : ℕ) (subject body : Text) (call : Call) (site : Site) (c : Campaign)
    (e : CampaignEmail)
    → get_owned_campaign id call.user site ≡ ok c
    → is_cancelled c.status ≡ false
    → is_empty (strip body) || is_empty (strip subject) ≡ false
    → Table.first (has_id email_id) site.outreach.emails ≡ some e
    → Table.first
        (has_id email_id)
        ((update_campaign_email id email_id subject body call site).1.outreach.emails)
      ≡ some (record e { subject = subject; body = body })
unfolding update_campaign_email update_email
update_campaign_email-any id email_id subject body call site c e owned open_now filled found =
    subst
      (λ (r : Response ℕ × Site). Table.first (has_id email_id) (r.1.outreach.emails) ≡ some edited)
      (sym (with_owned-ok id call site _ c owned))
      (rw (open_now, filled)
        (answered (ltb 0 (Table.count (has_id email_id) site.outreach.emails))))
  where
    edited : CampaignEmail
    edited = record e { subject = subject; body = body }

    edit : CampaignEmail → CampaignEmail
    edit x = record x { subject = subject; body = body }

    after : Database
    after = record site.outreach {
      emails = Table.update (has_id email_id) edit site.outreach.emails;
    }

    replaced : Table.first (has_id email_id) after.emails ≡ some edited
    replaced =
        rw
          (
            first-update (has_id email_id) (has_id email_id) edit (λ (x : CampaignEmail). refl)
                site.outreach.emails,
            found,
            first-eq-some (has_id email_id) e site.outreach.emails found,
          )
          refl

    answered :
        (b : Bool)
        → Table.first (has_id email_id) (
            (email_response
              (some (codes "campaign.email_update"))
              email_id
              call
              site
              (b, after)).1.outreach.emails)
          ≡ some edited
    answered true = replaced
    answered false = replaced
