-- ===== src/Outreach/Added.antt =====
-- The rows that drafts add to campaign_emails.
use gov_crawler.Base.{
  ℕ, suc, ◌+◌, ◌≡◌, refl, sym, ap, ◌∙◌, Bool, true, false, Option, none, some, List, [], ◌∷◌, ◌++◌,
  All, All-imp, is_some, length, if◌then◌else◌,
}
use gov_crawler.Base.Text.{Text, text_eq, text_eq_refl}
use gov_crawler.Leads.{Lead}
use gov_crawler.Outreach.{CampaignEmail, draft, Database}
use gov_crawler.Outreach.Emails.{NewEmail, selected, insert_emails, bulk_create_campaign_emails}
use gov_crawler.Outreach.Drafts.{
  Renderer, Template, get_blacklisted_emails_set, get_blacklisted_domains_set,
}
use gov_crawler.Outreach.Staging.{MayMail, HaveIds, drafts-MayMail, render_draft_emails_account}
use gov_crawler.Outreach.Campaigns.{Site}
use gov_crawler.Outreach.Creation.{lead_id_by_email, drafts_for}

append_assoc : {A : Type 0} (xs ys zs : List A) → (xs ++ ys) ++ zs ≡ xs ++ (ys ++ zs)
append_assoc [] ys zs = refl
append_assoc (x ∷ xs) ys zs = ap (λ (l : List _). x ∷ l) (append_assoc xs ys zs)

append_nil : {A : Type 0} (xs : List A) → xs ++ [] ≡ xs
append_nil [] = refl
append_nil (x ∷ xs) = ap (λ (l : List _). x ∷ l) (append_nil xs)

-- The emails of after are those of before and drafts to recipients of which P holds.
unfoldable pub Adds : (Text → Type 0) → List CampaignEmail → List CampaignEmail → Type 0
Adds P before after =
    (rows : List CampaignEmail) × (after ≡ before ++ rows)
    × All (λ (e : CampaignEmail). P e.recipient_email × (e.status ≡ draft)) rows

pub Adds-none : (P : Text → Type 0) (es : List CampaignEmail) → Adds P es es
unfolding Adds
Adds-none P es = ([], sym (append_nil es), tt)

insert_emails-Adds :
    (P : Text → Type 0) (id : ℕ) (ns : List NewEmail) (db : Database)
    → All (λ (n : NewEmail). P n.recipient_email) ns
    → Adds P db.emails (insert_emails id ns db).emails
unfolding Adds insert_emails
insert_emails-Adds P id [] db h = ([], sym (append_nil db.emails), tt)
insert_emails-Adds P id (n ∷ ns) db h = cons (
    insert_emails-Adds P id ns
      (record db { emails = db.emails ++ row ∷ []; next_email_id = suc db.next_email_id }) h.1)
  where
    row : CampaignEmail
    row = record {
      id = db.next_email_id;
      campaign_id = id;
      lead_id = n.lead_id;
      recipient_email = n.recipient_email;
      subject = n.subject;
      body = n.body;
      status = draft;
      is_selected = selected n.is_selected;
      missing_fields = n.missing_fields;
      error_message = none;
      sent_at = none;
      sending_since = none;
      credential_id = none;
    }

    cons :
        {after : List CampaignEmail}
        → ((rows : List CampaignEmail) × (after ≡ (db.emails ++ row ∷ []) ++ rows)
            × All (λ (e : CampaignEmail). P e.recipient_email × (e.status ≡ draft)) rows)
        → (rows : List CampaignEmail) × (after ≡ db.emails ++ rows)
          × All (λ (e : CampaignEmail). P e.recipient_email × (e.status ≡ draft)) rows
    cons (rows, same, good) =
        (row ∷ rows, same ∙ append_assoc db.emails (row ∷ []) rows, ((h.0, refl), good))

-- An address that the site's blacklist and the campaign's recipients allow.
unfoldable pub Allowed : List Text → Site → Text → Type 0
Allowed exclude site a =
    MayMail (get_blacklisted_emails_set site.outreach) (get_blacklisted_domains_set site.outreach)
      exclude a

pub staged-Adds :
    (render : Renderer) (template : Template) (ls : List Lead) (exclude : List Text) (site : Site)
    → (id : ℕ) (db : Database)
    → Adds (Allowed exclude site) db.emails (
        (bulk_create_campaign_emails id (drafts_for render template ls exclude site).0 db).1.emails)
unfolding bulk_create_campaign_emails drafts_for Allowed
staged-Adds render template ls exclude site id db =
    insert_emails-Adds (Allowed exclude site) id (drafts_for render template ls exclude site).0 db (
      drafts-MayMail (get_blacklisted_emails_set site.outreach)
        (get_blacklisted_domains_set site.outreach) exclude render ls template
        (lead_id_by_email ls))

-- Every lead has an id in the table of its own list.
lead_id_by_email-HaveIds : (ls : List Lead) → HaveIds (lead_id_by_email ls) ls
unfolding lead_id_by_email
lead_id_by_email-HaveIds [] = tt
lead_id_by_email-HaveIds (l ∷ ls) = (
  rw (text_eq_refl l.email) refl,
  All-imp (λ (m : Lead) h. later (text_eq l.email m.email) (lead_id_by_email ls m.email) h) ls
      (lead_id_by_email-HaveIds ls),
)
  where
    later :
        (same : Bool) (o : Option ℕ)
        → is_some o ≡ true
        → is_some (if same then some l.id else o) ≡ true
    later true o h = refl
    later false o h = h

-- The drafts for leads go to addresses alone that are not blacklisted, by address or by domain, and not
-- excluded; and the drafts, the blacklisted and the excluded leads are together as many as the leads.
pub drafts_for-Allowed :
    (render : Renderer) (template : Template) (leads : List Lead) (exclude : List Text)
    (site : Site)
    → let r = drafts_for render template leads exclude site in
      All (λ (n : NewEmail). Allowed exclude site n.recipient_email) r.0
      × (length r.0 + r.1 + r.2 ≡ length leads)
unfolding drafts_for Allowed
drafts_for-Allowed render template leads exclude site =
    let emails = get_blacklisted_emails_set site.outreach in
    let domains = get_blacklisted_domains_set site.outreach in
    (
      drafts-MayMail emails domains exclude render leads template (lead_id_by_email leads),
      render_draft_emails_account render leads template emails (lead_id_by_email leads) domains
          exclude (lead_id_by_email-HaveIds leads),
    )
