-- ===== src/Outreach/Drafts.antt =====
-- cloud/services/campaign_service.py: who gets a draft, and what it says. Jinja2's rendering is a
-- parameter, none where it raises.
use gov_crawler.Base.{
  ℕ, ◌-◌, Bool, true, false, not, ◌||◌, Option, none, some, List, [], ◌∷◌, map, if◌then◌else◌,
  length,
}
use gov_crawler.Base.Table
use gov_crawler.Base.Text.{Text, codes, is_empty, contains, lower, split, text_in}
use gov_crawler.Leads.{Lead, truthy}
use gov_crawler.Outreach.{BlacklistRow, Database}
use gov_crawler.Outreach.Emails.{NewEmail}

-- Names and values of the variables of a template.
abbrev pub Vars : Type 0
Vars = List (Text × Text)

abbrev pub Renderer : Type 0
Renderer = Text → Vars → Option Text

pub record Template : Type 0 where
  pub id : ℕ
  pub subject : Text
  pub raw_body : Text

unfoldable pub render_template_string : Renderer → Text → Vars → Text
render_template_string render template vars = elim (render template vars) [
  | none ↦ template
  | some s ↦ s
]

abbrev at_sign : Text
at_sign = codes "@"

-- `email.split("@")[1] if "@" in email else ""`
abbrev second : List Text → Text
second [] = []
second (_ ∷ []) = []
second (_ ∷ (d ∷ _)) = d

unfoldable pub domain_of : Text → Text
domain_of email = if contains email at_sign then second (split 64 email) else []

unfoldable pub is_blacklisted : Text → List Text → List Text → Bool
is_blacklisted email blacklisted_emails blacklisted_domains =
    text_in (lower email) blacklisted_emails
    || text_in (domain_of (lower email)) blacklisted_domains

unfoldable pub get_blacklisted_emails_set : Database → List Text
get_blacklisted_emails_set db = map (λ (b : BlacklistRow). b.email) db.blacklist

unfoldable pub get_blacklisted_domains_set : Database → List Text
get_blacklisted_domains_set db = map (λ (b : BlacklistRow). b.domain) db.blacklist

-- `x or default`
abbrev pub or_else : Option Text → Text → Text
or_else none default = default
or_else (some t) default = if is_empty t then default else t

abbrev missing_name : Lead → Bool
missing_name l = not (truthy l.person_name)

abbrev missing_designation : Lead → Bool
missing_designation l = not (truthy l.designation)

-- `",".join(missing) if missing else None`
abbrev missing_fields_of : Bool → Bool → Option Text
missing_fields_of false false = none
missing_fields_of true false = some (codes "name")
missing_fields_of false true = some (codes "designation")
missing_fields_of true true = some (codes "name,designation")

abbrev pub subject_vars : Lead → Vars
subject_vars l =
    (codes "name", or_else l.person_name (codes "Official"))
    ∷ (codes "designation", or_else l.designation [])
    ∷ []

abbrev pub body_vars : Lead → Vars
body_vars l =
    (codes "name", or_else l.person_name (codes "[MISSING: name]"))
    ∷ (codes "designation", or_else l.designation (codes "[MISSING: designation]"))
    ∷ []

abbrev pub draft_email : Renderer → Template → Lead → ℕ → NewEmail
draft_email render template l lead_id = record {
  lead_id = some lead_id;
  recipient_email = l.email;
  subject = render_template_string render template.subject (subject_vars l);
  body = render_template_string render template.raw_body (body_vars l);
  is_selected = some (not (missing_name l || missing_designation l));
  missing_fields = missing_fields_of (missing_name l) (missing_designation l);
}

-- The loop: a lead without a known id is passed over.
unfoldable pub draft_emails : Renderer → Template → (Text → Option ℕ) → List Lead → List NewEmail
draft_emails render template lead_id_by_email [] = []
draft_emails render template lead_id_by_email (l ∷ ls) =
    let rest = draft_emails render template lead_id_by_email ls in
    elim (lead_id_by_email l.email) [
      | none ↦ rest
      | some i ↦ draft_email render template l i ∷ rest
    ]

-- The drafts, and the numbers of blacklisted and of excluded leads.
unfoldable pub render_draft_emails :
    Renderer
    → List Lead
    → Template
    → List Text
    → (Text → Option ℕ)
    → List Text
    → List Text
    → List NewEmail × ℕ × ℕ
render_draft_emails render leads template blacklisted_emails lead_id_by_email blacklisted_domains
      exclude_emails =
    let filtered =
      Table.delete (λ (l : Lead). is_blacklisted l.email blacklisted_emails blacklisted_domains)
        leads in
    let excluded : Lead → Bool = λ l. text_in l.email exclude_emails in
    (
      draft_emails render template lead_id_by_email
          (if is_empty exclude_emails then filtered else Table.delete excluded filtered),
      length leads - length filtered,
      Table.count excluded filtered,
    )
