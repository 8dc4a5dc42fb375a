-- ===== src/Outreach/Emails.antt =====
-- cloud/db/mixins/outreach_mixin.py: the operations on campaign_emails.
pub mod Lifecycle
use gov_crawler.Base.{
  ℕ, suc, ◌+◌, ◌-◌, Bool, true, false, not, ◌&&◌, ◌||◌, Option, none, some, List, [], ◌∷◌, ◌++◌,
  map, ltb, leb, ◌==◌, if◌then◌else◌, length, is_some,
}
use gov_crawler.Base.Table
use gov_crawler.Base.Text.{Text, codes}
use gov_crawler.Outreach.{
  EmailStatus, draft, queued, sending, sent, failed, CampaignEmail, Database, has_id, has_status,
  is_of, status_code,
}

-- A dict of `bulk_create_campaign_emails`; is_selected defaults to true.
pub record NewEmail : Type 0 where
  pub lead_id : Option ℕ
  pub recipient_email : Text
  pub subject : Text
  pub body : Text
  pub is_selected : Option Bool
  pub missing_fields : Option Text

abbrev pub selected : Option Bool → Bool
selected none = true
selected (some b) = b

unfoldable pub insert_emails : ℕ → List NewEmail → Database → Database
insert_emails campaign_id [] db = db
insert_emails campaign_id (n ∷ ns) db =
    let row : CampaignEmail = record {
      id = db.next_email_id;
      campaign_id = campaign_id;
      lead_id = n.lead_id;
      recipient_email = n.recipient_email;
      subject = n.subject;
      body = n.body;
      status = draft;
      is_selected = selected n.is_selected;
      missing_fields = n.missing_fields;
      error_message = none;
      sent_at = none;
      sending_since = none;
      credential_id = none;
    } in
    insert_emails campaign_id ns
      (record db { emails = db.emails ++ row ∷ []; next_email_id = suc db.next_email_id })

unfoldable pub bulk_create_campaign_emails : ℕ → List NewEmail → Database → ℕ × Database
unfolding insert_emails
bulk_create_campaign_emails campaign_id ns db = (length ns, insert_emails campaign_id ns db)

-- An UPDATE of the emails, and its row count.
abbrev pub update_emails :
    (CampaignEmail → Bool) → (CampaignEmail → CampaignEmail) → Database → Database
update_emails p f db = record db { emails = Table.update p f db.emails }

unfoldable pub update_email : ℕ → Text → Text → Database → Bool × Database
update_email id new_subject new_body db = (
  ltb 0 (Table.count (has_id id) db.emails),
  update_emails (has_id id)
      (λ (e : CampaignEmail). record e { subject = new_subject; body = new_body }) db,
)

-- The dict of `get_campaign_stats`; a state that no email has counts 0 (the source has no key `sending` then).
pub record Stats : Type 0 where
  pub draft : ℕ
  pub queued : ℕ
  pub sending : ℕ
  pub sent : ℕ
  pub failed : ℕ
  pub skipped : ℕ
  pub total : ℕ

abbrev count_of : ℕ → EmailStatus → Database → ℕ
count_of id st db = Table.count (λ (e : CampaignEmail). is_of id e && has_status st e) db.emails

unfoldable pub get_campaign_stats : ℕ → Database → Stats
get_campaign_stats id db =
    let skipped =
      Table.count (λ (e : CampaignEmail). is_of id e && has_status draft e && not e.is_selected)
        db.emails in
    record {
      draft = count_of id draft db - skipped;
      queued = count_of id queued db;
      sending = count_of id sending db;
      sent = count_of id sent db;
      failed = count_of id failed db;
      skipped = skipped;
      total =
          count_of id draft db
          + (count_of id queued db
              + (count_of id sending db + (count_of id sent db + count_of id failed db)));
    }

-- The row that `set_email_selection` writes.
abbrev pub select_email : Bool → EmailStatus → CampaignEmail → CampaignEmail
select_email false queued e = record e { is_selected = false; status = draft }
select_email is_selected st e = record e { is_selected = is_selected }

abbrev pub is_editable : EmailStatus → Bool
is_editable draft = true
is_editable queued = true
is_editable _ = false

unfoldable pub set_email_selection : ℕ → Bool → Database → Bool × Database
set_email_selection id is_selected db = elim (Table.first (has_id id) db.emails) [
  | none ↦ (false, db)
  | some email ↦
      if is_editable email.status
      then (true, update_emails (has_id id) (select_email is_selected email.status) db)
      else (false, db)
]

abbrev pub of_status : ℕ → EmailStatus → CampaignEmail → Bool
of_status id st e = is_of id e && has_status st e

unfoldable pub set_all_email_selection : ℕ → Bool → Database → ℕ × Database
set_all_email_selection id true db = (
  Table.count (of_status id draft) db.emails,
  update_emails (of_status id draft) (λ (e : CampaignEmail). record e { is_selected = true }) db,
)
set_all_email_selection id false db =
    let db₁ =
      update_emails (of_status id draft) (λ (e : CampaignEmail). record e { is_selected = false })
        db in
    (
      Table.count (of_status id draft) db.emails + Table.count (of_status id queued) db₁.emails,
      update_emails (of_status id queued)
          (λ (e : CampaignEmail). record e { status = draft; is_selected = false }) db₁,
    )

unfoldable pub delete_campaign_email : ℕ → Database → Bool × Database
delete_campaign_email id db =
    let hit : CampaignEmail → Bool = λ e. has_id id e && has_status draft e in
    (ltb 0 (Table.count hit db.emails), record db { emails = Table.delete hit db.emails })

-- The emails that `queue_campaign_emails` flips.
abbrev pub is_ready : ℕ → CampaignEmail → Bool
is_ready id e = is_of id e && has_status draft e && e.is_selected

unfoldable pub queue_campaign_emails : ℕ → Database → ℕ × Database
queue_campaign_emails id db = (
  Table.count (is_ready id) db.emails,
  update_emails (is_ready id) (λ (e : CampaignEmail). record e { status = queued }) db,
)

unfoldable pub has_remaining_drafts : ℕ → Database → Bool
has_remaining_drafts id db = is_some (Table.first (of_status id draft) db.emails)

unfoldable pub has_queued_email : ℕ → Database → Bool
has_queued_email id db = is_some (Table.first (of_status id queued) db.emails)

abbrev pub start_sending : ℕ → CampaignEmail → CampaignEmail
start_sending now e = record e { status = sending; sending_since = some now }

-- `claim_next_queued_email`: the first queued row is there when the UPDATE runs in the same step, so
-- the first of the five tries takes it.
unfoldable pub claim_next_queued_email : ℕ → ℕ → Database → Option CampaignEmail × Database
claim_next_queued_email id now db = elim (Table.first (of_status id queued) db.emails) [
  | none ↦ (none, db)
  | some e ↦ (
    some e,
    update_emails (λ (r : CampaignEmail). has_id e.id r && has_status queued r) (start_sending now)
        db,
  )
]

-- `sending_since < cutoff`, with the cutoff threshold_seconds ago.
abbrev pub is_stuck : ℕ → ℕ → CampaignEmail → Bool
is_stuck threshold now e =
    has_status sending e && elim e.sending_since [ none ↦ false | some t ↦ ltb (t + threshold) now ]

abbrev pub requeued : CampaignEmail → CampaignEmail
requeued e = record e { status = queued; sending_since = none }

unfoldable pub recover_stuck_sending : ℕ → ℕ → Database → List ℕ × Database
recover_stuck_sending threshold now db = (
  map (λ (e : CampaignEmail). e.id) (Table.select (is_stuck threshold now) db.emails),
  update_emails (is_stuck threshold now) requeued db,
)

abbrev pub as_sent : ℕ → Option ℕ → CampaignEmail → CampaignEmail
as_sent now credential_id e = record e {
  status = sent;
  sent_at = some now;
  credential_id = credential_id;
}

unfoldable pub mark_email_sent : ℕ → Option ℕ → ℕ → Database → Database
mark_email_sent id credential_id now db = update_emails (has_id id) (as_sent now credential_id) db

abbrev pub as_failed : Text → Option ℕ → CampaignEmail → CampaignEmail
as_failed message credential_id e = record e {
  status = failed;
  error_message = some message;
  credential_id = credential_id;
}

unfoldable pub mark_email_failed : ℕ → Text → Option ℕ → Database → Database
mark_email_failed id message credential_id db =
    update_emails (has_id id) (as_failed message credential_id) db

unfoldable pub requeue_email : ℕ → Database → Database
requeue_email id db = update_emails (has_id id) requeued db

abbrev pub as_cancelled : CampaignEmail → CampaignEmail
as_cancelled e = record e { status = failed; error_message = some (codes "Campaign cancelled") }

unfoldable pub cancel_remaining_queued : ℕ → Database → ℕ × Database
cancel_remaining_queued id db = (
  Table.count (of_status id queued) db.emails,
  update_emails (of_status id queued) as_cancelled db,
)
