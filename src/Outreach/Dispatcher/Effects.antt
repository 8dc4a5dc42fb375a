-- ===== src/Outreach/Dispatcher/Effects.antt =====
-- What the dispatcher writes to the emails in a turn, and which email the server takes.
use gov_crawler.Base.{
  ℕ, ◌+◌, ◌≡◌, refl, sym, ap, Bool, true, false, ◌||◌, Option, none, some, List, [], ◌∷◌,
  if◌then◌else◌, Bool-cases, inl, inr,
}
use mathlib.Core.Path.{ap₂}
use gov_crawler.Base.Table
use gov_crawler.Base.Table.{first-eq-some}
use gov_crawler.Base.Text.{Text, any, text_eq, lower}
use gov_crawler.Outreach.{
  CampaignStatus, running, paused, cancelled, completed, sent, failed, Credential, CampaignEmail,
  Database, BlacklistRow, has_id, has_status, add_to_blacklist, get_campaign,
  get_campaign_credential_ids, disable_credential, set_credential_cooldown,
}
use gov_crawler.Outreach.Emails.{
  claim_next_queued_email, mark_email_sent, mark_email_failed, requeue_email, as_sent, as_failed,
  requeued,
}
use gov_crawler.Outreach.Dispatcher.{
  SendResult, delivered, auth_error, response_error, recipients_refused, network_error, unexpected,
  Round, Dispatch, bounce, retry_after, on_response, on_refused, handle_result,
  resolve_credential_pool, get_next_credential, is_hard_bounce, is_temporary, describe,
}

-- An email that is sent or failed.
abbrev pub is_done : CampaignEmail → Bool
is_done e = has_status sent e || has_status failed e

pub done-sent : (e : CampaignEmail) → has_status sent e ≡ true → is_done e ≡ true
done-sent e h = rw h refl

-- The call returned, without an exception.
abbrev pub returned : SendResult → Bool
returned delivered = true
returned auth_error = false
returned (response_error code message) = false
returned (recipients_refused rs) = false
returned network_error = false
returned (unexpected message) = false

-- The results after which the loop puts the email back in the queue.
abbrev pub requeues : SendResult → Bool
requeues delivered = false
requeues auth_error = true
requeues (response_error code message) = is_temporary code
requeues (recipients_refused rs) = false
requeues network_error = true
requeues (unexpected message) = false

-- The id of the email that the server took in a round, if there is one.
unfoldable pub mail_with : Option Credential → CampaignEmail → Round → Option ℕ
mail_with none email r = none
mail_with (some cred) email r = if returned r.result || r.accepted then some email.id else none

unfoldable pub mail_claimed : Option CampaignEmail → ℕ → Round → Dispatch → Option ℕ
mail_claimed none id r d = none
mail_claimed (some email) id r d =
    mail_with
      (get_next_credential
        (resolve_credential_pool (get_campaign_credential_ids id d.db) r.started_at d.db)
        d.cred_index).0
      email r

unfoldable pub mail_next : ℕ → Round → Dispatch → Option ℕ
mail_next id r d =
    let (email, db) = claim_next_queued_email id r.started_at d.db in
    mail_claimed email id r (record d { db = db })

unfoldable pub mail_status : CampaignStatus → ℕ → Round → Dispatch → Option ℕ
mail_status running id r d = mail_next id r d
mail_status completed id r d = mail_next id r d
mail_status paused id r d = none
mail_status cancelled id r d = none

unfoldable pub round_mail : ℕ → Round → Dispatch → Option ℕ
unfolding mail_with mail_claimed mail_next mail_status
round_mail id r d = elim (get_campaign id none false d.db) [
  | none ↦ none
  | some c ↦ mail_status c.status id r d
]

-- The emails but the one with the id stay, and its row is rewritten.
pub record Touches (id : ℕ) (db db' : Database) : Type 0 where
  pub write : CampaignEmail → CampaignEmail
  pub keeps_id : (e : CampaignEmail) → (write e).id ≡ e.id
  pub emails : db'.emails ≡ Table.update (has_id id) write db.emails

blacklist-emails :
    (email domain : Text) (reason : Option Text) (db : Database)
    → (add_to_blacklist email domain reason db).1.emails ≡ db.emails
unfolding add_to_blacklist
blacklist-emails email domain reason db =
    go (any (λ (b : BlacklistRow). text_eq b.email (lower email)) db.blacklist) (false, db)
      (true, _) refl refl
  where
    go :
        (known : Bool) (x y : Bool × Database)
        → x.1.emails ≡ db.emails
        → y.1.emails ≡ db.emails
        → (let r : Bool × Database = if known then x else y in r.1.emails ≡ db.emails)
    go true x y hx hy = hx
    go false x y hx hy = hy

-- The rewritten row is SENT or FAILED.
abbrev pub Finishes : ℕ → Database → Database → Type 0
Finishes id db db' = (t : Touches id db db') × ((e : CampaignEmail) → is_done (t.write e) ≡ true)

failed-Finishes :
    (i : ℕ) (message : Text) (cred : Option ℕ) (db db' : Database)
    → db'.emails ≡ db.emails
    → Finishes i db (mark_email_failed i message cred db')
unfolding mark_email_failed
failed-Finishes i message cred db db' same = (
  record {
    write = as_failed message cred;
    keeps_id = λ e. refl;
    emails =
        ap (λ (es : List CampaignEmail). Table.update (has_id i) (as_failed message cred) es) same;
  },
  λ e. refl,
)

requeue-Touches :
    (i : ℕ) (db db' : Database) → db'.emails ≡ db.emails → Touches i db (requeue_email i db')
unfolding requeue_email
requeue-Touches i db db' same = record {
  write = requeued;
  keeps_id = λ e. refl;
  emails = ap (λ (es : List CampaignEmail). Table.update (has_id i) requeued es) same;
}

bounce-Finishes :
    (why : Text) (e : CampaignEmail) (c : Credential) (db : Database)
    → Finishes e.id db (bounce why e c db)
unfolding bounce
bounce-Finishes why e c db =
    failed-Finishes e.id why (some c.id) db _ (blacklist-emails e.recipient_email _ (some why) db)

retry-Touches :
    (until : ℕ) (e : CampaignEmail) (c : Credential) (db : Database)
    → Touches e.id db (retry_after until e c db)
unfolding retry_after set_credential_cooldown
retry-Touches until e c db = requeue-Touches e.id db _ refl

pub delivered-Touches :
    (m : CampaignEmail) (c : Credential) (now : ℕ) (db : Database)
    → (t : Touches m.id db (handle_result delivered m c now db)) × ((e : CampaignEmail)
        → has_status sent (t.write e) ≡ true)
unfolding handle_result mark_email_sent
delivered-Touches m c now db =
    (record { write = as_sent now (some c.id); keeps_id = λ e. refl; emails = refl }, λ e. refl)

on_refused-Finishes :
    (rs : List (ℕ × Text)) (e : CampaignEmail) (c : Credential) (db : Database)
    → Finishes e.id db (on_refused rs e c db)
unfolding on_refused
on_refused-Finishes [] e c db = failed-Finishes e.id _ (some c.id) db db refl
on_refused-Finishes ((code, message) ∷ more) e c db = elim (Bool-cases (is_hard_bounce code)) [
  | inl hard ↦ rw hard (bounce-Finishes (describe code message) e c db)
  | inr soft ↦ rw soft (failed-Finishes e.id (describe code message) (some c.id) db db refl)
]

on_response-Finishes :
    (code : ℕ) (message : Text) (e : CampaignEmail) (c : Credential) (now : ℕ) (db : Database)
    → is_temporary code ≡ false
    → Finishes e.id db (on_response code message e c now db)
unfolding on_response
on_response-Finishes code message e c now db final = elim (Bool-cases (is_hard_bounce code)) [
  | inl hard ↦ rw hard (bounce-Finishes (describe code message) e c db)
  | inr soft ↦
      rw (soft, final) (failed-Finishes e.id (describe code message) (some c.id) db db refl)
]

on_response-Touches :
    (code : ℕ) (message : Text) (e : CampaignEmail) (c : Credential) (now : ℕ) (db : Database)
    → Touches e.id db (on_response code message e c now db)
unfolding on_response
on_response-Touches code message e c now db = elim (Bool-cases (is_temporary code)) [
  | inl t ↦ elim (Bool-cases (is_hard_bounce code)) [
    | inl hard ↦ rw hard (bounce-Finishes (describe code message) e c db).0
    | inr soft ↦ rw (soft, t) (retry-Touches (now + 3600) e c db)
  ]
  | inr t ↦ (on_response-Finishes code message e c now db t).0
]

-- Every result but those that put the email back leaves it SENT or FAILED.
pub handle_result-Finishes :
    (result : SendResult) (e : CampaignEmail) (c : Credential) (now : ℕ) (db : Database)
    → requeues result ≡ false
    → Finishes e.id db (handle_result result e c now db)
unfolding handle_result
handle_result-Finishes delivered e c now db h = (
  (delivered-Touches e c now db).0,
  λ m. done-sent ((delivered-Touches e c now db).0.write m) ((delivered-Touches e c now db).1 m),
)
handle_result-Finishes auth_error e c now db h = absurd (no h)
  where
    no : true ≡ false → ⊥
    no e = cc
handle_result-Finishes (response_error code message) e c now db h =
    on_response-Finishes code message e c now db h
handle_result-Finishes (recipients_refused rs) e c now db h = on_refused-Finishes rs e c db
handle_result-Finishes network_error e c now db h = absurd (no h)
  where
    no : true ≡ false → ⊥
    no e = cc
handle_result-Finishes (unexpected message) e c now db h =
    failed-Finishes e.id message (some c.id) db db refl

pub handle_result-Touches :
    (result : SendResult) (e : CampaignEmail) (c : Credential) (now : ℕ) (db : Database)
    → Touches e.id db (handle_result result e c now db)
unfolding handle_result disable_credential
handle_result-Touches delivered e c now db = (delivered-Touches e c now db).0
handle_result-Touches auth_error e c now db = requeue-Touches e.id db _ refl
handle_result-Touches (response_error code message) e c now db =
    on_response-Touches code message e c now db
handle_result-Touches (recipients_refused rs) e c now db = (on_refused-Finishes rs e c db).0
handle_result-Touches network_error e c now db = retry-Touches (now + 900) e c db
handle_result-Touches (unexpected message) e c now db =
    (failed-Finishes e.id message (some c.id) db db refl).0

-- A claimed email with no usable credential is left sending.
pub stranded-Touches : (m : CampaignEmail) (db : Database) → Touches m.id db db
unfolding Table.update
stranded-Touches m db = record {
  write = λ e. e;
  keeps_id = λ e. refl;
  emails = sym (update-id db.emails);
}
  where
    row : (b : Bool) (e : CampaignEmail) → (if b then e else e) ≡ e
    row true e = refl
    row false e = refl

    update-id :
        (es : List CampaignEmail) → Table.update (has_id m.id) (λ (e : CampaignEmail). e) es ≡ es
    update-id [] = refl
    update-id (e ∷ es) =
        ap₂ {C = List CampaignEmail} (λ x xs. x ∷ xs) (row (has_id m.id e) e) (update-id es)
