-- ===== src/Outreach/Dispatcher.antt =====
-- cloud/api/dispatcher.py: the loop that sends one campaign's emails. What the mail server answers and
-- the times at which it does are the arguments of a round, so a run is a list of rounds; the pause
-- between two sends (`_wait_for_credential_slot`) only delays and is left out.
pub mod Effects
pub mod Laws
pub mod Rounds
pub mod Sends
pub mod Pool
use gov_crawler.Base.{
  ℕ, suc, zero, ◌+◌, ◌/◌, ◌%◌, Bool, true, false, not, ◌&&◌, ◌||◌, Option, none, some, List, [],
  ◌∷◌, ◌++◌, leb, ltb, ◌==◌, if◌then◌else◌, length,
}
use gov_crawler.Base.Table
use gov_crawler.Base.Text.{Text, codes, split, is_empty}
use gov_crawler.Outreach.{
  CampaignStatus, running, paused, cancelled, completed, Campaign, Credential, CampaignEmail,
  Database, add_to_blacklist, get_campaign, update_campaign_status, get_campaign_credential_ids,
  get_credentials_by_ids, get_active_credentials, disable_credential, set_credential_cooldown,
  get_credential_sent_count_today,
}
use gov_crawler.Outreach.Emails.{
  queue_campaign_emails, has_remaining_drafts, has_queued_email, claim_next_queued_email,
  mark_email_sent, mark_email_failed, requeue_email, cancel_remaining_queued,
}

abbrev pub no_usable_credentials_reason : Text
no_usable_credentials_reason =
    codes
      "Paused: no usable SMTP credentials — every assigned credential is disabled, cooling down, or has hit its daily send limit."

unfoldable pub nth {ℓ} : {A : Type ℓ} → List A → ℕ → Option A
nth [] n = none
nth (x ∷ xs) zero = some x
nth (x ∷ xs) (suc n) = nth xs n

-- `_get_next_credential`
unfoldable pub get_next_credential : List Credential → ℕ → Option Credential × ℕ
get_next_credential [] index = (none, 0)
get_next_credential (c ∷ cs) index =
    (nth (c ∷ cs) (index % length (c ∷ cs)), suc index % length (c ∷ cs))

-- A limit of 0 is falsy.
abbrev pub is_capped : ℕ → Option ℕ → Bool
is_capped sent_today none = false
is_capped sent_today (some limit) = if limit == 0 then false else leb limit sent_today

unfoldable pub resolve_credential_pool : List ℕ → ℕ → Database → List Credential
resolve_credential_pool ids now db =
    Table.select
      (λ (c : Credential).
        not (is_capped (get_credential_sent_count_today c.id now db) c.daily_send_limit))
      (if is_empty ids then get_active_credentials now db else get_credentials_by_ids ids now db)

-- How the call of `_send_one_email` ended: it returned, or raised one of the exceptions that the loop
-- tells apart.
pub data SendResult : Type 0 where
  delivered : SendResult
  auth_error : SendResult
  response_error : ℕ → Text → SendResult
  recipients_refused : List (ℕ × Text) → SendResult
  network_error : SendResult
  unexpected : Text → SendResult

digits : ℕ → ℕ → Text
digits zero n = []
digits (suc fuel) n =
    let rest = digits fuel (n / 10) in
    if ltb n 10 then (48 + n) ∷ [] else rest ++ (48 + n % 10) ∷ []

-- `f"{code}: {message}"`
unfoldable pub describe : ℕ → Text → Text
unfolding digits
describe code message = digits (suc code) code ++ codes ": " ++ message

-- `recipient.split("@")[1] if "@" in recipient else ""`
unfoldable pub mail_domain : Text → Text
unfolding nth
mail_domain recipient = elim (nth (split 64 recipient) 1) [ none ↦ [] | some d ↦ d ]

abbrev pub is_hard_bounce : ℕ → Bool
is_hard_bounce code = code == 550 || code == 553

abbrev pub is_temporary : ℕ → Bool
is_temporary code = code == 421 || (code == 450 || code == 451)

unfoldable pub bounce : Text → CampaignEmail → Credential → Database → Database
bounce why email cred db =
    mark_email_failed email.id why (some cred.id)
      (add_to_blacklist email.recipient_email (mail_domain email.recipient_email) (some why) db).1

-- Cool the credential down for the given time, and take the email back for another try.
unfoldable pub retry_after : ℕ → CampaignEmail → Credential → Database → Database
retry_after until email cred db = requeue_email email.id (set_credential_cooldown cred.id until db)

unfoldable pub on_response : ℕ → Text → CampaignEmail → Credential → ℕ → Database → Database
on_response code message email cred now db =
    if is_hard_bounce code
    then bounce (describe code message) email cred db
    else if is_temporary code
    then retry_after (now + 3600) email cred db
    else mark_email_failed email.id (describe code message) (some cred.id) db

-- The first refused recipient decides; without one, code and message are empty.
unfoldable pub on_refused : List (ℕ × Text) → CampaignEmail → Credential → Database → Database
on_refused [] email cred db = mark_email_failed email.id (codes ": ") (some cred.id) db
on_refused ((code, message) ∷ more) email cred db =
    if is_hard_bounce code
    then bounce (describe code message) email cred db
    else mark_email_failed email.id (describe code message) (some cred.id) db

unfoldable pub handle_result : SendResult → CampaignEmail → Credential → ℕ → Database → Database
handle_result delivered email cred now db = mark_email_sent email.id (some cred.id) now db
handle_result auth_error email cred now db = requeue_email email.id (disable_credential cred.id db)
handle_result (response_error code message) email cred now db =
    on_response code message email cred now db
handle_result (recipients_refused rs) email cred now db = on_refused rs email cred db
handle_result network_error email cred now db = retry_after (now + 900) email cred db
handle_result (unexpected message) email cred now db =
    mark_email_failed email.id message (some cred.id) db

-- The times of a turn, how its call of `_send_one_email` ended, and, where the call raised an exception,
-- whether `send_message` had succeeded before: then the server has the message, and `quit()` raised.
pub record Round : Type 0 where
  pub started_at : ℕ
  pub result : SendResult
  pub accepted : Bool
  pub ended_at : ℕ

pub record Dispatch : Type 0 where
  pub db : Database
  pub cred_index : ℕ

abbrev with_status : ℕ → CampaignStatus → Option Text → Dispatch → Dispatch
with_status id st reason d = record d { db = (update_campaign_status id st reason d.db).1 }

-- With no credential the claimed email stays as it is.
unfoldable pub send_with :
    Option Credential → ℕ → CampaignEmail → Round → Dispatch → Bool × Dispatch
send_with none id email r d = (false, with_status id paused (some no_usable_credentials_reason) d)
send_with (some cred) id email r d =
    (true, record d { db = handle_result r.result email cred r.ended_at d.db })

unfoldable pub send_claimed : Option CampaignEmail → ℕ → Round → Dispatch → Bool × Dispatch
send_claimed none id r d = (
  false,
  if has_remaining_drafts id d.db
      then with_status id paused none d
      else with_status id completed none d,
)
send_claimed (some email) id r d =
    let pool = resolve_credential_pool (get_campaign_credential_ids id d.db) r.started_at d.db in
    let (cred, index) = get_next_credential pool d.cred_index in
    send_with cred id email r (record d { cred_index = index })

unfoldable pub send_next : ℕ → Round → Dispatch → Bool × Dispatch
send_next id r d =
    let (email, db) = claim_next_queued_email id r.started_at d.db in
    send_claimed email id r (record d { db = db })

abbrev pub on_status : CampaignStatus → ℕ → Round → Dispatch → Bool × Dispatch
on_status paused id r d = (false, d)
on_status cancelled id r d = (false, record d { db = (cancel_remaining_queued id d.db).1 })
on_status running id r d = send_next id r d
on_status completed id r d = send_next id r d

-- One turn of the loop, and whether another follows. `db.get_campaign(campaign_id)` is called without
-- an owner.
unfoldable pub dispatch_round : ℕ → Round → Dispatch → Bool × Dispatch
dispatch_round id r d = elim (get_campaign id none false d.db) [
  | none ↦ (false, d)
  | some c ↦ on_status c.status id r d
]

unfoldable pub dispatch_loop : ℕ → List Round → Dispatch → Dispatch
dispatch_loop id [] d = d
dispatch_loop id (r ∷ rs) d =
    let (more, d') = dispatch_round id r d in
    let rest = dispatch_loop id rs d' in if more then rest else d'

unfoldable pub run_campaign_dispatch : ℕ → ℕ → List Round → Database → Database
run_campaign_dispatch id now rounds db =
    let (queued_count, db₁) = queue_campaign_emails id db in
    if queued_count == 0 && not (has_queued_email id db₁)
    then (update_campaign_status id completed none db₁).1
    else if is_empty (resolve_credential_pool (get_campaign_credential_ids id db₁) now db₁)
    then (update_campaign_status id paused (some no_usable_credentials_reason) db₁).1
    else (dispatch_loop id rounds (record { db = db₁; cred_index = 0 })).db
