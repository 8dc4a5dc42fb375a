-- ===== src/Tests/Cloud.antt =====
-- Runs of the dispatcher and of the job table.
use gov_crawler.Base.{
  ℕ, ◌+◌, ◌≡◌, ◌<◌, ◌⊎◌, refl, true, false, Option, none, some, List, [], ◌∷◌, length,
}
use gov_crawler.Base.Table
use gov_crawler.Base.Text.{codes}
use gov_crawler.Outreach.{
  Campaign, Credential, CampaignEmail, Database, running, production, queued, is_of,
}
use gov_crawler.Outreach.Emails.{get_campaign_stats}
use gov_crawler.Outreach.Emails.Lifecycle.{DistinctIds, get_campaign_stats-total}
use gov_crawler.Outreach.Dispatcher.{
  delivered, auth_error, Round, Dispatch, resolve_credential_pool, get_next_credential,
  dispatch_loop,
}
use gov_crawler.Outreach.Dispatcher.Pool.{
  IsUsable, get_next_credential-IsUsable, dispatch_loop-owned,
}
use gov_crawler.Outreach.Dispatcher.Sends.{sends, RunLaw, dispatch_loop-sends_once}
use gov_crawler.Jobs
use gov_crawler.Jobs.Agents.{heartbeat-revives, claim_or_verify_job_agent-exclusive}
use gov_crawler.Jobs.{Job, Jobs, no_metrics}
use gov_crawler.Jobs.Lifecycle.{
  Event, finish, pulse, reap, find_job, occur_all, EndedLike, occur_all-ended,
}

abbrev campaign : Option ℕ → Campaign
campaign owner = record {
  id = 1;
  template_id = 1;
  kind = production;
  test_credential_id = none;
  status = running;
  owner_id = owner;
  pause_reason = none;
}

abbrev credential : Credential
credential = record { id = 5; is_active = true; cooldown_until = some 10; daily_send_limit = none }

abbrev email : ℕ → CampaignEmail
email n = record {
  id = n;
  campaign_id = 1;
  lead_id = none;
  recipient_email = codes "a@b.in";
  subject = [];
  body = [];
  status = queued;
  is_selected = true;
  missing_fields = none;
  error_message = none;
  sent_at = none;
  sending_since = none;
  credential_id = none;
}

-- A campaign with two queued emails.
abbrev database : Option ℕ → Database
database owner = record {
  campaigns = campaign owner ∷ [];
  credentials = credential ∷ [];
  campaign_credentials = [];
  emails = email 1 ∷ email 2 ∷ [];
  next_email_id = 3;
  blacklist = [];
}

abbrev begin : Option ℕ → Dispatch
begin owner = record { db = database owner; cred_index = 0 }

abbrev rounds : List Round
rounds =
    record { started_at = 100; result = delivered; accepted = true; ended_at = 101 }
    ∷ record { started_at = 102; result = auth_error; accepted = false; ended_at = 103 }
    ∷ []

database-DistinctIds : DistinctIds (database none).emails
unfolding Table.count
database-DistinctIds = (refl, (refl, tt))

dispatch_loop-sends_once_example :
    RunLaw (begin none).db (dispatch_loop 1 rounds (begin none)).db (sends 1 rounds (begin none))
dispatch_loop-sends_once_example =
    dispatch_loop-sends_once 1 rounds (begin none) (refl, (refl, tt)) database-DistinctIds

dispatch_loop-owned_example : dispatch_loop 1 rounds (begin (some 8)) ≡ begin (some 8)
dispatch_loop-owned_example = dispatch_loop-owned 1 rounds (begin (some 8)) ((λ e. refl), tt)

get_next_credential-IsUsable_example :
    (let pool = resolve_credential_pool [] 100 (database none) in
      let next = get_next_credential pool 3 in
      ((pool ≡ []) × (next.0 ≡ none))
      ⊎ ((c : Credential) × (next.0 ≡ some c)
          × IsUsable [] 100 (database none) c
          × (next.1 < length pool)))
get_next_credential-IsUsable_example = get_next_credential-IsUsable [] 100 (database none) 3

get_campaign_stats-total_example :
    (let s = get_campaign_stats 1 (database none) in
      (s.total ≡ Table.count (is_of 1) (database none).emails)
      × (s.draft + s.skipped + s.queued + s.sending + s.sent + s.failed ≡ s.total))
get_campaign_stats-total_example = get_campaign_stats-total 1 (database none)

abbrev ended_job : Job
ended_job = record {
  id = 4;
  status = Jobs.done;
  total_domains = 1;
  seed_domains = 1;
  metrics = no_metrics;
  error_message = none;
  owner_id = none;
  cancel_requested = false;
  agent_hostname = none;
  last_heartbeat_at = some 20;
  started_at = some 10;
  finished_at = some 30;
}

abbrev job_table : Jobs
job_table = record { rows = ended_job ∷ []; domains = []; next_id = 5 }

abbrev late_events : List Event
late_events = pulse 4 no_metrics 40 ∷ reap 60 500 ∷ finish 4 Jobs.failed none 600 ∷ []

job_table-EndedLike : EndedLike 4 ended_job job_table
unfolding find_job Table.first
job_table-EndedLike = record {
  row = ended_job;
  found = refl;
  status = refl;
  finished_at = refl;
  error_message = refl;
}

occur_all-ended_example : EndedLike 4 ended_job (occur_all late_events job_table)
occur_all-ended_example = occur_all-ended late_events 4 ended_job job_table refl job_table-EndedLike

abbrev silent_job : Job
silent_job = record ended_job { status = Jobs.running; finished_at = none }

abbrev silent_table : Jobs
silent_table = record { rows = silent_job ∷ []; domains = []; next_id = 5 }

silent_table-job : find_job 4 silent_table ≡ some silent_job
unfolding find_job Table.first
silent_table-job = refl

heartbeat-revives_example :
    find_job 4 (Jobs.heartbeat 4 no_metrics 600 (Jobs.reap_stale_jobs 60 500 silent_table).1).1
    ≡ some (record silent_job {
      status = Jobs.running;
      metrics = no_metrics;
      last_heartbeat_at = some 600;
    })
heartbeat-revives_example =
    heartbeat-revives 4 60 500 600 no_metrics silent_job silent_table silent_table-job refl

silent_table-claim : (Jobs.claim_or_verify_job_agent 4 "north" silent_table).0 ≡ true
unfolding Jobs.claim_or_verify_job_agent Table.first
silent_table-claim = refl

claim_or_verify_job_agent-exclusive_example :
    (Jobs.claim_or_verify_job_agent 4 "south"
      (Jobs.claim_or_verify_job_agent 4 "north" silent_table).1).0
    ≡ false
claim_or_verify_job_agent-exclusive_example =
    claim_or_verify_job_agent-exclusive 4 "north" "south" silent_table silent_table-claim refl
