-- ===== src/Jobs.antt =====
-- cloud/db/mixins/job_mixin.py and the crawl_jobs table: the life of a crawl job in the cloud. Each
-- method is one transaction, so it is one step; the clock is an argument, in seconds. The columns for
-- filters, seeds and creation times are left out.
pub mod Lifecycle
pub mod Agents
use gov_crawler.Base.{
  ℕ, suc, ◌+◌, Bool, true, false, not, ◌&&◌, ◌||◌, Option, none, some, List, [], ◌∷◌, ◌++◌, map,
  ltb, ◌==◌, String, str_eq, if◌then◌else◌, is_some, opt_eq, length,
}
use gov_crawler.Base.Table
use gov_crawler.Base.Text.{is_empty}

pub data JobStatus : Type 0 where
  pending : JobStatus
  running : JobStatus
  done : JobStatus
  failed : JobStatus
  cancelled : JobStatus
  interrupted : JobStatus
  manual_upload : JobStatus

-- _TERMINAL_STATUSES
abbrev pub is_terminal : JobStatus → Bool
is_terminal done = true
is_terminal failed = true
is_terminal cancelled = true
is_terminal _ = false

abbrev pub is_running : JobStatus → Bool
is_running running = true
is_running _ = false

abbrev pub is_interrupted : JobStatus → Bool
is_interrupted interrupted = true
is_interrupted _ = false

abbrev pub is_manual : JobStatus → Bool
is_manual manual_upload = true
is_manual _ = false

pub record Metrics : Type 0 where
  pub queued_urls : ℕ
  pub visited_urls : ℕ
  pub skipped_urls : ℕ
  pub leads_found : ℕ
  pub crawled_domains : ℕ
  pub current_depth : ℕ
  pub active_workers : ℕ

pub record Job : Type 0 where
  pub id : ℕ
  pub status : JobStatus
  pub total_domains : ℕ
  pub seed_domains : ℕ
  pub metrics : Metrics
  pub error_message : Option String
  pub owner_id : Option ℕ
  pub cancel_requested : Bool
  pub agent_hostname : Option String
  pub last_heartbeat_at : Option ℕ
  pub started_at : Option ℕ
  pub finished_at : Option ℕ

-- The table crawl_jobs, the junction crawl_job_domains, and the next id.
pub record Jobs : Type 0 where
  pub rows : List Job
  pub domains : List (ℕ × ℕ)
  pub next_id : ℕ

abbrev pub has_id : ℕ → Job → Bool
has_id i j = j.id == i

abbrev pub no_metrics : Metrics
no_metrics = record {
  queued_urls = 0;
  visited_urls = 0;
  skipped_urls = 0;
  leads_found = 0;
  crawled_domains = 0;
  current_depth = 0;
  active_workers = 0;
}

abbrev pub count_seeds : List String → List ℕ → ℕ
count_seeds custom_urls domain_ids =
    if is_empty custom_urls then length domain_ids else length custom_urls

unfoldable pub create_job : List ℕ → List String → Option ℕ → Option String → Jobs → ℕ × Jobs
create_job domain_ids custom_urls owner_id agent_id js =
    let seeds = count_seeds custom_urls domain_ids in
    let job : Job = record {
      id = js.next_id;
      status = pending;
      total_domains = seeds;
      seed_domains = seeds;
      metrics = no_metrics;
      error_message = none;
      owner_id = owner_id;
      cancel_requested = false;
      agent_hostname = agent_id;
      last_heartbeat_at = none;
      started_at = none;
      finished_at = none;
    } in
    (
      js.next_id,
      record {
        rows = js.rows ++ job ∷ [];
        domains = js.domains ++ map (λ (d : ℕ). (js.next_id, d)) domain_ids;
        next_id = suc js.next_id;
      },
    )

abbrev pub update_jobs : (Job → Bool) → (Job → Job) → Jobs → Jobs
update_jobs p f js = record js { rows = Table.update p f js.rows }

unfoldable pub start_job : ℕ → ℕ → Jobs → Jobs
start_job id now js =
    update_jobs (has_id id) (λ (j : Job). record j { status = running; started_at = some now }) js

abbrev pub finished : JobStatus → Option String → ℕ → Job → Job
finished status error now j = record j {
  status = status;
  finished_at = some now;
  error_message = error;
}

-- A job that is finished already stays as it is.
unfoldable pub finish_job : ℕ → JobStatus → Option String → ℕ → Jobs → Jobs
finish_job id status error now js = elim (Table.first (has_id id) js.rows) [
  | none ↦ js
  | some job ↦
      if is_terminal job.status then js else update_jobs (has_id id) (finished status error now) js
]

unfoldable pub set_cancel_requested : ℕ → Jobs → Jobs
set_cancel_requested id js =
    update_jobs (has_id id) (λ (j : Job). record j { cancel_requested = true }) js

abbrev pub pulsed : Bool → Metrics → ℕ → Job → Job
pulsed revive metrics now j = record j {
  metrics = metrics;
  last_heartbeat_at = some now;
  status = if revive then running else j.status;
}

abbrev pub row_interrupted : Option Job → Bool
row_interrupted none = false
row_interrupted (some j) = is_interrupted j.status

abbrev pub row_cancelled : Option Job → Bool
row_cancelled none = false
row_cancelled (some j) = j.cancel_requested

unfoldable pub heartbeat : ℕ → Metrics → ℕ → Jobs → Bool × Jobs
heartbeat id metrics now js =
    let js' =
      update_jobs (has_id id)
        (pulsed (row_interrupted (Table.first (has_id id) js.rows)) metrics now) js in
    (row_cancelled (Table.first (has_id id) js'.rows), js')

-- `column < cutoff`, the cutoff threshold seconds ago; NULL is never before it.
abbrev pub is_before : ℕ → ℕ → Option ℕ → Bool
is_before threshold now none = false
is_before threshold now (some t) = ltb (t + threshold) now

abbrev pub is_stale : ℕ → ℕ → Job → Bool
is_stale threshold now j =
    is_running j.status
    && (is_some j.last_heartbeat_at && is_before threshold now j.last_heartbeat_at
        || not (is_some j.last_heartbeat_at) && is_before threshold now j.started_at)

abbrev pub reaped : Job → Job
reaped j = record j { status = interrupted }

unfoldable pub reap_stale_jobs : ℕ → ℕ → Jobs → List ℕ × Jobs
reap_stale_jobs threshold now js = (
  map (λ (j : Job). j.id) (Table.select (is_stale threshold now) js.rows),
  update_jobs (is_stale threshold now) reaped js,
)

unfoldable pub resume_job : ℕ → Jobs → Jobs
resume_job id js =
    update_jobs (has_id id) (λ (j : Job). record j { status = running; cancel_requested = false })
      js

abbrev pub owned_by : String → Job → Job
owned_by agent j = record j { agent_hostname = some agent }

abbrev pub claim_free : Option String → ℕ → String → Jobs → Bool × Jobs
claim_free none id agent js = (true, update_jobs (has_id id) (owned_by agent) js)
claim_free (some host) id agent js = (str_eq host agent, js)

unfoldable pub claim_or_verify_job_agent : ℕ → String → Jobs → Bool × Jobs
claim_or_verify_job_agent id agent js = elim (Table.first (has_id id) js.rows) [
  | none ↦ (false, js)
  | some j ↦ claim_free j.agent_hostname id agent js
]

unfoldable pub get_or_create_manual_upload_job : Jobs → ℕ × Jobs
get_or_create_manual_upload_job js = elim (Table.first (λ (j : Job). is_manual j.status) js.rows) [
  | some job ↦ (job.id, js)
  | none ↦
      let job : Job = record {
        id = js.next_id;
        status = manual_upload;
        total_domains = 0;
        seed_domains = 0;
        metrics = no_metrics;
        error_message = none;
        owner_id = none;
        cancel_requested = false;
        agent_hostname = none;
        last_heartbeat_at = none;
        started_at = none;
        finished_at = none;
      } in
      (js.next_id, record js { rows = js.rows ++ job ∷ []; next_id = suc js.next_id })
]

unfoldable pub get_job : ℕ → Option ℕ → Bool → Jobs → Option Job
get_job id owner view_all js =
    Table.first (λ (j : Job). has_id id j && (view_all || opt_eq j.owner_id owner)) js.rows

unfoldable pub get_running_jobs : Jobs → List Job
get_running_jobs js = Table.select (λ (j : Job). is_running j.status) js.rows
