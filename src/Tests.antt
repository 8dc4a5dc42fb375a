-- ===== src/Tests.antt =====
-- Runs of the models on small inputs: the agent's outbox, and in the child modules the crawl and the
-- cloud.
mod Crawl
mod Cloud
mod Captures
mod Accounts
mod Uploads
mod Campaigns
use gov_crawler.Base.{
  ℕ, ◌+◌, ◌*◌, ◌≡◌, ◌≤◌, ◌<◌, ◌⊎◌, refl, Bool, true, false, ◌==◌, ◌&&◌, Option, none, some, List,
  [], ◌∷◌, ◌++◌, String, length, suc, All, arith, if◌then◌else◌, get_or, is_some,
}
use gov_crawler.Base.Table
use gov_crawler.Base.Text.{Text, codes}
use gov_crawler.Outbox
use gov_crawler.Outbox.{Outbox, Row, empty, has_id, max_attempts}
use gov_crawler.Outbox.Rows.{IsValid, empty-IsValid, enqueue-IsValid}
use gov_crawler.Outbox.Retries.{fail_times, retries_exact, load_frontier-save-clear}
use gov_crawler.CloudClient.{flush_kind, posted, drain, save_lead}
use gov_crawler.CloudClient.Delivery.{pending, buried, accepted, flush_kind-conserves}
use gov_crawler.CloudClient.Drain.{IsLead, drain_total}

-- An outbox with one lead, whose payload is the number 42.
abbrev sample : Outbox ℕ ℕ
sample = save_lead 7 42 0 empty

sample-IsValid : IsValid sample
unfolding save_lead
sample-IsValid = enqueue-IsValid 7 "lead" 42 0 empty empty-IsValid

sample-IsLead : All IsLead sample.rows
unfolding save_lead Outbox.enqueue
sample-IsLead = (refl, tt)

sample-count : max_attempts * Outbox.pending_count sample ≤ 8
unfolding save_lead Outbox.enqueue Outbox.pending_count
sample-count = omega arith

abbrev is_42 : ℕ → Bool
is_42 n = n == 42

flush_kind-conserves_example :
    (let o' = (flush_kind "lead" 1 (some "timeout") sample).1 in
      pending is_42 o'
        + buried is_42 o'
        + Table.count is_42 (accepted (some "timeout") (posted "lead" sample))
      ≡ pending is_42 sample + buried is_42 sample)
flush_kind-conserves_example =
    flush_kind-conserves is_42 "lead" 1 (some "timeout") sample sample-IsValid

abbrev refusals : List (Option String)
refusals =
    some "500"
    ∷ some "500"
    ∷ some "500"
    ∷ some "500"
    ∷ some "500"
    ∷ some "500"
    ∷ some "500"
    ∷ some "500"
    ∷ []

drain_total_example : Outbox.is_drained 7 (drain 7 1 refusals sample) ≡ true
drain_total_example = drain_total 7 1 refusals sample sample-IsValid sample-IsLead sample-count

abbrev lead_row : Row ℕ
lead_row = record {
  id = 1;
  job_id = 7;
  kind = "lead";
  payload = 42;
  created_at = 0;
  attempts = 0;
  last_error = none;
}

sample-row : Table.first (has_id 1) sample.rows ≡ some lead_row
unfolding save_lead Outbox.enqueue Table.first
sample-row = refl

retries_exact_example :
    (let seven = fail_times 7 1 7 "lead" 42 "timeout" 3 sample in
      let eight = fail_times 8 1 7 "lead" 42 "timeout" 3 sample in
      (Table.first (has_id 1) seven.rows
        ≡ some (record lead_row { attempts = 7; last_error = some "timeout" }))
      × (seven.dead ≡ sample.dead)
      × (Table.first (has_id 1) eight.rows ≡ none)
      × (length eight.dead ≡ suc (length sample.dead)))
retries_exact_example = retries_exact 1 7 "lead" 42 "timeout" 3 lead_row sample sample-row refl

load_frontier-save-clear_example :
    (Outbox.load_frontier 7 (Outbox.save_frontier 7 9 3 sample)
      ≡ (if 7 == 7 then some 9 else Outbox.load_frontier 7 sample))
    × (Outbox.load_frontier 7 (Outbox.clear_frontier 7 sample)
        ≡ (if 7 == 7 then none else Outbox.load_frontier 7 sample))
load_frontier-save-clear_example = load_frontier-save-clear 7 7 9 3 sample
