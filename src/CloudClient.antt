-- ===== src/CloudClient.antt =====
-- agent/cloud_client.py: the agent's side of the outbox. A flush posts the oldest batch of a kind;
-- what the HTTP call did is an argument: `none` for a 2xx response, `some e` for a raised error e
-- (a network failure, or a status that `raise_for_status` turns into an exception, after the
-- one refresh on a 401). Sleeps are left out: they change no state.
pub mod Batch
pub mod Attempts
pub mod Delivery
pub mod Drain
use gov_crawler.Base.{
  ℕ, ◌<◌, Bool, true, false, String, Option, none, some, List, [], ◌∷◌, map, ltb, if◌then◌else◌,
}
use gov_crawler.Outbox
use gov_crawler.Outbox.{Outbox, BatchItem}

-- _BATCH_SIZE and _BACKPRESSURE_THRESHOLD
abbrev pub batch_size : ℕ
batch_size = 100

abbrev pub backpressure_threshold : ℕ
backpressure_threshold = 5000

module _ {P F : Type 0} where
  unfoldable pub save_lead : ℕ → P → ℕ → Outbox P F → Outbox P F
  save_lead job_id fields now o = Outbox.enqueue job_id "lead" fields now o

  unfoldable pub is_backpressured : Outbox P F → Bool
  is_backpressured o = ltb backpressure_threshold (Outbox.pending_count o)

  -- The `except` branch: every row of the batch is reported as failed.
  unfoldable pub fail_all : String → String → ℕ → List (BatchItem P) → Outbox P F → Outbox P F
  fail_all kind error now [] o = o
  fail_all kind error now (b ∷ bs) o =
      fail_all kind error now bs (Outbox.fail b.id b.job_id kind b.payload error now o)

  -- What follows the call of the server, by its outcome.
  unfoldable pub settle :
      String → ℕ → Option String → List (BatchItem P) → Outbox P F → Bool × Outbox P F
  unfolding fail_all
  settle kind now none batch o = (true, Outbox.ack (map (λ (b : BatchItem P). b.id) batch) o)
  settle kind now (some e) batch o = (false, fail_all kind e now batch o)

  abbrev pub flush_batch :
      String → ℕ → Option String → List (BatchItem P) → Outbox P F → Bool × Outbox P F
  flush_batch kind now response [] o = (false, o)
  flush_batch kind now response (b ∷ bs) o = settle kind now response (b ∷ bs) o

  unfoldable pub flush_kind : String → ℕ → Option String → Outbox P F → Bool × Outbox P F
  flush_kind kind now response o =
      flush_batch kind now response (Outbox.pending_batch kind batch_size o) o

  -- The body of the POST request that `flush_kind` makes.
  unfoldable pub posted : String → Outbox P F → List P
  posted kind o = map (λ (b : BatchItem P). b.payload) (Outbox.pending_batch kind batch_size o)

  -- The loop of `finish_job` and of `best_effort_drain`: one response for each round that begins
  -- before the deadline.
  unfoldable pub drain : ℕ → ℕ → List (Option String) → Outbox P F → Outbox P F
  drain job_id now [] o = o
  drain job_id now (r ∷ rs) o =
      let rest = drain job_id now rs (flush_kind "lead" now r o).1 in
      if Outbox.is_drained job_id o then o else rest
