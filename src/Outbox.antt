-- ===== src/Outbox.antt =====
-- agent/local_store.py: the durable write-ahead buffer of one crawl job, a sqlite file with the
-- tables `outbox`, `outbox_dead` and `frontier`. A payload and a snapshot are stored as JSON and
-- read back by `json.loads`; here they are values of the types P and F. The clock is an argument.
-- Each method holds the one lock for its whole body, so a method is one step.
pub mod Rows
pub mod Retries
use gov_crawler.Base.{
  ℕ, suc, ◌+◌, Bool, String, str_eq, Option, none, some, List, [], ◌∷◌, ◌++◌, map, leb, ◌==◌,
  if◌then◌else◌, length, take,
}
use gov_crawler.Base.Table

-- MAX_ATTEMPTS
abbrev pub max_attempts : ℕ
max_attempts = 8

pub record Row (P : Type 0) : Type 0 where
  pub id : ℕ
  pub job_id : ℕ
  pub kind : String
  pub payload : P
  pub created_at : ℕ
  pub attempts : ℕ
  pub last_error : Option String

pub record DeadRow (P : Type 0) : Type 0 where
  pub id : ℕ
  pub job_id : ℕ
  pub kind : String
  pub payload : P
  pub last_error : String
  pub died_at : ℕ

pub record FrontierRow (F : Type 0) : Type 0 where
  pub job_id : ℕ
  pub snapshot : F
  pub saved_at : ℕ

-- `next_id` and `next_dead_id` are sqlite's AUTOINCREMENT counters.
pub record Outbox (P F : Type 0) : Type 0 where
  pub rows : List (Row P)
  pub next_id : ℕ
  pub dead : List (DeadRow P)
  pub next_dead_id : ℕ
  pub frontier : List (FrontierRow F)

-- What `pending_batch` gives for a row.
pub record BatchItem (P : Type 0) : Type 0 where
  pub id : ℕ
  pub job_id : ℕ
  pub payload : P
  pub attempts : ℕ

module _ {P : Type 0} where
  abbrev pub has_id : ℕ → Row P → Bool
  has_id i r = r.id == i

  abbrev pub has_kind : String → Row P → Bool
  has_kind k r = str_eq r.kind k

  abbrev pub has_job : ℕ → Row P → Bool
  has_job j r = r.job_id == j

  abbrev pub to_item : Row P → BatchItem P
  to_item r = record { id = r.id; job_id = r.job_id; payload = r.payload; attempts = r.attempts }

  -- `executemany` of the DELETE, one id after the other.
  unfoldable pub ack_rows : List ℕ → List (Row P) → List (Row P)
  ack_rows [] rows = rows
  ack_rows (i ∷ ids) rows = ack_rows ids (Table.delete (has_id i) rows)

  -- `attempts[0] if attempts else 0`
  abbrev pub attempts_or_zero : Option (Row P) → ℕ
  attempts_or_zero none = 0
  attempts_or_zero (some r) = r.attempts

module _ {F : Type 0} where
  abbrev pub is_frontier_of : ℕ → FrontierRow F → Bool
  is_frontier_of j r = r.job_id == j

  -- INSERT … ON CONFLICT(job_id) DO UPDATE
  upsert : ℕ → F → ℕ → List (FrontierRow F) → List (FrontierRow F)
  upsert job_id snapshot now [] =
      record { job_id = job_id; snapshot = snapshot; saved_at = now } ∷ []
  upsert job_id snapshot now (r ∷ rs) =
      if is_frontier_of job_id r
      then record r { snapshot = snapshot; saved_at = now } ∷ rs
      else r ∷ upsert job_id snapshot now rs

  abbrev snapshot_of : Option (FrontierRow F) → Option F
  snapshot_of none = none
  snapshot_of (some r) = some r.snapshot

module _ {P F : Type 0} where
  -- A file that `__init__` has just created.
  abbrev pub empty : Outbox P F
  empty = record { rows = []; next_id = 1; dead = []; next_dead_id = 1; frontier = [] }

  unfoldable pub enqueue : ℕ → String → P → ℕ → Outbox P F → Outbox P F
  enqueue job_id kind payload now o = record o {
    rows =
        o.rows
        ++ record {
          id = o.next_id;
          job_id = job_id;
          kind = kind;
          payload = payload;
          created_at = now;
          attempts = 0;
          last_error = none;
        }
          ∷ [];
    next_id = suc o.next_id;
  }

  -- The rows stand in the order of their ids, so ORDER BY id is the order of the list.
  unfoldable pub pending_batch : String → ℕ → Outbox P F → List (BatchItem P)
  pending_batch kind limit o = map to_item (take limit (Table.select (has_kind kind) o.rows))

  unfoldable pub ack : List ℕ → Outbox P F → Outbox P F
  ack ids o = record o { rows = ack_rows ids o.rows }

  -- The dead-letter branch of `fail`.
  unfoldable pub dead_letter : ℕ → ℕ → String → P → String → ℕ → Outbox P F → Outbox P F
  dead_letter row_id job_id kind payload error now o = record o {
    rows = Table.delete (has_id row_id) o.rows;
    dead =
        o.dead
        ++ record {
          id = o.next_dead_id;
          job_id = job_id;
          kind = kind;
          payload = payload;
          last_error = error;
          died_at = now;
        }
          ∷ [];
    next_dead_id = suc o.next_dead_id;
  }

  -- The retry branch of `fail`.
  unfoldable pub retry_later : ℕ → ℕ → String → Outbox P F → Outbox P F
  retry_later row_id attempts error o = record o {
    rows =
        Table.update (has_id row_id)
          (λ r. record r { attempts = attempts; last_error = some error }) o.rows;
  }

  unfoldable pub fail : ℕ → ℕ → String → P → String → ℕ → Outbox P F → Outbox P F
  unfolding dead_letter retry_later
  fail row_id job_id kind payload error now o =
      let attempts = attempts_or_zero (Table.first (has_id row_id) o.rows) + 1 in
      if leb max_attempts attempts
      then dead_letter row_id job_id kind payload error now o
      else retry_later row_id attempts error o

  unfoldable pub is_drained : ℕ → Outbox P F → Bool
  is_drained job_id o = Table.count (has_job job_id) o.rows == 0

  unfoldable pub pending_count : Outbox P F → ℕ
  pending_count o = length o.rows

  pub save_frontier : ℕ → F → ℕ → Outbox P F → Outbox P F
  unfolding upsert
  save_frontier job_id snapshot now o = record o {
    frontier = upsert job_id snapshot now o.frontier;
  }

  pub load_frontier : ℕ → Outbox P F → Option F
  load_frontier job_id o = snapshot_of (Table.first (is_frontier_of job_id) o.frontier)

  pub clear_frontier : ℕ → Outbox P F → Outbox P F
  clear_frontier job_id o = record o { frontier = Table.delete (is_frontier_of job_id) o.frontier }
