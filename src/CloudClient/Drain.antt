-- ===== src/CloudClient/Drain.antt =====
-- The drain loop of `finish_job` and `best_effort_drain` on a list of rounds. In the source a deadline ends
-- the loop, drained or not: the list is what it leaves time for.
use gov_crawler.Base.{
  ℕ, ◌+◌, ◌*◌, ◌≤◌, ◌≡◌, refl, Bool, true, false, String, Option, none, some, List, [], ◌∷◌, map,
  arith, leb, ◌==◌, str_eq, All, take, length, Bool-cases, inl, inr,
}
use gov_crawler.Base.Table
use gov_crawler.Base.Table.{All-delete, All-update, All-first}
use gov_crawler.Outbox
use gov_crawler.Outbox.{
  Outbox, Row, BatchItem, has_id, has_kind, has_job, to_item, max_attempts, attempts_or_zero,
}
use gov_crawler.Outbox.Rows.{IsValid, RowFits}
use gov_crawler.CloudClient.Attempts.{attempts_left, flush_kind-IsValid, flush_kind-attempts_left}
use gov_crawler.CloudClient.{batch_size, fail_all, settle, flush_batch, flush_kind, drain}

module _ {P : Type 0} where
  abbrev pub IsLead : Row P → Type 0
  IsLead r = str_eq r.kind "lead" ≡ true

  ack_rows-All-IsLead :
      (ids : List ℕ) (rows : List (Row P)) → All IsLead rows → All IsLead (Outbox.ack_rows ids rows)
  unfolding Outbox.ack_rows
  ack_rows-All-IsLead [] rows h = h
  ack_rows-All-IsLead (i ∷ ids) rows h =
      ack_rows-All-IsLead ids _ (All-delete IsLead (has_id i) rows h)

  -- A table of leads that is not empty gives a batch that is not empty.
  lead_batch :
      (p : Row P → Bool) (rows : List (Row P))
      → All IsLead rows
      → (Table.count p rows == 0) ≡ false
      → 1 ≤ length (map to_item (take batch_size (Table.select (has_kind "lead") rows)))
  unfolding Table.count Table.select
  lead_batch p [] h e = cc
  lead_batch p (r ∷ rs) h e = rw h.0 (omega arith)

  spent :
      (p : Row P → Bool) (next : ℕ) (rows : List (Row P))
      → All (RowFits next) rows
      → attempts_left rows ≡ 0
      → (Table.count p rows == 0) ≡ true
  unfolding attempts_left Table.count
  spent p next [] f e = refl
  spent p next (r ∷ rs) f e = absurd (omega (arith, f.0))

  attempts_left-le : (rows : List (Row P)) → attempts_left rows ≤ max_attempts * length rows
  unfolding attempts_left
  attempts_left-le [] = omega arith
  attempts_left-le (r ∷ rs) = omega (arith, attempts_left-le rs)

module _ {P F : Type 0} where
  -- Every write of this client is a lead, and stays one.
  fail-All-IsLead :
      (i job_id : ℕ) (kind : String) (payload : P) (error : String) (now : ℕ) (o : Outbox P F)
      → All IsLead o.rows
      → All IsLead (Outbox.fail i job_id kind payload error now o).rows
  unfolding Outbox.fail
  fail-All-IsLead i job_id kind payload error now o h =
      let n = attempts_or_zero (Table.first (has_id i) o.rows) + 1 in
      elim (Bool-cases (leb max_attempts n)) [
        | inl e ↦ rw e (All-delete IsLead (has_id i) o.rows h)
        | inr e ↦ rw e (
            All-update IsLead (has_id i) (λ r. record r { attempts = n; last_error = some error })
              (λ r _ l. l) o.rows h)
      ]

  fail_all-All-IsLead :
      (kind error : String) (now : ℕ) (bs : List (BatchItem P)) (o : Outbox P F)
      → All IsLead o.rows
      → All IsLead (fail_all kind error now bs o).rows
  unfolding fail_all
  fail_all-All-IsLead kind error now [] o h = h
  fail_all-All-IsLead kind error now (b ∷ bs) o h =
      fail_all-All-IsLead kind error now bs _
        (fail-All-IsLead b.id b.job_id kind b.payload error now o h)

  flush_batch-All-IsLead :
      (kind : String) (now : ℕ) (response : Option String) (bs : List (BatchItem P))
      (o : Outbox P F)
      → All IsLead o.rows
      → All IsLead (flush_batch kind now response bs o).1.rows
  unfolding settle Outbox.ack
  flush_batch-All-IsLead kind now response [] o h = h
  flush_batch-All-IsLead kind now none (b ∷ bs) o h = ack_rows-All-IsLead _ o.rows h
  flush_batch-All-IsLead kind now (some e) (b ∷ bs) o h =
      fail_all-All-IsLead kind e now (b ∷ bs) o h

  flush_kind-All-IsLead :
      (now : ℕ) (response : Option String) (o : Outbox P F)
      → All IsLead o.rows
      → All IsLead (flush_kind "lead" now response o).1.rows
  unfolding flush_kind
  flush_kind-All-IsLead now response o h = flush_batch-All-IsLead "lead" now response _ o h

  drain_attempts :
      (job_id now : ℕ) (responses : List (Option String)) (o : Outbox P F)
      → IsValid o
      → All IsLead o.rows
      → attempts_left o.rows ≤ length responses
      → Outbox.is_drained job_id (drain job_id now responses o) ≡ true
  unfolding drain Outbox.is_drained
  drain_attempts job_id now [] o v l h =
      spent (has_job job_id) o.next_id o.rows v.fits (omega arith)
  drain_attempts job_id now (r ∷ rs) o v l h =
      elim (Bool-cases (Table.count (has_job job_id) o.rows == 0)) [
        | inl e ↦ rw e e
        | inr e ↦ rw e (
            drain_attempts job_id now rs (flush_kind "lead" now r o).1
              (flush_kind-IsValid "lead" now r o v) (flush_kind-All-IsLead now r o l)
              (unfold Outbox.pending_batch in
                omega (
                  arith,
                  flush_kind-attempts_left "lead" now r o v,
                  lead_batch (has_job job_id) o.rows l e,
                )))
      ]

  -- Whatever the server answers, eight rounds for each pending lead empty the outbox of the job: the
  -- loop does not hang on leads that the server refuses. The outbox is valid and holds leads only.
  pub drain_total :
      (job_id now : ℕ) (responses : List (Option String)) (o : Outbox P F)
      → IsValid o
      → All IsLead o.rows
      → max_attempts * Outbox.pending_count o ≤ length responses
      → Outbox.is_drained job_id (drain job_id now responses o) ≡ true
  unfolding Outbox.pending_count
  drain_total job_id now responses o v l h =
      drain_attempts job_id now responses o v l (omega (arith, attempts_left-le o.rows))
