-- ===== src/CloudClient/Attempts.antt =====
-- The attempts that the pending rows have left: each flush uses some up for every row it posts.
use gov_crawler.Base.{
  ℕ, suc, ◌+◌, ◌-◌, ◌<◌, ◌≤◌, ◌≡◌, refl, String, Option, none, some, List, [], ◌∷◌, map, arith, All,
  length,
}
use gov_crawler.Base.Table
use gov_crawler.Base.Table.{All-delete, All-update, All-first}
use gov_crawler.Outbox
use gov_crawler.Outbox.{
  Outbox, Row, BatchItem, has_id, has_kind, has_job, to_item, max_attempts, attempts_or_zero,
}
use gov_crawler.Outbox.Rows.{
  Ascending, Ascending-delete, IsValid, RowFits, fail-IsValid, ack-IsValid,
}
use gov_crawler.CloudClient.Batch.{
  Stands, IdsDistinct, items-Stands, items-IdsDistinct, Stands-delete, All-Stands-fail,
}
use gov_crawler.CloudClient.{batch_size, fail_all, settle, flush_batch, flush_kind}

module _ {P : Type 0} where
  -- The attempts that the pending rows have left.
  unfoldable pub attempts_left : List (Row P) → ℕ
  attempts_left [] = 0
  attempts_left (r ∷ rs) = (max_attempts - r.attempts) + attempts_left rs

  delete_above :
      (j i : ℕ) (rows : List (Row P))
      → j ≡ i
      → All (λ (r : Row P). j < r.id) rows
      → Table.delete (has_id i) rows ≡ rows
  unfolding Table.delete
  delete_above j i [] e h = refl
  delete_above j i (r ∷ rs) e h = ground (arith, delete_above j i rs e h.1)

  update_above :
      (f : Row P → Row P) (j i : ℕ) (rows : List (Row P))
      → j ≡ i
      → All (λ (r : Row P). j < r.id) rows
      → Table.update (has_id i) f rows ≡ rows
  unfolding Table.update
  update_above f j i [] e h = refl
  update_above f j i (r ∷ rs) e h = ground (arith, update_above f j i rs e h.1)

  attempts_left-delete :
      (i : ℕ) (r : Row P) (rows : List (Row P))
      → Ascending rows
      → Table.first (has_id i) rows ≡ some r
      → attempts_left (Table.delete (has_id i) rows) + (max_attempts - r.attempts)
        ≡ attempts_left rows
  unfolding Table.delete Table.first attempts_left
  attempts_left-delete i r [] a h = cc
  attempts_left-delete i r (s ∷ rs) a h =
      ground (arith, delete_above s.id i rs, attempts_left-delete i r rs a.1)

  attempts_left-update :
      (i n : ℕ) (error : String) (r : Row P) (rows : List (Row P))
      → Ascending rows
      → Table.first (has_id i) rows ≡ some r
      → attempts_left (
            Table.update
              (has_id i)
              (λ (s : Row P). record s { attempts = n; last_error = some error })
              rows)
          + (max_attempts - r.attempts)
        ≡ attempts_left rows + (max_attempts - n)
  unfolding Table.update Table.first attempts_left
  attempts_left-update i n error r [] a h = cc
  attempts_left-update i n error r (s ∷ rs) a h = ground (
    arith,
    update_above (λ (t : Row P). record t { attempts = n; last_error = some error }) s.id i rs,
    attempts_left-update i n error r rs a.1,
  )

module _ {P F : Type 0} where
  fail-attempts_left :
      (b : BatchItem P) (kind error : String) (now : ℕ) (o : Outbox P F)
      → IsValid o
      → Stands o.rows b
      → suc (attempts_left (Outbox.fail b.id b.job_id kind b.payload error now o).rows)
        ≤ attempts_left o.rows
  unfolding Outbox.fail
  fail-attempts_left b kind error now o v (r, found, same) =
      let room : RowFits o.next_id r =
        All-first (RowFits {P = P} o.next_id) (has_id b.id) r o.rows v.fits found in
      rw found (
        ground (
          arith,
          room,
          attempts_left-delete b.id r o.rows v.ascending found,
          attempts_left-update b.id (r.attempts + 1) error r o.rows v.ascending found,
        ))

  fail_all-attempts_left :
      (kind error : String) (now : ℕ) (bs : List (BatchItem P)) (o : Outbox P F)
      → IsValid o
      → IdsDistinct bs
      → All (Stands o.rows) bs
      → attempts_left (fail_all kind error now bs o).rows + length bs ≤ attempts_left o.rows
  unfolding fail_all
  fail_all-attempts_left kind error now [] o v d s = omega arith
  fail_all-attempts_left kind error now (b ∷ bs) o v d s =
      let o' = Outbox.fail b.id b.job_id kind b.payload error now o in
      omega (
        arith,
        fail-attempts_left b kind error now o v s.0,
        fail_all-attempts_left kind error now bs o'
            (fail-IsValid b.id b.job_id kind b.payload error now o v) d.1
            (All-Stands-fail b kind error now o bs d.0 s.1),
      )

  fail_all-IsValid :
      (kind error : String) (now : ℕ) (bs : List (BatchItem P)) (o : Outbox P F)
      → IsValid o
      → IsValid (fail_all kind error now bs o)
  unfolding fail_all
  fail_all-IsValid kind error now [] o v = v
  fail_all-IsValid kind error now (b ∷ bs) o v =
      fail_all-IsValid kind error now bs _ (fail-IsValid b.id b.job_id kind b.payload error now o v)

module _ {P : Type 0} where
  ack_rows-attempts_left :
      (next : ℕ) (bs : List (BatchItem P)) (rows : List (Row P))
      → Ascending rows
      → All (RowFits next) rows
      → IdsDistinct bs
      → All (Stands rows) bs
      → attempts_left (Outbox.ack_rows (map (λ (b : BatchItem P). b.id) bs) rows) + length bs
        ≤ attempts_left rows
  unfolding Outbox.ack_rows
  ack_rows-attempts_left next [] rows a f d s = omega arith
  ack_rows-attempts_left next (b ∷ bs) rows a f d (head, s) =
      let room : RowFits next head.0 =
        All-first (RowFits next) (has_id b.id) head.0 rows f head.1 in
      omega (
        arith,
        room,
        attempts_left-delete b.id head.0 rows a head.1,
        ack_rows-attempts_left next bs (Table.delete (has_id b.id) rows)
            (Ascending-delete (has_id b.id) rows a) (All-delete (RowFits next) (has_id b.id) rows f)
            d.1 (Stands-delete b rows bs d.0 s),
      )

module _ {P F : Type 0} where
  flush_batch-attempts_left :
      (kind : String) (now : ℕ) (response : Option String) (bs : List (BatchItem P))
      (o : Outbox P F)
      → IsValid o
      → IdsDistinct bs
      → All (Stands o.rows) bs
      → attempts_left (flush_batch kind now response bs o).1.rows + length bs ≤ attempts_left o.rows
  unfolding settle Outbox.ack
  flush_batch-attempts_left kind now response [] o v d s = omega arith
  flush_batch-attempts_left kind now none (b ∷ bs) o v d s =
      ack_rows-attempts_left o.next_id (b ∷ bs) o.rows v.ascending v.fits d s
  flush_batch-attempts_left kind now (some e) (b ∷ bs) o v d s =
      fail_all-attempts_left kind e now (b ∷ bs) o v d s

  flush_batch-IsValid :
      (kind : String) (now : ℕ) (response : Option String) (bs : List (BatchItem P))
      (o : Outbox P F)
      → IsValid o
      → IsValid (flush_batch kind now response bs o).1
  unfolding settle
  flush_batch-IsValid kind now response [] o v = v
  flush_batch-IsValid kind now none (b ∷ bs) o v = ack-IsValid _ o v
  flush_batch-IsValid kind now (some e) (b ∷ bs) o v = fail_all-IsValid kind e now (b ∷ bs) o v

  -- A flush keeps the invariant of the outbox.
  pub flush_kind-IsValid :
      (kind : String) (now : ℕ) (response : Option String) (o : Outbox P F)
      → IsValid o
      → IsValid (flush_kind kind now response o).1
  unfolding flush_kind
  flush_kind-IsValid kind now response o v = flush_batch-IsValid kind now response _ o v

  pub flush_kind-attempts_left :
      (kind : String) (now : ℕ) (response : Option String) (o : Outbox P F)
      → IsValid o
      → attempts_left (flush_kind kind now response o).1.rows
          + length (Outbox.pending_batch kind batch_size o)
        ≤ attempts_left o.rows
  unfolding flush_kind Outbox.pending_batch
  flush_kind-attempts_left kind now response o v =
      flush_batch-attempts_left kind now response (Outbox.pending_batch kind batch_size o) o v
        (items-IdsDistinct kind batch_size o.rows v.ascending)
        (items-Stands kind batch_size o.rows v.ascending)
