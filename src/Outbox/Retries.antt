-- ===== src/Outbox/Retries.antt =====
-- How often a row is tried, and the checkpoint table.
use gov_crawler.Base.{
  ℕ, zero, suc, ◌+◌, ◌<◌, ◌≤◌, ◌∙◌, ◌≡◌, refl, ap, true, String, none, some, List, [], ◌∷◌, arith,
  leb, ◌==◌, if◌then◌else◌, length, length-snoc,
}
use gov_crawler.Base.Table
use gov_crawler.Base.Table.{All-first}
use gov_crawler.Outbox.{
  Row, DeadRow, FrontierRow, Outbox, has_id, max_attempts, fail, upsert, is_frontier_of,
  snapshot_of, save_frontier, load_frontier, clear_frontier,
}

module _ {P : Type 0} where
  first-delete_self :
      (i : ℕ) (rows : List (Row P)) → Table.first (has_id i) (Table.delete (has_id i) rows) ≡ none
  unfolding Table.first Table.delete
  first-delete_self i [] = refl
  first-delete_self i (r ∷ rs) = ground (arith, first-delete_self i rs)

  first-update_self :
      (i : ℕ) (f : Row P → Row P) (r : Row P) (rows : List (Row P))
      → ((s : Row P) → (f s).id ≡ s.id)
      → Table.first (has_id i) rows ≡ some r
      → Table.first (has_id i) (Table.update (has_id i) f rows) ≡ some (f r)
  unfolding Table.first Table.update
  first-update_self i f r [] same h = cc
  first-update_self i f r (s ∷ rs) same h = ground (arith, same s, first-update_self i f r rs same)

module _ {P F : Type 0} where
  -- `fail` on the same row, n times.
  pub fail_times : ℕ → ℕ → ℕ → String → P → String → ℕ → Outbox P F → Outbox P F
  fail_times zero i job_id kind payload error now o = o
  fail_times (suc n) i job_id kind payload error now o =
      fail_times n i job_id kind payload error now (fail i job_id kind payload error now o)

  fail_again :
      (i job_id : ℕ) (kind : String) (payload : P) (error : String) (now : ℕ) (r : Row P)
      (o : Outbox P F)
      → Table.first (has_id i) o.rows ≡ some r
      → r.attempts + 1 < max_attempts
      → let o' = fail i job_id kind payload error now o in
        (Table.first (has_id i) o'.rows
          ≡ some (record r { attempts = r.attempts + 1; last_error = some error }))
        × (o'.dead ≡ o.dead)
  unfolding fail
  fail_again i job_id kind payload error now r o found h = rw found (
      ground (
        arith,
        first-update_self i
            (λ (s : Row P). record s { attempts = r.attempts + 1; last_error = some error }) r
            o.rows (λ s. refl) found,
      ))

  fail_last :
      (i job_id : ℕ) (kind : String) (payload : P) (error : String) (now : ℕ) (r : Row P)
      (o : Outbox P F)
      → Table.first (has_id i) o.rows ≡ some r
      → max_attempts ≤ r.attempts + 1
      → let o' = fail i job_id kind payload error now o in
        (Table.first (has_id i) o'.rows ≡ none) × (length o'.dead ≡ suc (length o.dead))
  unfolding fail
  fail_last i job_id kind payload error now r o found h =
      let spent : leb max_attempts (r.attempts + 1) ≡ true = ground arith in
      rw found (rw spent (first-delete_self i o.rows, length-snoc o.dead _))

  tried :
      (n i job_id : ℕ) (kind : String) (payload : P) (error : String) (now : ℕ) (r : Row P)
      (o : Outbox P F)
      → Table.first (has_id i) o.rows ≡ some r
      → r.attempts + suc n < max_attempts
      → let o' = fail_times (suc n) i job_id kind payload error now o in
        (Table.first (has_id i) o'.rows
          ≡ some (record r { attempts = r.attempts + suc n; last_error = some error }))
        × (o'.dead ≡ o.dead)
  unfolding fail_times
  tried zero i job_id kind payload error now r o found h =
      fail_again i job_id kind payload error now r o found h
  tried (suc n) i job_id kind payload error now r o found h =
      let one = fail_again i job_id kind payload error now r o found (omega arith) in
      let more =
        tried n i job_id kind payload error now
          (record r { attempts = r.attempts + 1; last_error = some error })
          (fail i job_id kind payload error now o) one.0 (omega arith) in
      let same : r.attempts + 1 + suc n ≡ r.attempts + suc (suc n) = omega arith in
      (
        more.0 ∙ ap (λ k. some (record r { attempts = k; last_error = some error })) same,
        more.1 ∙ one.1,
      )

  fail_times-suc :
      (n i job_id : ℕ) (kind : String) (payload : P) (error : String) (now : ℕ) (o : Outbox P F)
      → fail_times (suc n) i job_id kind payload error now o
        ≡ fail i job_id kind payload error now (fail_times n i job_id kind payload error now o)
  unfolding fail_times
  fail_times-suc zero i job_id kind payload error now o = refl
  fail_times-suc (suc n) i job_id kind payload error now o =
      fail_times-suc n i job_id kind payload error now (fail i job_id kind payload error now o)

  -- A pending row that has had no failure is still pending after seven failures, with seven
  -- attempts counted and no dead-letter row added; the eighth takes it out of the table and adds one
  -- dead-letter row.
  pub retries_exact :
      (i job_id : ℕ) (kind : String) (payload : P) (error : String) (now : ℕ) (r : Row P)
      (o : Outbox P F)
      → Table.first (has_id i) o.rows ≡ some r
      → r.attempts ≡ 0
      → let seven = fail_times 7 i job_id kind payload error now o in
        let eight = fail_times 8 i job_id kind payload error now o in
        (Table.first (has_id i) seven.rows
          ≡ some (record r { attempts = 7; last_error = some error }))
        × (seven.dead ≡ o.dead)
        × (Table.first (has_id i) eight.rows ≡ none)
        × (length eight.dead ≡ suc (length o.dead))
  retries_exact i job_id kind payload error now r o found fresh =
      let seven = tried 6 i job_id kind payload error now r o found (omega arith) in
      let at_seven : r.attempts + 7 ≡ 7 = omega arith in
      let last =
        fail_last i job_id kind payload error now
          (record r { attempts = r.attempts + 7; last_error = some error })
          (fail_times 7 i job_id kind payload error now o) seven.0 (omega arith) in
      (
        seven.0 ∙ ap (λ k. some (record r { attempts = k; last_error = some error })) at_seven,
        seven.1,
        rw (fail_times-suc 7 i job_id kind payload error now o) last.0,
        rw (fail_times-suc 7 i job_id kind payload error now o)
            (last.1 ∙ ap (λ (d : List (DeadRow P)). suc (length d)) seven.1),
      )

module _ {F : Type 0} where
  first-upsert :
      (j k : ℕ) (snapshot : F) (now : ℕ) (rows : List (FrontierRow F))
      → snapshot_of (Table.first (is_frontier_of j) (upsert k snapshot now rows))
        ≡ (if k == j then some snapshot else snapshot_of (Table.first (is_frontier_of j) rows))
  unfolding Table.first upsert
  first-upsert j k snapshot now [] = ground arith
  first-upsert j k snapshot now (r ∷ rs) = ground (arith, first-upsert j k snapshot now rs)

  first-delete :
      (j k : ℕ) (rows : List (FrontierRow F))
      → snapshot_of (Table.first (is_frontier_of j) (Table.delete (is_frontier_of k) rows))
        ≡ (if k == j then none else snapshot_of (Table.first (is_frontier_of j) rows))
  unfolding Table.first Table.delete
  first-delete j k [] = ground arith
  first-delete j k (r ∷ rs) = ground (arith, first-delete j k rs)

module _ {P F : Type 0} where
  -- A saved checkpoint is what a later load of the job gives back, also over an older one; a
  -- cleared one is gone; and neither changes what another job loads.
  pub load_frontier-save-clear :
      (j k : ℕ) (snapshot : F) (now : ℕ) (o : Outbox P F)
      → (load_frontier j (save_frontier k snapshot now o)
          ≡ (if k == j then some snapshot else load_frontier j o))
        × (load_frontier j (clear_frontier k o) ≡ (if k == j then none else load_frontier j o))
  unfolding load_frontier save_frontier clear_frontier
  load_frontier-save-clear j k snapshot now o =
      (first-upsert j k snapshot now o.frontier, first-delete j k o.frontier)
