-- ===== src/Outbox/Rows.antt =====
-- The invariant of the rows, and what each method of the outbox does to it.
use gov_crawler.Base.{
  ℕ, suc, ◌+◌, ◌<◌, ◌≡◌, refl, Bool, leb, true, false, String, List, [], ◌∷◌, ◌++◌, arith,
  if◌then◌else◌, All, All-append, All-imp, Bool-cases, inl, inr,
}
use gov_crawler.Base.Table
use gov_crawler.Base.Table.{All-delete, All-update}
use gov_crawler.Outbox.{
  Row, Outbox, empty, has_id, max_attempts, enqueue, ack_rows, ack, attempts_or_zero, dead_letter,
  retry_later, fail,
}

module _ {P : Type 0} where
  -- The ids ascend, as AUTOINCREMENT hands them out.
  abbrev pub Ascending : List (Row P) → Type 0
  Ascending [] = Unit
  Ascending (r ∷ rs) = All (λ (s : Row P). r.id < s.id) rs × Ascending rs

  abbrev pub RowFits : ℕ → Row P → Type 0
  RowFits next r = (r.id < next) × (r.attempts < max_attempts)

  Ascending-append :
      (r : Row P) (rs : List (Row P))
      → Ascending rs
      → All (λ (s : Row P). s.id < r.id) rs
      → Ascending (rs ++ r ∷ [])
  Ascending-append r [] a h = (tt, tt)
  Ascending-append r (s ∷ rs) a h = (
    All-append (λ (t : Row P). s.id < t.id) rs (r ∷ []) a.0 (h.0, tt),
    Ascending-append r rs a.1 h.1,
  )

  pub Ascending-delete :
      (p : Row P → Bool) (rs : List (Row P)) → Ascending rs → Ascending (Table.delete p rs)
  unfolding Table.delete
  Ascending-delete p [] a = tt
  Ascending-delete p (r ∷ rs) a = elim (Bool-cases (p r)) [
    | inl e ↦ rw e (Ascending-delete p rs a.1)
    | inr e ↦ rw e (All-delete (λ (s : Row P). r.id < s.id) p rs a.0, Ascending-delete p rs a.1)
  ]

  Ascending-update :
      (p : Row P → Bool) (f : Row P → Row P)
      → ((r : Row P) → (f r).id ≡ r.id)
      → (rs : List (Row P)) → Ascending rs
      → Ascending (Table.update p f rs)
  unfolding Table.update
  Ascending-update p f same [] a = tt
  Ascending-update p f same (r ∷ rs) a = (
    rw (head_id (p r))
        (All-update (λ (s : Row P). r.id < s.id) p f (λ s _ h. rw (same s) h) rs a.0),
    Ascending-update p f same rs a.1,
  )
    where
      head_id : (b : Bool) → (if b then f r else r).id ≡ r.id
      head_id true = same r
      head_id false = refl

module _ {P : Type 0} where
  ack_rows-Ascending :
      (ids : List ℕ) (rows : List (Row P)) → Ascending rows → Ascending (ack_rows ids rows)
  unfolding ack_rows
  ack_rows-Ascending [] rows a = a
  ack_rows-Ascending (i ∷ ids) rows a =
      ack_rows-Ascending ids _ (Ascending-delete (has_id i) rows a)

  ack_rows-All :
      (Q : Row P → Type 0) (ids : List ℕ) (rows : List (Row P))
      → All Q rows
      → All Q (ack_rows ids rows)
  unfolding ack_rows
  ack_rows-All Q [] rows a = a
  ack_rows-All Q (i ∷ ids) rows a = ack_rows-All Q ids _ (All-delete Q (has_id i) rows a)

pub record IsValid {P F : Type 0} (o : Outbox P F) : Type 0 where
  pub ascending : Ascending o.rows
  pub fits : All (RowFits {P = P} o.next_id) o.rows

module _ {P F : Type 0} where
  pub empty-IsValid : IsValid (empty {P = P} {F = F})
  empty-IsValid = record { ascending = tt; fits = tt }

  -- A queued write keeps the invariant: its id is fresh and it has no failed attempt.
  pub enqueue-IsValid :
      (job_id : ℕ) (kind : String) (payload : P) (now : ℕ) (o : Outbox P F)
      → IsValid o
      → IsValid (enqueue job_id kind payload now o)
  unfolding enqueue
  enqueue-IsValid job_id kind payload now o v = record {
    ascending = Ascending-append _ o.rows v.ascending (All-imp (λ r h. h.0) o.rows v.fits);
    fits =
        All-append (RowFits {P = P} (suc o.next_id)) o.rows _
          (All-imp (λ r h. (omega arith, h.1)) o.rows v.fits) ((omega arith, omega arith), tt);
  }

  pub ack-IsValid : (ids : List ℕ) (o : Outbox P F) → IsValid o → IsValid (ack ids o)
  unfolding ack
  ack-IsValid ids o v = record {
    ascending = ack_rows-Ascending ids o.rows v.ascending;
    fits = ack_rows-All (RowFits {P = P} o.next_id) ids o.rows v.fits;
  }

  dead_letter-IsValid :
      (i job_id : ℕ) (kind : String) (payload : P) (error : String) (now : ℕ) (o : Outbox P F)
      → IsValid o
      → IsValid (dead_letter i job_id kind payload error now o)
  unfolding dead_letter
  dead_letter-IsValid i job_id kind payload error now o v = record {
    ascending = Ascending-delete (has_id i) o.rows v.ascending;
    fits = All-delete (RowFits {P = P} o.next_id) (has_id i) o.rows v.fits;
  }

  retry_later-IsValid :
      (i n : ℕ) (error : String) (o : Outbox P F)
      → n < max_attempts
      → IsValid o
      → IsValid (retry_later i n error o)
  unfolding retry_later
  retry_later-IsValid i n error o h v = record {
    ascending = Ascending-update (has_id i) _ (λ r. refl) o.rows v.ascending;
    fits = All-update (RowFits {P = P} o.next_id) (has_id i) _ (λ r _ p. (p.0, h)) o.rows v.fits;
  }

  -- A reported failure keeps the invariant: no row that stays pending has used all its attempts.
  pub fail-IsValid :
      (i job_id : ℕ) (kind : String) (payload : P) (error : String) (now : ℕ) (o : Outbox P F)
      → IsValid o
      → IsValid (fail i job_id kind payload error now o)
  unfolding fail
  fail-IsValid i job_id kind payload error now o v =
      let n = attempts_or_zero (Table.first (has_id i) o.rows) + 1 in
      elim (Bool-cases (leb max_attempts n)) [
        | inl e ↦ rw e (dead_letter-IsValid i job_id kind payload error now o v)
        | inr e ↦ rw e (retry_later-IsValid i n error o (ground arith) v)
      ]
