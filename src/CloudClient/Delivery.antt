-- ===== src/CloudClient/Delivery.antt =====
-- Where each pending lead goes in a flush: it is delivered, kept or dead-lettered.
use gov_crawler.Base.{
  ℕ, ◌+◌, ◌≡◌, refl, ap, ◌∙◌, Bool, String, Option, none, some, List, [], ◌∷◌, map, arith, leb,
  if◌then◌else◌, All, Bool-cases, inl, inr,
}
use gov_crawler.Base.Table
use gov_crawler.Base.Table.{count-append, count-delete, count-update}
use gov_crawler.Outbox
use gov_crawler.Outbox.{
  Outbox, Row, DeadRow, BatchItem, has_id, has_kind, to_item, max_attempts, attempts_or_zero,
}
use gov_crawler.Outbox.Rows.{Ascending, Ascending-delete, IsValid, fail-IsValid}
use gov_crawler.CloudClient.Batch.{
  Stands, IdsDistinct, select_id, items-Stands, items-IdsDistinct, Stands-delete, All-Stands-fail,
}
use gov_crawler.CloudClient.{batch_size, fail_all, settle, flush_batch, flush_kind, posted}

module _ {P F : Type 0} where
  -- How many payloads that satisfy `q` are pending, and how many are dead-lettered.
  abbrev pub pending : (P → Bool) → Outbox P F → ℕ
  pending q o = Table.count (λ (r : Row P). q r.payload) o.rows

  abbrev pub buried : (P → Bool) → Outbox P F → ℕ
  buried q o = Table.count (λ (d : DeadRow P). q d.payload) o.dead

module _ {P F : Type 0} where
  dead_letter-conserves :
      (q : P → Bool) (b : BatchItem P) (r : Row P) (kind error : String) (now : ℕ) (o : Outbox P F)
      → Table.select (has_id b.id) o.rows ≡ r ∷ []
      → r.payload ≡ b.payload
      → let o' = Outbox.dead_letter b.id b.job_id kind b.payload error now o in
        pending q o' + buried q o' ≡ pending q o + buried q o
  unfolding Outbox.dead_letter Table.count
  dead_letter-conserves q b r kind error now o one same =
      rw (count-append (λ (d : DeadRow P). q d.payload) o.dead _) (
        omega (
          arith,
          count-delete (has_id b.id) (λ (s : Row P). q s.payload) o.rows,
          ap (Table.count (λ (s : Row P). q s.payload)) one,
          ap (λ (x : P). (if q x then 1 else 0) + 0) same,
        ))

  retry_later-conserves :
      (q : P → Bool) (i n : ℕ) (error : String) (o : Outbox P F)
      → let o' = Outbox.retry_later i n error o in
        pending q o' + buried q o' ≡ pending q o + buried q o
  unfolding Outbox.retry_later
  retry_later-conserves q i n error o = rw (
      count-update (λ (s : Row P). q s.payload) (has_id i)
        (λ (r : Row P). record r { attempts = n; last_error = some error }) (λ r. refl) o.rows)

  -- One failure of a pending row: the lead stays pending, or it is in the dead-letter table.
  pub fail-conserves :
      (q : P → Bool) (b : BatchItem P) (kind error : String) (now : ℕ) (o : Outbox P F)
      → Ascending o.rows
      → Stands o.rows b
      → let o' = Outbox.fail b.id b.job_id kind b.payload error now o in
        pending q o' + buried q o' ≡ pending q o + buried q o
  unfolding Outbox.fail
  fail-conserves q b kind error now o a (r, found, same) =
      let n = attempts_or_zero (Table.first (has_id b.id) o.rows) + 1 in
      elim (Bool-cases (leb max_attempts n)) [
        | inl e ↦
            rw e
              (dead_letter-conserves q b r kind error now o (select_id b.id r o.rows a found) same)
        | inr e ↦ rw e (retry_later-conserves q b.id n error o)
      ]

  pub fail_all-conserves :
      (q : P → Bool) (kind error : String) (now : ℕ) (bs : List (BatchItem P)) (o : Outbox P F)
      → IsValid o
      → IdsDistinct bs
      → All (Stands o.rows) bs
      → let o' = fail_all kind error now bs o in
        pending q o' + buried q o' ≡ pending q o + buried q o
  unfolding fail_all
  fail_all-conserves q kind error now [] o v d s = refl
  fail_all-conserves q kind error now (b ∷ bs) o v d s =
      fail_all-conserves q kind error now bs _
        (fail-IsValid b.id b.job_id kind b.payload error now o v) d.1
        (All-Stands-fail b kind error now o bs d.0 s.1)
      ∙ fail-conserves q b kind error now o v.ascending s.0

module _ {P : Type 0} where
  -- An acknowledged batch leaves the table; nothing else does.
  pub ack_rows-conserves :
      (q : P → Bool) (bs : List (BatchItem P)) (rows : List (Row P))
      → Ascending rows
      → IdsDistinct bs
      → All (Stands rows) bs
      → Table.count
            (λ (r : Row P). q r.payload)
            (Outbox.ack_rows (map (λ (b : BatchItem P). b.id) bs) rows)
          + Table.count q (map (λ (b : BatchItem P). b.payload) bs)
        ≡ Table.count (λ (r : Row P). q r.payload) rows
  unfolding Outbox.ack_rows Table.count
  ack_rows-conserves q [] rows a d s = omega arith
  ack_rows-conserves q (b ∷ bs) rows a d (head, s) =
      let kept = Table.delete (has_id b.id) rows in
      omega (
        arith,
        ack_rows-conserves q bs kept (Ascending-delete (has_id b.id) rows a) d.1
            (Stands-delete b rows bs d.0 s),
        count-delete (has_id b.id) (λ (r : Row P). q r.payload) rows,
        ap (Table.count (λ (r : Row P). q r.payload)) (select_id b.id head.0 rows a head.1),
        ap (λ (x : P). (if q x then 1 else 0) + 0) head.2,
      )

-- What the server has taken over in a flush: the posted payloads, if it accepted them.
abbrev pub accepted : {P : Type 0} → Option String → List P → List P
accepted none ps = ps
accepted (some _) ps = []

module _ {P F : Type 0} where
  settle-conserves :
      (q : P → Bool) (kind : String) (now : ℕ) (response : Option String) (bs : List (BatchItem P))
      (o : Outbox P F)
      → IsValid o
      → IdsDistinct bs
      → All (Stands o.rows) bs
      → let o' = (settle kind now response bs o).1 in
        pending q o'
          + buried q o'
          + Table.count q (accepted response (map (λ (b : BatchItem P). b.payload) bs))
        ≡ pending q o + buried q o
  unfolding settle Outbox.ack Table.count
  settle-conserves q kind now none bs o v d s =
      omega (arith, ack_rows-conserves q bs o.rows v.ascending d s)
  settle-conserves q kind now (some e) bs o v d s =
      omega (arith, fail_all-conserves q kind e now bs o v d s)

  flush_batch-conserves :
      (q : P → Bool) (kind : String) (now : ℕ) (response : Option String) (bs : List (BatchItem P))
      (o : Outbox P F)
      → IsValid o
      → IdsDistinct bs
      → All (Stands o.rows) bs
      → let o' = (flush_batch kind now response bs o).1 in
        pending q o'
          + buried q o'
          + Table.count q (accepted response (map (λ (b : BatchItem P). b.payload) bs))
        ≡ pending q o + buried q o
  unfolding Table.count
  flush_batch-conserves q kind now none [] o v d s = omega arith
  flush_batch-conserves q kind now (some e) [] o v d s = omega arith
  flush_batch-conserves q kind now response (b ∷ bs) o v d s =
      settle-conserves q kind now response (b ∷ bs) o v d s

  -- For any set of payloads, after a flush: pending + dead-lettered + accepted by the server =
  -- pending + dead-lettered before, in any valid outbox. So a flush loses no lead, duplicates
  -- none, and takes a lead for delivered only if the server accepted the post.
  pub flush_kind-conserves :
      (q : P → Bool) (kind : String) (now : ℕ) (response : Option String) (o : Outbox P F)
      → IsValid o
      → let o' = (flush_kind kind now response o).1 in
        pending q o' + buried q o' + Table.count q (accepted response (posted kind o))
        ≡ pending q o + buried q o
  unfolding flush_kind posted Outbox.pending_batch
  flush_kind-conserves q kind now response o v =
      flush_batch-conserves q kind now response (Outbox.pending_batch kind batch_size o) o v
        (items-IdsDistinct kind batch_size o.rows v.ascending)
        (items-Stands kind batch_size o.rows v.ascending)
