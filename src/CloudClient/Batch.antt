-- ===== src/CloudClient/Batch.antt =====
-- The batch of a flush against the table: each item's row stands in it, under an id of its own.
use gov_crawler.Base.{
  ℕ, suc, ◌+◌, ◌<◌, ◌≡◌, ◌≢◌, refl, ◌∙◌, String, some, List, [], ◌∷◌, map, arith, All, All-imp,
  take, zero, Bool-cases, inl, inr,
}
use gov_crawler.Base.Table
use gov_crawler.Base.Table.{count-append, count-delete, count-update}
use gov_crawler.Outbox
use gov_crawler.Outbox.{
  Outbox, Row, DeadRow, BatchItem, has_id, has_kind, to_item, max_attempts, attempts_or_zero,
}
use gov_crawler.Outbox.Rows.{Ascending}

module _ {P : Type 0} where
  -- The item's row is in the table, with the item's payload.
  abbrev pub Stands : List (Row P) → BatchItem P → Type 0
  Stands rows b = (r : Row P) × (Table.first (has_id b.id) rows ≡ some r) × (r.payload ≡ b.payload)

  abbrev pub IdsDistinct : List (BatchItem P) → Type 0
  IdsDistinct [] = Unit
  IdsDistinct (b ∷ bs) = All (λ (c : BatchItem P). c.id ≢ b.id) bs × IdsDistinct bs

  select_above :
      (j i : ℕ) (rows : List (Row P))
      → j ≡ i
      → All (λ (r : Row P). j < r.id) rows
      → Table.select (has_id i) rows ≡ []
  unfolding Table.select
  select_above j i [] e h = refl
  select_above j i (r ∷ rs) e h = ground (arith, select_above j i rs e h.1)

  -- Ids ascend, so an id selects the one row that has it.
  pub select_id :
      (i : ℕ) (r : Row P) (rows : List (Row P))
      → Ascending rows
      → Table.first (has_id i) rows ≡ some r
      → Table.select (has_id i) rows ≡ r ∷ []
  unfolding Table.select Table.first
  select_id i r [] a h = cc
  select_id i r (s ∷ rs) a h = ground (arith, select_above s.id i rs, select_id i r rs a.1)

  first-delete_ne :
      (i j : ℕ) (rows : List (Row P))
      → i ≢ j
      → Table.first (has_id i) (Table.delete (has_id j) rows) ≡ Table.first (has_id i) rows
  unfolding Table.delete Table.first
  first-delete_ne i j [] h = refl
  first-delete_ne i j (r ∷ rs) h = ground (arith, first-delete_ne i j rs h)

  first-update_ne :
      (i j : ℕ) (f : Row P → Row P) (rows : List (Row P))
      → i ≢ j
      → ((r : Row P) → (f r).id ≡ r.id)
      → Table.first (has_id i) (Table.update (has_id j) f rows) ≡ Table.first (has_id i) rows
  unfolding Table.update Table.first
  first-update_ne i j f [] h same = refl
  first-update_ne i j f (r ∷ rs) h same = ground (arith, same r, first-update_ne i j f rs h same)

module _ {P : Type 0} where
  first_here : (r : Row P) (rows : List (Row P)) → Table.first (has_id r.id) (r ∷ rows) ≡ some r
  unfolding Table.first
  first_here r rows = ground arith

  first_there :
      (i : ℕ) (r : Row P) (rows : List (Row P))
      → r.id < i
      → Table.first (has_id i) (r ∷ rows) ≡ Table.first (has_id i) rows
  unfolding Table.first
  first_there i r rows h = ground arith

  Stands-there :
      (r : Row P) (rows : List (Row P)) (b : BatchItem P)
      → r.id < b.id
      → Stands rows b
      → Stands (r ∷ rows) b
  Stands-there r rows b h (s, found, same) = (s, first_there b.id r rows h ∙ found, same)

  -- The items of a sublist of the table that is taken by `select` and `take`.
  abbrev items : String → ℕ → List (Row P) → List (BatchItem P)
  items kind n rows = map to_item (take n (Table.select (has_kind kind) rows))

  items_above :
      (kind : String) (i n : ℕ) (rows : List (Row P))
      → All (λ (r : Row P). i < r.id) rows
      → All (λ (c : BatchItem P). i < c.id) (items kind n rows)
  unfolding Table.select
  items_above kind i zero rows h = tt
  items_above kind i (suc n) [] h = tt
  items_above kind i (suc n) (r ∷ rs) h = elim (Bool-cases (has_kind kind r)) [
    | inl e ↦ rw e (h.0, items_above kind i n rs h.1)
    | inr e ↦ rw e (items_above kind i (suc n) rs h.1)
  ]

  All-Stands-there :
      (r : Row P) (rows : List (Row P)) (bs : List (BatchItem P))
      → All (λ (c : BatchItem P). r.id < c.id) bs
      → All (Stands rows) bs
      → All (Stands (r ∷ rows)) bs
  All-Stands-there r rows [] h s = tt
  All-Stands-there r rows (b ∷ bs) h s =
      (Stands-there r rows b h.0 s.0, All-Stands-there r rows bs h.1 s.1)

  pub items-Stands :
      (kind : String) (n : ℕ) (rows : List (Row P))
      → Ascending rows
      → All (Stands rows) (items kind n rows)
  unfolding Table.select
  items-Stands kind zero rows a = tt
  items-Stands kind (suc n) [] a = tt
  items-Stands kind (suc n) (r ∷ rs) a = elim (Bool-cases (has_kind kind r)) [
    | inl e ↦ rw e (
      (r, first_here r rs, refl),
      All-Stands-there r rs (items kind n rs) (items_above kind r.id n rs a.0)
          (items-Stands kind n rs a.1),
    )
    | inr e ↦ rw e (
        All-Stands-there r rs (items kind (suc n) rs) (items_above kind r.id (suc n) rs a.0)
          (items-Stands kind (suc n) rs a.1))
  ]

  pub items-IdsDistinct :
      (kind : String) (n : ℕ) (rows : List (Row P))
      → Ascending rows
      → IdsDistinct (items kind n rows)
  unfolding Table.select
  items-IdsDistinct kind zero rows a = tt
  items-IdsDistinct kind (suc n) [] a = tt
  items-IdsDistinct kind (suc n) (r ∷ rs) a = elim (Bool-cases (has_kind kind r)) [
    | inl e ↦ rw e (
      All-imp (λ c lt. λ (same : c.id ≡ r.id). absurd (omega arith)) _
          (items_above kind r.id n rs a.0),
      items-IdsDistinct kind n rs a.1,
    )
    | inr e ↦ rw e (items-IdsDistinct kind (suc n) rs a.1)
  ]

  pub Stands-delete :
      (b : BatchItem P) (rows : List (Row P)) (cs : List (BatchItem P))
      → All (λ (c : BatchItem P). c.id ≢ b.id) cs
      → All (Stands rows) cs
      → All (Stands (Table.delete (has_id b.id) rows)) cs
  Stands-delete b rows [] d s = tt
  Stands-delete b rows (c ∷ cs) d s =
      ((s.0.0, first-delete_ne c.id b.id rows d.0 ∙ s.0.1, s.0.2), Stands-delete b rows cs d.1 s.1)

module _ {P F : Type 0} where
  first-fail_ne :
      (i j job_id : ℕ) (kind : String) (payload : P) (error : String) (now : ℕ) (o : Outbox P F)
      → i ≢ j
      → Table.first (has_id i) (Outbox.fail j job_id kind payload error now o).rows
        ≡ Table.first (has_id i) o.rows
  unfolding Outbox.fail
  first-fail_ne i j job_id kind payload error now o h = ground (
    arith,
    first-delete_ne i j o.rows h,
    first-update_ne i j
        (λ (r : Row P). record r {
          attempts = attempts_or_zero (Table.first (has_id j) o.rows) + 1;
          last_error = some error;
        })
        o.rows h (λ r. refl),
  )

  Stands-fail :
      (b c : BatchItem P) (kind error : String) (now : ℕ) (o : Outbox P F)
      → c.id ≢ b.id
      → Stands o.rows c
      → Stands (Outbox.fail b.id b.job_id kind b.payload error now o).rows c
  Stands-fail b c kind error now o ne (r, found, same) =
      (r, rw (first-fail_ne c.id b.id b.job_id kind b.payload error now o ne) found, same)

  pub All-Stands-fail :
      (b : BatchItem P) (kind error : String) (now : ℕ) (o : Outbox P F) (cs : List (BatchItem P))
      → All (λ (c : BatchItem P). c.id ≢ b.id) cs
      → All (Stands o.rows) cs
      → All (Stands (Outbox.fail b.id b.job_id kind b.payload error now o).rows) cs
  All-Stands-fail b kind error now o [] d s = tt
  All-Stands-fail b kind error now o (c ∷ cs) d s =
      (Stands-fail b c kind error now o d.0 s.0, All-Stands-fail b kind error now o cs d.1 s.1)
