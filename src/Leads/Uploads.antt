-- ===== src/Leads/Uploads.antt =====
-- What an upload of contacts makes of the leads.
use gov_crawler.Base.{
  ℕ, ◌+◌, ◌≤◌, ◌<◌, ◌≡◌, refl, sym, ◌∙◌, subst, Bool, true, false, ◌&&◌, Option, none, some, List,
  [], ◌∷◌, ◌++◌, arith, ◌==◌, if◌then◌else◌, length, Bool-cases, inl, inr, length-snoc,
}
use gov_crawler.Base.Table
use gov_crawler.Base.Table.{first-update, first-eq-some, count-update, count-append}
use gov_crawler.Base.Selects.{first_unique}
use gov_crawler.Base.Text.{codes, any}
use gov_crawler.CsvImport.{ContactRow, SkippedRow}
use gov_crawler.Leads.{
  Lead, LeadTables, Occurrence, record_occurrence, has_email, rescored, add_lead,
}
use gov_crawler.Leads.Keeps.{lead_with, find_lead, find_lead-append}
use gov_crawler.Leads.Manual.{
  is_manual, uploaded_fields, manual_lead, Upload, recorded, upload_known, upload_new, upload_row,
  upload_rows, bulk_upsert_manual_leads,
}
use gov_crawler.Leads.Scoring.{Weights}

abbrev handled : Upload → ℕ
handled u = u.imported + u.updated + length u.skipped

module _ (w : Weights) (job_id : ℕ) (captured_by : Option ℕ) where
  -- The lead with the id, which no other lead has.
  abbrev pub Stays : ℕ → Lead → LeadTables → Type 0
  Stays i l db =
      (find_lead i db.leads ≡ some l)
      × (Table.count (lead_with i) db.leads ≤ 1)
      × (i < db.next_lead_id)

  recorded-Stays :
      (lead : ℕ) (i : ℕ) (l : Lead) (db : LeadTables)
      → Stays i l db
      → Stays i l (recorded lead job_id captured_by db)
  unfolding record_occurrence
  recorded-Stays lead i l db stays =
      go (any (λ (o : Occurrence). o.lead_id == lead && o.job_id == job_id) db.occurrences)
    where
      row : Occurrence
      row = record {
        lead_id = lead;
        job_id = job_id;
        captured_by = captured_by;
        source_url = codes "manual-csv-upload";
      }

      go :
          (b : Bool)
          → Stays i l (if b then db else record db { occurrences = db.occurrences ++ row ∷ [] })
      go true = stays
      go false = stays

  upload_known-Stays :
      (r : ContactRow) (existing : Lead) (i : ℕ) (l : Lead) (u : Upload)
      → Table.first (has_email r.email) u.tables.leads ≡ some existing
      → is_manual l ≡ false
      → Stays i l u.tables
      → Stays i l (upload_known w job_id captured_by r existing u).tables
  unfolding find_lead
  upload_known-Stays r existing i l u known crawled (found, one, small) =
      elim (Bool-cases (is_manual existing)) [
        | inr c ↦ rw c (recorded-Stays existing.id i l u.tables (found, one, small))
        | inl m ↦ rw m (recorded-Stays existing.id i l changed (still m, unique, small))
      ]
    where
      edit : Lead → Lead
      edit l' = rescored w (uploaded_fields r l')

      changed : LeadTables
      changed = record u.tables { leads = Table.update (lead_with existing.id) edit u.tables.leads }

      unique : Table.count (lead_with i) changed.leads ≤ 1
      unique =
          rw
            (count-update (lead_with i) (lead_with existing.id) edit (λ (a : Lead). refl)
              u.tables.leads)
            one

      own_id : l.id == i ≡ true
      own_id = first-eq-some (lead_with i) l u.tables.leads found

      clash : is_manual existing ≡ true → l.id == existing.id ≡ true → is_manual l ≡ true
      clash m same =
          subst (λ (x : Lead). is_manual x ≡ true)
            (first_unique (lead_with i) (has_email r.email) existing l u.tables.leads one known
              (ground (arith, own_id, same)) found)
            m

      true_ne_false : true ≡ false → ⊥
      true_ne_false e = cc

      other : is_manual existing ≡ true → l.id == existing.id ≡ false
      other m = elim (Bool-cases (l.id == existing.id)) [
        | inr e ↦ e
        | inl e ↦ absurd (true_ne_false (sym (clash m e) ∙ crawled))
      ]

      still : is_manual existing ≡ true → find_lead i changed.leads ≡ some l
      still m =
          rw
            (
              first-update (lead_with existing.id) (lead_with i) edit (λ (a : Lead). refl)
                  u.tables.leads,
              found,
              other m,
            )
            refl

  upload_new-Stays :
      (r : ContactRow) (i : ℕ) (l : Lead) (u : Upload)
      → Stays i l u.tables
      → Stays i l (upload_new w job_id captured_by r u).tables
  unfolding find_lead Table.count
  upload_new-Stays r i l u (found, one, small) =
      recorded-Stays u.tables.next_lead_id i l (add_lead new u.tables) (
        find_lead-append i l u.tables.leads new found,
        rw (count-append (lead_with i) u.tables.leads (new ∷ [])) (ground (arith, one, small)),
        omega (arith, small),
      )
    where
      new : Lead
      new = manual_lead w job_id r u.tables.next_lead_id

  upload_row-Stays :
      (r : ContactRow) (i : ℕ) (l : Lead) (u : Upload)
      → is_manual l ≡ false
      → Stays i l u.tables
      → Stays i l (upload_row w job_id captured_by r u).tables
  unfolding upload_row
  upload_row-Stays r i l u crawled stays = go (Table.first (has_email r.email) u.tables.leads) refl
    where
      go :
          (o : Option Lead)
          → Table.first (has_email r.email) u.tables.leads ≡ o
          → Stays i l (
              (elim o as (λ _. Upload) [
                | some existing ↦ upload_known w job_id captured_by r existing u
                | none ↦ upload_new w job_id captured_by r u
              ]).tables)
      go none e = upload_new-Stays r i l u stays
      go (some existing) e = upload_known-Stays r existing i l u e crawled stays

  upload_row-handled :
      (r : ContactRow) (u : Upload) → handled (upload_row w job_id captured_by r u) ≡ handled u + 1
  unfolding upload_row
  upload_row-handled r u = go (Table.first (has_email r.email) u.tables.leads)
    where
      refused : SkippedRow
      refused = record {
        row = r.row;
        email = some r.email;
        reason = codes "email already exists as a crawled lead";
      }

      go :
          (o : Option Lead)
          → handled (elim o as (λ _. Upload) [
            | some existing ↦ upload_known w job_id captured_by r existing u
            | none ↦ upload_new w job_id captured_by r u
          ])
            ≡ handled u + 1
      go none = omega arith
      go (some existing) = elim (Bool-cases (is_manual existing)) [
        | inl m ↦ rw m (omega arith)
        | inr c ↦ rw (c, length-snoc u.skipped refused) (omega arith)
      ]

  upload_rows-lem :
      (rows : List ContactRow) (u : Upload)
      → (handled (upload_rows w job_id captured_by rows u) ≡ handled u + length rows)
        × ((i : ℕ) (l : Lead)
            → is_manual l ≡ false
            → Stays i l u.tables
            → Stays i l (upload_rows w job_id captured_by rows u).tables)
  unfolding upload_rows
  upload_rows-lem [] u = (omega arith, λ (i : ℕ) (l : Lead) crawled stays. stays)
  upload_rows-lem (r ∷ rows) u =
      let rest : (handled
              (upload_rows w job_id captured_by rows (upload_row w job_id captured_by r u))
            ≡ handled (upload_row w job_id captured_by r u) + length rows)
          × ((i : ℕ) (l : Lead)
              → is_manual l ≡ false
              → Stays i l (upload_row w job_id captured_by r u).tables
              → Stays i l
                  (upload_rows w job_id captured_by rows
                    (upload_row w job_id captured_by r u)).tables) =
        upload_rows-lem rows (upload_row w job_id captured_by r u) in
      (
        omega (arith, rest.0, upload_row-handled r u),
        λ (i : ℕ) (l : Lead) crawled stays.
            rest.1 i l crawled (upload_row-Stays r i l u crawled stays),
      )

-- An upload of contacts imports, updates or skips each row of the file, and a crawled lead, one whose
-- channel is not "manual", is afterwards as it was; where no other lead has its id, and ids are below
-- the next one.
pub bulk_upsert_manual_leads-Stays :
    (w : Weights) (job_id : ℕ) (rows : List ContactRow) (captured_by : Option ℕ) (db : LeadTables)
    → (i : ℕ) (l : Lead) → is_manual l ≡ false
    → find_lead i db.leads ≡ some l
    → Table.count (lead_with i) db.leads ≤ 1
    → i < db.next_lead_id
    → let u = bulk_upsert_manual_leads w job_id rows captured_by db in
      (u.imported + u.updated + length u.skipped ≡ length rows)
      × (find_lead i u.tables.leads ≡ some l)
unfolding bulk_upsert_manual_leads
bulk_upsert_manual_leads-Stays w job_id rows captured_by db i l crawled found one small =
    let start : Upload = record { imported = 0; updated = 0; skipped = []; tables = db } in
    let r : (handled (upload_rows w job_id captured_by rows start) ≡ handled start + length rows)
        × ((i : ℕ) (l : Lead)
            → is_manual l ≡ false
            → Stays w job_id captured_by i l db
            → Stays w job_id captured_by i l (upload_rows w job_id captured_by rows start).tables) =
      upload_rows-lem w job_id captured_by rows start in
    (omega (arith, r.0), (r.1 i l crawled (found, one, small)).0)
