-- ===== src/Leads/Manual.antt =====
-- cloud/db/mixins/lead_mixin.py: the upload of contacts and the editing of a lead. Each is one
-- transaction, so that no other session inserts an address in between.
use gov_crawler.Base.{
  ℕ, ◌+◌, Bool, false, not, ◌&&◌, Option, none, some, List, [], ◌∷◌, ◌++◌, ◌==◌, if◌then◌else◌,
}
use gov_crawler.Base.Table
use gov_crawler.Base.Text.{Text, codes, any, is_empty, text_eq, text_in, strip}
use gov_crawler.CsvImport.{ContactRow, SkippedRow}
use gov_crawler.Leads.{Lead, LeadTables, has_email, truthy, rescored, record_occurrence, add_lead}
use gov_crawler.Leads.Scoring.{Weights, compute_lead_score}

abbrev manual : Text
manual = codes "manual"

abbrev manual_upload : Text
manual_upload = codes "manual-csv-upload"

-- `channel_tag == "manual"`
abbrev pub is_manual : Lead → Bool
is_manual l = elim l.channel_tag [ none ↦ false | some t ↦ text_eq t manual ]

-- `new or old`
abbrev pub keep_or : Option Text → Option Text → Option Text
keep_or new old = if truthy new then new else old

abbrev pub uploaded_fields : ContactRow → Lead → Lead
uploaded_fields r l = record l {
  person_name = keep_or r.name l.person_name;
  designation = keep_or r.designation l.designation;
  department = keep_or r.department l.department;
  phone = keep_or r.phone l.phone;
}

abbrev pub manual_lead : Weights → ℕ → ContactRow → ℕ → Lead
manual_lead w job_id r id = record {
  id = id;
  job_id = job_id;
  snapshot_id = none;
  email = r.email;
  person_name = r.name;
  designation = r.designation;
  department = r.department;
  source_url = manual_upload;
  source_title = none;
  context_snippet = none;
  entity_kind = none;
  phone = r.phone;
  channel_tag = some manual;
  confidence_band = none;
  field_provenance = none;
  lead_score = compute_lead_score w (some r.email) r.phone r.name r.designation none (some manual);
  depth = 0;
  manual_state = none;
}

pub record Upload : Type 0 where
  pub imported : ℕ
  pub updated : ℕ
  pub skipped : List SkippedRow
  pub tables : LeadTables

abbrev pub recorded : ℕ → ℕ → Option ℕ → LeadTables → LeadTables
recorded lead_id job_id captured_by db =
    record_occurrence lead_id job_id manual_upload captured_by db

-- A row whose address is a lead's.
abbrev pub upload_known : Weights → ℕ → Option ℕ → ContactRow → Lead → Upload → Upload
upload_known w job_id captured_by r existing u =
    if is_manual existing
    then record u {
      updated = u.updated + 1;
      tables = recorded existing.id job_id captured_by (record u.tables {
        leads =
            Table.update (λ (l : Lead). l.id == existing.id)
              (λ (l : Lead). rescored w (uploaded_fields r l)) u.tables.leads;
      });
    }
    else record u {
      skipped =
          u.skipped
          ++ record {
            row = r.row;
            email = some r.email;
            reason = codes "email already exists as a crawled lead";
          }
            ∷ [];
      tables = recorded existing.id job_id captured_by u.tables;
    }

abbrev pub upload_new : Weights → ℕ → Option ℕ → ContactRow → Upload → Upload
upload_new w job_id captured_by r u = record u {
  imported = u.imported + 1;
  tables =
      recorded u.tables.next_lead_id job_id captured_by
        (add_lead (manual_lead w job_id r u.tables.next_lead_id) u.tables);
}

unfoldable pub upload_row : Weights → ℕ → Option ℕ → ContactRow → Upload → Upload
upload_row w job_id captured_by r u = elim (Table.first (has_email r.email) u.tables.leads) [
  | some existing ↦ upload_known w job_id captured_by r existing u
  | none ↦ upload_new w job_id captured_by r u
]

unfoldable pub upload_rows : Weights → ℕ → Option ℕ → List ContactRow → Upload → Upload
upload_rows w job_id captured_by [] u = u
upload_rows w job_id captured_by (r ∷ rows) u =
    upload_rows w job_id captured_by rows (upload_row w job_id captured_by r u)

unfoldable pub bulk_upsert_manual_leads :
    Weights → ℕ → List ContactRow → Option ℕ → LeadTables → Upload
bulk_upsert_manual_leads w job_id rows captured_by db =
    upload_rows w job_id captured_by rows
      (record { imported = 0; updated = 0; skipped = []; tables = db })

-- What `update_lead` returns: True, False or "not_manual".
pub data LeadEdit : Type 0 where
  lead_updated : LeadEdit
  no_edit : LeadEdit
  not_manual : LeadEdit

abbrev pub lead_editable : List Text
lead_editable =
    codes "person_name" ∷ codes "designation" ∷ codes "department" ∷ codes "manual_state" ∷ []

-- A value of spaces only clears the field.
abbrev cleaned : Option Text → Option Text
cleaned none = none
cleaned (some v) = if is_empty (strip v) then none else some (strip v)

unfoldable pub safe_updates : List (Text × Option Text) → List (Text × Option Text)
safe_updates [] = []
safe_updates ((k, v) ∷ updates) =
    let rest = safe_updates updates in
    if text_in k lead_editable then (k, cleaned v) ∷ rest else rest

unfoldable pub set_field : Text → Option Text → Lead → Lead
set_field k v l =
    if text_eq k (codes "person_name")
    then record l { person_name = v }
    else if text_eq k (codes "designation")
    then record l { designation = v }
    else if text_eq k (codes "department")
    then record l { department = v }
    else if text_eq k (codes "manual_state")
    then record l { manual_state = v }
    else l

unfoldable pub set_fields : List (Text × Option Text) → Lead → Lead
set_fields [] l = l
set_fields ((k, v) ∷ safe) l = set_fields safe (set_field k v l)

abbrev pub edits_state : List (Text × Option Text) → Bool
edits_state safe = any (λ (kv : Text × Option Text). text_eq kv.0 (codes "manual_state")) safe

unfoldable pub update_lead :
    Weights → ℕ → List (Text × Option Text) → LeadTables → LeadEdit × LeadTables
update_lead w lead_id updates db =
    let safe = safe_updates updates in
    if is_empty safe
    then (no_edit, db)
    else elim (Table.first (λ (l : Lead). l.id == lead_id) db.leads) [
      | none ↦ (no_edit, db)
      | some lead ↦ if edits_state safe && not (is_manual lead) then (not_manual, db) else (
        lead_updated,
        record db {
          leads =
              Table.update (λ (l : Lead). l.id == lead_id)
                (λ (l : Lead). rescored w (set_fields safe l)) db.leads;
        },
      )
    ]
