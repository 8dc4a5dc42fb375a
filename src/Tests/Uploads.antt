-- ===== src/Tests/Uploads.antt =====
-- Uploaded contacts: a file of four rows, and a crawled lead that has an address of it.
use gov_crawler.Base.{
  ℕ, ◌+◌, ◌≡◌, ◌≤◌, refl, Bool, true, false, Option, none, some, List, [], ◌∷◌, map, length, All,
  arith,
}
use gov_crawler.Base.Table
use gov_crawler.Base.Text.{Text, codes}
use gov_crawler.CsvImport.{RawRow, ContactRow, SkippedRow, parse_contacts_csv}
use gov_crawler.CsvImport.Parsed.{HasAddress, of_email, parse_contacts_csv-total}
use gov_crawler.Leads.{Lead, LeadTables}
use gov_crawler.Leads.Keeps.{lead_with, find_lead}
use gov_crawler.Leads.Manual.{is_manual, bulk_upsert_manual_leads}
use gov_crawler.Leads.Scoring.{default_weights}
use gov_crawler.Leads.Uploads.{bulk_upsert_manual_leads-Stays}

abbrev cells : Option Text → Option Text → RawRow
cells email name = (codes "E-mail", email) ∷ (codes " Name ", name) ∷ []

abbrev file : List RawRow
file =
    cells (some (codes "A@b.in ")) (some (codes "Ann"))
    ∷ cells (some (codes "a@b.in")) none
    ∷ cells (some (codes "a.b.in")) none
    ∷ cells none none
    ∷ []

-- One contact, and a duplicate, an ill-formed and a missing address.
file_outcome : map (λ (r : ContactRow). r.email) (parse_contacts_csv file).0 ≡ codes "a@b.in" ∷ []
unfolding parse_contacts_csv gov_crawler.CsvImport.parse_rows gov_crawler.CsvImport.parse_row
    gov_crawler.CsvImport.normalized gov_crawler.CsvImport.canonical_field
    gov_crawler.CsvImport.field_of gov_crawler.Base.Text.text_in gov_crawler.Base.Text.text_eq
    gov_crawler.Base.Text.lower gov_crawler.Base.Text.strip gov_crawler.CsvImport.matches_email
    gov_crawler.Base.Text.split_once gov_crawler.CsvImport.has_inner_dot
file_outcome = refl

parse_contacts_csv-total_example :
    All HasAddress (parse_contacts_csv file).0
    × ((e : Text) → Table.count (of_email e) (parse_contacts_csv file).0 ≤ 1)
    × (length (parse_contacts_csv file).0 ≤ 2000)
    × (length (parse_contacts_csv file).0 + length (parse_contacts_csv file).1 ≡ length file)
parse_contacts_csv-total_example = parse_contacts_csv-total file

abbrev pub crawled : Lead
crawled = record {
  id = 1;
  job_id = 1;
  snapshot_id = none;
  email = codes "a@b.in";
  person_name = none;
  designation = none;
  department = none;
  source_url = codes "http://b.in";
  source_title = none;
  context_snippet = none;
  entity_kind = none;
  phone = none;
  channel_tag = some (codes "mailto");
  confidence_band = some (codes "LOW");
  field_provenance = none;
  lead_score = 10;
  depth = 0;
  manual_state = none;
}

abbrev contact : ContactRow
contact = record {
  row = 2;
  email = codes "a@b.in";
  name = some (codes "Ann");
  designation = none;
  department = none;
  phone = none;
}

abbrev tables : LeadTables
tables = record {
  leads = crawled ∷ [];
  next_lead_id = 2;
  occurrences = [];
  snapshots = [];
  next_snapshot_id = 1;
}

crawled_tag : is_manual crawled ≡ false
unfolding gov_crawler.Base.Text.text_eq
crawled_tag = refl

tables-crawled : find_lead 1 tables.leads ≡ some crawled
unfolding find_lead Table.first
tables-crawled = refl

one_crawled : Table.count (lead_with 1) tables.leads ≤ 1
unfolding Table.count
one_crawled = omega arith

bulk_upsert_manual_leads-Stays_example :
    let u = bulk_upsert_manual_leads default_weights 9 (contact ∷ []) none tables in
    (u.imported + u.updated + length u.skipped ≡ 1) × (find_lead 1 u.tables.leads ≡ some crawled)
bulk_upsert_manual_leads-Stays_example =
    bulk_upsert_manual_leads-Stays default_weights 9 (contact ∷ []) none tables 1 crawled
      crawled_tag tables-crawled one_crawled (omega arith)
