-- ===== src/Leads.antt =====
-- cloud/db/mixins/lead_mixin.py: the capture of a lead (`save_lead`, `bulk_save_leads`), with the
-- domain it is attributed to (cloud/db/domain_resolution.py, cloud/db/mixins/crawl_snapshot_mixin.py)
-- and its score (shared/scoring.py). A capture is one transaction, so it is one step.
pub mod Scoring
pub mod Domains
pub mod Enrich
pub mod Keeps
pub mod Manual
pub mod Uploads
use gov_crawler.Base.{
  ℕ, suc, ◌+◌, Bool, true, false, not, ◌&&◌, ◌||◌, Option, none, some, List, [], ◌∷◌, ◌++◌, ltb,
  ◌==◌, if◌then◌else◌, opt_eq,
}
use gov_crawler.Base.Table
use gov_crawler.Base.Text.{Text, codes, any, is_empty, text_eq, lower}
use gov_crawler.Leads.Scoring.{Weights, compute_lead_score}
use gov_crawler.Leads.Domains.{
  Domain, Snapshot, resolve_domain_for_url, find_snapshot, new_snapshot,
}

pub record Lead : Type 0 where
  pub id : ℕ
  pub job_id : ℕ
  pub snapshot_id : Option ℕ
  pub email : Text
  pub person_name : Option Text
  pub designation : Option Text
  pub department : Option Text
  pub source_url : Text
  pub source_title : Option Text
  pub context_snippet : Option Text
  pub entity_kind : Option Text
  pub phone : Option Text
  pub channel_tag : Option Text
  pub confidence_band : Option Text
  pub field_provenance : Option Text
  pub lead_score : ℕ
  pub depth : ℕ
  pub manual_state : Option Text

pub record Occurrence : Type 0 where
  pub lead_id : ℕ
  pub job_id : ℕ
  pub captured_by : Option ℕ
  pub source_url : Text

-- The arguments of `save_lead`.
pub record Capture : Type 0 where
  pub job_id : ℕ
  pub snapshot_id : Option ℕ
  pub email : Option Text
  pub person_name : Option Text
  pub designation : Option Text
  pub department : Option Text
  pub source_url : Text
  pub source_title : Option Text
  pub context_snippet : Option Text
  pub entity_kind : Option Text
  pub phone : Option Text
  pub channel_tag : Option Text
  pub confidence_band : Option Text
  pub field_provenance : Option Text
  pub depth : ℕ
  pub captured_by : Option ℕ

pub record LeadTables : Type 0 where
  pub leads : List Lead
  pub next_lead_id : ℕ
  pub occurrences : List Occurrence
  pub snapshots : List Snapshot
  pub next_snapshot_id : ℕ

-- What `save_lead` reads of the configuration and of the domain catalogue. `names_url_default` is
-- whether the JSON text of a provenance has "url_default" for its department.
pub record Setting : Type 0 where
  pub weights : Weights
  pub netloc_map : List (Text × Domain)
  pub target_suffixes : List Text
  pub names_url_default : Text → Bool

abbrev pub truthy : Option Text → Bool
truthy none = false
truthy (some t) = not (is_empty t)

abbrev pub has_email : Text → Lead → Bool
has_email e l = text_eq l.email e

-- `_record_occurrence`: a second row for the same lead and job is an IntegrityError.
unfoldable pub record_occurrence : ℕ → ℕ → Text → Option ℕ → LeadTables → LeadTables
record_occurrence lead_id job_id source_url captured_by db =
    let row : Occurrence = record {
      lead_id = lead_id;
      job_id = job_id;
      captured_by = captured_by;
      source_url = source_url;
    } in
    if any (λ (o : Occurrence). o.lead_id == lead_id && o.job_id == job_id) db.occurrences
    then db
    else record db { occurrences = db.occurrences ++ row ∷ [] }

-- A field of `_ENRICHABLE_FIELDS`: whether it is filled, and its value.
abbrev pub fills : Option Text → Option Text → Bool
fills value old = truthy value && not (truthy old)

abbrev pub fill : Option Text → Option Text → Option Text
fill value old = if fills value old then value else old

-- `_BAND_RANK.get(band, -1)`, plus one.
unfoldable pub band_rank : Option Text → ℕ
band_rank none = 0
band_rank (some b) =
    if text_eq b (codes "LOW") then 1 else if text_eq b (codes "HIGH") then 2 else 0

abbrev pub upgrades : Option Text → Option Text → Bool
upgrades band old = truthy band && ltb (band_rank old) (band_rank band)

abbrev pub enriched : Capture → Lead → Lead
enriched c l = record l {
  person_name = fill c.person_name l.person_name;
  designation = fill c.designation l.designation;
  department = fill c.department l.department;
  source_title = fill c.source_title l.source_title;
  context_snippet = fill c.context_snippet l.context_snippet;
  phone = fill c.phone l.phone;
  entity_kind = fill c.entity_kind l.entity_kind;
  confidence_band =
      if upgrades c.confidence_band l.confidence_band then c.confidence_band else l.confidence_band;
  field_provenance =
      if upgrades c.confidence_band l.confidence_band && truthy c.field_provenance
      then c.field_provenance
      else l.field_provenance;
}

abbrev pub rescored : Weights → Lead → Lead
rescored w l = record l {
  lead_score =
      compute_lead_score w (some l.email) l.phone l.person_name l.designation l.confidence_band
        l.channel_tag;
}

-- `changed`
abbrev pub changes : Capture → Lead → Bool
changes c l =
    fills c.person_name l.person_name
    || (fills c.designation l.designation
        || (fills c.department l.department
            || (fills c.source_title l.source_title
                || (fills c.context_snippet l.context_snippet
                    || (fills c.phone l.phone
                        || (fills c.entity_kind l.entity_kind
                            || upgrades c.confidence_band l.confidence_band))))))

-- The row of a known lead after another capture.
unfoldable pub recaptured : Weights → Capture → Lead → Lead
recaptured w c l = if changes c l then rescored w (enriched c l) else l

abbrev pub snapshot_domain : Option ℕ → LeadTables → Option ℕ
snapshot_domain none db = none
snapshot_domain (some s) db = elim (Table.first (λ (r : Snapshot). r.id == s) db.snapshots) [
  | none ↦ none
  | some r ↦ r.source_domain_id
]

-- `create_crawl_snapshot`: the job's snapshot of the domain, which is made if it is not there.
unfoldable pub create_crawl_snapshot : ℕ → Domain → Bool → LeadTables → ℕ × LeadTables
create_crawl_snapshot job_id d is_seed db = elim (find_snapshot job_id d.id db.snapshots) [
  | some s ↦ (s.id, db)
  | none ↦ (
    db.next_snapshot_id,
    record db {
      snapshots = db.snapshots ++ new_snapshot db.next_snapshot_id job_id d is_seed ∷ [];
      next_snapshot_id = suc db.next_snapshot_id;
    },
  )
]

-- The snapshot of a new lead: that of the domain of its URL.
unfoldable pub attribute : Setting → Capture → LeadTables → Option ℕ × LeadTables
unfolding create_crawl_snapshot
attribute st c db = elim (resolve_domain_for_url c.source_url st.netloc_map st.target_suffixes) [
  | none ↦ (none, db)
  | some d ↦
      let made = create_crawl_snapshot c.job_id d false db in
      if opt_eq (some d.id) (snapshot_domain c.snapshot_id db)
      then (c.snapshot_id, db)
      else (some made.0, made.1)
]

-- `_department_is_url_fallback`
abbrev pub is_url_fallback : Setting → Option Text → Bool
is_url_fallback st none = false
is_url_fallback st (some p) = not (is_empty p) && st.names_url_default p

-- A snapshot id of 0 is falsy, and so is an empty title.
unfoldable pub choose_department : Setting → Capture → Option ℕ → LeadTables → Option Text
choose_department st c none db = c.department
choose_department st c (some s) db =
    let title : Option Text = elim (Table.first (λ (r : Snapshot). r.id == s) db.snapshots) [
      | none ↦ none
      | some r ↦ r.title
    ] in
    if not (s == 0) && (is_url_fallback st c.field_provenance && truthy title)
    then title
    else c.department

abbrev pub new_lead : Setting → Capture → Text → Option ℕ → LeadTables → Lead
new_lead st c email snapshot_id db = record {
  id = db.next_lead_id;
  job_id = c.job_id;
  snapshot_id = snapshot_id;
  email = email;
  person_name = c.person_name;
  designation = c.designation;
  department = choose_department st c snapshot_id db;
  source_url = c.source_url;
  source_title = c.source_title;
  context_snippet = c.context_snippet;
  entity_kind = c.entity_kind;
  phone = c.phone;
  channel_tag = c.channel_tag;
  confidence_band = c.confidence_band;
  field_provenance = c.field_provenance;
  lead_score =
      compute_lead_score st.weights (some email) c.phone c.person_name c.designation
        c.confidence_band c.channel_tag;
  depth = c.depth;
  manual_state = none;
}

abbrev pub add_lead : Lead → LeadTables → LeadTables
add_lead lead db = record db { leads = db.leads ++ lead ∷ []; next_lead_id = suc db.next_lead_id }

unfoldable pub insert_lead : Setting → Capture → Text → LeadTables → Bool × LeadTables
insert_lead st c email db =
    let (snapshot_id, db₁) = attribute st c db in
    let lead = new_lead st c email snapshot_id db₁ in
    (true, record_occurrence lead.id c.job_id c.source_url c.captured_by (add_lead lead db₁))

-- The address is not taken when the new row is inserted, in the same step as the look-up.
unfoldable pub save_email : Setting → Capture → Text → LeadTables → Bool × LeadTables
save_email st c email db = elim (Table.first (has_email email) db.leads) [
  | some existing ↦ (
    true,
    record_occurrence existing.id c.job_id c.source_url c.captured_by (record db {
      leads = Table.update (λ (l : Lead). l.id == existing.id) (recaptured st.weights c) db.leads;
    }),
  )
  | none ↦ insert_lead st c email db
]

abbrev pub save_capture : Option Text → Setting → Capture → LeadTables → Bool × LeadTables
save_capture none st c db = (false, db)
save_capture (some []) st c db = (false, db)
save_capture (some (x ∷ xs)) st c db = save_email st c (lower (x ∷ xs)) db

unfoldable pub save_lead : Setting → Capture → LeadTables → Bool × LeadTables
save_lead st c db = save_capture c.email st c db

-- Items that raise no exception.
unfoldable pub bulk_save_leads : Setting → List Capture → LeadTables → List Bool × LeadTables
bulk_save_leads st [] db = ([], db)
bulk_save_leads st (c ∷ cs) db =
    let (saved, db₁) = save_lead st c db in
    let (rest, db₂) = bulk_save_leads st cs db₁ in (saved ∷ rest, db₂)
