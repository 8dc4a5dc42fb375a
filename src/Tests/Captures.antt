-- ===== src/Tests/Captures.antt =====
-- A second capture of a known lead.
use gov_crawler.Base.{◌≤◌, ◌≡◌, refl, false, none, some, [], ◌∷◌}
use gov_crawler.Base.Table
use gov_crawler.Base.Text.{codes}
use gov_crawler.Leads.Scoring.{default_weights, compute_lead_score, compute_lead_score-le}
use gov_crawler.Leads.{Lead, Capture, LeadTables, Setting, save_lead}
use gov_crawler.Leads.Keeps.{find_lead, StillThere, save_lead-StillThere}

abbrev setting : Setting
setting = record {
  weights = default_weights;
  netloc_map = [];
  target_suffixes = [];
  names_url_default = λ t. false;
}

abbrev known_lead : Lead
known_lead = record {
  id = 1;
  job_id = 1;
  snapshot_id = none;
  email = codes "a@b.in";
  person_name = none;
  designation = none;
  department = none;
  source_url = codes "http://b.in";
  source_title = none;
  context_snippet = none;
  entity_kind = none;
  phone = none;
  channel_tag = none;
  confidence_band = some (codes "LOW");
  field_provenance = none;
  lead_score = 10;
  depth = 0;
  manual_state = none;
}

abbrev tables : LeadTables
tables = record {
  leads = known_lead ∷ [];
  next_lead_id = 2;
  occurrences = [];
  snapshots = [];
  next_snapshot_id = 1;
}

abbrev second : Capture
second = record {
  job_id = 2;
  snapshot_id = none;
  email = some (codes "A@b.in");
  person_name = some (codes "Ann");
  designation = none;
  department = none;
  source_url = codes "http://b.in/x";
  source_title = none;
  context_snippet = none;
  entity_kind = none;
  phone = none;
  channel_tag = none;
  confidence_band = some (codes "HIGH");
  field_provenance = none;
  depth = 1;
  captured_by = none;
}

tables-lead : find_lead 1 tables.leads ≡ some known_lead
unfolding find_lead Table.first
tables-lead = refl

save_lead-StillThere_example :
    StillThere default_weights 1 known_lead (save_lead setting second tables).1
save_lead-StillThere_example = save_lead-StillThere setting second 1 known_lead tables tables-lead

compute_lead_score-le_example :
    (compute_lead_score default_weights second.email none second.person_name none
        second.confidence_band none
      ≤ 100)
    × (compute_lead_score default_weights second.email none second.person_name none
          second.confidence_band none
        ≤ 90)
compute_lead_score-le_example =
    compute_lead_score-le second.email none second.person_name none second.confidence_band none
