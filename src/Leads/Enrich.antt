-- ===== src/Leads/Enrich.antt =====
-- What a capture may change of a lead that is known already.
use gov_crawler.Base.{
  ℕ, ◌<◌, ◌≤◌, ◌≡◌, ◌⊎◌, inl, inr, refl, Bool, true, false, not, ◌&&◌, Option, none, some, ltb,
  ◌==◌, if◌then◌else◌, opt_eq, arith, Bool-cases,
}
use gov_crawler.Base.Text.{Text, any}
use gov_crawler.Leads.Scoring.{Weights, compute_lead_score}
use gov_crawler.Leads.Domains.{Domain, resolve_domain_for_url, find_snapshot, Snapshot}
use gov_crawler.Leads.{
  Lead, Occurrence, Capture, LeadTables, Setting, truthy, fill, band_rank, upgrades, changes,
  recaptured, record_occurrence, create_crawl_snapshot, snapshot_domain, attribute,
}

-- A populated field stays.
abbrev pub OnlyFills : Option Text → Option Text → Type 0
OnlyFills old new = (truthy old ≡ false) ⊎ (new ≡ old)

-- The lead after another capture: the same lead; no populated descriptive field overwritten; where it
-- was first found, its channel and its review state as before; the evidence band not lowered, its
-- provenance as before unless the band rises; and the score as before or that of the new fields.
pub record IsEnriched (w : Weights) (old new : Lead) : Type 0 where
  pub id : new.id ≡ old.id
  pub email : new.email ≡ old.email
  pub snapshot_id : new.snapshot_id ≡ old.snapshot_id
  pub job_id : new.job_id ≡ old.job_id
  pub source_url : new.source_url ≡ old.source_url
  pub depth : new.depth ≡ old.depth
  pub channel_tag : new.channel_tag ≡ old.channel_tag
  pub manual_state : new.manual_state ≡ old.manual_state
  pub person_name : OnlyFills old.person_name new.person_name
  pub designation : OnlyFills old.designation new.designation
  pub department : OnlyFills old.department new.department
  pub source_title : OnlyFills old.source_title new.source_title
  pub context_snippet : OnlyFills old.context_snippet new.context_snippet
  pub phone : OnlyFills old.phone new.phone
  pub entity_kind : OnlyFills old.entity_kind new.entity_kind
  pub band : band_rank old.confidence_band ≤ band_rank new.confidence_band
  pub provenance :
      (new.field_provenance ≡ old.field_provenance)
      ⊎ (band_rank old.confidence_band < band_rank new.confidence_band)
  pub score :
      (new ≡ old)
      ⊎ (new.lead_score
          ≡ compute_lead_score w
              (some new.email)
              new.phone
              new.person_name
              new.designation
              new.confidence_band
              new.channel_tag)

fill-OnlyFills : (value old : Option Text) → OnlyFills old (fill value old)
fill-OnlyFills value old = elim (Bool-cases (truthy old)) [
  | inl full ↦ inr (kept (truthy value) (truthy old) full)
  | inr empty ↦ inl empty
]
  where
    kept : (a b : Bool) → b ≡ true → (if a && not b then value else old) ≡ old
    kept a true e = ground arith
    kept a false e = cc

pub same-IsEnriched : (w : Weights) (l : Lead) → IsEnriched w l l
same-IsEnriched w l = record {
  id = refl;
  email = refl;
  snapshot_id = refl;
  job_id = refl;
  source_url = refl;
  depth = refl;
  channel_tag = refl;
  manual_state = refl;
  person_name = inr refl;
  designation = inr refl;
  department = inr refl;
  source_title = inr refl;
  context_snippet = inr refl;
  phone = inr refl;
  entity_kind = inr refl;
  band = omega arith;
  provenance = inl refl;
  score = inl refl;
}

band-upgrades :
    (band old : Option Text) → band_rank old ≤ band_rank (if upgrades band old then band else old)
band-upgrades band old = elim (Bool-cases (upgrades band old)) [
  | inl better ↦ rw better (ranked (truthy band) (band_rank old) (band_rank band) better)
  | inr worse ↦ rw worse (omega arith)
]
  where
    ranked : (t : Bool) (m n : ℕ) → (t && ltb m n) ≡ true → m ≤ n
    ranked t m n e = ground arith

-- The provenance is replaced only with the band.
provenance-upgrades :
    (c : Capture) (l : Lead)
    → ((if upgrades c.confidence_band l.confidence_band && truthy c.field_provenance
          then c.field_provenance
          else l.field_provenance)
        ≡ l.field_provenance)
      ⊎ (band_rank l.confidence_band
          < band_rank (
              if upgrades c.confidence_band l.confidence_band
              then c.confidence_band
              else l.confidence_band))
provenance-upgrades c l = elim (Bool-cases (upgrades c.confidence_band l.confidence_band)) [
  | inl better ↦ inr (
      rw better (
        raised (truthy c.confidence_band) (band_rank l.confidence_band)
          (band_rank c.confidence_band) better))
  | inr worse ↦ inl (rw worse refl)
]
  where
    raised : (t : Bool) (m n : ℕ) → (t && ltb m n) ≡ true → m < n
    raised t m n e = ground arith

pub recaptured-IsEnriched :
    (w : Weights) (c : Capture) (l : Lead) → IsEnriched w l (recaptured w c l)
unfolding recaptured
recaptured-IsEnriched w c l = elim (Bool-cases (changes c l)) [
  | inl changed ↦ rw changed (record {
    id = refl;
    email = refl;
    snapshot_id = refl;
    job_id = refl;
    source_url = refl;
    depth = refl;
    channel_tag = refl;
    manual_state = refl;
    person_name = fill-OnlyFills c.person_name l.person_name;
    designation = fill-OnlyFills c.designation l.designation;
    department = fill-OnlyFills c.department l.department;
    source_title = fill-OnlyFills c.source_title l.source_title;
    context_snippet = fill-OnlyFills c.context_snippet l.context_snippet;
    phone = fill-OnlyFills c.phone l.phone;
    entity_kind = fill-OnlyFills c.entity_kind l.entity_kind;
    band = band-upgrades c.confidence_band l.confidence_band;
    provenance = provenance-upgrades c l;
    score = inr refl;
  })
  | inr same ↦ rw same (same-IsEnriched w l)
]

pub occurrence-leads :
    (lead_id job_id : ℕ) (url : Text) (by : Option ℕ) (db : LeadTables)
    → (record_occurrence lead_id job_id url by db).leads ≡ db.leads
unfolding record_occurrence
occurrence-leads lead_id job_id url by db =
    go (any (λ (o : Occurrence). o.lead_id == lead_id && o.job_id == job_id) db.occurrences) db _
      refl refl
  where
    go :
        (known : Bool) (x y : LeadTables)
        → x.leads ≡ db.leads
        → y.leads ≡ db.leads
        → (let r : LeadTables = if known then x else y in r.leads ≡ db.leads)
    go true x y hx hy = hx
    go false x y hx hy = hy

snapshot-leads :
    (job_id : ℕ) (d : Domain) (is_seed : Bool) (db : LeadTables)
    → (create_crawl_snapshot job_id d is_seed db).1.leads ≡ db.leads
unfolding create_crawl_snapshot
snapshot-leads job_id d is_seed db =
    go (find_snapshot job_id d.id db.snapshots) (λ s. (s.id, db)) _ (λ s. refl) refl
  where
    go :
        (o : Option Snapshot) (x : Snapshot → ℕ × LeadTables) (y : ℕ × LeadTables)
        → ((s : Snapshot) → (x s).1.leads ≡ db.leads)
        → y.1.leads ≡ db.leads
        → (let r : ℕ × LeadTables = elim o [ none ↦ y | some s ↦ x s ] in r.1.leads ≡ db.leads)
    go none x y hx hy = hy
    go (some s) x y hx hy = hx s

pick-leads :
    (db : LeadTables) (same : Bool) (x y : Option ℕ × LeadTables)
    → x.1.leads ≡ db.leads
    → y.1.leads ≡ db.leads
    → (let r : Option ℕ × LeadTables = if same then x else y in r.1.leads ≡ db.leads)
pick-leads db true x y hx hy = hx
pick-leads db false x y hx hy = hy

pub attribute-leads :
    (st : Setting) (c : Capture) (db : LeadTables) → (attribute st c db).1.leads ≡ db.leads
unfolding attribute
attribute-leads st c db = go (resolve_domain_for_url c.source_url st.netloc_map st.target_suffixes)
  where
    go :
        (o : Option Domain)
        → (let r : Option ℕ × LeadTables = elim o [
          | none ↦ (none, db)
          | some d ↦
              let made = create_crawl_snapshot c.job_id d false db in
              if opt_eq (some d.id) (snapshot_domain c.snapshot_id db)
              then (c.snapshot_id, db)
              else (some made.0, made.1)
        ] in
            r.1.leads ≡ db.leads)
    go none = refl
    go (some d) =
        pick-leads db (opt_eq (some d.id) (snapshot_domain c.snapshot_id db)) (c.snapshot_id, db) _
          refl (snapshot-leads c.job_id d false db)
