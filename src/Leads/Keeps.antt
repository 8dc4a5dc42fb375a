-- ===== src/Leads/Keeps.antt =====
-- What a capture makes of the leads that are there.
use gov_crawler.Base.{
  ℕ, ◌≡◌, refl, ap, ◌∙◌, Bool, true, Option, none, some, List, [], ◌∷◌, ◌++◌, ◌==◌, if◌then◌else◌,
  arith, Bool-cases, inl, inr,
}
use gov_crawler.Base.Table
use gov_crawler.Base.Table.{first-update, first-eq-none, count-update, count-append}
use gov_crawler.Base.Text.{Text, lower}
use gov_crawler.Leads.Scoring.{Weights}
use gov_crawler.Leads.{
  Lead, Capture, LeadTables, Setting, recaptured, record_occurrence, attribute, insert_lead,
  save_email, save_capture, save_lead, has_email, new_lead, add_lead,
}
use gov_crawler.Leads.Enrich.{
  IsEnriched, same-IsEnriched, recaptured-IsEnriched, occurrence-leads, attribute-leads,
}

abbrev pub lead_with : ℕ → Lead → Bool
lead_with i l = l.id == i

unfoldable pub find_lead : ℕ → List Lead → Option Lead
find_lead i ls = Table.first (lead_with i) ls

-- The lead with the id is there and is what captures may make of l.
abbrev pub StillThere : Weights → ℕ → Lead → LeadTables → Type 0
StillThere w i l db = (l' : Lead) × (find_lead i db.leads ≡ some l') × IsEnriched w l l'

recaptured-id : (w : Weights) (c : Capture) (l : Lead) → (recaptured w c l).id ≡ l.id
recaptured-id w c l =
    let e : IsEnriched w l (recaptured w c l) = recaptured-IsEnriched w c l in e.id

pub find_lead-append :
    (i : ℕ) (l : Lead) (ls : List Lead) (new : Lead)
    → find_lead i ls ≡ some l
    → find_lead i (ls ++ new ∷ []) ≡ some l
unfolding find_lead Table.first
find_lead-append i l [] new h = cc
find_lead-append i l (m ∷ ms) new h = ground (arith, find_lead-append i l ms new)

find_lead-update :
    (w : Weights) (c : Capture) (k i : ℕ) (ls : List Lead)
    → find_lead i (Table.update (lead_with k) (recaptured w c) ls) ≡ elim (find_lead i ls) [
      | none ↦ none
      | some l ↦ some (if lead_with k l then recaptured w c l else l)
    ]
unfolding find_lead
find_lead-update w c k i ls =
    first-update (lead_with k) (lead_with i) (recaptured w c)
      (λ l. ap (λ (n : ℕ). n == i) (recaptured-id w c l)) ls

module _ (st : Setting) (c : Capture) (i : ℕ) (l : Lead) where
  by_leads :
      (x : LeadTables) (ls : List Lead)
      → x.leads ≡ ls
      → ((l' : Lead) × (find_lead i ls ≡ some l') × IsEnriched st.weights l l')
      → StillThere st.weights i l x
  by_leads x ls same h = (h.0, ap (find_lead i) same ∙ h.1, h.2)

  insert_lead-StillThere :
      (email : Text) (db : LeadTables)
      → find_lead i db.leads ≡ some l
      → StillThere st.weights i l (insert_lead st c email db).1
  unfolding insert_lead
  insert_lead-StillThere email db h =
      let (snapshot_id, db₁) = attribute st c db in
      let lead = new_lead st c email snapshot_id db₁ in
      by_leads (insert_lead st c email db).1 (db₁.leads ++ lead ∷ [])
        (occurrence-leads lead.id c.job_id c.source_url c.captured_by (add_lead lead db₁))
        (
          l,
          find_lead-append i l db₁.leads lead (ap (find_lead i) (attribute-leads st c db) ∙ h),
          same-IsEnriched st.weights l,
        )

  update-StillThere :
      (k : ℕ) (ls : List Lead)
      → find_lead i ls ≡ some l
      → (l' : Lead) × (find_lead i (Table.update (lead_with k) (recaptured st.weights c) ls)
          ≡ some l')
        × IsEnriched st.weights l l'
  update-StillThere k ls h = elim (Bool-cases (lead_with k l)) [
    | inl hit ↦ (
      recaptured st.weights c l,
      find_lead-update st.weights c k i ls ∙ rw (h, hit) refl,
      recaptured-IsEnriched st.weights c l,
    )
    | inr miss ↦
        (l, find_lead-update st.weights c k i ls ∙ rw (h, miss) refl, same-IsEnriched st.weights l)
  ]

  save_email-StillThere :
      (email : Text) (db : LeadTables)
      → find_lead i db.leads ≡ some l
      → StillThere st.weights i l (save_email st c email db).1
  unfolding save_email
  save_email-StillThere email db h = go (Table.first (has_email email) db.leads)
    where
      go :
          (o : Option Lead)
          → (let r : Bool × LeadTables = elim o [
            | some existing ↦ (
              true,
              record_occurrence existing.id c.job_id c.source_url c.captured_by (record db {
                leads = Table.update (lead_with existing.id) (recaptured st.weights c) db.leads;
              }),
            )
            | none ↦ insert_lead st c email db
          ] in
              StillThere st.weights i l r.1)
      go none = insert_lead-StillThere email db h
      go (some m) =
          let rows = Table.update (lead_with m.id) (recaptured st.weights c) db.leads in
          by_leads
            (record_occurrence m.id c.job_id c.source_url c.captured_by
              (record db { leads = rows }))
            rows
            (occurrence-leads m.id c.job_id c.source_url c.captured_by (record db { leads = rows }))
            (update-StillThere m.id db.leads h)

-- A capture, of whatever address, keeps every lead that is there. It stays under its id, with its
-- address, snapshot, job, source URL, depth, channel and review state. Its person's name, designation,
-- department, source title, context snippet, phone and entity kind are overwritten only where they were
-- empty. Its evidence band does not go down, its field provenance is as before unless the band goes
-- up, and its score is as before or that of the new fields.
pub save_lead-StillThere :
    (st : Setting) (c : Capture) (i : ℕ) (l : Lead) (db : LeadTables)
    → find_lead i db.leads ≡ some l
    → StillThere st.weights i l (save_lead st c db).1
unfolding save_lead
save_lead-StillThere st c i l db h = go c.email
  where
    go : (o : Option Text) → StillThere st.weights i l (save_capture o st c db).1
    go none = (l, h, same-IsEnriched st.weights l)
    go (some []) = (l, h, same-IsEnriched st.weights l)
    go (some (x ∷ xs)) = save_email-StillThere st c i l (lower (x ∷ xs)) db h
