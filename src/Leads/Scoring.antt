-- ===== src/Leads/Scoring.antt =====
-- shared/scoring.py: the score of a lead.
use gov_crawler.Base.{ℕ, ◌+◌, ◌≤◌, Bool, false, not, Option, none, some, if◌then◌else◌, arith}
use gov_crawler.Base.Text.{Text, codes, is_empty, strip, text_eq}

pub record Weights : Type 0 where
  pub email_high : ℕ
  pub email_low : ℕ
  pub person_name : ℕ
  pub designation : ℕ
  pub phone : ℕ

abbrev pub default_weights : Weights
default_weights = record {
  email_high = 20;
  email_low = 10;
  person_name = 40;
  designation = 30;
  phone = 10;
}

-- `str(value or "").strip()` is not empty.
unfoldable pub is_present : Option Text → Bool
is_present none = false
is_present (some t) = not (is_empty (strip t))

abbrev pub is_tag : Option Text → Text → Bool
is_tag none t = false
is_tag (some s) t = text_eq s t

unfoldable pub compute_lead_score :
    Weights → Option Text → Option Text → Option Text → Option Text → Option Text → Option Text → ℕ
compute_lead_score w email phone person_name designation confidence_band channel_tag =
    if is_tag channel_tag (codes "manual")
    then 0
    else (if is_present email
        then if is_tag confidence_band (codes "HIGH") then w.email_high else w.email_low
        else 0)
      + (if is_present person_name then w.person_name else 0)
      + (if is_present designation then w.designation else 0)
      + (if is_present phone then w.phone else 0)

-- With the default weights a score is at most 100, and at most 90 without a phone number.
pub compute_lead_score-le :
    (email phone person_name designation band tag : Option Text)
    → (compute_lead_score default_weights email phone person_name designation band tag ≤ 100)
      × (compute_lead_score default_weights email none person_name designation band tag ≤ 90)
unfolding compute_lead_score is_present
compute_lead_score-le email phone person_name designation band tag = (ground arith, ground arith)
