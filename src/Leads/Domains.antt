-- ===== src/Leads/Domains.antt =====
-- cloud/db/domain_resolution.py, and the snapshot rows of cloud/db/tables/crawl.py.
use gov_crawler.Base.{
  ℕ, Bool, ◌&&◌, Option, none, some, List, [], ◌∷◌, ◌++◌, ◌==◌, if◌then◌else◌, opt_eq, map,
}
use gov_crawler.Base.Table
use gov_crawler.Base.Text.{
  Text, codes, is_empty, text_eq, text_in, lower, split_once, split, remove_prefix, lstrip,
}
use gov_crawler.Url.{urlsplit, SplitUrl}

pub record Domain : Type 0 where
  pub id : ℕ
  pub external_id : Option Text
  pub category_code : Text
  pub category_title : Option Text
  pub state : Option Text
  pub org_type : Option Text
  pub org_type_title : Option Text
  pub title : Option Text
  pub main_url : Option Text
  pub contact_url : Option Text

pub record Snapshot : Type 0 where
  pub id : ℕ
  pub job_id : ℕ
  pub source_domain_id : Option ℕ
  pub external_id : Option Text
  pub category_code : Text
  pub category_title : Option Text
  pub state : Option Text
  pub org_type : Option Text
  pub org_type_title : Option Text
  pub title : Option Text
  pub main_url : Option Text
  pub contact_url : Option Text
  pub is_seed : Bool

unfoldable pub find_snapshot : ℕ → ℕ → List Snapshot → Option Snapshot
find_snapshot job_id domain_id rows =
    Table.first (λ (s : Snapshot). s.job_id == job_id && opt_eq s.source_domain_id (some domain_id))
      rows

abbrev pub new_snapshot : ℕ → ℕ → Domain → Bool → Snapshot
new_snapshot id job_id d is_seed = record {
  id = id;
  job_id = job_id;
  source_domain_id = some d.id;
  external_id = d.external_id;
  category_code = d.category_code;
  category_title = d.category_title;
  state = d.state;
  org_type = d.org_type;
  org_type_title = d.org_type_title;
  title = d.title;
  main_url = d.main_url;
  contact_url = d.contact_url;
  is_seed = is_seed;
}

unfoldable pub lookup_netloc : Text → List (Text × Domain) → Option Domain
lookup_netloc k [] = none
lookup_netloc k ((n, d) ∷ rest) =
    let later = lookup_netloc k rest in if text_eq n k then some d else later

-- `".".join(labels)`
unfoldable pub join_labels : List Text → Text
join_labels [] = []
join_labels (l ∷ []) = l
join_labels (l ∷ m ∷ ls) = l ++ (b'.' ∷ join_labels (m ∷ ls))

-- The walk from the host up through its parents: two labels at least, and no public suffix.
unfoldable pub walk_up : List Text → List Text → List (Text × Domain) → Option Domain
walk_up public [] netlocs = none
walk_up public (l ∷ []) netlocs = none
walk_up public (l ∷ m ∷ ls) netlocs =
    let candidate = join_labels (l ∷ m ∷ ls) in
    let parents = walk_up public (m ∷ ls) netlocs in
    if text_in candidate public
    then none
    else elim (lookup_netloc candidate netlocs) [ some d ↦ some d | none ↦ parents ]

-- The host of a URL: lower case, without its port and a leading "www.".
unfoldable pub host_of : SplitUrl → Text
host_of parts = remove_prefix (split_once b':' (lower parts.netloc)).0 (codes "www.")

unfoldable pub resolve_domain_for_url : Text → List (Text × Domain) → List Text → Option Domain
unfolding walk_up host_of
resolve_domain_for_url source_url netlocs target_suffixes = elim (urlsplit source_url) [
  | none ↦ none
  | some parts ↦
      let public = map (lstrip (λ c. c == b'.')) target_suffixes in
      if is_empty (host_of parts) then none else walk_up public (split b'.' (host_of parts)) netlocs
]
