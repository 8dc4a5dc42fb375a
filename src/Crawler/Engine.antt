-- ===== src/Crawler/Engine.antt =====
-- agent/crawler/engine.py: the state of a CrawlerEngine and `_enqueue`. A pagination chain's shared
-- `[count]` list is a cell of the store `cells`, and an item holds its address. `queue` is the content
-- of the asyncio.PriorityQueue, `pending` the dict of the unfinished items in insertion order, and
-- `visited` the set of the keys. An await in `_enqueue` never waits, the queue being unbounded, so a
-- call is one step.
pub mod Pending
use gov_crawler.Base.{
  ℕ, suc, ◌+◌, ◌≡◌, refl, Bool, true, false, not, ◌&&◌, ◌||◌, Option, none, some, List, [], ◌∷◌,
  ◌++◌, ltb, leb, ◌==◌, if◌then◌else◌,
}
use gov_crawler.Base.Text.{
  Text, codes, any, is_empty, text_eq, text_in, ends_with, contains, remove_prefix, lower, rstrip,
}
use gov_crawler.Url.{urlsplit, SplitUrl}
use gov_crawler.Crawler.Config.{CrawlConfig}

pub record QueueItem : Type 0 where
  pub priority : ℕ
  pub counter : ℕ
  pub url : Text
  pub depth : ℕ
  pub domain_id : Option ℕ
  pub is_seed : Bool
  pub page_hops : ℕ
  pub chain_budget : Option ℕ

pub record Engine : Type 0 where
  pub queue : List QueueItem
  pub pending : List QueueItem
  pub visited : List Text
  pub netloc_to_domain : List (Text × ℕ)
  pub counter : ℕ
  pub skipped : ℕ
  pub session_visited_count : ℕ
  pub max_depth_seen : ℕ
  pub active_workers : ℕ
  pub leads_found : ℕ
  pub crawled_domains : ℕ
  pub cells : List ℕ

abbrev pub new_engine : Engine
new_engine = record {
  queue = [];
  pending = [];
  visited = [];
  netloc_to_domain = [];
  counter = 0;
  skipped = 0;
  session_visited_count = 0;
  max_depth_seen = 0;
  active_workers = 0;
  leads_found = 0;
  crawled_domains = 0;
  cells = [];
}

-- A call that returns, or that raises and leaves the engine as it then is.
pub data Outcome : Type 0 where
  returned : Engine → Outcome
  raised : Engine → Outcome

abbrev or_slash : Text → Text
or_slash [] = codes "/"
or_slash (c ∷ s) = c ∷ s

abbrev query_part : Text → Text
query_part [] = []
query_part (c ∷ s) = b'?' ∷ c ∷ s

unfoldable pub url_key : Text → Text
unfolding rstrip remove_prefix lower
url_key url = elim (urlsplit url) [
  | none ↦ url
  | some p ↦
      remove_prefix (lower p.netloc) (codes "www.")
      ++ (or_slash (rstrip (λ c. c == b'/') p.path) ++ query_part p.query)
]

unfoldable pub url_priority : CrawlConfig → Text → ℕ
unfolding any contains lower
url_priority cfg url =
    if is_empty cfg.priority_keywords
    then 0
    else if any (contains (lower url)) cfg.priority_keywords
    then 0
    else 1

-- `none` is the ValueError of `urlsplit`.
unfoldable pub is_skippable : CrawlConfig → Text → Option Bool
unfolding any ends_with lower
is_skippable cfg url = if is_empty cfg.skip_extensions then some false else elim (urlsplit url) [
  | none ↦ none
  | some p ↦ some (any (ends_with (lower p.path)) cfg.skip_extensions)
]

unfoldable pub is_gov_domain : CrawlConfig → Text → Option Bool
unfolding any ends_with lower
is_gov_domain cfg url = if is_empty cfg.target_suffixes then some true else elim (urlsplit url) [
  | none ↦ none
  | some p ↦ some (any (ends_with (lower p.netloc)) cfg.target_suffixes)
]

unfoldable pub is_priority_url : CrawlConfig → Text → Text → Bool
unfolding any contains lower
is_priority_url cfg url anchor_text =
    if is_empty cfg.priority_keywords
    then true
    else any (contains (lower (url ++ (32 ∷ anchor_text)))) cfg.priority_keywords

-- The two URL filters in the order of their calls.
pub data Verdict : Type 0 where
  raises rejects admits : Verdict

unfoldable pub url_filter : CrawlConfig → Text → Verdict
url_filter cfg url = elim (is_skippable cfg url) [
  | none ↦ raises
  | some true ↦ rejects
  | some false ↦ elim (is_gov_domain cfg url) [
    | none ↦ raises
    | some false ↦ rejects
    | some true ↦ admits
  ]
]

abbrev pub skip : Engine → Engine
skip e = record e { skipped = e.skipped + 1 }

-- The second half of `_enqueue`: a new item for a URL that has passed.
unfoldable pub push : CrawlConfig → Text → ℕ → Option ℕ → Bool → ℕ → Option ℕ → Engine → Engine
push cfg url depth domain_id is_seed page_hops chain_budget e =
    let item : QueueItem = record {
      priority = url_priority cfg url;
      counter = suc e.counter;
      url = url;
      depth = depth;
      domain_id = domain_id;
      is_seed = is_seed;
      page_hops = page_hops;
      chain_budget = chain_budget;
    } in
    record e {
      visited = if is_seed then e.visited else url_key url ∷ e.visited;
      counter = suc e.counter;
      pending = e.pending ++ item ∷ [];
      queue = e.queue ++ item ∷ [];
    }

unfoldable pub enqueue : CrawlConfig → Text → ℕ → Option ℕ → Bool → ℕ → Option ℕ → Engine → Outcome
enqueue cfg url depth domain_id is_seed page_hops chain_budget e = elim (url_filter cfg url) [
  | raises ↦ raised e
  | rejects ↦ returned (skip e)
  | admits ↦
      if text_in (url_key url) e.visited
      then returned (skip e)
      else returned (push cfg url depth domain_id is_seed page_hops chain_budget e)
]

-- A URL that passes the filters and is new becomes an item.
pub enqueue_new :
    (cfg : CrawlConfig) (url : Text) (depth : ℕ) (domain_id : Option ℕ) (is_seed : Bool)
    (page_hops : ℕ) (chain_budget : Option ℕ) (e : Engine)
    → url_filter cfg url ≡ admits
    → text_in (url_key url) e.visited ≡ false
    → enqueue cfg url depth domain_id is_seed page_hops chain_budget e
      ≡ returned (push cfg url depth domain_id is_seed page_hops chain_budget e)
unfolding enqueue
enqueue_new cfg url depth domain_id is_seed page_hops chain_budget e passes new =
    rw (passes, enqueue) (rw new)
