-- ===== src/Tests/Crawl.antt =====
-- Runs of the crawler on one page.
use gov_crawler.Base.{
  inr, ℕ, ◌+◌, ◌≡◌, ◌≤◌, ◌<◌, refl, true, false, ◌&&◌, none, some, List, [], ◌∷◌, length, arith,
}
use gov_crawler.Base.Table
use gov_crawler.Base.Text.{Text, codes, any, text_in}
use gov_crawler.Url.{urlsplit, parse_qsl, SplitUrl}
use gov_crawler.Crawler.Config.{PaginationConfig, CrawlConfig, RawLink}
use gov_crawler.Crawler.Pagination.{
  is_plain_int, param_value, is_pagination_link, elect_pagination_target, has_next,
}
use gov_crawler.Crawler.Pagination.Election.{
  accepts, url_of, or_else, AllParse, elect_pagination_target-eq, param_firewall,
}
use gov_crawler.Crawler.Engine.{
  QueueItem, Engine, returned, new_engine, enqueue, push, url_key, url_filter, is_skippable,
  is_gov_domain,
}
use gov_crawler.Crawler.Engine.Pending.{IsConsistent, page_keys}
use gov_crawler.Crawler.Links.{
  Page, cell, max_links, enqueue_links, link_loop, link_step, pagination_step, child_step,
  is_priority_page,
}
use gov_crawler.Crawler.Links.Rule.{engine_of}
use gov_crawler.Crawler.Links.Bounds.{enqueue_links-page_cap, enqueue_links-account}
use gov_crawler.Crawler.Links.Chain.{enqueue_links-chain_budget}
use gov_crawler.Crawler.Worker.{see_depth}
use gov_crawler.Crawler.Worker.Limits.{Within, same-Within, IsBounded}
use gov_crawler.Crawler.Worker.Reach.{seeds, sees, starts, steps, resumes, Reach-IsSound}
use gov_crawler.Crawler.Frontier.{number_of}
use gov_crawler.Crawler.Frontier.RoundTrip.{
  resumed, restarted, Resumes, final_order, checkpoint_roundtrip,
}

abbrev paging : PaginationConfig
paging = record {
  enabled = true;
  max_pagination_pages = 3;
  max_chain_children = 4;
  param_signals = codes "page" ∷ [];
  text_signals = codes "next" ∷ [];
}

abbrev settings : CrawlConfig
settings = record {
  skip_extensions = [];
  target_suffixes = [];
  priority_keywords = [];
  max_depth = 2;
  max_links_at = λ d. none;
  max_links_default = some 5;
  pagination = paging;
}

-- The link to the page's second part, and a link to another page.
abbrev next_link : RawLink
next_link = record { absolute = codes "http://a.gov/l?page=2"; text = codes "2"; rel = [] }

abbrev contact_link : RawLink
contact_link = record { absolute = codes "http://a.gov/c"; text = codes "contact"; rel = [] }

abbrev links : List RawLink
links = next_link ∷ contact_link ∷ []

abbrev page : Page
page = record {
  base_url = codes "http://a.gov/l";
  depth = 0;
  domain_id = none;
  is_seed_page = true;
  page_hops = 0;
  chain_budget = none;
}

abbrev chain_page : Page
chain_page = record page { page_hops = 1; chain_budget = some 0 }

abbrev chain_engine : Engine
chain_engine = record new_engine { cells = 1 ∷ [] }

links-AllParse : AllParse paging links
unfolding is_pagination_link urlsplit
links-AllParse = (refl, (refl, tt))

elect_pagination_target-eq_example :
    elect_pagination_target paging links true
    ≡ some (
        or_else
          (url_of (Table.first (λ l. accepts paging l && has_next l) links))
          (url_of (Table.first (accepts paging) links)))
elect_pagination_target-eq_example = elect_pagination_target-eq paging links links-AllParse

abbrev search_url : Text
search_url = codes "http://a.gov/l?page=x"

abbrev search_parts : SplitUrl
search_parts = record {
  scheme = codes "http";
  netloc = codes "a.gov";
  path = codes "/l";
  query = codes "page=x";
}

search-urlsplit : urlsplit search_url ≡ some search_parts
unfolding urlsplit
search-urlsplit = refl

search-param_value : param_value (parse_qsl search_parts.query) (codes "page") ≡ some (codes "x")
unfolding param_value parse_qsl
search-param_value = refl

search-is_plain_int : is_plain_int (codes "x") ≡ false
unfolding is_plain_int
search-is_plain_int = refl

param_firewall_example : is_pagination_link paging search_url (codes "next") [] ≡ some false
param_firewall_example =
    param_firewall paging search_url search_parts [] (codes "page") (codes "x") [] (codes "next") []
      refl search-urlsplit search-param_value search-is_plain_int

page-capped : 0 < max_links settings 0
unfolding max_links
page-capped = omega arith

enqueue_links-page_cap_example :
    (engine_of (enqueue_links settings page false links new_engine)).counter
    ≤ new_engine.counter + max_links settings page.depth + 1
enqueue_links-page_cap_example =
    enqueue_links-page_cap settings page false links new_engine refl page-capped

-- The state after the page's links.
abbrev filled : Engine
filled = engine_of (enqueue_links settings page false links new_engine)

links-elected :
    elect_pagination_target paging links true ≡ some (some (codes "http://a.gov/l?page=2"))
unfolding elect_pagination_target is_pagination_link urlsplit text_in parse_qsl
links-elected = refl

links-returned : enqueue_links settings page false links new_engine ≡ returned filled
unfolding enqueue_links urlsplit text_in any elect_pagination_target is_pagination_link parse_qsl
    link_loop link_step url_filter is_skippable is_gov_domain pagination_step enqueue max_links push
    url_key is_priority_page child_step
links-returned = refl

enqueue_links-account_example :
    filled.skipped + filled.counter ≡ new_engine.skipped + new_engine.counter + length links
enqueue_links-account_example =
    enqueue_links-account settings page (codes "http://a.gov/l?page=2") links new_engine filled
      links-elected links-returned

enqueue_links-chain_budget_example :
    (let e' = engine_of (enqueue_links settings chain_page false links chain_engine) in
      (e'.counter + cell 0 chain_engine ≤ chain_engine.counter + cell 0 e' + 1) × (cell 0 e' ≤ 4))
enqueue_links-chain_budget_example =
    enqueue_links-chain_budget settings chain_page false links 0 chain_engine refl (omega arith)
      (omega arith)

-- A crawl with one seed.
-- A tighter policy.
abbrev shallow : CrawlConfig
shallow = record settings { max_depth = 1 }

shallow-Within : Within shallow settings
shallow-Within = record {
  depth = inr (omega arith, omega arith);
  hops = omega arith;
  chain = omega arith;
}

abbrev seeded : Engine
seeded = engine_of (enqueue shallow (codes "http://a.gov") 0 (some 1) true 0 none new_engine)

-- Two items of one chain.
abbrev chain_item : ℕ → Text → QueueItem
chain_item n url = record {
  priority = 0;
  counter = n;
  url = url;
  depth = 1;
  domain_id = none;
  is_seed = true;
  page_hops = 1;
  chain_budget = some 0;
}

abbrev chained : Engine
chained = record new_engine {
  pending = chain_item 1 (codes "http://a.gov/1") ∷ chain_item 2 (codes "http://a.gov/2") ∷ [];
  counter = 2;
  cells = 3 ∷ [];
}

chained-IsConsistent : IsConsistent chained
unfolding page_keys
chained-IsConsistent = record {
  fresh = (omega arith, (omega arith, tt));
  ascending = ((omega arith, tt), (tt, tt));
  known = tt;
  distinct = tt;
}

checkpoint_roundtrip_example :
    Resumes chained (resumed chained) (λ a. number_of a (final_order chained))
checkpoint_roundtrip_example = checkpoint_roundtrip chained chained-IsConsistent

-- A run under the tighter policy that is stopped and resumed under the looser one.
Reach-IsSound_example :
    IsConsistent (see_depth 1 (restarted (codes "b.gov" ∷ []) seeded))
    × IsBounded settings (see_depth 1 (restarted (codes "b.gov" ∷ []) seeded))
Reach-IsSound_example = Reach-IsSound settings (
    steps settings (same-Within settings)
      (resumes (codes "b.gov" ∷ [])
        (steps shallow shallow-Within starts (seeds (codes "http://a.gov") (some 1))))
      (sees (chain_item 1 (codes "http://a.gov"))))
