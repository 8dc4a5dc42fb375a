-- ===== src/Crawler/Worker.antt =====
-- agent/crawler/engine.py: a worker's turn. `_worker` takes the least item of the priority queue,
-- `_process` handles it, and the item is acknowledged however that ends. The page is an argument:
-- what `_fetch` and `parse_for_engine` gave, `none` for a fetch without a result. Throttling, the
-- HTTP and browser calls and the write to the local visited history change nothing of the engine.

pub mod Limits
pub mod Sound
pub mod Reach
use gov_crawler.Base.{
  ℕ, suc, ◌+◌, ◌-◌, ◌≡◌, Bool, true, false, not, ◌&&◌, ◌||◌, Option, none, some, List, [], ◌∷◌,
  ◌++◌, ltb, leb, ◌==◌, if◌then◌else◌, length,
}
use gov_crawler.Base.Table
use gov_crawler.Base.Text.{Text, is_empty, text_eq}
use gov_crawler.Url.{urlsplit, SplitUrl, strip_www}
use gov_crawler.Crawler.Config.{CrawlConfig, RawLink}
use gov_crawler.Crawler.Engine.{QueueItem, Engine, Outcome, returned, raised}
use gov_crawler.Crawler.Links.{Page, enqueue_links}

-- The order of `_QueueItem`: the priority, then the counter.
unfoldable pub before : QueueItem → QueueItem → Bool
before a b = ltb a.priority b.priority || (a.priority == b.priority && ltb a.counter b.counter)

unfoldable pub least : QueueItem → List QueueItem → QueueItem
unfolding before
least i [] = i
least i (j ∷ js) = least (if before j i then j else i) js

abbrev pub has_counter : ℕ → QueueItem → Bool
has_counter c i = i.counter == c

-- `await self._queue.get()` and the count of the busy workers; `none` where the queue is empty.
unfoldable pub take_item : Engine → Option (QueueItem × Engine)
unfolding least
take_item e = elim e.queue [
  | [] ↦ none
  | i ∷ is ↦
      let item = least i is in
      some (
        item,
        record e {
          queue = Table.delete (has_counter item.counter) e.queue;
          active_workers = e.active_workers + 1;
        },
      )
]

-- The end of a turn, on every path: success, timeout, error and cancellation.
unfoldable pub finish_item : QueueItem → Engine → Engine
finish_item item e = record e {
  active_workers = e.active_workers - 1;
  pending = Table.delete (has_counter item.counter) e.pending;
}

-- What the parser gives for a page: the emails of its leads, "" for none, and its links.
pub record ParsedPage : Type 0 where
  pub lead_emails : List Text
  pub raw_links : List RawLink

-- `_save_leads`, as far as it counts: a lead without an email is passed over.
unfoldable pub attempted : List Text → ℕ
attempted [] = 0
attempted (email ∷ emails) = (if is_empty email then 0 else 1) + attempted emails

unfoldable pub save_leads : List Text → Bool → Engine → Engine
unfolding attempted
save_leads emails is_seed e = record e {
  leads_found = e.leads_found + attempted emails;
  crawled_domains = if is_seed then e.crawled_domains + 1 else e.crawled_domains;
}

-- `d.get(k)` on the netloc dict, newest entry first.
unfoldable pub netloc_lookup : Text → List (Text × ℕ) → Option ℕ
netloc_lookup k [] = none
netloc_lookup k ((j, d) ∷ rest) = if text_eq j k then some d else netloc_lookup k rest

-- `a or b` on ids: 0 counts as missing.
abbrev pub or_id : Option ℕ → Option ℕ → Option ℕ
or_id none b = b
or_id (some a) b = if a == 0 then b else some a

-- The page's domain id: the item's own, or that of its netloc. The outer `none` is a ValueError.
unfoldable pub resolve_domain : QueueItem → Engine → Option (Option ℕ)
unfolding netloc_lookup
resolve_domain item e = elim item.domain_id [
  | some d ↦ some (some d)
  | none ↦ elim (urlsplit item.url) [
    | none ↦ none
    | some parts ↦ some (
        or_id (netloc_lookup parts.netloc e.netloc_to_domain)
          (netloc_lookup (strip_www parts.netloc) e.netloc_to_domain))
  ]
]

unfoldable pub see_depth : ℕ → Engine → Engine
see_depth depth e = record e {
  max_depth_seen = if ltb e.max_depth_seen depth then depth else e.max_depth_seen;
}

-- The links are followed only above the depth limit; a limit of 0 is none.
unfoldable pub follow_links :
    CrawlConfig → QueueItem → Option ℕ → Bool → List RawLink → Engine → Outcome
follow_links cfg item domain_id backpressured raw_links e =
    if cfg.max_depth == 0 || ltb item.depth cfg.max_depth
    then enqueue_links cfg
        (record {
          base_url = item.url;
          depth = item.depth;
          domain_id = domain_id;
          is_seed_page = item.is_seed;
          page_hops = item.page_hops;
          chain_budget = item.chain_budget;
        })
        backpressured raw_links e
    else returned e

unfoldable pub handle_page : CrawlConfig → QueueItem → Bool → ParsedPage → Engine → Outcome
handle_page cfg item backpressured page e = elim (resolve_domain item e) [
  | none ↦ raised e
  | some domain_id ↦
      follow_links cfg item domain_id backpressured page.raw_links
        (save_leads page.lead_emails item.is_seed e)
]

unfoldable pub process : CrawlConfig → QueueItem → Option ParsedPage → Bool → Engine → Outcome
process cfg item none backpressured e =
    let e' = see_depth item.depth e in
    returned (if item.is_seed then record e' { crawled_domains = e'.crawled_domains + 1 } else e')
process cfg item (some page) backpressured e =
    let e' = see_depth item.depth e in
    handle_page cfg item backpressured page
      (record e' { session_visited_count = e'.session_visited_count + 1 })
