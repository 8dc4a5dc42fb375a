-- ===== src/Crawler/Worker/Reach.antt =====
-- The interleavings of a crawl. The workers share one event loop, so the engine changes between two
-- awaits in one step; the steps of different workers' turns follow one another in any order. A run may
-- resume from a checkpoint of an earlier one, also under another policy.
use gov_crawler.Base.{ℕ, ◌+◌, ◌≡◌, refl, true, Option, none, some, List, ◌∷◌, Bool, length, arith}
use gov_crawler.Base.Table
use gov_crawler.Base.Table.{All-first}
use gov_crawler.Base.Text.{Text}
use gov_crawler.Crawler.Config.{CrawlConfig, RawLink}
use gov_crawler.Crawler.Engine.{QueueItem, Engine, url_key, enqueue, new_engine}
use gov_crawler.Crawler.Engine.Pending.{IsConsistent, new_engine-IsConsistent, visit-IsConsistent}
use gov_crawler.Crawler.Links.Rule.{engine_of}
use gov_crawler.Crawler.Worker.{
  has_counter, take_item, finish_item, save_leads, see_depth, follow_links,
}
use gov_crawler.Crawler.Worker.Limits.{Within, ItemFits, IsBounded, new_engine-IsBounded}
use gov_crawler.Crawler.Frontier.RoundTrip.{restarted}
use gov_crawler.Crawler.Frontier.Resumed.{restarted-IsSound}
use gov_crawler.Crawler.Worker.Sound.{
  IsSound, IsSound-same, seed-IsSound, follow_links-IsSound, finish_item-IsSound,
}

module _ (cfg : CrawlConfig) where
  -- One step of `run` or of a worker's turn; `item` is an unfinished item.
  pub data Step (e : Engine) : Engine → Type 0 where
    remembers : (url : Text) → Step e (record e { visited = url_key url ∷ e.visited })
    seeds :
        (url : Text) (domain_id : Option ℕ)
        → Step e (engine_of (enqueue cfg url 0 domain_id true 0 none e))
    takes : (item : QueueItem) (e' : Engine) → take_item e ≡ some (item, e') → Step e e'
    sees : (item : QueueItem) → Step e (see_depth item.depth e)
    visits : Step e (record e { session_visited_count = e.session_visited_count + 1 })
    misses : Step e (record e { crawled_domains = e.crawled_domains + 1 })
    saves : (emails : List Text) (is_seed : Bool) → Step e (save_leads emails is_seed e)
    follows :
        (item : QueueItem) (domain_id : Option ℕ) (backpressured : Bool) (links : List RawLink)
        → Table.first (has_counter item.counter) e.pending ≡ some item
        → Step e (engine_of (follow_links cfg item domain_id backpressured links e))
    finishes : (item : QueueItem) → Step e (finish_item item e)

  take_item-same :
      (e e' : Engine) (item : QueueItem)
      → take_item e ≡ some (item, e')
      → (e'.pending ≡ e.pending)
        × (e'.visited ≡ e.visited)
        × (e'.counter ≡ e.counter)
        × (e'.cells ≡ e.cells)
  unfolding take_item
  take_item-same e e' item h = ground arith

  Step-IsSound :
      (top : CrawlConfig)
      → Within cfg top
      → {e e' : Engine} → Step e e'
      → IsSound top e
      → IsSound top e'
  unfolding see_depth save_leads
  Step-IsSound top w {e} (remembers url) (c, b) =
      (visit-IsConsistent (url_key url) e c, record { items = b.items; budgets = b.budgets })
  Step-IsSound top w {e} (seeds url domain_id) h = seed-IsSound cfg top w url domain_id e h
  Step-IsSound top w {e} (takes item e' taken) h =
      let same = take_item-same e e' item taken in
      IsSound-same cfg top w e e' same.0 same.1 same.2 same.3 h
  Step-IsSound top w {e} (sees item) h = IsSound-same cfg top w e _ refl refl refl refl h
  Step-IsSound top w {e} visits h = IsSound-same cfg top w e _ refl refl refl refl h
  Step-IsSound top w {e} misses h = IsSound-same cfg top w e _ refl refl refl refl h
  Step-IsSound top w {e} (saves emails is_seed) h = IsSound-same cfg top w e _ refl refl refl refl h
  Step-IsSound top w {e} (follows item domain_id backpressured links there) h =
      follow_links-IsSound cfg top w item domain_id backpressured links e
        (All-first (ItemFits top (length e.cells)) (has_counter item.counter) item e.pending
          h.1.items there)
        h
  Step-IsSound top w {e} (finishes item) h = finish_item-IsSound cfg top w item e h

module _ (top : CrawlConfig) where
  -- The states of a crawl whose runs have policies within `top`. A run begins with a new engine, or with
  -- one that has `known` from `visited_bootstrap` and then rehydrates the checkpoint of any state of
  -- an earlier run, which may have had another policy.
  pub data Reach : Engine → Type 0 where
    starts : Reach new_engine
    steps :
        (cfg : CrawlConfig) → Within cfg top → {e e' : Engine} → Reach e → Step cfg e e' → Reach e'
    resumes : {e : Engine} (known : List Text) → Reach e → Reach (restarted known e)

  -- In every state that a crawl can reach whose runs have policies within `top`, in any interleaving of
  -- the workers and over any number of resumed runs: counters are unique; no two unfinished pages that
  -- are no seeds have the same URL key, and all such keys are in the visited set; no unfinished item is
  -- deeper than max_depth of `top` (unless that is 0, which the code takes as no limit) or further along
  -- a chain than its max_pagination_pages; and no chain has spent more than its max_chain_children.
  pub Reach-IsSound : {e : Engine} → Reach e → IsConsistent e × IsBounded top e
  Reach-IsSound starts = (new_engine-IsConsistent, new_engine-IsBounded top)
  Reach-IsSound (steps cfg w r s) = Step-IsSound cfg top w s (Reach-IsSound r)
  Reach-IsSound (resumes {e} known r) = restarted-IsSound top known e (Reach-IsSound r)
