-- ===== src/Crawler/Links.antt =====
-- agent/crawler/engine.py: `_enqueue_links`, the link discovery of one page. `backpressured` is the
-- value of the client's `is_backpressured` at the call.
pub mod Effects
pub mod Rule
pub mod Bounds
pub mod Chain
use gov_crawler.Base.{
  ℕ, suc, ◌+◌, ◌≡◌, Bool, true, false, not, ◌&&◌, ◌||◌, Option, none, some, List, [], ◌∷◌, ◌++◌,
  ltb, leb, ◌==◌, if◌then◌else◌, length, get_or, set, is_some,
}
use gov_crawler.Base.Text.{Text, text_eq, text_in}
use gov_crawler.Crawler.Config.{CrawlConfig, RawLink}
use gov_crawler.Crawler.Pagination.{elect_pagination_target}
use gov_crawler.Crawler.Engine.{
  Engine, Outcome, returned, raised, Verdict, raises, rejects, admits, url_key, url_filter,
  is_priority_url, skip, enqueue,
}

-- The page whose links are enqueued: the arguments of `_enqueue_links`.
pub record Page : Type 0 where
  pub base_url : Text
  pub depth : ℕ
  pub domain_id : Option ℕ
  pub is_seed_page : Bool
  pub page_hops : ℕ
  pub chain_budget : Option ℕ

-- What one round of the loop does next.
pub data Flow : Type 0 where
  proceed : Engine → ℕ → Flow
  stop : Engine → Flow
  throw : Engine → Flow

abbrev pub or_five : Option ℕ → ℕ
or_five none = 5
or_five (some n) = n

-- `depth_limits.get(str(depth), depth_limits.get("default", 5))`
unfoldable pub max_links : CrawlConfig → ℕ → ℕ
max_links cfg depth = elim (cfg.max_links_at depth) [
  | none ↦ or_five cfg.max_links_default
  | some n ↦ n
]

unfoldable pub is_priority_page : CrawlConfig → Page → Bool
unfolding is_priority_url
is_priority_page cfg p = p.is_seed_page || is_priority_url cfg p.base_url []

-- `is_pag`
abbrev pub is_target : Option Text → Text → Bool
is_target none url = false
is_target (some t) url = text_eq url t

-- The count of a chain's cell.
abbrev pub cell : ℕ → Engine → ℕ
cell c e = get_or e.cells c 0

abbrev pub after : ℕ → Outcome → Flow
after n (returned e) = proceed e n
after n (raised e) = throw e

-- The pagination branch of the loop.
unfoldable pub pagination_step : CrawlConfig → Page → Text → ℕ → Engine → Flow
pagination_step cfg p url n e =
    if leb cfg.pagination.max_pagination_pages p.page_hops
    then proceed (skip e) n
    else elim p.chain_budget [
      | some c ↦ after n (enqueue cfg url p.depth p.domain_id false (suc p.page_hops) (some c) e)
      | none ↦ after n (
          enqueue cfg url p.depth p.domain_id false (suc p.page_hops) (some (length e.cells))
            (record e { cells = e.cells ++ 0 ∷ [] }))
    ]

-- The structural links of a chain page, which draw on the chain's cell, and those of other pages.
unfoldable pub child_step : CrawlConfig → Page → Text → ℕ → Engine → Flow
child_step cfg p url n e = elim p.chain_budget [
  | some c ↦
      if leb cfg.pagination.max_chain_children (cell c e)
      then proceed (skip e) n
      else after n (
          enqueue cfg url (suc p.depth) p.domain_id false p.page_hops none
            (record e { cells = set e.cells c (cell c e + 1) }))
  | none ↦ after (n + 1) (enqueue cfg url (suc p.depth) p.domain_id false p.page_hops none e)
]

-- One round of the loop, with n links added so far.
unfoldable pub link_step : CrawlConfig → Page → Option Text → RawLink → ℕ → Engine → Flow
link_step cfg p target l n e =
    let is_pag = is_target target l.absolute in
    let limit = max_links cfg p.depth in
    if not is_pag && (not (is_some p.chain_budget) && (ltb 0 limit && leb limit n))
    then if is_some target then proceed (skip e) n else stop (skip e)
    else elim (url_filter cfg l.absolute) [
      | raises ↦ throw e
      | rejects ↦ proceed (skip e) n
      | admits ↦
          if text_in (url_key l.absolute) e.visited
          then proceed (skip e) n
          else if is_pag
          then pagination_step cfg p l.absolute n e
          else if not (is_priority_page cfg p) && not (is_priority_url cfg l.absolute l.text)
          then proceed (skip e) n
          else child_step cfg p l.absolute n e
    ]

unfoldable pub link_loop : CrawlConfig → Page → Option Text → List RawLink → ℕ → Engine → Outcome
link_loop cfg p target [] n e = returned e
link_loop cfg p target (l ∷ ls) n e = elim (link_step cfg p target l n e) [
  | proceed e' n' ↦ link_loop cfg p target ls n' e'
  | stop e' ↦ returned e'
  | throw e' ↦ raised e'
]

unfoldable pub enqueue_links : CrawlConfig → Page → Bool → List RawLink → Engine → Outcome
enqueue_links cfg p backpressured raw_links e =
    if backpressured
    then returned (record e { skipped = e.skipped + length raw_links })
    else elim (elect_pagination_target cfg.pagination raw_links cfg.pagination.enabled) [
      | none ↦ raised e
      | some target ↦ link_loop cfg p target raw_links 0 e
    ]
