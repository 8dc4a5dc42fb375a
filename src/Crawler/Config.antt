-- ===== src/Crawler/Config.antt =====
-- The settings that the engine reads from its `config` dict. The values of `max_pagination_pages` and
-- `max_chain_children` are those that `pagination.safe_int` gives; a signal list that is one string in
-- the file is the list of that string.
use gov_crawler.Base.{ℕ, Bool, Option, List}
use gov_crawler.Base.Text.{Text}

pub record PaginationConfig : Type 0 where
  pub enabled : Bool
  pub max_pagination_pages : ℕ
  pub max_chain_children : ℕ
  pub param_signals : List Text
  pub text_signals : List Text

pub record CrawlConfig : Type 0 where
  pub skip_extensions : List Text
  pub target_suffixes : List Text
  pub priority_keywords : List Text
  pub max_depth : ℕ
  -- `max_links_per_page`: the entry of a depth, and the entry "default".
  pub max_links_at : ℕ → Option ℕ
  pub max_links_default : Option ℕ
  pub pagination : PaginationConfig

-- A link of a parsed page: its absolute URL, its anchor text and its `rel` words.
pub record RawLink : Type 0 where
  pub absolute : Text
  pub text : Text
  pub rel : List Text
