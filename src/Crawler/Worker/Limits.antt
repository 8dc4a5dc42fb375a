-- ===== src/Crawler/Worker/Limits.antt =====
-- The limits on the unfinished items and on the chain cells.
use gov_crawler.Base.{
  ℕ, zero, suc, ◌<◌, ◌≤◌, ◌≡◌, ◌⊎◌, inl, inr, refl, Bool, Option, none, some, List, [], ◌∷◌, ◌++◌,
  All, All-append, All-imp, arith, length, set, length-append, length-set,
}
use gov_crawler.Base.Text.{Text}
use gov_crawler.Crawler.Config.{CrawlConfig}
use gov_crawler.Crawler.Engine.{QueueItem, Engine, push, new_engine}

module _ (cfg : CrawlConfig) where
  abbrev pub DepthFits : ℕ → Type 0
  DepthFits d = (cfg.max_depth ≡ 0) ⊎ (d ≤ cfg.max_depth)

  -- The chain's cell is in the store.
  abbrev pub ChainFits : ℕ → Option ℕ → Type 0
  ChainFits n none = Unit
  ChainFits n (some c) = c < n

  abbrev pub ItemFits : ℕ → QueueItem → Type 0
  ItemFits n i =
      DepthFits i.depth
      × (i.page_hops ≤ cfg.pagination.max_pagination_pages)
      × ChainFits n i.chain_budget

  -- No unfinished item is deeper than max_depth (0 is no limit) or further along a chain than
  -- max_pagination_pages, and no chain has spent more than max_chain_children.
  pub record IsBounded (e : Engine) : Type 0 where
    pub items : All (ItemFits (length e.cells)) e.pending
    pub budgets : All (λ (n : ℕ). n ≤ cfg.pagination.max_chain_children) e.cells

  pub new_engine-IsBounded : IsBounded new_engine
  new_engine-IsBounded = record { items = tt; budgets = tt }

  pub push-IsBounded :
      (run : CrawlConfig) (url : Text) (d : ℕ) (i : Option ℕ) (s : Bool) (h : ℕ) (b : Option ℕ)
      (e : Engine)
      → DepthFits d
      → h ≤ cfg.pagination.max_pagination_pages
      → ChainFits (length e.cells) b
      → IsBounded e
      → IsBounded (push run url d i s h b e)
  unfolding push
  push-IsBounded run url d i s h b e deep far there v = record {
    items = All-append (ItemFits (length e.cells)) e.pending _ v.items ((deep, far, there), tt);
    budgets = v.budgets;
  }

  pub ChainFits-grow : (m n : ℕ) (b : Option ℕ) → m ≤ n → ChainFits m b → ChainFits n b
  ChainFits-grow m n none le h = tt
  ChainFits-grow m n (some c) le h = omega arith

  pub mint-IsBounded :
      (e : Engine) → IsBounded e → IsBounded (record e { cells = e.cells ++ 0 ∷ [] })
  mint-IsBounded e v = record {
    items =
        All-imp
          (λ i h. (
            h.0,
            h.1,
            ChainFits-grow (length e.cells) (length (e.cells ++ 0 ∷ [])) i.chain_budget
                (omega (arith, length-append e.cells (0 ∷ []))) h.2,
          ))
          e.pending v.items;
    budgets =
        All-append (λ (n : ℕ). n ≤ cfg.pagination.max_chain_children) e.cells (0 ∷ []) v.budgets
          (omega arith, tt);
  }

  All-set :
      (m : ℕ) (xs : List ℕ) (c v : ℕ)
      → All (λ (n : ℕ). n ≤ m) xs
      → v ≤ m
      → All (λ (n : ℕ). n ≤ m) (set xs c v)
  All-set m [] c v h le = tt
  All-set m (x ∷ xs) zero v h le = (le, h.1)
  All-set m (x ∷ xs) (suc c) v h le = (h.0, All-set m xs c v h.1 le)

  pub draw-IsBounded :
      (c v : ℕ) (e : Engine)
      → v ≤ cfg.pagination.max_chain_children
      → IsBounded e
      → IsBounded (record e { cells = set e.cells c v })
  draw-IsBounded c v e le b = record {
    items = rw (length-set e.cells c v) b.items;
    budgets = All-set cfg.pagination.max_chain_children e.cells c v b.budgets le;
  }

-- The limits of a policy are within those of another.
pub record Within (cfg top : CrawlConfig) : Type 0 where
  pub depth : (top.max_depth ≡ 0) ⊎ (1 ≤ cfg.max_depth) × (cfg.max_depth ≤ top.max_depth)
  pub hops : cfg.pagination.max_pagination_pages ≤ top.pagination.max_pagination_pages
  pub chain : cfg.pagination.max_chain_children ≤ top.pagination.max_chain_children

pub same-Within : (cfg : CrawlConfig) → Within cfg cfg
same-Within cfg = record { depth = zero_or cfg.max_depth; hops = omega arith; chain = omega arith }
  where
    zero_or : (n : ℕ) → (n ≡ 0) ⊎ (1 ≤ n) × (n ≤ n)
    zero_or zero = inl refl
    zero_or (suc n) = inr (omega arith, omega arith)
