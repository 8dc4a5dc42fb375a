-- ===== src/Crawler/Worker/Sound.antt =====
-- What the steps of a crawl keep: consistency of the unfinished items, and the limits.
use gov_crawler.Base.{
  ℕ, suc, ◌+◌, ◌≤◌, ◌≡◌, ◌⊎◌, inl, inr, refl, subst, Bool, true, false, Option, none, some, List,
  [], ◌∷◌, ◌++◌, ◌||◌, arith, length-append, length-set, length, set, if◌then◌else◌, ◌==◌, ltb,
  Bool-cases,
}
use gov_crawler.Base.Table
use gov_crawler.Base.Table.{All-delete, All-first}
use gov_crawler.Base.Text.{Text, text_in}
use gov_crawler.Crawler.Config.{CrawlConfig, RawLink}
use gov_crawler.Crawler.Pagination.{elect_pagination_target}
use gov_crawler.Crawler.Engine.{
  QueueItem, Engine, Outcome, returned, raised, Verdict, raises, rejects, admits, url_key,
  url_filter, push, enqueue, skip,
}
use gov_crawler.Crawler.Engine.Pending.{IsConsistent, push-IsConsistent, delete-IsConsistent}
use gov_crawler.Crawler.Links.{Page, Flow, cell, link_loop, enqueue_links}
use gov_crawler.Crawler.Links.Effects.{Effect, skips, breaks, fails, hops, mints, draws, adds}
use gov_crawler.Crawler.Links.Rule.{engine_of, After, link_loop-rule}
use gov_crawler.Crawler.Worker.{has_counter, finish_item, follow_links}
use gov_crawler.Crawler.Worker.Limits.{
  DepthFits, ChainFits, ItemFits, IsBounded, push-IsBounded, mint-IsBounded, draw-IsBounded,
  ChainFits-grow, Within,
}

-- Consistent, and within the limits of the policy `top`.
abbrev pub IsSound : CrawlConfig → Engine → Type 0
IsSound top e = IsConsistent e × IsBounded top e

-- A run whose policy is within `top`.
module _ (cfg top : CrawlConfig) (within : Within cfg top) where
  -- Changes of the counters alone.
  pub skip-IsSound : (e : Engine) → IsSound top e → IsSound top (skip e)
  skip-IsSound e (c, b) = (
    record { fresh = c.fresh; ascending = c.ascending; known = c.known; distinct = c.distinct },
    record { items = b.items; budgets = b.budgets },
  )

  -- A page of the loop within its limits.
  module _ (p : Page) (target : Option Text) (deep : DepthFits top (suc p.depth))
      (near : DepthFits top p.depth) (far : p.page_hops ≤ top.pagination.max_pagination_pages) where
    abbrev InLimits : List RawLink → ℕ → Engine → Type 0
    InLimits ls n e = IsSound top e × ChainFits top (length e.cells) p.chain_budget

    abbrev Sound : Outcome → Type 0
    Sound o = IsSound top (engine_of o)

    cells-push :
        (url : Text) (d : ℕ) (i : Option ℕ) (s : Bool) (h : ℕ) (b : Option ℕ) (e : Engine)
        → (push cfg url d i s h b e).cells ≡ e.cells
    unfolding push
    cells-push url d i s h b e = refl

    -- The push of one round keeps all, over a store that already has.
    InLimits-push :
        (url : Text) (d h : ℕ) (b : Option ℕ) (ls : List RawLink) (n : ℕ) (e : Engine)
        → text_in (url_key url) e.visited ≡ false
        → DepthFits top d
        → h ≤ top.pagination.max_pagination_pages
        → ChainFits top (length e.cells) b
        → InLimits ls n e
        → InLimits ls n (push cfg url d p.domain_id false h b e)
    InLimits-push url d h b ls n e new fits close there ((c, l), chain) = (
      (
        push-IsConsistent cfg url d p.domain_id false h b e new c,
        push-IsBounded top cfg url d p.domain_id false h b e fits close there l,
      ),
      rw (cells-push url d p.domain_id false h b e) chain,
    )

    recell : (e : Engine) (cs : List ℕ) → IsConsistent e → IsConsistent (record e { cells = cs })
    recell e cs c = record {
      fresh = c.fresh;
      ascending = c.ascending;
      known = c.known;
      distinct = c.distinct;
    }

    InLimits-step :
        (l : RawLink) (ls : List RawLink) (n : ℕ) (e : Engine) (f : Flow)
        → Effect cfg p target l n e f
        → InLimits (l ∷ ls) n e
        → After cfg p target InLimits Sound ls f
    InLimits-step l ls n e f skips h = (skip-IsSound e h.0, h.1)
    InLimits-step l ls n e f (breaks _ _ _) h = skip-IsSound e h.0
    InLimits-step l ls n e f fails h = h.0
    InLimits-step l ls n e f (hops c chain new _ room) h =
        InLimits-push l.absolute p.depth (suc p.page_hops) (some c) ls n e new near
          (omega (arith, room, within.hops)) (subst (ChainFits top (length e.cells)) chain h.1) h
    InLimits-step l ls n e f (mints chain new _ room) h =
        let e₁ : Engine = record e { cells = e.cells ++ 0 ∷ [] } in
        let longer : length e₁.cells ≡ length e.cells + 1 = length-append e.cells (0 ∷ []) in
        InLimits-push l.absolute p.depth (suc p.page_hops) (some (length e.cells)) ls n e₁ new near
          (omega (arith, room, within.hops)) (omega (arith, longer))
          (
            (recell e e₁.cells h.0.0, mint-IsBounded top e h.0.1),
            ChainFits-grow top (length e.cells) (length e₁.cells) p.chain_budget
                (omega (arith, longer)) h.1,
          )
    InLimits-step l ls n e f (draws c chain new room) h =
        let e₁ : Engine = record e { cells = set e.cells c (cell c e + 1) } in
        InLimits-push l.absolute (suc p.depth) p.page_hops none ls n e₁ new deep far tt (
          (
            recell e e₁.cells h.0.0,
            draw-IsBounded top c (cell c e + 1) e (omega (arith, room, within.chain)) h.0.1,
          ),
          rw (length-set e.cells c (cell c e + 1)) h.1,
        )
    InLimits-step l ls n e f (adds chain new _) h =
        InLimits-push l.absolute (suc p.depth) p.page_hops none ls n e new deep far tt h

    link_loop-IsSound :
        (ls : List RawLink) (e : Engine)
        → IsSound top e
        → ChainFits top (length e.cells) p.chain_budget
        → Sound (link_loop cfg p target ls 0 e)
    link_loop-IsSound ls e h there =
        link_loop-rule cfg p target InLimits Sound InLimits-step (λ n e' h'. h'.0) ls 0 e (h, there)

  enqueue_links-IsSound :
      (p : Page) (backpressured : Bool) (ls : List RawLink) (e : Engine)
      → DepthFits top (suc p.depth)
      → DepthFits top p.depth
      → p.page_hops ≤ top.pagination.max_pagination_pages
      → ChainFits top (length e.cells) p.chain_budget
      → IsSound top e
      → IsSound top (engine_of (enqueue_links cfg p backpressured ls e))
  unfolding enqueue_links
  enqueue_links-IsSound p true ls e deep near far there (c, b) = (
    record { fresh = c.fresh; ascending = c.ascending; known = c.known; distinct = c.distinct },
    record { items = b.items; budgets = b.budgets },
  )
  enqueue_links-IsSound p false ls e deep near far there h =
      go (elect_pagination_target cfg.pagination ls cfg.pagination.enabled)
    where
      go :
          (o : Option (Option Text))
          → IsSound top
              (engine_of (elim o [ none ↦ raised e | some target ↦ link_loop cfg p target ls 0 e ]))
      go none = h
      go (some target) = link_loop-IsSound p target deep near far ls e h there

  deeper :
      (m n d : ℕ)
      → ((n ≡ 0) ⊎ (1 ≤ m) × (m ≤ n))
      → (m == 0 || ltb d m) ≡ true
      → (n ≡ 0) ⊎ (suc d ≤ n)
  deeper m n d (inl unlimited) h = inl unlimited
  deeper m n d (inr (positive, le)) h = inr (ground arith)

  pub follow_links-IsSound :
      (item : QueueItem) (domain_id : Option ℕ) (backpressured : Bool) (links : List RawLink)
      (e : Engine)
      → ItemFits top (length e.cells) item
      → IsSound top e
      → IsSound top (engine_of (follow_links cfg item domain_id backpressured links e))
  unfolding follow_links
  follow_links-IsSound item domain_id backpressured links e fits h =
      elim (Bool-cases (cfg.max_depth == 0 || ltb item.depth cfg.max_depth)) [
        | inl goes ↦ rw goes (
            enqueue_links-IsSound _ backpressured links e
              (deeper cfg.max_depth top.max_depth item.depth within.depth goes) fits.0 fits.1 fits.2
              h)
        | inr halts ↦ rw halts h
      ]

  pub seed-IsSound :
      (url : Text) (domain_id : Option ℕ) (e : Engine)
      → IsSound top e
      → IsSound top (engine_of (enqueue cfg url 0 domain_id true 0 none e))
  unfolding enqueue
  seed-IsSound url domain_id e h = by_filter (url_filter cfg url)
    where
      by_visited :
          (b : Bool)
          → text_in (url_key url) e.visited ≡ b
          → IsSound top (
              engine_of (
                if b then returned (skip e) else returned (push cfg url 0 domain_id true 0 none e)))
      by_visited true _ = skip-IsSound e h
      by_visited false new = (
        push-IsConsistent cfg url 0 domain_id true 0 none e new h.0,
        push-IsBounded top cfg url 0 domain_id true 0 none e (inr (omega arith)) (omega arith) tt
            h.1,
      )

      by_filter :
          (v : Verdict)
          → IsSound top (
              engine_of (elim v [
                | raises ↦ raised e
                | rejects ↦ returned (skip e)
                | admits ↦
                    if text_in (url_key url) e.visited
                    then returned (skip e)
                    else returned (push cfg url 0 domain_id true 0 none e)
              ]))
      by_filter raises = h
      by_filter rejects = skip-IsSound e h
      by_filter admits = by_visited (text_in (url_key url) e.visited) refl

  -- Changes of the other fields.
  pub IsSound-same :
      (e e' : Engine)
      → e'.pending ≡ e.pending
      → e'.visited ≡ e.visited
      → e'.counter ≡ e.counter
      → e'.cells ≡ e.cells
      → IsSound top e
      → IsSound top e'
  IsSound-same e e' p v n c (consistent, bounded) = (
    record {
      fresh = rw (p, n) consistent.fresh;
      ascending = rw p consistent.ascending;
      known = rw (p, v) consistent.known;
      distinct = rw p consistent.distinct;
    },
    record { items = rw (p, c) bounded.items; budgets = rw c bounded.budgets },
  )

  pub finish_item-IsSound :
      (item : QueueItem) (e : Engine) → IsSound top e → IsSound top (finish_item item e)
  unfolding finish_item
  finish_item-IsSound item e (consistent, bounded) =
      let e₁ : Engine = record e { pending = Table.delete (has_counter item.counter) e.pending } in
      IsSound-same e₁ _ refl refl refl refl (
        delete-IsConsistent (has_counter item.counter) e consistent,
        record {
          items =
              All-delete (ItemFits top (length e.cells)) (has_counter item.counter) e.pending
                bounded.items;
          budgets = bounded.budgets;
        },
      )
