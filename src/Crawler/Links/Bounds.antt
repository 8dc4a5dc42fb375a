-- ===== src/Crawler/Links/Bounds.antt =====
-- How many items one page may add: the cap of a page and the account of the links.
use gov_crawler.Base.{
  ℕ, suc, ◌+◌, ◌<◌, ◌≤◌, ◌≡◌, refl, Bool, true, false, Option, none, some, List, [], ◌∷◌, ◌++◌,
  length, set, arith, inl, inr, is_some,
}
use gov_crawler.Base.Text.{Text}
use gov_crawler.Crawler.Config.{CrawlConfig, RawLink}
use gov_crawler.Crawler.Pagination.{elect_pagination_target}
use gov_crawler.Crawler.Engine.{Engine, Outcome, returned, raised, push}
use gov_crawler.Crawler.Links.{Page, Flow, max_links, cell, link_loop, enqueue_links}
use gov_crawler.Crawler.Links.Effects.{Effect, skips, breaks, fails, hops, mints, draws, adds}
use gov_crawler.Crawler.Links.Rule.{
  engine_of, After, link_loop-rule, Hopped, Hopped-child, Hopped-hop,
}

none_ne_some {ℓ} : {A : Type ℓ} {o : Option A} {a : A} → o ≡ none → o ≡ some a → ⊥
none_ne_some p q = cc

-- The loop on a page outside a chain, with a cap.
module _ (cfg : CrawlConfig) (p : Page) (target : Option Text) (start : ℕ)
    (outside : p.chain_budget ≡ none) (capped : 0 < max_links cfg p.depth) where
  abbrev Added : List RawLink → ℕ → Engine → Type 0
  Added ls n e = Hopped target (start + n) e × (n ≤ max_links cfg p.depth)

  abbrev Capped : Outcome → Type 0
  Capped o = (engine_of o).counter ≤ start + max_links cfg p.depth + 1

  Added-Capped :
      (n : ℕ) (e : Engine)
      → Hopped target (start + n) e × (n ≤ max_links cfg p.depth)
      → Capped (returned e)
  Added-Capped n e (inl q, h) = omega arith
  Added-Capped n e (inr (q, s), h) = omega arith

  Added-step :
      (l : RawLink) (ls : List RawLink) (n : ℕ) (e : Engine) (f : Flow)
      → Effect cfg p target l n e f
      → Added (l ∷ ls) n e
      → After cfg p target Added Capped ls f
  Added-step l ls n e f skips h = h
  Added-step l ls n e f (breaks _ _ _) h = Added-Capped n e h
  Added-step l ls n e f fails h = Added-Capped n e h
  Added-step l ls n e f (hops c chain _ _ _) h = absurd (none_ne_some outside chain)
  Added-step l ls n e f (mints chain new hit room) h = (
    Hopped-hop cfg target l.absolute p.depth p.domain_id (suc p.page_hops) (some (length e.cells))
        (start + n) (record e { cells = e.cells ++ 0 ∷ [] }) new hit h.0,
    h.1,
  )
  Added-step l ls n e f (draws c chain _ _) h = absurd (none_ne_some outside chain)
  Added-step l ls n e f (adds chain new room) h = (
    rw (one_more start n) (
        Hopped-child cfg target l.absolute (suc p.depth) p.domain_id p.page_hops none (start + n) e
          h.0),
    omega (arith, room capped),
  )
    where
      one_more : (a b : ℕ) → a + (b + 1) ≡ suc (a + b)
      one_more a b = omega arith

  link_loop-Capped :
      (ls : List RawLink) (e : Engine) → e.counter ≡ start → Capped (link_loop cfg p target ls 0 e)
  link_loop-Capped ls e h =
      link_loop-rule cfg p target Added Capped Added-step Added-Capped ls 0 e
        (inl (omega arith), omega arith)

-- Where max_links is not 0 (0 is no cap), a page outside a pagination chain adds at most max_links items
-- and one hop to the next page, however many links it has and also when an exception ends the loop.
pub enqueue_links-page_cap :
    (cfg : CrawlConfig) (p : Page) (backpressured : Bool) (ls : List RawLink) (e : Engine)
    → p.chain_budget ≡ none
    → 0 < max_links cfg p.depth
    → (engine_of (enqueue_links cfg p backpressured ls e)).counter
      ≤ e.counter + max_links cfg p.depth + 1
unfolding enqueue_links
enqueue_links-page_cap cfg p true ls e outside capped = omega arith
enqueue_links-page_cap cfg p false ls e outside capped =
    go (elect_pagination_target cfg.pagination ls cfg.pagination.enabled)
  where
    go :
        (o : Option (Option Text))
        → (engine_of
            (elim o [ none ↦ raised e | some target ↦ link_loop cfg p target ls 0 e ])).counter
          ≤ e.counter + max_links cfg p.depth + 1
    go none = omega arith
    go (some target) = link_loop-Capped cfg p target e.counter outside capped ls e refl

-- The account of the links.
module _ (cfg : CrawlConfig) (p : Page) (target : Option Text) (total : ℕ) where
  abbrev Counted : List RawLink → ℕ → Engine → Type 0
  Counted ls n e = e.skipped + e.counter + length ls ≡ total

  abbrev Accounted : Outcome → Type 0
  Accounted (returned e) =
      (e.skipped + e.counter ≤ total) × ((is_some target ≡ true) → e.skipped + e.counter ≡ total)
  Accounted (raised e) = e.skipped + e.counter ≤ total

  Counted-push :
      (url : Text) (d : ℕ) (i : Option ℕ) (h : ℕ) (b : Option ℕ) (k : ℕ) (e : Engine)
      → e.skipped + e.counter + suc k ≡ total
      → (push cfg url d i false h b e).skipped + (push cfg url d i false h b e).counter + k ≡ total
  unfolding push
  Counted-push url d i h b k e q = omega arith

  Counted-step :
      (l : RawLink) (ls : List RawLink) (n : ℕ) (e : Engine) (f : Flow)
      → Effect cfg p target l n e f
      → Counted (l ∷ ls) n e
      → After cfg p target Counted Accounted ls f
  Counted-step l ls n e f skips h = omega arith
  Counted-step l ls n e f (breaks no_target _ _) h =
      (omega arith, λ t. absurd (clash target no_target t))
    where
      clash : (o : Option Text) → o ≡ none → is_some o ≡ true → ⊥
      clash none p' q = cc
      clash (some t) p' q = cc
  Counted-step l ls n e f fails h = omega arith
  Counted-step l ls n e f (hops c _ _ _ _) h =
      Counted-push l.absolute p.depth p.domain_id (suc p.page_hops) (some c) (length ls) e h
  Counted-step l ls n e f (mints _ _ _ _) h =
      Counted-push l.absolute p.depth p.domain_id (suc p.page_hops) (some (length e.cells))
        (length ls) (record e { cells = e.cells ++ 0 ∷ [] }) h
  Counted-step l ls n e f (draws c _ _ _) h =
      Counted-push l.absolute (suc p.depth) p.domain_id p.page_hops none (length ls)
        (record e { cells = set e.cells c (cell c e + 1) }) h
  Counted-step l ls n e f (adds _ _ _) h =
      Counted-push l.absolute (suc p.depth) p.domain_id p.page_hops none (length ls) e h

  Counted-Accounted : (n : ℕ) (e : Engine) → Counted [] n e → Accounted (returned e)
  Counted-Accounted n e h = (omega arith, λ _. omega arith)

  link_loop-Accounted :
      (ls : List RawLink) (e : Engine)
      → e.skipped + e.counter + length ls ≡ total
      → Accounted (link_loop cfg p target ls 0 e)
  link_loop-Accounted ls e h =
      link_loop-rule cfg p target Counted Accounted Counted-step Counted-Accounted ls 0 e h

-- On a page with an elected pagination target, a run that raises nothing leaves no link out: each is
-- either one new item or one more skipped URL.
pub enqueue_links-account :
    (cfg : CrawlConfig) (p : Page) (t : Text) (ls : List RawLink) (e e' : Engine)
    → elect_pagination_target cfg.pagination ls cfg.pagination.enabled ≡ some (some t)
    → enqueue_links cfg p false ls e ≡ returned e'
    → e'.skipped + e'.counter ≡ e.skipped + e.counter + length ls
unfolding enqueue_links
enqueue_links-account cfg p t ls e e' elected run =
    go (link_loop cfg p (some t) ls 0 e)
      (link_loop-Accounted cfg p (some t) (e.skipped + e.counter + length ls) ls e refl)
      (rw elected at run)
  where
    go :
        (o : Outcome)
        → Accounted cfg p (some t) (e.skipped + e.counter + length ls) o
        → o ≡ returned e'
        → e'.skipped + e'.counter ≡ e.skipped + e.counter + length ls
    go (returned e'') (_, a) q = let same : e'' ≡ e' = cc in rw (← same) (a refl)
    go (raised e'') a q = absurd (clash q)
      where
        clash : raised e'' ≡ returned e' → ⊥
        clash r = cc
