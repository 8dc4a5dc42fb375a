-- ===== src/Crawler/Links/Chain.antt =====
-- The shared budget of a pagination chain.
use gov_crawler.Base.{
  ℕ, zero, suc, ◌+◌, ◌<◌, ◌≤◌, ◌≡◌, refl, sym, subst, Bool, true, false, Option, none, some, List,
  [], ◌∷◌, length, get_or, set, arith, inl, inr, length-set,
}
use gov_crawler.Base.Text.{Text, text_in}
use gov_crawler.Crawler.Config.{CrawlConfig, RawLink}
use gov_crawler.Crawler.Pagination.{elect_pagination_target}
use gov_crawler.Crawler.Engine.{Engine, Outcome, returned, raised, url_key, push}
use gov_crawler.Crawler.Links.{Page, Flow, is_target, cell, link_loop, enqueue_links}
use gov_crawler.Crawler.Links.Effects.{Effect, skips, breaks, fails, hops, mints, draws, adds}
use gov_crawler.Crawler.Links.Rule.{
  engine_of, After, link_loop-rule, Hopped, Hopped-child, Hopped-hop,
}

get_or-set_self : (xs : List ℕ) (i v d : ℕ) → i < length xs → get_or (set xs i v) i d ≡ v
get_or-set_self [] i v d h = absurd (omega arith)
get_or-set_self (x ∷ xs) zero v d h = refl
get_or-set_self (x ∷ xs) (suc i) v d h = get_or-set_self xs i v d (omega arith)

cells-push :
    (cfg : CrawlConfig) (url : Text) (d : ℕ) (i : Option ℕ) (s : Bool) (h : ℕ) (b : Option ℕ)
    (e : Engine)
    → (push cfg url d i s h b e).cells ≡ e.cells
unfolding push
cells-push cfg url d i s h b e = refl

some-injective : {a b : ℕ} {o : Option ℕ} → o ≡ some a → o ≡ some b → a ≡ b
some-injective p q = cc

none_ne_some : {o : Option ℕ} {a : ℕ} → o ≡ none → o ≡ some a → ⊥
none_ne_some p q = cc

module _ (cfg : CrawlConfig) (p : Page) (target : Option Text) (c start drawn : ℕ)
    (chain : p.chain_budget ≡ some c) where
  -- Every item beyond the hop has been paid for out of the cell, which is not overdrawn. `start` is
  -- the counter and `drawn` the cell before the page.
  abbrev Paid : List RawLink → ℕ → Engine → Type 0
  Paid ls n e =
      (k : ℕ) × (Hopped target (start + k) e)
      × (cell c e ≡ drawn + k)
      × (cell c e ≤ cfg.pagination.max_chain_children)
      × (c < length e.cells)

  abbrev Settled : Outcome → Type 0
  Settled o =
      ((engine_of o).counter + drawn ≤ start + cell c (engine_of o) + 1)
      × (cell c (engine_of o) ≤ cfg.pagination.max_chain_children)

  Paid-Settled : (n : ℕ) (e : Engine) → Paid [] n e → Settled (returned e)
  Paid-Settled n e (k, inl q, paid, fits, there) = (omega arith, fits)
  Paid-Settled n e (k, inr (q, s), paid, fits, there) = (omega arith, fits)

  Paid-hop :
      (url : Text) (b : Option ℕ) (ls : List RawLink) (n : ℕ) (e : Engine)
      → text_in (url_key url) e.visited ≡ false
      → is_target target url ≡ true
      → Paid ls n e
      → Paid ls n (push cfg url p.depth p.domain_id false (suc p.page_hops) b e)
  Paid-hop url b ls n e new hit (k, h, paid, fits, there) = (
    k,
    Hopped-hop cfg target url p.depth p.domain_id (suc p.page_hops) b (start + k) e new hit h,
    rw (cells-push cfg url p.depth p.domain_id false (suc p.page_hops) b e) paid,
    rw (cells-push cfg url p.depth p.domain_id false (suc p.page_hops) b e) fits,
    rw (cells-push cfg url p.depth p.domain_id false (suc p.page_hops) b e) there,
  )

  Paid-draw :
      (url : Text) (ls : List RawLink) (n : ℕ) (e : Engine)
      → cell c e < cfg.pagination.max_chain_children
      → Paid ls n e
      → Paid ls n (
          push cfg url
            (suc p.depth)
            p.domain_id
            false
            p.page_hops
            none
            (record e { cells = set e.cells c (cell c e + 1) }))
  Paid-draw url ls n e room (k, h, paid, fits, there) =
      let e₁ : Engine = record e { cells = set e.cells c (cell c e + 1) } in
      let same = cells-push cfg url (suc p.depth) p.domain_id false p.page_hops none e₁ in
      let self : get_or (set e.cells c (cell c e + 1)) c 0 ≡ cell c e + 1 =
        get_or-set_self e.cells c (cell c e + 1) 0 there in
      (
        suc k,
        rw (next start k) (
            Hopped-child cfg target url (suc p.depth) p.domain_id p.page_hops none (start + k) e₁
              h),
        rw (same, self) (omega arith),
        rw (same, self) (omega arith),
        rw (same, length-set e.cells c (cell c e + 1)) there,
      )
    where
      next : (a b : ℕ) → a + suc b ≡ suc (a + b)
      next a b = omega arith

  Paid-step :
      (l : RawLink) (ls : List RawLink) (n : ℕ) (e : Engine) (f : Flow)
      → Effect cfg p target l n e f
      → Paid (l ∷ ls) n e
      → After cfg p target Paid Settled ls f
  Paid-step l ls n e f skips h = h
  Paid-step l ls n e f (breaks _ outside _) h = absurd (none_ne_some outside chain)
  Paid-step l ls n e f fails h = Paid-Settled n e h
  Paid-step l ls n e f (hops c' _ new hit _) h = Paid-hop l.absolute (some c') ls n e new hit h
  Paid-step l ls n e f (mints outside _ _ _) h = absurd (none_ne_some outside chain)
  Paid-step l ls n e f (draws c' chain' _ room) h =
      let same : c' ≡ c = some-injective chain' chain in
      subst
        (λ (x : ℕ). Paid ls n (
          push cfg l.absolute (suc p.depth) p.domain_id false p.page_hops none
            (record e { cells = set e.cells x (cell x e + 1) })))
        (sym same)
        (Paid-draw l.absolute ls n e
          (subst (λ (x : ℕ). cell x e < cfg.pagination.max_chain_children) same room) h)
  Paid-step l ls n e f (adds outside _ _) h = absurd (none_ne_some outside chain)

  link_loop-Settled :
      (ls : List RawLink) (e : Engine)
      → e.counter ≡ start
      → cell c e ≡ drawn
      → cell c e ≤ cfg.pagination.max_chain_children
      → c < length e.cells
      → Settled (link_loop cfg p target ls 0 e)
  link_loop-Settled ls e q paid fits there =
      link_loop-rule cfg p target Paid Settled Paid-step Paid-Settled ls 0 e
        (0, inl (omega arith), omega arith, fits, there)

-- A page of a chain pays for each structural link out of the chain's cell: the items that it adds are
-- at most the growth of the cell and the one hop, and the cell, which all pages of the chain share,
-- stays at most max_chain_children. It holds also under backpressure and after an exception.
pub enqueue_links-chain_budget :
    (cfg : CrawlConfig) (p : Page) (backpressured : Bool) (ls : List RawLink) (c : ℕ) (e : Engine)
    → p.chain_budget ≡ some c
    → cell c e ≤ cfg.pagination.max_chain_children
    → c < length e.cells
    → let e' = engine_of (enqueue_links cfg p backpressured ls e) in
      (e'.counter + cell c e ≤ e.counter + cell c e' + 1)
      × (cell c e' ≤ cfg.pagination.max_chain_children)
unfolding enqueue_links
enqueue_links-chain_budget cfg p true ls c e chain fits there = (omega arith, fits)
enqueue_links-chain_budget cfg p false ls c e chain fits there =
    go (elect_pagination_target cfg.pagination ls cfg.pagination.enabled)
  where
    go :
        (o : Option (Option Text))
        → let e' =
            engine_of (elim o [ none ↦ raised e | some target ↦ link_loop cfg p target ls 0 e ]) in
          (e'.counter + cell c e ≤ e.counter + cell c e' + 1)
          × (cell c e' ≤ cfg.pagination.max_chain_children)
    go none = (omega arith, fits)
    go (some target) =
        link_loop-Settled cfg p target c e.counter (cell c e) chain ls e refl refl fits there
