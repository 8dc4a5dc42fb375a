-- ===== src/Crawler/Links/Effects.antt =====
-- What one round of the link loop may do to the engine, as a relation.
use gov_crawler.Base.{
  ℕ, suc, ◌+◌, ◌<◌, ◌≡◌, refl, Bool, true, false, not, ◌&&◌, Option, none, some, [], ◌∷◌, ◌++◌, ltb,
  leb, if◌then◌else◌, length, set, is_some, arith,
}
use gov_crawler.Base.Text.{Text, text_in}
use gov_crawler.Crawler.Config.{CrawlConfig, RawLink}
use gov_crawler.Crawler.Engine.{
  Engine, Verdict, raises, rejects, admits, url_key, url_filter, skip, push, enqueue, enqueue_new,
}
use gov_crawler.Crawler.Links.{
  Page, Flow, proceed, stop, throw, max_links, is_target, cell, after, pagination_step, child_step,
  link_step,
}

room_for_one :
    (chain : Option ℕ) (limit n : ℕ)
    → chain ≡ none
    → (not (is_some chain) && (ltb 0 limit && leb limit n)) ≡ false
    → 0 < limit
    → n < limit
room_for_one (some c) limit n h u pos = cc
room_for_one none limit n h u pos = ground arith

not_some {ℓ} : {A : Type ℓ} (o : Option A) → is_some o ≡ false → o ≡ none
not_some none h = refl
not_some (some a) h = cc

capped_parts :
    (on_target : Bool) (chain : Option ℕ) (limit n : ℕ)
    → (not on_target && (not (is_some chain) && (ltb 0 limit && leb limit n))) ≡ true
    → (chain ≡ none) × (0 < limit)
capped_parts on_target (some c) limit n h = ground arith
capped_parts on_target none limit n h = (refl, ground arith)

uncapped_rest : (a x : Bool) → (not a && x) ≡ false → a ≡ false → x ≡ false
uncapped_rest a x h off = ground arith

module _ (cfg : CrawlConfig) (p : Page) (target : Option Text) where
  -- The rounds of the loop: a skipped link, the end at the cap, an exception, the hop to the next page
  -- of a chain (the first hop mints the chain's cell), a child of a chain page, and a child of another.
  pub data Effect (l : RawLink) (n : ℕ) (e : Engine) : Flow → Type 0 where
    skips : Effect l n e (proceed (skip e) n)
    breaks :
        target ≡ none
        → p.chain_budget ≡ none
        → 0 < max_links cfg p.depth
        → Effect l n e (stop (skip e))
    fails : Effect l n e (throw e)
    hops :
        (c : ℕ)
        → p.chain_budget ≡ some c
        → text_in (url_key l.absolute) e.visited ≡ false
        → is_target target l.absolute ≡ true
        → p.page_hops < cfg.pagination.max_pagination_pages
        → Effect l n e
            (proceed (push cfg l.absolute p.depth p.domain_id false (suc p.page_hops) (some c) e) n)
    mints :
        p.chain_budget ≡ none
        → text_in (url_key l.absolute) e.visited ≡ false
        → is_target target l.absolute ≡ true
        → p.page_hops < cfg.pagination.max_pagination_pages
        → Effect l n e (
            proceed
              (push cfg l.absolute p.depth p.domain_id false
                (suc p.page_hops)
                (some (length e.cells))
                (record e { cells = e.cells ++ 0 ∷ [] }))
              n)
    draws :
        (c : ℕ)
        → p.chain_budget ≡ some c
        → text_in (url_key l.absolute) e.visited ≡ false
        → cell c e < cfg.pagination.max_chain_children
        → Effect l n e (
            proceed
              (push cfg l.absolute
                (suc p.depth)
                p.domain_id
                false
                p.page_hops
                none
                (record e { cells = set e.cells c (cell c e + 1) }))
              n)
    adds :
        p.chain_budget ≡ none
        → text_in (url_key l.absolute) e.visited ≡ false
        → (0 < max_links cfg p.depth → n < max_links cfg p.depth)
        → Effect l n e (
            proceed
              (push cfg l.absolute (suc p.depth) p.domain_id false p.page_hops none e)
              (n + 1))

  if-Effect :
      {l : RawLink} {n : ℕ} {e : Engine} {x y : Flow} (b : Bool)
      → (b ≡ true → Effect l n e x)
      → (b ≡ false → Effect l n e y)
      → Effect l n e (if b then x else y)
  if-Effect true f g = f refl
  if-Effect false f g = g refl

  verdict-Effect :
      {l : RawLink} {n : ℕ} {e : Engine} {x y z : Flow} (v : Verdict)
      → Effect l n e x
      → Effect l n e y
      → (v ≡ admits → Effect l n e z)
      → Effect l n e (elim v [ raises ↦ x | rejects ↦ y | admits ↦ z ])
  verdict-Effect raises x y z = x
  verdict-Effect rejects x y z = y
  verdict-Effect admits x y z = z refl

  option-Effect :
      {l : RawLink} {n : ℕ} {e : Engine} {x : ℕ → Flow} {y : Flow} (o : Option ℕ)
      → ((c : ℕ) → o ≡ some c → Effect l n e (x c))
      → (o ≡ none → Effect l n e y)
      → Effect l n e (elim o [ some c ↦ x c | none ↦ y ])
  option-Effect (some c) f g = f c refl
  option-Effect none f g = g refl

  hop-Effect :
      (l : RawLink) (n c : ℕ) (e : Engine)
      → p.chain_budget ≡ some c
      → url_filter cfg l.absolute ≡ admits
      → text_in (url_key l.absolute) e.visited ≡ false
      → is_target target l.absolute ≡ true
      → p.page_hops < cfg.pagination.max_pagination_pages
      → Effect l n e
          (after n (enqueue cfg l.absolute p.depth p.domain_id false (suc p.page_hops) (some c) e))
  hop-Effect l n c e chain passes new on_target room =
      rw
        (enqueue_new cfg l.absolute p.depth p.domain_id false (suc p.page_hops) (some c) e passes
          new)
        (hops c chain new on_target room)

  mint-Effect :
      (l : RawLink) (n : ℕ) (e : Engine)
      → p.chain_budget ≡ none
      → url_filter cfg l.absolute ≡ admits
      → text_in (url_key l.absolute) e.visited ≡ false
      → is_target target l.absolute ≡ true
      → p.page_hops < cfg.pagination.max_pagination_pages
      → Effect l n e (
          after n (
            enqueue cfg l.absolute p.depth p.domain_id false
              (suc p.page_hops)
              (some (length e.cells))
              (record e { cells = e.cells ++ 0 ∷ [] })))
  mint-Effect l n e chain passes new on_target room =
      rw
        (enqueue_new cfg l.absolute p.depth p.domain_id false (suc p.page_hops)
          (some (length e.cells)) (record e { cells = e.cells ++ 0 ∷ [] }) passes new)
        (mints chain new on_target room)

  pagination_step-Effect :
      (l : RawLink) (n : ℕ) (e : Engine)
      → url_filter cfg l.absolute ≡ admits
      → text_in (url_key l.absolute) e.visited ≡ false
      → is_target target l.absolute ≡ true
      → Effect l n e (pagination_step cfg p l.absolute n e)
  unfolding pagination_step
  pagination_step-Effect l n e passes new on_target =
      if-Effect _ (λ _. skips)
        (λ room.
          option-Effect p.chain_budget
            (λ c chain. hop-Effect l n c e chain passes new on_target (ground arith))
            (λ chain. mint-Effect l n e chain passes new on_target (ground arith)))

  draw-Effect :
      (l : RawLink) (n c : ℕ) (e : Engine)
      → p.chain_budget ≡ some c
      → url_filter cfg l.absolute ≡ admits
      → text_in (url_key l.absolute) e.visited ≡ false
      → cell c e < cfg.pagination.max_chain_children
      → Effect l n e (
          after n (
            enqueue cfg l.absolute
              (suc p.depth)
              p.domain_id
              false
              p.page_hops
              none
              (record e { cells = set e.cells c (cell c e + 1) })))
  draw-Effect l n c e chain passes new room =
      rw
        (enqueue_new cfg l.absolute (suc p.depth) p.domain_id false p.page_hops none
          (record e { cells = set e.cells c (cell c e + 1) }) passes new)
        (draws c chain new room)

  add-Effect :
      (l : RawLink) (n : ℕ) (e : Engine)
      → p.chain_budget ≡ none
      → url_filter cfg l.absolute ≡ admits
      → text_in (url_key l.absolute) e.visited ≡ false
      → (0 < max_links cfg p.depth → n < max_links cfg p.depth)
      → Effect l n e (
          after (n + 1) (enqueue cfg l.absolute (suc p.depth) p.domain_id false p.page_hops none e))
  add-Effect l n e chain passes new room =
      rw (enqueue_new cfg l.absolute (suc p.depth) p.domain_id false p.page_hops none e passes new)
        (adds chain new room)

  child_step-Effect :
      (l : RawLink) (n : ℕ) (e : Engine)
      → url_filter cfg l.absolute ≡ admits
      → text_in (url_key l.absolute) e.visited ≡ false
      → (not (is_some p.chain_budget)
          && (ltb 0 (max_links cfg p.depth) && leb (max_links cfg p.depth) n))
        ≡ false
      → Effect l n e (child_step cfg p l.absolute n e)
  unfolding child_step
  child_step-Effect l n e passes new uncapped =
      option-Effect p.chain_budget
        (λ c chain.
          if-Effect _ (λ _. skips) (λ room. draw-Effect l n c e chain passes new (ground arith)))
        (λ chain.
          add-Effect l n e chain passes new
            (room_for_one p.chain_budget (max_links cfg p.depth) n chain uncapped))

  -- Each round is one of the effects.
  pub link_step-Effect :
      (l : RawLink) (n : ℕ) (e : Engine) → Effect l n e (link_step cfg p target l n e)
  unfolding link_step
  link_step-Effect l n e =
      let limit = max_links cfg p.depth in
      let on_target = is_target target l.absolute in
      let rest = not (is_some p.chain_budget) && (ltb 0 limit && leb limit n) in
      if-Effect (not on_target && rest)
        (λ capped.
          let parts = capped_parts on_target p.chain_budget limit n capped in
          if-Effect (is_some target) (λ _. skips)
            (λ no_target. breaks (not_some target no_target) parts.0 parts.1))
        (λ uncapped. verdict-Effect (url_filter cfg l.absolute) fails skips (λ passes.
          if-Effect (text_in (url_key l.absolute) e.visited) (λ _. skips)
            (λ new.
              if-Effect on_target (λ hit. pagination_step-Effect l n e passes new hit)
                (λ off.
                  if-Effect _ (λ _. skips)
                    (λ _.
                      child_step-Effect l n e passes new
                        (uncapped_rest on_target rest uncapped off))))))
