-- ===== src/Crawler/Links/Rule.antt =====
-- Invariants of the link loop, and the state of the hop to the next page of a chain.
use gov_crawler.Base.{
  ℕ, suc, ◌≡◌, ◌⊎◌, refl, ap, ◌∙◌, Bool, true, false, Option, none, some, List, [], ◌∷◌, arith, inl,
  inr,
}
use gov_crawler.Base.Text.{Text, text_in, text_eq_refl, text_eq→≡}
use gov_crawler.Crawler.Config.{CrawlConfig, RawLink}
use gov_crawler.Crawler.Engine.{Engine, Outcome, returned, raised, url_key, push}
use gov_crawler.Crawler.Links.{Page, Flow, proceed, stop, throw, is_target, link_step, link_loop}
use gov_crawler.Crawler.Links.Effects.{Effect, link_step-Effect}

abbrev pub engine_of : Outcome → Engine
engine_of (returned e) = e
engine_of (raised e) = e

-- An invariant of the loop, over the links that are left, and what it gives at the end.
module _ (cfg : CrawlConfig) (p : Page) (target : Option Text)
    (I : List RawLink → ℕ → Engine → Type 0) (J : Outcome → Type 0) where
  abbrev pub After : List RawLink → Flow → Type 0
  After ls (proceed e n) = I ls n e
  After ls (stop e) = J (returned e)
  After ls (throw e) = J (raised e)

  pub link_loop-rule :
      ((l : RawLink) (ls : List RawLink) (n : ℕ) (e : Engine) (f : Flow)
        → Effect cfg p target l n e f
        → I (l ∷ ls) n e
        → After ls f)
      → ((n : ℕ) (e : Engine) → I [] n e → J (returned e))
      → (ls : List RawLink) (n : ℕ) (e : Engine) → I ls n e
      → J (link_loop cfg p target ls n e)
  unfolding link_loop
  link_loop-rule keep done [] n e h = done n e h
  link_loop-rule keep done (l ∷ ls) n e h =
      go (link_step cfg p target l n e)
        (keep l ls n e (link_step cfg p target l n e) (link_step-Effect cfg p target l n e) h)
        (λ e' n' h'. link_loop-rule keep done ls n' e' h')
    where
      go :
          (f : Flow)
          → After ls f
          → ((e' : Engine) (n' : ℕ) → I ls n' e' → J (link_loop cfg p target ls n' e'))
          → J (elim f [
            | proceed e' n' ↦ link_loop cfg p target ls n' e'
            | stop e' ↦ returned e'
            | throw e' ↦ raised e'
          ])
      go (proceed e' n') a rec = rec e' n' a
      go (stop e') a rec = a
      go (throw e') a rec = a

-- The key of the pagination target is in the visited set.
abbrev pub Seen : Option Text → List Text → Type 0
Seen none visited = ⊥
Seen (some t) visited = text_in (url_key t) visited ≡ true

-- The counter stands at c, or one hop above it.
abbrev pub Hopped : Option Text → ℕ → Engine → Type 0
Hopped target c e = (e.counter ≡ c) ⊎ (e.counter ≡ suc c) × Seen target e.visited

target-Seen :
    (target : Option Text) (url : Text) (e : Engine)
    → is_target target url ≡ true
    → Seen target e.visited
    → text_in (url_key url) e.visited ≡ true
target-Seen none url e t s = cc
target-Seen (some t) url e hit s = rw (text_eq→≡ url t hit) s

text_in-cons_self : (k : Text) (ks : List Text) → text_in k (k ∷ ks) ≡ true
unfolding text_in
text_in-cons_self k ks = rw (text_eq_refl k)

text_in-cons : (k j : Text) (ks : List Text) → text_in k ks ≡ true → text_in k (j ∷ ks) ≡ true
unfolding text_in
text_in-cons k j ks h = ground arith

Seen-push :
    (cfg : CrawlConfig) (target : Option Text) (url : Text) (d : ℕ) (i : Option ℕ) (h : ℕ)
    (b : Option ℕ) (e : Engine)
    → Seen target e.visited
    → Seen target (push cfg url d i false h b e).visited
unfolding push
Seen-push cfg none url d i h b e s = s
Seen-push cfg (some t) url d i h b e s = text_in-cons (url_key t) (url_key url) e.visited s

Seen-push_target :
    (cfg : CrawlConfig) (target : Option Text) (url : Text) (d : ℕ) (i : Option ℕ) (h : ℕ)
    (b : Option ℕ) (e : Engine)
    → is_target target url ≡ true
    → Seen target (push cfg url d i false h b e).visited
unfolding push
Seen-push_target cfg none url d i h b e hit = cc
Seen-push_target cfg (some t) url d i h b e hit =
    rw (text_eq→≡ url t hit) (text_in-cons_self (url_key t) e.visited)

pub counter-push :
    (cfg : CrawlConfig) (url : Text) (d : ℕ) (i : Option ℕ) (s : Bool) (h : ℕ) (b : Option ℕ)
    (e : Engine)
    → (push cfg url d i s h b e).counter ≡ suc e.counter
unfolding push
counter-push cfg url d i s h b e = refl

-- A new item that is no hop.
pub Hopped-child :
    (cfg : CrawlConfig) (target : Option Text) (url : Text) (d : ℕ) (i : Option ℕ) (h : ℕ)
    (b : Option ℕ) (c : ℕ) (e : Engine)
    → Hopped target c e
    → Hopped target (suc c) (push cfg url d i false h b e)
Hopped-child cfg target url d i h b c e (inl q) =
    inl (counter-push cfg url d i false h b e ∙ ap suc q)
Hopped-child cfg target url d i h b c e (inr (q, s)) =
    inr (counter-push cfg url d i false h b e ∙ ap suc q, Seen-push cfg target url d i h b e s)

-- The hop itself: there is no second one, the target being visited after the first.
pub Hopped-hop :
    (cfg : CrawlConfig) (target : Option Text) (url : Text) (d : ℕ) (i : Option ℕ) (h : ℕ)
    (b : Option ℕ) (c : ℕ) (e : Engine)
    → text_in (url_key url) e.visited ≡ false
    → is_target target url ≡ true
    → Hopped target c e
    → Hopped target c (push cfg url d i false h b e)
Hopped-hop cfg target url d i h b c e new hit (inl q) =
    inr (
      counter-push cfg url d i false h b e ∙ ap suc q,
      Seen-push_target cfg target url d i h b e hit,
    )
Hopped-hop cfg target url d i h b c e new hit (inr (q, s)) =
    absurd (clash (target-Seen target url e hit s) new)
  where
    clash : {x : Bool} → x ≡ true → x ≡ false → ⊥
    clash p q' = cc
