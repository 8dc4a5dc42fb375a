-- ===== src/Crawler/Frontier/Resumed.antt =====
-- The invariants of the engine that a resumed run begins with.
use gov_crawler.Base.{
  ℕ, zero, suc, ◌<◌, ◌≤◌, ◌≡◌, refl, sym, ap, ◌∙◌, subst, true, Option, none, some, List, [], ◌∷◌,
  ◌++◌, map, arith, if◌then◌else◌, length, get_or, All,
}
use gov_crawler.Base.Text.{Text, text_in, any}
use gov_crawler.Crawler.Config.{CrawlConfig}
use gov_crawler.Crawler.Engine.{QueueItem, Engine, url_key}
use gov_crawler.Crawler.Engine.Pending.{
  page_keys, AllIn, DistinctTexts, AscendingCounters, IsConsistent,
}
use gov_crawler.Crawler.Links.{cell}
use gov_crawler.Crawler.Worker.Limits.{ChainFits, ItemFits, IsBounded}
use gov_crawler.Crawler.Worker.Sound.{IsSound}
use gov_crawler.Crawler.Frontier.{numbered, number_of}
use gov_crawler.Crawler.Frontier.Numbering.{chain_refs, make_chains-cells}
use gov_crawler.Crawler.Frontier.RoundTrip.{
  rename_chain, rechain, restarted, before_items, final_order, renamed, restarted_lem,
  final_order_complete, counter-resumed,
}

number_of-length : (a : ℕ) (xs : List ℕ) → numbered a xs ≡ true → number_of a xs < length xs
unfolding numbered number_of
number_of-length a [] h = cc
number_of-length a (x ∷ xs) h = ground (arith, number_of-length a xs)

length-map : {A B : Type 0} (f : A → B) (xs : List A) → length (map f xs) ≡ length xs
length-map f [] = refl
length-map f (x ∷ xs) = ap suc (length-map f xs)

-- A key that is visited stays so when more keys are known.
text_in-append : (k : Text) (v w : List Text) → text_in k v ≡ true → text_in k (v ++ w) ≡ true
unfolding text_in any
text_in-append k [] w h = cc
text_in-append k (x ∷ v) w h = ground (arith, text_in-append k v w)

AllIn-append : (v w ks : List Text) → AllIn v ks → AllIn (v ++ w) ks
AllIn-append v w [] h = tt
AllIn-append v w (k ∷ ks) h = (text_in-append k v w h.0, AllIn-append v w ks h.1)

module _ (rename : ℕ → ℕ) where
  page_keys-rechain : (is : List QueueItem) → page_keys (map (rechain rename) is) ≡ page_keys is
  unfolding page_keys
  page_keys-rechain [] = refl
  page_keys-rechain (i ∷ is) =
      ap (λ (ks : List Text). if i.is_seed then ks else url_key i.url ∷ ks) (page_keys-rechain is)

  -- What holds of the counters of items holds of them with renamed chains.
  counters-rechain :
      (P : ℕ → Type 0) (is : List QueueItem)
      → All (λ (i : QueueItem). P i.counter) is
      → All (λ (i : QueueItem). P i.counter) (map (rechain rename) is)
  counters-rechain P [] h = tt
  counters-rechain P (i ∷ is) h = (h.0, counters-rechain P is h.1)

  ascending-rechain :
      (is : List QueueItem) → AscendingCounters is → AscendingCounters (map (rechain rename) is)
  ascending-rechain [] h = tt
  ascending-rechain (i ∷ is) h =
      (counters-rechain (λ n. i.counter < n) is h.0, ascending-rechain is h.1)

module _ (cfg : CrawlConfig) (order : List ℕ) where
  -- Items with renamed chains are within their limits where each chain has a number.
  items-rechain :
      (n : ℕ) (is : List QueueItem)
      → All (ItemFits cfg n) is
      → All (λ (a : ℕ). numbered a order ≡ true) (chain_refs is)
      → All (ItemFits cfg (length order)) (map (rechain (λ a. number_of a order)) is)
  unfolding chain_refs
  items-rechain n [] h k = tt
  items-rechain n (i ∷ is) h k =
      ((h.0.0, h.0.1, fits i.chain_budget k), items-rechain n is h.1 (rest i.chain_budget k))
    where
      fits :
          (o : Option ℕ)
          → All
              (λ (a : ℕ). numbered a order ≡ true)
              (elim o [ none ↦ chain_refs is | some a ↦ a ∷ chain_refs is ])
          → ChainFits cfg (length order) (rename_chain (λ a. number_of a order) o)
      fits none k = tt
      fits (some a) k = number_of-length a order k.0

      rest :
          (o : Option ℕ)
          → All
              (λ (a : ℕ). numbered a order ≡ true)
              (elim o [ none ↦ chain_refs is | some a ↦ a ∷ chain_refs is ])
          → All (λ (a : ℕ). numbered a order ≡ true) (chain_refs is)
      rest none k = k
      rest (some a) k = k.1

get_or-le : (m : ℕ) (xs : List ℕ) (i : ℕ) → All (λ (n : ℕ). n ≤ m) xs → get_or xs i 0 ≤ m
get_or-le m [] i h = omega arith
get_or-le m (x ∷ xs) zero h = h.0
get_or-le m (x ∷ xs) (suc i) h = get_or-le m xs i h.1

cells-le :
    (m : ℕ) (e : Engine) (order : List ℕ)
    → All (λ (n : ℕ). n ≤ m) e.cells
    → All (λ (n : ℕ). n ≤ m) (map (λ (b : ℕ). cell b e) order)
cells-le m e [] h = tt
cells-le m e (a ∷ order) h = (get_or-le m e.cells a h, cells-le m e order h)

-- The cells of the resumed engine.
cells-restarted :
    (known : List Text) (e : Engine)
    → (before_items known e).cells ≡ map (λ (b : ℕ). cell b e) (final_order e)
cells-restarted known e = make_chains-cells e 0 (final_order e) []

restarted-IsConsistent :
    (known : List Text) (e : Engine)
    → IsConsistent e
    → IsConsistent (record (before_items known e) { pending = renamed e; queue = renamed e })
restarted-IsConsistent known e c =
    let rename : ℕ → ℕ = λ a. number_of a (final_order e) in
    let same = sym (page_keys-rechain rename e.pending) in
    record {
      fresh =
          subst (λ (n : ℕ). All (λ (i : QueueItem). i.counter ≤ n) (renamed e))
            (sym (counter-resumed e.counter))
            (counters-rechain rename (λ n. n ≤ e.counter) e.pending c.fresh);
      ascending = ascending-rechain rename e.pending c.ascending;
      known =
          subst (AllIn (e.visited ++ known)) same
            (AllIn-append e.visited known (page_keys e.pending) c.known);
      distinct = subst DistinctTexts same c.distinct;
    }

restarted-IsBounded :
    (cfg : CrawlConfig) (known : List Text) (e : Engine)
    → IsBounded cfg e
    → IsBounded cfg (record (before_items known e) { pending = renamed e; queue = renamed e })
restarted-IsBounded cfg known e b = record {
  items =
      subst (λ (n : ℕ). All (ItemFits cfg n) (renamed e))
        (sym
          (ap length (cells-restarted known e) ∙ length-map (λ (a : ℕ). cell a e) (final_order e)))
        (items-rechain cfg (final_order e) (length e.cells) e.pending b.items
          (final_order_complete e));
  budgets =
      subst (All (λ (n : ℕ). n ≤ cfg.pagination.max_chain_children)) (sym (cells-restarted known e))
        (cells-le cfg.pagination.max_chain_children e (final_order e) b.budgets);
}

pub restarted-IsSound :
    (cfg : CrawlConfig) (known : List Text) (e : Engine)
    → IsSound cfg e
    → IsSound cfg (restarted known e)
restarted-IsSound cfg known e (c, b) =
    subst (IsSound cfg) (sym (restarted_lem known e c))
      (restarted-IsConsistent known e c, restarted-IsBounded cfg known e b)
