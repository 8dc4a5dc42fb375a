-- ===== src/Crawler/Frontier/Numbering.antt =====
-- The numbering of the chains in a checkpoint.
use gov_crawler.Base.{
  ℕ, suc, ◌+◌, ◌≡◌, refl, ap, Bool, true, false, ◌||◌, Option, none, some, List, [], ◌∷◌, ◌++◌, map,
  arith, ◌==◌, length, get_or, All, Bool-cases, inl, inr, ◌∙◌, sym, length-snoc,
}
use mathlib.Core.Path.{ap₂}
use mathlib.Core.List.{append-nil, append_assoc}
use gov_crawler.Crawler.Engine.{QueueItem, Engine}
use gov_crawler.Crawler.Links.{cell}
use gov_crawler.Crawler.Frontier.{
  FrontierItem, numbered, number_of, number_chain, key_in, saved_item, save_items, save_chains,
  make_chains, chain_obj,
}

-- The chain addresses that the items name.
unfoldable pub chain_refs : List QueueItem → List ℕ
chain_refs [] = []
chain_refs (i ∷ is) = elim i.chain_budget [ none ↦ chain_refs is | some a ↦ a ∷ chain_refs is ]

numbered-append : (a : ℕ) (xs ys : List ℕ) → numbered a xs ≡ true → numbered a (xs ++ ys) ≡ true
unfolding numbered
numbered-append a [] ys h = cc
numbered-append a (x ∷ xs) ys h = ground (arith, numbered-append a xs ys)

number_of-append :
    (a : ℕ) (xs ys : List ℕ) → numbered a xs ≡ true → number_of a (xs ++ ys) ≡ number_of a xs
unfolding numbered number_of
number_of-append a [] ys h = cc
number_of-append a (x ∷ xs) ys h = ground (arith, number_of-append a xs ys)

numbered-snoc : (a : ℕ) (xs : List ℕ) → numbered a (xs ++ a ∷ []) ≡ true
unfolding numbered
numbered-snoc a [] = ground arith
numbered-snoc a (x ∷ xs) = ground (arith, numbered-snoc a xs)

-- Different addresses have different numbers.
pub number_of-injective :
    (a b : ℕ) (xs : List ℕ)
    → numbered a xs ≡ true
    → numbered b xs ≡ true
    → (number_of a xs == number_of b xs) ≡ (a == b)
unfolding numbered number_of
number_of-injective a b [] h k = cc
number_of-injective a b (x ∷ xs) h k = ground (arith, number_of-injective a b xs)

-- The cell that is made for an address has its budget.
pub budget-number_of :
    (e : Engine) (a : ℕ) (xs : List ℕ)
    → numbered a xs ≡ true
    → get_or (map (λ (b : ℕ). cell b e) xs) (number_of a xs) 0 ≡ cell a e
unfolding numbered number_of
budget-number_of e a [] h = cc
budget-number_of e a (x ∷ xs) h = elim (Bool-cases (x == a)) [
  | inl same ↦ rw same (ap (λ (b : ℕ). cell b e) (eq_of_test x a same))
  | inr other ↦ rw other (budget-number_of e a xs (later (x == a) (numbered a xs) h other))
]
  where
    eq_of_test : (u v : ℕ) → (u == v) ≡ true → u ≡ v
    eq_of_test u v t = ground arith

    later : (p q : Bool) → (p || q) ≡ true → p ≡ false → q ≡ true
    later p q t f = ground arith

-- What the loop of a checkpoint gives: the items with the keys of the final numbering, which extends
-- the one it began with and has all their chains.
pub record Saves (is : List QueueItem) (order : List ℕ) (result : List FrontierItem × List ℕ)
    : Type 0 where
  pub extension : List ℕ
  pub extends : result.1 ≡ order ++ extension
  pub keyed : result.0 ≡ map (λ (i : QueueItem). saved_item i (key_in result.1 i.chain_budget)) is
  pub complete : All (λ (a : ℕ). numbered a result.1 ≡ true) (chain_refs is)

number_chain-extends :
    (o : Option ℕ) (order : List ℕ) → (ext : List ℕ) × (number_chain o order ≡ order ++ ext)
unfolding number_chain
number_chain-extends none order = ([], rw append-nil)
number_chain-extends (some a) order = elim (Bool-cases (numbered a order)) [
  | inl old ↦ ([], rw (old, append-nil))
  | inr new ↦ (a ∷ [], rw new)
]

number_chain-numbers : (a : ℕ) (order : List ℕ) → numbered a (number_chain (some a) order) ≡ true
unfolding number_chain
number_chain-numbers a order = elim (Bool-cases (numbered a order)) [
  | inl old ↦ rw old old
  | inr new ↦ rw new (numbered-snoc a order)
]

key_in-extends :
    (o : Option ℕ) (order ext : List ℕ)
    → key_in (number_chain o order) o ≡ key_in (number_chain o order ++ ext) o
key_in-extends none order ext = refl
key_in-extends (some a) order ext =
    ap some
      (sym (number_of-append a (number_chain (some a) order) ext (number_chain-numbers a order)))

pub save_items-Saves : (is : List QueueItem) (order : List ℕ) → Saves is order (save_items is order)
unfolding save_items chain_refs
save_items-Saves [] order = record {
  extension = [];
  extends = rw append-nil;
  keyed = refl;
  complete = tt;
}
save_items-Saves (i ∷ is) order =
    let order' = number_chain i.chain_budget order in
    let rest : Saves is order' (save_items is order') = save_items-Saves is order' in
    let (ext, grows) = number_chain-extends i.chain_budget order in
    record {
      extension = ext ++ rest.extension;
      extends =
          rest.extends
          ∙ (ap (λ (o : List ℕ). o ++ rest.extension) grows
              ∙ append_assoc order ext rest.extension);
      keyed =
          ap₂ {C = List FrontierItem}
            (λ (k : Option ℕ) (its : List FrontierItem). saved_item i k ∷ its)
            (key_in-extends i.chain_budget order rest.extension
              ∙ ap (λ (o : List ℕ). key_in o i.chain_budget) (sym rest.extends))
            rest.keyed;
      complete = with_ref i.chain_budget refl rest;
    }
  where
    with_ref :
        (o : Option ℕ)
        → i.chain_budget ≡ o
        → (rest : Saves is
            (number_chain i.chain_budget order)
            (save_items is (number_chain i.chain_budget order)))
        → All
            (λ (a : ℕ). numbered a (save_items is (number_chain i.chain_budget order)).1 ≡ true)
            (elim o [ none ↦ chain_refs is | some a ↦ a ∷ chain_refs is ])
    with_ref none e rest = rest.complete
    with_ref (some a) e rest = (
      rw rest.extends (
          numbered-append a (number_chain i.chain_budget order) rest.extension
            (rw e (number_chain-numbers a order))),
      rest.complete,
    )

-- The cells that are made for a numbering: the key of an address finds the cell at its number.
pub make_chains-cells :
    (e : Engine) (k : ℕ) (xs cells : List ℕ)
    → (make_chains (save_chains e k xs) cells).1 ≡ cells ++ map (λ (b : ℕ). cell b e) xs
unfolding make_chains save_chains
make_chains-cells e k [] cells = rw append-nil
make_chains-cells e k (x ∷ xs) cells =
    make_chains-cells e (suc k) xs (cells ++ cell x e ∷ []) ∙ append_assoc cells (cell x e ∷ []) _

pub make_chains-obj :
    (e : Engine) (a k : ℕ) (xs cells : List ℕ)
    → numbered a xs ≡ true
    → chain_obj (make_chains (save_chains e k xs) cells).0 (k + number_of a xs)
      ≡ some (length cells + number_of a xs)
unfolding make_chains save_chains chain_obj numbered number_of
make_chains-obj e a k [] cells h = cc
make_chains-obj e a k (x ∷ xs) cells h =
    ground
      (arith, make_chains-obj e a (suc k) xs (cells ++ cell x e ∷ []), length-snoc cells (cell x e))
