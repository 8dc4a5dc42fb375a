-- ===== src/Crawler/Frontier.antt =====
-- agent/crawler/engine.py: `_save_checkpoint` and `_rehydrate_frontier`. A chain key is the number of
-- the chain in the order in which the items name it (the source writes it as a decimal string).
pub mod Numbering
pub mod Resumed
pub mod RoundTrip
use gov_crawler.Base.{
  ℕ, suc, ◌+◌, ◌≡◌, Bool, true, false, ◌||◌, Option, none, some, List, [], ◌∷◌, ◌++◌, map, ltb,
  ◌==◌, if◌then◌else◌, length, get_or, is_some,
}
use gov_crawler.Base.Table
use gov_crawler.Base.Text.{Text}
use gov_crawler.Crawler.Engine.{QueueItem, Engine}
use gov_crawler.Crawler.Links.{cell}
use gov_crawler.Crawler.Worker.{has_counter}

pub record FrontierItem : Type 0 where
  pub priority : ℕ
  pub counter : ℕ
  pub url : Text
  pub depth : ℕ
  pub domain_id : Option ℕ
  pub is_seed : Bool
  pub page_hops : ℕ
  pub chain_key : Option ℕ

pub record Frontier : Type 0 where
  pub visited : List Text
  pub counter : ℕ
  pub skipped : ℕ
  pub max_depth_seen : ℕ
  pub session_visited_count : ℕ
  pub chains : List (ℕ × ℕ)
  pub items : List FrontierItem

-- `id(chain_budget) in chain_keys`, and the key of an address that is there.
unfoldable pub numbered : ℕ → List ℕ → Bool
numbered a [] = false
numbered a (b ∷ bs) = b == a || numbered a bs

unfoldable pub number_of : ℕ → List ℕ → ℕ
number_of a [] = 0
number_of a (b ∷ bs) = let rest = number_of a bs in if b == a then 0 else suc rest

-- The addresses numbered so far, with that of the item.
unfoldable pub number_chain : Option ℕ → List ℕ → List ℕ
unfolding numbered
number_chain none order = order
number_chain (some a) order = if numbered a order then order else order ++ a ∷ []

abbrev pub key_in : List ℕ → Option ℕ → Option ℕ
key_in order none = none
key_in order (some a) = some (number_of a order)

abbrev pub saved_item : QueueItem → Option ℕ → FrontierItem
saved_item i key = record {
  priority = i.priority;
  counter = i.counter;
  url = i.url;
  depth = i.depth;
  domain_id = i.domain_id;
  is_seed = i.is_seed;
  page_hops = i.page_hops;
  chain_key = key;
}

-- The loop over the pending items, with the addresses numbered so far.
unfoldable pub save_items : List QueueItem → List ℕ → List FrontierItem × List ℕ
unfolding number_chain
save_items [] order = ([], order)
save_items (i ∷ is) order =
    let order' = number_chain i.chain_budget order in
    let (rest, final) = save_items is order' in
    (saved_item i (key_in order' i.chain_budget) ∷ rest, final)

-- `chains`: the budget of each key.
unfoldable pub save_chains : Engine → ℕ → List ℕ → List (ℕ × ℕ)
save_chains e k [] = []
save_chains e k (a ∷ rest) = (k, cell a e) ∷ save_chains e (suc k) rest

unfoldable pub save_checkpoint : Engine → Frontier
unfolding save_items save_chains
save_checkpoint e =
    let (items, order) = save_items e.pending [] in
    record {
      visited = e.visited;
      counter = e.counter;
      skipped = e.skipped;
      max_depth_seen = e.max_depth_seen;
      session_visited_count = e.session_visited_count;
      chains = save_chains e 0 order;
      items = items;
    }

-- `chain_objs`: one new cell for each key, with the address that the key got, and the store.
unfoldable pub make_chains : List (ℕ × ℕ) → List ℕ → List (ℕ × ℕ) × List ℕ
make_chains [] cells = ([], cells)
make_chains ((key, budget) ∷ rest) cells =
    let (objs, cells') = make_chains rest (cells ++ budget ∷ []) in
    ((key, length cells) ∷ objs, cells')

unfoldable pub chain_obj : List (ℕ × ℕ) → ℕ → Option ℕ
chain_obj [] key = none
chain_obj ((k, a) ∷ rest) key = let later = chain_obj rest key in if k == key then some a else later

abbrev pub restored_item : List (ℕ × ℕ) → FrontierItem → QueueItem
restored_item objs it = record {
  priority = it.priority;
  counter = it.counter;
  url = it.url;
  depth = it.depth;
  domain_id = it.domain_id;
  is_seed = it.is_seed;
  page_hops = it.page_hops;
  chain_budget = elim it.chain_key [ none ↦ none | some key ↦ chain_obj objs key ];
}

-- `self._pending[item.counter] = item`
unfoldable pub put_pending : QueueItem → List QueueItem → List QueueItem
put_pending i [] = i ∷ []
put_pending i (j ∷ js) = if has_counter i.counter j then i ∷ js else j ∷ put_pending i js

unfoldable pub restore_items : List (ℕ × ℕ) → List FrontierItem → Engine → Engine
unfolding put_pending
restore_items objs [] e = e
restore_items objs (it ∷ its) e =
    let item = restored_item objs it in
    restore_items objs its
      (record e { pending = put_pending item e.pending; queue = e.queue ++ item ∷ [] })

unfoldable pub rehydrate_frontier : Frontier → Engine → Engine
unfolding make_chains restore_items
rehydrate_frontier f e =
    let (objs, cells) = make_chains f.chains e.cells in
    restore_items objs f.items (record e {
      visited = f.visited ++ e.visited;
      counter = if ltb e.counter f.counter then f.counter else e.counter;
      skipped = f.skipped;
      max_depth_seen = f.max_depth_seen;
      session_visited_count = f.session_visited_count;
      cells = cells;
    })
