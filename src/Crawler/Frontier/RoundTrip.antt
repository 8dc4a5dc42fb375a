-- ===== src/Crawler/Frontier/RoundTrip.antt =====
-- A checkpoint, and the engine of the run that resumes from it.
use mathlib.Core.Path.{ap₂}
use mathlib.Core.List.{append-nil, append_assoc}
use gov_crawler.Base.{
  ℕ, ◌<◌, ◌≡◌, refl, sym, ap, ◌∙◌, true, Option, none, some, List, [], ◌∷◌, ◌++◌, map, arith, ◌==◌,
  ltb, if◌then◌else◌, get_or, All, All-imp, All-append, subst,
}
use gov_crawler.Base.Text.{Text}
use gov_crawler.Crawler.Engine.{QueueItem, Engine, new_engine}
use gov_crawler.Crawler.Engine.Pending.{IsConsistent, AscendingCounters}
use gov_crawler.Crawler.Links.{cell}
use gov_crawler.Crawler.Frontier.{
  numbered, number_of, key_in, saved_item, save_items, save_chains, save_checkpoint, make_chains,
  chain_obj, restored_item, put_pending, restore_items, rehydrate_frontier,
}
use gov_crawler.Crawler.Frontier.Numbering.{
  chain_refs, number_of-injective, budget-number_of, Saves, save_items-Saves, make_chains-cells,
  make_chains-obj,
}

abbrev pub rename_chain : (ℕ → ℕ) → Option ℕ → Option ℕ
rename_chain rename none = none
rename_chain rename (some a) = some (rename a)

-- The item with its chain's cell at another address.
abbrev pub rechain : (ℕ → ℕ) → QueueItem → QueueItem
rechain rename i = record i { chain_budget = rename_chain rename i.chain_budget }

put_pending-last :
    (i : QueueItem) (js : List QueueItem)
    → All (λ (j : QueueItem). j.counter < i.counter) js
    → put_pending i js ≡ js ++ i ∷ []
unfolding put_pending
put_pending-last i [] h = refl
put_pending-last i (j ∷ js) h = ground (arith, put_pending-last i js h.1)

abbrev Below : QueueItem → List QueueItem → Type 0
Below i = All (λ (j : QueueItem). i.counter < j.counter)

-- Items with ascending counters are appended one after the other.
restore_items-appends :
    (objs : List (ℕ × ℕ)) (key : QueueItem → Option ℕ) (is : List QueueItem) (e : Engine)
    → AscendingCounters is
    → All (λ (j : QueueItem). Below j is) e.pending
    → restore_items objs (map (λ (i : QueueItem). saved_item i (key i)) is) e ≡ record e {
      pending = e.pending ++ map (λ (i : QueueItem). restored_item objs (saved_item i (key i))) is;
      queue = e.queue ++ map (λ (i : QueueItem). restored_item objs (saved_item i (key i))) is;
    }
unfolding restore_items
restore_items-appends objs key [] e a h =
    λ k. record e { pending = sym (append-nil e.pending) k; queue = sym (append-nil e.queue) k }
restore_items-appends objs key (i ∷ is) e a h =
    let item = restored_item objs (saved_item i (key i)) in
    let last = put_pending-last item e.pending (All-imp (λ j b. b.0) e.pending h) in
    let e₁ : Engine = record e { pending = e.pending ++ item ∷ []; queue = e.queue ++ item ∷ [] } in
    rw (last, restore_items)
      (restore_items-appends objs key is e₁ a.1 (
          All-append (λ (j : QueueItem). Below j is) e.pending (item ∷ [])
            (All-imp (λ j b. b.1) e.pending h) (a.0, tt))
        ∙ λ k. record e {
          pending =
              append_assoc e.pending (item ∷ [])
                (map (λ (j : QueueItem). restored_item objs (saved_item j (key j))) is) k;
          queue =
              append_assoc e.queue (item ∷ [])
                (map (λ (j : QueueItem). restored_item objs (saved_item j (key j))) is) k;
        })

restored-renamed :
    (e : Engine) (final : List ℕ) (is : List QueueItem)
    → All (λ (a : ℕ). numbered a final ≡ true) (chain_refs is)
    → map
        (λ (i : QueueItem).
          restored_item
            (make_chains (save_chains e 0 final) []).0
            (saved_item i (key_in final i.chain_budget)))
        is
      ≡ map (rechain (λ a. number_of a final)) is
unfolding chain_refs
restored-renamed e final [] h = refl
restored-renamed e final (i ∷ is) h =
    ap₂ {C = List QueueItem}
      (λ (o : Option ℕ) (js : List QueueItem). record i { chain_budget = o } ∷ js)
      (chain i.chain_budget h) (restored-renamed e final is (rest i.chain_budget h))
  where
    chain :
        (o : Option ℕ)
        → All
            (λ (a : ℕ). numbered a final ≡ true)
            (elim o [ none ↦ chain_refs is | some a ↦ a ∷ chain_refs is ])
        → (elim (key_in final o) [
          | none ↦ none
          | some key ↦ chain_obj (make_chains (save_chains e 0 final) []).0 key
        ])
          ≡ rename_chain (λ a. number_of a final) o
    chain none r = refl
    chain (some a) r = ground (arith, make_chains-obj e a 0 final [] r.0)

    rest :
        (o : Option ℕ)
        → All
            (λ (a : ℕ). numbered a final ≡ true)
            (elim o [ none ↦ chain_refs is | some a ↦ a ∷ chain_refs is ])
        → All (λ (a : ℕ). numbered a final ≡ true) (chain_refs is)
    rest none r = r
    rest (some a) r = r.1

-- What a run that resumes from the checkpoint of e begins with.
abbrev pub resumed : Engine → Engine
resumed e = rehydrate_frontier (save_checkpoint e) new_engine

-- The same with the URL keys that `run` has put into the visited set before.
abbrev pub restarted : List Text → Engine → Engine
restarted known e = rehydrate_frontier (save_checkpoint e) (record new_engine { visited = known })

-- A checkpoint and its rehydration in a new engine keep the crawl. The unfinished items come back in
-- their order, pending and queued, and equal but for the addresses of the chain cells; the cells are
-- renamed so that each has its budget, and two items share a cell afterwards exactly if they shared one
-- before. The visited set and the counters of the crawl are those of the checkpoint.
pub record Resumes (e e' : Engine) (rename : ℕ → ℕ) : Type 0 where
  pub pending : e'.pending ≡ map (rechain rename) e.pending
  pub queue : e'.queue ≡ map (rechain rename) e.pending
  pub budgets : All (λ (a : ℕ). cell (rename a) e' ≡ cell a e) (chain_refs e.pending)
  pub sharing :
      All
        (λ (a : ℕ). All (λ (b : ℕ). (rename a == rename b) ≡ (a == b)) (chain_refs e.pending))
        (chain_refs e.pending)
  pub visited : e'.visited ≡ e.visited
  pub counter : e'.counter ≡ e.counter
  pub skipped : e'.skipped ≡ e.skipped
  pub max_depth_seen : e'.max_depth_seen ≡ e.max_depth_seen
  pub session_visited_count : e'.session_visited_count ≡ e.session_visited_count

pub final_order : Engine → List ℕ
final_order e = (save_items e.pending []).1

abbrev pub before_items : List Text → Engine → Engine
before_items known e = record new_engine {
  visited = e.visited ++ known;
  counter = if ltb 0 e.counter then e.counter else 0;
  skipped = e.skipped;
  max_depth_seen = e.max_depth_seen;
  session_visited_count = e.session_visited_count;
  cells = (make_chains (save_chains e 0 (final_order e)) []).1;
}

abbrev pub renamed : Engine → List QueueItem
renamed e = map (rechain (λ a. number_of a (final_order e))) e.pending

pub restarted_lem :
    (known : List Text) (e : Engine)
    → IsConsistent e
    → restarted known e ≡ record (before_items known e) { pending = renamed e; queue = renamed e }
unfolding rehydrate_frontier save_checkpoint final_order
restarted_lem known e v =
    let saves : Saves e.pending [] (save_items e.pending []) = save_items-Saves e.pending [] in
    let final = (save_items e.pending []).1 in
    let objs = (make_chains (save_chains e 0 final) []).0 in
    rw saves.keyed (
      restore_items-appends objs (λ i. key_in final i.chain_budget) e.pending (before_items known e)
        v.ascending tt
      ∙ ap (λ (its : List QueueItem). record (before_items known e) { pending = its; queue = its })
          (restored-renamed e final e.pending saves.complete))

budget-resumed :
    (e : Engine) (a : ℕ)
    → numbered a (final_order e) ≡ true
    → get_or (before_items [] e).cells (number_of a (final_order e)) 0 ≡ cell a e
budget-resumed e a h =
    ap (λ (cs : List ℕ). get_or cs (number_of a (final_order e)) 0)
      (make_chains-cells e 0 (final_order e) [])
    ∙ budget-number_of e a (final_order e) h

pub final_order_complete :
    (e : Engine) → All (λ (a : ℕ). numbered a (final_order e) ≡ true) (chain_refs e.pending)
unfolding final_order
final_order_complete e =
    let saves : Saves e.pending [] (save_items e.pending []) = save_items-Saves e.pending [] in
    saves.complete

pub counter-resumed : (n : ℕ) → (if ltb 0 n then n else 0) ≡ n
counter-resumed n = ground arith

-- For an engine whose pending counters are fresh and ascending and whose pending pages are visited and
-- distinct, a new engine that rehydrates the checkpoint resumes the crawl, with each chain cell at the
-- address that is its number in the checkpoint.
pub checkpoint_roundtrip :
    (e : Engine) → IsConsistent e → Resumes e (resumed e) (λ a. number_of a (final_order e))
checkpoint_roundtrip e v =
    let numbers = final_order_complete e in
    subst (λ (r : Engine). Resumes e r (λ a. number_of a (final_order e)))
      (sym (restarted_lem [] e v))
      record {
        pending = refl;
        queue = refl;
        budgets = All-imp (λ a h. budget-resumed e a h) (chain_refs e.pending) numbers;
        sharing =
            All-imp
              (λ a h.
                All-imp (λ b k. number_of-injective a b (final_order e) h k) (chain_refs e.pending)
                  numbers)
              (chain_refs e.pending) numbers;
        visited = append-nil e.visited;
        counter = counter-resumed e.counter;
        skipped = refl;
        max_depth_seen = refl;
        session_visited_count = refl;
      }
