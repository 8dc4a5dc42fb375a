-- ===== src/Crawler/Engine/Pending.antt =====
-- The invariant of the unfinished items.
use gov_crawler.Base.{
  ℕ, suc, ◌<◌, ◌≤◌, ◌≡◌, refl, Bool, true, false, Option, List, [], ◌∷◌, ◌++◌, All, All-append,
  All-imp, arith, if◌then◌else◌, Bool-cases, inl, inr,
}
use gov_crawler.Base.Table
use gov_crawler.Base.Table.{All-delete}
use gov_crawler.Base.Text.{Text, text_eq, text_in, any, text_eq_refl, text_eq→≡}
use gov_crawler.Crawler.Config.{CrawlConfig}
use gov_crawler.Crawler.Engine.{QueueItem, Engine, url_key, url_priority, push, new_engine}

-- The keys of the items that are no seeds.
unfoldable pub page_keys : List QueueItem → List Text
page_keys [] = []
page_keys (i ∷ is) = let rest = page_keys is in if i.is_seed then rest else url_key i.url ∷ rest

abbrev pub AllIn : List Text → List Text → Type 0
AllIn visited = All (λ (k : Text). text_in k visited ≡ true)

abbrev pub DistinctTexts : List Text → Type 0
DistinctTexts [] = Unit
DistinctTexts (k ∷ ks) = (text_in k ks ≡ false) × DistinctTexts ks

abbrev pub AscendingCounters : List QueueItem → Type 0
AscendingCounters [] = Unit
AscendingCounters (i ∷ is) =
    All (λ (j : QueueItem). i.counter < j.counter) is × AscendingCounters is

-- Counters are unique and used up; a pending page that is no seed is in the visited set, and no two
-- of them have the same key.
pub record IsConsistent (e : Engine) : Type 0 where
  pub fresh : All (λ (i : QueueItem). i.counter ≤ e.counter) e.pending
  pub ascending : AscendingCounters e.pending
  pub known : AllIn e.visited (page_keys e.pending)
  pub distinct : DistinctTexts (page_keys e.pending)

pub new_engine-IsConsistent : IsConsistent new_engine
unfolding page_keys
new_engine-IsConsistent = record { fresh = tt; ascending = tt; known = tt; distinct = tt }

ascending-snoc :
    (i : QueueItem) (is : List QueueItem)
    → AscendingCounters is
    → All (λ (j : QueueItem). j.counter < i.counter) is
    → AscendingCounters (is ++ i ∷ [])
ascending-snoc i [] a h = (tt, tt)
ascending-snoc i (j ∷ js) a h = (
  All-append (λ (k : QueueItem). j.counter < k.counter) js (i ∷ []) a.0 (h.0, tt),
  ascending-snoc i js a.1 h.1,
)

page_keys-snoc_seed :
    (i : QueueItem) (is : List QueueItem)
    → i.is_seed ≡ true
    → page_keys (is ++ i ∷ []) ≡ page_keys is
unfolding page_keys
page_keys-snoc_seed i [] h = rw h
page_keys-snoc_seed i (j ∷ js) h = ground (arith, page_keys-snoc_seed i js h)

page_keys-snoc :
    (i : QueueItem) (is : List QueueItem)
    → i.is_seed ≡ false
    → page_keys (is ++ i ∷ []) ≡ page_keys is ++ url_key i.url ∷ []
unfolding page_keys
page_keys-snoc i [] h = rw h
page_keys-snoc i (j ∷ js) h = ground (arith, page_keys-snoc i js h)

AllIn-cons : (k : Text) (visited ks : List Text) → AllIn visited ks → AllIn (k ∷ visited) ks
unfolding text_in
AllIn-cons k visited [] h = tt
AllIn-cons k visited (j ∷ js) h = (ground arith, AllIn-cons k visited js h.1)

-- A text that is not in the visited set differs from all that are.
not-text_in :
    (k : Text) (visited ks : List Text)
    → text_in k visited ≡ false
    → AllIn visited ks
    → text_in k ks ≡ false
unfolding text_in any
not-text_in k visited [] h all_in = refl
not-text_in k visited (j ∷ js) h all_in = elim (Bool-cases (text_eq k j)) [
  | inl same ↦ absurd (clash (rw (text_eq→≡ k j same) at h) all_in.0)
  | inr other ↦ rw other (not-text_in k visited js h all_in.1)
]
  where
    clash : {b : Bool} → b ≡ false → b ≡ true → ⊥
    clash p q = cc

text_in-snoc :
    (k j : Text) (ks : List Text)
    → text_in k ks ≡ false
    → text_eq k j ≡ false
    → text_in k (ks ++ j ∷ []) ≡ false
unfolding text_in any
text_in-snoc k j [] h ne = rw ne
text_in-snoc k j (i ∷ is) h ne = ground (arith, text_in-snoc k j is)

text_eq_sym : (s t : Text) → text_eq s t ≡ false → text_eq t s ≡ false
text_eq_sym s t h = elim (Bool-cases (text_eq t s)) [
  | inl same ↦ absurd (clash (rw (text_eq→≡ t s same) at h) (text_eq_refl s))
  | inr other ↦ other
]
  where
    clash : {b : Bool} → b ≡ false → b ≡ true → ⊥
    clash p q = cc

distinct-snoc :
    (k : Text) (ks : List Text)
    → DistinctTexts ks
    → text_in k ks ≡ false
    → DistinctTexts (ks ++ k ∷ [])
unfolding text_in any
distinct-snoc k [] d h = (refl, tt)
distinct-snoc k (j ∷ js) d h =
    let parts : (text_eq k j ≡ false) × (text_in k js ≡ false) = ground arith in
    (text_in-snoc j k js d.0 (text_eq_sym k j parts.0), distinct-snoc k js d.1 parts.1)

text_in_self : (k : Text) (ks : List Text) → text_in k (k ∷ ks) ≡ true
unfolding text_in any
text_in_self k ks = rw (text_eq_refl k)

-- A new item keeps the invariant, if it is a seed or a page that is not visited yet.
pub push-IsConsistent :
    (cfg : CrawlConfig) (url : Text) (d : ℕ) (i : Option ℕ) (s : Bool) (h : ℕ) (b : Option ℕ)
    (e : Engine)
    → text_in (url_key url) e.visited ≡ false
    → IsConsistent e
    → IsConsistent (push cfg url d i s h b e)
unfolding push
push-IsConsistent cfg url d i true h b e new v =
    let item : QueueItem = record {
      priority = url_priority cfg url;
      counter = suc e.counter;
      url = url;
      depth = d;
      domain_id = i;
      is_seed = true;
      page_hops = h;
      chain_budget = b;
    } in
    record {
      fresh =
          All-append (λ (j : QueueItem). j.counter ≤ suc e.counter) e.pending _
            (All-imp (λ j p. omega arith) e.pending v.fresh) (omega arith, tt);
      ascending =
          ascending-snoc item e.pending v.ascending
            (All-imp (λ j p. omega arith) e.pending v.fresh);
      known = rw (page_keys-snoc_seed item e.pending refl) v.known;
      distinct = rw (page_keys-snoc_seed item e.pending refl) v.distinct;
    }
push-IsConsistent cfg url d i false h b e new v =
    let item : QueueItem = record {
      priority = url_priority cfg url;
      counter = suc e.counter;
      url = url;
      depth = d;
      domain_id = i;
      is_seed = false;
      page_hops = h;
      chain_budget = b;
    } in
    record {
      fresh =
          All-append (λ (j : QueueItem). j.counter ≤ suc e.counter) e.pending _
            (All-imp (λ j p. omega arith) e.pending v.fresh) (omega arith, tt);
      ascending =
          ascending-snoc item e.pending v.ascending
            (All-imp (λ j p. omega arith) e.pending v.fresh);
      known = rw (page_keys-snoc item e.pending refl) (
          All-append (λ (k : Text). text_in k (url_key url ∷ e.visited) ≡ true)
            (page_keys e.pending) _
            (AllIn-cons (url_key url) e.visited (page_keys e.pending) v.known)
            (text_in_self (url_key url) e.visited, tt));
      distinct = rw (page_keys-snoc item e.pending refl) (
          distinct-snoc (url_key url) (page_keys e.pending) v.distinct
            (not-text_in (url_key url) e.visited (page_keys e.pending) new v.known));
    }

AllIn-delete :
    (visited : List Text) (p : QueueItem → Bool) (is : List QueueItem)
    → AllIn visited (page_keys is)
    → AllIn visited (page_keys (Table.delete p is))
unfolding page_keys Table.delete
AllIn-delete visited p [] h = tt
AllIn-delete visited p (i ∷ is) h = elim (Bool-cases (p i)) [
  | inl out ↦ rw out (AllIn-delete visited p is (tail i.is_seed h))
  | inr kept ↦ rw kept (cons i.is_seed h (AllIn-delete visited p is (tail i.is_seed h)))
]
  where
    tail :
        (b : Bool)
        → AllIn visited (if b then page_keys is else url_key i.url ∷ page_keys is)
        → AllIn visited (page_keys is)
    tail true a = a
    tail false a = a.1

    cons :
        (b : Bool)
        → AllIn visited (if b then page_keys is else url_key i.url ∷ page_keys is)
        → AllIn visited (page_keys (Table.delete p is))
        → AllIn visited (
            if b
            then page_keys (Table.delete p is)
            else url_key i.url ∷ page_keys (Table.delete p is))
    cons true a r = r
    cons false a r = (a.0, r)

text_in-delete :
    (k : Text) (p : QueueItem → Bool) (is : List QueueItem)
    → text_in k (page_keys is) ≡ false
    → text_in k (page_keys (Table.delete p is)) ≡ false
unfolding page_keys Table.delete text_in any
text_in-delete k p [] h = refl
text_in-delete k p (i ∷ is) h = ground (arith, text_in-delete k p is)

distinct-delete :
    (p : QueueItem → Bool) (is : List QueueItem)
    → DistinctTexts (page_keys is)
    → DistinctTexts (page_keys (Table.delete p is))
unfolding page_keys Table.delete
distinct-delete p [] h = tt
distinct-delete p (i ∷ is) h = elim (Bool-cases (p i)) [
  | inl out ↦ rw out (distinct-delete p is (tail i.is_seed h))
  | inr kept ↦ rw kept (cons i.is_seed h (distinct-delete p is (tail i.is_seed h)))
]
  where
    tail :
        (b : Bool)
        → DistinctTexts (if b then page_keys is else url_key i.url ∷ page_keys is)
        → DistinctTexts (page_keys is)
    tail true a = a
    tail false a = a.1

    cons :
        (b : Bool)
        → DistinctTexts (if b then page_keys is else url_key i.url ∷ page_keys is)
        → DistinctTexts (page_keys (Table.delete p is))
        → DistinctTexts (
            if b
            then page_keys (Table.delete p is)
            else url_key i.url ∷ page_keys (Table.delete p is))
    cons true a r = r
    cons false a r = (text_in-delete (url_key i.url) p is a.0, r)

ascending-delete :
    (p : QueueItem → Bool) (is : List QueueItem)
    → AscendingCounters is
    → AscendingCounters (Table.delete p is)
unfolding Table.delete
ascending-delete p [] a = tt
ascending-delete p (i ∷ is) a = elim (Bool-cases (p i)) [
  | inl e ↦ rw e (ascending-delete p is a.1)
  | inr e ↦
      rw e
        (All-delete (λ (j : QueueItem). i.counter < j.counter) p is a.0, ascending-delete p is a.1)
]

-- A finished item leaves the pending ones consistent.
pub delete-IsConsistent :
    (p : QueueItem → Bool) (e : Engine)
    → IsConsistent e
    → IsConsistent (record e { pending = Table.delete p e.pending })
delete-IsConsistent p e v = record {
  fresh = All-delete (λ (i : QueueItem). i.counter ≤ e.counter) p e.pending v.fresh;
  ascending = ascending-delete p e.pending v.ascending;
  known = AllIn-delete e.visited p e.pending v.known;
  distinct = distinct-delete p e.pending v.distinct;
}

-- A grown visited set keeps the invariant.
pub visit-IsConsistent :
    (k : Text) (e : Engine) → IsConsistent e → IsConsistent (record e { visited = k ∷ e.visited })
visit-IsConsistent k e v = record {
  fresh = v.fresh;
  ascending = v.ascending;
  known = AllIn-cons k e.visited (page_keys e.pending) v.known;
  distinct = v.distinct;
}
