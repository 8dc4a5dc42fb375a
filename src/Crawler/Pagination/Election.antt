-- ===== src/Crawler/Pagination/Election.antt =====
-- What the election picks, and the firewall of the classifier.
use gov_crawler.Base.{
  ◌≡◌, refl, ap, ◌++◌, Bool, true, false, ◌&&◌, Option, none, some, List, [], ◌∷◌, arith, inl, inr,
  Option-cases, All, is_some,
}
use gov_crawler.Base.Text.{Text, all, is_empty}
use gov_crawler.Base.Table
use gov_crawler.Url.{urlsplit, parse_qsl, SplitUrl}
use gov_crawler.Crawler.Config.{PaginationConfig, RawLink}
use gov_crawler.Crawler.Pagination.{
  is_plain_int, param_value, matched_values, decide_pagination, is_pagination_link, is_pagination,
  has_next, elect_from, elect_pagination_target,
}

-- The classifier accepts the link.
abbrev pub accepts : PaginationConfig → RawLink → Bool
accepts cfg l = elim (is_pagination cfg l) [ some true ↦ true | _ ↦ false ]

abbrev pub url_of : Option RawLink → Option Text
url_of none = none
url_of (some l) = some l.absolute

abbrev pub or_else {ℓ} : {A : Type ℓ} → Option A → Option A → Option A
or_else (some a) o = some a
or_else none o = o

-- Every URL of the page parses.
abbrev pub AllParse : PaginationConfig → List RawLink → Type 0
AllParse cfg = All (λ l. is_some (is_pagination cfg l) ≡ true)

elect_from-eq :
    (cfg : PaginationConfig) (first_match : Option Text) (ls : List RawLink)
    → AllParse cfg ls
    → elect_from cfg first_match ls
      ≡ some (
          or_else
            (url_of (Table.first (λ l. accepts cfg l && has_next l) ls))
            (or_else first_match (url_of (Table.first (accepts cfg) ls))))
unfolding elect_from Table.first
elect_from-eq cfg none [] h = refl
elect_from-eq cfg (some m) [] h = refl
elect_from-eq cfg none (l ∷ ls) h =
    ground (arith, elect_from-eq cfg none ls h.1, elect_from-eq cfg (some l.absolute) ls h.1)
elect_from-eq cfg (some m) (l ∷ ls) h = ground (arith, elect_from-eq cfg (some m) ls h.1)

-- On a page whose URLs all parse, with pagination on, the elected target is the first accepted link
-- with rel="next", and without one the first accepted link; at most one, and never a refused link.
pub elect_pagination_target-eq :
    (cfg : PaginationConfig) (ls : List RawLink)
    → AllParse cfg ls
    → elect_pagination_target cfg ls true
      ≡ some (
          or_else
            (url_of (Table.first (λ l. accepts cfg l && has_next l) ls))
            (url_of (Table.first (accepts cfg) ls)))
unfolding elect_pagination_target
elect_pagination_target-eq cfg ls h = elect_from-eq cfg none ls h

all_plain-cons :
    (v : Text) (vs : List Text) → is_plain_int v ≡ false → all is_plain_int (v ∷ vs) ≡ false
unfolding all
all_plain-cons v vs h = rw h

all_plain-later :
    (v : Text) (vs : List Text) → all is_plain_int vs ≡ false → all is_plain_int (v ∷ vs) ≡ false
unfolding all
all_plain-later v vs h = ground arith

all_plain-matched :
    (query : List (Text × Text)) (before : List Text) (p v : Text) (after : List Text)
    → param_value query p ≡ some v
    → is_plain_int v ≡ false
    → all is_plain_int (matched_values query (before ++ p ∷ after)) ≡ false
unfolding matched_values
all_plain-matched query [] p v after e bad =
    rw (e, matched_values) (all_plain-cons v (matched_values query after) bad)
all_plain-matched query (b ∷ bs) p v after e bad = elim (Option-cases (param_value query b)) [
  | inl out ↦ rw (out, matched_values) (all_plain-matched query bs p v after e bad)
  | inr (w, found) ↦
      rw (found, matched_values)
        (all_plain-later w (matched_values query (bs ++ p ∷ after))
          (all_plain-matched query bs p v after e bad))
]

decide_refuses :
    (cfg : PaginationConfig) (vs : List Text) (text : Text) (rel : List Text)
    → all is_plain_int vs ≡ false
    → decide_pagination cfg vs text rel ≡ false
unfolding decide_pagination all
decide_refuses cfg [] text rel h = cc
decide_refuses cfg (v ∷ vs) text rel h = h

not-empty :
    (before : List Text) (p : Text) (after : List Text) → is_empty (before ++ p ∷ after) ≡ false
not-empty [] p after = refl
not-empty (b ∷ bs) p after = refl

-- The firewall: if one configured parameter stands in the query with a value that is no plain
-- integer, the link is not pagination, whatever its anchor text, its rel and the other parameters.
pub param_firewall :
    (cfg : PaginationConfig) (url : Text) (parts : SplitUrl) (before : List Text) (p v : Text)
    (after : List Text) (text : Text) (rel : List Text)
    → cfg.param_signals ≡ before ++ p ∷ after
    → urlsplit url ≡ some parts
    → param_value (parse_qsl parts.query) p ≡ some v
    → is_plain_int v ≡ false
    → is_pagination_link cfg url text rel ≡ some false
unfolding is_pagination_link
param_firewall cfg url parts before p v after text rel signals parsed found bad =
    let some_signals : is_empty cfg.param_signals ≡ false = rw signals (not-empty before p after) in
    let query = parse_qsl parts.query in
    let refused : all is_plain_int (matched_values query cfg.param_signals) ≡ false =
      rw signals (all_plain-matched query before p v after found bad) in
    rw (some_signals, parsed)
      (ap some (decide_refuses cfg (matched_values query cfg.param_signals) text rel refused))
