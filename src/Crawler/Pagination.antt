-- ===== src/Crawler/Pagination.antt =====
-- agent/crawler/pagination.py. A ValueError of `urlparse` is `none`.
pub mod Election
use gov_crawler.Base.{
  ℕ, ◌≡◌, refl, Bool, true, false, ◌&&◌, ◌||◌, not, Option, none, some, List, [], ◌∷◌, map,
  if◌then◌else◌, is_some,
}
use gov_crawler.Base.Text.{
  Text, codes, any, all, is_empty, text_eq, text_in, is_digit, lower, strip,
}
use gov_crawler.Url.{urlsplit, parse_qsl, SplitUrl}
use gov_crawler.Crawler.Config.{PaginationConfig, RawLink}

-- `isascii` and `isdigit` together accept the digits 0 to 9 only.
unfoldable pub is_plain_int : Text → Bool
unfolding all
is_plain_int value = not (is_empty value) && all is_digit value

abbrev named : Text → Text × Text → Bool
named k (name, _) = text_eq name k

-- The value of the first pair with a name: `parse_qs` collects a name's values in order.
first_value : Text → List (Text × Text) → Text
first_value k [] = []
first_value k ((name, value) ∷ rest) =
    let later = first_value k rest in if text_eq name k then value else later

-- The keys of the dict that `parse_qs` gives, in their order.
dict_keys : List Text → List (Text × Text) → List Text
unfolding text_in
dict_keys seen [] = []
dict_keys seen ((name, _) ∷ rest) =
    let more = dict_keys (name ∷ seen) rest in
    let same = dict_keys seen rest in if text_in name seen then same else name ∷ more

-- The last key whose lower case is k: the later entry wins in `query_lower`.
last_lowered : Text → List Text → Option Text
unfolding text_eq lower
last_lowered k [] = none
last_lowered k (key ∷ keys) = elim (last_lowered k keys) [
  | some found ↦ some found
  | none ↦ if text_eq (lower key) k then some key else none
]

-- `query_lower[p.lower()][0]`, if the parameter is there.
unfoldable pub param_value : List (Text × Text) → Text → Option Text
unfolding last_lowered dict_keys first_value lower
param_value query p = elim (last_lowered (lower p) (dict_keys [] query)) [
  | none ↦ none
  | some key ↦ some (first_value key query)
]

unfoldable pub matched_values : List (Text × Text) → List Text → List Text
unfolding param_value
matched_values query [] = []
matched_values query (p ∷ ps) = elim (param_value query p) [
  | none ↦ matched_values query ps
  | some v ↦ v ∷ matched_values query ps
]

-- The fallback when no configured parameter is in the query: rel="next", or the anchor text.
unfoldable pub is_pagination_text : PaginationConfig → Text → List Text → Bool
unfolding is_plain_int text_in lower strip
is_pagination_text cfg anchor_text rel =
    let text = lower (strip anchor_text) in
    text_in (codes "next") rel
    || (not (is_empty text) && (text_in text cfg.text_signals || is_plain_int text))

-- The decision once the configured parameters have been looked up in the query.
unfoldable pub decide_pagination : PaginationConfig → List Text → Text → List Text → Bool
unfolding is_pagination_text is_plain_int all
decide_pagination cfg [] anchor_text rel = is_pagination_text cfg anchor_text rel
decide_pagination cfg (v ∷ vs) anchor_text rel = all is_plain_int (v ∷ vs)

unfoldable pub is_pagination_link : PaginationConfig → Text → Text → List Text → Option Bool
unfolding matched_values decide_pagination
is_pagination_link cfg url anchor_text rel =
    if is_empty cfg.param_signals
    then some (decide_pagination cfg [] anchor_text rel)
    else elim (urlsplit url) [
      | none ↦ none
      | some parts ↦ some (
          decide_pagination cfg (matched_values (parse_qsl parts.query) cfg.param_signals)
            anchor_text rel)
    ]

abbrev pub is_pagination : PaginationConfig → RawLink → Option Bool
is_pagination cfg l = is_pagination_link cfg l.absolute l.text l.rel

abbrev pub has_next : RawLink → Bool
has_next l = text_in (codes "next") l.rel

abbrev or_first : Option Text → Text → Option Text
or_first none url = some url
or_first (some first) url = some first

-- The loop of `elect_pagination_target`, with its `first_match`. The outer `none` is a ValueError.
unfoldable pub elect_from : PaginationConfig → Option Text → List RawLink → Option (Option Text)
elect_from cfg first_match [] = some first_match
elect_from cfg first_match (l ∷ ls) = elim (is_pagination cfg l) [
  | none ↦ none
  | some false ↦ elect_from cfg first_match ls
  | some true ↦ elim (has_next l) [
    | true ↦ some (some l.absolute)
    | false ↦ elect_from cfg (or_first first_match l.absolute) ls
  ]
]

unfoldable pub elect_pagination_target :
    PaginationConfig → List RawLink → Bool → Option (Option Text)
unfolding elect_from
elect_pagination_target cfg raw_links false = some none
elect_pagination_target cfg raw_links true = elect_from cfg none raw_links
