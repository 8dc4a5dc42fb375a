-- ===== src/Url.antt =====
-- The parts of a URL: shared/urls.py, and what the crawler uses of Python's urllib.parse. The check
-- of an IPv6 host between brackets and of Unicode normalisation in `urlsplit` is left out.
use gov_crawler.Base.{
  ℕ, ◌+◌, ◌*◌, ◌-◌, ◌≡◌, refl, Bool, false, not, ◌&&◌, ◌||◌, Option, none, some, List, [], ◌∷◌, leb,
  ltb, ◌==◌, if◌then◌else◌,
}
use gov_crawler.Base.Text.{
  Text, codes, any, all, is_empty, is_digit, is_upper, starts_with, drop_prefix, remove_prefix,
  lower, lstrip, split_once, split,
}

-- shared/urls.py: strip_www
unfoldable pub strip_www : Text → Text
unfolding remove_prefix
strip_www netloc = remove_prefix netloc (codes "www.")

pub record SplitUrl : Type 0 where
  pub scheme : Text
  pub netloc : Text
  pub path : Text
  pub query : Text

is_alpha : ℕ → Bool
is_alpha c = is_upper c || (leb b'a' c && leb c b'z')

is_scheme_char : ℕ → Bool
unfolding is_alpha
is_scheme_char c = is_alpha c || is_digit c || c == b'+' || c == b'-' || c == b'.'

starts_alpha : Text → Bool
unfolding is_alpha
starts_alpha [] = false
starts_alpha (c ∷ _) = is_alpha c

-- The part before the first of `/`, `?` and `#`, and the rest.
split_netloc : Text → Text × Text
split_netloc [] = ([], [])
split_netloc (c ∷ s) =
    let rest = split_netloc s in
    if c == b'/' || c == b'?' || c == b'#' then ([], c ∷ s) else (c ∷ rest.0, rest.1)

abbrev or_empty : Option Text → Text
or_empty none = []
or_empty (some t) = t

-- The scheme in lower case and the rest, if the text has a scheme.
split_scheme : Text → Text × Text
unfolding starts_alpha is_scheme_char all split_once lower
split_scheme url = elim (split_once b':' url).1 [
  | none ↦ ([], url)
  | some rest ↦
      let name = (split_once b':' url).0 in
      if starts_alpha name && all is_scheme_char name then (lower name, rest) else ([], url)
]

remove_unsafe : Text → Text
remove_unsafe [] = []
remove_unsafe (c ∷ s) =
    let rest = remove_unsafe s in if c == 9 || c == 10 || c == 13 then rest else c ∷ rest

-- `none` is the ValueError of an unbalanced bracket in the host.
unfoldable pub urlsplit : Text → Option SplitUrl
unfolding split_scheme split_netloc remove_unsafe lstrip starts_with drop_prefix split_once any
urlsplit url =
    let (scheme, rest) = split_scheme (remove_unsafe (lstrip (λ c. leb c 32) url)) in
    let has_netloc = starts_with rest (codes "//") in
    let (netloc, rest') =
      if has_netloc then split_netloc (drop_prefix rest (codes "//")) else ([], rest) in
    let opened = any (λ c. c == b'[') netloc in
    let closed = any (λ c. c == b']') netloc in
    let no_fragment = (split_once b'#' rest').0 in
    let (path, query) = split_once b'?' no_fragment in
    if (opened && not closed) || (closed && not opened)
    then none
    else some (record { scheme = scheme; netloc = netloc; path = path; query = or_empty query })

hex : ℕ → Option ℕ
hex c =
    if is_digit c
    then some (c - b'0')
    else if leb b'a' c && leb c b'f'
    then some (c - 87)
    else if leb b'A' c && leb c b'F'
    then some (c - 55)
    else none

-- `unquote` of a percent escape; escapes above 0x7f are kept as they stand.
unquote : Text → Text
unfolding hex
unquote (c ∷ a ∷ b ∷ s) =
    let rest = unquote s in
    let next = unquote (a ∷ b ∷ s) in
    if c == b'%'
    then elim (hex a) [
      | none ↦ c ∷ next
      | some x ↦ elim (hex b) [
        | none ↦ c ∷ next
        | some y ↦ if ltb (x * 16 + y) 128 then (x * 16 + y) ∷ rest else c ∷ next
      ]
    ]
    else c ∷ next
unquote s = s

plus_to_space : Text → Text
plus_to_space [] = []
plus_to_space (c ∷ s) = (if c == b'+' then 32 else c) ∷ plus_to_space s

pairs : List Text → List (Text × Text)
unfolding split_once unquote plus_to_space
pairs [] = []
pairs (part ∷ parts) =
    let (name, value) = split_once b'=' part in
    let rest = pairs parts in
    if is_empty part
    then rest
    else (unquote (plus_to_space name), unquote (plus_to_space (or_empty value))) ∷ rest

-- `parse_qs(query, keep_blank_values=True)`, as the pairs of a name and a value in their order.
unfoldable pub parse_qsl : Text → List (Text × Text)
unfolding pairs split
parse_qsl query = pairs (split b'&' query)

strip_www_example : strip_www (codes "www.mha.gov.in") ≡ codes "mha.gov.in"
unfolding strip_www
strip_www_example = refl

urlsplit_example :
    urlsplit (codes "HTTPS://www.MHA.gov.in/a/b.pdf?page=2&x#top")
    ≡ some (record {
      scheme = codes "https";
      netloc = codes "www.MHA.gov.in";
      path = codes "/a/b.pdf";
      query = codes "page=2&x";
    })
unfolding urlsplit
urlsplit_example = refl

parse_qsl_example :
    parse_qsl (codes "page=2&x&y=%41+b")
    ≡ (codes "page", codes "2") ∷ (codes "x", []) ∷ (codes "y", codes "A b") ∷ []
unfolding parse_qsl
parse_qsl_example = refl
