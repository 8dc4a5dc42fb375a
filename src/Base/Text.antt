-- ===== src/Base/Text.antt =====
-- Python's `str` as the list of its code points, with the methods that the crawler calls. `lower`
-- and `strip` treat ASCII letters and ASCII white space.
use gov_crawler.Base.Tests.{leb, ◌==◌, if◌then◌else◌}
use Prim.Native.Nat.{ℕ, ◌+◌}
use Prim.Native.Char.{code}
use Prim.Native.String.{String}
use mathlib.Core.Path.{◌≡◌, refl}
use mathlib.Core.Bool.{Bool, true, false, ◌&&◌, ◌||◌}
use mathlib.Core.Option.{Option, none, some}
use mathlib.Core.List.{List, [], ◌∷◌}
use native.Mathlib.Omega.{arith}

abbrev pub Text : Type 0
Text = List ℕ

-- A literal's code points.
abbrev pub codes : String → Text
codes String.[] = []
codes (String.◌∷◌ c s) = code c ∷ codes s

module _ {ℓ} {A : Type ℓ} where
  unfoldable pub any : (A → Bool) → List A → Bool
  any p [] = false
  any p (x ∷ xs) = p x || any p xs

  unfoldable pub all : (A → Bool) → List A → Bool
  all p [] = true
  all p (x ∷ xs) = p x && all p xs

  abbrev pub is_empty : List A → Bool
  is_empty [] = true
  is_empty (_ ∷ _) = false

unfoldable pub text_eq : Text → Text → Bool
text_eq [] [] = true
text_eq [] (_ ∷ _) = false
text_eq (_ ∷ _) [] = false
text_eq (a ∷ s) (b ∷ t) = a == b && text_eq s t

pub text_eq_refl : (s : Text) → text_eq s s ≡ true
unfolding text_eq
text_eq_refl [] = refl
text_eq_refl (a ∷ s) = ground (arith, text_eq_refl s)

pub text_eq→≡ : (s t : Text) → text_eq s t ≡ true → s ≡ t
unfolding text_eq
text_eq→≡ [] [] h = refl
text_eq→≡ [] (_ ∷ _) h = cc
text_eq→≡ (_ ∷ _) [] h = cc
text_eq→≡ (a ∷ s) (b ∷ t) h = ground (arith, text_eq→≡ s t)

pub text_eq_comm : (s t : Text) → text_eq s t ≡ text_eq t s
unfolding text_eq
text_eq_comm [] [] = refl
text_eq_comm [] (_ ∷ _) = refl
text_eq_comm (_ ∷ _) [] = refl
text_eq_comm (a ∷ s) (b ∷ t) = ground (arith, text_eq_comm s t)

-- `s in texts`, for a list or a set of texts.
unfoldable pub text_in : Text → List Text → Bool
unfolding any
text_in s texts = any (text_eq s) texts

unfoldable pub starts_with : Text → Text → Bool
starts_with s [] = true
starts_with [] (_ ∷ _) = false
starts_with (a ∷ s) (b ∷ p) = a == b && starts_with s p

unfoldable pub ends_with : Text → Text → Bool
unfolding text_eq
ends_with [] suffix = text_eq [] suffix
ends_with (a ∷ s) suffix = text_eq (a ∷ s) suffix || ends_with s suffix

-- `needle in s`
unfoldable pub contains : Text → Text → Bool
unfolding starts_with
contains [] needle = starts_with [] needle
contains (a ∷ s) needle = starts_with (a ∷ s) needle || contains s needle

unfoldable pub drop_prefix : Text → Text → Text
drop_prefix s [] = s
drop_prefix [] (_ ∷ _) = []
drop_prefix (_ ∷ s) (_ ∷ p) = drop_prefix s p

unfoldable pub remove_prefix : Text → Text → Text
unfolding starts_with drop_prefix
remove_prefix s p = if starts_with s p then drop_prefix s p else s

abbrev pub is_upper : ℕ → Bool
is_upper c = leb b'A' c && leb c b'Z'

abbrev pub is_digit : ℕ → Bool
is_digit c = leb b'0' c && leb c b'9'

abbrev pub is_space : ℕ → Bool
is_space c = (leb 9 c && leb c 13) || (leb 28 c && leb c 32)

abbrev pub lower_char : ℕ → ℕ
lower_char c = if is_upper c then c + 32 else c

unfoldable pub lower : Text → Text
lower [] = []
lower (c ∷ s) = lower_char c ∷ lower s

-- `lstrip` with the test for the characters to strip.
unfoldable pub lstrip : (ℕ → Bool) → Text → Text
lstrip p [] = []
lstrip p (c ∷ s) = let rest = lstrip p s in if p c then rest else c ∷ s

-- A character is kept if it is not stripped or if something behind it is kept.
unfoldable pub rstrip : (ℕ → Bool) → Text → Text
rstrip p [] = []
rstrip p (c ∷ s) = let rest = rstrip p s in if p c && is_empty rest then [] else c ∷ rest

unfoldable pub strip : Text → Text
unfolding lstrip rstrip
strip s = lstrip is_space (rstrip is_space s)

-- `s.split(c, 1)`: the part before the first c, and the part behind it if there is one.
unfoldable pub split_once : ℕ → Text → Text × Option Text
split_once c [] = ([], none)
split_once c (d ∷ s) =
    let rest = split_once c s in if d == c then ([], some s) else (d ∷ rest.0, rest.1)

prepend : ℕ → List Text → List Text
prepend d [] = (d ∷ []) ∷ []
prepend d (t ∷ ts) = (d ∷ t) ∷ ts

-- `s.split(c)`
unfoldable pub split : ℕ → Text → List Text
unfolding prepend
split c [] = [] ∷ []
split c (d ∷ s) = let rest = split c s in if d == c then [] ∷ rest else prepend d rest
