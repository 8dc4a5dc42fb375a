-- ===== src/Base/Pages.antt =====
-- OFFSET and LIMIT: the pages of a query's rows.
use Prim.Native.Nat.{ℕ, zero, suc, ◌+◌, ◌-◌, ◌*◌, ◌≤◌}
use mathlib.Core.Path.{◌≡◌, refl, sym, ap, ◌∙◌}
use mathlib.Core.List.{List, [], ◌∷◌, ◌++◌}
use native.Mathlib.Omega.{arith}
use gov_crawler.Base.Lists.{length, take}

zero_plus : (b : ℕ) → 0 + b ≡ b
zero_plus b = omega arith

suc_plus : (a b : ℕ) → suc a + b ≡ suc (a + b)
suc_plus a b = omega arith

next_page : (n limit : ℕ) → n * limit + limit ≡ suc n * limit
next_page n limit = ground arith

module _ {ℓ} {A : Type ℓ} where
  unfoldable pub drop : ℕ → List A → List A
  drop zero xs = xs
  drop (suc n) [] = []
  drop (suc n) (x ∷ xs) = drop n xs

  -- `.offset((page - 1) * limit).limit(limit)`
  unfoldable pub paginate : ℕ → ℕ → List A → List A
  paginate page limit rows = take limit (drop ((page - 1) * limit) rows)

  -- The pages 1 to n, one after another.
  unfoldable pub all_pages : (ℕ → List A) → ℕ → List A
  all_pages page zero = []
  all_pages page (suc n) = all_pages page n ++ page (suc n)

  take_nil : (n : ℕ) → take {A = A} n [] ≡ []
  take_nil zero = refl
  take_nil (suc n) = refl

  take_split : (a b : ℕ) (xs : List A) → take (a + b) xs ≡ take a xs ++ take b (drop a xs)
  unfolding drop
  take_split zero b xs = rw (zero_plus b) refl
  take_split (suc a) b [] = rw (take_nil (suc a + b), take_nil b) refl
  take_split (suc a) b (x ∷ xs) = rw (suc_plus a b) (ap (λ (l : List A). x ∷ l) (take_split a b xs))

  take_all : (n : ℕ) (xs : List A) → length xs ≤ n → take n xs ≡ xs
  take_all zero [] h = refl
  take_all zero (x ∷ xs) h = absurd (too_long h)
    where
      too_long : suc (length xs) ≤ 0 → ⊥
      too_long k = omega (arith, k)
  take_all (suc n) [] h = refl
  take_all (suc n) (x ∷ xs) h = ap (λ (l : List A). x ∷ l) (take_all n xs (omega (arith, h)))

  all_pages-take :
      (n limit : ℕ) (xs : List A)
      → all_pages (λ (p : ℕ). paginate p limit xs) n ≡ take (n * limit) xs
  unfolding all_pages paginate
  all_pages-take zero limit xs = rw (zero_times limit) refl
    where
      zero_times : (m : ℕ) → 0 * m ≡ 0
      zero_times m = ground arith
  all_pages-take (suc n) limit xs =
      rw (all_pages-take n limit xs, before n)
        (sym (take_split (n * limit) limit xs) ∙ ap (λ (m : ℕ). take m xs) (next_page n limit))
    where
      before : (n : ℕ) → suc n - 1 ≡ n
      before n = omega arith

  -- Pages that have room for all the rows have each row once and in order.
  pub all_pages_complete :
      (n limit : ℕ) (xs : List A)
      → length xs ≤ n * limit
      → all_pages (λ (p : ℕ). paginate p limit xs) n ≡ xs
  all_pages_complete n limit xs room = all_pages-take n limit xs ∙ take_all (n * limit) xs room
