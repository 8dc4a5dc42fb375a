-- ===== src/Base/Table.antt =====
-- A SQL table as the list of its rows in the order of their ids, and the statements that the
-- program issues on it: SELECT, UPDATE, DELETE and COUNT under a Boolean condition.
use Prim.Native.Nat.{ℕ, suc, ◌+◌, ◌≤◌}
use mathlib.Core.Path.{◌≡◌, refl, ap, subst}
use mathlib.Core.Bool.{Bool, true, false}
use mathlib.Core.List.{List, [], ◌∷◌, ◌++◌}
use mathlib.Core.Option.{Option, none, some}
use native.Mathlib.Omega.{arith}
use gov_crawler.Base.Tests.{if◌then◌else◌}
use gov_crawler.Base.Lists.{length, All}

module _ {ℓ} {A : Type ℓ} where
  unfoldable pub select : (A → Bool) → List A → List A
  select p [] = []
  select p (x ∷ xs) = let rest = select p xs in if p x then x ∷ rest else rest

  unfoldable pub delete : (A → Bool) → List A → List A
  delete p [] = []
  delete p (x ∷ xs) = let rest = delete p xs in if p x then rest else x ∷ rest

  unfoldable pub update : (A → Bool) → (A → A) → List A → List A
  update p f [] = []
  update p f (x ∷ xs) = (if p x then f x else x) ∷ update p f xs

  unfoldable pub count : (A → Bool) → List A → ℕ
  count p [] = 0
  count p (x ∷ xs) = (if p x then 1 else 0) + count p xs

  unfoldable pub first : (A → Bool) → List A → Option A
  first p [] = none
  first p (x ∷ xs) = let rest = first p xs in if p x then some x else rest

  pub count-append : (p : A → Bool) (xs ys : List A) → count p (xs ++ ys) ≡ count p xs + count p ys
  unfolding count
  count-append p [] ys = omega arith
  count-append p (x ∷ xs) ys = omega (arith, count-append p xs ys)

  pub length-update : (p : A → Bool) (f : A → A) (xs : List A) → length (update p f xs) ≡ length xs
  unfolding update
  length-update p f [] = refl
  length-update p f (x ∷ xs) = ap suc (length-update p f xs)

  -- Deleted rows and kept rows together are the table.
  pub count-delete :
      (p q : A → Bool) (xs : List A) → count q (delete p xs) + count q (select p xs) ≡ count q xs
  unfolding count delete select
  count-delete p q [] = omega arith
  count-delete p q (x ∷ xs) = ground (arith, count-delete p q xs)

  pub count-le-length : (p : A → Bool) (xs : List A) → count p xs ≤ length xs
  unfolding count
  count-le-length p [] = omega arith
  count-le-length p (x ∷ xs) = ground (arith, count-le-length p xs)

  pub first-eq-some : (p : A → Bool) (a : A) (xs : List A) → first p xs ≡ some a → p a ≡ true
  unfolding first
  first-eq-some p a [] h = cc
  first-eq-some p a (x ∷ xs) h = ground (arith, first-eq-some p a xs)

  pub first-eq-none : (p : A → Bool) (xs : List A) → first p xs ≡ none → count p xs ≡ 0
  unfolding first count
  first-eq-none p [] h = refl
  first-eq-none p (x ∷ xs) h = ground (arith, first-eq-none p xs)

module _ {ℓ κ} {A : Type ℓ} (P : A → Type κ) where
  pub All-delete : (p : A → Bool) (xs : List A) → All P xs → All P (delete p xs)
  unfolding delete
  All-delete p [] h = tt
  All-delete p (x ∷ xs) h = pick (p x) (All-delete p xs h.1)
    where
      pick : (b : Bool) → All P (delete p xs) → All P (if b then delete p xs else x ∷ delete p xs)
      pick true r = r
      pick false r = (h.0, r)

  pub All-select : (p : A → Bool) (xs : List A) → All P xs → All P (select p xs)
  unfolding select
  All-select p [] h = tt
  All-select p (x ∷ xs) h = pick (p x) (All-select p xs h.1)
    where
      pick : (b : Bool) → All P (select p xs) → All P (if b then x ∷ select p xs else select p xs)
      pick true r = (h.0, r)
      pick false r = r

  pub All-update :
      (p : A → Bool) (f : A → A)
      → ((a : A) → p a ≡ true → P a → P (f a))
      → (xs : List A) → All P xs
      → All P (update p f xs)
  unfolding update
  All-update p f keep [] h = tt
  All-update p f keep (x ∷ xs) h = (pick (p x) refl, All-update p f keep xs h.1)
    where
      pick : (b : Bool) → p x ≡ b → P (if b then f x else x)
      pick true e = keep x e h.0
      pick false e = h.0

module _ {ℓ} {A : Type ℓ} where
  -- An update that keeps the condition's value keeps the count.
  pub count-update :
      (q p : A → Bool) (f : A → A)
      → ((a : A) → q (f a) ≡ q a)
      → (xs : List A) → count q (update p f xs) ≡ count q xs
  unfolding count update
  count-update q p f same [] = refl
  count-update q p f same (x ∷ xs) = ground (arith, same x, count-update q p f same xs)

module _ {ℓ κ} {A : Type ℓ} (P : A → Type κ) where
  pub All-first : (p : A → Bool) (a : A) (xs : List A) → All P xs → first p xs ≡ some a → P a
  unfolding first
  All-first p a [] h e = absurd (none_ne_some e)
    where
      none_ne_some : {b : A} → none ≡ some b → ⊥
      none_ne_some e = cc
  All-first p a (x ∷ xs) h e = pick (p x) (All-first p a xs h.1) e
    where
      pick :
          (b : Bool)
          → (first p xs ≡ some a → P a)
          → (if b then some x else first p xs) ≡ some a
          → P a
      pick true r e' = subst P (cc) h.0
      pick false r e' = r e'

module _ {A : Type 0} (p q : A → Bool) (f : A → A) where
  -- The first row of a condition that an update keeps, after the update.
  pub first-update :
      ((a : A) → q (f a) ≡ q a)
      → (xs : List A)
      → first q (update p f xs)
        ≡ elim (first q xs) [ none ↦ none | some a ↦ some (if p a then f a else a) ]
  unfolding first update
  first-update same [] = refl
  first-update same (x ∷ xs) = ground (arith, same x, first-update same xs)
