-- ===== src/Base/Selects.antt =====
-- Selects over selected, deleted, appended and updated rows, for the tables of Base/Table.antt.
use Prim.Native.Nat.{◌+◌, ◌≤◌}
use mathlib.Core.Path.{◌≡◌, refl, ap, sym, subst, ◌∙◌}
use mathlib.Core.Logic.{inl, inr}
use mathlib.Core.Bool.{Bool, true, false, not, ◌&&◌}
use mathlib.Core.List.{List, [], ◌∷◌, ◌++◌}
use mathlib.Core.Option.{none, some}
use native.Mathlib.Omega.{arith}
use gov_crawler.Base.Tests.{if◌then◌else◌, Bool-cases}
use gov_crawler.Base.Table.{select, delete, update, count, first}
use gov_crawler.Base.Text.{any}

module _ {ℓ} {A : Type ℓ} where
  pub first-select :
      (p q : A → Bool) (xs : List A) → first q (select p xs) ≡ first (λ (a : A). p a && q a) xs
  unfolding first select
  first-select p q [] = refl
  first-select p q (x ∷ xs) = ground (arith, first-select p q xs)

  pub count-select :
      (p q : A → Bool) (xs : List A) → count q (select p xs) ≡ count (λ (a : A). p a && q a) xs
  unfolding count select
  count-select p q [] = refl
  count-select p q (x ∷ xs) = ground (arith, count-select p q xs)

  pub first-delete : (p : A → Bool) (xs : List A) → first p (delete p xs) ≡ none
  unfolding first delete
  first-delete p [] = refl
  first-delete p (x ∷ xs) = ground (arith, first-delete p xs)

  -- A deletion of other rows.
  pub first-delete_apart :
      (p q : A → Bool)
      → ((a : A) → p a && q a ≡ false)
      → (xs : List A) → first q (delete p xs) ≡ first q xs
  unfolding first delete
  first-delete_apart p q apart [] = refl
  first-delete_apart p q apart (x ∷ xs) = ground (arith, apart x, first-delete_apart p q apart xs)

  pub count-delete_le : (p q : A → Bool) (xs : List A) → count q (delete p xs) ≤ count q xs
  unfolding count delete
  count-delete_le p q [] = omega arith
  count-delete_le p q (x ∷ xs) = ground (arith, count-delete_le p q xs)

  pub first-snoc :
      (q : A → Bool) (xs : List A) (y : A)
      → first q (xs ++ y ∷ [])
        ≡ elim (first q xs) [ some a ↦ some a | none ↦ if q y then some y else none ]
  unfolding first
  first-snoc q [] y = refl
  first-snoc q (x ∷ xs) y = ground (arith, first-snoc q xs y)

  pub any-delete :
      (p q : A → Bool) (xs : List A) → any q (delete p xs) ≡ any (λ (a : A). not (p a) && q a) xs
  unfolding any delete
  any-delete p q [] = refl
  any-delete p q (x ∷ xs) = ground (arith, any-delete p q xs)

  -- No row with the condition is left after an update that clears it.
  pub count-update_clears :
      (p : A → Bool) (f : A → A)
      → ((a : A) → p (f a) ≡ false)
      → (xs : List A) → count p (update p f xs) ≡ 0
  unfolding count update
  count-update_clears p f clears [] = refl
  count-update_clears p f clears (x ∷ xs) =
      ground (arith, clears x, count-update_clears p f clears xs)

  pub first-none : (p : A → Bool) (xs : List A) → count p xs ≤ 0 → first p xs ≡ none
  unfolding first count
  first-none p [] h = refl
  first-none p (x ∷ xs) h = ground (arith, first-none p xs)

  pub count-ext : (p q : A → Bool) → ((a : A) → p a ≡ q a) → (xs : List A) → count p xs ≡ count q xs
  unfolding count
  count-ext p q same [] = refl
  count-ext p q same (x ∷ xs) = ground (arith, same x, count-ext p q same xs)

  -- An update of no row.
  pub update-none : (p : A → Bool) (f : A → A) (xs : List A) → count p xs ≤ 0 → update p f xs ≡ xs
  unfolding count update
  update-none p f [] h = refl
  update-none p f (x ∷ xs) h = elim (Bool-cases (p x)) [
    | inl e ↦ ground (arith, h)
    | inr e ↦ rw e (ap (λ (ys : List A). x ∷ ys) (update-none p f xs (ground (arith, h))))
  ]

  -- An update of at most one row takes at most one row out of a count.
  pub count-update_one :
      (p q : A → Bool) (f : A → A) (xs : List A)
      → count p xs ≤ 1
      → count q xs ≤ count q (update p f xs) + 1
  unfolding count update
  count-update_one p q f [] h = omega arith
  count-update_one p q f (x ∷ xs) h = elim (Bool-cases (p x)) [
    | inl e ↦ rw (e, update-none p f xs (ground (arith, h))) (ground arith)
    | inr e ↦ rw e (ground (arith, h, count-update_one p q f xs))
  ]

  -- An update that takes no row out of a count.
  pub count-update_grows :
      (p q : A → Bool) (f : A → A)
      → ((a : A) → q a ≡ true → q (f a) ≡ true)
      → (xs : List A) → count q xs ≤ count q (update p f xs)
  unfolding count update
  count-update_grows p q f keeps [] = omega arith
  count-update_grows p q f keeps (x ∷ xs) =
      ground (arith, keeps x, count-update_grows p q f keeps xs)

  -- The update of the one row of a condition, where that row is not counted.
  pub count-update_uncounted :
      (p q : A → Bool) (f : A → A) (a : A) (xs : List A)
      → count p xs ≤ 1
      → first p xs ≡ some a
      → q a ≡ false
      → count q xs ≤ count q (update p f xs)
  unfolding count update first
  count-update_uncounted p q f a [] h e out = omega arith
  count-update_uncounted p q f a (x ∷ xs) h e out = elim (Bool-cases (p x)) [
    | inl hit ↦ rw (hit, update-none p f xs (ground (arith, h)), not_counted hit) (ground arith)
    | inr miss ↦ rw miss (
        ground
          (arith, count-update_uncounted p q f a xs (ground (arith, h)) (ground (arith, e)) out))
  ]
    where
      same : p x ≡ true → x ≡ a
      same hit = ground (arith, e)

      not_counted : p x ≡ true → q x ≡ false
      not_counted hit = subst (λ (y : A). q y ≡ false) (sym (same hit)) out

  count-update_leaves :
      (p q : A → Bool) (f : A → A)
      → ((a : A) → q (f a) ≡ false)
      → (xs : List A) → count q (update p f xs) ≤ count q xs
  unfolding count update
  count-update_leaves p q f leaves [] = omega arith
  count-update_leaves p q f leaves (x ∷ xs) =
      ground (arith, leaves x, count-update_leaves p q f leaves xs)

  -- The one row of a condition leaves it by the update.
  pub first-update_leaves :
      (p q : A → Bool) (f : A → A) (s : A) (xs : List A)
      → count q xs ≤ 1
      → first q xs ≡ some s
      → p s ≡ true
      → ((a : A) → q (f a) ≡ false)
      → first q (update p f xs) ≡ none
  unfolding count update first
  first-update_leaves p q f s [] one e hit leaves = refl
  first-update_leaves p q f s (x ∷ xs) one e hit leaves = elim (Bool-cases (q x)) [
    | inl here ↦
        rw (chosen here, leaves x)
          (first-none q (update p f xs) (ground (arith, one, count-update_leaves p q f leaves xs)))
    | inr there ↦ ground (
      arith,
      leaves x,
      first-update_leaves p q f s xs (ground (arith, one)) (ground (arith, e)) hit leaves,
    )
  ]
    where
      same : q x ≡ true → x ≡ s
      same here = ground (arith, e)

      chosen : q x ≡ true → p x ≡ true
      chosen here = subst (λ (y : A). p y ≡ true) (sym (same here)) hit

  pub count-first :
      (p q : A → Bool) (a : A) (xs : List A) → first q xs ≡ some a → p a ≡ true → 1 ≤ count p xs
  unfolding first count
  count-first p q a [] e hit = cc
  count-first p q a (x ∷ xs) e hit = elim (Bool-cases (q x)) [
    | inl here ↦ rw (subst (λ (y : A). p y ≡ true) (sym (same here)) hit) (omega arith)
    | inr there ↦ ground (arith, count-first p q a xs (ground (arith, e)) hit)
  ]
    where
      same : q x ≡ true → x ≡ a
      same here = ground (arith, e)

  -- Two selections of one row, where at most one row meets the second condition.
  pub first_unique :
      (p q : A → Bool) (a b : A) (xs : List A)
      → count p xs ≤ 1
      → first q xs ≡ some a
      → p a ≡ true
      → first p xs ≡ some b
      → a ≡ b
  unfolding first count
  first_unique p q a b [] one e hit e' = cc
  first_unique p q a b (x ∷ xs) one e hit e' = elim (Bool-cases (q x)) [
    | inl here ↦ sym (same here) ∙ chosen (subst (λ (y : A). p y ≡ true) (sym (same here)) hit)
    | inr there ↦ elim (Bool-cases (p x)) [
      | inl also ↦ absurd (twice also (count-first p q a xs (ground (arith, e)) hit))
      | inr only ↦
          first_unique p q a b xs (ground (arith, one)) (ground (arith, e)) hit (ground (arith, e'))
    ]
  ]
    where
      same : q x ≡ true → x ≡ a
      same here = ground (arith, e)

      chosen : p x ≡ true → x ≡ b
      chosen also = ground (arith, e')

      twice : p x ≡ true → 1 ≤ count p xs → ⊥
      twice also more = ground (arith, one)
