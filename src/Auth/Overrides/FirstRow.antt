-- ===== src/Auth/Overrides/FirstRow.antt =====
-- cloud/db/mixins/auth_mixin.py: the write of an override as `set_user_permission_override` performs it,
-- on the row that `.first()` finds.
use gov_crawler.Base.{
  ℕ, ◌+◌, ◌≤◌, ◌≡◌, refl, sym, ap, Bool, true, false, Option, none, some, List, [], ◌∷◌, ◌++◌,
  arith, if◌then◌else◌, Bool-cases, inl, inr,
}
use gov_crawler.Base.Table
use gov_crawler.Base.Text.{Text}
use gov_crawler.Auth.{UserPermission}
use gov_crawler.Auth.Effective.{is_override, with_effect, override_row}

module _ {A : Type 0} (p : A → Bool) where
  -- `s.delete(existing)`
  unfoldable pub delete_first : List A → List A
  delete_first [] = []
  delete_first (x ∷ xs) = let rest = delete_first xs in if p x then xs else x ∷ rest

  -- A write to the columns of `existing`.
  unfoldable pub update_first : (A → A) → List A → List A
  update_first f [] = []
  update_first f (x ∷ xs) = let rest = update_first f xs in if p x then f x ∷ xs else x ∷ rest

  -- What a count says of the first row and of the rest.
  no_hit : (b : Bool) (n : ℕ) → b ≡ true → (if b then 1 else 0) + n ≡ 0 → ⊥
  no_hit b n e k = ground arith

  none_after : (b : Bool) (n : ℕ) → b ≡ false → (if b then 1 else 0) + n ≡ 0 → n ≡ 0
  none_after b n e k = ground arith

  after_hit : (b : Bool) (n : ℕ) → b ≡ true → (if b then 1 else 0) + n ≤ 1 → n ≡ 0
  after_hit b n e k = ground arith

  after_miss : (b : Bool) (n : ℕ) → b ≡ false → (if b then 1 else 0) + n ≤ 1 → n ≤ 1
  after_miss b n e k = ground arith

  delete-absent : (xs : List A) → Table.count p xs ≡ 0 → Table.delete p xs ≡ xs
  unfolding Table.delete Table.count
  delete-absent [] h = refl
  delete-absent (x ∷ xs) h = elim (Bool-cases (p x)) [
    | inl hit ↦ absurd (no_hit (p x) (Table.count p xs) hit h)
    | inr miss ↦
        rw miss (
          ap (λ (l : List A). x ∷ l)
            (delete-absent xs (none_after (p x) (Table.count p xs) miss h)))
  ]

  update-absent : (f : A → A) (xs : List A) → Table.count p xs ≡ 0 → Table.update p f xs ≡ xs
  unfolding Table.update Table.count
  update-absent f [] h = refl
  update-absent f (x ∷ xs) h = elim (Bool-cases (p x)) [
    | inl hit ↦ absurd (no_hit (p x) (Table.count p xs) hit h)
    | inr miss ↦ rw miss (
        ap (λ (l : List A). x ∷ l)
          (update-absent f xs (none_after (p x) (Table.count p xs) miss h)))
  ]

  -- Where one row matches at most, the first is all.
  pub delete_first-delete :
      (xs : List A) → Table.count p xs ≤ 1 → delete_first xs ≡ Table.delete p xs
  unfolding delete_first Table.delete Table.count
  delete_first-delete [] h = refl
  delete_first-delete (x ∷ xs) h = elim (Bool-cases (p x)) [
    | inl hit ↦ rw hit (sym (delete-absent xs (after_hit (p x) (Table.count p xs) hit h)))
    | inr miss ↦ rw miss (
        ap (λ (l : List A). x ∷ l)
          (delete_first-delete xs (after_miss (p x) (Table.count p xs) miss h)))
  ]

  pub update_first-update :
      (f : A → A) (xs : List A) → Table.count p xs ≤ 1 → update_first f xs ≡ Table.update p f xs
  unfolding update_first Table.update Table.count
  update_first-update f [] h = refl
  update_first-update f (x ∷ xs) h = elim (Bool-cases (p x)) [
    | inl hit ↦ rw hit (
        ap (λ (l : List A). f x ∷ l)
          (sym (update-absent f xs (after_hit (p x) (Table.count p xs) hit h))))
    | inr miss ↦ rw miss (
        ap (λ (l : List A). x ∷ l)
          (update_first-update f xs (after_miss (p x) (Table.count p xs) miss h)))
  ]

-- The branches of `set_user_permission_override` for a user who exists.
unfoldable pub write_override : ℕ → Text → Option Text → List UserPermission → List UserPermission
write_override user_id key none rows = elim (Table.first (is_override user_id key) rows) [
  | some existing ↦ delete_first (is_override user_id key) rows
  | none ↦ rows
]
write_override user_id key (some effect) rows = elim (Table.first (is_override user_id key) rows) [
  | some existing ↦ update_first (is_override user_id key) (with_effect effect) rows
  | none ↦ rows ++ override_row user_id key effect ∷ []
]
