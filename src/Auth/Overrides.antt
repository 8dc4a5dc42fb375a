-- ===== src/Auth/Overrides.antt =====
-- The override table as a map from a user and a key to an effect, and what it makes of the role's keys.
pub mod FirstRow
use gov_crawler.Base.{
  ℕ, ◌≤◌, ◌≡◌, refl, ap, sym, ◌∙◌, subst, true, false, ◌&&◌, Option, none, some, List, [], ◌∷◌,
  ◌++◌, arith, ◌==◌, if◌then◌else◌, Bool-cases, inl, inr, ==_refl,
}
use gov_crawler.Base.Table
use gov_crawler.Base.Table.{first-update, first-eq-some, first-eq-none, count-append, count-update}
use gov_crawler.Base.Selects.{first-delete, first-delete_apart, first-snoc, count-delete_le}
use gov_crawler.Base.Text.{text_eq_comm, Text, text_eq, text_eq_refl, text_eq→≡}
use gov_crawler.Auth.{UserPermission}
use gov_crawler.Auth.Effective.{is_override, with_effect, override_row, put_override}

-- The effect of an override, if there is one.
abbrev pub effect_of : Option UserPermission → Option Text
effect_of none = none
effect_of (some o) = some o.effect

-- The table's abstraction: the effect that it has for a user and a key.
unfoldable pub override_of : ℕ → Text → List UserPermission → Option Text
override_of i k rows = effect_of (Table.first (is_override i k) rows)

-- Two different (user, key) pairs share no row.
apart :
    (i j : ℕ) (k l : Text)
    → (i == j) && text_eq k l ≡ false
    → (o : UserPermission) → is_override j l o && is_override i k o ≡ false
apart i j k l d o = elim (Bool-cases (is_override j l o && is_override i k o)) [
  | inr e ↦ e
  | inl e ↦ absurd (clash e)
]
  where
    same_key : is_override j l o && is_override i k o ≡ true → k ≡ l
    same_key e =
        sym (text_eq→≡ o.permission_key k (ground arith))
        ∙ text_eq→≡ o.permission_key l (ground arith)

    same_user : is_override j l o && is_override i k o ≡ true → i == j ≡ true
    same_user e = ground arith

    reflexive : is_override j l o && is_override i k o ≡ true → text_eq k l ≡ true
    reflexive e = subst (λ (t : Text). text_eq k t ≡ true) (same_key e) (text_eq_refl k)

    clash : is_override j l o && is_override i k o ≡ true → ⊥
    clash e = ground (arith, same_user e, reflexive e)

-- The row of a pair is the row of any pair equal to it.
put-at_point :
    (i : ℕ) (k : Text) (e : Option Text) (rows : List UserPermission)
    → override_of i k (put_override i k e rows) ≡ e
unfolding override_of put_override
put-at_point i k none rows = ap effect_of (first-delete (is_override i k) rows)
put-at_point i k (some e) rows = go (Table.first (is_override i k) rows) refl
  where
    go :
        (o : Option UserPermission)
        → Table.first (is_override i k) rows ≡ o
        → effect_of (
            Table.first (is_override i k) (elim o [
              | some existing ↦ Table.update (is_override i k) (with_effect e) rows
              | none ↦ rows ++ override_row i k e ∷ []
            ]))
          ≡ some e
    go none h =
        rw (first-snoc (is_override i k) rows (override_row i k e), h, ==_refl i, text_eq_refl k)
          refl
    go (some o) h =
        rw
          (
            first-update (is_override i k) (is_override i k) (with_effect e)
                (λ (a : UserPermission). refl) rows,
            h,
            first-eq-some (is_override i k) o rows h,
          )
          refl

put-elsewhere :
    (i : ℕ) (k : Text) (e : Option Text) (rows : List UserPermission) (j : ℕ) (l : Text)
    → (j == i) && text_eq l k ≡ false
    → override_of j l (put_override i k e rows) ≡ override_of j l rows
unfolding override_of put_override
put-elsewhere i k none rows j l d =
    ap effect_of (first-delete_apart (is_override i k) (is_override j l) (apart j i l k d) rows)
put-elsewhere i k (some e) rows j l d = go (Table.first (is_override i k) rows)
  where
    flipped : is_override j l (override_row i k e) ≡ false
    flipped = ground (arith, text_eq_comm k l)

    keep :
        (o : Option UserPermission)
        → effect_of (elim o [
          | some a ↦ some a
          | none ↦ if is_override j l (override_row i k e) then some (override_row i k e) else none
        ])
          ≡ effect_of o
    keep none = rw flipped refl
    keep (some a) = refl

    missed : (a : UserPermission) → is_override j l a ≡ true → is_override i k a ≡ false
    missed a h = ground (arith, apart j i l k d a)

    old :
        (o : Option UserPermission)
        → Table.first (is_override j l) rows ≡ o
        → effect_of (elim o [
          | none ↦ none
          | some a ↦ some (if is_override i k a then with_effect e a else a)
        ])
          ≡ effect_of o
    old none h = refl
    old (some a) h = rw (missed a (first-eq-some (is_override j l) a rows h)) refl

    go :
        (o : Option UserPermission)
        → effect_of (
            Table.first (is_override j l) (elim o [
              | some existing ↦ Table.update (is_override i k) (with_effect e) rows
              | none ↦ rows ++ override_row i k e ∷ []
            ]))
          ≡ effect_of (Table.first (is_override j l) rows)
    go none =
        rw (first-snoc (is_override j l) rows (override_row i k e))
          (keep (Table.first (is_override j l) rows))
    go (some o) =
        rw
          (first-update (is_override i k) (is_override j l) (with_effect e)
            (λ (a : UserPermission). refl) rows)
          (old (Table.first (is_override j l) rows) refl)

-- Setting an override of a user and a key to an effect, or clearing it, changes the map from users and
-- keys to effects at that point and nowhere else.
pub put_override-override_of :
    (i : ℕ) (k : Text) (e : Option Text) (rows : List UserPermission) (j : ℕ) (l : Text)
    → override_of j l (put_override i k e rows)
      ≡ (if (j == i) && text_eq l k then e else override_of j l rows)
unfolding override_of put_override
put_override-override_of i k e rows j l = elim (Bool-cases ((j == i) && text_eq l k)) [
  | inl same ↦ rw (same, user same, text_eq→≡ l k (key same)) (put-at_point i k e rows)
  | inr other ↦ rw other (put-elsewhere i k e rows j l other)
]
  where
    key : (j == i) && text_eq l k ≡ true → text_eq l k ≡ true
    key same = ground arith

    user : (j == i) && text_eq l k ≡ true → j ≡ i
    user same = ground arith

-- The unique constraint uq_user_permission.
unfoldable pub UniqueOverrides : List UserPermission → Type 0
UniqueOverrides rows = (i : ℕ) (k : Text) → Table.count (is_override i k) rows ≤ 1

pub put_override-UniqueOverrides :
    (i : ℕ) (k : Text) (e : Option Text) (rows : List UserPermission)
    → UniqueOverrides rows
    → UniqueOverrides (put_override i k e rows)
unfolding UniqueOverrides put_override Table.count
put_override-UniqueOverrides i k none rows unique j l =
    omega (arith, unique j l, count-delete_le (is_override i k) (is_override j l) rows)
put_override-UniqueOverrides i k (some e) rows unique j l =
    go (Table.first (is_override i k) rows) refl
  where
    same_point : is_override j l (override_row i k e) ≡ true → l ≡ k
    same_point h = sym (text_eq→≡ k l (ground arith))

    absent :
        Table.first (is_override i k) rows ≡ none
        → is_override j l (override_row i k e) ≡ true
        → Table.count (is_override j l) rows ≡ 0
    absent h same = rw (user, same_point same) (first-eq-none (is_override i k) rows h)
      where
        user : j ≡ i
        user = ground arith

    go :
        (o : Option UserPermission)
        → Table.first (is_override i k) rows ≡ o
        → Table.count (is_override j l) (elim o [
          | some existing ↦ Table.update (is_override i k) (with_effect e) rows
          | none ↦ rows ++ override_row i k e ∷ []
        ])
          ≤ 1
    go none h = elim (Bool-cases (is_override j l (override_row i k e))) [
      | inl same ↦
          rw (count-append (is_override j l) rows (override_row i k e ∷ []), same, Table.count)
            (ground (arith, absent h same))
      | inr other ↦
          rw (count-append (is_override j l) rows (override_row i k e ∷ []), other, Table.count)
            (ground (arith, unique j l))
    ]
    go (some o) h =
        rw
          (count-update (is_override j l) (is_override i k) (with_effect e)
            (λ (a : UserPermission). refl) rows)
          (unique j l)
