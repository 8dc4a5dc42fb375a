-- ===== src/CsvImport/Parsed.antt =====
-- What the parser accepts and what it makes of each row.
use gov_crawler.Base.{
  ℕ, ◌+◌, ◌≤◌, ◌≡◌, refl, subst, Bool, true, false, ◌||◌, Option, none, some, List, [], ◌∷◌, ◌++◌,
  arith, leb, if◌then◌else◌, length, Bool-cases, inl, inr, ◌⊎◌, All, All-append, length-snoc,
}
use gov_crawler.Base.Table
use gov_crawler.Base.Table.{count-append}
use gov_crawler.Base.Text.{Text, text_eq, text_in, any, is_empty, codes, text_eq→≡, text_eq_comm}
use gov_crawler.CsvImport.{
  RawRow, ContactRow, ParseState, SkippedRow, skip, accept, email_of, raw_email, parse_row,
  parse_rows, parse_contacts_csv, matches_email, max_rows, normalized, name_field,
  designation_field, department_field, phone_field,
}

abbrev pub of_email : Text → ContactRow → Bool
of_email e r = text_eq r.email e

-- A contact with a well-formed address.
abbrev pub HasAddress : ContactRow → Type 0
HasAddress r = matches_email r.email ≡ true

-- Accepted rows are well formed, seen, different and few.
unfoldable pub IsParsed : ParseState → Type 0
IsParsed st =
    All HasAddress st.rows
    × ((e : Text) → Table.count (of_email e) st.rows ≤ (if text_in e st.seen_emails then 1 else 0))
    × (length st.rows ≤ max_rows)

-- The rows of the file are accepted or skipped.
abbrev total : ParseState → ℕ
total st = length st.rows + length st.skipped

accept-distinct :
    (e : Text) (st : ParseState)
    → text_in e st.seen_emails ≡ false
    → ((e' : Text)
        → Table.count (of_email e') st.rows ≤ (if text_in e' st.seen_emails then 1 else 0))
    → (r : ContactRow) → r.email ≡ e
    → (e' : Text)
    → Table.count (of_email e') (st.rows ++ r ∷ [])
      ≤ (if text_in e' (e ∷ st.seen_emails) then 1 else 0)
unfolding Table.count text_in any
accept-distinct e st new distinct r same e' =
    rw (count-append (of_email e') st.rows (r ∷ []), same) (split (Bool-cases (text_eq e e')))
  where
    split :
        (text_eq e e' ≡ true) ⊎ (text_eq e e' ≡ false)
        → Table.count (of_email e') st.rows + ((if text_eq e e' then 1 else 0) + 0)
          ≤ (if text_eq e' e || any (text_eq e') st.seen_emails then 1 else 0)
    split (inl hit) = ground (
      arith,
      hit,
      text_eq_comm e e',
      distinct e',
      subst (λ (t : Text). any (text_eq t) st.seen_emails ≡ false) (text_eq→≡ e e' hit) new,
    )
    split (inr miss) = ground (arith, miss, text_eq_comm e e', distinct e')

accept-IsParsed :
    (n : ℕ) (e : Text) (raw : RawRow) (st : ParseState)
    → leb max_rows (length st.rows) ≡ false
    → matches_email e ≡ true
    → text_in e st.seen_emails ≡ false
    → IsParsed st
    → IsParsed (accept n e raw st)
unfolding IsParsed
accept-IsParsed n e raw st room good new (valid, distinct, few) = (
  All-append HasAddress st.rows (r ∷ []) valid (good, tt),
  accept-distinct e st new distinct r refl,
  rw (length-snoc st.rows r) (ground (arith, room)),
)
  where
    r : ContactRow
    r = record {
      row = n;
      email = e;
      name = normalized name_field raw;
      designation = normalized designation_field raw;
      department = normalized department_field raw;
      phone = normalized phone_field raw;
    }

-- A row is skipped, or accepted under the four tests.
parse_row-cases :
    (P : ParseState → Type 0) (n : ℕ) (raw : RawRow) (st : ParseState)
    → ((e : Option Text) (reason : Text) → P (skip n e reason st))
    → (leb max_rows (length st.rows) ≡ false
        → matches_email (email_of raw) ≡ true
        → text_in (email_of raw) st.seen_emails ≡ false
        → P (accept n (email_of raw) raw st))
    → P (parse_row n raw st)
unfolding parse_row
parse_row-cases P n raw st skips accepts = elim (Bool-cases (leb max_rows (length st.rows))) [
  | inl full ↦ rw full (skips (raw_email raw) (codes "row limit exceeded (max 2000 rows)"))
  | inr room ↦ elim (Bool-cases (is_empty (email_of raw))) [
    | inl e ↦ rw (room, e) (skips none (codes "missing email"))
    | inr e ↦ elim (Bool-cases (matches_email (email_of raw))) [
      | inr bad ↦ rw (room, e, bad) (skips (some (email_of raw)) (codes "invalid email format"))
      | inl good ↦ elim (Bool-cases (text_in (email_of raw) st.seen_emails)) [
        | inl twice ↦
            rw (room, e, good, twice)
              (skips (some (email_of raw)) (codes "duplicate email in file"))
        | inr new ↦ rw (room, e, good, new) (accepts room good new)
      ]
    ]
  ]
]

parse_row-IsParsed :
    (n : ℕ) (raw : RawRow) (st : ParseState) → IsParsed st → IsParsed (parse_row n raw st)
unfolding IsParsed
parse_row-IsParsed n raw st parsed =
    parse_row-cases IsParsed n raw st (λ (e : Option Text) (reason : Text). parsed)
      (λ room good new. accept-IsParsed n (email_of raw) raw st room good new parsed)

parse_row-total :
    (n : ℕ) (raw : RawRow) (st : ParseState) → total (parse_row n raw st) ≡ total st + 1
parse_row-total n raw st =
    parse_row-cases (λ (s : ParseState). total s ≡ total st + 1) n raw st
      (λ (e : Option Text) (reason : Text).
        rw (length-snoc st.skipped (skipped_row e reason)) (omega arith))
      (λ room good new. rw (length-snoc st.rows (new_row (email_of raw))) (omega arith))
  where
    skipped_row : Option Text → Text → SkippedRow
    skipped_row e reason = record { row = n; email = e; reason = reason }

    new_row : Text → ContactRow
    new_row e = record {
      row = n;
      email = e;
      name = normalized name_field raw;
      designation = normalized designation_field raw;
      department = normalized department_field raw;
      phone = normalized phone_field raw;
    }

parse_rows-lem :
    (n : ℕ) (raws : List RawRow) (st : ParseState)
    → IsParsed st
    → IsParsed (parse_rows n raws st) × (total (parse_rows n raws st) ≡ total st + length raws)
unfolding parse_rows
parse_rows-lem n [] st parsed = (parsed, omega arith)
parse_rows-lem n (raw ∷ raws) st parsed =
    let rest : IsParsed (parse_rows (n + 1) raws (parse_row n raw st))
        × (total (parse_rows (n + 1) raws (parse_row n raw st))
            ≡ total (parse_row n raw st) + length raws) =
      parse_rows-lem (n + 1) raws (parse_row n raw st) (parse_row-IsParsed n raw st parsed) in
    (rest.0, omega (arith, rest.1, parse_row-total n raw st))

-- The contacts that an uploaded file yields have well-formed addresses, each of them once, and are at
-- most 2000; and each row of the file is a contact or is reported as skipped.
pub parse_contacts_csv-total :
    (raws : List RawRow)
    → All HasAddress (parse_contacts_csv raws).0
      × ((e : Text) → Table.count (of_email e) (parse_contacts_csv raws).0 ≤ 1)
      × (length (parse_contacts_csv raws).0 ≤ 2000)
      × (length (parse_contacts_csv raws).0 + length (parse_contacts_csv raws).1 ≡ length raws)
unfolding parse_contacts_csv IsParsed Table.count text_in
parse_contacts_csv-total raws =
    let start : ParseState = record { rows = []; skipped = []; seen_emails = [] } in
    let r : IsParsed (parse_rows 2 raws start)
        × (total (parse_rows 2 raws start) ≡ total start + length raws) =
      parse_rows-lem 2 raws start (tt, λ (e : Text). zero_le e, omega arith) in
    (r.0.0, λ (e : Text). ground (arith, r.0.1 e), r.0.2, omega (arith, r.1))
  where
    zero_le : (e : Text) → Table.count (of_email e) [] ≤ (if text_in e [] then 1 else 0)
    zero_le e = omega arith
