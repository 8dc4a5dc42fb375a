-- ===== src/CsvImport.antt =====
-- cloud/services/csv_import.py: the rows of an uploaded file of contacts. csv.DictReader is the
-- library's: its rows, as pairs of a header and a value, are the input. White space is ASCII white space.
pub mod Parsed
use gov_crawler.Base.{
  ℕ, ◌+◌, Bool, true, false, not, ◌&&◌, ◌||◌, Option, none, some, List, [], ◌∷◌, ◌++◌, leb, ◌==◌,
  if◌then◌else◌, length,
}
use gov_crawler.Base.Text.{
  Text, codes, text_eq, text_in, any, all, is_empty, is_space, lower, strip, split_once,
}

abbrev pub max_rows : ℕ
max_rows = 2000

abbrev pub email_field : Text
email_field = codes "email"

abbrev pub name_field : Text
name_field = codes "name"

abbrev pub designation_field : Text
designation_field = codes "designation"

abbrev pub department_field : Text
department_field = codes "department"

abbrev pub phone_field : Text
phone_field = codes "phone"

abbrev pub header_aliases : List (Text × List Text)
header_aliases =
    (email_field, codes "email" ∷ codes "e-mail" ∷ codes "email address" ∷ codes "mail" ∷ [])
    ∷ (
      name_field,
      codes "name"
          ∷ codes "full name"
          ∷ codes "person name"
          ∷ codes "person_name"
          ∷ codes "contact name"
          ∷ [],
    )
    ∷ (
      designation_field,
      codes "designation" ∷ codes "title" ∷ codes "job title" ∷ codes "role" ∷ [],
    )
    ∷ (department_field, codes "department" ∷ codes "dept" ∷ [])
    ∷ (
      phone_field,
      codes "phone"
          ∷ codes "phone number"
          ∷ codes "mobile"
          ∷ codes "mobile number"
          ∷ codes "contact number"
          ∷ [],
    )
    ∷ []

unfoldable pub field_of : Text → List (Text × List Text) → Option Text
field_of key [] = none
field_of key ((field, aliases) ∷ rest) =
    let found = field_of key rest in if text_in key aliases then some field else found

unfoldable pub canonical_field : Text → Option Text
canonical_field header = field_of (lower (strip header)) header_aliases

-- A row of the reader: header and value, none where the row is short.
abbrev pub RawRow : Type 0
RawRow = List (Text × Option Text)

abbrev present : Option Text → Bool
present none = false
present (some v) = not (is_empty v)

abbrev is_field : Text → Option Text → Bool
is_field field none = false
is_field field (some f) = text_eq f field

abbrev stripped : Option Text → Option Text
stripped none = none
stripped (some v) = some (strip v)

-- `normalized.get(field)`: the last value with a header of the field. The keys of a row are the
-- reader's field names, so that field_map is canonical_field.
unfoldable pub normalized : Text → RawRow → Option Text
normalized field [] = none
normalized field ((header, value) ∷ cells) =
    let later = normalized field cells in
    elim later [
      | some v ↦ some v
      | none ↦
          if is_field field (canonical_field header) && present value then stripped value else none
    ]

unfoldable pub raw_email : RawRow → Option Text
raw_email [] = none
raw_email ((header, value) ∷ cells) =
    let more = raw_email cells in if text_eq header email_field then value else more

-- `\.[^@\s]+$` somewhere in a text without white space and without an at sign.
unfoldable pub has_inner_dot : Text → Bool
has_inner_dot [] = false
has_inner_dot (_ ∷ []) = false
has_inner_dot (c ∷ (d ∷ rest)) = c == 46 || has_inner_dot (d ∷ rest)

abbrev dotted : Text → Bool
dotted [] = false
dotted (_ ∷ rest) = has_inner_dot rest

abbrev domain_ok : Option Text → Bool
domain_ok none = false
domain_ok (some d) = not (any (λ (c : ℕ). c == 64) d) && dotted d

-- `_EMAIL_RE.match`: one at sign with something before it, and a dot inside of what follows.
unfoldable pub matches_email : Text → Bool
matches_email s =
    not (any is_space s) && not (is_empty (split_once 64 s).0) && domain_ok (split_once 64 s).1

pub record ContactRow : Type 0 where
  pub row : ℕ
  pub email : Text
  pub name : Option Text
  pub designation : Option Text
  pub department : Option Text
  pub phone : Option Text

pub record SkippedRow : Type 0 where
  pub row : ℕ
  pub email : Option Text
  pub reason : Text

pub record ParseState : Type 0 where
  pub rows : List ContactRow
  pub skipped : List SkippedRow
  pub seen_emails : List Text

abbrev pub skip : ℕ → Option Text → Text → ParseState → ParseState
skip line_no email reason st = record st {
  skipped = st.skipped ++ record { row = line_no; email = email; reason = reason } ∷ [];
}

abbrev pub accept : ℕ → Text → RawRow → ParseState → ParseState
accept line_no email raw st = record st {
  rows =
      st.rows
      ++ record {
        row = line_no;
        email = email;
        name = normalized name_field raw;
        designation = normalized designation_field raw;
        department = normalized department_field raw;
        phone = normalized phone_field raw;
      }
        ∷ [];
  seen_emails = email ∷ st.seen_emails;
}

-- `(normalized.get("email") or "").lower()`
abbrev pub email_of : RawRow → Text
email_of raw = elim (normalized email_field raw) [ none ↦ [] | some v ↦ lower v ]

-- One row of the file.
unfoldable pub parse_row : ℕ → RawRow → ParseState → ParseState
parse_row line_no raw st =
    let email = email_of raw in
    if leb max_rows (length st.rows)
    then skip line_no (raw_email raw) (codes "row limit exceeded (max 2000 rows)") st
    else if is_empty email
    then skip line_no none (codes "missing email") st
    else if not (matches_email email)
    then skip line_no (some email) (codes "invalid email format") st
    else if text_in email st.seen_emails
    then skip line_no (some email) (codes "duplicate email in file") st
    else accept line_no email raw st

unfoldable pub parse_rows : ℕ → List RawRow → ParseState → ParseState
parse_rows line_no [] st = st
parse_rows line_no (raw ∷ raws) st = parse_rows (line_no + 1) raws (parse_row line_no raw st)

unfoldable pub parse_contacts_csv : List RawRow → List ContactRow × List SkippedRow
parse_contacts_csv raws =
    let st = parse_rows 2 raws (record { rows = []; skipped = []; seen_emails = [] }) in
    (st.rows, st.skipped)
