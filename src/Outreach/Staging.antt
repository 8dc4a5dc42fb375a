-- ===== src/Outreach/Staging.antt =====
-- Which leads get a draft.
use gov_crawler.Base.{
  ℕ, suc, ◌+◌, ◌≡◌, refl, ap, Bool, true, false, Option, none, some, List, [], ◌∷◌, arith,
  if◌then◌else◌, length, All, is_some,
}
use gov_crawler.Base.Table
use gov_crawler.Base.Table.{count-le-length}
use gov_crawler.Base.Text.{Text, text_in, is_empty, any}
use gov_crawler.Leads.{Lead}
use gov_crawler.Outreach.Emails.{NewEmail}
use gov_crawler.Outreach.Drafts.{
  Renderer, Template, is_blacklisted, draft_email, draft_emails, render_draft_emails,
}

module _ {A : Type 0} (Q P : A → Type 0) where
  -- What a deletion leaves of rows of which Q holds.
  All-kept :
      (p : A → Bool)
      → ((a : A) → Q a → p a ≡ false → P a)
      → (xs : List A) → All Q xs
      → All P (Table.delete p xs)
  unfolding Table.delete
  All-kept p keeps [] h = tt
  All-kept p keeps (x ∷ xs) h = pick (p x) refl (All-kept p keeps xs h.1)
    where
      pick :
          (b : Bool)
          → p x ≡ b
          → All P (Table.delete p xs)
          → All P (if b then Table.delete p xs else x ∷ Table.delete p xs)
      pick true e rest = rest
      pick false e rest = (keeps x h.0 e, rest)

All-Unit : {A : Type 0} (xs : List A) → All {0, 0} (λ (a : A). Unit) xs
All-Unit [] = tt
All-Unit (x ∷ xs) = (tt, All-Unit xs)

count-none : {A : Type 0} (xs : List A) → Table.count (λ (a : A). false) xs ≡ 0
unfolding Table.count
count-none [] = refl
count-none (x ∷ xs) = omega (arith, count-none xs)

length-delete :
    {A : Type 0} (p : A → Bool) (xs : List A)
    → length (Table.delete p xs) + Table.count p xs ≡ length xs
unfolding Table.delete Table.count
length-delete p [] = omega arith
length-delete p (x ∷ xs) = ground (arith, length-delete p xs)

module _ (emails domains exclude : List Text) where
  -- An address that may get a draft.
  abbrev pub MayMail : Text → Type 0
  MayMail a = (is_blacklisted a emails domains ≡ false) × (text_in a exclude ≡ false)

  draft_emails-MayMail :
      (render : Renderer) (template : Template) (ids : Text → Option ℕ) (ls : List Lead)
      → All (λ (l : Lead). MayMail l.email) ls
      → All (λ (n : NewEmail). MayMail n.recipient_email) (draft_emails render template ids ls)
  unfolding draft_emails
  draft_emails-MayMail render template ids [] h = tt
  draft_emails-MayMail render template ids (l ∷ ls) h =
      pick (ids l.email) (draft_emails-MayMail render template ids ls h.1)
    where
      pick :
          (o : Option ℕ)
          → All (λ (n : NewEmail). MayMail n.recipient_email) (draft_emails render template ids ls)
          → All
              (λ (n : NewEmail). MayMail n.recipient_email)
              (elim o as (λ _. List NewEmail) [
                | none ↦ draft_emails render template ids ls
                | some i ↦ draft_email render template l i ∷ draft_emails render template ids ls
              ])
      pick none rest = rest
      pick (some i) rest = (h.0, rest)

-- The leads whose address has an id.
abbrev pub HaveIds : (Text → Option ℕ) → List Lead → Type 0
HaveIds ids = All (λ (l : Lead). is_some (ids l.email) ≡ true)

length-draft_emails :
    (render : Renderer) (template : Template) (ids : Text → Option ℕ) (ls : List Lead)
    → HaveIds ids ls
    → length (draft_emails render template ids ls) ≡ length ls
unfolding draft_emails
length-draft_emails render template ids [] known = refl
length-draft_emails render template ids (l ∷ ls) known =
    pick (ids l.email) known.0 (length-draft_emails render template ids ls known.1)
  where
    pick :
        (o : Option ℕ)
        → is_some o ≡ true
        → length (draft_emails render template ids ls) ≡ length ls
        → length (elim o as (λ _. List NewEmail) [
          | none ↦ draft_emails render template ids ls
          | some i ↦ draft_email render template l i ∷ draft_emails render template ids ls
        ])
          ≡ suc (length ls)
    pick none e rest = cc
    pick (some i) e rest = ap suc rest

delete-HaveIds :
    (ids : Text → Option ℕ) (p : Lead → Bool) (ls : List Lead)
    → HaveIds ids ls
    → HaveIds ids (Table.delete p ls)
delete-HaveIds ids p ls known =
    All-kept (λ (l : Lead). is_some (ids l.email) ≡ true)
      (λ (l : Lead). is_some (ids l.email) ≡ true) p (λ l h e. h) ls known

pick-length :
    (render : Renderer) (template : Template) (ids : Text → Option ℕ) (exclude : List Text)
    (ls : List Lead)
    → HaveIds ids ls
    → length (
          draft_emails render template ids (
            if is_empty exclude
            then ls
            else Table.delete (λ (l : Lead). text_in l.email exclude) ls))
        + Table.count (λ (l : Lead). text_in l.email exclude) ls
      ≡ length ls
unfolding text_in any
pick-length render template ids [] ls known =
    rw (length-draft_emails render template ids ls known) (omega (arith, count-none ls))
pick-length render template ids (x ∷ exclude) ls known =
    let listed : Lead → Bool = λ l. text_in l.email (x ∷ exclude) in
    rw
      (length-draft_emails render template ids (Table.delete listed ls)
        (delete-HaveIds ids listed ls known))
      (length-delete listed ls)

pub drafts-MayMail :
    (emails domains exclude : List Text) (render : Renderer) (leads : List Lead)
    (template : Template)
    → (ids : Text → Option ℕ)
    → All
        (λ (n : NewEmail). MayMail emails domains exclude n.recipient_email)
        (render_draft_emails render leads template emails ids domains exclude).0
unfolding render_draft_emails text_in any
drafts-MayMail emails domains exclude render leads template ids =
    draft_emails-MayMail emails domains exclude render template ids (kept exclude) (may exclude)
  where
    listed : Lead → Bool
    listed l = is_blacklisted l.email emails domains

    filtered : List Lead
    filtered = Table.delete listed leads

    kept : List Text → List Lead
    kept ex =
        if is_empty ex then filtered else Table.delete (λ (l : Lead). text_in l.email ex) filtered

    may : (ex : List Text) → All (λ (l : Lead). MayMail emails domains ex l.email) (kept ex)
    may [] =
        All-kept (λ (l : Lead). Unit) (λ (l : Lead). MayMail emails domains [] l.email) listed
          (λ (l : Lead) u e. (e, refl)) leads (All-Unit leads)
    may (x ∷ ex) =
        All-kept (λ (l : Lead). is_blacklisted l.email emails domains ≡ false)
          (λ (l : Lead). MayMail emails domains (x ∷ ex) l.email)
          (λ (l : Lead). text_in l.email (x ∷ ex)) (λ (l : Lead) clean e. (clean, e)) filtered
          (All-kept (λ (l : Lead). Unit)
            (λ (l : Lead). is_blacklisted l.email emails domains ≡ false) listed
            (λ (l : Lead) u e. e) leads (All-Unit leads))

-- The drafts, the blacklisted and the excluded leads are all the leads.
pub render_draft_emails_account :
    (render : Renderer) (leads : List Lead) (template : Template) (emails : List Text)
    (ids : Text → Option ℕ) (domains exclude : List Text)
    → HaveIds ids leads
    → let r = render_draft_emails render leads template emails ids domains exclude in
      length r.0 + r.1 + r.2 ≡ length leads
unfolding render_draft_emails text_in any
render_draft_emails_account render leads template emails ids domains exclude known = omega (
  arith,
  pick-length render template ids exclude (Table.delete listed leads)
      (delete-HaveIds ids listed leads known),
  length-delete listed leads,
)
  where
    listed : Lead → Bool
    listed l = is_blacklisted l.email emails domains
