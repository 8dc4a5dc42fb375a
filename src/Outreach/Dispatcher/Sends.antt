-- ===== src/Outreach/Dispatcher/Sends.antt =====
-- The emails that the mail server takes in a run of the dispatcher, told apart by their ids.
use gov_crawler.Base.{
  ℕ, ◌≡◌, refl, sym, ◌∙◌, subst, Bool, true, false, Option, none, some, List, [], ◌∷◌, ◌==◌,
  if◌then◌else◌, Bool-cases, inl, inr, All, All-imp, arith,
}
use gov_crawler.Outreach.{CampaignEmail, Database, queued, has_status}
use gov_crawler.Outreach.Emails.Lifecycle.{find_email, DistinctIds}
use gov_crawler.Outreach.Dispatcher.{Round, Dispatch, dispatch_round, dispatch_loop}
use gov_crawler.Outreach.Dispatcher.Effects.{returned, is_done, round_mail}
use gov_crawler.Outreach.Dispatcher.Laws.{IsRecorded, RoundLaw}
use gov_crawler.Outreach.Dispatcher.Rounds.{IsSettled, dispatch_round-RoundLaw}

add_mail : Option ℕ → Bool → List (ℕ × Bool) → List (ℕ × Bool)
add_mail none returns is = is
add_mail (some i) returns is = (i, returns) ∷ is

-- The ids of the emails that the mail server took, in the order of the run, each with whether the call
-- that sent it returned.
unfoldable pub sends : ℕ → List Round → Dispatch → List (ℕ × Bool)
unfolding add_mail
sends id [] d = []
sends id (r ∷ rs) d =
    let turn = dispatch_round id r d in
    let rest = sends id rs turn.1 in
    add_mail (round_mail id r d) (returned r.result) (if turn.0 then rest else [])

abbrev pub NoneTwice : List (ℕ × Bool) → Type 0
NoneTwice [] = Unit
NoneTwice (i ∷ is) = All (λ (j : ℕ × Bool). (i.0 == j.0) ≡ false) is × NoneTwice is

-- The email with the id is there and SENT or FAILED, and SENT if the call returned.
abbrev pub IsFinished : Database → ℕ × Bool → Type 0
IsFinished db (i, returns) = (e : CampaignEmail) × (find_email i db ≡ some e) × IsRecorded returns e

-- What a run of the loop owes: nothing is sent twice, nothing that was finished before is sent, what is
-- sent is finished in the end, and what was finished before is left as it was.
pub record RunLaw (before after : Database) (mails : List (ℕ × Bool)) : Type 0 where
  pub once : NoneTwice mails
  pub fresh :
      All
        (λ (i : ℕ × Bool). (e : CampaignEmail) → find_email i.0 before ≡ some e → is_done e ≡ false)
        mails
  pub recorded : All (IsFinished after) mails
  pub keeps :
      (i : ℕ) (e : CampaignEmail)
      → find_email i before ≡ some e
      → is_done e ≡ true
      → find_email i after ≡ some e

clash : {b : Bool} → b ≡ false → b ≡ true → ⊥
clash p q = cc

same_email : {x y : CampaignEmail} → some x ≡ some y → x ≡ y
same_email e = cc

queued_not_done : (e : CampaignEmail) → has_status queued e ≡ true → is_done e ≡ false
queued_not_done e h = ground arith

module _ (before middle : Database) (returns : Bool) where
  -- What the server takes was not finished before.
  mail-fresh :
      (i : ℕ)
      → RoundLaw before middle (some i) returns
      → (e : CampaignEmail) → find_email i before ≡ some e
      → is_done e ≡ false
  mail-fresh i law e h =
      let (m, there, q) = law.queued_before i refl in
      subst (λ (x : CampaignEmail). is_done x ≡ false) (same_email (sym there ∙ h))
        (queued_not_done m q)

  -- What was finished before the turn is so after it.
  fresh-earlier :
      (mail : Option ℕ) (j : ℕ)
      → RoundLaw before middle mail returns
      → ((e : CampaignEmail) → find_email j middle ≡ some e → is_done e ≡ false)
      → (e : CampaignEmail) → find_email j before ≡ some e
      → is_done e ≡ false
  fresh-earlier mail j law fresh e h = elim (Bool-cases (is_done e)) [
    | inl done ↦ absurd (clash (fresh e (law.keeps j e h done)) done)
    | inr unfinished ↦ unfinished
  ]

  -- What the turn sent is not sent later.
  mail-other :
      (i j : ℕ)
      → RoundLaw before middle (some i) returns
      → ((e : CampaignEmail) → find_email j middle ≡ some e → is_done e ≡ false)
      → (i == j) ≡ false
  mail-other i j law fresh = elim (Bool-cases (i == j)) [
    | inl same ↦
        let (e, there, s) = law.done_after i refl in
        absurd (
          clash
            (fresh e (subst (λ (k : ℕ). find_email k middle ≡ some e) (eq_of_test i j same) there))
            s.0)
    | inr other ↦ other
  ]
    where
      eq_of_test : (u v : ℕ) → (u == v) ≡ true → u ≡ v
      eq_of_test u v t = ground arith

  go-RunLaw :
      (after : Database) (mail : Option ℕ) (mails : List (ℕ × Bool))
      → RoundLaw before middle mail returns
      → RunLaw middle after mails
      → RunLaw before after (add_mail mail returns mails)
  unfolding add_mail
  go-RunLaw after none mails law run = record {
    once = run.once;
    fresh = All-imp (λ j f. fresh-earlier none j.0 law f) mails run.fresh;
    recorded = run.recorded;
    keeps = λ i e h done. run.keeps i e (law.keeps i e h done) done;
  }
  go-RunLaw after (some i) mails law run =
      let (e, there, s) = law.done_after i refl in
      record {
        once = (All-imp (λ j f. mail-other i j.0 law f) mails run.fresh, run.once);
        fresh =
            (mail-fresh i law, All-imp (λ j f. fresh-earlier (some i) j.0 law f) mails run.fresh);
        recorded = ((e, run.keeps i e there s.0, s), run.recorded);
        keeps = λ k m h done. run.keeps k m (law.keeps k m h done) done;
      }

rest-RunLaw : (db : Database) → RunLaw db db []
rest-RunLaw db = record { once = tt; fresh = tt; recorded = tt; keeps = λ i e h done. h }

-- For a run of the dispatch loop from a database with distinct email ids, whatever the server answers in
-- each round, where no call fails after the server took the message with one of the errors that put
-- the email back in the queue: the server takes no email twice, and none that was SENT or FAILED before;
-- each that it takes is SENT or FAILED at the end, and SENT if the call returned; and each that was SENT
-- or FAILED before is unchanged.
pub dispatch_loop-sends_once :
    (id : ℕ) (rs : List Round) (d : Dispatch)
    → All IsSettled rs
    → DistinctIds d.db.emails
    → RunLaw d.db (dispatch_loop id rs d).db (sends id rs d)
unfolding dispatch_loop sends
dispatch_loop-sends_once id [] d settled distinct = rest-RunLaw d.db
dispatch_loop-sends_once id (r ∷ rs) d settled distinct =
    let turn = dispatch_round id r d in
    let law = dispatch_round-RoundLaw id r d settled.0 distinct in
    elim (Bool-cases turn.0) [
      | inl more ↦ rw more (
          go-RunLaw d.db turn.1.db (returned r.result) _ (round_mail id r d) (sends id rs turn.1)
            law (dispatch_loop-sends_once id rs turn.1 settled.1 law.distinct))
      | inr stop ↦ rw stop (
          go-RunLaw d.db turn.1.db (returned r.result) _ (round_mail id r d) [] law
            (rest-RunLaw turn.1.db))
    ]
