-- ===== src/Outreach/Dispatcher/Laws.antt =====
-- The law of a turn: finished emails stay, and what the server took was queued before.
use gov_crawler.Base.{
  ℕ, ◌≡◌, refl, sym, ap, ◌∙◌, subst, Bool, true, false, ◌&&◌, Option, none, some, List, arith, ◌==◌,
  Bool-cases, inl, inr,
}
use gov_crawler.Base.Table
use gov_crawler.Base.Table.{first-eq-some}
use gov_crawler.Outreach.{queued, sent, CampaignEmail, Database, has_id, has_status, is_of}
use gov_crawler.Outreach.Emails.{
  update_emails, start_sending, as_cancelled, cancel_remaining_queued, of_status,
}
use gov_crawler.Outreach.Emails.Lifecycle.{
  find_email, DistinctIds, update-DistinctIds, first-by_id, find_email-update,
}
use gov_crawler.Outreach.Dispatcher.Effects.{is_done, Touches}

-- An email that the server took is sent or failed, and sent if the call that sent it returned.
abbrev pub IsRecorded : Bool → CampaignEmail → Type 0
IsRecorded returns e = (is_done e ≡ true) × (returns ≡ true → has_status sent e ≡ true)

-- A turn keeps the finished emails as they are and the ids distinct; the email that the server took was
-- queued before, is sent or failed after, and sent if the call returned.
pub record RoundLaw (before after : Database) (mail : Option ℕ) (returns : Bool) : Type 0 where
  pub keeps :
      (i : ℕ) (e : CampaignEmail)
      → find_email i before ≡ some e
      → is_done e ≡ true
      → find_email i after ≡ some e
  pub distinct : DistinctIds after.emails
  pub queued_before :
      (i : ℕ)
      → mail ≡ some i
      → (e : CampaignEmail) × (find_email i before ≡ some e) × (has_status queued e ≡ true)
  pub done_after :
      (i : ℕ)
      → mail ≡ some i
      → (e : CampaignEmail) × (find_email i after ≡ some e) × IsRecorded returns e

pub no_mail : {A : Type 0} → {i : ℕ} → none ≡ some i → A
no_mail h = absurd (clash h)
  where
    clash : {j : ℕ} → none ≡ some j → ⊥
    clash e = cc

-- A turn that leaves the emails.
pub same-RoundLaw :
    (returns : Bool) (before after : Database)
    → after.emails ≡ before.emails
    → DistinctIds before.emails
    → RoundLaw before after none returns
unfolding find_email
same-RoundLaw returns before after same d = record {
  keeps = λ i e h done. ap (λ (es : List CampaignEmail). Table.first (has_id i) es) same ∙ h;
  distinct = subst DistinctIds (sym same) d;
  queued_before = λ i h. no_mail h;
  done_after = λ i h. no_mail h;
}

-- A queued email is not done.
done-queued : (e : CampaignEmail) → is_done e ≡ true → has_status queued e ≡ false
done-queued e h = ground arith

find-update-other :
    (i : ℕ) (p : CampaignEmail → Bool) (f : CampaignEmail → CampaignEmail)
    → ((e : CampaignEmail) → (f e).id ≡ e.id)
    → (db : Database) (e : CampaignEmail) → find_email i db ≡ some e
    → p e ≡ false
    → find_email i (update_emails p f db) ≡ some e
find-update-other i p f same db e h out = find_email-update i p f same db ∙ rw (h, out) refl

pub cancel-RoundLaw :
    (returns : Bool) (id : ℕ) (db : Database)
    → DistinctIds db.emails
    → RoundLaw db (cancel_remaining_queued id db).1 none returns
unfolding cancel_remaining_queued
cancel-RoundLaw returns id db d = record {
  keeps = λ i e h done.
      find-update-other i (of_status id queued) as_cancelled (λ m. refl) db e h
        (miss (is_of id e) e done);
  distinct = update-DistinctIds (of_status id queued) as_cancelled (λ m. refl) db.emails d;
  queued_before = λ i h. no_mail h;
  done_after = λ i h. no_mail h;
}
  where
    miss : (b : Bool) (e : CampaignEmail) → is_done e ≡ true → (b && has_status queued e) ≡ false
    miss b e done = ground (arith, done-queued e done)

-- A claimed email that is then only rewritten by id.
pub find_email-claimed :
    (id now : ℕ) (db : Database) (m : CampaignEmail)
    → DistinctIds db.emails
    → Table.first (of_status id queued) db.emails ≡ some m
    → (find_email m.id db ≡ some m) × (has_status queued m ≡ true)
unfolding find_email
find_email-claimed id now db m d h = (
  first-by_id (of_status id queued) m db.emails d h,
  right (is_of id m) (has_status queued m) (first-eq-some (of_status id queued) m db.emails h),
)
  where
    right : (a b : Bool) → (a && b) ≡ true → b ≡ true
    right a b e = ground arith

after_lem : (i : ℕ) (x y : Database) → x.emails ≡ y.emails → find_email i x ≡ find_email i y
unfolding find_email
after_lem i x y same = ap (λ (es : List CampaignEmail). Table.first (has_id i) es) same

-- The claim flips the claimed email, and no other.
abbrev pub claim : ℕ → ℕ → Database → Database
claim i now db =
    update_emails (λ (r : CampaignEmail). has_id i r && has_status queued r) (start_sending now) db

find-update-hit :
    (i : ℕ) (p : CampaignEmail → Bool) (f : CampaignEmail → CampaignEmail)
    → ((e : CampaignEmail) → (f e).id ≡ e.id)
    → (db : Database) (e : CampaignEmail) → find_email i db ≡ some e
    → p e ≡ true
    → find_email i (update_emails p f db) ≡ some (f e)
find-update-hit i p f same db e h hit = find_email-update i p f same db ∙ rw (h, hit) refl

-- A finished email is not the queued one that was claimed.
other_id :
    (db : Database) (m e : CampaignEmail) (i : ℕ)
    → find_email m.id db ≡ some m
    → has_status queued m ≡ true
    → find_email i db ≡ some e
    → is_done e ≡ true
    → has_id m.id e ≡ false
unfolding find_email
other_id db m e i there q h done = elim (Bool-cases (e.id == m.id)) [
  | inl same ↦
      let at_m : Table.first (has_id m.id) db.emails ≡ some e =
        subst (λ (j : ℕ). Table.first (has_id j) db.emails ≡ some e)
          (trans_ids e.id i m.id (first-eq-some (has_id i) e db.emails h) same) h in
      absurd (
        clash
          (subst (λ (x : CampaignEmail). has_status queued x ≡ false) (unique (sym at_m ∙ there))
            (done-queued e done))
          q)
  | inr other ↦ other
]
  where
    trans_ids : (x y z : ℕ) → (x == y) ≡ true → (x == z) ≡ true → y ≡ z
    trans_ids x y z p q = ground arith

    unique : {x y : CampaignEmail} → some x ≡ some y → x ≡ y
    unique e = cc

    clash : {b : Bool} → b ≡ false → b ≡ true → ⊥
    clash p q = cc

pub touched-RoundLaw :
    (db db' : Database) (m : CampaignEmail) (now : ℕ) (mail : Option ℕ) (returns : Bool)
    → DistinctIds db.emails
    → find_email m.id db ≡ some m
    → has_status queued m ≡ true
    → (t : Touches m.id (claim m.id now db) db')
    → ((i : ℕ) → mail ≡ some i → (i ≡ m.id) × IsRecorded returns (t.write (start_sending now m)))
    → RoundLaw db db' mail returns
touched-RoundLaw db db' m now mail returns d there q t sends = record {
  keeps = λ i e h done.
      let out = other_id db m e i there q h done in
      after i e (
        find-update-other i (has_id m.id) t.write t.keeps_id (claim m.id now db) e
          (find-update-other i _ (start_sending now) (λ r. refl) db e h
            (both out (has_status queued e)))
          out);
  distinct =
      subst DistinctIds (sym t.emails)
        (update-DistinctIds (has_id m.id) t.write t.keeps_id _ claimed);
  queued_before =
      λ i eq. (m, subst (λ (j : ℕ). find_email j db ≡ some m) (sym (sends i eq).0) there, q);
  done_after = λ i eq. (t.write (start_sending now m), sent_row i (sends i eq).0, (sends i eq).1);
}
  where
    claimed : DistinctIds (claim m.id now db).emails
    claimed = update-DistinctIds _ (start_sending now) (λ r. refl) db.emails d

    both : {a : Bool} → a ≡ false → (b : Bool) → (a && b) ≡ false
    both e b = rw e refl

    and : {a b : Bool} → a ≡ true → b ≡ true → (a && b) ≡ true
    and e f = rw (e, f) refl

    self : (n : ℕ) → (n == n) ≡ true
    self n = ground arith

    after :
        (i : ℕ) (e : CampaignEmail)
        → find_email i (update_emails (has_id m.id) t.write (claim m.id now db)) ≡ some e
        → find_email i db' ≡ some e
    after i e h =
        after_lem i db' (update_emails (has_id m.id) t.write (claim m.id now db)) t.emails ∙ h

    sent_row : (i : ℕ) → i ≡ m.id → find_email i db' ≡ some (t.write (start_sending now m))
    sent_row i same = after i (t.write (start_sending now m)) (
        find-update-hit i (has_id m.id) t.write t.keeps_id (claim m.id now db) (start_sending now m)
          (find-update-hit i _ (start_sending now) (λ r. refl) db m
            (subst (λ (j : ℕ). find_email j db ≡ some m) (sym same) there) (and (self m.id) q))
          (self m.id))
