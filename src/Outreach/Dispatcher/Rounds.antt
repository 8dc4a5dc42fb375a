-- ===== src/Outreach/Dispatcher/Rounds.antt =====
-- What one turn of the dispatch loop does to the emails.
use gov_crawler.Base.{
  ℕ, ◌≡◌, refl, sym, Bool, true, false, ◌&&◌, ◌||◌, Option, none, some, if◌then◌else◌,
}
use gov_crawler.Base.Table
use gov_crawler.Base.Table.{first-eq-some}
use gov_crawler.Base.Text.{Text}
use gov_crawler.Outreach.{
  CampaignStatus, running, paused, cancelled, completed, queued, Campaign, Credential,
  CampaignEmail, Database, has_status, get_campaign, get_campaign_credential_ids,
  update_campaign_status,
}
use gov_crawler.Outreach.Emails.{
  claim_next_queued_email, start_sending, has_remaining_drafts, of_status,
}
use gov_crawler.Outreach.Emails.Lifecycle.{find_email, DistinctIds}
use gov_crawler.Outreach.Dispatcher.{
  SendResult, delivered, auth_error, response_error, recipients_refused, network_error, unexpected,
  Round, Dispatch, handle_result, send_with, send_claimed, send_next, on_status, dispatch_round,
  resolve_credential_pool, get_next_credential,
}
use gov_crawler.Outreach.Dispatcher.Effects.{
  done-sent, returned, requeues, Finishes, handle_result-Finishes, mail_with, mail_claimed,
  mail_next, mail_status, round_mail, Touches, handle_result-Touches, stranded-Touches,
  delivered-Touches,
}
use gov_crawler.Outreach.Dispatcher.Laws.{
  RoundLaw, no_mail, same-RoundLaw, cancel-RoundLaw, find_email-claimed, claim, touched-RoundLaw,
}

-- An email that the server took is not put back in the queue.
abbrev pub IsSettled : Round → Type 0
IsSettled r = (r.accepted && requeues r.result) ≡ false

-- The claim of m, and what follows it.
module _ (id : ℕ) (r : Round) (m : CampaignEmail) (db : Database) (index : ℕ) where
  send_with-RoundLaw :
      (cred : Option Credential)
      → IsSettled r
      → DistinctIds db.emails
      → find_email m.id db ≡ some m
      → has_status queued m ≡ true
      → RoundLaw db
          (send_with cred id m r
            (record { db = claim m.id r.started_at db; cred_index = index })).1.db
          (mail_with cred m r)
          (returned r.result)
  unfolding send_with mail_with update_campaign_status
  send_with-RoundLaw none settled d there q =
      let after : Database =
        (send_with none id m r
          (record { db = claim m.id r.started_at db; cred_index = index })).1.db in
      let t : Touches m.id (claim m.id r.started_at db) (claim m.id r.started_at db) =
        stranded-Touches m (claim m.id r.started_at db) in
      touched-RoundLaw db after m r.started_at none (returned r.result) d there q
        (record { write = t.write; keeps_id = t.keeps_id; emails = t.emails }) (λ i h. no_mail h)
  send_with-RoundLaw (some c) settled d there q = by_result r.result r.accepted settled
    where
      claimed : Database
      claimed = claim m.id r.started_at db

      some_id : {x y : ℕ} → some x ≡ some y → x ≡ y
      some_id e = cc

      taken :
          (result : SendResult)
          → requeues result ≡ false
          → returned result ≡ false
          → RoundLaw db (handle_result result m c r.ended_at claimed) (some m.id) false
      taken result final raised =
          let t : Finishes m.id claimed (handle_result result m c r.ended_at claimed) =
            handle_result-Finishes result m c r.ended_at claimed final in
          touched-RoundLaw db _ m r.started_at (some m.id) false d there q t.0
            (λ i h. (sym (some_id h), (t.1 (start_sending r.started_at m), λ e. cc)))

      raising :
          (result : SendResult) (accepted : Bool)
          → (accepted && requeues result) ≡ false
          → returned result ≡ false
          → RoundLaw db
              (handle_result result m c r.ended_at claimed)
              (if accepted then some m.id else none)
              false
      raising result true final raised = taken result final raised
      raising result false final raised =
          touched-RoundLaw db _ m r.started_at none false d there q
            (handle_result-Touches result m c r.ended_at claimed) (λ i h. no_mail h)

      by_result :
          (result : SendResult) (accepted : Bool)
          → (accepted && requeues result) ≡ false
          → RoundLaw db
              (handle_result result m c r.ended_at claimed)
              (if returned result || accepted then some m.id else none)
              (returned result)
      by_result delivered a final =
          let t = delivered-Touches m c r.ended_at claimed in
          touched-RoundLaw db _ m r.started_at (some m.id) true d there q t.0 (λ i h. (
            sym (some_id h),
            (
              done-sent (t.0.write (start_sending r.started_at m))
                  (t.1 (start_sending r.started_at m)),
              λ e. t.1 (start_sending r.started_at m),
            ),
          ))
      by_result auth_error a final = raising auth_error a final refl
      by_result (response_error code message) a final =
          raising (response_error code message) a final refl
      by_result (recipients_refused rs) a final = raising (recipients_refused rs) a final refl
      by_result network_error a final = raising network_error a final refl
      by_result (unexpected message) a final = raising (unexpected message) a final refl

send_claimed-RoundLaw :
    (id : ℕ) (r : Round) (m : CampaignEmail) (db : Database) (index : ℕ)
    → IsSettled r
    → DistinctIds db.emails
    → find_email m.id db ≡ some m
    → has_status queued m ≡ true
    → (let d : Dispatch = record { db = claim m.id r.started_at db; cred_index = index } in
        RoundLaw db
          (send_claimed (some m) id r d).1.db
          (mail_claimed (some m) id r d)
          (returned r.result))
unfolding send_claimed mail_claimed
send_claimed-RoundLaw id r m db index settled =
    let now_db : Database = claim m.id r.started_at db in
    let picked =
      get_next_credential
        (resolve_credential_pool (get_campaign_credential_ids id now_db) r.started_at now_db)
        index in
    send_with-RoundLaw id r m db picked.1 picked.0 settled

status-emails :
    (id : ℕ) (st : CampaignStatus) (reason : Option Text) (db : Database)
    → (update_campaign_status id st reason db).1.emails ≡ db.emails
unfolding update_campaign_status
status-emails id st reason db = refl

idle-RoundLaw :
    (id : ℕ) (r : Round) (d : Dispatch)
    → DistinctIds d.db.emails
    → RoundLaw d.db (send_claimed none id r d).1.db (mail_claimed none id r d) (returned r.result)
unfolding send_claimed mail_claimed
idle-RoundLaw id r d distinct = go (has_remaining_drafts id d.db)
  where
    go :
        (more : Bool)
        → (let d' : Dispatch =
              if more
              then record d { db = (update_campaign_status id paused none d.db).1 }
              else record d { db = (update_campaign_status id completed none d.db).1 } in
            RoundLaw d.db d'.db none (returned r.result))
    go true = same-RoundLaw (returned r.result) d.db _ (status-emails id paused none d.db) distinct
    go false =
        same-RoundLaw (returned r.result) d.db _ (status-emails id completed none d.db) distinct

send_next-RoundLaw :
    (id : ℕ) (r : Round) (d : Dispatch)
    → IsSettled r
    → DistinctIds d.db.emails
    → RoundLaw d.db (send_next id r d).1.db (mail_next id r d) (returned r.result)
unfolding send_next mail_next claim_next_queued_email
send_next-RoundLaw id r d settled distinct = go (Table.first (of_status id queued) d.db.emails) refl
  where
    go :
        (o : Option CampaignEmail)
        → Table.first (of_status id queued) d.db.emails ≡ o
        → (let found : Option CampaignEmail × Database = elim o [
          | none ↦ (none, d.db)
          | some e ↦ (some e, claim e.id r.started_at d.db)
        ] in
            RoundLaw d.db
              (send_claimed found.0 id r (record d { db = found.1 })).1.db
              (mail_claimed found.0 id r (record d { db = found.1 }))
              (returned r.result))
    go none h = idle-RoundLaw id r d distinct
    go (some m) h =
        let claimed = find_email-claimed id r.started_at d.db m distinct h in
        send_claimed-RoundLaw id r m d.db d.cred_index settled distinct claimed.0 claimed.1

on_status-RoundLaw :
    (st : CampaignStatus) (id : ℕ) (r : Round) (d : Dispatch)
    → IsSettled r
    → DistinctIds d.db.emails
    → RoundLaw d.db (on_status st id r d).1.db (mail_status st id r d) (returned r.result)
unfolding mail_status
on_status-RoundLaw running id r d settled distinct = send_next-RoundLaw id r d settled distinct
on_status-RoundLaw completed id r d settled distinct = send_next-RoundLaw id r d settled distinct
on_status-RoundLaw paused id r d settled distinct =
    same-RoundLaw (returned r.result) d.db d.db refl distinct
on_status-RoundLaw cancelled id r d settled distinct =
    cancel-RoundLaw (returned r.result) id d.db distinct

-- Every turn of the loop in which no email is put back that the server took.
pub dispatch_round-RoundLaw :
    (id : ℕ) (r : Round) (d : Dispatch)
    → IsSettled r
    → DistinctIds d.db.emails
    → RoundLaw d.db (dispatch_round id r d).1.db (round_mail id r d) (returned r.result)
unfolding dispatch_round round_mail
dispatch_round-RoundLaw id r d settled distinct = go (get_campaign id none false d.db)
  where
    go :
        (o : Option Campaign)
        → (let turn : Bool × Dispatch = elim o [
          | none ↦ (false, d)
          | some c ↦ on_status c.status id r d
        ] in
            RoundLaw d.db turn.1.db
              (elim o [ none ↦ none | some c ↦ mail_status c.status id r d ])
              (returned r.result))
    go none = same-RoundLaw (returned r.result) d.db d.db refl distinct
    go (some c) = on_status-RoundLaw c.status id r d settled distinct
