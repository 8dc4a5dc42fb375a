-- ===== src/Jobs/Agents.antt =====
-- The claims of agents to a job, and heartbeats after a reaping.
use gov_crawler.Base.{
  ℕ, ◌≡◌, refl, sym, ap, ◌∙◌, Bool, true, false, Option, none, some, String, str_eq, str_eq_iff,
}
use gov_crawler.Base.Table.{first-eq-some}
use gov_crawler.Jobs.{
  Job, Jobs, running, Metrics, has_id, is_stale, reaped, owned_by, claim_free,
  claim_or_verify_job_agent, update_jobs, heartbeat, reap_stale_jobs,
}
use gov_crawler.Jobs.Lifecycle.{find_job, find_job-def, find_job-update}

-- What a claim answers, by the row of the job.
claim-answer :
    (i : ℕ) (agent : String) (js : Jobs) (host : String) (j : Job)
    → find_job i js ≡ some j
    → j.agent_hostname ≡ some host
    → (claim_or_verify_job_agent i agent js).0 ≡ str_eq host agent
unfolding claim_or_verify_job_agent
claim-answer i agent js host j found owner =
    rw (sym (find_job-def i js) ∙ found, claim_or_verify_job_agent) (rw (owner) refl)

-- A job that was marked as interrupted because it was silent runs again after a late heartbeat, with
-- the heartbeat's metrics.
pub heartbeat-revives :
    (i threshold now later : ℕ) (metrics : Metrics) (j : Job) (js : Jobs)
    → find_job i js ≡ some j
    → is_stale threshold now j ≡ true
    → find_job i (heartbeat i metrics later (reap_stale_jobs threshold now js).1).1
      ≡ some (record j { status = running; metrics = metrics; last_heartbeat_at = some later })
unfolding heartbeat reap_stale_jobs
heartbeat-revives i threshold now later metrics j js found stale =
    let dead : find_job i (reap_stale_jobs threshold now js).1 ≡ some (reaped j) =
      find_job-update i (is_stale threshold now) reaped (λ m. refl) js ∙ rw (found, stale) refl in
    let own = first-eq-some (has_id i) j js.rows (sym (find_job-def i js) ∙ found) in
    find_job-update i (has_id i) _ (λ m. refl) (reap_stale_jobs threshold now js).1
    ∙ rw (dead, own, sym (find_job-def i (reap_stale_jobs threshold now js).1) ∙ dead) refl

claim_lem :
    (i : ℕ) (agent : String) (js : Jobs) (j : Job)
    → find_job i js ≡ some j
    → claim_or_verify_job_agent i agent js ≡ claim_free j.agent_hostname i agent js
unfolding claim_or_verify_job_agent
claim_lem i agent js j found = rw (sym (find_job-def i js) ∙ found, claim_or_verify_job_agent) refl

claim_missing :
    (i : ℕ) (agent : String) (js : Jobs)
    → find_job i js ≡ none
    → (claim_or_verify_job_agent i agent js).0 ≡ false
unfolding claim_or_verify_job_agent
claim_missing i agent js missing =
    rw (sym (find_job-def i js) ∙ missing, claim_or_verify_job_agent) refl

-- After an agent's claim of a job has succeeded, a claim of the same job by another agent fails.
pub claim_or_verify_job_agent-exclusive :
    (i : ℕ) (agent other : String) (js : Jobs)
    → (claim_or_verify_job_agent i agent js).0 ≡ true
    → str_eq agent other ≡ false
    → (claim_or_verify_job_agent i other (claim_or_verify_job_agent i agent js).1).0 ≡ false
claim_or_verify_job_agent-exclusive i agent other js ok differ = go (find_job i js) refl
  where
    clash : {b : Bool} → b ≡ true → b ≡ false → ⊥
    clash p q = cc

    owned :
        (j : Job)
        → find_job i js ≡ some j
        → (host : Option String) → j.agent_hostname ≡ host
        → (claim_free host i agent js).0 ≡ true
        → (claim_or_verify_job_agent i other (claim_free host i agent js).1).0 ≡ false
    owned j found none h said =
        claim-answer i other (update_jobs (has_id i) (owned_by agent) js) agent (owned_by agent j)
          (find_job-update i (has_id i) (owned_by agent) (λ m. refl) js
            ∙ rw (found, first-eq-some (has_id i) j js.rows (sym (find_job-def i js) ∙ found)) refl)
          refl
        ∙ differ
    owned j found (some host) h said =
        claim-answer i other js host j found h
        ∙ (ap (λ (s : String). str_eq s other) ((str_eq_iff host agent).0 said) ∙ differ)

    go :
        (o : Option Job)
        → find_job i js ≡ o
        → (claim_or_verify_job_agent i other (claim_or_verify_job_agent i agent js).1).0 ≡ false
    go none missing = absurd (clash ok (claim_missing i agent js missing))
    go (some j) found =
        let same = claim_lem i agent js j found in
        rw same (owned j found j.agent_hostname refl (rw same at ok))
