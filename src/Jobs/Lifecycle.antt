-- ===== src/Jobs/Lifecycle.antt =====
-- Finished jobs, late heartbeats and the agent that owns a job.
use gov_crawler.Base.{
  ℕ, ◌≡◌, refl, sym, ap, subst, ◌∙◌, Bool, true, false, ◌&&◌, Option, none, some, List, [], ◌∷◌,
  ◌==◌, if◌then◌else◌, Bool-cases, inl, inr, arith, String,
}
use gov_crawler.Base.Table
use gov_crawler.Base.Table.{first-update, first-eq-some}
use gov_crawler.Jobs.{
  JobStatus, done, failed, cancelled, Job, Jobs, Metrics, has_id, is_terminal, is_running,
  is_interrupted, is_stale, finished, pulsed, reaped, owned_by, row_interrupted, finish_job,
  set_cancel_requested, heartbeat, reap_stale_jobs, claim_or_verify_job_agent, claim_free,
  update_jobs,
}

unfoldable pub find_job : ℕ → Jobs → Option Job
find_job i js = Table.first (has_id i) js.rows

pub find_job-def : (i : ℕ) (js : Jobs) → find_job i js ≡ Table.first (has_id i) js.rows
unfolding find_job
find_job-def i js = refl

pub find_job-update :
    (i : ℕ) (p : Job → Bool) (f : Job → Job)
    → ((j : Job) → (f j).id ≡ j.id)
    → (js : Jobs)
    → find_job i (update_jobs p f js)
      ≡ elim (find_job i js) [ none ↦ none | some j ↦ some (if p j then f j else j) ]
unfolding find_job
find_job-update i p f same js =
    first-update p (has_id i) f (λ j. ap (λ (n : ℕ). n == i) (same j)) js.rows

-- What the agents, the reaper and the users do to jobs after their start.
pub data Event : Type 0 where
  finish : ℕ → JobStatus → Option String → ℕ → Event
  pulse : ℕ → Metrics → ℕ → Event
  reap : ℕ → ℕ → Event
  cancel : ℕ → Event
  claim : ℕ → String → Event

abbrev pub occur : Event → Jobs → Jobs
occur (finish id status error now) js = finish_job id status error now js
occur (pulse id metrics now) js = (heartbeat id metrics now js).1
occur (reap threshold now) js = (reap_stale_jobs threshold now js).1
occur (cancel id) js = set_cancel_requested id js
occur (claim id agent) js = (claim_or_verify_job_agent id agent js).1

unfoldable pub occur_all : List Event → Jobs → Jobs
occur_all [] js = js
occur_all (e ∷ es) js = occur_all es (occur e js)

-- The job with the id has ended like j.
pub record EndedLike (i : ℕ) (j : Job) (js : Jobs) : Type 0 where
  pub row : Job
  pub found : find_job i js ≡ some row
  pub status : row.status ≡ j.status
  pub finished_at : row.finished_at ≡ j.finished_at
  pub error_message : row.error_message ≡ j.error_message

-- An update that keeps the ends of the rows that it hits.
update-EndedLike :
    (i : ℕ) (j k : Job) (p : Job → Bool) (f : Job → Job)
    → ((x : Job) → (f x).id ≡ x.id)
    → (js : Jobs) → find_job i js ≡ some k
    → (k.status ≡ j.status) × (k.finished_at ≡ j.finished_at) × (k.error_message ≡ j.error_message)
    → (p k ≡ true
        → ((f k).status ≡ k.status)
          × ((f k).finished_at ≡ k.finished_at)
          × ((f k).error_message ≡ k.error_message))
    → EndedLike i j (update_jobs p f js)
update-EndedLike i j k p f same js found like kept = elim (Bool-cases (p k)) [
  | inl hit ↦ record {
    row = f k;
    found = find_job-update i p f same js ∙ rw (found, hit) refl;
    status = (kept hit).0 ∙ like.0;
    finished_at = (kept hit).1 ∙ like.1;
    error_message = (kept hit).2 ∙ like.2;
  }
  | inr miss ↦ record {
    row = k;
    found = find_job-update i p f same js ∙ rw (found, miss) refl;
    status = like.0;
    finished_at = like.1;
    error_message = like.2;
  }
]

first-hit :
    (i : ℕ) (x : ℕ) (js : Jobs) (k : Job)
    → find_job i js ≡ some k
    → has_id x k ≡ true
    → find_job x js ≡ find_job i js
unfolding find_job
first-hit i x js k found hit =
    ap (λ (n : ℕ). find_job n js) (same_id k.id x i hit (first-eq-some (has_id i) k js.rows found))
  where
    same_id : (u v w : ℕ) → (u == v) ≡ true → (u == w) ≡ true → v ≡ w
    same_id u v w a b = ground arith

pulse-status :
    (x : ℕ) (i : ℕ) (js : Jobs) (k : Job) (metrics : Metrics) (now : ℕ)
    → find_job i js ≡ some k
    → is_terminal k.status ≡ true
    → has_id x k ≡ true
    → (pulsed (row_interrupted (find_job x js)) metrics now k).status ≡ k.status
pulse-status x i js k metrics now found ended hit =
    rw (first-hit i x js k found hit, found, not_interrupted k.status ended) refl
  where
    not_interrupted : (st : JobStatus) → is_terminal st ≡ true → is_interrupted st ≡ false
    not_interrupted done e = refl
    not_interrupted failed e = refl
    not_interrupted cancelled e = refl
    not_interrupted _ e = ground arith

-- A finish of a job that has ended is a no-op, and one of another job does not touch it.
finish-EndedLike :
    (x : ℕ) (status : JobStatus) (error : Option String) (now : ℕ) (i : ℕ) (j k : Job) (js : Jobs)
    → find_job i js ≡ some k
    → is_terminal k.status ≡ true
    → (k.status ≡ j.status) × (k.finished_at ≡ j.finished_at) × (k.error_message ≡ j.error_message)
    → EndedLike i j (finish_job x status error now js)
unfolding finish_job
finish-EndedLike x status error now i j k js found ended like =
    go (Table.first (has_id x) js.rows) (find_lem x js)
  where
    find_lem : (x : ℕ) (js : Jobs) → find_job x js ≡ Table.first (has_id x) js.rows
    find_lem x js = find_job-def x js

    same : {u v : Job} → some u ≡ some v → u ≡ v
    same e = cc

    clash : {b : Bool} → b ≡ true → b ≡ false → ⊥
    clash a b = cc

    stay : EndedLike i j js
    stay = record {
      row = k;
      found = found;
      status = like.0;
      finished_at = like.1;
      error_message = like.2;
    }

    go :
        (o : Option Job)
        → find_job x js ≡ o
        → EndedLike i j (elim o [
          | none ↦ js
          | some job ↦
              if is_terminal job.status
              then js
              else update_jobs (has_id x) (finished status error now) js
        ])
    go none h = stay
    go (some job) h = elim (Bool-cases (is_terminal job.status)) [
      | inl over ↦ rw over stay
      | inr live ↦ rw live (
          update-EndedLike i j k (has_id x) (finished status error now) (λ m. refl) js found like
            (λ hit. absurd (
              clash ended (
                subst (λ (m : Job). is_terminal m.status ≡ false)
                  (same (sym h ∙ (first-hit i x js k found hit ∙ found))) live))))
    ]

occur-EndedLike :
    (e : Event) (i : ℕ) (j : Job) (js : Jobs)
    → is_terminal j.status ≡ true
    → EndedLike i j js
    → EndedLike i j (occur e js)
unfolding heartbeat reap_stale_jobs set_cancel_requested claim_or_verify_job_agent find_job
occur-EndedLike (finish x status error now) i j js ended h =
    finish-EndedLike x status error now i j h.row js h.found (rw h.status ended)
      (h.status, h.finished_at, h.error_message)
occur-EndedLike (pulse x metrics now) i j js ended h =
    update-EndedLike i j h.row (has_id x) _ (λ m. refl) js h.found
      (h.status, h.finished_at, h.error_message)
      (λ hit. (pulse-status x i js h.row metrics now h.found (rw h.status ended) hit, refl, refl))
occur-EndedLike (reap threshold now) i j js ended h =
    update-EndedLike i j h.row (is_stale threshold now) reaped (λ m. refl) js h.found
      (h.status, h.finished_at, h.error_message)
      (λ hit.
        absurd
          (clash (is_running h.row.status) _ (not_running h.row.status (rw h.status ended)) hit))
  where
    not_running : (st : JobStatus) → is_terminal st ≡ true → is_running st ≡ false
    not_running done e = refl
    not_running failed e = refl
    not_running cancelled e = refl
    not_running _ e = ground arith

    clash : (a b : Bool) → a ≡ false → (a && b) ≡ true → ⊥
    clash a b e f = ground arith
occur-EndedLike (cancel x) i j js ended h =
    update-EndedLike i j h.row (has_id x) _ (λ m. refl) js h.found
      (h.status, h.finished_at, h.error_message) (λ hit. (refl, refl, refl))
occur-EndedLike (claim x agent) i j js ended h = go (Table.first (has_id x) js.rows)
  where
    by_host : (o : Option String) → EndedLike i j (claim_free o x agent js).1
    by_host none =
        update-EndedLike i j h.row (has_id x) (owned_by agent) (λ m. refl) js h.found
          (h.status, h.finished_at, h.error_message) (λ hit. (refl, refl, refl))
    by_host (some host) = h

    go :
        (o : Option Job)
        → (let r : Bool × Jobs = elim o [
          | none ↦ (false, js)
          | some m ↦ claim_free m.agent_hostname x agent js
        ] in
            EndedLike i j r.1)
    go none = h
    go (some m) = by_host m.agent_hostname

-- A job that is done, failed or cancelled keeps its status, its end and its error through any sequence
-- of finishes, heartbeats, reaps, cancel requests and claims of whatever jobs.
pub occur_all-ended :
    (es : List Event) (i : ℕ) (j : Job) (js : Jobs)
    → is_terminal j.status ≡ true
    → EndedLike i j js
    → EndedLike i j (occur_all es js)
unfolding occur_all
occur_all-ended [] i j js ended h = h
occur_all-ended (e ∷ es) i j js ended h =
    occur_all-ended es i j (occur e js) ended (occur-EndedLike e i j js ended h)
