-- ===== src/Queue/Claim/Soundness.antt =====
-- What claim_next_job claims: an admissible row whose locks no other session holds.
use chess_crawl.Prelude.{
  ℕ, zero, suc, ◌+◌, ◌<◌, ◌≡◌, refl, sym, ap, ◌∙◌, String, Bool, true, false, Option, none, some,
  if◌then◌else◌, List, [], ◌∷◌, ◌++◌, arith, length, count, select, All, All-take, Bool-cases, inl,
  inr, ◌⊎◌,
}
use chess_crawl.Queue.Model.{
  Archive, Job, LockKey, acquisition_provider, executor_job, is_processing_kind,
}
use chess_crawl.Queue.Write.{Session, find_job}
use chess_crawl.Queue.Admission.{claim_admission}
use chess_crawl.Queue.Claim.{
  Environment, ClaimOptions, Excluded, is_candidate, insert_sorted, sort_jobs, candidates,
  claim_row, own_session, Pass, claimed, declined, exhausted, take_candidate, own_job_lock, Visit,
  skip, exclude, take_with, visit, claim_pass, Claim, job_claimed, is_empty, next_round,
  known_stage, claim_loop, claim_next_job,
}

module _ {κ} (P : Job → Type κ) (before : Job → Job → Bool) where
  All-insert_sorted : (j : Job) (ks : List Job) → P j → All P ks → All P (insert_sorted before j ks)
  unfolding insert_sorted
  All-insert_sorted j [] h a = (h, tt)
  All-insert_sorted j (k ∷ ks) h a = elim (Bool-cases (before j k)) [
    | inl e ↦ rw e (h, a)
    | inr e ↦ rw e (a.0, All-insert_sorted j ks h a.1)
  ]

  All-sort_jobs : (js : List Job) → All P js → All P (sort_jobs before js)
  unfolding sort_jobs
  All-sort_jobs [] a = tt
  All-sort_jobs (j ∷ js) a = All-insert_sorted j (sort_jobs before js) a.0 (All-sort_jobs js a.1)

-- The job is one of the table's.
abbrev pub IsRow : List Job → Job → Type 0
IsRow js c = (p : Job → Bool) → p c ≡ true → 0 < count p js

select-IsRow :
    (p : Job → Bool) (js ks : List Job) → All (IsRow ks) js → All (IsRow ks) (select p js)
select-IsRow p [] ks a = tt
select-IsRow p (j ∷ js) ks a = elim (Bool-cases (p j)) [
  | inl e ↦ rw e (a.0, select-IsRow p js ks a.1)
  | inr e ↦ rw e (select-IsRow p js ks a.1)
]

All-IsRow-cons : (k : Job) (js ks : List Job) → All (IsRow ks) js → All (IsRow (k ∷ ks)) js
All-IsRow-cons k [] ks a = tt
All-IsRow-cons k (j ∷ js) ks a = (λ p h. ground (arith, a.0 p h), All-IsRow-cons k js ks a.1)

pub All-IsRow : (js : List Job) → All (IsRow js) js
All-IsRow [] = tt
All-IsRow (j ∷ js) = (λ p h. ground arith, All-IsRow-cons j js js (All-IsRow js))

pub candidates-IsRow :
    (e : Environment) (o : ClaimOptions) (db : Archive) (excluded : Excluded)
    → All (IsRow db.jobs) (candidates e o db excluded)
unfolding candidates
candidates-IsRow e o db excluded =
    All-take (IsRow db.jobs) 100 _
      (All-sort_jobs (IsRow db.jobs) _ _ (select-IsRow _ db.jobs db.jobs (All-IsRow db.jobs)))

-- The job stands at a place of the table.
abbrev pub IsAt : List Job → Job → Type 0
IsAt [] c = ⊥
IsAt (j ∷ js) c = (j ≡ c) ⊎ IsAt js c

All-IsAt-cons : (k : Job) (js ks : List Job) → All (IsAt ks) js → All (IsAt (k ∷ ks)) js
All-IsAt-cons k [] ks a = tt
All-IsAt-cons k (j ∷ js) ks a = (inr a.0, All-IsAt-cons k js ks a.1)

All-IsAt : (js : List Job) → All (IsAt js) js
All-IsAt [] = tt
All-IsAt (j ∷ js) = (inl refl, All-IsAt-cons j js js (All-IsAt js))

-- The locks that a claim of the row takes.
abbrev pub claimed_keys : ClaimOptions → Job → List LockKey
claimed_keys o c = elim o.worker_id [
  | none ↦ []
  | some _ ↦
      if is_processing_kind c.kind
      then executor_job c.id ∷ []
      else acquisition_provider c.provider ∷ executor_job c.id ∷ []
]

-- Every candidate of a round meets the whole condition of the query.
abbrev IsEligible : Environment → ClaimOptions → Archive → Job → Type 0
IsEligible e o db c = (claim_admission o.now o.cap db c ≡ true) × IsRow db.jobs c × IsAt db.jobs c

candidates-IsEligible :
    (e : Environment) (o : ClaimOptions) (db : Archive) (excluded : Excluded)
    → All (IsEligible e o db) (candidates e o db excluded)
unfolding candidates is_candidate
candidates-IsEligible e o db excluded = All-take (IsEligible e o db) 100 _ (
    All-sort_jobs (IsEligible e o db) _ _ (
      eligible (is_candidate e o db excluded) db.jobs (All-IsRow db.jobs) (All-IsAt db.jobs)
        (λ j h. ground arith)))
  where
    eligible :
        (p : Job → Bool) (js : List Job)
        → All (IsRow db.jobs) js
        → All (IsAt db.jobs) js
        → ((j : Job) → p j ≡ true → claim_admission o.now o.cap db j ≡ true)
        → All (IsEligible e o db) (select p js)
    eligible p [] rows places h = tt
    eligible p (j ∷ js) rows places h = elim (Bool-cases (p j)) [
      | inl q ↦ rw q ((h j q, rows.0, places.0), eligible p js rows.1 places.1 h)
      | inr q ↦ rw q (eligible p js rows.1 places.1 h)
    ]

-- The locks of a visit are free of other sessions where a worker claims.
pub record IsOwnable (e : Environment) (o : ClaimOptions) (c : Job) : Type 0 where
  pub job_free : (w : String) → o.worker_id ≡ some w → e.locked (executor_job c.id) ≡ false
  pub provider_free :
      (w : String)
      → o.worker_id ≡ some w
      → is_processing_kind c.kind ≡ false
      → e.locked (acquisition_provider c.provider) ≡ false

visit-IsOwnable :
    (e : Environment) (o : ClaimOptions) (excluded : Excluded) (c : Job) (keys : List LockKey)
    → visit e o excluded c ≡ take_with keys
    → IsOwnable e o c
unfolding visit own_job_lock
visit-IsOwnable e o excluded c keys h = record {
  job_free = λ w worker. ground arith;
  provider_free = λ w worker kind. ground arith;
}

visit-claimed_keys :
    (e : Environment) (o : ClaimOptions) (excluded : Excluded) (c : Job) (keys : List LockKey)
    → visit e o excluded c ≡ take_with keys
    → keys ≡ claimed_keys o c
unfolding visit own_job_lock
visit-claimed_keys e o excluded c keys h = ground arith

-- The outcome of a claim that took the row `c`.
pub record Took (e : Environment) (o : ClaimOptions) (s : Session) (db db' : Archive) (s' : Session)
    (j : Option Job) : Type 0 where
  pub row : Job
  pub keys : List LockKey
  pub is_row : IsRow db.jobs row
  pub place : IsAt db.jobs row
  pub locks : keys ≡ claimed_keys o row
  pub admitted : claim_admission o.now o.cap db row ≡ true
  pub ownable : IsOwnable e o row
  pub written : db' ≡ claim_row e o s row db
  pub owned : s' ≡ own_session e o s row keys
  pub returned : j ≡ find_job row.id db'.jobs

take_candidate-eq-claimed :
    (e : Environment) (o : ClaimOptions) (s : Session) (db : Archive) (c : Job)
    (keys : List LockKey) (db' : Archive) (s' : Session) (j : Option Job)
    → take_candidate e o s db c keys ≡ claimed db' s' j
    → (db' ≡ claim_row e o s c db)
      × (s' ≡ own_session e o s c keys)
      × (j ≡ find_job c.id (claim_row e o s c db).jobs)
unfolding take_candidate
take_candidate-eq-claimed e o s db c keys db' s' j h = ground arith

module _ (e : Environment) (o : ClaimOptions) (s : Session) (db : Archive) (db' : Archive)
    (s' : Session) (j : Option Job) where
  visited-Took :
      (excluded : Excluded) (c : Job) (cs : List Job) (v : Visit)
      → IsEligible e o db c
      → (claim_pass e o s db excluded cs ≡ claimed db' s' j → Took e o s db db' s' j)
      → (claim_pass e o s db (excluded ++ c.provider ∷ []) cs ≡ claimed db' s' j
          → Took e o s db db' s' j)
      → visit e o excluded c ≡ v
      → elim v [
        | skip ↦ claim_pass e o s db excluded cs
        | exclude ↦ claim_pass e o s db (excluded ++ c.provider ∷ []) cs
        | take_with keys ↦ take_candidate e o s db c keys
      ]
        ≡ claimed db' s' j
      → Took e o s db db' s' j
  visited-Took excluded c cs skip a skipped left_out q h = skipped h
  visited-Took excluded c cs exclude a skipped left_out q h = left_out h
  visited-Took excluded c cs (take_with keys) a skipped left_out q h =
      let (w, owned, back) = take_candidate-eq-claimed e o s db c keys db' s' j h in
      record {
        row = c;
        keys = keys;
        is_row = a.1;
        place = a.2;
        locks = visit-claimed_keys e o excluded c keys q;
        admitted = a.0;
        ownable = visit-IsOwnable e o excluded c keys q;
        written = w;
        owned = owned;
        returned = back ∙ ap (λ (d : Archive). find_job c.id d.jobs) (sym w);
      }

  claim_pass-Took :
      (excluded : Excluded) (cs : List Job)
      → All (IsEligible e o db) cs
      → claim_pass e o s db excluded cs ≡ claimed db' s' j
      → Took e o s db db' s' j
  unfolding claim_pass
  claim_pass-Took excluded [] a h = absurd (ground arith)
  claim_pass-Took excluded (c ∷ cs) a h =
      visited-Took excluded c cs (visit e o excluded c) a.0 (claim_pass-Took excluded cs a.1)
        (claim_pass-Took (excluded ++ c.provider ∷ []) cs a.1) refl h

  next_round-eq-claimed :
      (again : Excluded → Claim) (excluded : Excluded) (p : Pass)
      → next_round again excluded p ≡ job_claimed db' s' j
      → (p ≡ claimed db' s' j) ⊎ ((x : Excluded) × (again x ≡ job_claimed db' s' j))
  unfolding next_round
  next_round-eq-claimed again excluded (claimed db1 s1 j1) h = inl (ground arith)
  next_round-eq-claimed again excluded declined h = absurd (ground arith)
  next_round-eq-claimed again excluded (exhausted x) h = inr (x, ground arith)

  claim_loop-Took :
      (fuel : ℕ) (excluded : Excluded)
      → claim_loop fuel e o s db excluded ≡ job_claimed db' s' j
      → Took e o s db db' s' j
  unfolding claim_loop
  claim_loop-Took zero excluded h = absurd (ground arith)
  claim_loop-Took (suc fuel) excluded h =
      let window : List Job = candidates e o db excluded in
      let p : Pass = claim_pass e o s db excluded window in
      let again : Excluded → Claim = λ x. claim_loop fuel e o s db x in
      elim (Bool-cases (is_empty window)) [
        | inl empty ↦ absurd (ground arith)
        | inr some_left ↦
            let reached : next_round again excluded p ≡ job_claimed db' s' j = ground arith in
            elim (next_round-eq-claimed again excluded p reached) [
              | inl won ↦
                  claim_pass-Took excluded window (candidates-IsEligible e o db excluded) won
              | inr (x, later) ↦ claim_loop-Took fuel x later
            ]
      ]

  -- A successful claim took a row of the table that the admission conditions allow, whose provider
  -- lock and job lock the worker could get, wrote exactly the claim of that row, gave the session
  -- the ownership of it and returned the row as written.
  pub claim_next_job-Took : claim_next_job e o s db ≡ job_claimed db' s' j → Took e o s db db' s' j
  unfolding claim_next_job
  claim_next_job-Took h = elim (Bool-cases (known_stage o.stage)) [
    | inl known ↦ claim_loop-Took (length db.jobs + 1) [] (ground arith)
    | inr unknown ↦ absurd (ground arith)
  ]
