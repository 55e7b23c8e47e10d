-- ===== src/Queue/Runs/Status.antt =====
-- The status of a crawl run against the states of its jobs.
use chess_crawl.Prelude.{
  ℕ, ◌<◌, ◌≡◌, ◌≢◌, refl, ap, Bool, true, false, ◌||◌, ◌&&◌, Option, none, some, List, [], ◌∷◌, map,
  arith, ◌==◌, ltb, any, coalesce, count, Bool-cases, Option-cases, inl, inr, if◌then◌else◌,
}
use chess_crawl.Queue.Model.{
  Archive, Counters, Job, JobState, pending, in_progress, error, blocked, skipped, Run, RunStatus,
  running, paused, failed, same_state,
}
use chess_crawl.Queue.Write.{find_run}
use chess_crawl.Queue.Admission.{is_cancelled}
use chess_crawl.Queue.Runs.{
  in_run, count_in_state, job_state_counts, get_count, ready_in_run, derived_status, run_counters,
  updated_run, update_crawl_run, is_finished, reopens, total_jobs_for_run, discovery_edge_count,
  crawl_user_count, refresh_run_status, refresh_each, refresh_crawl_runs,
}

-- The grouped counts, read with a default, are the counts.
counted :
    (db : Archive) (run : ℕ)
    → (get_count pending (job_state_counts db run) ≡ count_in_state db run pending)
      × (get_count in_progress (job_state_counts db run) ≡ count_in_state db run in_progress)
      × (get_count blocked (job_state_counts db run) ≡ count_in_state db run blocked)
      × (get_count error (job_state_counts db run) ≡ count_in_state db run error)
unfolding get_count job_state_counts
counted db run =
    let p : ℕ = count_in_state db run pending in
    let i : ℕ = count_in_state db run in_progress in
    let b : ℕ = count_in_state db run blocked in
    let e : ℕ = count_in_state db run error in
    let d : ℕ = count_in_state db run JobState.done in
    let s : ℕ = count_in_state db run skipped in
    (ground arith, ground arith, ground arith, ground arith)

ready_is_pending :
    (db : Archive) (run : ℕ) (js : List Job)
    → any (ready_in_run db run) js ≡ true
    → 0 < count (λ (j : Job). in_run run j && same_state j.state pending) js
unfolding ready_in_run
ready_is_pending db run [] h = absurd (ground arith)
ready_is_pending db run (j ∷ js) h = ground (arith, ready_is_pending db run js)

-- What the jobs of a run say of it.
abbrev pub has_ready : Archive → ℕ → Bool
has_ready db run = any (ready_in_run db run) db.jobs

pub derived_status_lem :
    (db : Archive) (run : ℕ)
    → derived_status db run ≡ (
        if has_ready db run || ltb 0 (count_in_state db run in_progress)
        then running
        else if ltb 0 (count_in_state db run blocked)
        then paused
        else if ltb 0 (count_in_state db run error)
        then failed
        else RunStatus.done)
unfolding derived_status
derived_status_lem db run =
    let (p, i, b, e) = counted db run in
    elim (Bool-cases (has_ready db run)) [
      | inl ready ↦
          let some_pending : 0 < count_in_state db run pending =
            unfold count_in_state in ready_is_pending db run db.jobs ready in
          rw (p, i, b, e) (ground arith)
      | inr idle ↦ rw (p, i, b, e) (ground arith)
    ]

abbrev write : ℕ → (Run → Run) → Run → Run
write run f r = if r.id == run then f r else r

module _ (run : ℕ) (f : Run → Run) (same : (r : Run) → (f r).id ≡ r.id) where
  find-write :
      (rs : List Run) (r : Run)
      → find_run run rs ≡ some r
      → find_run run (map (write run f) rs) ≡ some (f r)
  find-write [] r h = absurd (ground arith)
  find-write (x ∷ xs) r h = elim (Bool-cases (x.id == run)) [
    | inl e ↦ let found : x ≡ r = ground arith in ground (arith, same x, ap f found)
    | inr e ↦ ground (arith, find-write xs r)
  ]

abbrev has_any : Archive → ℕ → JobState → Bool
has_any db run state = ltb 0 (count (λ (j : Job). in_run run j && same_state j.state state) db.jobs)

-- The row of a run after a refresh against the jobs of `db`.
pub record IsRefreshed (run now : ℕ) (db : Archive) (old : Run) (db' : Archive) : Type 0 where
  pub row : Run
  pub counters : Counters
  pub found : find_run run db'.runs ≡ some row
  pub status : row.status ≡ (
      if has_ready db run || has_any db run in_progress
      then running
      else if has_any db run blocked
      then paused
      else if has_any db run error
      then failed
      else RunStatus.done)
  pub finished :
      row.finished_at
      ≡ (if is_finished row.status then some (coalesce old.finished_at now) else none)
  pub counted : row.counters ≡ some counters
  pub total : counters.jobs_total ≡ count (in_run run) db.jobs
  pub edges : counters.edges ≡ count (λ (e : ℕ × ℕ). e.0 == run) db.edges
  pub users : counters.users_seen ≡ crawl_user_count db run
  pub states : counters.by_state ≡ job_state_counts db run
  pub updated : row.updated_at ≡ now
  pub kept :
      (row.provider ≡ old.provider)
      × (row.seed_spec ≡ old.seed_spec)
      × (row.params ≡ old.params)
      × (row.started_at ≡ old.started_at)
      × (row.workspace_id ≡ old.workspace_id)
      × (row.work_budget_id ≡ old.work_budget_id)
  pub jobs : db'.jobs ≡ db.jobs

-- A status that is derived from jobs is cancelled for no run.
derived-reopens :
    (db : Archive) (run : ℕ) (old : Option ℕ) (now : ℕ)
    → (if is_finished (derived_status db run)
        then some (coalesce old now)
        else if reopens (some (derived_status db run))
        then none
        else old)
      ≡ (if is_finished (derived_status db run) then some (coalesce old now) else none)
derived-reopens db run old now = rw (derived_status_lem db run) (ground arith)

-- The refresh of a run that is present and not cancelled makes it running exactly if a pending job
-- is ready or a job is in progress, else paused exactly if a job is blocked, else failed exactly if
-- a job ended in error, else done; it sets the end of the run, keeping an earlier one, exactly if
-- the new status is failed or done and clears it else, stores the counts of the run's jobs, users,
-- edges and states and the time, and keeps the provider, seed, parameters, start, owners and all
-- jobs.
pub refresh_run_status-live :
    (run now : ℕ) (db : Archive) (r : Run)
    → find_run run db.runs ≡ some r
    → is_cancelled r.status ≡ false
    → IsRefreshed run now db r (refresh_run_status run now db)
unfolding refresh_run_status update_crawl_run
refresh_run_status-live run now db r found live =
    let status : RunStatus = derived_status db run in
    let f : Run → Run =
      updated_run (some status) (some (run_counters db run)) (is_finished status) now in
    record {
      row = f r;
      counters = run_counters db run;
      found =
          rw (found, refresh_run_status) (rw live (find-write run f (λ r. refl) db.runs r found));
      status = unfold updated_run count_in_state in derived_status_lem db run;
      finished = unfold updated_run in derived-reopens db run r.finished_at now;
      counted = unfold updated_run in refl;
      total = unfold run_counters total_jobs_for_run in refl;
      edges = unfold run_counters discovery_edge_count in refl;
      users = unfold run_counters in refl;
      states = unfold run_counters in refl;
      updated = unfold updated_run in refl;
      kept = unfold updated_run in (refl, refl, refl, refl, refl, refl);
      jobs = rw (found, refresh_run_status) (rw live refl);
    }

find-write_ne :
    (run id : ℕ) (f : Run → Run) (rs : List Run) (r : Run)
    → ((r : Run) → (f r).id ≡ r.id)
    → run ≢ id
    → find_run id rs ≡ some r
    → find_run id (map (write run f) rs) ≡ some r
find-write_ne run id f [] r same ne h = absurd (ground arith)
find-write_ne run id f (x ∷ xs) r same ne h = elim (Bool-cases (x.id == run)) [
  | inl e ↦ ground (arith, same x, find-write_ne run id f xs r same ne)
  | inr e ↦ ground (arith, find-write_ne run id f xs r same ne)
]

refresh-keeps :
    (run id now : ℕ) (db : Archive) (r : Run)
    → find_run id db.runs ≡ some r
    → is_cancelled r.status ≡ true
    → find_run id (refresh_run_status run now db).runs ≡ some r
unfolding refresh_run_status update_crawl_run
refresh-keeps run id now db r found c = elim (Option-cases (find_run run db.runs)) [
  | inl missing ↦ rw (missing, refresh_run_status) found
  | inr (q, present) ↦ elim (Bool-cases (is_cancelled q.status)) [
    | inl gone ↦ rw (present, refresh_run_status) (rw gone found)
    | inr live ↦
        let status : RunStatus = derived_status db run in
        rw (present, refresh_run_status)
          (rw live (
            find-write_ne run id
              (updated_run (some status) (some (run_counters db run)) (is_finished status) now)
              db.runs r (λ r. refl) (λ eq. ground arith) found))
  ]
]

refresh_each-keeps :
    (rs : List Run) (id now : ℕ) (db : Archive) (r : Run)
    → find_run id db.runs ≡ some r
    → is_cancelled r.status ≡ true
    → find_run id (refresh_each rs now db).runs ≡ some r
refresh_each-keeps [] id now db r found c = found
refresh_each-keeps (x ∷ xs) id now db r found c =
    refresh_each-keeps xs id now (refresh_run_status x.id now db) r
      (refresh-keeps x.id id now db r found c) c

-- No refresh, of one run or of all, changes a cancelled run.
pub refresh_crawl_runs-cancelled :
    (which : Option ℕ) (id now : ℕ) (db : Archive) (r : Run)
    → find_run id db.runs ≡ some r
    → is_cancelled r.status ≡ true
    → find_run id (refresh_crawl_runs which now db).runs ≡ some r
unfolding refresh_crawl_runs
refresh_crawl_runs-cancelled (some run) id now db r found c = refresh-keeps run id now db r found c
refresh_crawl_runs-cancelled none id now db r found c =
    refresh_each-keeps db.runs id now db r found c
