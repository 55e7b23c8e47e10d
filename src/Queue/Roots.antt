-- ===== src/Queue/Roots.antt =====
-- create_crawl_run_with_root_job of jobs/state.py, and the queries of one run: processing_failure,
-- next_pacing_deadline and job_ids_for_run.
pub mod Creation
use chess_crawl.Prelude.{
  ℕ, take, ◌<◌, ◌≡◌, subst, min, All, select-holds, Option-cases, inl, inr, String, Text, Bool,
  false, ◌&&◌, ◌||◌, Option, none, some, List, [], ◌∷◌, map, str_eq, ltb, is_text, any, find,
  select, is_value, arith,
}
use chess_crawl.Queue.Model.{
  Archive, Cooldown, Job, Run, Params, pending, error, skipped, normalize_payload, same_kind,
  same_state,
}
use chess_crawl.Queue.Write.{Session}
use chess_crawl.Queue.Result.{err, no_provider, Result, ok, ◌>>=◌, >>=-eq-ok}
use chess_crawl.Queue.Enqueue.{Digest, Backlog, Request, enqueue_job}
use chess_crawl.Queue.Claim.{selects}
use chess_crawl.Queue.Runs.{create_crawl_run, in_run}
use chess_crawl.Queue.Reach.{Reach, here, next, Step}

-- The keyword arguments of create_crawl_run_with_root_job; both of its calls read the clock `now`.
pub record Root : Type 0 where
  pub provider : String
  pub seed_spec : String
  pub params : Params
  pub root_kind : String
  pub root_target : Text
  pub priority : ℕ
  pub now : ℕ

unfoldable pub root_request : Root → ℕ → Request
root_request root run = record {
  provider = some root.provider;
  kind = root.root_kind;
  target = root.root_target;
  params = root.params;
  crawl_run_id = some run;
  parent_job_id = none;
  depth = 0;
  priority = root.priority;
  now = root.now;
  dedup_key = none;
  reuse_terminal = false;
}

-- The ids of the run and of its first job.
unfoldable pub create_crawl_run_with_root_job :
    Digest → Backlog → Session → Root → Archive → Result (Archive × ℕ × ℕ)
unfolding root_request enqueue_job
create_crawl_run_with_root_job digest room s root db = do
  run ← create_crawl_run s (some root.provider) root.seed_spec root.params root.now db
  job ← enqueue_job digest room s (root_request root run.1) run.0
  ok (job.0, run.1, job.1.job_id)

-- processing_failure: the first child whose interpretation failed, and why.
unfoldable pub is_failed_child : ℕ → Job → Bool
is_failed_child parent j =
    is_value j.parent_job_id parent
    && same_kind j.kind normalize_payload
    && (same_state j.state error || same_state j.state skipped)

unfoldable pub processing_failure : ℕ → Archive → Option (ℕ × Option String)
unfolding is_failed_child
processing_failure parent db = elim (find (is_failed_child parent) db.jobs) [
  | none ↦ none
  | some j ↦ some (j.id, j.reason)
]

-- A pending job of the run, or of any run, waits for the provider.
unfoldable pub waits_for : Option ℕ → String → Job → Bool
waits_for run provider j =
    is_text j.provider provider && same_state j.state pending && selects run j.crawl_run_id

unfoldable pub paces : Option ℕ → ℕ → Archive → Cooldown → Bool
unfolding waits_for
paces run now db c =
    str_eq c.reason "provider request pacing"
    && ltb now c.not_before
    && any (waits_for run c.provider) db.jobs

-- MIN over rows; nothing where there is no row.
unfoldable pub earliest : List ℕ → Option ℕ
earliest [] = none
earliest (n ∷ ns) = elim (earliest ns) [ none ↦ some n | some m ↦ some (min n m) ]

unfoldable pub next_pacing_deadline : Option ℕ → ℕ → Archive → Option ℕ
unfolding paces earliest
next_pacing_deadline run now db =
    earliest (map (λ (c : Cooldown). c.not_before) (select (paces run now db) db.cooldowns))

unfoldable pub job_ids_for_run : ℕ → Archive → List ℕ
job_ids_for_run run db = map (λ (j : Job). j.id) (select (in_run run) db.jobs)

earliest-later :
    (now : ℕ) (cs : List Cooldown)
    → All (λ (c : Cooldown). now < c.not_before) cs
    → (t : ℕ) → earliest (map (λ (c : Cooldown). c.not_before) cs) ≡ some t
    → now < t
unfolding earliest
earliest-later now [] a t h = absurd (ground arith)
earliest-later now (c ∷ cs) a t h =
    elim (Option-cases (earliest (map (λ (d : Cooldown). d.not_before) cs))) [
      | inl e ↦ ground (arith, a.0)
      | inr (m, e) ↦
          let later : now < m = earliest-later now cs a.1 m e in
          let t_is : min c.not_before m ≡ t = ground arith in omega (arith, a.0)
    ]

-- A pacing deadline that is returned lies in the future.
pub next_pacing_deadline-later :
    (run : Option ℕ) (now : ℕ) (db : Archive) (t : ℕ)
    → next_pacing_deadline run now db ≡ some t
    → now < t
unfolding next_pacing_deadline
next_pacing_deadline-later run now db t =
    earliest-later now (select (paces run now db) db.cooldowns)
      (select-holds (λ (c : Cooldown). now < c.not_before) (paces run now db) db.cooldowns
        (λ c e. unfold paces in ground arith))
      t

-- A row of list_jobs is the job; its columns are those of the row.
unfoldable pub list_jobs : ℕ → Archive → List Job
list_jobs limit db = take limit db.jobs

-- source_provider: a job of the archive's own work has none.
unfoldable pub source_provider : Job → Result String
source_provider j = elim j.provider [ none ↦ err no_provider | some p ↦ ok p ]

unfoldable pub crawl_runs : Archive → List Run
crawl_runs db = db.runs
