-- ===== src/Queue/Runs.antt =====
-- Crawl runs: create_crawl_run, update_crawl_run, run_counters and refresh_run_status of
-- jobs/state.py, with the trigger set_run_revision of 0004_events.sql.
pub mod Status
use chess_crawl.Prelude.{
  ℕ, ◌+◌, String, Text, Bool, true, false, not, ◌||◌, ◌&&◌, Option, none, some, List, [], ◌∷◌, ◌++◌,
  map, ◌==◌, str_eq, text_eq, same_value, if◌then◌else◌, is_value, coalesce, any, count, select,
  find, ltb, lower, length,
}
use chess_crawl.Queue.Model.{
  Archive, Counters, Job, JobState, pending, in_progress, error, skipped, blocked, Params, Run,
  RunStatus, running, paused, failed, cancelled, Value, text, number, null, flag, get_param,
  crawl_opponents, is_processing_kind, same_kind, same_state, state_code,
}
use chess_crawl.Queue.Write.{Session, setting_workspace, find_run}
use chess_crawl.Queue.Admission.{processing_ready, is_cancelled}
use chess_crawl.Queue.Result.{Result, ok, err, guard, ◌>>=◌, ◌>>◌, archive_provider}

abbrev pub status_code : RunStatus → ℕ
status_code running = 0
status_code paused = 1
status_code RunStatus.done = 2
status_code failed = 3
status_code cancelled = 4

abbrev same_counts : List (JobState × ℕ) → List (JobState × ℕ) → Bool
same_counts [] [] = true
same_counts ((s, m) ∷ xs) ((t, n) ∷ ys) = same_state s t && m == n && same_counts xs ys
same_counts _ _ = false

abbrev pub same_counters : Option Counters → Option Counters → Bool
same_counters none none = true
same_counters (some c) (some d) =
    c.jobs_total == d.jobs_total
    && c.users_seen == d.users_seen
    && c.edges == d.edges
    && same_counts c.by_state d.by_state
same_counters _ _ = false

-- set_run_revision on UPDATE.
unfoldable pub set_run_revision : Run → Run → Run
set_run_revision old new = record new {
  revision =
      if status_code new.status == status_code old.status
        && same_counters new.counters old.counters
        && same_value new.finished_at old.finished_at
      then old.revision
      else old.revision + 1;
}

-- A provider is missing only from runs of the archive's own work.
unfoldable pub internal_strategy : Params → Bool
internal_strategy p = elim (get_param "strategy" p) [
  | text s ↦ str_eq s "build_working_set" || str_eq s "prepare_export"
  | number _ ↦ false
  | flag _ ↦ false
  | null ↦ false
]

unfoldable pub provider_allowed : Option String → Params → Bool
unfolding internal_strategy
provider_allowed (some _) p = true
provider_allowed none p = internal_strategy p

unfoldable pub create_crawl_run :
    Session → Option String → String → Params → ℕ → Archive → Result (Archive × ℕ)
unfolding provider_allowed setting_workspace
create_crawl_run s provider seed_spec params now db = do
  guard (provider_allowed provider params) archive_provider
  let run : Run = record {
    id = db.next_run_id;
    provider = provider;
    seed_spec = seed_spec;
    params = params;
    status = running;
    counters = none;
    revision = 1;
    started_at = now;
    updated_at = now;
    finished_at = none;
    workspace_id = setting_workspace s;
    work_budget_id = none;
  }
  ok (record db { runs = db.runs ++ run ∷ []; next_run_id = db.next_run_id + 1 }, db.next_run_id)

-- UPDATE crawl_runs with its COALESCE and CASE expressions. An absent status is no test for
-- 'running' or 'paused'.
abbrev pub reopens : Option RunStatus → Bool
reopens (some running) = true
reopens (some paused) = true
reopens _ = false

unfoldable pub updated_run : Option RunStatus → Option Counters → Bool → ℕ → Run → Run
unfolding set_run_revision
updated_run status counters finished now r = set_run_revision r (record r {
  status = coalesce status r.status;
  counters = elim counters [ none ↦ r.counters | some c ↦ some c ];
  updated_at = now;
  finished_at =
      if finished
      then some (coalesce r.finished_at now)
      else if reopens status
      then none
      else r.finished_at;
})

unfoldable pub update_crawl_run :
    ℕ → Option RunStatus → Option Counters → Bool → ℕ → Archive → Archive
unfolding updated_run
update_crawl_run id status counters finished now db = record db {
  runs =
      map (λ (r : Run). if r.id == id then updated_run status counters finished now r else r)
        db.runs;
}

abbrev pub in_run : ℕ → Job → Bool
in_run run j = is_value j.crawl_run_id run

unfoldable pub total_jobs_for_run : Archive → ℕ → ℕ
total_jobs_for_run db run = count (in_run run) db.jobs

abbrev distinct : List Text → List Text
distinct [] = []
distinct (t ∷ ts) = let rest = distinct ts in if any (text_eq t) rest then rest else t ∷ rest

-- COUNT(DISTINCT lower(target))
unfoldable pub crawl_user_count : Archive → ℕ → ℕ
crawl_user_count db run = length (
    distinct (
      map (λ (j : Job). lower j.target)
        (select (λ (j : Job). in_run run j && same_kind j.kind crawl_opponents) db.jobs)))

unfoldable pub acquisition_job_count : Archive → ℕ → ℕ
acquisition_job_count db run =
    count (λ (j : Job). in_run run j && not (is_processing_kind j.kind)) db.jobs

unfoldable pub discovery_edge_count : Archive → ℕ → ℕ
discovery_edge_count db run = count (λ (e : ℕ × ℕ). e.0 == run) db.edges

unfoldable pub count_in_state : Archive → ℕ → JobState → ℕ
count_in_state db run state = count (λ (j : Job). in_run run j && same_state j.state state) db.jobs

-- GROUP BY state ORDER BY state COLLATE "C": the states that occur, in the order of their names.
abbrev occurring : List (JobState × ℕ) → List (JobState × ℕ)
occurring = select (λ (c : JobState × ℕ). ltb 0 c.1)

unfoldable pub job_state_counts : Archive → ℕ → List (JobState × ℕ)
unfolding count_in_state
job_state_counts db run = occurring (
    map (λ (s : JobState). (s, count_in_state db run s))
      (blocked ∷ JobState.done ∷ error ∷ in_progress ∷ pending ∷ skipped ∷ []))

-- counts.get(state, 0)
unfoldable pub get_count : JobState → List (JobState × ℕ) → ℕ
get_count state counts = elim (find (λ (c : JobState × ℕ). same_state c.0 state) counts) [
  | none ↦ 0
  | some c ↦ c.1
]

unfoldable pub run_counters : Archive → ℕ → Counters
unfolding total_jobs_for_run crawl_user_count discovery_edge_count job_state_counts
run_counters db run = record {
  jobs_total = total_jobs_for_run db run;
  users_seen = crawl_user_count db run;
  edges = discovery_edge_count db run;
  by_state = job_state_counts db run;
}

unfoldable pub ready_in_run : Archive → ℕ → Job → Bool
ready_in_run db run j = in_run run j && same_state j.state pending && processing_ready db j

-- The status that refresh_run_status derives from the jobs of a run.
unfoldable pub derived_status : Archive → ℕ → RunStatus
unfolding job_state_counts get_count ready_in_run
derived_status db run =
    let counts = job_state_counts db run in
    if ltb 0 (get_count pending counts) && any (ready_in_run db run) db.jobs
      || ltb 0 (get_count in_progress counts)
    then running
    else if ltb 0 (get_count blocked counts)
    then paused
    else if ltb 0 (get_count error counts)
    then failed
    else RunStatus.done

abbrev pub is_finished : RunStatus → Bool
is_finished failed = true
is_finished RunStatus.done = true
is_finished _ = false

unfoldable pub refresh_run_status : ℕ → ℕ → Archive → Archive
unfolding derived_status run_counters update_crawl_run
refresh_run_status run now db = elim (find_run run db.runs) [
  | none ↦ db
  | some r ↦
      if is_cancelled r.status
      then db
      else (let status : RunStatus = derived_status db run in
          update_crawl_run run (some status) (some (run_counters db run)) (is_finished status) now
            db)
]

-- refresh_crawl_runs: one run, or every run in the order of the ids.
abbrev refresh_each : List Run → ℕ → Archive → Archive
refresh_each [] now db = db
refresh_each (r ∷ rs) now db = refresh_each rs now (refresh_run_status r.id now db)

unfoldable pub refresh_crawl_runs : Option ℕ → ℕ → Archive → Archive
unfolding refresh_run_status
refresh_crawl_runs (some run) now db = refresh_run_status run now db
refresh_crawl_runs none now db = refresh_each db.runs now db
