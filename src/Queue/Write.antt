-- ===== src/Queue/Write.antt =====
-- Writes to discovery_jobs with the row triggers of 0004_events.sql, 0010_api_worksets.sql,
-- 0012_work_budgets.sql and 0015_dispatch_retention.sql, and the constraints that an INSERT meets.
-- A write is one statement: every row that its condition selects is replaced, oldest first.
pub mod Inversion
use chess_crawl.Prelude.{
  ℕ, ◌+◌, String, Bool, true, false, not, ◌||◌, ◌&&◌, Option, none, some, List, [], ◌∷◌, ◌++◌, map,
  ◌==◌, str_eq, if◌then◌else◌, same_value, same_text, coalesce, any, find,
}
use mathlib.Core.Option
use chess_crawl.Queue.Model.{
  Archive, Dispatch, Job, JobState, LockKey, pending, in_progress, Outbox, Run, blocked,
  is_archive_kind, same_params, same_state,
}

-- The ROW comparison of set_job_revision.
unfoldable pub tracked_same : Job → Job → Bool
tracked_same old new =
    same_state new.state old.state
    && same_params new.params old.params
    && new.attempts == old.attempts
    && new.retry_count == old.retry_count
    && same_value new.next_attempt_at old.next_attempt_at
    && same_text new.reason old.reason
    && same_value new.started_at old.started_at
    && same_value new.done_at old.done_at

-- set_job_revision on UPDATE.
unfoldable pub set_job_revision : Job → Job → Job
set_job_revision old new = record new {
  revision = if tracked_same old new then old.revision else old.revision + 1;
}

-- SCHEDULABLE_STATE_SQL, which is also the trigger's test for a hint.
unfoldable pub schedulable_state : JobState → Option ℕ → Bool
schedulable_state pending _ = true
schedulable_state blocked (some _) = true
schedulable_state _ _ = false

abbrev pub schedulable : Job → Bool
schedulable j = schedulable_state j.state j.next_attempt_at

-- A hint that is neither delivered nor superseded.
unfoldable pub is_open : Dispatch → Bool
is_open d = elim d.delivered_at [
  | none ↦ elim d.superseded_at [ none ↦ true | some _ ↦ false ]
  | some _ ↦ false
]

unfoldable pub names_revision : ℕ → ℕ → Dispatch → Bool
names_revision job_id revision d = d.job_id == job_id && d.job_revision == revision

unfoldable pub supersede_row : ℕ → ℕ → ℕ → Dispatch → Dispatch
unfolding names_revision is_open
supersede_row clock job_id revision d =
    if names_revision job_id revision d && is_open d
    then record d { superseded_at = some clock }
    else d

unfoldable pub supersede : ℕ → ℕ → ℕ → Outbox → Outbox
unfolding supersede_row
supersede clock job_id revision o = record o {
  rows = map (supersede_row clock job_id revision) o.rows;
}

abbrev pub hint : Job → ℕ → Dispatch
hint j id = record {
  id = id;
  job_id = j.id;
  job_revision = j.revision;
  attempts = 0;
  available_at = coalesce j.next_attempt_at 0;
  delivered_at = none;
  superseded_at = none;
  last_error = none;
}

-- INSERT … ON CONFLICT DO NOTHING on UNIQUE(job_id,job_revision); the sequence moves either way.
unfoldable pub publish : Job → Outbox → Outbox
unfolding names_revision schedulable_state
publish j o =
    if schedulable j
    then record {
      rows =
          if any (names_revision j.id j.revision) o.rows
          then o.rows
          else o.rows ++ hint j o.next_id ∷ [];
      next_id = o.next_id + 1;
    }
    else o

-- record_dispatch_event on UPDATE.
unfoldable pub record_dispatch_event : ℕ → Job → Job → Outbox → Outbox
unfolding publish supersede
record_dispatch_event clock old new o =
    if new.revision == old.revision then o else publish new (supersede clock old.id old.revision o)

-- UPDATE discovery_jobs SET … WHERE p, on the table and on the outbox.
unfoldable pub update_row : (Job → Bool) → (Job → Job) → Job → Job
unfolding set_job_revision
update_row p f j = if p j then set_job_revision j (f j) else j

unfoldable pub row_hint : ℕ → (Job → Bool) → (Job → Job) → Job → Outbox → Outbox
unfolding record_dispatch_event set_job_revision
row_hint clock p f j o =
    if p j then record_dispatch_event clock j (set_job_revision j (f j)) o else o

unfoldable pub update_hints : ℕ → (Job → Bool) → (Job → Job) → List Job → Outbox → Outbox
unfolding row_hint
update_hints clock p f [] o = o
update_hints clock p f (j ∷ js) o = update_hints clock p f js (row_hint clock p f j o)

unfoldable pub update_jobs : (Job → Bool) → (Job → Job) → Archive → Archive
unfolding update_row update_hints
update_jobs p f db = record db {
  jobs = map (update_row p f) db.jobs;
  outbox = update_hints db.clock p f db.jobs db.outbox;
}

abbrev pub has_id : ℕ → Job → Bool
has_id id j = j.id == id

abbrev pub find_job : ℕ → List Job → Option Job
find_job id = find (has_id id)

abbrev pub find_run : ℕ → List Run → Option Run
find_run id = find (λ r. r.id == id)

-- The session that runs a statement: the settings and the private fields of storage/db.py's
-- Connection that the queue reads. `workspace` is the setting chess_crawl.workspace_id.
pub record Session : Type 0 where
  pub backend_pid : ℕ
  pub workspace : String
  pub work_budget_id : Option ℕ
  pub job_fence : Option (ℕ × String)
  pub ownership_keys : List LockKey

unfoldable pub setting_workspace : Session → String
setting_workspace s = if str_eq s.workspace "" then "local" else s.workspace

-- own_job and inherit_work_budget: the owners of a new row, or nothing where the run or the parent
-- that it names is missing, which the foreign keys refuse.
unfoldable pub own_job : Session → Archive → Job → Option Job
unfolding setting_workspace
own_job s db j = elim j.crawl_run_id [
  | some run ↦ elim (find_run run db.runs) [
    | none ↦ none
    | some r ↦ some (record j { workspace_id = r.workspace_id; work_budget_id = r.work_budget_id })
  ]
  | none ↦ elim j.parent_job_id [
    | some parent ↦ elim (find_job parent db.jobs) [
      | none ↦ none
      | some p ↦
          some (record j { workspace_id = p.workspace_id; work_budget_id = p.work_budget_id })
    ]
    | none ↦ some (record j { workspace_id = setting_workspace s; work_budget_id = none })
  ]
]

-- FOREIGN KEY(parent_job_id).
abbrev pub parent_exists : Archive → Job → Bool
parent_exists db j = elim j.parent_job_id [
  | none ↦ true
  | some parent ↦ any (has_id parent) db.jobs
]

-- ux_jobs_dedup_live.
unfoldable pub dedup_conflict : Job → Job → Bool
dedup_conflict new j =
    str_eq j.dedup_key new.dedup_key
    && (same_state j.state pending || same_state j.state in_progress)

-- CHECK service_job_provider.
unfoldable pub service_job_provider : Job → Bool
service_job_provider j = elim j.provider [
  | none ↦ is_archive_kind j.kind
  | some _ ↦ not (is_archive_kind j.kind)
]

unfoldable pub inserted : Job → Archive → Archive
unfolding publish
inserted j db = record db {
  jobs = db.jobs ++ j ∷ [];
  next_job_id = db.next_job_id + 1;
  outbox = publish j db.outbox;
}

-- The constraints on a row whose owners are known.
unfoldable pub check_row : Archive → Option Job → Option Job
unfolding dedup_conflict service_job_provider
check_row db none = none
check_row db (some j) =
    if parent_exists db j && service_job_provider j && not (any (dedup_conflict j) db.jobs)
    then some j
    else none

-- INSERT INTO discovery_jobs … RETURNING id; nothing where a constraint refuses the row.
unfoldable pub insert_job : Session → Job → Archive → Option (Archive × ℕ)
unfolding own_job check_row inserted
insert_job s row db =
    Option.map (λ j. (inserted j db, db.next_job_id))
      (check_row db (own_job s db (record row { id = db.next_job_id; revision = 1 })))
