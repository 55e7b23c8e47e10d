-- ===== src/Queue/Attempts.antt =====
-- The life of an attempt in jobs/state.py: mark_job and its four names, update_job_params,
-- checkpoint_job, finish_attempt with its retry policy and provider cooldowns, unblock_jobs and the
-- recovery of orphaned jobs. Times are whole seconds.
pub mod Retry
use Prim.Native.String.{◌++◌ as join}
use mathlib.Core.List.{foldl}
use chess_crawl.Prelude.{
  ℕ, zero, suc, ◌+◌, ◌-◌, ◌*◌, ◌^◌, ◌≤◌, min, max, String, Bool, true, false, not, ◌||◌, ◌&&◌,
  Option, none, some, List, [], ◌∷◌, ◌++◌, map, ◌==◌, leb, ltb, str_eq, same_text, if◌then◌else◌,
  coalesce, any, count, select,
}
use chess_crawl.Queue.Model.{
  Archive, Cooldown, Job, JobState, LockKey, acquisition_provider, executor_job, Params, number,
  Value, pending, in_progress, error, skipped, blocked, crawl_opponents, is_processing_kind,
  is_terminal, same_kind, same_state,
}
use chess_crawl.Queue.Write.{Session, find_job, has_id, update_jobs}
use chess_crawl.Queue.Admission.{run_allows_work}
use chess_crawl.Queue.Claim.{selects}
use chess_crawl.Queue.Runs.{refresh_run_status}
use chess_crawl.Queue.Depth.{known_crawl_depth}
use chess_crawl.Queue.Result.{Result, ok, err, job_not_found, no_provider}

-- The row that mark_job writes.
unfoldable pub marked : JobState → Option String → ℕ → Job → Job
marked state reason now j = record j {
  state = state;
  done_at = if is_terminal state then some now else none;
  next_attempt_at = none;
  reason = reason;
  enqueued_at = if same_state state pending then max j.enqueued_at now else j.enqueued_at;
}

unfoldable pub mark_job : ℕ → JobState → Option String → ℕ → Archive → Archive
unfolding marked
mark_job id state reason now = update_jobs (has_id id) (marked state reason now)

unfoldable pub mark_done : ℕ → Option String → ℕ → Archive → Archive
unfolding mark_job
mark_done id reason now = mark_job id JobState.done reason now

unfoldable pub mark_error : ℕ → String → ℕ → Archive → Archive
unfolding mark_job
mark_error id reason now = mark_job id error (some reason) now

unfoldable pub mark_skipped : ℕ → String → ℕ → Archive → Archive
unfolding mark_job
mark_skipped id reason now = mark_job id skipped (some reason) now

unfoldable pub mark_blocked : ℕ → String → ℕ → Archive → Archive
unfolding mark_job
mark_blocked id reason now = mark_job id blocked (some reason) now

unfoldable pub update_job_params : ℕ → Params → Archive → Archive
update_job_params id params = update_jobs (has_id id) (λ j. record j { params = params })

-- {**params, key: value}: the key keeps its place, a new one comes last.
unfoldable pub set_param : String → Value → Params → Params
set_param key value [] = (key, value) ∷ []
set_param key value ((k, v) ∷ rest) =
    let later = (k, v) ∷ set_param key value rest in
    if str_eq k key then (k, value) ∷ rest else later

-- A completed unit is persisted; a failed one stays resumable.
unfoldable pub checkpoint_job : ℕ → Params → ℕ → ℕ → Archive → Archive × Bool
unfolding update_job_params set_param
checkpoint_job id params cursor_index status_code db =
    if status_code == 200 || status_code == 304
    then (update_job_params id (set_param "cursor_index" (number cursor_index) params) db, true)
    else (db, false)

-- The fields of WorkerSettings that a retry reads.
pub record RetryPolicy : Type 0 where
  pub job_max_retries : ℕ
  pub job_retry_base_s : ℕ
  pub job_retry_max_s : ℕ

unfoldable pub retry_delay : RetryPolicy → ℕ → ℕ → Option ℕ → ℕ
retry_delay policy retries minimum_delay retry_after =
    max
      (max (min policy.job_retry_max_s (policy.job_retry_base_s * 2 ^ min retries 30))
        minimum_delay)
      (coalesce retry_after 0)

-- INSERT … ON CONFLICT(provider) DO UPDATE: the later deadline stays.
unfoldable pub later_deadline : String → ℕ → String → ℕ → List Cooldown → List Cooldown
later_deadline provider not_before reason now [] =
    record { provider = provider; not_before = not_before; reason = reason; updated_at = now } ∷ []
later_deadline provider not_before reason now (c ∷ cs) =
    let rest = c ∷ later_deadline provider not_before reason now cs in
    if str_eq c.provider provider
    then record c { not_before = max c.not_before not_before; reason = reason; updated_at = now }
      ∷ cs
    else rest

unfoldable pub defer_provider : String → ℕ → String → ℕ → Archive → Archive
unfolding later_deadline
defer_provider provider not_before reason now db = record db {
  cooldowns = later_deadline provider not_before reason now db.cooldowns;
}

unfoldable pub provider_ready_at : List Cooldown → String → Option ℕ
provider_ready_at [] provider = none
provider_ready_at (c ∷ cs) provider =
    if str_eq c.provider provider then some c.not_before else provider_ready_at cs provider

-- A transient failure of an acquisition defers its provider also when no retry is left.
unfoldable pub defer_acquisition : Job → ℕ → String → ℕ → Archive → Archive
unfolding defer_provider
defer_acquisition row not_before reason now db = elim row.provider [
  | none ↦ db
  | some provider ↦
      if is_processing_kind row.kind then db else defer_provider provider not_before reason now db
]

unfoldable pub retried : String → ℕ → Job → Job
retried reason at j = record j {
  state = blocked;
  done_at = none;
  reason = some reason;
  retry_count = j.retry_count + 1;
  next_attempt_at = some at;
}

-- The keyword arguments of finish_attempt.
pub record Finish : Type 0 where
  pub outcome : JobState
  pub reason : String
  pub transient : Bool
  pub retry_after : Option ℕ
  pub minimum_delay : ℕ
  pub now : ℕ

abbrev pub delay_of : RetryPolicy → Finish → Job → ℕ
delay_of policy f row = retry_delay policy row.retry_count f.minimum_delay f.retry_after

-- The write of the attempt's own row, and the state that is returned.
unfoldable pub settle_attempt : RetryPolicy → Finish → Job → Archive → Archive × JobState
unfolding retry_delay defer_acquisition retried mark_job
settle_attempt policy f row db =
    let at = f.now + delay_of policy f row in
    let deferred = defer_acquisition row at f.reason f.now db in
    if not f.transient
    then (mark_job row.id f.outcome (some f.reason) f.now db, f.outcome)
    else if ltb row.retry_count policy.job_max_retries
    then (update_jobs (has_id row.id) (retried f.reason at) deferred, blocked)
    else (
      mark_job row.id error (some (join "Retry limit reached: " f.reason)) f.now deferred,
      error,
    )

unfoldable pub lowered : ℕ → Job → Job
lowered depth j = record j { depth = min j.depth depth; priority = min j.priority (10 + depth) }

-- A crawl job takes over the depth that its expansions were promoted to.
unfoldable pub adopt_depth : ℕ → Job → Archive → Archive
unfolding known_crawl_depth lowered
adopt_depth run parent db = elim parent.provider [
  | none ↦ db
  | some provider ↦ elim (known_crawl_depth db run provider parent.target) [
    | none ↦ db
    | some depth ↦ update_jobs (has_id parent.id) (lowered depth) db
  ]
]

unfoldable pub publish_run : Job → ℕ → Archive → Archive
unfolding adopt_depth refresh_run_status
publish_run row now db = elim row.crawl_run_id [
  | none ↦ db
  | some run ↦
      let adopted : Archive = elim (find_job row.id db.jobs) [
        | none ↦ db
        | some parent ↦ adopt_depth run parent db
      ] in
      refresh_run_status run now (if same_kind row.kind crawl_opponents then adopted else db)
]

unfoldable pub finish_attempt : RetryPolicy → ℕ → Finish → Archive → Result (Archive × JobState)
unfolding settle_attempt publish_run
finish_attempt policy id f db = elim (find_job id db.jobs) [
  | none ↦ err job_not_found
  | some row ↦
      let (settled, result) = settle_attempt policy f row db in
      ok (publish_run row f.now settled, result)
]

-- unblock_jobs: its condition and its write; the count is the number of rows.
unfoldable pub unblockable : Option ℕ → ℕ → Archive → Job → Bool
unblockable run now db j =
    same_state j.state blocked
    && elim j.next_attempt_at [ none ↦ true | some at ↦ leb at now ]
    && selects run j.crawl_run_id
    && run_allows_work db j

unfoldable pub unblocked : Job → Job
unblocked j = record j {
  state = pending;
  started_at = none;
  done_at = none;
  reason = some (coalesce j.reason "unblocked by jobs resume");
}

unfoldable pub unblock_jobs : Option ℕ → ℕ → Archive → Archive × ℕ
unfolding unblockable unblocked
unblock_jobs run now db =
    (update_jobs (unblockable run now db) unblocked db, count (unblockable run now db) db.jobs)

-- started_at IS NULL OR started_at<=now-stale_seconds, or no limit at all.
unfoldable pub is_stale : ℕ → ℕ → Job → Bool
is_stale stale now j =
    stale == 0 || elim j.started_at [ none ↦ true | some at ↦ leb (at + stale) now ]

unfoldable pub resumable : Option ℕ → ℕ → ℕ → Archive → (ℕ → Bool) → Job → Bool
unfolding is_stale
resumable run stale now db row_locked j =
    same_state j.state in_progress
    && selects run j.crawl_run_id
    && run_allows_work db j
    && is_stale stale now j
    && not (row_locked j.id)

abbrev pub same_key : LockKey → LockKey → Bool
same_key (executor_job m) (executor_job n) = m == n
same_key (acquisition_provider p) (acquisition_provider q) = same_text p q
same_key _ _ = false

-- The job that the session itself executes.
unfoldable pub executes : Session → Job → Bool
executes s j =
    elim s.job_fence [
      | none ↦ false
      | some (id, token) ↦ id == j.id && same_text j.ownership_token (some token)
    ]
    && any (same_key (executor_job j.id)) s.ownership_keys

unfoldable pub resumed : Job → Job
resumed j = record j {
  state = pending;
  started_at = none;
  done_at = none;
  ownership_token = none;
  owner_worker_id = none;
  owner_backend_pid = none;
  reason = some (coalesce j.reason "resumed orphaned job");
}

-- A row is resumed only by a session that gets the job's lock, which no living owner holds.
unfoldable pub is_orphan : Session → (LockKey → Bool) → Job → Bool
unfolding executes
is_orphan s locked j = not (executes s j) && not (locked (executor_job j.id))

abbrev pub resume_each : List Job → Archive → ℕ → Archive × ℕ
resume_each [] db n = (db, n)
resume_each (j ∷ js) db n = resume_each js (update_jobs (has_id j.id) resumed db) (n + 1)

-- _resume_stale_in_progress; the environment is that of Claim.
unfoldable pub resume_stale_in_progress :
    Session → (LockKey → Bool) → (ℕ → Bool) → Option ℕ → ℕ → ℕ → Archive → Archive × ℕ
unfolding resumable is_orphan resumed
resume_stale_in_progress s locked row_locked run stale now db =
    resume_each
      (select (λ j. resumable run stale now db row_locked j && is_orphan s locked j) db.jobs) db 0
