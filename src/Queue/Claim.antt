-- ===== src/Queue/Claim.antt =====
-- claim_next_job and release_job_ownership of jobs/state.py. What other sessions hold while the call
-- runs is the environment: `locked` for advisory locks, `row_locked` for the rows that FOR UPDATE
-- SKIP LOCKED passes over. The token is uuid.uuid4().hex.
pub mod Soundness
pub mod Ownership
pub mod Progress
pub mod Cap
use chess_crawl.Prelude.{
  ℕ, zero, suc, ◌+◌, String, Bool, true, false, not, ◌||◌, ◌&&◌, Option, none, some, List, [], ◌∷◌,
  ◌++◌, ◌==◌, str_eq, same_text, ltb, if◌then◌else◌, any, find, select, take, length,
}
use chess_crawl.Queue.Model.{
  Archive, Job, JobState, LockKey, acquisition_provider, executor_job, in_progress,
  is_processing_kind,
}
use chess_crawl.Queue.Write.{Session, find_job, has_id, update_jobs}
use chess_crawl.Queue.Admission.{claim_admission}
use chess_crawl.Queue.Result.{QueueError, bad_stage}

pub record Environment : Type 0 where
  pub locked : LockKey → Bool
  pub row_locked : ℕ → Bool
  pub token : String

-- The keyword arguments of claim_next_job; `cap` is the policy's workspace_max_active_jobs.
pub record ClaimOptions : Type 0 where
  pub crawl_run_id : Option ℕ
  pub now : ℕ
  pub worker_id : Option String
  pub job_id : Option ℕ
  pub stage : String
  pub cap : ℕ
  pub respect_fairness : Bool

abbrev pub Excluded : Type 0
Excluded = List (Option String)

unfoldable pub is_excluded : Excluded → Option String → Bool
is_excluded excluded provider = any (same_text provider) excluded

-- `column IS NULL` filters: an absent argument selects every row.
abbrev pub selects : Option ℕ → Option ℕ → Bool
selects none column = true
selects (some n) none = false
selects (some n) (some m) = m == n

unfoldable pub stage_selects : String → Job → Bool
stage_selects stage j =
    str_eq stage "all"
    || (str_eq stage "processing" && is_processing_kind j.kind)
    || (str_eq stage "acquisition" && not (is_processing_kind j.kind))

-- NOT provider=ANY(excluded); a missing provider passes only an empty list.
unfoldable pub provider_selected : Excluded → Option String → Bool
unfolding is_excluded
provider_selected [] provider = true
provider_selected (x ∷ xs) none = false
provider_selected (x ∷ xs) (some p) = not (is_excluded (x ∷ xs) (some p))

unfoldable pub is_candidate : Environment → ClaimOptions → Archive → Excluded → Job → Bool
unfolding stage_selects provider_selected
is_candidate e o db excluded j =
    claim_admission o.now o.cap db j
    && selects o.crawl_run_id j.crawl_run_id
    && (o.respect_fairness || selects o.job_id (some j.id))
    && stage_selects o.stage j
    && (is_processing_kind j.kind || provider_selected excluded j.provider)
    && not (e.row_locked j.id)

-- The last turn in which the workspace claimed for the stage, 0 where there is none.
unfoldable pub claim_turn : Archive → String → String → ℕ
claim_turn db stage workspace =
    elim (find (λ (t : String × String × ℕ). str_eq t.0 workspace && str_eq t.1 stage) db.turns) [
      | none ↦ 0
      | some t ↦ t.2
    ]

-- ORDER BY turn, priority, depth, enqueued_at, id.
abbrev pub lexicographic : List (ℕ × ℕ) → Bool
lexicographic [] = false
lexicographic ((a, b) ∷ rest) = ltb a b || (a == b && lexicographic rest)

unfoldable pub comes_before : Archive → String → Job → Job → Bool
unfolding claim_turn
comes_before db stage j k = lexicographic (
    (claim_turn db stage j.workspace_id, claim_turn db stage k.workspace_id)
    ∷ (j.priority, k.priority)
    ∷ (j.depth, k.depth)
    ∷ (j.enqueued_at, k.enqueued_at)
    ∷ (j.id, k.id)
    ∷ [])

unfoldable pub insert_sorted : (Job → Job → Bool) → Job → List Job → List Job
insert_sorted before j [] = j ∷ []
insert_sorted before j (k ∷ ks) =
    let rest = insert_sorted before j ks in if before j k then j ∷ k ∷ ks else k ∷ rest

unfoldable pub sort_jobs : (Job → Job → Bool) → List Job → List Job
unfolding insert_sorted
sort_jobs before [] = []
sort_jobs before (j ∷ js) = insert_sorted before j (sort_jobs before js)

unfoldable pub candidates : Environment → ClaimOptions → Archive → Excluded → List Job
unfolding is_candidate comes_before sort_jobs
candidates e o db excluded =
    take 100 (sort_jobs (comes_before db o.stage) (select (is_candidate e o db excluded) db.jobs))

-- The row of a claimed job.
unfoldable pub start_attempt : Environment → ClaimOptions → Session → Job → Job
start_attempt e o s j = record j {
  state = in_progress;
  started_at = some o.now;
  attempts = j.attempts + 1;
  reason = none;
  done_at = none;
  next_attempt_at = none;
  owner_worker_id = o.worker_id;
  owner_backend_pid = elim o.worker_id [ none ↦ none | some _ ↦ some s.backend_pid ];
  ownership_token = elim o.worker_id [ none ↦ none | some _ ↦ some e.token ];
  ownership_generation = j.ownership_generation + 1;
}

abbrev without_turn : String → String → List (String × String × ℕ) → List (String × String × ℕ)
without_turn workspace stage =
    select (λ (t : String × String × ℕ). not (str_eq t.0 workspace && str_eq t.1 stage))

-- The upsert of workspace_claim_turns with nextval('workspace_claim_turn').
unfoldable pub take_turn : String → String → Archive → Archive
take_turn workspace stage db = record db {
  turns = (workspace, stage, db.next_turn) ∷ without_turn workspace stage db.turns;
  next_turn = db.next_turn + 1;
}

unfoldable pub claim_row : Environment → ClaimOptions → Session → Job → Archive → Archive
unfolding start_attempt take_turn
claim_row e o s c db =
    take_turn c.workspace_id o.stage (update_jobs (has_id c.id) (start_attempt e o s) db)

pub data Pass : Type 0 where
  claimed : Archive → Session → Option Job → Pass  -- with get_job of the row that was written
  declined : Pass  -- `return None` for fairness
  exhausted : Excluded → Pass  -- no candidate could be owned

-- The session after a claim.
unfoldable pub own_session : Environment → ClaimOptions → Session → Job → List LockKey → Session
own_session e o s c keys = elim o.worker_id [
  | none ↦ s
  | some _ ↦ record s { ownership_keys = keys; job_fence = some (c.id, e.token) }
]

-- Once the locks `keys` are held: the fairness test, the write and the session's ownership.
unfoldable pub take_candidate :
    Environment → ClaimOptions → Session → Archive → Job → List LockKey → Pass
unfolding claim_row own_session
take_candidate e o s db c keys =
    let db' : Archive = claim_row e o s c db in
    let result = claimed db' (own_session e o s c keys) (find_job c.id db'.jobs) in
    elim o.job_id [
      | none ↦ result
      | some wanted ↦ if o.respect_fairness && not (c.id == wanted) then declined else result
    ]

-- What one candidate of the loop leads to.
pub data Visit : Type 0 where
  skip : Visit  -- `continue`
  exclude : Visit  -- its provider is owned elsewhere
  take_with : List LockKey → Visit

unfoldable pub own_job_lock : Environment → Job → List LockKey → Visit
own_job_lock e c keys =
    if e.locked (executor_job c.id) then skip else take_with (keys ++ executor_job c.id ∷ [])

unfoldable pub visit : Environment → ClaimOptions → Excluded → Job → Visit
unfolding own_job_lock is_excluded
visit e o excluded c = elim o.worker_id [
  | none ↦ take_with []
  | some _ ↦
      if is_processing_kind c.kind
      then own_job_lock e c []
      else if is_excluded excluded c.provider
      then skip
      else if e.locked (acquisition_provider c.provider)
      then exclude
      else own_job_lock e c (acquisition_provider c.provider ∷ [])
]

-- `for candidate in candidates`.
unfoldable pub claim_pass :
    Environment → ClaimOptions → Session → Archive → Excluded → List Job → Pass
unfolding take_candidate visit
claim_pass e o s db excluded [] = exhausted excluded
claim_pass e o s db excluded (c ∷ cs) = elim (visit e o excluded c) [
  | skip ↦ claim_pass e o s db excluded cs
  | exclude ↦ claim_pass e o s db (excluded ++ c.provider ∷ []) cs
  | take_with keys ↦ take_candidate e o s db c keys
]

pub data Claim : Type 0 where
  job_claimed : Archive → Session → Option Job → Claim
  nothing : Claim
  failed : QueueError → Claim
  out_of_fuel : Claim

abbrev pub is_empty {ℓ} : {A : Type ℓ} → List A → Bool
is_empty [] = true
is_empty (_ ∷ _) = false

-- The end of a round: another one only if a provider was excluded in this one.
unfoldable pub next_round : (Excluded → Claim) → Excluded → Pass → Claim
next_round again excluded (claimed db' s' j) = job_claimed db' s' j
next_round again excluded declined = nothing
next_round again excluded (exhausted excluded') =
    if length excluded' == length excluded then nothing else again excluded'

-- `while True`.
unfoldable pub claim_loop : ℕ → Environment → ClaimOptions → Session → Archive → Excluded → Claim
unfolding candidates claim_pass next_round
claim_loop zero e o s db excluded = out_of_fuel
claim_loop (suc fuel) e o s db excluded =
    let window : List Job = candidates e o db excluded in
    let rest : Claim =
      next_round (λ x. claim_loop fuel e o s db x) excluded (claim_pass e o s db excluded window) in
    if is_empty window then nothing else rest

abbrev pub known_stage : String → Bool
known_stage stage = str_eq stage "all" || str_eq stage "acquisition" || str_eq stage "processing"

-- One round for each provider that can be excluded, and a last one.
unfoldable pub claim_next_job : Environment → ClaimOptions → Session → Archive → Claim
unfolding claim_loop
claim_next_job e o s db =
    if known_stage o.stage then claim_loop (length db.jobs + 1) e o s db [] else failed bad_stage

-- release_job_ownership, with the locks that it releases.
unfoldable pub release_job_ownership : Session → Session × List LockKey
release_job_ownership s = (record s { job_fence = none; ownership_keys = [] }, s.ownership_keys)
