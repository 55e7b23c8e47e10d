-- ===== src/Queue/Model.antt =====
-- jobs/models.py and the tables of the job queue (storage/schema.sql and its migrations): the rows
-- of discovery_jobs, crawl_runs, provider_cooldowns and dispatch_outbox, and the archive they are in.
use chess_crawl.Prelude.{
  ℕ, ◌≡◌, String, Text, Bool, true, false, ◌&&◌, Option, none, some, List, [], ◌∷◌, arith, ◌==◌,
  str_eq, if◌then◌else◌,
}

pub data JobState : Type 0 where
  pending in_progress done error skipped blocked : JobState

pub data JobKind : Type 0 where
  fetch_user_profile fetch_user_stats fetch_user_games fetch_game_by_id : JobKind
  crawl_opponents fetch_user_resource normalize_payload reprocess_archive : JobKind
  expand_opponents build_working_set prepare_export : JobKind

abbrev pub state_code : JobState → ℕ
state_code pending = 0
state_code in_progress = 1
state_code done = 2
state_code error = 3
state_code skipped = 4
state_code blocked = 5

abbrev pub same_state : JobState → JobState → Bool
same_state s t = state_code s == state_code t

pub same_state_iff : (s t : JobState) → same_state s t ≡ true → s ≡ t
same_state_iff pending t h = ground arith
same_state_iff in_progress t h = ground arith
same_state_iff done t h = ground arith
same_state_iff error t h = ground arith
same_state_iff skipped t h = ground arith
same_state_iff blocked t h = ground arith

abbrev pub kind_code : JobKind → ℕ
kind_code fetch_user_profile = 0
kind_code fetch_user_stats = 1
kind_code fetch_user_games = 2
kind_code fetch_game_by_id = 3
kind_code crawl_opponents = 4
kind_code fetch_user_resource = 5
kind_code normalize_payload = 6
kind_code reprocess_archive = 7
kind_code expand_opponents = 8
kind_code build_working_set = 9
kind_code prepare_export = 10

abbrev pub same_kind : JobKind → JobKind → Bool
same_kind s t = kind_code s == kind_code t

-- `kind in JOB_KINDS`, with the member that the text names.
unfoldable pub parse_kind : String → Option JobKind
parse_kind k =
    if str_eq k "fetch_user_profile"
    then some fetch_user_profile
    else if str_eq k "fetch_user_stats"
    then some fetch_user_stats
    else if str_eq k "fetch_user_games"
    then some fetch_user_games
    else if str_eq k "fetch_game_by_id"
    then some fetch_game_by_id
    else if str_eq k "crawl_opponents"
    then some crawl_opponents
    else if str_eq k "fetch_user_resource"
    then some fetch_user_resource
    else if str_eq k "normalize_payload"
    then some normalize_payload
    else if str_eq k "reprocess_archive"
    then some reprocess_archive
    else if str_eq k "expand_opponents"
    then some expand_opponents
    else if str_eq k "build_working_set"
    then some build_working_set
    else if str_eq k "prepare_export"
    then some prepare_export
    else none

-- ARCHIVE_JOB_KINDS
unfoldable pub is_archive_kind : JobKind → Bool
is_archive_kind build_working_set = true
is_archive_kind prepare_export = true
is_archive_kind _ = false

-- PROCESSING_JOB_KINDS
unfoldable pub is_processing_kind : JobKind → Bool
is_processing_kind normalize_payload = true
is_processing_kind reprocess_archive = true
is_processing_kind expand_opponents = true
is_processing_kind build_working_set = true
is_processing_kind prepare_export = true
is_processing_kind _ = false

-- LIVE_STATES; the other three are TERMINAL_STATES.
unfoldable pub is_live : JobState → Bool
is_live pending = true
is_live in_progress = true
is_live blocked = true
is_live _ = false

unfoldable pub is_terminal : JobState → Bool
is_terminal done = true
is_terminal error = true
is_terminal skipped = true
is_terminal _ = false

-- A JSON object of parameters, with the scalar values that the program stores in it.
pub data Value : Type 0 where
  null : Value
  number : ℕ → Value
  text : String → Value
  flag : Bool → Value

abbrev pub Params : Type 0
Params = List (String × Value)

abbrev pub get_param : String → Params → Value
get_param key [] = null
get_param key ((k, v) ∷ rest) = let later = get_param key rest in if str_eq k key then v else later

abbrev pub same_value_json : Value → Value → Bool
same_value_json null null = true
same_value_json (number m) (number n) = m == n
same_value_json (text s) (text t) = str_eq s t
same_value_json (flag true) (flag true) = true
same_value_json (flag false) (flag false) = true
same_value_json _ _ = false

abbrev pub same_params : Params → Params → Bool
same_params [] [] = true
same_params ((k, v) ∷ p) ((l, w) ∷ q) = str_eq k l && same_value_json v w && same_params p q
same_params _ _ = false

-- A row of discovery_jobs.
pub record Job : Type 0 where
  pub id : ℕ
  pub provider : Option String
  pub kind : JobKind
  pub target : Text
  pub params : Params
  pub state : JobState
  pub priority : ℕ
  pub depth : ℕ
  pub dedup_key : String
  pub crawl_run_id : Option ℕ
  pub parent_job_id : Option ℕ
  pub attempts : ℕ
  pub enqueued_at : ℕ
  pub started_at : Option ℕ
  pub done_at : Option ℕ
  pub reason : Option String
  pub retry_count : ℕ
  pub next_attempt_at : Option ℕ
  pub revision : ℕ
  pub ownership_token : Option String
  pub owner_worker_id : Option String
  pub owner_backend_pid : Option ℕ
  pub ownership_generation : ℕ
  pub workspace_id : String
  pub work_budget_id : Option ℕ

pub data RunStatus : Type 0 where
  running paused done failed cancelled : RunStatus

-- The JSON object of run_counters: `jobs_<state>` stands only for the states that occur.
pub record Counters : Type 0 where
  pub jobs_total : ℕ
  pub users_seen : ℕ
  pub edges : ℕ
  pub by_state : List (JobState × ℕ)

-- A row of crawl_runs.
pub record Run : Type 0 where
  pub id : ℕ
  pub provider : Option String
  pub seed_spec : String
  pub params : Params
  pub status : RunStatus
  pub counters : Option Counters  -- none is the initial '{}'
  pub revision : ℕ
  pub started_at : ℕ
  pub updated_at : ℕ
  pub finished_at : Option ℕ
  pub workspace_id : String
  pub work_budget_id : Option ℕ

-- A row of provider_cooldowns.
pub record Cooldown : Type 0 where
  pub provider : String
  pub not_before : ℕ
  pub reason : String
  pub updated_at : ℕ

-- A row of dispatch_outbox.
pub record Dispatch : Type 0 where
  pub id : ℕ
  pub job_id : ℕ
  pub job_revision : ℕ
  pub attempts : ℕ
  pub available_at : ℕ
  pub delivered_at : Option ℕ
  pub superseded_at : Option ℕ
  pub last_error : Option String

pub record Outbox : Type 0 where
  pub rows : List Dispatch
  pub next_id : ℕ

-- The archive as the job queue sees it. `clock` is the server's clock_timestamp().
pub record Archive : Type 0 where
  pub jobs : List Job
  pub next_job_id : ℕ
  pub runs : List Run
  pub next_run_id : ℕ
  pub cooldowns : List Cooldown
  pub outbox : Outbox
  pub edges : List (ℕ × ℕ)  -- run_edges: a run and a discovery edge
  pub active_caps : List (String × ℕ)  -- workspace_budget_policies: workspace_max_active_jobs
  pub turns : List (String × String × ℕ)  -- workspace_claim_turns: workspace, stage, turn
  pub next_turn : ℕ
  pub clock : ℕ

-- The advisory locks that own work: lock_key("acquisition-provider", …) and
-- lock_key("executor-job", …). Two names have two keys.
pub data LockKey : Type 0 where
  acquisition_provider : Option String → LockKey
  executor_job : ℕ → LockKey
