-- ===== src/Queue/Enqueue.antt =====
-- enqueue_job of jobs/state.py, its deduplication keys and the two internal producers. The SHA-256
-- of the canonical JSON payload is the parameter `digest`; `room` is the backlog check of the work
-- budgets. Rows stand in the order of their ids, so that `find` is ORDER BY id LIMIT 1.
use chess_crawl.Prelude.{
  ℕ, String, Text, Bool, true, false, not, xor, ◌||◌, ◌&&◌, Option, none, some, [], ◌∷◌, str_eq,
  if◌then◌else◌, is_text, find, strip, lower, decimal,
}
use chess_crawl.Queue.Model.{
  Archive, Job, JobKind, Params, Value, number, text, null, pending, parse_kind, is_archive_kind,
  is_live, same_kind, fetch_user_stats, fetch_game_by_id,
}
use chess_crawl.Queue.Write.{Session, find_run, find_job, insert_job}
use chess_crawl.Queue.Result.{
  Result, ok, err, ◌>>=◌, ◌>>◌, guard, unsupported_kind, archive_provider, stats_provider,
  game_provider, queued_jobs, integrity,
}

pub record DedupPayload : Type 0 where
  pub provider : Option String
  pub kind : String
  pub target : Text
  pub params : Params
  pub crawl_run_id : Option ℕ

abbrev pub Digest : Type 0
Digest = DedupPayload → String

abbrev pub Backlog : Type 0
Backlog = ℕ → Archive → Bool

-- The kinds whose target is a username.
unfoldable pub names_user : String → Bool
names_user kind =
    str_eq kind "fetch_user_profile"
    || str_eq kind "fetch_user_stats"
    || str_eq kind "fetch_user_games"
    || str_eq kind "crawl_opponents"

unfoldable pub normalize_target : String → Text → Text
unfolding names_user
normalize_target kind target = if names_user kind then lower (strip target) else strip target

unfoldable pub make_dedup_key : Digest → Option String → String → Text → Params → Option ℕ → String
unfolding normalize_target
make_dedup_key digest provider kind target params run = digest (record {
  provider = provider;
  kind = kind;
  target = normalize_target kind target;
  params = params;
  crawl_run_id = run;
})

abbrev pub is_none {ℓ} : {A : Type ℓ} → Option A → Bool
is_none none = true
is_none (some _) = false

-- _validate_schedulable_job
unfoldable pub validate_schedulable_job : Option String → String → Result JobKind
validate_schedulable_job provider kind = elim (parse_kind kind) [
  | none ↦ err unsupported_kind
  | some k ↦ do
    guard (not (xor (is_archive_kind k) (is_none provider))) archive_provider
    guard (not (same_kind k fetch_user_stats) || is_text provider "chess.com") stats_provider
    guard (not (same_kind k fetch_game_by_id) || is_text provider "lichess") game_provider
    ok k
]

-- The keyword arguments of enqueue_job.
pub record Request : Type 0 where
  pub provider : Option String
  pub kind : String
  pub target : Text
  pub params : Params
  pub crawl_run_id : Option ℕ
  pub parent_job_id : Option ℕ
  pub depth : ℕ
  pub priority : ℕ
  pub now : ℕ
  pub dedup_key : Option String
  pub reuse_terminal : Bool

pub record EnqueueResult : Type 0 where
  pub job_id : ℕ
  pub inserted : Bool

-- `dedup_key or make_dedup_key(…)`
unfoldable pub request_key : Digest → Request → String
unfolding make_dedup_key
request_key digest r =
    let made = make_dedup_key digest r.provider r.kind r.target r.params r.crawl_run_id in
    elim r.dedup_key [ none ↦ made | some k ↦ if str_eq k "" then made else k ]

unfoldable pub matches_key : String → Bool → Job → Bool
matches_key dedup reuse j = str_eq j.dedup_key dedup && (reuse || is_live j.state)

unfoldable pub inherited_budget : Session → Archive → Request → Option ℕ
inherited_budget s db r = elim r.crawl_run_id [
  | some run ↦ elim (find_run run db.runs) [ none ↦ none | some owner ↦ owner.work_budget_id ]
  | none ↦ elim r.parent_job_id [
    | some parent ↦ elim (find_job parent db.jobs) [
      | none ↦ none
      | some owner ↦ owner.work_budget_id
    ]
    | none ↦ s.work_budget_id
  ]
]

unfoldable pub has_backlog_room : Backlog → Option ℕ → Archive → Bool
has_backlog_room room none db = true
has_backlog_room room (some budget) db = room budget db

-- The row that is inserted. Its id, revision, workspace and budget are the triggers'.
unfoldable pub new_job : Request → JobKind → String → Job
new_job r kind dedup = record {
  id = 0;
  provider = r.provider;
  kind = kind;
  target = strip r.target;
  params = r.params;
  state = pending;
  priority = r.priority;
  depth = r.depth;
  dedup_key = dedup;
  crawl_run_id = r.crawl_run_id;
  parent_job_id = r.parent_job_id;
  attempts = 0;
  enqueued_at = r.now;
  started_at = none;
  done_at = none;
  reason = none;
  retry_count = 0;
  next_attempt_at = none;
  revision = 0;
  ownership_token = none;
  owner_worker_id = none;
  owner_backend_pid = none;
  ownership_generation = 0;
  workspace_id = "local";
  work_budget_id = none;
}

abbrev pub insert_result : Option (Archive × ℕ) → Result (Archive × EnqueueResult)
insert_result none = err integrity
insert_result (some (db, id)) = ok (db, record { job_id = id; inserted = true })

-- After the search for a job with the same key.
unfoldable pub enqueue_new :
    Backlog
    → Session
    → Archive
    → Request
    → JobKind
    → String
    → Option Job
    → Result (Archive × EnqueueResult)
unfolding inherited_budget has_backlog_room new_job
enqueue_new room s db r kind dedup (some existing) =
    ok (db, record { job_id = existing.id; inserted = false })
enqueue_new room s db r kind dedup none = do
  guard (has_backlog_room room (inherited_budget s db r) db) queued_jobs
  insert_result (insert_job s (new_job r kind dedup) db)

unfoldable pub enqueue_job :
    Digest → Backlog → Session → Request → Archive → Result (Archive × EnqueueResult)
unfolding validate_schedulable_job request_key matches_key enqueue_new
enqueue_job digest room s r db = do
  kind ← validate_schedulable_job r.provider r.kind
  let dedup = request_key digest r
  enqueue_new room s db r kind dedup (find (matches_key dedup r.reuse_terminal) db.jobs)

-- enqueue_payload_normalization: one job per captured payload, fetch and parser version.
pub record Normalization : Type 0 where
  pub provider : String
  pub raw_payload_id : ℕ
  pub fetch_log_id : Option ℕ
  pub max_games : Option ℕ
  pub parent_job_id : Option ℕ
  pub crawl_run_id : Option ℕ
  pub parser_version : String
  pub now : ℕ

abbrev pub nullable : Option ℕ → Value
nullable none = null
nullable (some n) = number n

unfoldable pub normalization_request : Digest → Normalization → Request
unfolding make_dedup_key
normalization_request digest n = record {
  provider = some n.provider;
  kind = "normalize_payload";
  target = decimal n.raw_payload_id;
  params =
      ("raw_payload_id", number n.raw_payload_id)
      ∷ ("fetch_log_id", nullable n.fetch_log_id)
      ∷ ("max_games", nullable n.max_games)
      ∷ ("parser_version", text n.parser_version)
      ∷ [];
  crawl_run_id = n.crawl_run_id;
  parent_job_id = n.parent_job_id;
  depth = 0;
  priority = 20;
  now = n.now;
  dedup_key = some (
      make_dedup_key digest (some n.provider) "normalize_payload" (decimal n.raw_payload_id)
        (("fetch_log_id", nullable n.fetch_log_id)
          ∷ ("parent_job_id", nullable n.parent_job_id)
          ∷ ("parser_version", text n.parser_version)
          ∷ [])
        n.crawl_run_id);
  reuse_terminal = true;
}

unfoldable pub enqueue_payload_normalization :
    Digest → Backlog → Session → Normalization → Archive → Result (Archive × EnqueueResult)
unfolding normalization_request enqueue_job
enqueue_payload_normalization digest room s n db =
    enqueue_job digest room s (normalization_request digest n) db
