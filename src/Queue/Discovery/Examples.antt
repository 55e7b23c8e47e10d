-- ===== src/Queue/Discovery/Examples.antt =====
-- A crawl of two jobs at most that meets two opponents: the second one is left out.
use mathlib.Core.Bool.{xor}
use chess_crawl.Prelude.Texts.{lower, strip}
use chess_crawl.Prelude.{ℕ, ◌≤◌, ◌≡◌, refl, max, true, none, some, List, [], ◌∷◌, codes}
use chess_crawl.Queue.Model.{
  Archive, Job, is_processing_kind, parse_kind, is_archive_kind, Params, Run, running, pending,
  crawl_opponents, number,
}
use chess_crawl.Queue.Write.{Session, insert_job}
use chess_crawl.Queue.Runs.{acquisition_job_count}
use chess_crawl.Queue.Result.{Result, ok, err}
use chess_crawl.Queue.Enqueue.{Digest, Backlog}
use chess_crawl.Queue.Discovery.{Expansion, OpponentEdge, enqueue_opponent_children, int_param}
use chess_crawl.Queue.Discovery.Limits.{enqueue_opponent_children-max}

abbrev digest : Digest
digest p = p.kind

abbrev room : Backlog
room budget db = true

abbrev session : Session
session = record {
  backend_pid = 7;
  workspace = "local";
  work_budget_id = none;
  job_fence = none;
  ownership_keys = [];
}

abbrev params : Params
params = ("max_depth", number 2) ∷ ("max_users", number 5) ∷ ("max_jobs", number 2) ∷ []

abbrev crawl_job : Job
crawl_job = record {
  id = 1;
  provider = some "lichess";
  kind = crawl_opponents;
  target = codes "anna";
  params = params;
  state = pending;
  priority = 10;
  depth = 0;
  dedup_key = "anna";
  crawl_run_id = some 1;
  parent_job_id = none;
  attempts = 0;
  enqueued_at = 100;
  started_at = none;
  done_at = none;
  reason = none;
  retry_count = 0;
  next_attempt_at = none;
  revision = 1;
  ownership_token = none;
  owner_worker_id = none;
  owner_backend_pid = none;
  ownership_generation = 0;
  workspace_id = "local";
  work_budget_id = none;
}

abbrev crawl_run : Run
crawl_run = record {
  id = 1;
  provider = some "lichess";
  seed_spec = "lichess/anna depth=2";
  params = params;
  status = running;
  counters = none;
  revision = 1;
  started_at = 0;
  updated_at = 0;
  finished_at = none;
  workspace_id = "local";
  work_budget_id = none;
}

abbrev archive : Archive
archive = record {
  jobs = crawl_job ∷ [];
  next_job_id = 2;
  runs = crawl_run ∷ [];
  next_run_id = 2;
  cooldowns = [];
  outbox = record { rows = []; next_id = 1 };
  edges = [];
  active_caps = [];
  turns = [];
  next_turn = 1;
  clock = 100;
}

abbrev expansion : Expansion
expansion = record {
  crawl_run_id = 1;
  parent_job_id = 1;
  provider = "lichess";
  params = params;
  next_depth = 1;
  now = 100;
}

abbrev edges : List OpponentEdge
edges =
    record { opponent_username = codes "Boris" } ∷ record { opponent_username = codes "cleo" } ∷ []

abbrev or_archive : Result (Archive × ℕ) → Archive × ℕ
or_archive (err e) = (archive, 0)
or_archive (ok r) = r

abbrev expanded : Archive × ℕ
expanded = or_archive (enqueue_opponent_children digest room session expansion edges archive)

one_inserted : expanded.1 ≡ 1
unfolding enqueue_opponent_children lower is_processing_kind parse_kind xor is_archive_kind
    insert_job strip
one_inserted = refl

enqueue_opponent_children-max_example :
    acquisition_job_count expanded.0 1 ≤ max (acquisition_job_count archive 1) 2
unfolding int_param enqueue_opponent_children lower is_processing_kind parse_kind xor
    is_archive_kind insert_job strip
enqueue_opponent_children-max_example =
    enqueue_opponent_children-max digest room session expansion edges archive expanded.0 expanded.1
      2 refl refl
