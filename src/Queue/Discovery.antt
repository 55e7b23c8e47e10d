-- ===== src/Queue/Discovery.antt =====
-- The frontier of a crawl: enqueue_opponent_children of jobs/discovery.py, with the tests that
-- expand_opponent_frontier makes of its edges.
pub mod Limits
pub mod Examples
use chess_crawl.Prelude.{
  ℕ, ◌+◌, ◌-◌, String, Text, Bool, true, false, not, Option, none, some, List, [], ◌∷◌, leb, ltb,
  if◌then◌else◌, select,
}
use chess_crawl.Queue.Model.{Archive, Params, Value, number, get_param}
use chess_crawl.Queue.Write.{Session}
use chess_crawl.Queue.Runs.{crawl_user_count, acquisition_job_count}
use chess_crawl.Queue.Depth.{known_crawl_depth, promote_crawl_depth}
use chess_crawl.Queue.Result.{Result, ok, err, ◌>>=◌, ◌>>◌, bad_params}
use chess_crawl.Queue.Enqueue.{Digest, Backlog, Request, EnqueueResult, enqueue_job}

pub record OpponentEdge : Type 0 where
  pub opponent_username : Text

-- The keyword arguments of enqueue_opponent_children; `now` is the clock of the calls it makes.
pub record Expansion : Type 0 where
  pub crawl_run_id : ℕ
  pub parent_job_id : ℕ
  pub provider : String
  pub params : Params
  pub next_depth : ℕ
  pub now : ℕ

abbrev pub number_of : Value → Result ℕ
number_of (number n) = ok n
number_of _ = err bad_params

-- int(params[key]), of the numbers that create_opponent_crawl writes.
unfoldable pub int_param : String → Params → Result ℕ
int_param key params = number_of (get_param key params)

unfoldable pub child_request : Expansion → OpponentEdge → Request
child_request x edge = record {
  provider = some x.provider;
  kind = "crawl_opponents";
  target = edge.opponent_username;
  params = x.params;
  crawl_run_id = some x.crawl_run_id;
  parent_job_id = some x.parent_job_id;
  depth = x.next_depth;
  priority = 10 + x.next_depth;
  now = x.now;
  dedup_key = none;
  reuse_terminal = false;
}

abbrev pub count_child : ℕ → Archive × EnqueueResult → Result (Archive × ℕ)
count_child n r = ok (r.0, (if r.1.inserted then n + 1 else n))

-- The job of a user, within the run's jobs.
unfoldable pub enqueue_within :
    Digest → Backlog → Session → Expansion → OpponentEdge → Archive → ℕ → ℕ → Result (Archive × ℕ)
unfolding child_request enqueue_job acquisition_job_count
enqueue_within digest room s x edge db n max_jobs =
    let added : Result (Archive × ℕ) =
      enqueue_job digest room s (child_request x edge) db >>= count_child n in
    if leb max_jobs (acquisition_job_count db x.crawl_run_id) then ok (db, n) else added

-- A user that the run does not know, within its users.
unfoldable pub enqueue_unknown :
    Digest → Backlog → Session → Expansion → OpponentEdge → Archive → ℕ → Result (Archive × ℕ)
unfolding enqueue_within int_param crawl_user_count
enqueue_unknown digest room s x edge db n = do
  max_users ← int_param "max_users" x.params
  let added = int_param "max_jobs" x.params >>= enqueue_within digest room s x edge db n
  if leb max_users (crawl_user_count db x.crawl_run_id) then ok (db, n) else added

-- The body of the loop, for the depth at which the run knows the user.
abbrev pub enqueue_child :
    Digest
    → Backlog
    → Session
    → Expansion
    → OpponentEdge
    → Archive
    → ℕ
    → Option ℕ
    → Result (Archive × ℕ)
unfolding promote_crawl_depth enqueue_unknown
enqueue_child digest room s x edge db n none = enqueue_unknown digest room s x edge db n
enqueue_child digest room s x edge db n (some known) =
    if leb known x.next_depth then ok (db, n) else (do
      db' ←
          promote_crawl_depth digest room s x.crawl_run_id x.provider edge.opponent_username
            x.next_depth x.now db
      ok (db', n))

abbrev pub enqueue_edges :
    Digest → Backlog → Session → Expansion → List OpponentEdge → Archive → ℕ → Result (Archive × ℕ)
unfolding enqueue_child known_crawl_depth
enqueue_edges digest room s x [] db n = ok (db, n)
enqueue_edges digest room s x (edge ∷ edges) db n = do
  r ←
      enqueue_child digest room s x edge db n
        (known_crawl_depth db x.crawl_run_id x.provider edge.opponent_username)
  enqueue_edges digest room s x edges r.0 r.1

-- The archive, and the number of jobs that were inserted.
unfoldable pub enqueue_opponent_children :
    Digest → Backlog → Session → Expansion → List OpponentEdge → Archive → Result (Archive × ℕ)
unfolding int_param enqueue_edges
enqueue_opponent_children digest room s x edges db = do
  max_depth ← int_param "max_depth" x.params
  if ltb max_depth x.next_depth then ok (db, 0) else enqueue_edges digest room s x edges db 0

-- _known_at_or_before_current_depth
unfoldable pub known_at_or_before : Archive → ℕ → String → Text → ℕ → Bool
unfolding known_crawl_depth
known_at_or_before db run provider username current =
    elim (known_crawl_depth db run provider username) [ none ↦ false | some d ↦ leb d current ]

-- The edges that expand_opponent_frontier goes on with.
unfoldable pub frontier_edges : Archive → ℕ → String → ℕ → List OpponentEdge → List OpponentEdge
unfolding known_at_or_before
frontier_edges db run provider depth =
    select λ (e : OpponentEdge). not (known_at_or_before db run provider e.opponent_username depth)

-- remaining_game_budget, of a count of games that are there.
unfoldable pub remaining_games : Option ℕ → ℕ → Option ℕ
remaining_games none current = none
remaining_games (some max_games) current = some (max_games - current)
