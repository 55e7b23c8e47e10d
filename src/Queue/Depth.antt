-- ===== src/Queue/Depth.antt =====
-- The depth at which a crawl knows a user: known_crawl_depth, enqueue_opponent_expansion and
-- promote_crawl_depth of jobs/state.py.
use chess_crawl.Prelude.{
  ℕ, ◌+◌, min, String, Text, Bool, true, false, not, ◌&&◌, Option, none, some, List, [], ◌∷◌, map,
  ltb, text_eq, is_value, is_text, coalesce, select, lower, decimal,
}
use chess_crawl.Queue.Model.{
  Archive, Job, JobState, number, in_progress, error, skipped, crawl_opponents, expand_opponents,
  same_kind, same_state,
}
use chess_crawl.Queue.Write.{Session, update_jobs}
use chess_crawl.Queue.Runs.{in_run}
use chess_crawl.Queue.Result.{Result, ok, err, guard, ◌>>=◌, ◌>>◌, expansion_parent, no_provider}
use chess_crawl.Queue.Enqueue.{Digest, Backlog, Request, EnqueueResult, enqueue_job}

-- MIN over rows; none where there is no row.
abbrev minimum : List ℕ → Option ℕ
minimum [] = none
minimum (n ∷ ns) = elim (minimum ns) [ none ↦ some n | some m ↦ some (min n m) ]

abbrev is_expansion : Job → Job → Bool
is_expansion parent child =
    is_value child.parent_job_id parent.id && same_kind child.kind expand_opponents

-- LEAST(parent.depth, COALESCE((SELECT MIN(child.depth) …), parent.depth))
unfoldable pub effective_depth : List Job → Job → ℕ
effective_depth js parent =
    min parent.depth (
      coalesce (minimum (map (λ (c : Job). c.depth) (select (is_expansion parent) js)))
        parent.depth)

-- A crawl job of the run for the user.
unfoldable pub crawls_user : ℕ → String → Text → Job → Bool
crawls_user run provider username j =
    in_run run j
    && is_text j.provider provider
    && same_kind j.kind crawl_opponents
    && text_eq (lower j.target) (lower username)

unfoldable pub known_crawl_depth : Archive → ℕ → String → Text → Option ℕ
unfolding effective_depth crawls_user
known_crawl_depth db run provider username =
    minimum (map (effective_depth db.jobs) (select (crawls_user run provider username) db.jobs))

-- enqueue_opponent_expansion of a persisted parent; `now` is the clock of its enqueue_job.
unfoldable pub expansion_request : Archive → Job → ℕ → String → Option ℕ → ℕ → Request
unfolding known_crawl_depth
expansion_request db parent run provider depth now =
    let effective = coalesce (known_crawl_depth db run provider parent.target) parent.depth in
    let bounded = min (coalesce depth parent.depth) effective in
    record {
      provider = some provider;
      kind = "expand_opponents";
      target = decimal parent.id;
      params = ("discovery_depth", number bounded) ∷ [];
      crawl_run_id = some run;
      parent_job_id = some parent.id;
      depth = bounded;
      priority = 20;
      now = now;
      dedup_key = none;
      reuse_terminal = true;
    }

-- For the run and the provider of the parent.
unfoldable pub enqueue_expansion_in :
    Digest
    → Backlog
    → Session
    → Job
    → Option ℕ
    → ℕ
    → Archive
    → Option ℕ
    → Option String
    → Result (Archive × EnqueueResult)
unfolding expansion_request
enqueue_expansion_in digest room s parent depth now db none provider = err expansion_parent
enqueue_expansion_in digest room s parent depth now db (some run) none =
    guard (same_kind parent.kind crawl_opponents) expansion_parent >> err no_provider
enqueue_expansion_in digest room s parent depth now db (some run) (some provider) =
    guard (same_kind parent.kind crawl_opponents) expansion_parent
    >> enqueue_job digest room s (expansion_request db parent run provider depth now) db

unfoldable pub enqueue_opponent_expansion :
    Digest → Backlog → Session → Job → Option ℕ → ℕ → Archive → Result (Archive × EnqueueResult)
unfolding enqueue_expansion_in
enqueue_opponent_expansion digest room s parent depth now db =
    enqueue_expansion_in digest room s parent depth now db parent.crawl_run_id parent.provider

-- The UPDATE of promote_crawl_depth: executing rows are left to their owners.
unfoldable pub promoted : ℕ → Job → Job
promoted depth j = record j { depth = min j.depth depth; priority = min j.priority (10 + depth) }

unfoldable pub promotable : ℕ → String → Text → ℕ → Job → Bool
unfolding crawls_user
promotable run provider username depth j =
    crawls_user run provider username j && not (same_state j.state in_progress) && ltb depth j.depth

abbrev pub keeps_frontier : JobState → Bool
keeps_frontier error = false
keeps_frontier skipped = false
keeps_frontier _ = true

unfoldable pub expand_if :
    Digest
    → Backlog
    → Session
    → ℕ
    → ℕ
    → Archive
    → Job
    → (Archive → Result Archive)
    → Bool
    → Result Archive
unfolding enqueue_opponent_expansion
expand_if digest room s depth now db p rest true =
    enqueue_opponent_expansion digest room s p (some depth) now db >>= λ r. rest r.0
expand_if digest room s depth now db p rest false = rest db

unfoldable pub expand_each :
    Digest → Backlog → Session → ℕ → ℕ → List Job → Archive → Result Archive
unfolding expand_if
expand_each digest room s depth now [] db = ok db
expand_each digest room s depth now (p ∷ ps) db =
    let rest = λ (a : Archive). expand_each digest room s depth now ps a in
    expand_if digest room s depth now db p rest (keeps_frontier p.state)

-- The parents are read before the UPDATE.
unfoldable pub promote_crawl_depth :
    Digest → Backlog → Session → ℕ → String → Text → ℕ → ℕ → Archive → Result Archive
unfolding promotable promoted expand_each
promote_crawl_depth digest room s run provider username depth now db =
    expand_each digest room s depth now (select (crawls_user run provider username) db.jobs)
      (update_jobs (promotable run provider username depth) (promoted depth) db)
