-- ===== src/Workers.antt =====
-- The worker heartbeats of jobs/state.py over the table executor_heartbeats. `before` is the order of
-- worker ids (the database's collation), `row_locked` the rows that other sessions lock.
pub mod Liveness
pub mod Report
pub mod Examples
use chess_crawl.Prelude.{
  ℕ, ◌+◌, String, Bool, true, false, not, ◌&&◌, ◌||◌, Option, none, some, List, [], ◌∷◌, ◌++◌, map,
  ◌==◌, ltb, leb, str_eq, if◌then◌else◌, any, count, select, take, length, sort_by,
}

pub data WorkerStatus : Type 0 where
  running stopping stopped failed : WorkerStatus

-- status IN ('running','stopping'); the other two are terminal.
unfoldable pub is_active : WorkerStatus → Bool
is_active running = true
is_active stopping = true
is_active _ = false

-- A row of executor_heartbeats.
pub record Heartbeat : Type 0 where
  pub worker_id : String
  pub started_at : ℕ
  pub heartbeat_at : ℕ
  pub heartbeat_expires_at : ℕ
  pub stopped_at : Option ℕ
  pub current_job_id : Option ℕ
  pub status : WorkerStatus

abbrev pub is_worker : String → Heartbeat → Bool
is_worker id h = str_eq h.worker_id id

-- WORKER_HISTORY_SECONDS and WORKER_PRUNE_LIMIT
abbrev pub worker_history_seconds : ℕ
worker_history_seconds = 86400

abbrev pub worker_prune_limit : ℕ
worker_prune_limit = 256

unfoldable pub is_expired : ℕ → Heartbeat → Bool
is_expired now h =
    not (is_active h.status)
    && ltb (h.heartbeat_at + worker_history_seconds) now
    && leb h.heartbeat_expires_at now

-- ORDER BY heartbeat_at, worker_id
unfoldable pub older : (String → String → Bool) → Heartbeat → Heartbeat → Bool
older before h k =
    ltb h.heartbeat_at k.heartbeat_at
    || (h.heartbeat_at == k.heartbeat_at && before h.worker_id k.worker_id)

unfoldable pub started : String → ℕ → ℕ → Heartbeat → Heartbeat
started id max_age now h = record h {
  started_at = now;
  heartbeat_at = now;
  heartbeat_expires_at = now + max_age;
  stopped_at = none;
  status = running;
}

abbrev pub first_start : String → ℕ → ℕ → Heartbeat
first_start id max_age now = record {
  worker_id = id;
  started_at = now;
  heartbeat_at = now;
  heartbeat_expires_at = now + max_age;
  stopped_at = none;
  current_job_id = none;
  status = running;
}

-- INSERT … ON CONFLICT(worker_id) DO UPDATE, under a lease.
unfoldable pub start_row : String → ℕ → ℕ → List Heartbeat → List Heartbeat
unfolding started
start_row id max_age now hs =
    if any (is_worker id) hs
    then map (λ (h : Heartbeat). if is_worker id h then started id max_age now h else h) hs
    else hs ++ first_start id max_age now ∷ []

unfoldable pub beaten : ℕ → Option ℕ → Bool → ℕ → Heartbeat → Heartbeat
beaten max_age job halting now h = record h {
  heartbeat_at = now;
  heartbeat_expires_at = now + max_age;
  current_job_id = job;
  status = if halting then stopping else running;
}

abbrev pub beats : String → Heartbeat → Bool
beats id h = is_worker id h && is_active h.status

unfoldable pub ended : Bool → ℕ → Heartbeat → Heartbeat
ended crashed now h = record h {
  status = if crashed then failed else stopped;
  heartbeat_at = now;
  heartbeat_expires_at = now;
  stopped_at = some now;
  current_job_id = none;
}

module _ (before : String → String → Bool) (row_locked : String → Bool) where
  unfoldable pub expired_batch : ℕ → List Heartbeat → List Heartbeat
  unfolding is_expired older
  expired_batch now hs = take worker_prune_limit (
      sort_by (older before)
        (select (λ (h : Heartbeat). is_expired now h && not (row_locked h.worker_id)) hs))

  -- _prune_worker_heartbeats, with the number of rows that it deletes.
  unfoldable pub prune_worker_heartbeats : ℕ → List Heartbeat → List Heartbeat × ℕ
  unfolding expired_batch
  prune_worker_heartbeats now hs =
      let batch : List Heartbeat = expired_batch now hs in
      let deleted = λ (h : Heartbeat). any (is_worker h.worker_id) batch in
      (select (λ (h : Heartbeat). not (deleted h)) hs, count deleted hs)

  unfoldable pub start_worker : String → ℕ → ℕ → List Heartbeat → List Heartbeat
  unfolding start_row prune_worker_heartbeats
  start_worker id max_age now hs = (prune_worker_heartbeats now (start_row id max_age now hs)).0

  -- The worker still owns its row exactly if one row was updated.
  unfoldable pub heartbeat_worker :
      String → ℕ → Option ℕ → Bool → ℕ → List Heartbeat → List Heartbeat × Bool
  unfolding beaten prune_worker_heartbeats
  heartbeat_worker id max_age job halting now hs = (
    (prune_worker_heartbeats now
        (map (λ (h : Heartbeat). if beats id h then beaten max_age job halting now h else h) hs)).0,
    count (beats id) hs == 1,
  )

  unfoldable pub stop_worker : String → Bool → ℕ → List Heartbeat → List Heartbeat
  unfolding ended prune_worker_heartbeats
  stop_worker id crashed now hs =
      (prune_worker_heartbeats now
        (map (λ (h : Heartbeat). if is_worker id h then ended crashed now h else h) hs)).0

unfoldable pub is_alive : String → ℕ → Heartbeat → Bool
is_alive id now h = is_worker id h && is_active h.status && ltb now h.heartbeat_expires_at

unfoldable pub worker_alive : String → ℕ → List Heartbeat → Bool
unfolding is_alive
worker_alive id now hs = any (is_alive id now) hs
