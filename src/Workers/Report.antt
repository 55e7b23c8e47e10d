-- ===== src/Workers/Report.antt =====
-- worker_status of jobs/state.py: how many workers live, and a bounded history, live ones first.
use chess_crawl.Prelude.{
  ℕ, ◌+◌, ◌-◌, String, Bool, true, false, not, ◌||◌, ◌&&◌, Option, none, some, List, ◌++◌, map,
  ◌==◌, ltb, leb, count, select, take, length, sort_by,
}
use chess_crawl.Workers.{Heartbeat, is_active, worker_history_seconds}

-- WORKER_SNAPSHOT_LIMIT
abbrev pub worker_snapshot_limit : ℕ
worker_snapshot_limit = 128

-- The condition of the query's `active`: no limit on the age where max_age is NULL.
unfoldable pub is_current : ℕ → Option ℕ → Heartbeat → Bool
is_current now max_age h =
    is_active h.status
    && ltb now h.heartbeat_expires_at
    && elim max_age [ none ↦ true | some age ↦ ltb now (h.heartbeat_at + age) ]

unfoldable pub is_recent : ℕ → Heartbeat → Bool
is_recent now h = leb now (h.heartbeat_at + worker_history_seconds)

-- ORDER BY heartbeat_at DESC, worker_id
unfoldable pub newer : (String → String → Bool) → Heartbeat → Heartbeat → Bool
newer before h k =
    ltb k.heartbeat_at h.heartbeat_at
    || (h.heartbeat_at == k.heartbeat_at && before h.worker_id k.worker_id)

pub record WorkerEntry : Type 0 where
  pub worker : Heartbeat
  pub age_seconds : ℕ
  pub alive : Bool

-- The first entry is repeated at the top of the JSON object; where there is none, the status is
-- `absent`.
pub record WorkerReport : Type 0 where
  pub active_workers : ℕ
  pub workers_truncated : Bool
  pub workers : List WorkerEntry

abbrev entry : ℕ → Bool → Heartbeat → WorkerEntry
entry now alive h = record { worker = h; age_seconds = now - h.heartbeat_at; alive = alive }

unfoldable pub worker_status :
    (String → String → Bool) → ℕ → Option ℕ → List Heartbeat → WorkerReport
unfolding is_current is_recent newer
worker_status before now max_age hs =
    let limit : ℕ = worker_snapshot_limit + 1 in
    let current = is_current now max_age in
    let live : List Heartbeat = take limit (sort_by (newer before) (select current hs)) in
    let past : List Heartbeat = take limit (
      sort_by (newer before) (select (λ (h : Heartbeat). is_recent now h && not (current h)) hs)) in
    let rows : List WorkerEntry =
      take limit (map (entry now true) live ++ map (entry now false) past) in
    record {
      active_workers = count current hs;
      workers_truncated = ltb worker_snapshot_limit (length rows);
      workers = take worker_snapshot_limit rows;
    }
