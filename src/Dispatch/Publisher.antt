-- ===== src/Dispatch/Publisher.antt =====
-- DispatchMaintenance, SqsDispatcher and SqsConsumer of jobs/dispatch.py. The queue service is the
-- parameter `send`; the clock is read where the source reads it.
use chess_crawl.Prelude.{
  ℕ, ◌+◌, ◌^◌, String, Bool, true, false, ◌||◌, ◌&&◌, Option, none, some, ltb, leb, str_eq,
  if◌then◌else◌,
}
use chess_crawl.Queue.Model.{
  Archive, JobState, JobKind, in_progress, is_processing_kind, is_terminal, same_state,
}
use chess_crawl.Dispatch.{
  DispatchCursor, Joined, Pending, pending_dispatch, delivered_dispatch, failed_dispatch,
  job_dispatch_state, maintain_dispatch,
}

pub record Maintenance : Type 0 where
  pub retention_seconds : ℕ
  pub interval_seconds : ℕ
  pub batch_size : ℕ
  pub next_cleanup : Option ℕ  -- none is -infinity
  pub after_id : ℕ

-- __init__ of DispatchMaintenance
unfoldable pub valid_maintenance : Maintenance → Bool
valid_maintenance m =
    ltb 0 m.retention_seconds
    && ltb 0 m.interval_seconds
    && leb 1 m.batch_size
    && leb m.batch_size 10000

abbrev pub is_cleanup_due : ℕ → Option ℕ → Bool
is_cleanup_due now none = true
is_cleanup_due now (some at) = leb at now

unfoldable pub run_due : (ℕ → Bool) → ℕ → Maintenance → Archive → Maintenance × Archive
unfolding maintain_dispatch
run_due row_locked now m db =
    let (swept, after) =
      maintain_dispatch row_locked now m.retention_seconds m.batch_size m.after_id db in
    if is_cleanup_due now m.next_cleanup
    then (record m { after_id = after; next_cleanup = some (now + m.interval_seconds) }, swept)
    else (m, db)

pub record Dispatcher : Type 0 where
  pub queue_url : String
  pub acquisition_queue_url : Option String
  pub processing_queue_url : Option String
  pub maintenance : Maintenance
  pub dispatch_after : Option DispatchCursor
  pub has_more : Bool

-- `url or self.queue_url`
abbrev pub or_queue : Option String → String → String
or_queue none default = default
or_queue (some url) default = if str_eq url "" then default else url

unfoldable pub queue_for : Dispatcher → JobKind → String
queue_for d kind =
    if is_processing_kind kind
    then or_queue d.processing_queue_url d.queue_url
    else or_queue d.acquisition_queue_url d.queue_url

-- A message that was accepted, or the name of the exception.
pub data Send : Type 0 where
  accepted : Send
  raised : String → Send

-- What the dispatcher meets: the queue service, the locks, and its readings of the clock.
pub record Surroundings : Type 0 where
  pub send : String → ℕ → Send
  pub row_locked : ℕ → Bool
  pub cleanup_at : ℕ
  pub select_at : ℕ
  pub settle_at : ℕ

pub record Published : Type 0 where
  pub dispatcher : Dispatcher
  pub archive : Archive
  pub sent : Option (String × ℕ)  -- the queue and the job of the message that was sent
  pub result : Bool

abbrev pub is_none {ℓ} : {A : Type ℓ} → Option A → Bool
is_none none = true
is_none (some a) = false

abbrev pub is_some {ℓ} : {A : Type ℓ} → Option A → Bool
is_some none = false
is_some (some a) = true

-- What follows the try of publish_one.
unfoldable pub settle_send : Surroundings → Dispatcher → Archive → Joined → Send → Published
unfolding queue_for delivered_dispatch failed_dispatch
settle_send s d db r accepted = record {
  dispatcher = d;
  archive = delivered_dispatch r.hint.id s.settle_at db;
  sent = some (queue_for d r.job.kind, r.hint.job_id);
  result = true;
}
settle_send s d db r (raised error) = record {
  dispatcher = d;
  archive = failed_dispatch r.hint.id s.settle_at error db;
  sent = none;
  result = false;
}

-- The end of publish_one, for the row that was selected.
unfoldable pub publish_selected : Surroundings → Dispatcher → Archive → Joined → Published
unfolding queue_for settle_send
publish_selected s d db r = settle_send s d db r (s.send (queue_for d r.job.kind) r.hint.job_id)

unfoldable pub with_selection : Surroundings → Dispatcher → Archive → Option Joined → Published
unfolding publish_selected
with_selection s d db none = record { dispatcher = d; archive = db; sent = none; result = false }
with_selection s d db (some r) = publish_selected s d db r

-- SqsDispatcher.publish_one
unfoldable pub publish_one : Surroundings → Dispatcher → Archive → Published
unfolding run_due pending_dispatch with_selection
publish_one s d db =
    let (maintenance, swept) = run_due s.row_locked s.cleanup_at d.maintenance db in
    let p : Pending =
      pending_dispatch s.row_locked s.select_at maintenance.batch_size d.dispatch_after swept in
    with_selection s
      (record d {
        maintenance = maintenance;
        dispatch_after = if is_none p.selected then p.cursor else none;
        has_more = is_none p.selected && is_some p.cursor;
      })
      p.archive p.selected

-- A message of the queue. Its body is read as JSON: nothing where it has no integer `job_id`.
pub record Message : Type 0 where
  pub job_id : Option ℕ
  pub receipt : String

-- 0 < job_id < 2**63
unfoldable pub message_job : Message → Option ℕ
message_job m = elim m.job_id [
  | none ↦ none
  | some id ↦ if ltb 0 id && ltb id (2 ^ 63) then some id else none
]

pub record Consumed : Type 0 where
  pub archive : Archive
  pub claimed : ℕ
  pub deleted : Option String  -- the receipt of the message that was deleted

-- The job needs no further delivery.
unfoldable pub is_settled : ℕ → Option (JobState × ℕ) → Bool
is_settled claimed none = true
is_settled claimed (some (state, revision)) =
    ltb 0 claimed || is_terminal state || same_state state in_progress

-- SqsConsumer.run_once of a message that was received; `execute` is the runner.
unfoldable pub run_once : (ℕ → Archive → Archive × ℕ) → Message → Archive → Consumed
unfolding message_job job_dispatch_state is_settled
run_once execute m db = elim (message_job m) [
  | none ↦ record { archive = db; claimed = 0; deleted = none }
  | some id ↦
      let (after, claimed) = execute id db in
      record {
        archive = after;
        claimed = claimed;
        deleted = if is_settled claimed (job_dispatch_state id after) then some m.receipt else none;
      }
]
