-- ===== src/Dispatch.antt =====
-- The delivery of dispatch hints: the outbox operations of storage/execution.py, and the dispatcher
-- and the consumer of jobs/dispatch.py. `row_locked` are the hints that other publishers lock.
pub mod Publisher
pub mod Rows
pub mod Kept
pub mod Sent
pub mod Examples
use chess_crawl.Prelude.{
  ℕ, ◌+◌, String, Bool, true, false, not, ◌||◌, ◌&&◌, Option, none, some, List, [], ◌∷◌, map, ◌==◌,
  ltb, leb, if◌then◌else◌, any, find, select, take, sort_by,
}
use chess_crawl.Queue.Model.{Archive, Dispatch, Job, JobState, Outbox}
use chess_crawl.Queue.Write.{find_job, is_open, schedulable}
use chess_crawl.Queue.Admission.{retry_due}

-- DispatchCursor: the due time and the id of a window's last row.
abbrev pub DispatchCursor : Type 0
DispatchCursor = ℕ × ℕ

abbrev pub after_pair : ℕ × ℕ → ℕ × ℕ → Bool
after_pair p q = ltb q.0 p.0 || (p.0 == q.0 && ltb q.1 p.1)

-- (available_at,id)>(%s,%s), from -infinity where there is no cursor.
unfoldable pub is_after : Option DispatchCursor → Dispatch → Bool
is_after none d = true
is_after (some cursor) d = after_pair (d.available_at, d.id) cursor

unfoldable pub is_due : ℕ → Option DispatchCursor → Dispatch → Bool
unfolding is_after
is_due now after d = is_open d && leb d.available_at now && is_after after d

-- ORDER BY available_at,id
unfoldable pub due_before : Dispatch → Dispatch → Bool
due_before d e = after_pair (e.available_at, e.id) (d.available_at, d.id)

-- The first query of pending_dispatch.
unfoldable pub due_window : ℕ → ℕ → Option DispatchCursor → List Dispatch → List Dispatch
unfolding is_due due_before
due_window now limit after rows = take limit (sort_by due_before (select (is_due now after) rows))

-- A hint with the job that it names.
pub record Joined : Type 0 where
  pub hint : Dispatch
  pub job : Job

abbrev pub join_row : (ℕ → Bool) → Dispatch → List Joined → Option Job → List Joined
join_row row_locked d rest none = rest
join_row row_locked d rest (some j) =
    if row_locked d.id then rest else record { hint = d; job = j } ∷ rest

-- JOIN discovery_jobs … FOR UPDATE OF d SKIP LOCKED
unfoldable pub joined : (ℕ → Bool) → List Job → List Dispatch → List Joined
joined row_locked js [] = []
joined row_locked js (d ∷ ds) =
    join_row row_locked d (joined row_locked js ds) (find_job d.job_id js)

-- _current_dispatch
unfoldable pub current_dispatch : Joined → Bool
current_dispatch r = r.hint.job_revision == r.job.revision && schedulable r.job

abbrev pub has_dispatch : ℕ → Dispatch → Bool
has_dispatch id d = d.id == id

-- The row is one of the obsolete ones.
unfoldable pub is_obsolete : List Joined → Dispatch → Bool
unfolding current_dispatch
is_obsolete rs d = any (λ (r : Joined). r.hint.id == d.id && not (current_dispatch r)) rs

unfoldable pub retired : List Joined → ℕ → Dispatch → Dispatch
unfolding is_obsolete
retired rs now d = if is_obsolete rs d then record d { superseded_at = some now } else d

-- _retire_obsolete_dispatch
unfoldable pub retire_obsolete_dispatch : List Joined → ℕ → Archive → Archive
unfolding retired
retire_obsolete_dispatch rs now db = record db {
  outbox = record db.outbox { rows = map (retired rs now) db.outbox.rows };
}

-- next(row … if current and due)
unfoldable pub is_deliverable : ℕ → Joined → Bool
unfolding current_dispatch
is_deliverable now r = current_dispatch r && retry_due now r.job

abbrev pub last_cursor : List Dispatch → Option DispatchCursor
last_cursor [] = none
last_cursor (d ∷ []) = some (d.available_at, d.id)
last_cursor (d ∷ e ∷ ds) = last_cursor (e ∷ ds)

pub record Pending : Type 0 where
  pub archive : Archive
  pub selected : Option Joined
  pub cursor : Option DispatchCursor

-- pending_dispatch. The rows of the window are still open when they are locked.
unfoldable pub pending_dispatch : (ℕ → Bool) → ℕ → ℕ → Option DispatchCursor → Archive → Pending
unfolding due_window joined retire_obsolete_dispatch is_deliverable
pending_dispatch row_locked now limit after db =
    let window : List Dispatch = due_window now limit after db.outbox.rows in
    let rs : List Joined = joined row_locked db.jobs window in
    record {
      archive = retire_obsolete_dispatch rs now db;
      selected = find (is_deliverable now) rs;
      cursor = last_cursor window;
    }

abbrev pub update_hint : ℕ → (Dispatch → Dispatch) → Archive → Archive
update_hint id f db = record db {
  outbox = record db.outbox {
    rows = map (λ (d : Dispatch). if has_dispatch id d then f d else d) db.outbox.rows;
  };
}

unfoldable pub mark_delivered : ℕ → Dispatch → Dispatch
mark_delivered now d = record d {
  delivered_at = some now;
  attempts = d.attempts + 1;
  last_error = none;
}

unfoldable pub delivered_dispatch : ℕ → ℕ → Archive → Archive
unfolding mark_delivered
delivered_dispatch id now = update_hint id (mark_delivered now)

unfoldable pub mark_failed : ℕ → String → Dispatch → Dispatch
mark_failed now error d = record d {
  attempts = d.attempts + 1;
  available_at = now + 30;
  last_error = some error;
}

unfoldable pub failed_dispatch : ℕ → ℕ → String → Archive → Archive
unfolding mark_failed
failed_dispatch id now error = update_hint id (mark_failed now error)

-- job_dispatch_state: the state and the revision.
unfoldable pub job_dispatch_state : ℕ → Archive → Option (JobState × ℕ)
job_dispatch_state id db = elim (find_job id db.jobs) [
  | none ↦ none
  | some j ↦ some (j.state, j.revision)
]

-- COALESCE(delivered_at,superseded_at)
abbrev pub closed_at : Dispatch → Option ℕ
closed_at d = elim d.delivered_at [ none ↦ d.superseded_at | some at ↦ some at ]

unfoldable pub is_expired : ℕ → ℕ → Dispatch → Bool
is_expired now retention d = elim (closed_at d) [
  | none ↦ false
  | some at ↦ ltb (at + retention) now
]

abbrev pub closed_before : Dispatch → Dispatch → Bool
closed_before d e = elim (closed_at d) [
  | none ↦ false
  | some at ↦ elim (closed_at e) [ none ↦ true | some at' ↦ after_pair (at', e.id) (at, d.id) ]
]

unfoldable pub expired_hints : (ℕ → Bool) → ℕ → ℕ → ℕ → List Dispatch → List Dispatch
unfolding is_expired
expired_hints row_locked now retention limit rows = take limit (
    sort_by closed_before
      (select (λ (d : Dispatch). is_expired now retention d && not (row_locked d.id)) rows))

abbrev pub is_kept : List Dispatch → Dispatch → Bool
is_kept gone d = not (any (has_dispatch d.id) gone)

-- The DELETE of maintain_dispatch.
unfoldable pub prune_hints : (ℕ → Bool) → ℕ → ℕ → ℕ → Archive → Archive
unfolding expired_hints
prune_hints row_locked now retention limit db =
    let gone : List Dispatch = expired_hints row_locked now retention limit db.outbox.rows in
    record db { outbox = record db.outbox { rows = select (is_kept gone) db.outbox.rows } }

abbrev pub id_before : Dispatch → Dispatch → Bool
id_before d e = ltb d.id e.id

unfoldable pub maintenance_window : (ℕ → Bool) → ℕ → ℕ → List Dispatch → List Dispatch
maintenance_window row_locked limit after_id rows = take limit (
    sort_by id_before
      (select (λ (d : Dispatch). is_open d && ltb after_id d.id && not (row_locked d.id)) rows))

abbrev pub last_id : List Joined → ℕ
last_id [] = 0
last_id (r ∷ []) = r.hint.id
last_id (r ∷ s ∷ rs) = last_id (s ∷ rs)

-- maintain_dispatch, with the cursor that it returns.
unfoldable pub maintain_dispatch : (ℕ → Bool) → ℕ → ℕ → ℕ → ℕ → Archive → Archive × ℕ
unfolding maintenance_window joined retire_obsolete_dispatch prune_hints
maintain_dispatch row_locked now retention limit after_id db =
    let rs : List Joined =
      joined (λ id. false) db.jobs (maintenance_window row_locked limit after_id db.outbox.rows) in
    (prune_hints row_locked now retention limit (retire_obsolete_dispatch rs now db), last_id rs)
