-- ===== src/Dispatch/Sent.antt =====
-- What SqsDispatcher.publish_one of jobs/dispatch.py sends.
use chess_crawl.Prelude.{
  some_eq, ℕ, String, ◌≡◌, refl, sym, ap, subst, Bool, true, false, Option, none, some, List, arith,
  find-holds, find-All, All, All-take, All-sort_by, select-holds, Bool-cases, inl, inr, leb,
}
use chess_crawl.Queue.Model.{Archive, Dispatch, Job}
use chess_crawl.Queue.Write.{find_job, is_open, schedulable}
use chess_crawl.Queue.Admission.{retry_due}
use chess_crawl.Dispatch.{
  Joined, DispatchCursor, joined, current_dispatch, is_due, is_deliverable, due_window, due_before,
  pending_dispatch, retire_obsolete_dispatch, Pending, maintain_dispatch, prune_hints,
}
use chess_crawl.Dispatch.Publisher.{
  Dispatcher, Maintenance, Send, accepted, raised, Surroundings, run_due, queue_for, settle_send,
  publish_selected, with_selection, publish_one, is_cleanup_due,
}
use chess_crawl.Dispatch.Rows.{IsJoined, joined-IsJoined}

-- A hint that may go out: open, due, of the job's current revision, and unlocked, where the job is
-- schedulable and past its own retry time.
pub record IsSendable (row_locked : ℕ → Bool) (now : ℕ) (js : List Job) (r : Joined) : Type 0 where
  pub still_open : is_open r.hint ≡ true
  pub due : leb r.hint.available_at now ≡ true
  pub of_job : find_job r.hint.job_id js ≡ some r.job
  pub revision : r.hint.job_revision ≡ r.job.revision
  pub live : schedulable r.job ≡ true
  pub past_retry : retry_due now r.job ≡ true
  pub unlocked : row_locked r.hint.id ≡ false

due_window-due :
    (now limit : ℕ) (after : Option DispatchCursor) (rows : List Dispatch)
    → All (λ (d : Dispatch). is_due now after d ≡ true) (due_window now limit after rows)
unfolding due_window
due_window-due now limit after rows =
    All-take (λ (d : Dispatch). is_due now after d ≡ true) limit _
      (All-sort_by (λ (d : Dispatch). is_due now after d ≡ true) due_before _
        (select-holds (λ (d : Dispatch). is_due now after d ≡ true) (is_due now after) rows
          (λ d h. h)))

IsSendable-made :
    (row_locked : ℕ → Bool) (now : ℕ) (after : Option DispatchCursor) (js : List Job) (r : Joined)
    → IsJoined (λ (d : Dispatch). is_due now after d ≡ true) row_locked js r
    → is_deliverable now r ≡ true
    → IsSendable row_locked now js r
unfolding is_due is_deliverable current_dispatch
IsSendable-made row_locked now after js r row deliver = record {
  still_open = ground (arith, row.row);
  due = ground (arith, row.row);
  of_job = row.of_job;
  revision = ground (arith, deliver);
  live = ground (arith, deliver);
  past_retry = ground (arith, deliver);
  unlocked = row.unlocked;
}

-- What is selected may go out.
pending_dispatch-IsSendable :
    (row_locked : ℕ → Bool) (now limit : ℕ) (after : Option DispatchCursor) (db : Archive)
    {r : Joined}
    → (pending_dispatch row_locked now limit after db).selected ≡ some r
    → IsSendable row_locked now db.jobs r
unfolding pending_dispatch
pending_dispatch-IsSendable row_locked now limit after db {r} h =
    let rs : List Joined = joined row_locked db.jobs (due_window now limit after db.outbox.rows) in
    let deliver : is_deliverable now r ≡ true = find-holds (is_deliverable now) rs h in
    let row : IsJoined (λ (d : Dispatch). is_due now after d ≡ true) row_locked db.jobs r =
      find-All (IsJoined (λ (d : Dispatch). is_due now after d ≡ true) row_locked db.jobs)
        (is_deliverable now) rs
        (joined-IsJoined (λ (d : Dispatch). is_due now after d ≡ true) row_locked db.jobs _
          (due_window-due now limit after db.outbox.rows))
        h in
    IsSendable-made row_locked now after db.jobs r row deliver

run_due-jobs :
    (row_locked : ℕ → Bool) (now : ℕ) (m : Maintenance) (db : Archive)
    → (run_due row_locked now m db).1.jobs ≡ db.jobs
unfolding run_due maintain_dispatch prune_hints retire_obsolete_dispatch
run_due-jobs row_locked now m db = elim (Bool-cases (is_cleanup_due now m.next_cleanup)) [
  | inl e ↦ rw e refl
  | inr e ↦ rw e refl
]

settle_send-sent :
    (s : Surroundings) (d : Dispatcher) (db : Archive) (r : Joined) (send : Send)
    → {queue : String} {id : ℕ} → (settle_send s d db r send).sent ≡ some (queue, id)
    → (queue ≡ queue_for d r.job.kind) × (id ≡ r.hint.job_id)
unfolding settle_send
settle_send-sent s d db r accepted {queue} {id} h =
    (sym (ap (λ m. m.0) (some_eq h)), sym (ap (λ m. m.1) (some_eq h)))
settle_send-sent s d db r (raised error) h = absurd (ground arith)

-- The message names the job of the selected hint, and goes to the queue of its kind.
with_selection-sent :
    (s : Surroundings) (d : Dispatcher) (db : Archive) (o : Option Joined) {queue : String} {id : ℕ}
    → (with_selection s d db o).sent ≡ some (queue, id)
    → (r : Joined) × (o ≡ some r) × (queue ≡ queue_for d r.job.kind) × (id ≡ r.hint.job_id)
unfolding with_selection publish_selected
with_selection-sent s d db none h = absurd (ground arith)
with_selection-sent s d db (some r) h =
    let named = settle_send-sent s d db r (s.send (queue_for d r.job.kind) r.hint.job_id) h in
    (r, refl, named.0, named.1)

-- A message that publish_one sends names a job of the archive, and goes to the queue of its kind;
-- the hint it was sent for was open, due, unlocked and of the job's current revision, and the job
-- was schedulable and past its own retry time.
pub publish_one-sent :
    (s : Surroundings) (d : Dispatcher) (db : Archive) {queue : String} {id : ℕ}
    → (publish_one s d db).sent ≡ some (queue, id)
    → (r : Joined) × IsSendable s.row_locked s.select_at db.jobs r
      × (queue ≡ queue_for d r.job.kind)
      × (id ≡ r.hint.job_id)
unfolding publish_one
publish_one-sent s d db h =
    let ran : Maintenance × Archive = run_due s.row_locked s.cleanup_at d.maintenance db in
    let p : Pending =
      pending_dispatch s.row_locked s.select_at ran.0.batch_size d.dispatch_after ran.1 in
    let (r, chosen, to, named) = with_selection-sent s _ p.archive p.selected h in
    (
      r,
      subst (λ (js : List Job). IsSendable s.row_locked s.select_at js r)
          (run_due-jobs s.row_locked s.cleanup_at d.maintenance db)
          (pending_dispatch-IsSendable s.row_locked s.select_at ran.0.batch_size d.dispatch_after
            ran.1 chosen),
      to,
      named,
    )
