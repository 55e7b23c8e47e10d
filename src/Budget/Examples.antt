-- ===== src/Budget/Examples.antt =====
-- A budget of a run that reserves one request and settles it.
use chess_crawl.Prelude.{ℕ, ◌≡◌, refl, Bool, Option, none, some, [], ◌∷◌, arith}
use chess_crawl.Budget.Policy.{default_policy, workspace_max, ok, err, version_changed}
use chess_crawl.Budget.Calendar.{monthly_period}
use chess_crawl.Budget.Ledger.{Usage, used, no_usage, WorkBudget, Ledger, Period, Reservation}
use chess_crawl.Budget.Reserve.{reserve_request, settle_request}
use chess_crawl.Budget.Accounting.{IsAccounted, charged, reserve_request-IsAccounted}
use chess_crawl.Queue.Model.{Archive, Job, JobKind, JobState, is_live, Run, RunStatus}
use chess_crawl.Queue.Write.{schedulable_state, tracked_same, update_jobs}
use chess_crawl.Budget.Administer.{set_workspace_policy, admit_run_budget, run_row}
use chess_crawl.Budget.Revisions.{set_workspace_policy-again}
use chess_crawl.Budget.Admitted.{admit_run_budget-again}
use chess_crawl.Queue.Dedup.{holds_key}
use chess_crawl.Queue.Soundness.{IsSound}
use chess_crawl.Budget.Jobs.{resume_run_budget}
use chess_crawl.Budget.Resume.{resume_run_budget-IsSound}
use chess_crawl.Budget.Refund.{IsReturned, settle_request-IsReturned}
use chess_crawl.Budget.Settle.{settle_request-again}
use chess_crawl.Budget.Bounds.{IsFunded, reserve_request-IsFunded}

abbrev unspent : WorkBudget
unspent = record {
  id = 1;
  workspace_id = "local";
  crawl_run_id = some 1;
  standalone_job_id = none;
  policy = default_policy;
  usage = no_usage;
  exhausted_dimension = none;
  exhausted_at = none;
  created_at = 1709208000;
  updated_at = 1709208000;
  workspace_policy_version = some 1;
}

abbrev books : Ledger
books = record {
  budgets = unspent ∷ [];
  next_budget = 2;
  periods = [];
  policies = [];
  history = [];
  reservations = [];
  next_reservation = 1;
  game_items = [];
}

abbrev one_request : ℕ → Usage
one_request bytes = record {
  games = 0;
  normalization_units = 1;
  remote_bytes = bytes;
  remote_requests = 1;
}

abbrev february : ℕ → Period
february bytes = record {
  workspace_id = "local";
  period_start = 1706745600;
  period_end = 1709251200;
  usage = one_request bytes;
}

abbrev request_one : ℕ → Option ℕ → Reservation
request_one reserved consumed = record {
  id = 1;
  budget_id = 1;
  workspace_id = "local";
  period_start = 1706745600;
  reserved_bytes = reserved;
  consumed_bytes = consumed;
  created_at = 1709208000;
}

-- The books with one reservation, before or after it is settled.
abbrev reserved_books : ℕ → Option ℕ → Ledger
reserved_books bytes consumed = record books {
  budgets = record unspent { usage = one_request bytes } ∷ [];
  periods = february bytes ∷ [];
  policies =
      record {
        workspace_id = "local";
        policy = default_policy;
        version = 1;
        managed = Bool.false;
        updated_at = 1709208000;
      }
      ∷ [];
  history =
      record {
        workspace_id = "local";
        version = 1;
        policy = default_policy;
        managed = Bool.false;
        changed_at = 1709208000;
      }
      ∷ [];
  reservations = request_one 16842752 consumed ∷ [];
  next_reservation = 2;
}

granted : reserve_request 1 1709208000 books ≡ ok (reserved_books 16842752 none, 1, 16777216)
unfolding reserve_request monthly_period
granted = refl

settled :
    settle_request 1 5000 (reserved_books 16842752 none) ≡ ok (reserved_books 5000 (some 5000))
unfolding settle_request
settled = refl

books-IsAccounted : IsAccounted books
unfolding charged
books-IsAccounted = record {
  booked = ((refl, refl), tt);
  unique = λ id. omega arith;
  numbered = tt;
}

reserved-IsAccounted : IsAccounted (reserved_books 16842752 none)
reserved-IsAccounted =
    reserve_request-IsAccounted 1 1709208000 books (reserved_books 16842752 none) 1 16777216 granted
      books-IsAccounted

reserve_request-IsAccounted_example : IsAccounted (reserved_books 16842752 none)
reserve_request-IsAccounted_example =
    reserve_request-IsAccounted 1 1709208000 books (reserved_books 16842752 none) 1 16777216 granted
      books-IsAccounted

settle_request-IsReturned_example :
    IsReturned 5000
      (request_one 16842752 none)
      (record unspent { usage = one_request 16842752 })
      (february 16842752)
      (reserved_books 5000 (some 5000))
settle_request-IsReturned_example =
    settle_request-IsReturned 5000 (reserved_books 16842752 none) (reserved_books 5000 (some 5000))
      (request_one 16842752 none) (record unspent { usage = one_request 16842752 })
      (february 16842752) refl refl refl refl settled reserved-IsAccounted

reserve_request-IsFunded_example : IsFunded 1 1709208000 (reserved_books 16842752 none)
reserve_request-IsFunded_example =
    reserve_request-IsFunded 1 1709208000 books (reserved_books 16842752 none) 1 16777216 granted

settle_request-again_example :
    settle_request 1 7000 (reserved_books 5000 (some 5000)) ≡ ok (reserved_books 5000 (some 5000))
settle_request-again_example =
    settle_request-again 1 5000 7000 (reserved_books 16842752 none)
      (reserved_books 5000 (some 5000)) settled

-- The books after the operator set the first policy of the workspace.
abbrev managed_books : Ledger
managed_books = record books {
  policies =
      record {
        workspace_id = "local";
        policy = default_policy;
        version = 1;
        managed = Bool.true;
        updated_at = 1709208000;
      }
      ∷ [];
  history =
      record {
        workspace_id = "local";
        version = 1;
        policy = default_policy;
        managed = Bool.true;
        changed_at = 1709208000;
      }
      ∷ [];
}

managed_first :
    set_workspace_policy ("local" ∷ []) "local" default_policy 0 1709208000 books
    ≡ ok (managed_books, 1)
unfolding set_workspace_policy
managed_first = refl

set_workspace_policy-again_example :
    set_workspace_policy ("local" ∷ []) "local" default_policy 0 1709209000 managed_books
    ≡ err version_changed
set_workspace_policy-again_example =
    set_workspace_policy-again ("local" ∷ []) "local" default_policy default_policy 0 1709208000
      1709209000 books managed_books 1 managed_first

abbrev unfunded_run : Run
unfunded_run = record {
  id = 7;
  provider = some "lichess";
  seed_spec = "DrNykterstein";
  params = [];
  status = RunStatus.running;
  counters = none;
  revision = 1;
  started_at = 0;
  updated_at = 0;
  finished_at = none;
  workspace_id = "local";
  work_budget_id = none;
}

abbrev one_run : Archive
one_run = record {
  jobs = [];
  next_job_id = 1;
  runs = unfunded_run ∷ [];
  next_run_id = 8;
  cooldowns = [];
  outbox = record { rows = []; next_id = 1 };
  edges = [];
  active_caps = [];
  turns = [];
  next_turn = 1;
  clock = 100;
}

abbrev run_seven : WorkBudget
run_seven = run_row 7 "local" default_policy 1 1709208000 2

abbrev funded_books : Ledger
funded_books = record managed_books {
  budgets = unspent ∷ run_seven ∷ [];
  next_budget = 3;
  periods =
      record {
        workspace_id = "local";
        period_start = 1706745600;
        period_end = 1709251200;
        usage = no_usage;
      }
      ∷ [];
}

abbrev funded_run : Archive
funded_run = record one_run { runs = record unfunded_run { work_budget_id = some 2 } ∷ [] }

admitted_first :
    admit_run_budget 7 "local" default_policy 1709208000 one_run managed_books
    ≡ ok (funded_run, funded_books, some run_seven)
unfolding admit_run_budget monthly_period workspace_max used update_jobs
admitted_first = refl

admit_run_budget-again_example :
    admit_run_budget 7 "local" default_policy 1709209000 funded_run funded_books
    ≡ ok (funded_run, funded_books, some run_seven)
admit_run_budget-again_example =
    admit_run_budget-again 7 "local" default_policy default_policy 1709208000 1709209000 one_run
      funded_run managed_books funded_books (some run_seven) admitted_first

abbrev stalled_job : Job
stalled_job = record {
  id = 1;
  provider = some "lichess";
  kind = JobKind.fetch_user_profile;
  target = [];
  params = [];
  state = JobState.blocked;
  priority = 10;
  depth = 0;
  dedup_key = "k";
  crawl_run_id = some 7;
  parent_job_id = none;
  attempts = 1;
  enqueued_at = 100;
  started_at = some 101;
  done_at = none;
  reason = some "budget_exhausted: games";
  retry_count = 0;
  next_attempt_at = none;
  revision = 3;
  ownership_token = none;
  owner_worker_id = none;
  owner_backend_pid = none;
  ownership_generation = 1;
  workspace_id = "local";
  work_budget_id = some 2;
}

abbrev stalled : Archive
stalled = record funded_run { jobs = stalled_job ∷ []; next_job_id = 2 }

abbrev resumed_archive : Archive
resumed_archive = record stalled {
  jobs = record stalled_job { state = JobState.pending; reason = none; revision = 4 } ∷ [];
  outbox = record {
    rows =
        record {
          id = 1;
          job_id = 1;
          job_revision = 4;
          attempts = 0;
          available_at = 0;
          delivered_at = none;
          superseded_at = none;
          last_error = none;
        }
        ∷ [];
    next_id = 2;
  };
}

resumed_seven :
    resume_run_budget 7 "local" default_policy 1709209000 stalled funded_books
    ≡ ok (resumed_archive, funded_books, some run_seven)
unfolding resume_run_budget update_jobs tracked_same
resumed_seven = refl

stalled-IsSound : IsSound stalled
unfolding schedulable_state
stalled-IsSound = record {
  hinted = (λ e. absurd (ground arith), tt);
  single = record { at_key = λ k. unfold holds_key is_live in ground arith };
  unique = record { at_id = λ id. ground arith };
  numbered = (omega arith, tt);
}

resume_run_budget-IsSound_example : IsSound resumed_archive
resume_run_budget-IsSound_example =
    resume_run_budget-IsSound 7 "local" default_policy 1709209000 stalled resumed_archive
      funded_books funded_books (some run_seven) resumed_seven stalled-IsSound
