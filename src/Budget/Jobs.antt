-- ===== src/Budget/Jobs.antt =====
-- ensure_job_budget and resume_run_budget of storage/work_budgets.py.
use chess_crawl.Prelude.{
  ℕ, ◌+◌, String, Text, codes, Bool, true, false, ◌&&◌, Option, none, some, [], ◌∷◌, ◌++◌, map,
  find, ◌==◌, is_value, str_eq, if◌then◌else◌,
}
use chess_crawl.Queue.Model.{Archive, Job, blocked, pending, same_state}
use chess_crawl.Queue.Write.{find_job, has_id, update_jobs}
use chess_crawl.Budget.Policy.{
  BudgetPolicy, extend, extend_workspace, same_policy, not_owned, Result, ok, err, ◌>>=◌,
}
use chess_crawl.Budget.Ledger.{
  no_usage, WorkBudget, Ledger, is_policy, require, replace_workspace_policy, workspace_policy,
}
use chess_crawl.Budget.Administer.{admission_policy, run_budget, admit_run_budget}

abbrev pub is_of_job : ℕ → WorkBudget → Bool
is_of_job job b = is_value b.standalone_job_id job

-- The row of a job outside every run.
abbrev pub job_row : ℕ → String → BudgetPolicy → ℕ → ℕ → ℕ → WorkBudget
job_row job workspace policy version now id = record {
  id = id;
  workspace_id = workspace;
  crawl_run_id = none;
  standalone_job_id = some job;
  policy = policy;
  usage = no_usage;
  exhausted_dimension = none;
  exhausted_at = none;
  created_at = now;
  updated_at = now;
  workspace_policy_version = some version;
}

-- INSERT … ON CONFLICT(standalone_job_id): the row that is there stays, the sequence moves.
unfoldable pub book_job : ℕ → String → BudgetPolicy → ℕ → ℕ → Ledger → Ledger × ℕ
book_job job workspace policy version now l = elim (find (is_of_job job) l.budgets) [
  | some b ↦ (record l { next_budget = l.next_budget + 1 }, b.id)
  | none ↦ (
    record l {
      budgets = l.budgets ++ job_row job workspace policy version now l.next_budget ∷ [];
      next_budget = l.next_budget + 1;
    },
    l.next_budget,
  )
]

-- A job outside every run.
unfoldable pub ensure_own_budget :
    Job → BudgetPolicy → ℕ → Archive → Ledger → Result (Archive × Ledger × ℕ)
unfolding workspace_policy admission_policy book_job
ensure_own_budget j policy now db l = do
  w ← workspace_policy j.workspace_id policy now true false l
  admitted ← admission_policy j.workspace_id policy w.0
  let booked = book_job j.id j.workspace_id admitted.0 admitted.1 now w.0
  ok (
    update_jobs (has_id j.id) (λ (k : Job). record k { work_budget_id = some booked.1 }) db,
    booked.0,
    booked.1,
  )

-- ensure_job_budget, with the budget's id.
unfoldable pub ensure_job_budget :
    ℕ → BudgetPolicy → ℕ → Archive → Ledger → Result (Archive × Ledger × ℕ)
unfolding admit_run_budget ensure_own_budget
ensure_job_budget id policy now db l = do
  j ← require (find_job id db.jobs)
  elim j.work_budget_id [
    | some budget ↦ ok (db, l, budget)
    | none ↦ elim j.crawl_run_id [
      | none ↦ ensure_own_budget j policy now db l
      | some run ↦ do
        admitted ← admit_run_budget run j.workspace_id policy now db l
        b ← require admitted.2
        ok (admitted.0, admitted.1, b.id)
    ]
  ]

abbrev pub starts_with : Text → Text → Bool
starts_with [] t = true
starts_with (c ∷ s) [] = false
starts_with (c ∷ s) (d ∷ t) = c == d && starts_with s t

-- state='blocked' AND reason LIKE 'budget_exhausted:%'
unfoldable pub is_exhausted : ℕ → Job → Bool
is_exhausted budget j =
    is_value j.work_budget_id budget && same_state j.state blocked && elim j.reason [
      | none ↦ false
      | some reason ↦ starts_with (codes "budget_exhausted:") (codes reason)
    ]

unfoldable pub released_job : Job → Job
released_job j = record j { state = pending; reason = none; next_attempt_at = none }

-- The workspace's ceilings follow, if the submitted ones are higher.
unfoldable pub extend_shared : String → BudgetPolicy → BudgetPolicy → ℕ → Ledger → Result Ledger
unfolding extend_workspace same_policy replace_workspace_policy
extend_shared workspace stored submitted now l =
    let extended : BudgetPolicy = extend_workspace stored submitted in
    if same_policy extended stored then ok l else (do
      row ← require (find (is_policy workspace) l.policies)
      replaced ← replace_workspace_policy workspace extended now row.managed l
      ok replaced.0)

abbrev pub extended_row : WorkBudget → BudgetPolicy → Ledger → Ledger
extended_row row policy l = record l {
  budgets =
      map
        (λ (b : WorkBudget).
          if b.id == row.id
          then record b {
            policy = extend row.policy policy;
            exhausted_dimension = none;
            exhausted_at = none;
          }
          else b)
        l.budgets;
}

abbrev pub owned_row : Option WorkBudget → Result WorkBudget
owned_row none = err not_owned
owned_row (some b) = ok b

-- resume_run_budget, with the row of the snapshot that it returns.
unfoldable pub resume_run_budget :
    ℕ → String → BudgetPolicy → ℕ → Archive → Ledger → Result (Archive × Ledger × Option WorkBudget)
unfolding run_budget extend workspace_policy extend_shared is_exhausted released_job
resume_run_budget run workspace policy now db l = do
  row ← owned_row (run_budget run workspace l)
  w ← workspace_policy workspace row.policy now false false (extended_row row policy l)
  shared ← extend_shared workspace w.1 policy now w.0
  ok (update_jobs (is_exhausted row.id) released_job db, shared, run_budget run workspace shared)

-- get_job_budget, without the figures of its snapshot: job and budget are the workspace's.
unfoldable pub job_budget : ℕ → String → Archive → Ledger → Option WorkBudget
job_budget id workspace db l = elim (find_job id db.jobs) [
  | none ↦ none
  | some j ↦
      if str_eq j.workspace_id workspace
      then find
          (λ (b : WorkBudget). is_value j.work_budget_id b.id && str_eq b.workspace_id workspace)
          l.budgets
      else none
]
