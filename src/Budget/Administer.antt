-- ===== src/Budget/Administer.antt =====
-- set_workspace_policy, _admission_policy, install_workspace_policy, admit_run_budget and
-- require_backlog_room of storage/work_budgets.py, and validate_workspace of storage/workspaces.py.
-- `workspaces` are the ids in the table of that name.
use chess_crawl.Prelude.{
  ℕ, ◌+◌, ◌^◌, String, Bool, true, false, not, ◌&&◌, ◌||◌, Text, codes, length, Option, none, some,
  List, [], ◌∷◌, ◌++◌, map, any, count, find, ◌==◌, leb, ltb, str_eq, is_value, if◌then◌else◌,
}
use chess_crawl.Queue.Model.{Archive, Job, Run, is_live}
use chess_crawl.Queue.Write.{find_run, update_jobs}
use chess_crawl.Queue.Runs.{in_run, internal_strategy}
use chess_crawl.Budget.Policy.{
  BudgetPolicy, Dimension, games, normalization_units, remote_bytes, remote_requests, workspace_max,
  quota_exceeded, queued_jobs, not_owned, version_changed, workspace_missing, invalid_workspace,
  bad_version, duplicate_budget, Result, ok, err, guard, ◌>>=◌, ◌>>◌,
}
use chess_crawl.Budget.Ledger.{
  used, no_usage, WorkBudget, Period, WorkspacePolicy, Ledger, is_policy, require, period_row,
  replace_workspace_policy, workspace_policy, locked_budget,
}

-- [A-Za-z0-9_-]
abbrev pub is_name_code : ℕ → Bool
is_name_code c =
    (leb 65 c && leb c 90)
    || (leb 97 c && leb c 122)
    || (leb 48 c && leb c 57)
    || c == 95
    || c == 45

abbrev pub all_codes : (ℕ → Bool) → Text → Bool
all_codes p [] = true
all_codes p (c ∷ t) = p c && all_codes p t

-- validate_workspace
unfoldable pub validate_workspace : String → Bool
validate_workspace id =
    let name : Text = codes id in
    leb 1 (length name)
    && leb (length name) 100
    && all_codes is_name_code name
    && not (str_eq id "public")

unfoldable pub create_policy :
    List String → String → BudgetPolicy → ℕ → Ledger → Result (Ledger × ℕ)
unfolding workspace_policy
create_policy workspaces workspace policy now l = do
  guard (any (str_eq workspace) workspaces) workspace_missing
  created ← workspace_policy workspace policy now false true l
  ok (created.0, 1)

-- The change of the row that was locked. Its version has to be the expected one, and 0 creates it.
unfoldable pub revise_policy :
    List String
    → String
    → BudgetPolicy
    → ℕ
    → ℕ
    → Ledger
    → Option WorkspacePolicy
    → Result (Ledger × ℕ)
unfolding create_policy replace_workspace_policy
revise_policy workspaces workspace policy expected_version now l none =
    if expected_version == 0
    then create_policy workspaces workspace policy now l
    else err version_changed
revise_policy workspaces workspace policy expected_version now l (some row) =
    if row.version == expected_version
    then replace_workspace_policy workspace policy now true l
    else err version_changed

unfoldable pub set_workspace_policy :
    List String → String → BudgetPolicy → ℕ → ℕ → Ledger → Result (Ledger × ℕ)
unfolding validate_workspace revise_policy
set_workspace_policy workspaces workspace policy expected_version now l = do
  guard (validate_workspace workspace) invalid_workspace
  guard (ltb expected_version (2 ^ 63)) bad_version
  revise_policy workspaces workspace policy expected_version now l
      (find (is_policy workspace) l.policies)

-- _admission_policy: what the operator set, or what was submitted.
unfoldable pub admission_policy : String → BudgetPolicy → Ledger → Result (BudgetPolicy × ℕ)
admission_policy workspace submitted l = do
  row ← require (find (is_policy workspace) l.policies)
  ok (if row.managed then row.policy else submitted, row.version)

unfoldable pub install_workspace_policy :
    String → BudgetPolicy → ℕ → Bool → Ledger → Result (Ledger × BudgetPolicy)
unfolding workspace_policy
install_workspace_policy workspace policy now managed =
    workspace_policy workspace policy now true managed

-- The jobs of a workspace that are not finished.
unfoldable pub queued : String → List Job → ℕ
queued workspace = count (λ (j : Job). str_eq j.workspace_id workspace && is_live j.state)

-- The first dimension of which the month has nothing left.
unfoldable pub require_quota : BudgetPolicy → Period → List Dimension → Result (Unit {0})
require_quota policy usage [] = ok tt
require_quota policy usage (d ∷ ds) =
    let rest : Result (Unit {0}) = require_quota policy usage ds in
    if leb (workspace_max d policy) (used d usage.usage)
    then err (quota_exceeded d 0 usage.period_end)
    else rest

abbrev pub metered : Bool → List Dimension
metered true = normalization_units ∷ []
metered false = games ∷ normalization_units ∷ remote_bytes ∷ remote_requests ∷ []

abbrev pub has_no_provider : Run → Bool
has_no_provider r = elim r.provider [ none ↦ true | some _ ↦ false ]

-- get_run_budget, without the figures of its snapshot.
unfoldable pub run_budget : ℕ → String → Ledger → Option WorkBudget
run_budget run workspace l =
    find (λ (b : WorkBudget). is_value b.crawl_run_id run && str_eq b.workspace_id workspace)
      l.budgets

-- The rows of the archive that take the budget over; no trigger watches the column.
unfoldable pub assign_budget : ℕ → ℕ → Archive → Archive
assign_budget run budget db =
    update_jobs (in_run run) (λ (j : Job). record j { work_budget_id = some budget })
      (record db {
        runs =
            map (λ (r : Run). if r.id == run then record r { work_budget_id = some budget } else r)
              db.runs;
      })

abbrev pub run_row : ℕ → String → BudgetPolicy → ℕ → ℕ → ℕ → WorkBudget
run_row run workspace policy version now id = record {
  id = id;
  workspace_id = workspace;
  crawl_run_id = some run;
  standalone_job_id = none;
  policy = policy;
  usage = no_usage;
  exhausted_dimension = none;
  exhausted_at = none;
  created_at = now;
  updated_at = now;
  workspace_policy_version = some version;
}

-- The admission of a run that has no budget yet. crawl_run_id is unique in work_budgets.
unfoldable pub admit_new :
    Run
    → ℕ
    → String
    → BudgetPolicy
    → ℕ
    → Archive
    → Ledger
    → Result (Archive × Ledger × Option WorkBudget)
unfolding workspace_policy admission_policy period_row internal_strategy require_quota queued
    assign_budget run_budget
admit_new r run workspace policy now db l = do
  w ← workspace_policy workspace policy now true false l
  admitted ← admission_policy workspace policy w.0
  p ← period_row workspace now w.0
  require_quota w.1 p.1 (metered (has_no_provider r && internal_strategy r.params))
  guard
      (leb (queued workspace db.jobs)
        (w.1.workspace_max_queued_jobs + w.1.workspace_max_active_jobs))
      (queued_jobs p.1.period_end)
  guard (not (any (λ (b : WorkBudget). is_value b.crawl_run_id run) p.0.budgets)) duplicate_budget
  let id : ℕ = p.0.next_budget
  let booked : Ledger = record p.0 {
    budgets = p.0.budgets ++ run_row run workspace admitted.0 admitted.1 now id ∷ [];
    next_budget = id + 1;
  }
  ok (assign_budget run id db, booked, run_budget run workspace booked)

unfoldable pub admit_run_budget :
    ℕ → String → BudgetPolicy → ℕ → Archive → Ledger → Result (Archive × Ledger × Option WorkBudget)
unfolding admit_new run_budget
admit_run_budget run workspace policy now db l = do
  r ← require (find_run run db.runs)
  guard (str_eq r.workspace_id workspace) not_owned
  elim r.work_budget_id [
    | some _ ↦ ok (db, l, run_budget run workspace l)
    | none ↦ admit_new r run workspace policy now db l
  ]

-- require_backlog_room: the rows that it locks or creates, or the error.
unfoldable pub require_backlog_room : ℕ → ℕ → Archive → Ledger → Result Ledger
unfolding locked_budget queued
require_backlog_room id now db l = do
  k ← locked_budget id now l
  guard
      (ltb (queued k.1.budget.workspace_id db.jobs) (
        k.1.workspace_policy.workspace_max_queued_jobs
        + k.1.workspace_policy.workspace_max_active_jobs))
      (queued_jobs k.1.usage.period_end)
  ok k.0
