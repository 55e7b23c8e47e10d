-- ===== src/Budget/Ledger.antt =====
-- The tables of 0012_work_budgets.sql, and how storage/work_budgets.py reads and locks their rows.
use chess_crawl.Prelude.{
  ℕ, ◌+◌, String, Bool, false, not, ◌&&◌, Option, none, some, List, [], ◌∷◌, ◌++◌, map, ◌==◌,
  str_eq, if◌then◌else◌, find, any,
}
use chess_crawl.Budget.Policy.{
  BudgetPolicy, Dimension, games, normalization_units, remote_bytes, remote_requests, Result, ok,
  err, missing_row, tighten, same_policy, ◌>>=◌,
}
use chess_crawl.Budget.Calendar.{monthly_period}

-- The four counters of a budget or a period.
pub record Usage : Type 0 where
  pub games : ℕ
  pub normalization_units : ℕ
  pub remote_bytes : ℕ
  pub remote_requests : ℕ

abbrev pub no_usage : Usage
no_usage = record { games = 0; normalization_units = 0; remote_bytes = 0; remote_requests = 0 }

unfoldable pub used : Dimension → Usage → ℕ
used games u = u.games
used normalization_units u = u.normalization_units
used remote_bytes u = u.remote_bytes
used remote_requests u = u.remote_requests

-- A row of work_budgets.
pub record WorkBudget : Type 0 where
  pub id : ℕ
  pub workspace_id : String
  pub crawl_run_id : Option ℕ
  pub standalone_job_id : Option ℕ
  pub policy : BudgetPolicy
  pub usage : Usage
  pub exhausted_dimension : Option Dimension
  pub exhausted_at : Option ℕ
  pub created_at : ℕ
  pub updated_at : ℕ
  pub workspace_policy_version : Option ℕ

-- A row of workspace_budget_periods.
pub record Period : Type 0 where
  pub workspace_id : String
  pub period_start : ℕ
  pub period_end : ℕ
  pub usage : Usage

-- A row of workspace_budget_policies.
pub record WorkspacePolicy : Type 0 where
  pub workspace_id : String
  pub policy : BudgetPolicy
  pub version : ℕ
  pub managed : Bool
  pub updated_at : ℕ

-- A row of workspace_policy_history.
pub record PolicyChange : Type 0 where
  pub workspace_id : String
  pub version : ℕ
  pub policy : BudgetPolicy
  pub managed : Bool
  pub changed_at : ℕ

-- A row of work_request_reservations.
pub record Reservation : Type 0 where
  pub id : ℕ
  pub budget_id : ℕ
  pub workspace_id : String
  pub period_start : ℕ
  pub reserved_bytes : ℕ
  pub consumed_bytes : Option ℕ
  pub created_at : ℕ

pub record Ledger : Type 0 where
  pub budgets : List WorkBudget
  pub next_budget : ℕ
  pub periods : List Period
  pub policies : List WorkspacePolicy
  pub history : List PolicyChange
  pub reservations : List Reservation
  pub next_reservation : ℕ
  pub game_items : List (ℕ × String)

abbrev pub find_budget : ℕ → List WorkBudget → Option WorkBudget
find_budget id = find (λ (b : WorkBudget). b.id == id)

abbrev pub is_period : String → ℕ → Period → Bool
is_period workspace start p = str_eq p.workspace_id workspace && p.period_start == start

abbrev pub is_policy : String → WorkspacePolicy → Bool
is_policy workspace p = str_eq p.workspace_id workspace

-- require_row
abbrev pub require {ℓ} : {A : Type ℓ} → Option A → Result A
require none = err missing_row
require (some a) = ok a

-- _period: INSERT … ON CONFLICT DO NOTHING, then the row.
unfoldable pub ensure_period : String → ℕ → ℕ → List Period → List Period
ensure_period workspace start end ps =
    if any (is_period workspace start) ps
    then ps
    else ps
      ++ record {
        workspace_id = workspace;
        period_start = start;
        period_end = end;
        usage = no_usage;
      }
        ∷ []

unfoldable pub period_row : String → ℕ → Ledger → Result (Ledger × Period)
unfolding ensure_period
period_row workspace now l = do
  let (start, end) = monthly_period now
  let periods : List Period = ensure_period workspace start end l.periods
  p ← require (find (is_period workspace start) periods)
  ok (record l { periods = periods }, p)

abbrev pub history_row : WorkspacePolicy → PolicyChange
history_row p = record {
  workspace_id = p.workspace_id;
  version = p.version;
  policy = p.policy;
  managed = p.managed;
  changed_at = p.updated_at;
}

-- INSERT … ON CONFLICT DO NOTHING: a version that is there already stays as it is.
unfoldable pub record_history : WorkspacePolicy → List PolicyChange → List PolicyChange
record_history p h =
    if any (λ (c : PolicyChange). str_eq c.workspace_id p.workspace_id && c.version == p.version) h
    then h
    else h ++ history_row p ∷ []

-- The first policy of a workspace has version 1 (the column's default in 0017_workspace_access.sql).
unfoldable pub ensure_policy :
    String → BudgetPolicy → ℕ → Bool → List WorkspacePolicy → List WorkspacePolicy
ensure_policy workspace policy now managed ps =
    if any (is_policy workspace) ps
    then ps
    else ps
      ++ record {
        workspace_id = workspace;
        policy = policy;
        version = 1;
        managed = managed;
        updated_at = now;
      }
        ∷ []

abbrev pub map_policy :
    String → (WorkspacePolicy → WorkspacePolicy) → List WorkspacePolicy → List WorkspacePolicy
map_policy workspace f = map (λ (p : WorkspacePolicy). if is_policy workspace p then f p else p)

-- _replace_workspace_policy, with the version that it returns.
unfoldable pub replace_workspace_policy :
    String → BudgetPolicy → ℕ → Bool → Ledger → Result (Ledger × ℕ)
replace_workspace_policy workspace policy now managed l = do
  row ← require (find (is_policy workspace) l.policies)
  let revised : WorkspacePolicy = record row {
    policy = policy;
    updated_at = now;
    managed = managed;
    version = row.version + 1;
  }
  let policies : List WorkspacePolicy = map_policy workspace (λ _. revised) l.policies
  ok (
    record l { policies = policies; history = l.history ++ history_row revised ∷ [] },
    row.version + 1,
  )

-- _workspace_policy
unfoldable pub workspace_policy :
    String → BudgetPolicy → ℕ → Bool → Bool → Ledger → Result (Ledger × BudgetPolicy)
unfolding ensure_policy record_history replace_workspace_policy
workspace_policy workspace policy now tightening managed l = do
  let policies : List WorkspacePolicy = ensure_policy workspace policy now managed l.policies
  row ← require (find (is_policy workspace) policies)
  let noted : Ledger = record l { policies = policies; history = record_history row l.history }
  let effective = tighten row.policy policy
  if tightening && not row.managed
      then if same_policy effective row.policy then ok (noted, effective) else (do
        replaced ← replace_workspace_policy workspace effective now false noted
        ok (replaced.0, effective))
      else ok (noted, row.policy)

-- What _locked_budget returns beside the rows that it creates.
pub record Locked : Type 0 where
  pub budget : WorkBudget
  pub usage : Period
  pub workspace_policy : BudgetPolicy

unfoldable pub locked_budget : ℕ → ℕ → Ledger → Result (Ledger × Locked)
unfolding workspace_policy period_row
locked_budget id now l = do
  b ← require (find_budget id l.budgets)
  w ← workspace_policy b.workspace_id b.policy now false false l
  p ← period_row b.workspace_id now w.0
  ok (p.0, record { budget = b; usage = p.1; workspace_policy = w.1 })
