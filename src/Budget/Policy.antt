-- ===== src/Budget/Policy.antt =====
-- BudgetPolicy of jobs/budget.py, and the errors of an exhausted budget.
pub use chess_crawl.Prelude.Fallible.{ok, err, ◌>>=◌, ◌>>◌, guard, >>=-eq-ok}
use chess_crawl.Prelude.Fallible.{Fallible}
use chess_crawl.Prelude.{ℕ, ◌^◌, min, max, Bool, ◌&&◌, ltb, leb, ◌==◌}

pub record BudgetPolicy : Type 0 where
  pub job_max_games : ℕ
  pub job_max_normalization_units : ℕ
  pub job_max_remote_bytes : ℕ
  pub job_max_remote_requests : ℕ
  pub max_response_bytes : ℕ
  pub workspace_max_games : ℕ
  pub workspace_max_normalization_units : ℕ
  pub workspace_max_remote_bytes : ℕ
  pub workspace_max_remote_requests : ℕ
  pub workspace_max_active_jobs : ℕ
  pub workspace_max_queued_jobs : ℕ

-- One field of __post_init__.
abbrev pub in_bigint : ℕ → Bool
in_bigint n = leb 1 n && ltb n (2 ^ 63)

unfoldable pub is_valid : BudgetPolicy → Bool
is_valid p =
    in_bigint p.job_max_games
    && in_bigint p.job_max_normalization_units
    && in_bigint p.job_max_remote_bytes
    && in_bigint p.job_max_remote_requests
    && in_bigint p.max_response_bytes
    && in_bigint p.workspace_max_games
    && in_bigint p.workspace_max_normalization_units
    && in_bigint p.workspace_max_remote_bytes
    && in_bigint p.workspace_max_remote_requests
    && in_bigint p.workspace_max_active_jobs
    && in_bigint p.workspace_max_queued_jobs

abbrev pub default_policy : BudgetPolicy
default_policy = record {
  job_max_games = 100000;
  job_max_normalization_units = 100000;
  job_max_remote_bytes = 268435456;
  job_max_remote_requests = 2000;
  max_response_bytes = 16777216;
  workspace_max_games = 1000000;
  workspace_max_normalization_units = 1000000;
  workspace_max_remote_bytes = 2147483648;
  workspace_max_remote_requests = 10000;
  workspace_max_active_jobs = 2;
  workspace_max_queued_jobs = 32;
}

-- The four dimensions that are metered.
pub data Dimension : Type 0 where
  games normalization_units remote_bytes remote_requests : Dimension

-- getattr(policy, "job_max_" + dimension)
unfoldable pub job_max : Dimension → BudgetPolicy → ℕ
job_max games p = p.job_max_games
job_max normalization_units p = p.job_max_normalization_units
job_max remote_bytes p = p.job_max_remote_bytes
job_max remote_requests p = p.job_max_remote_requests

-- getattr(policy, "workspace_max_" + dimension)
unfoldable pub workspace_max : Dimension → BudgetPolicy → ℕ
workspace_max games p = p.workspace_max_games
workspace_max normalization_units p = p.workspace_max_normalization_units
workspace_max remote_bytes p = p.workspace_max_remote_bytes
workspace_max remote_requests p = p.workspace_max_remote_requests

-- The workspace ceilings of the first, no higher than those of the second.
unfoldable pub tighten : BudgetPolicy → BudgetPolicy → BudgetPolicy
tighten stored submitted = record stored {
  workspace_max_games = min stored.workspace_max_games submitted.workspace_max_games;
  workspace_max_normalization_units =
      min stored.workspace_max_normalization_units submitted.workspace_max_normalization_units;
  workspace_max_remote_bytes =
      min stored.workspace_max_remote_bytes submitted.workspace_max_remote_bytes;
  workspace_max_remote_requests =
      min stored.workspace_max_remote_requests submitted.workspace_max_remote_requests;
  workspace_max_active_jobs =
      min stored.workspace_max_active_jobs submitted.workspace_max_active_jobs;
  workspace_max_queued_jobs =
      min stored.workspace_max_queued_jobs submitted.workspace_max_queued_jobs;
}

-- The workspace ceilings of the first, no lower than those of the second.
unfoldable pub extend_workspace : BudgetPolicy → BudgetPolicy → BudgetPolicy
extend_workspace stored submitted = record stored {
  workspace_max_games = max stored.workspace_max_games submitted.workspace_max_games;
  workspace_max_normalization_units =
      max stored.workspace_max_normalization_units submitted.workspace_max_normalization_units;
  workspace_max_remote_bytes =
      max stored.workspace_max_remote_bytes submitted.workspace_max_remote_bytes;
  workspace_max_remote_requests =
      max stored.workspace_max_remote_requests submitted.workspace_max_remote_requests;
  workspace_max_active_jobs =
      max stored.workspace_max_active_jobs submitted.workspace_max_active_jobs;
  workspace_max_queued_jobs =
      max stored.workspace_max_queued_jobs submitted.workspace_max_queued_jobs;
}

-- Every ceiling no lower than before.
unfoldable pub extend : BudgetPolicy → BudgetPolicy → BudgetPolicy
unfolding extend_workspace
extend previous submitted =
    let widened = extend_workspace previous submitted in
    record widened {
      job_max_games = max previous.job_max_games submitted.job_max_games;
      job_max_normalization_units =
          max previous.job_max_normalization_units submitted.job_max_normalization_units;
      job_max_remote_bytes = max previous.job_max_remote_bytes submitted.job_max_remote_bytes;
      job_max_remote_requests =
          max previous.job_max_remote_requests submitted.job_max_remote_requests;
      max_response_bytes = max previous.max_response_bytes submitted.max_response_bytes;
    }

unfoldable pub same_policy : BudgetPolicy → BudgetPolicy → Bool
same_policy p q =
    p.job_max_games == q.job_max_games
    && p.job_max_normalization_units == q.job_max_normalization_units
    && p.job_max_remote_bytes == q.job_max_remote_bytes
    && p.job_max_remote_requests == q.job_max_remote_requests
    && p.max_response_bytes == q.max_response_bytes
    && p.workspace_max_games == q.workspace_max_games
    && p.workspace_max_normalization_units == q.workspace_max_normalization_units
    && p.workspace_max_remote_bytes == q.workspace_max_remote_bytes
    && p.workspace_max_remote_requests == q.workspace_max_remote_requests
    && p.workspace_max_active_jobs == q.workspace_max_active_jobs
    && p.workspace_max_queued_jobs == q.workspace_max_queued_jobs

-- BudgetExceeded with its dimension and remaining amount, QuotaExceeded with its reset too, and the
-- ValueError, KeyError and RuntimeError of the operations.
pub data BudgetError : Type 0 where
  budget_exceeded : Dimension → ℕ → BudgetError
  quota_exceeded : Dimension → ℕ → ℕ → BudgetError
  queued_jobs : ℕ → BudgetError
  payload_bytes : BudgetError
  missing_row payload_missing not_owned bad_consumption bad_units : BudgetError
  version_changed workspace_missing invalid_workspace bad_version duplicate_budget : BudgetError

abbrev pub Result {ℓ} : Type ℓ → Type ℓ
Result A = Fallible BudgetError A
