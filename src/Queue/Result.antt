-- ===== src/Queue/Result.antt =====
-- The errors that the queue's operations raise.
pub use chess_crawl.Prelude.Fallible.{ok, err, ◌>>=◌, ◌>>◌, guard, >>=-eq-ok}
use chess_crawl.Prelude.Fallible.{Fallible}

pub data QueueError : Type 0 where
  unsupported_kind archive_provider stats_provider game_provider : QueueError
  expansion_parent no_provider queued_jobs integrity : QueueError
  job_not_found bad_stage lease_lost bad_params : QueueError

abbrev pub Result {ℓ} : Type ℓ → Type ℓ
Result A = Fallible QueueError A
