-- ===== src/Queue/Examples.antt =====
-- A session that enqueues one fetch into an empty archive and claims it, and a run of jobs.
use mathlib.Core.Bool.{xor}
use chess_crawl.Prelude.Texts.{lower, strip}
use chess_crawl.Prelude.{
  ℕ, ◌≤◌, ◌≡◌, refl, true, false, none, some, [], ◌∷◌, codes, arith, if◌then◌else◌, max, ltb, ◌+◌,
  ◌≢◌, ◌↔◌,
}
use chess_crawl.Queue.Model.{
  Archive, Job, Run, running, cancelled, parse_kind, is_archive_kind, pending, in_progress, blocked,
  error, fetch_user_profile, acquisition_provider, executor_job, is_processing_kind,
}
use chess_crawl.Queue.Write.{
  Session, find_run, hint, insert_job, schedulable_state, update_jobs, tracked_same,
}
use chess_crawl.Queue.Admission.{
  run_allows_work, retry_due, processing_ready, provider_ready, below_active_cap, active_jobs,
  active_cap, claim_admission, waiting_reason, eligible,
}
use chess_crawl.Queue.Admission.Reasons.{waiting_reason-eligible}
use chess_crawl.Queue.Result.{ok}
use chess_crawl.Queue.Enqueue.{Digest, Backlog, Request, EnqueueResult, enqueue_job}
use chess_crawl.Queue.Dedup.{IsDeduplicated, enqueue_job-IsDeduplicated}
use chess_crawl.Queue.Idempotence.{enqueue_job-again}
use chess_crawl.Queue.Idempotence.Users.{identity, enqueue_job-same_user}
use chess_crawl.Queue.Claim.{Environment, ClaimOptions, claim_next_job, job_claimed, out_of_fuel}
use chess_crawl.Queue.Claim.Soundness.{claim_next_job-Took}
use chess_crawl.Queue.Claim.Ownership.{IsClaimed, claim_next_job-IsClaimed}
use chess_crawl.Queue.Claim.Progress.{claim_next_job-ne-out_of_fuel}
use chess_crawl.Queue.Claim.Cap.{claim_next_job-cap}
use chess_crawl.Queue.Runs.{refresh_run_status, refresh_crawl_runs}
use chess_crawl.Queue.Runs.Status.{
  IsRefreshed, refresh_run_status-live, refresh_crawl_runs-cancelled,
}
use chess_crawl.Queue.Attempts.{
  RetryPolicy, Finish, retry_delay, finish_attempt, provider_ready_at, delay_of,
}
use chess_crawl.Queue.Attempts.Retry.{IsLeft, retry_delay_bounds, finish_attempt-transient}
use chess_crawl.Queue.Soundness.{HasUniqueIds, IsSound}
use chess_crawl.Queue.Runs.{create_crawl_run}
use chess_crawl.Queue.Roots.Creation.{IsRooted, create_crawl_run_with_root_job-IsRooted}
use chess_crawl.Queue.Roots.{Root, create_crawl_run_with_root_job, next_pacing_deadline}
use chess_crawl.Queue.Reach.{here, next, Step, Reach-IsSound}

abbrev digest : Digest
digest p = p.kind

abbrev room : Backlog
room budget db = true

abbrev session : Session
session = record {
  backend_pid = 7;
  workspace = "local";
  work_budget_id = none;
  job_fence = none;
  ownership_keys = [];
}

abbrev open_run : Run
open_run = record {
  id = 1;
  provider = some "lichess";
  seed_spec = "DrNykterstein";
  params = [];
  status = running;
  counters = none;
  revision = 1;
  started_at = 0;
  updated_at = 0;
  finished_at = none;
  workspace_id = "local";
  work_budget_id = none;
}

abbrev cancelled_run : Run
cancelled_run = record open_run { id = 2; status = cancelled }

abbrev empty_archive : Archive
empty_archive = record {
  jobs = [];
  next_job_id = 1;
  runs = open_run ∷ cancelled_run ∷ [];
  next_run_id = 3;
  cooldowns = [];
  outbox = record { rows = []; next_id = 1 };
  edges = [];
  active_caps = [];
  turns = [];
  next_turn = 1;
  clock = 100;
}

abbrev request : Request
request = record {
  provider = some "lichess";
  kind = "fetch_user_profile";
  target = codes " DrNykterstein";
  params = [];
  crawl_run_id = some 1;
  parent_job_id = none;
  depth = 0;
  priority = 10;
  now = 100;
  dedup_key = none;
  reuse_terminal = false;
}

-- The row that the request inserts.
abbrev profile_job : Job
profile_job = record {
  id = 1;
  provider = some "lichess";
  kind = fetch_user_profile;
  target = codes "DrNykterstein";
  params = [];
  state = pending;
  priority = 10;
  depth = 0;
  dedup_key = "fetch_user_profile";
  crawl_run_id = some 1;
  parent_job_id = none;
  attempts = 0;
  enqueued_at = 100;
  started_at = none;
  done_at = none;
  reason = none;
  retry_count = 0;
  next_attempt_at = none;
  revision = 1;
  ownership_token = none;
  owner_worker_id = none;
  owner_backend_pid = none;
  ownership_generation = 0;
  workspace_id = "local";
  work_budget_id = none;
}

abbrev one_job : Archive
one_job = record empty_archive {
  jobs = profile_job ∷ [];
  next_job_id = 2;
  outbox = record { rows = hint profile_job 1 ∷ []; next_id = 2 };
}

abbrev first_result : EnqueueResult
first_result = record { job_id = 1; inserted = true }

enqueued : enqueue_job digest room session request empty_archive ≡ ok (one_job, first_result)
unfolding enqueue_job parse_kind xor is_archive_kind insert_job strip
enqueued = refl

-- Nothing else is locked.
abbrev quiet : Environment
quiet = record { locked = λ key. false; row_locked = λ id. false; token = "abc" }

abbrev options : ClaimOptions
options = record {
  crawl_run_id = none;
  now = 101;
  worker_id = some "w1";
  job_id = none;
  stage = "all";
  cap = 2;
  respect_fairness = true;
}

abbrev active_job : Job
active_job = record profile_job {
  state = in_progress;
  attempts = 1;
  started_at = some 101;
  revision = 2;
  ownership_token = some "abc";
  owner_worker_id = some "w1";
  owner_backend_pid = some 7;
  ownership_generation = 1;
}

abbrev active : Archive
active = record one_job {
  jobs = active_job ∷ [];
  outbox = record {
    rows = record (hint profile_job 1) { superseded_at = some 100 } ∷ [];
    next_id = 2;
  };
  turns = ("local", "all", 1) ∷ [];
  next_turn = 2;
}

abbrev owner : Session
owner = record session {
  job_fence = some (1, "abc");
  ownership_keys = acquisition_provider (some "lichess") ∷ executor_job 1 ∷ [];
}

claimed_first :
    claim_next_job quiet options session one_job ≡ job_claimed active owner (some active_job)
unfolding claim_next_job claim_admission run_allows_work schedulable_state retry_due
    processing_ready provider_ready is_processing_kind below_active_cap active_jobs active_cap
    update_jobs tracked_same
claimed_first = refl

empty-IsSound : IsSound empty_archive
empty-IsSound = record {
  hinted = tt;
  single = record { at_key = λ k. omega arith };
  unique = record { at_id = λ id. omega arith };
  numbered = tt;
}

Reach-IsSound_example : IsSound active
Reach-IsSound_example = Reach-IsSound digest room empty-IsSound (
    next (next here (Step.enqueue session request first_result enqueued))
      (Step.claim quiet options session owner (some active_job) claimed_first))

one_job-HasUniqueIds : HasUniqueIds one_job.jobs
one_job-HasUniqueIds = record { at_id = λ id. ground arith }

claim_next_job-IsClaimed_example :
    IsClaimed quiet options session one_job active owner (some active_job)
claim_next_job-IsClaimed_example =
    claim_next_job-IsClaimed quiet options session one_job active owner (some active_job)
      one_job-HasUniqueIds claimed_first

claim_next_job-ne-out_of_fuel_example : claim_next_job quiet options session one_job ≢ out_of_fuel
claim_next_job-ne-out_of_fuel_example = claim_next_job-ne-out_of_fuel quiet options session one_job

claim_next_job-cap_example :
    let workspace =
      (claim_next_job-Took quiet options session one_job active owner
        (some active_job)
        claimed_first).row.workspace_id in
    active_jobs workspace active.jobs ≤ active_cap 2 one_job workspace
claim_next_job-cap_example =
    claim_next_job-cap quiet options session one_job active owner (some active_job)
      one_job-HasUniqueIds claimed_first

enqueue_job-IsDeduplicated_example : IsDeduplicated one_job.jobs
enqueue_job-IsDeduplicated_example =
    enqueue_job-IsDeduplicated digest room session request empty_archive one_job first_result
      enqueued (record { at_key = λ k. omega arith })

enqueue_job-again_example :
    enqueue_job digest room session request one_job
    ≡ ok (one_job, record { job_id = 1; inserted = false })
enqueue_job-again_example =
    enqueue_job-again digest room session request empty_archive one_job first_result enqueued

-- The same user, written in lower case, from another crawl depth and later.
abbrev lower_request : Request
lower_request = record request { target = codes "drnykterstein "; depth = 2; now = 130 }

one_identity : identity lower_request ≡ identity request
unfolding lower strip
one_identity = refl

enqueue_job-same_user_example :
    (enqueue_job digest room session lower_request one_job
      ≡ ok (one_job, record { job_id = 1; inserted = false }))
    ↔ (lower (strip (codes "drnykterstein ")) ≡ lower (strip (codes " DrNykterstein")))
enqueue_job-same_user_example =
    enqueue_job-same_user digest room session request lower_request (refl, refl, refl) empty_archive
      one_job first_result (λ same. one_identity) one_job-HasUniqueIds enqueued

waiting_reason-eligible_example :
    waiting_reason 101 2 one_job profile_job ≡ eligible
    ↔ claim_admission 101 2 one_job profile_job ≡ true
waiting_reason-eligible_example = waiting_reason-eligible 101 2 one_job profile_job

refresh_run_status-live_example :
    IsRefreshed 1 200 active open_run (refresh_run_status 1 200 active)
refresh_run_status-live_example = refresh_run_status-live 1 200 active open_run refl refl

refresh_crawl_runs-cancelled_example :
    find_run 2 (refresh_crawl_runs none 200 active).runs ≡ some cancelled_run
refresh_crawl_runs-cancelled_example =
    refresh_crawl_runs-cancelled none 2 200 active cancelled_run refl refl

abbrev policy : RetryPolicy
policy = record { job_max_retries = 3; job_retry_base_s = 10; job_retry_max_s = 300 }

retry_delay_bounds_example :
    (5 ≤ retry_delay policy 2 5 (some 60))
    × (60 ≤ retry_delay policy 2 5 (some 60))
    × (retry_delay policy 2 5 (some 60) ≤ max (max 300 5) 60)
retry_delay_bounds_example = retry_delay_bounds policy 2 5 (some 60)

abbrev timeout : Finish
timeout = record {
  outcome = error;
  reason = "timeout";
  transient = true;
  retry_after = some 60;
  minimum_delay = 0;
  now = 110;
}

abbrev failed_archive : Archive
failed_archive = refresh_run_status 1 110 (record active {
  jobs =
      record active_job {
        state = blocked;
        reason = some "timeout";
        retry_count = 1;
        next_attempt_at = some 170;
        revision = 3;
      }
      ∷ [];
  cooldowns =
      record { provider = "lichess"; not_before = 170; reason = "timeout"; updated_at = 110 } ∷ [];
  outbox = record {
    rows =
        record (hint profile_job 1) { superseded_at = some 100 }
        ∷ record {
          id = 2;
          job_id = 1;
          job_revision = 3;
          attempts = 0;
          available_at = 170;
          delivered_at = none;
          superseded_at = none;
          last_error = none;
        }
        ∷ [];
    next_id = 3;
  };
})

failed_once : finish_attempt policy 1 timeout active ≡ ok (failed_archive, blocked)
unfolding finish_attempt is_processing_kind update_jobs tracked_same
failed_once = refl

remote : is_processing_kind fetch_user_profile ≡ false
unfolding is_processing_kind
remote = refl

finish_attempt-transient_example :
    (blocked ≡ (if ltb 0 3 then blocked else error))
    × IsLeft true 1 (110 + delay_of policy timeout active_job) timeout active_job failed_archive
    × ((t : ℕ) × (provider_ready_at failed_archive.cooldowns "lichess" ≡ some t)
        × (110 + delay_of policy timeout active_job ≤ t))
finish_attempt-transient_example =
    finish_attempt-transient policy 1 timeout active failed_archive blocked active_job "lichess"
      refl refl refl remote failed_once

abbrev root : Root
root = record {
  provider = "lichess";
  seed_spec = "DrNykterstein";
  params = [];
  root_kind = "fetch_user_profile";
  root_target = codes "DrNykterstein";
  priority = 100;
  now = 100;
}

abbrev rooted_job : Job
rooted_job = record profile_job { priority = 100; crawl_run_id = some 3 }

abbrev rooted : Archive
rooted = record empty_archive {
  jobs = rooted_job ∷ [];
  next_job_id = 2;
  runs =
      open_run
      ∷ cancelled_run
      ∷ record open_run { id = 3; started_at = 100; updated_at = 100 }
      ∷ [];
  next_run_id = 4;
  outbox = record { rows = hint rooted_job 1 ∷ []; next_id = 2 };
}

root_created :
    create_crawl_run_with_root_job digest room session root empty_archive ≡ ok (rooted, 3, 1)
unfolding create_crawl_run_with_root_job create_crawl_run parse_kind xor is_archive_kind insert_job
    strip
root_created = refl

create_crawl_run_with_root_job-IsRooted_example :
    (3 ≡ empty_archive.next_run_id) × IsRooted root empty_archive.jobs rooted 3 1
create_crawl_run_with_root_job-IsRooted_example =
    create_crawl_run_with_root_job-IsRooted digest room session root empty_archive rooted 3 1 refl
      tt refl root_created

abbrev paced : Archive
paced = record one_job {
  cooldowns =
      record {
        provider = "lichess";
        not_before = 140;
        reason = "provider request pacing";
        updated_at = 100;
      }
      ∷ [];
}

paced_until : next_pacing_deadline none 110 paced ≡ some 140
unfolding next_pacing_deadline
paced_until = refl
