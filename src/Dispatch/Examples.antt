-- ===== src/Dispatch/Examples.antt =====
-- An outbox with a hint that is obsolete and one that is current, published and maintained.
use chess_crawl.Prelude.{◌≡◌, refl, true, false, none, some, [], ◌∷◌, codes}
use chess_crawl.Prelude.Sorting.{sort_by}
use chess_crawl.Queue.Model.{
  Archive, Dispatch, Job, fetch_user_profile, pending, is_processing_kind,
}
use chess_crawl.Queue.Write.{is_open, schedulable_state, names_revision}
use chess_crawl.Queue.Admission.{retry_due}
use chess_crawl.Dispatch.Publisher.{Dispatcher, Surroundings, accepted, publish_one, queue_for}
use chess_crawl.Dispatch.{Joined, maintain_dispatch}
use chess_crawl.Dispatch.Kept.{open_hint, maintain_dispatch-open_hint}
use chess_crawl.Dispatch.Sent.{IsSendable, publish_one-sent}

abbrev job : Job
job = record {
  id = 4;
  provider = some "lichess";
  kind = fetch_user_profile;
  target = codes "DrNykterstein";
  params = [];
  state = pending;
  priority = 10;
  depth = 0;
  dedup_key = "4";
  crawl_run_id = none;
  parent_job_id = none;
  attempts = 0;
  enqueued_at = 100;
  started_at = none;
  done_at = none;
  reason = none;
  retry_count = 0;
  next_attempt_at = none;
  revision = 2;
  ownership_token = none;
  owner_worker_id = none;
  owner_backend_pid = none;
  ownership_generation = 0;
  workspace_id = "local";
  work_budget_id = none;
}

abbrev stale_hint : Dispatch
stale_hint = record {
  id = 1;
  job_id = 4;
  job_revision = 1;
  attempts = 0;
  available_at = 0;
  delivered_at = none;
  superseded_at = none;
  last_error = none;
}

abbrev current_hint : Dispatch
current_hint = record stale_hint { id = 2; job_revision = 2 }

abbrev archive : Archive
archive = record {
  jobs = job ∷ [];
  next_job_id = 5;
  runs = [];
  next_run_id = 1;
  cooldowns = [];
  outbox = record { rows = stale_hint ∷ current_hint ∷ []; next_id = 3 };
  edges = [];
  active_caps = [];
  turns = [];
  next_turn = 1;
  clock = 100;
}

abbrev dispatcher : Dispatcher
dispatcher = record {
  queue_url = "main";
  acquisition_queue_url = none;
  processing_queue_url = some "processing";
  maintenance = record {
    retention_seconds = 3600;
    interval_seconds = 60;
    batch_size = 100;
    next_cleanup = some 500;
    after_id = 0;
  };
  dispatch_after = none;
  has_more = false;
}

abbrev surroundings : Surroundings
surroundings = record {
  send = λ queue id. accepted;
  row_locked = λ id. false;
  cleanup_at = 100;
  select_at = 100;
  settle_at = 101;
}

publish_one-sent_example :
    (r : Joined) × IsSendable (λ id. false) 100 (job ∷ []) r
    × ("main" ≡ queue_for dispatcher r.job.kind)
    × (4 ≡ r.hint.job_id)
unfolding publish_one sort_by is_open schedulable_state retry_due is_processing_kind
publish_one-sent_example =
    publish_one-sent surroundings dispatcher archive {queue = "main"} {id = 4} refl

maintain_dispatch-open_hint_example :
    open_hint (maintain_dispatch (λ id. false) 100 3600 10 0 archive).0.outbox.rows job ≡ true
unfolding is_open schedulable_state names_revision
maintain_dispatch-open_hint_example =
    maintain_dispatch-open_hint (λ id. false) 100 3600 10 0 archive job (refl, (refl, tt)) refl refl
      refl
