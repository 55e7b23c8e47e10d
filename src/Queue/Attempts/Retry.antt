-- ===== src/Queue/Attempts/Retry.antt =====
-- Retries: how often, how late, and what a failed acquisition leaves for its provider.
use Prim.Native.String.{◌++◌ as join}
use chess_crawl.Prelude.{
  ℕ, ◌+◌, ◌≤◌, ◌≡◌, refl, sym, subst, ap, ◌∙◌, max, String, Bool, true, false, Option, none, some,
  List, [], ◌∷◌, arith, ==→eq, find-holds, str_eq, str_eq_iff, ltb, if◌then◌else◌, coalesce,
  Bool-cases, Option-cases, inl, inr,
}
use chess_crawl.Queue.Model.{
  Archive, Cooldown, Job, JobState, blocked, error, crawl_opponents, is_processing_kind,
  is_terminal, same_kind,
}
use chess_crawl.Queue.Write.{find_job, has_id, set_job_revision, update_jobs}
use chess_crawl.Queue.Rows.{find-update_jobs}
use chess_crawl.Queue.Depth.{known_crawl_depth}
use chess_crawl.Queue.Runs.{update_crawl_run, refresh_run_status}
use chess_crawl.Queue.Result.{ok}
use chess_crawl.Queue.Attempts.{
  RetryPolicy, Finish, delay_of, retry_delay, later_deadline, defer_provider, provider_ready_at,
  defer_acquisition, marked, mark_job, retried, lowered, settle_attempt, adopt_depth, publish_run,
  finish_attempt,
}

-- The backoff is at least the minimum delay and what the provider asked for, and at most the
-- greatest of the policy's maximum, the minimum delay and what the provider asked for.
pub retry_delay_bounds :
    (policy : RetryPolicy) (retries minimum_delay : ℕ) (retry_after : Option ℕ)
    → (minimum_delay ≤ retry_delay policy retries minimum_delay retry_after)
      × (coalesce retry_after 0 ≤ retry_delay policy retries minimum_delay retry_after)
      × (retry_delay policy retries minimum_delay retry_after
          ≤ max (max policy.job_retry_max_s minimum_delay) (coalesce retry_after 0))
unfolding retry_delay
retry_delay_bounds policy retries minimum_delay retry_after =
    (omega arith, omega arith, omega arith)

-- A cooldown never ends earlier by a deferral.
later_deadline_lem :
    (p : String) (at : ℕ) (reason : String) (now : ℕ) (cs : List Cooldown)
    → (t : ℕ) × (provider_ready_at (later_deadline p at reason now cs) p ≡ some t) × (at ≤ t)
unfolding later_deadline provider_ready_at
later_deadline_lem p at reason now [] = (at, ground (arith, (str_eq_iff p p).1 refl), omega arith)
later_deadline_lem p at reason now (c ∷ cs) =
    let (t, found, later) = later_deadline_lem p at reason now cs in
    elim (Bool-cases (str_eq c.provider p)) [
      | inl e ↦ (max c.not_before at, ground arith, omega arith)
      | inr e ↦ (t, ground arith, later)
    ]

cooldowns-refresh :
    (run now : ℕ) (db : Archive) → (refresh_run_status run now db).cooldowns ≡ db.cooldowns
unfolding refresh_run_status update_crawl_run
cooldowns-refresh run now db = ground arith

cooldowns-adopt :
    (run : ℕ) (parent : Job) (db : Archive) → (adopt_depth run parent db).cooldowns ≡ db.cooldowns
unfolding adopt_depth update_jobs
cooldowns-adopt run parent db = ground arith

cooldowns-publish :
    (row : Job) (now : ℕ) (db : Archive) → (publish_run row now db).cooldowns ≡ db.cooldowns
unfolding publish_run
cooldowns-publish row now db = elim (Option-cases row.crawl_run_id) [
  | inl alone ↦ rw (alone, publish_run) refl
  | inr (run, member) ↦ elim (Bool-cases (same_kind row.kind crawl_opponents)) [
    | inr other ↦ rw (member, publish_run) (rw other (cooldowns-refresh run now db))
    | inl crawl ↦ elim (Option-cases (find_job row.id db.jobs)) [
      | inl gone ↦ rw (member, publish_run) (rw (crawl, gone) (cooldowns-refresh run now db))
      | inr (parent, present) ↦
          rw (member, publish_run)
            (rw (crawl, present)
              (cooldowns-refresh run now (adopt_depth run parent db)
                ∙ cooldowns-adopt run parent db))
    ]
  ]
]

-- The row that a failed attempt with or without retries left leaves to the job `id`.
pub record IsLeft (left : Bool) (id at : ℕ) (f : Finish) (old : Job) (db : Archive) : Type 0 where
  pub row : Job
  pub found : find_job id db.jobs ≡ some row
  pub state : row.state ≡ (if left then blocked else error)
  pub next_attempt_at : row.next_attempt_at ≡ (if left then some at else none)
  pub done_at : row.done_at ≡ (if left then none else some f.now)
  pub retry_count : row.retry_count ≡ (if left then old.retry_count + 1 else old.retry_count)
  pub reason : row.reason ≡ some (if left then f.reason else join "Retry limit reached: " f.reason)

module _ (left : Bool) (id at : ℕ) (f : Finish) (old : Job) where
  IsLeft-same_jobs :
      (db db' : Archive)
      → db'.jobs ≡ db.jobs
      → IsLeft left id at f old db
      → IsLeft left id at f old db'
  IsLeft-same_jobs db db' same h = record {
    row = h.row;
    found = ap (find_job id) same ∙ h.found;
    state = h.state;
    next_attempt_at = h.next_attempt_at;
    done_at = h.done_at;
    retry_count = h.retry_count;
    reason = h.reason;
  }

  IsLeft-lowered :
      (depth : ℕ) (db : Archive)
      → IsLeft left id at f old db
      → IsLeft left id at f old (update_jobs (has_id id) (lowered depth) db)
  unfolding lowered set_job_revision
  IsLeft-lowered depth db h = record {
    row = set_job_revision h.row (lowered depth h.row);
    found = find-update_jobs id (lowered depth) (λ j. refl) db h.row h.found;
    state = h.state;
    next_attempt_at = h.next_attempt_at;
    done_at = h.done_at;
    retry_count = h.retry_count;
    reason = h.reason;
  }

  IsLeft-adopt :
      (run : ℕ) (parent : Job) (db : Archive)
      → parent.id ≡ id
      → IsLeft left id at f old db
      → IsLeft left id at f old (adopt_depth run parent db)
  unfolding adopt_depth
  IsLeft-adopt run parent db same h = elim (Option-cases parent.provider) [
    | inl missing ↦ rw (missing, adopt_depth) h
    | inr (provider, present) ↦
        elim (Option-cases (known_crawl_depth db run provider parent.target)) [
          | inl unknown ↦ rw (present, adopt_depth) (rw (unknown, adopt_depth) h)
          | inr (depth, known) ↦
              rw (present, adopt_depth)
                (rw (known, adopt_depth)
                  (subst
                    (λ (n : ℕ). IsLeft left id at f old (update_jobs (has_id n) (lowered depth) db))
                    (sym same) (IsLeft-lowered depth db h)))
        ]
  ]

  IsLeft-refresh :
      (run now : ℕ) (db : Archive)
      → IsLeft left id at f old db
      → IsLeft left id at f old (refresh_run_status run now db)
  unfolding refresh_run_status update_crawl_run
  IsLeft-refresh run now db h = IsLeft-same_jobs db (refresh_run_status run now db) (ground arith) h

  IsLeft-publish :
      (row : Job) (now : ℕ) (db : Archive)
      → row.id ≡ id
      → IsLeft left id at f old db
      → IsLeft left id at f old (publish_run row now db)
  unfolding publish_run
  IsLeft-publish row now db own h = elim (Option-cases row.crawl_run_id) [
    | inl alone ↦ rw (alone, publish_run) h
    | inr (run, member) ↦ elim (Bool-cases (same_kind row.kind crawl_opponents)) [
      | inr other ↦ rw (member, publish_run) (rw other (IsLeft-refresh run now db h))
      | inl crawl ↦
          let here : find_job row.id db.jobs ≡ some h.row =
            subst (λ (n : ℕ). find_job n db.jobs ≡ some h.row) (sym own) h.found in
          let same : h.row.id ≡ id = ==→eq h.row.id id (find-holds (has_id id) db.jobs h.found) in
          rw (member, publish_run)
            (rw (crawl, here)
              (IsLeft-refresh run now (adopt_depth run h.row db)
                (IsLeft-adopt run h.row db same h)))
    ]
  ]

-- What the write of a transient failure leaves.
settle_transient :
    (policy : RetryPolicy) (f : Finish) (row : Job) (db : Archive)
    → f.transient ≡ true
    → ((settle_attempt policy f row db).1
        ≡ (if ltb row.retry_count policy.job_max_retries then blocked else error))
      × ((settle_attempt policy f row db).0.cooldowns
          ≡ (defer_acquisition row (f.now + delay_of policy f row) f.reason f.now db).cooldowns)
unfolding settle_attempt update_jobs mark_job
settle_transient policy f row db t = (ground arith, ground arith)

jobs-defer_acquisition :
    (row : Job) (at : ℕ) (reason : String) (now : ℕ) (db : Archive)
    → (defer_acquisition row at reason now db).jobs ≡ db.jobs
unfolding defer_acquisition defer_provider
jobs-defer_acquisition row at reason now db = ground arith

settle_transient-IsLeft :
    (policy : RetryPolicy) (f : Finish) (row : Job) (db : Archive)
    → f.transient ≡ true
    → find_job row.id db.jobs ≡ some row
    → IsLeft
        (ltb row.retry_count policy.job_max_retries)
        row.id
        (f.now + delay_of policy f row)
        f
        row
        (settle_attempt policy f row db).0
unfolding settle_attempt mark_job marked retried set_job_revision is_terminal
settle_transient-IsLeft policy f row db t found =
    let at : ℕ = f.now + delay_of policy f row in
    let deferred : Archive = defer_acquisition row at f.reason f.now db in
    let limit : String = join "Retry limit reached: " f.reason in
    let still : find_job row.id deferred.jobs ≡ some row =
      ap (find_job row.id) (jobs-defer_acquisition row at f.reason f.now db) ∙ found in
    elim (Bool-cases (ltb row.retry_count policy.job_max_retries)) [
      | inl more ↦
          rw (t, settle_attempt)
            (rw more (record {
              row = set_job_revision row (retried f.reason at row);
              found = find-update_jobs row.id (retried f.reason at) (λ j. refl) deferred row still;
              state = refl;
              next_attempt_at = refl;
              done_at = refl;
              retry_count = refl;
              reason = refl;
            }))
      | inr last ↦
          rw (t, settle_attempt)
            (rw last (record {
              row = set_job_revision row (marked error (some limit) f.now row);
              found =
                  find-update_jobs row.id (marked error (some limit) f.now) (λ j. refl) deferred row
                    still;
              state = refl;
              next_attempt_at = refl;
              done_at = refl;
              retry_count = refl;
              reason = refl;
            }))
    ]

-- Exactly while retries are left, a transient failure of an acquisition job returns blocked and
-- leaves the job's row blocked, with one more retry counted, due when the backoff is over and with
-- the failure as its reason; else it returns error and leaves the row in error, done now, without a
-- next attempt and with the reason that the retry limit is reached. Either way the provider is
-- deferred at least until the backoff is over.
pub finish_attempt-transient :
    (policy : RetryPolicy) (id : ℕ) (f : Finish) (db db' : Archive) (result : JobState) (row : Job)
    (provider : String)
    → find_job id db.jobs ≡ some row
    → f.transient ≡ true
    → row.provider ≡ some provider
    → is_processing_kind row.kind ≡ false
    → finish_attempt policy id f db ≡ ok (db', result)
    → (result ≡ (if ltb row.retry_count policy.job_max_retries then blocked else error))
      × IsLeft
          (ltb row.retry_count policy.job_max_retries)
          id
          (f.now + delay_of policy f row)
          f
          row
          db'
      × ((t : ℕ) × (provider_ready_at db'.cooldowns provider ≡ some t)
          × (f.now + delay_of policy f row ≤ t))
unfolding finish_attempt
finish_attempt-transient policy id f db db' result row provider found t named remote e =
    let settled : Archive = (settle_attempt policy f row db).0 in
    let (state, cooled) = settle_transient policy f row db t in
    let at : ℕ = f.now + delay_of policy f row in
    let left : Bool = ltb row.retry_count policy.job_max_retries in
    let written : db' ≡ publish_run row f.now settled =
      ground (arith, rw (found, finish_attempt) at e) in
    let returned : result ≡ (settle_attempt policy f row db).1 =
      ground (arith, rw (found, finish_attempt) at e) in
    let (end, ready, later) = later_deadline_lem provider at f.reason f.now db.cooldowns in
    let deferred : (defer_acquisition row at f.reason f.now db).cooldowns
        ≡ later_deadline provider at f.reason f.now db.cooldowns =
      unfold defer_acquisition defer_provider in rw (named, defer_acquisition) (rw remote refl) in
    let cooldowns : db'.cooldowns ≡ later_deadline provider at f.reason f.now db.cooldowns =
      ap (λ (a : Archive). a.cooldowns) written
      ∙ cooldowns-publish row f.now settled
      ∙ cooled
      ∙ deferred in
    let own : row.id ≡ id = ==→eq row.id id (find-holds (has_id id) db.jobs found) in
    let here : find_job row.id db.jobs ≡ some row =
      subst (λ (n : ℕ). find_job n db.jobs ≡ some row) (sym own) found in
    let kept : IsLeft left id at f row settled =
      subst (λ (n : ℕ). IsLeft left n at f row settled) own
        (settle_transient-IsLeft policy f row db t here) in
    (
      returned ∙ state,
      subst (IsLeft left id at f row) (sym written)
          (IsLeft-publish left id at f row row f.now settled own kept),
      (end, ap (λ (cs : List Cooldown). provider_ready_at cs provider) cooldowns ∙ ready, later),
    )
