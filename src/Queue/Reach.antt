-- ===== src/Queue/Reach.antt =====
-- The operations of jobs/state.py as steps of the archive, taken in any order by any sessions.
use chess_crawl.Prelude.{
  ℕ, ◌+◌, ◌≤◌, ◌<◌, ◌≡◌, refl, sym, ap, subst, ◌∙◌, String, Bool, true, ◌&&◌, ◌||◌, Option, none,
  some, List, [], ◌∷◌, map, select, arith, ◌==◌, ltb, count, All, All-append, Bool-cases,
  Option-cases, inl, inr, ◌⊎◌, find, find-holds, ==→eq,
}
use chess_crawl.Queue.Model.{
  Archive, Job, JobKind, JobState, LockKey, Params, is_live, in_progress, blocked, crawl_opponents,
  same_kind, same_state_iff,
}
use chess_crawl.Queue.Write.{
  Session, has_id, find_job, schedulable_state, set_job_revision, update_row, update_jobs, inserted,
  insert_job,
}
use chess_crawl.Queue.Write.Inversion.{insert_job-eq-some, own_job-keeps}
use chess_crawl.Queue.Hints.{insert_job-IsHinted}
use chess_crawl.Queue.Dedup.{enqueue_job-IsDeduplicated, enqueue_new-eq-ok}
use chess_crawl.Queue.Admission.{claim_admission}
use chess_crawl.Queue.Result.{ok, >>=-eq-ok}
use chess_crawl.Queue.Enqueue.{
  Digest, Backlog, Request, EnqueueResult, matches_key, new_job, enqueue_new,
  validate_schedulable_job, request_key, enqueue_job,
}
use chess_crawl.Queue.Claim.{
  Environment, ClaimOptions, job_claimed, start_attempt, claim_row, claim_next_job,
}
use chess_crawl.Queue.Claim.Soundness.{Took, IsRow, All-IsRow, claim_next_job-Took}
use chess_crawl.Queue.Depth.{known_crawl_depth}
use chess_crawl.Queue.Runs.{update_crawl_run, refresh_run_status, create_crawl_run}
use chess_crawl.Queue.Attempts.{
  RetryPolicy, Finish, delay_of, mark_job, marked, update_job_params, checkpoint_job,
  defer_provider, defer_acquisition, retried, settle_attempt, lowered, adopt_depth, publish_run,
  finish_attempt, unblocked, unblock_jobs, resumed, unblockable, resumable, resume_each,
  resume_stale_in_progress,
}
use chess_crawl.Queue.Soundness.{
  IsSound, IsSound-other, IsNumbered, IsNumbered-mono, HasUniqueIds, inserted_unique,
  update_jobs-IsSound, update_jobs-IsSound_all, live_row-RevivesNone,
}

-- enqueue_job.
insert_job-IsNumbered :
    (s : Session) (row : Job) (db db' : Archive) (id : ℕ)
    → insert_job s row db ≡ some (db', id)
    → IsSound db
    → HasUniqueIds db'.jobs × IsNumbered db'.next_job_id db'.jobs
unfolding inserted
insert_job-IsNumbered s row db db' id e h =
    let (j, owned, free, result, given) = insert_job-eq-some s row db db' id e in
    let new : Job = record row { id = db.next_job_id; revision = 1 } in
    let (key, state, same) = own_job-keeps s db new j owned in
    subst (λ (a : Archive). HasUniqueIds a.jobs × IsNumbered a.next_job_id a.jobs) (sym result)
      (
        inserted_unique db.next_job_id db.jobs j same h.numbered h.unique,
        All-append (λ (k : Job). k.id < db.next_job_id + 1) db.jobs (j ∷ [])
            (IsNumbered-mono db.next_job_id db.jobs h.numbered) (omega arith, tt),
      )

enqueue_new-cases :
    (room : Backlog) (s : Session) (db db' : Archive) (r : Request) (kind : JobKind)
    (dedup : String) (result : EnqueueResult) (found : Option Job)
    → enqueue_new room s db r kind dedup found ≡ ok (db', result)
    → (db ≡ db') ⊎ (insert_job s (new_job r kind dedup) db ≡ some (db', result.job_id))
unfolding enqueue_new
enqueue_new-cases room s db db' r kind dedup result none e =
    inr (enqueue_new-eq-ok room s db db' r kind dedup result e).1
enqueue_new-cases room s db db' r kind dedup result (some j) e = inl (ground arith)

pub enqueue_job-IsSound :
    (digest : Digest) (room : Backlog) (s : Session) (r : Request) (db db' : Archive)
    (result : EnqueueResult)
    → enqueue_job digest room s r db ≡ ok (db', result)
    → IsSound db
    → IsSound db'
unfolding enqueue_job
enqueue_job-IsSound digest room s r db db' result e h =
    let (kind, valid, rest) = >>=-eq-ok (validate_schedulable_job r.provider r.kind) _ e in
    let dedup : String = request_key digest r in
    elim (enqueue_new-cases room s db db' r kind dedup result
      (find (matches_key dedup r.reuse_terminal) db.jobs) rest) [
        | inl same ↦ subst IsSound same h
        | inr stored ↦
            let (unique, numbered) =
              insert_job-IsNumbered s (new_job r kind dedup) db db' result.job_id stored h in
            record {
              hinted =
                  insert_job-IsHinted s (new_job r kind dedup) db db' result.job_id stored h.hinted;
              single = enqueue_job-IsDeduplicated digest room s r db db' result e h.single;
              unique = unique;
              numbered = numbered;
            }
      ]

-- claim_next_job.
admitted_live :
    (now cap : ℕ) (db : Archive) (c : Job)
    → claim_admission now cap db c ≡ true
    → is_live c.state ≡ true
unfolding claim_admission schedulable_state is_live
admitted_live now cap db c h = ground arith

claim_row-IsSound :
    (e : Environment) (o : ClaimOptions) (s : Session) (c : Job) (db : Archive)
    → IsRow db.jobs c
    → is_live c.state ≡ true
    → IsSound db
    → IsSound (claim_row e o s c db)
unfolding claim_row
claim_row-IsSound e o s c db row live h =
    let p : Job → Bool = λ j. has_id c.id j && is_live j.state in
    let updated : IsSound (update_jobs (has_id c.id) (start_attempt e o s) db) =
      update_jobs-IsSound (has_id c.id) (start_attempt e o s) db (λ j. refl) (λ j. refl)
        (live_row-RevivesNone c.id (start_attempt e o s) db.jobs h.unique (row p (ground arith)))
        h in
    updated

pub claim_next_job-IsSound :
    (e : Environment) (o : ClaimOptions) (s : Session) (db db' : Archive) (s' : Session)
    (j : Option Job)
    → claim_next_job e o s db ≡ job_claimed db' s' j
    → IsSound db
    → IsSound db'
claim_next_job-IsSound e o s db db' s' j claim h =
    let t : Took e o s db db' s' j = claim_next_job-Took e o s db db' s' j claim in
    subst IsSound (sym t.written)
      (claim_row-IsSound e o s t.row db t.is_row (admitted_live o.now o.cap db t.row t.admitted) h)

-- mark_job and the writes of finish_attempt.
find_live :
    (id : ℕ) (js : List Job) (row : Job)
    → find_job id js ≡ some row
    → is_live row.state ≡ true
    → 0 < count (λ (j : Job). has_id id j && is_live j.state) js
find_live id [] row e live = absurd (ground arith)
find_live id (j ∷ js) row e live = elim (Bool-cases (has_id id j)) [
  | inl same ↦
      let eq : j ≡ row = ground arith in
      let alive : is_live j.state ≡ true = ground (arith, ap (λ (k : Job). k.state) eq) in
      ground arith
  | inr other ↦ ground (arith, find_live id js row)
]

-- A write to the row of a job that is live.
live_write-IsSound :
    (id : ℕ) (f : Job → Job) (db : Archive) (row : Job)
    → ((j : Job) → (f j).id ≡ j.id)
    → ((j : Job) → (f j).dedup_key ≡ j.dedup_key)
    → find_job id db.jobs ≡ some row
    → is_live row.state ≡ true
    → IsSound db
    → IsSound (update_jobs (has_id id) f db)
live_write-IsSound id f db row same keep found live h =
    update_jobs-IsSound (has_id id) f db same keep
      (live_row-RevivesNone id f db.jobs h.unique (find_live id db.jobs row found live)) h

defer_acquisition-IsSound :
    (row : Job) (at : ℕ) (reason : String) (now : ℕ) (db : Archive)
    → IsSound db
    → IsSound (defer_acquisition row at reason now db)
unfolding defer_acquisition
defer_acquisition-IsSound row at reason now db h =
    IsSound-other db (defer_acquisition row at reason now db) (ground arith) (ground arith)
      (ground arith) h

jobs-defer_acquisition :
    (row : Job) (at : ℕ) (reason : String) (now : ℕ) (db : Archive)
    → (defer_acquisition row at reason now db).jobs ≡ db.jobs
unfolding defer_acquisition
jobs-defer_acquisition row at reason now db = ground arith

settle_attempt-IsSound :
    (policy : RetryPolicy) (f : Finish) (row : Job) (db : Archive)
    → find_job row.id db.jobs ≡ some row
    → is_live row.state ≡ true
    → IsSound db
    → IsSound (settle_attempt policy f row db).0
unfolding settle_attempt mark_job
settle_attempt-IsSound policy f row db found live h =
    let at : ℕ = f.now + delay_of policy f row in
    let deferred : Archive = defer_acquisition row at f.reason f.now db in
    let still : find_job row.id deferred.jobs ≡ some row =
      ap (find_job row.id) (jobs-defer_acquisition row at f.reason f.now db) ∙ found in
    let sound : IsSound deferred = defer_acquisition-IsSound row at f.reason f.now db h in
    elim (Bool-cases f.transient) [
      | inr direct ↦ rw direct (
          live_write-IsSound row.id (marked f.outcome (some f.reason) f.now) db row (λ j. refl)
            (λ j. refl) found live h)
      | inl retry ↦ elim (Bool-cases (ltb row.retry_count policy.job_max_retries)) [
        | inl more ↦
            rw (retry, more)
              (live_write-IsSound row.id (retried f.reason at) deferred row (λ j. refl) (λ j. refl)
                still live sound)
        | inr last ↦
            rw (retry, last)
              (live_write-IsSound row.id _ deferred row (λ j. refl) (λ j. refl) still live sound)
      ]
    ]

refresh_run_status-IsSound :
    (run now : ℕ) (db : Archive) → IsSound db → IsSound (refresh_run_status run now db)
unfolding refresh_run_status update_crawl_run
refresh_run_status-IsSound run now db h =
    IsSound-other db (refresh_run_status run now db) (ground arith) (ground arith) (ground arith) h

adopt_depth-IsSound :
    (run : ℕ) (parent : Job) (db : Archive) → IsSound db → IsSound (adopt_depth run parent db)
unfolding adopt_depth lowered
adopt_depth-IsSound run parent db h = elim (Option-cases parent.provider) [
  | inl missing ↦ rw (missing, adopt_depth) h
  | inr (provider, present) ↦
      elim (Option-cases (known_crawl_depth db run provider parent.target)) [
        | inl unknown ↦ rw (present, adopt_depth) (rw (unknown, adopt_depth) h)
        | inr (depth, known) ↦
            rw (present, adopt_depth)
              (rw (known, adopt_depth)
                (update_jobs-IsSound_all (has_id parent.id) (lowered depth) db (λ j. refl)
                  (λ j. refl) (λ j same live. live) h))
      ]
]

publish_run-IsSound :
    (row : Job) (now : ℕ) (db : Archive) → IsSound db → IsSound (publish_run row now db)
unfolding publish_run
publish_run-IsSound row now db h = elim (Option-cases row.crawl_run_id) [
  | inl alone ↦ rw (alone, publish_run) h
  | inr (run, member) ↦ elim (Bool-cases (same_kind row.kind crawl_opponents)) [
    | inr other ↦ rw (member, publish_run) (rw other (refresh_run_status-IsSound run now db h))
    | inl crawl ↦ elim (Option-cases (find_job row.id db.jobs)) [
      | inl gone ↦
          rw (member, publish_run) (rw (crawl, gone) (refresh_run_status-IsSound run now db h))
      | inr (parent, present) ↦
          rw (member, publish_run)
            (rw (crawl, present)
              (refresh_run_status-IsSound run now (adopt_depth run parent db)
                (adopt_depth-IsSound run parent db h)))
    ]
  ]
]

pub finish_attempt-IsSound :
    (policy : RetryPolicy) (id : ℕ) (f : Finish) (db db' : Archive) (result : JobState) (row : Job)
    → find_job id db.jobs ≡ some row
    → is_live row.state ≡ true
    → finish_attempt policy id f db ≡ ok (db', result)
    → IsSound db
    → IsSound db'
unfolding finish_attempt
finish_attempt-IsSound policy id f db db' result row found live e h =
    let numbered : (row.id == id) ≡ true = find-holds (has_id id) db.jobs found in
    let same : row.id ≡ id = ==→eq row.id id numbered in
    let here : find_job row.id db.jobs ≡ some row =
      subst (λ (n : ℕ). find_job n db.jobs ≡ some row) (sym same) found in
    let settled : Archive = (settle_attempt policy f row db).0 in
    let written : db' ≡ publish_run row f.now settled =
      ground (arith, rw (found, finish_attempt) at e) in
    subst IsSound (sym written)
      (publish_run-IsSound row f.now settled (settle_attempt-IsSound policy f row db here live h))

-- update_job_params and checkpoint_job.
update_job_params-IsSound :
    (id : ℕ) (params : Params) (db : Archive)
    → IsSound db
    → IsSound (update_job_params id params db)
unfolding update_job_params
update_job_params-IsSound id params db =
    update_jobs-IsSound_all (has_id id) (λ j. record j { params = params }) db (λ j. refl)
      (λ j. refl) (λ j same live. live)

checkpoint_job-IsSound :
    (id : ℕ) (params : Params) (cursor status : ℕ) (db : Archive)
    → IsSound db
    → IsSound (checkpoint_job id params cursor status db).0
unfolding checkpoint_job
checkpoint_job-IsSound id params cursor status db h =
    elim (Bool-cases (status == 200 || status == 304)) [
      | inl done ↦ rw done (update_job_params-IsSound id _ db h)
      | inr open_unit ↦ rw open_unit h
    ]

-- unblock_jobs.
unblock_jobs-IsSound :
    (run : Option ℕ) (now : ℕ) (db : Archive) → IsSound db → IsSound (unblock_jobs run now db).0
unfolding unblock_jobs unblocked unblockable is_live
unblock_jobs-IsSound run now db =
    update_jobs-IsSound_all (unblockable run now db) unblocked db (λ j. refl) (λ j. refl)
      (λ j due live. ground (arith, same_state_iff j.state blocked))

-- resume_stale_in_progress: the rows are chosen first and written one by one.
abbrev live_rows : ℕ → List Job → ℕ
live_rows id = count (λ (j : Job). has_id id j && is_live j.state)

resumed_stays_live :
    (id other : ℕ) (js : List Job)
    → live_rows id js ≤ live_rows id (map (update_row (has_id other) resumed) js)
unfolding update_row set_job_revision resumed is_live
resumed_stays_live id other [] = omega arith
resumed_stays_live id other (j ∷ js) = ground (arith, resumed_stays_live id other js)

abbrev HasLiveRow : List Job → Job → Type 0
HasLiveRow js j = 0 < live_rows j.id js

All-HasLiveRow :
    (other : ℕ) (js chosen : List Job)
    → All (HasLiveRow js) chosen
    → All (HasLiveRow (map (update_row (has_id other) resumed) js)) chosen
All-HasLiveRow other js [] h = tt
All-HasLiveRow other js (c ∷ cs) h =
    (omega (arith, resumed_stays_live c.id other js), All-HasLiveRow other js cs h.1)

resume_each-IsSound :
    (chosen : List Job) (db : Archive) (n : ℕ)
    → All (HasLiveRow db.jobs) chosen
    → IsSound db
    → IsSound (resume_each chosen db n).0
resume_each-IsSound [] db n rows h = h
resume_each-IsSound (c ∷ cs) db n rows h =
    resume_each-IsSound cs (update_jobs (has_id c.id) resumed db) (n + 1)
      (unfold update_jobs in All-HasLiveRow c.id db.jobs cs rows.1)
      (unfold resumed in
        update_jobs-IsSound (has_id c.id) resumed db (λ j. refl) (λ j. refl)
          (live_row-RevivesNone c.id resumed db.jobs h.unique rows.0) h)

chosen-HasLiveRow :
    (p : Job → Bool) (js ks : List Job)
    → ((j : Job) → p j ≡ true → is_live j.state ≡ true)
    → All (IsRow ks) js
    → All (HasLiveRow ks) (select p js)
chosen-HasLiveRow p [] ks h rows = tt
chosen-HasLiveRow p (j ∷ js) ks h rows = elim (Bool-cases (p j)) [
  | inl e ↦
      let alive : is_live j.state ≡ true = h j e in
      rw e (
        rows.0 (λ k. has_id j.id k && is_live k.state) (ground arith),
        chosen-HasLiveRow p js ks h rows.1,
      )
  | inr e ↦ rw e (chosen-HasLiveRow p js ks h rows.1)
]

resume_stale_in_progress-IsSound :
    (s : Session) (locked : LockKey → Bool) (row_locked : ℕ → Bool) (run : Option ℕ) (stale now : ℕ)
    (db : Archive)
    → IsSound db
    → IsSound (resume_stale_in_progress s locked row_locked run stale now db).0
unfolding resume_stale_in_progress resumable is_live
resume_stale_in_progress-IsSound s locked row_locked run stale now db h =
    resume_each-IsSound _ db 0
      (chosen-HasLiveRow _ db.jobs db.jobs
        (λ j due. ground (arith, same_state_iff j.state in_progress)) (All-IsRow db.jobs))
      h

defer_provider-IsSound :
    (provider : String) (at : ℕ) (reason : String) (now : ℕ) (db : Archive)
    → IsSound db
    → IsSound (defer_provider provider at reason now db)
unfolding defer_provider
defer_provider-IsSound provider at reason now db h = record {
  hinted = h.hinted;
  single = h.single;
  unique = h.unique;
  numbered = h.numbered;
}

create_crawl_run-IsSound :
    (s : Session) (provider : Option String) (seed : String) (params : Params) (now : ℕ)
    (db db' : Archive) (id : ℕ)
    → create_crawl_run s provider seed params now db ≡ ok (db', id)
    → IsSound db
    → IsSound db'
unfolding create_crawl_run
create_crawl_run-IsSound s provider seed params now db db' id e h =
    IsSound-other db db' (ground arith) (ground arith) (ground arith) h

-- One operation of one session. An attempt is finished while its job is live, as its owner's fence
-- requires.
pub data Step (digest : Digest) (room : Backlog) : Archive → Archive → Type 0 where
  enqueue :
      {db db' : Archive} (s : Session) (r : Request) (result : EnqueueResult)
      → enqueue_job digest room s r db ≡ ok (db', result)
      → Step digest room db db'
  claim :
      {db db' : Archive} (e : Environment) (o : ClaimOptions) (s s' : Session) (j : Option Job)
      → claim_next_job e o s db ≡ job_claimed db' s' j
      → Step digest room db db'
  finish :
      {db db' : Archive} (policy : RetryPolicy) (id : ℕ) (f : Finish) (result : JobState)
      (row : Job)
      → find_job id db.jobs ≡ some row
      → is_live row.state ≡ true
      → finish_attempt policy id f db ≡ ok (db', result)
      → Step digest room db db'
  checkpoint :
      {db : Archive} (id : ℕ) (params : Params) (cursor status : ℕ)
      → Step digest room db (checkpoint_job id params cursor status db).0
  unblock :
      {db : Archive} (run : Option ℕ) (now : ℕ) → Step digest room db (unblock_jobs run now db).0
  resume :
      {db : Archive} (s : Session) (locked : LockKey → Bool) (row_locked : ℕ → Bool)
      (run : Option ℕ) (stale now : ℕ)
      → Step digest room db (resume_stale_in_progress s locked row_locked run stale now db).0
  defer :
      {db : Archive} (provider : String) (at : ℕ) (reason : String) (now : ℕ)
      → Step digest room db (defer_provider provider at reason now db)
  refresh : {db : Archive} (run now : ℕ) → Step digest room db (refresh_run_status run now db)
  create_run :
      {db db' : Archive} (s : Session) (provider : Option String) (seed : String) (params : Params)
      (now id : ℕ)
      → create_crawl_run s provider seed params now db ≡ ok (db', id)
      → Step digest room db db'

pub data Reach (digest : Digest) (room : Backlog) (start : Archive) : Archive → Type 0 where
  here : Reach digest room start start
  next :
      {db db' : Archive}
      → Reach digest room start db
      → Step digest room db db'
      → Reach digest room start db'

Step-IsSound :
    (digest : Digest) (room : Backlog) {db db' : Archive}
    → Step digest room db db'
    → IsSound db
    → IsSound db'
Step-IsSound digest room {db} {db'} (enqueue s r result e) h =
    enqueue_job-IsSound digest room s r db db' result e h
Step-IsSound digest room {db} {db'} (claim e o s s' j q) h =
    claim_next_job-IsSound e o s db db' s' j q h
Step-IsSound digest room {db} {db'} (finish policy id f result row found live e) h =
    finish_attempt-IsSound policy id f db db' result row found live e h
Step-IsSound digest room {db} (checkpoint id params cursor status) h =
    checkpoint_job-IsSound id params cursor status db h
Step-IsSound digest room {db} (unblock run now) h = unblock_jobs-IsSound run now db h
Step-IsSound digest room {db} (resume s locked row_locked run stale now) h =
    resume_stale_in_progress-IsSound s locked row_locked run stale now db h
Step-IsSound digest room {db} (defer provider at reason now) h =
    defer_provider-IsSound provider at reason now db h
Step-IsSound digest room {db} (refresh run now) h = refresh_run_status-IsSound run now db h
Step-IsSound digest room {db} {db'} (create_run s provider seed params now id e) h =
    create_crawl_run-IsSound s provider seed params now db db' id e h

-- Whatever sequence of enqueue, claim, finish, checkpoint, unblock, resume, defer, refresh and run-
-- creation steps is taken, every schedulable job keeps a dispatch hint, open or not, for its
-- current revision, every deduplication key has at most one live job, and job ids are unique and
-- come from the sequence; an attempt is finished on a live job.
pub Reach-IsSound :
    (digest : Digest) (room : Backlog) {start db : Archive}
    → IsSound start
    → Reach digest room start db
    → IsSound db
Reach-IsSound digest room h here = h
Reach-IsSound digest room h (next r s) = Step-IsSound digest room s (Reach-IsSound digest room h r)
