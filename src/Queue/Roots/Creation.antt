-- ===== src/Queue/Roots/Creation.antt =====
-- The run and the job that create_crawl_run_with_root_job leaves.
use chess_crawl.Prelude.{
  ℕ, ◌≡◌, refl, sym, ap, subst, ◌∙◌, String, false, Option, none, some, List, [], ◌∷◌, ◌++◌, arith,
  ◌==◌, find, strip,
}
use chess_crawl.Queue.Model.{Archive, Job, JobKind, Run, running, pending, parse_kind}
use chess_crawl.Queue.Write.{Session, setting_workspace, find_run, find_job, own_job, inserted}
use chess_crawl.Queue.Write.Inversion.{insert_job-eq-some}
use chess_crawl.Queue.Result.{ok, >>=-eq-ok}
use chess_crawl.Queue.Enqueue.{
  Digest, Backlog, Request, EnqueueResult, matches_key, make_dedup_key, request_key, new_job,
  enqueue_new, enqueue_job, validate_schedulable_job,
}
use chess_crawl.Queue.Dedup.{enqueue_new-eq-ok}
use chess_crawl.Queue.Idempotence.{find-append}
use chess_crawl.Queue.Soundness.{IsNumbered}
use chess_crawl.Queue.Runs.{create_crawl_run}
use chess_crawl.Queue.Roots.{Root, root_request, create_crawl_run_with_root_job}

find_job-fresh : (next : ℕ) (js : List Job) → IsNumbered next js → find_job next js ≡ none
find_job-fresh next [] h = refl
find_job-fresh next (j ∷ js) h = ground (arith, h.0, find_job-fresh next js h.1)

validate-parse_kind :
    (provider : Option String) (kind : String) (k : JobKind)
    → validate_schedulable_job provider kind ≡ ok k
    → parse_kind kind ≡ some k
unfolding validate_schedulable_job
validate-parse_kind provider kind k h = ground arith

-- The run that is created for the root.
abbrev root_run : Session → Root → ℕ → Run
root_run s root id = record {
  id = id;
  provider = some root.provider;
  seed_spec = root.seed_spec;
  params = root.params;
  status = running;
  counters = none;
  revision = 1;
  started_at = root.now;
  updated_at = root.now;
  finished_at = none;
  workspace_id = setting_workspace s;
  work_budget_id = none;
}

create_crawl_run-root :
    (s : Session) (root : Root) (db db' : Archive) (run : ℕ)
    → create_crawl_run s (some root.provider) root.seed_spec root.params root.now db ≡ ok (db', run)
    → (run ≡ db.next_run_id)
      × (db'.runs ≡ db.runs ++ root_run s root db.next_run_id ∷ [])
      × (db'.jobs ≡ db.jobs)
      × (db'.next_job_id ≡ db.next_job_id)
unfolding create_crawl_run
create_crawl_run-root s root db db' run h = (ground arith, ground arith, ground arith, ground arith)

own_job-run :
    (s : Session) (db : Archive) (j j' : Job) (run : ℕ) (r : Run)
    → j.crawl_run_id ≡ some run
    → find_run run db.runs ≡ some r
    → own_job s db j ≡ some j'
    → j' ≡ record j { workspace_id = r.workspace_id; work_budget_id = r.work_budget_id }
unfolding own_job
own_job-run s db j j' run r member found h = ground arith

-- What the creation of the run `run` with its first job `job` adds to the jobs `old`.
pub record IsRooted (root : Root) (old : List Job) (db' : Archive) (run job : ℕ) : Type 0 where
  pub row : Run
  pub crawl : Job
  pub run_found : find_run run db'.runs ≡ some row
  pub run_kept :
      (row.status ≡ running)
      × (row.provider ≡ some root.provider)
      × (row.seed_spec ≡ root.seed_spec)
      × (row.params ≡ root.params)
      × (row.started_at ≡ root.now)
      × (row.finished_at ≡ none)
  pub job_found : find_job job db'.jobs ≡ some crawl
  pub kind : parse_kind root.root_kind ≡ some crawl.kind
  pub of_run : crawl.crawl_run_id ≡ some run
  pub owned : crawl.workspace_id ≡ row.workspace_id
  pub job_kept :
      (crawl.state ≡ pending)
      × (crawl.provider ≡ some root.provider)
      × (crawl.target ≡ strip root.root_target)
      × (crawl.params ≡ root.params)
      × (crawl.priority ≡ root.priority)
      × (crawl.depth ≡ 0)
      × (crawl.parent_job_id ≡ none)
      × (crawl.enqueued_at ≡ root.now)
  pub others : db'.jobs ≡ old ++ crawl ∷ []

-- The key of the first job of a run.
abbrev pub root_key : Digest → Root → ℕ → String
root_key digest root run =
    make_dedup_key digest (some root.provider) root.root_kind root.root_target root.params
      (some run)

module _ (digest : Digest) (room : Backlog) (s : Session) (root : Root) where
  -- The first job, once its run is there.
  enqueue-root :
      (db db' : Archive) (run : ℕ) (result : EnqueueResult)
      → find_run run db.runs ≡ some (root_run s root run)
      → IsNumbered db.next_job_id db.jobs
      → find (matches_key (root_key digest root run) false) db.jobs ≡ none
      → enqueue_job digest room s (root_request root run) db ≡ ok (db', result)
      → IsRooted root db.jobs db' run result.job_id
  unfolding enqueue_job request_key root_request inserted new_job
  enqueue-root db db' run result present numbered fresh h =
      let r : Request = root_request root run in
      let (kind, valid, rest) =
        >>=-eq-ok (validate_schedulable_job (some root.provider) root.root_kind) _ h in
      let key : String = root_key digest root run in
      let added : enqueue_new room s db r kind key none ≡ ok (db', result) =
        subst (λ (o : Option Job). enqueue_new room s db r kind key o ≡ ok (db', result)) fresh
          rest in
      let (roomy, stored, first) = enqueue_new-eq-ok room s db db' r kind key result added in
      let (j, owned, free, written, given) =
        insert_job-eq-some s (new_job r kind key) db db' result.job_id stored in
      let new : Job = record (new_job r kind key) { id = db.next_job_id; revision = 1 } in
      let crawl : Job = record new {
        workspace_id = (root_run s root run).workspace_id;
        work_budget_id = none;
      } in
      let same : j ≡ crawl = own_job-run s db new j run (root_run s root run) refl present owned in
      let table : db'.jobs ≡ db.jobs ++ crawl ∷ [] =
        ap (λ (a : Archive). a.jobs) written ∙ ap (λ (x : Job). db.jobs ++ x ∷ []) same in
      record {
        row = root_run s root run;
        crawl = crawl;
        run_found = ap (λ (a : Archive). find_run run a.runs) written ∙ present;
        run_kept = (refl, refl, refl, refl, refl, refl);
        job_found =
            ap (λ (n : ℕ). find_job n db'.jobs) given
            ∙ ap (find_job db.next_job_id) table
            ∙ find-append (λ (x : Job). x.id == db.next_job_id) db.jobs crawl
                (find_job-fresh db.next_job_id db.jobs numbered) (ground arith);
        kind = validate-parse_kind (some root.provider) root.root_kind kind valid;
        of_run = refl;
        owned = refl;
        job_kept = (refl, refl, refl, refl, refl, refl, refl, refl);
        others = table;
      }

  -- Where the next run id is unused, the job sequence has passed every id and no live job holds the
  -- key of the first job, a success of create_crawl_run_with_root_job returns the next run id; that
  -- run is stored running, with the given provider, seed and parameters, started now and not
  -- finished; and exactly one job is added, stored under the returned id, pending, at depth 0 and
  -- without a parent, of that run and its workspace, with the given provider, kind, stripped
  -- target, parameters and priority.
  pub create_crawl_run_with_root_job-IsRooted :
      (db db' : Archive) (run job : ℕ)
      → find_run db.next_run_id db.runs ≡ none
      → IsNumbered db.next_job_id db.jobs
      → find (matches_key (root_key digest root db.next_run_id) false) db.jobs ≡ none
      → create_crawl_run_with_root_job digest room s root db ≡ ok (db', run, job)
      → (run ≡ db.next_run_id) × IsRooted root db.jobs db' run job
  unfolding create_crawl_run_with_root_job
  create_crawl_run_with_root_job-IsRooted db db' run job unused numbered fresh h =
      let (created, made, rest) =
        >>=-eq-ok (create_crawl_run s (some root.provider) root.seed_spec root.params root.now db) _
          h in
      let (queued, enqueued, result) =
        >>=-eq-ok (enqueue_job digest room s (root_request root created.1) created.0) _ rest in
      let (id, runs, jobs, next) = create_crawl_run-root s root db created.0 created.1 made in
      let present : find_run db.next_run_id created.0.runs ≡ some (root_run s root db.next_run_id) =
        ap (find_run db.next_run_id) runs
        ∙ find-append (λ (r : Run). r.id == db.next_run_id) db.runs (root_run s root db.next_run_id)
            unused (ground arith) in
      let number : IsNumbered created.0.next_job_id created.0.jobs =
        subst (λ (n : ℕ). IsNumbered n created.0.jobs) (sym next)
          (subst (IsNumbered db.next_job_id) (sym jobs) numbered) in
      let free : find (matches_key (root_key digest root db.next_run_id) false) created.0.jobs
          ≡ none =
        ap (find (matches_key (root_key digest root db.next_run_id) false)) jobs ∙ fresh in
      let accepted : enqueue_job digest room s (root_request root db.next_run_id) created.0
          ≡ ok (queued.0, queued.1) =
        subst
          (λ (n : ℕ).
            enqueue_job digest room s (root_request root n) created.0 ≡ ok (queued.0, queued.1))
          id enqueued in
      let left : IsRooted root created.0.jobs queued.0 db.next_run_id queued.1.job_id =
        enqueue-root created.0 queued.0 db.next_run_id queued.1 present number free accepted in
      let run_is : run ≡ db.next_run_id = ground arith in
      let last : queued.0 ≡ db' = ground arith in
      let job_is : queued.1.job_id ≡ job = ground arith in
      (
        run_is,
        subst (λ (n : ℕ). IsRooted root db.jobs db' n job) (sym run_is)
            (subst (IsRooted root db.jobs db' db.next_run_id) job_is (
              subst (λ (a : Archive). IsRooted root db.jobs a db.next_run_id queued.1.job_id) last
                (subst (λ (js : List Job). IsRooted root js queued.0 db.next_run_id queued.1.job_id)
                  jobs left))),
      )
