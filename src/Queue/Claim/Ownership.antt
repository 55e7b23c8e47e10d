-- ===== src/Queue/Claim/Ownership.antt =====
-- The rows, the session and the turns after a successful claim_next_job.
use chess_crawl.Prelude.{
  ℕ, ◌+◌, ◌≤◌, ◌≡◌, refl, sym, ap, subst, ◌∙◌, true, false, Option, none, some, List, [], ◌∷◌, map,
  arith, ◌==◌, ==→eq, if◌then◌else◌, count, Bool-cases, Option-cases, inl, inr, str_eq_iff,
}
use chess_crawl.Queue.Model.{
  Archive, Job, in_progress, LockKey, acquisition_provider, executor_job, is_processing_kind,
}
use chess_crawl.Queue.Write.{
  Session, find_job, has_id, set_job_revision, tracked_same, update_row, update_jobs,
}
use chess_crawl.Queue.Rows.{find-update_jobs}
use chess_crawl.Queue.Soundness.{HasUniqueIds}
use chess_crawl.Queue.Admission.{claim_admission}
use chess_crawl.Queue.Claim.{
  Environment, ClaimOptions, claim_turn, start_attempt, take_turn, claim_row, own_session,
  job_claimed, claim_next_job,
}
use chess_crawl.Queue.Claim.Soundness.{IsAt, IsOwnable, Took, claimed_keys, claim_next_job-Took}

-- The table's only row of an id is the one that is found.
find-IsAt :
    (js : List Job) (c : Job) → count (has_id c.id) js ≤ 1 → IsAt js c → find_job c.id js ≡ some c
find-IsAt [] c one h = absurd h
find-IsAt (j ∷ js) c one (inl same) = ground (arith, same, ap (λ (x : Job). x.id) same)
find-IsAt (j ∷ js) c one (inr later) = elim (Bool-cases (has_id c.id j)) [
  | inl e ↦
      let gone : count (has_id c.id) js ≡ 0 = ground arith in
      absurd (ground (arith, absent js gone later))
  | inr e ↦ ground (arith, find-IsAt js c (ground arith) later)
]
  where
    absent : (ks : List Job) → count (has_id c.id) ks ≡ 0 → IsAt ks c → true ≡ false
    absent [] h at = absurd at
    absent (k ∷ ks) h (inl same) = absurd (ground (arith, ap (λ (x : Job). x.id) same))
    absent (k ∷ ks) h (inr at) = absent ks (ground arith) at

module _ (id : ℕ) (f : Job → Job) (same : (j : Job) → (f j).id ≡ j.id) where
  find-update_row_ne :
      (other : ℕ) (js : List Job)
      → (other == id) ≡ false
      → find_job other (map (update_row (has_id id) f) js) ≡ find_job other js
  unfolding update_row set_job_revision
  find-update_row_ne other [] h = refl
  find-update_row_ne other (j ∷ js) h = ground (arith, find-update_row_ne other js h, same j)

-- Who a started row names: no one without a worker, and else the session and the token of the claim.
abbrev pub NamesOwner : Environment → ClaimOptions → Session → Job → Type 0
NamesOwner e o s new = elim o.worker_id [
  | none ↦ (new.owner_backend_pid ≡ none) × (new.ownership_token ≡ none)
  | some _ ↦ (new.owner_backend_pid ≡ some s.backend_pid) × (new.ownership_token ≡ some e.token)
]

-- The row of the attempt that starts, field by field.
pub record IsStarted (e : Environment) (o : ClaimOptions) (s : Session) (old new : Job)
    : Type 0 where
  pub state : new.state ≡ in_progress
  pub attempts : new.attempts ≡ old.attempts + 1
  pub started_at : new.started_at ≡ some o.now
  pub done_at : new.done_at ≡ none
  pub reason : new.reason ≡ none
  pub next_attempt_at : new.next_attempt_at ≡ none
  pub generation : new.ownership_generation ≡ old.ownership_generation + 1
  pub revision : new.revision ≡ old.revision + 1
  pub owner_worker_id : new.owner_worker_id ≡ o.worker_id
  pub owner : NamesOwner e o s new
  pub kept :
      (new.provider ≡ old.provider)
      × (new.kind ≡ old.kind)
      × (new.target ≡ old.target)
      × (new.params ≡ old.params)
      × (new.retry_count ≡ old.retry_count)
      × (new.crawl_run_id ≡ old.crawl_run_id)
      × (new.workspace_id ≡ old.workspace_id)
      × (new.work_budget_id ≡ old.work_budget_id)

-- The session of the claim: without a worker it is the old one, and with one it holds the job's fence
-- and exactly the claim's locks.
abbrev pub Owns : Environment → ClaimOptions → Session → Job → Session → Type 0
Owns e o s c s' = elim o.worker_id [
  | none ↦ s' ≡ s
  | some _ ↦
      (s'.job_fence ≡ some (c.id, e.token))
      × (s'.ownership_keys ≡ (
          if is_processing_kind c.kind
          then executor_job c.id ∷ []
          else acquisition_provider c.provider ∷ executor_job c.id ∷ []))
      × (s'.backend_pid ≡ s.backend_pid)
      × (s'.workspace ≡ s.workspace)
]

-- What a claim that succeeds leaves.
pub record IsClaimed (e : Environment) (o : ClaimOptions) (s : Session) (db db' : Archive)
    (s' : Session) (j : Option Job) : Type 0 where
  pub old : Job
  pub new : Job
  pub found : find_job old.id db.jobs ≡ some old
  pub admitted : claim_admission o.now o.cap db old ≡ true
  pub ownable : IsOwnable e o old
  pub returned : j ≡ some new
  pub started : IsStarted e o s old new
  pub rows :
      (id : ℕ) → find_job id db'.jobs ≡ (if id == old.id then some new else find_job id db.jobs)
  pub owns : Owns e o s old s'
  pub turn : claim_turn db' o.stage old.workspace_id ≡ db.next_turn

attempt_changes :
    (e : Environment) (o : ClaimOptions) (s : Session) (c : Job)
    → tracked_same c (start_attempt e o s c) ≡ false
unfolding tracked_same start_attempt
attempt_changes e o s c = ground arith

start_attempt-IsStarted :
    (e : Environment) (o : ClaimOptions) (s : Session) (c : Job)
    → IsStarted e o s c (set_job_revision c (start_attempt e o s c))
unfolding start_attempt set_job_revision
start_attempt-IsStarted e o s c = record {
  state = refl;
  attempts = refl;
  started_at = refl;
  done_at = refl;
  reason = refl;
  next_attempt_at = refl;
  generation = refl;
  revision = rw (attempt_changes e o s c) refl;
  owner_worker_id = refl;
  owner = elim (Option-cases o.worker_id) [
    | inl alone ↦ rw alone (refl, refl)
    | inr (w, worker) ↦ rw worker (refl, refl)
  ];
  kept = (refl, refl, refl, refl, refl, refl, refl, refl);
}

own_session-Owns :
    (e : Environment) (o : ClaimOptions) (s : Session) (c : Job)
    → Owns e o s c (own_session e o s c (claimed_keys o c))
unfolding own_session
own_session-Owns e o s c = elim (Option-cases o.worker_id) [
  | inl alone ↦ rw alone refl
  | inr (w, worker) ↦ rw worker (refl, refl, refl, refl)
]

claim_row-rows :
    (e : Environment) (o : ClaimOptions) (s : Session) (c : Job) (db : Archive) (id : ℕ)
    → find_job c.id db.jobs ≡ some c
    → find_job id (claim_row e o s c db).jobs ≡ (
        if id == c.id
        then some (set_job_revision c (start_attempt e o s c))
        else find_job id db.jobs)
unfolding claim_row take_turn update_jobs start_attempt
claim_row-rows e o s c db id found = elim (Bool-cases (id == c.id)) [
  | inl same ↦
      let eq : id ≡ c.id = ==→eq id c.id same in
      rw same (
        ap (λ (n : ℕ). find_job n (claim_row e o s c db).jobs) eq
        ∙ find-update_jobs c.id (start_attempt e o s) (λ j. refl) db c found)
  | inr other ↦
      rw other (find-update_row_ne c.id (start_attempt e o s) (λ j. refl) id db.jobs other)
]

claim_row-turn :
    (e : Environment) (o : ClaimOptions) (s : Session) (c : Job) (db : Archive)
    → claim_turn (claim_row e o s c db) o.stage c.workspace_id ≡ db.next_turn
unfolding claim_turn claim_row take_turn update_jobs
claim_row-turn e o s c db =
    ground (
      arith,
      (str_eq_iff c.workspace_id c.workspace_id).1 refl,
      (str_eq_iff o.stage o.stage).1 refl,
    )

module _ (e : Environment) (o : ClaimOptions) (s : Session) (db db' : Archive) (s' : Session)
    (j : Option Job) where
  Took-IsClaimed : HasUniqueIds db.jobs → Took e o s db db' s' j → IsClaimed e o s db db' s' j
  Took-IsClaimed ids t =
      let c : Job = t.row in
      let found : find_job c.id db.jobs ≡ some c = find-IsAt db.jobs c (ids.at_id c.id) t.place in
      let new : Job = set_job_revision c (start_attempt e o s c) in
      let rows : (id : ℕ)
          → find_job id db'.jobs ≡ (if id == c.id then some new else find_job id db.jobs) =
        λ id.
          ap (λ (a : Archive). find_job id a.jobs) t.written ∙ claim_row-rows e o s c db id found in
      record {
        old = c;
        new = new;
        found = found;
        admitted = t.admitted;
        ownable = t.ownable;
        returned = t.returned ∙ rows c.id ∙ ground arith;
        started = start_attempt-IsStarted e o s c;
        rows = rows;
        owns = subst (Owns e o s c) (sym t.owned) (
            subst (λ (keys : List LockKey). Owns e o s c (own_session e o s c keys)) (sym t.locks)
              (own_session-Owns e o s c));
        turn =
            ap (λ (a : Archive). claim_turn a o.stage c.workspace_id) t.written
            ∙ claim_row-turn e o s c db;
      }

  -- In a table whose ids are unique, a successful claim takes a row that the admission conditions
  -- allow and, where a worker claims, whose job lock, and provider lock where the job acquires, no
  -- other session holds. The row is returned in progress, started now, with one more attempt, one
  -- more generation of ownership and one more revision, without an end, a reason or a next attempt,
  -- and names the worker, its connection and the token of the claim, or none of them without a
  -- worker; its work, run, workspace and budget stay. No row of another id changes. With a worker
  -- the session holds the fence of that job and token and as keys exactly the job lock, after the
  -- provider lock where the job acquires, and without one it is unchanged. The workspace takes the
  -- next turn of the stage.
  pub claim_next_job-IsClaimed :
      HasUniqueIds db.jobs
      → claim_next_job e o s db ≡ job_claimed db' s' j
      → IsClaimed e o s db db' s' j
  claim_next_job-IsClaimed ids h = Took-IsClaimed ids (claim_next_job-Took e o s db db' s' j h)
