-- ===== src/Queue/Idempotence/Users.antt =====
-- Requests for one user, whose name is written in different ways.
use chess_crawl.Prelude.{
  ℕ, ◌≤◌, ◌≡◌, ◌↔◌, refl, sym, ap, subst, ◌∙◌, String, Text, Bool, true, false, Option, none, some,
  List, [], ◌∷◌, arith, str_eq, str_eq_iff, find, find-holds, any, count, lower, strip, Bool-cases,
  inl, inr, some_eq,
}
use chess_crawl.Queue.Model.{Archive, Job, JobKind}
use chess_crawl.Queue.Write.{Session, find_job, has_id}
use chess_crawl.Queue.Result.{ok, >>=-eq-ok}
use chess_crawl.Queue.Enqueue.{
  Digest, Backlog, DedupPayload, Request, EnqueueResult, matches_key, enqueue_new,
  validate_schedulable_job, names_user, normalize_target, make_dedup_key, request_key, enqueue_job,
}
use chess_crawl.Queue.Dedup.{enqueue_new-eq-ok}
use chess_crawl.Queue.Soundness.{HasUniqueIds}
use chess_crawl.Queue.Idempotence.{again, enqueue_job-again}

-- The kinds of jobs that are about one user.
abbrev pub user_kinds : List String
user_kinds = "fetch_user_profile" ∷ "fetch_user_stats" ∷ "fetch_user_games" ∷ "crawl_opponents" ∷ []

-- What identifies the work of such a request.
abbrev pub identity : Request → DedupPayload
identity r = record {
  provider = r.provider;
  kind = r.kind;
  target = lower (strip r.target);
  params = r.params;
  crawl_run_id = r.crawl_run_id;
}

request_key-identity :
    (digest : Digest) (r : Request)
    → any (str_eq r.kind) user_kinds ≡ true
    → r.dedup_key ≡ none
    → request_key digest r ≡ digest (identity r)
unfolding request_key make_dedup_key normalize_target names_user
request_key-identity digest r user generated =
    let named : names_user r.kind ≡ true = ground arith in
    rw (generated, request_key) (rw named refl)

-- The table's only row of an id is the one that is found by whatever test.
find-find_job :
    (p : Job → Bool) (js : List Job) (j : Job)
    → find p js ≡ some j
    → count (has_id j.id) js ≤ 1
    → find_job j.id js ≡ some j
find-find_job p [] j h one = absurd (ground arith)
find-find_job p (x ∷ xs) j h one = elim (Bool-cases (p x)) [
  | inl e ↦ let same : x ≡ j = ground arith in ground (arith, ap (λ (y : Job). y.id) same, same)
  | inr e ↦
      let later : find p xs ≡ some j = ground arith in
      let rest : find_job j.id xs ≡ some j = find-find_job p xs j later (ground arith) in
      elim (Bool-cases (has_id j.id x)) [
        | inl twice ↦ absurd (ground (arith, find-count (has_id j.id) xs j rest))
        | inr other ↦ ground (arith, rest)
      ]
]
  where
    find-count : (q : Job → Bool) (ks : List Job) (k : Job) → find q ks ≡ some k → 1 ≤ count q ks
    find-count q [] k g = absurd (ground arith)
    find-count q (y ∷ ys) k g = ground (arith, find-count q ys k)

-- A request that is answered with an old row found it by its key.
reused :
    (room : Backlog) (s : Session) (db db' : Archive) (r : Request) (kind : JobKind)
    (dedup : String) (id : ℕ) (found : Option Job)
    → enqueue_new room s db r kind dedup found ≡ ok (db', record { job_id = id; inserted = false })
    → (j : Job) × (found ≡ some j) × (j.id ≡ id)
reused room s db db' r kind dedup id none e =
    let (roomy, stored, fresh) =
      enqueue_new-eq-ok room s db db' r kind dedup (record { job_id = id; inserted = false }) e in
    absurd (ground (arith, fresh))
reused room s db db' r kind dedup id (some j) e = (j, refl, unfold enqueue_new in ground (arith, e))

found-key :
    (dedup : String) (reuse : Bool) (js : List Job) (j : Job)
    → find (matches_key dedup reuse) js ≡ some j
    → j.dedup_key ≡ dedup
unfolding matches_key
found-key dedup reuse js j h =
    let holds : matches_key dedup reuse j ≡ true = find-holds (matches_key dedup reuse) js h in
    (str_eq_iff j.dedup_key dedup).0 (ground arith)

-- The request `other` asks for the same work for a user that may be another one.
abbrev pub IsAlike : Request → Request → Type 0
IsAlike r other =
    (any (str_eq r.kind) user_kinds ≡ true)
    × (r.dedup_key ≡ none)
    × (other ≡ record r {
      target = other.target;
      parent_job_id = other.parent_job_id;
      depth = other.depth;
      priority = other.priority;
      now = other.now;
    })

module _ (digest : Digest) (room : Backlog) (s : Session) (r other : Request)
    (alike : IsAlike r other) where
  keys :
      (request_key digest r ≡ digest (identity r))
      × (request_key digest other ≡ digest (identity other))
  keys = (
    request_key-identity digest r alike.0 alike.1,
    request_key-identity digest other
        (ap (λ (q : Request). any (str_eq q.kind) user_kinds) alike.2 ∙ alike.0)
        (ap (λ (q : Request). q.dedup_key) alike.2 ∙ alike.1),
  )

  same_user-again :
      (db db' : Archive) (result : EnqueueResult)
      → lower (strip other.target) ≡ lower (strip r.target)
      → enqueue_job digest room s r db ≡ ok (db', result)
      → enqueue_job digest room s other db'
        ≡ ok (db', record { job_id = result.job_id; inserted = false })
  unfolding enqueue_job
  same_user-again db db' result same e =
      let (kind, valid, rest) = >>=-eq-ok (validate_schedulable_job r.provider r.kind) _ e in
      let dedup : String = request_key digest r in
      let one : identity other ≡ identity r =
        ap identity alike.2 ∙ ap (λ (t : Text). record (identity r) { target = t }) same in
      let key : request_key digest other ≡ dedup = keys.1 ∙ ap digest one ∙ sym keys.0 in
      let checked : validate_schedulable_job other.provider other.kind ≡ ok kind =
        ap (λ (q : Request). validate_schedulable_job q.provider q.kind) alike.2 ∙ valid in
      let reuse : other.reuse_terminal ≡ r.reuse_terminal =
        ap (λ (q : Request). q.reuse_terminal) alike.2 in
      rw (checked, key, reuse)
        (again room s db db' r other kind dedup result
          (find (matches_key dedup r.reuse_terminal) db.jobs) refl rest)

  -- The row that answers a request has its key.
  answered :
      (q : Request) (db' : Archive) (id : ℕ)
      → HasUniqueIds db'.jobs
      → enqueue_job digest room s q db' ≡ ok (db', record { job_id = id; inserted = false })
      → (j : Job) × (find_job id db'.jobs ≡ some j) × (j.dedup_key ≡ request_key digest q)
  unfolding enqueue_job
  answered q db' id ids e =
      let (kind, valid, rest) = >>=-eq-ok (validate_schedulable_job q.provider q.kind) _ e in
      let key : String = request_key digest q in
      let (j, found, same) =
        reused room s db' db' q kind key id (find (matches_key key q.reuse_terminal) db'.jobs)
          rest in
      (
        j,
        subst (λ (n : ℕ). find_job n db'.jobs ≡ some j) same
            (find-find_job (matches_key key q.reuse_terminal) db'.jobs j found (ids.at_id j.id)),
        found-key key q.reuse_terminal db'.jobs j found,
      )

  -- After an accepted request for a user profile, user statistics, user games or an opponent crawl
  -- whose key is generated, in a table whose ids are unique and with a digest that separates the
  -- two identities, another request that differs at most in the target, parent, depth, priority and
  -- time is answered with the id of the first, without a new row or a change of the archive,
  -- exactly if the two targets agree once stripped and put in lower case.
  pub enqueue_job-same_user :
      (db db' : Archive) (result : EnqueueResult)
      → (digest (identity other) ≡ digest (identity r) → identity other ≡ identity r)
      → HasUniqueIds db'.jobs
      → enqueue_job digest room s r db ≡ ok (db', result)
      → (enqueue_job digest room s other db'
          ≡ ok (db', record { job_id = result.job_id; inserted = false }))
        ↔ (lower (strip other.target) ≡ lower (strip r.target))
  enqueue_job-same_user db db' result separates ids e = (
    λ again_other.
        let (j, found, key) =
          answered r db' result.job_id ids (enqueue_job-again digest room s r db db' result e) in
        let (k, found', key') = answered other db' result.job_id ids again_other in
        let same : k ≡ j = some_eq (sym found' ∙ found) in
        let one : digest (identity other) ≡ digest (identity r) =
          sym keys.1 ∙ sym key' ∙ ap (λ (x : Job). x.dedup_key) same ∙ key ∙ keys.0 in
        ap (λ (p : DedupPayload). p.target) (separates one),
    λ same. same_user-again db db' result same e,
  )
