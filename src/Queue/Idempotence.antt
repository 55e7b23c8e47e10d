-- ===== src/Queue/Idempotence.antt =====
-- A second delivery of the same request.
pub mod Users
use chess_crawl.Prelude.{
  ℕ, ◌≡◌, refl, sym, ap, subst, ◌∙◌, String, Bool, true, false, Option, none, some, List, [], ◌∷◌,
  ◌++◌, arith, str_eq, str_eq_iff, find, any, lower, strip,
}
use chess_crawl.Queue.Model.{Archive, Job, JobKind, is_live}
use chess_crawl.Queue.Write.{Session, inserted, insert_job}
use chess_crawl.Queue.Write.Inversion.{insert_job-eq-some, own_job-keeps}
use chess_crawl.Queue.Result.{ok, >>=-eq-ok}
use chess_crawl.Queue.Enqueue.{
  Digest, Backlog, Request, EnqueueResult, matches_key, new_job, enqueue_new,
  validate_schedulable_job, names_user, normalize_target, make_dedup_key, request_key, enqueue_job,
}
use chess_crawl.Queue.Dedup.{enqueue_new-eq-ok}

pub find-append {ℓ} :
    {A : Type ℓ} (p : A → Bool) (xs : List A) (y : A)
    → find p xs ≡ none
    → p y ≡ true
    → find p (xs ++ y ∷ []) ≡ some y
find-append p [] y n h = ground arith
find-append p (x ∷ xs) y n h = ground (arith, find-append p xs y)

new_row-found :
    (s : Session) (db db' : Archive) (r : Request) (kind : JobKind) (dedup : String) (id : ℕ)
    → find (matches_key dedup r.reuse_terminal) db.jobs ≡ none
    → insert_job s (new_job r kind dedup) db ≡ some (db', id)
    → (j : Job) × (find (matches_key dedup r.reuse_terminal) db'.jobs ≡ some j) × (j.id ≡ id)
unfolding new_job inserted matches_key is_live
new_row-found s db db' r kind dedup id n e =
    let (j, owned, free, result, given) = insert_job-eq-some s (new_job r kind dedup) db db' id e in
    let row : Job = record (new_job r kind dedup) { id = db.next_job_id; revision = 1 } in
    let (key, state, same_id) = own_job-keeps s db row j owned in
    let live : is_live j.state ≡ true = ap is_live state in
    let named : str_eq j.dedup_key dedup ≡ true = (str_eq_iff j.dedup_key dedup).1 key in
    let matched : matches_key dedup r.reuse_terminal j ≡ true = ground arith in
    (
      j,
      subst (λ (a : Archive). find (matches_key dedup r.reuse_terminal) a.jobs ≡ some j)
          (sym result) (find-append (matches_key dedup r.reuse_terminal) db.jobs j n matched),
      same_id ∙ sym given,
    )

-- Another request under the same key finds the job that the first one left.
pub again :
    (room : Backlog) (s : Session) (db db' : Archive) (r other : Request) (kind : JobKind)
    (dedup : String) (result : EnqueueResult) (found : Option Job)
    → find (matches_key dedup r.reuse_terminal) db.jobs ≡ found
    → enqueue_new room s db r kind dedup found ≡ ok (db', result)
    → enqueue_new room s db' other kind dedup (find (matches_key dedup r.reuse_terminal) db'.jobs)
      ≡ ok (db', record { job_id = result.job_id; inserted = false })
unfolding enqueue_new
again room s db db' r other kind dedup result none q e =
    let (roomy, stored, fresh) = enqueue_new-eq-ok room s db db' r kind dedup result e in
    let (j, found, same) = new_row-found s db db' r kind dedup result.job_id q stored in
    rw found (ground arith)
again room s db db' r other kind dedup result (some j) q e =
    let same : db ≡ db' = ground arith in
    let found : find (matches_key dedup r.reuse_terminal) db'.jobs ≡ some j =
      subst (λ (a : Archive). find (matches_key dedup r.reuse_terminal) a.jobs ≡ some j) same q in
    rw found (ground arith)

-- An accepted request that is delivered again before the job's state changes adds no row, leaves
-- the archive as it is and returns the id of the first delivery.
pub enqueue_job-again :
    (digest : Digest) (room : Backlog) (s : Session) (r : Request) (db db' : Archive)
    (result : EnqueueResult)
    → enqueue_job digest room s r db ≡ ok (db', result)
    → enqueue_job digest room s r db'
      ≡ ok (db', record { job_id = result.job_id; inserted = false })
unfolding enqueue_job
enqueue_job-again digest room s r db db' result e =
    let (kind, valid, rest) = >>=-eq-ok (validate_schedulable_job r.provider r.kind) _ e in
    let dedup : String = request_key digest r in
    rw valid (
      again room s db db' r r kind dedup result (find (matches_key dedup r.reuse_terminal) db.jobs)
        refl rest)
