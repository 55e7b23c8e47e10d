-- ===== src/Queue/Dedup.antt =====
-- Deduplication: at most one live job for each key.
use chess_crawl.Prelude.{
  ℕ, ◌≤◌, ◌≡◌, refl, sym, ap, subst, String, Bool, true, false, ◌&&◌, Option, none, some, List, [],
  ◌∷◌, ◌++◌, map, arith, str_eq, str_eq_iff, count, count-append, All, find, inl, inr, Bool-cases,
}
use chess_crawl.Queue.Model.{Archive, Job, JobKind, is_live}
use chess_crawl.Queue.Write.{Session, update_row, update_jobs, inserted, insert_job}
use chess_crawl.Queue.Write.Inversion.{insert_job-eq-some, own_job-keeps}
use chess_crawl.Queue.Result.{ok, >>=-eq-ok}
use chess_crawl.Queue.Enqueue.{
  Digest, Backlog, Request, EnqueueResult, matches_key, new_job, insert_result, enqueue_new,
  validate_schedulable_job, request_key, enqueue_job, has_backlog_room, inherited_budget,
}

-- A live job with the key.
unfoldable pub holds_key : String → Job → Bool
holds_key k j = str_eq j.dedup_key k && is_live j.state

pub record IsDeduplicated (js : List Job) : Type 0 where
  pub at_key : (k : String) → count (holds_key k) js ≤ 1

count_of_find-none :
    (dedup : String) (reuse : Bool) (js : List Job)
    → find (matches_key dedup reuse) js ≡ none
    → count (holds_key dedup) js ≡ 0
unfolding matches_key holds_key
count_of_find-none dedup reuse [] h = refl
count_of_find-none dedup reuse (j ∷ js) h = ground (arith, count_of_find-none dedup reuse js)

count_one : (k : String) (j : Job) → count (holds_key k) (j ∷ []) ≤ 1
count_one k j = ground arith

count_none :
    (k : String) (j : Job) → str_eq j.dedup_key k ≡ false → count (holds_key k) (j ∷ []) ≡ 0
unfolding holds_key
count_none k j e = ground arith

insert-IsDeduplicated :
    (js : List Job) (j : Job)
    → count (holds_key j.dedup_key) js ≡ 0
    → IsDeduplicated js
    → IsDeduplicated (js ++ j ∷ [])
insert-IsDeduplicated js j none_held h = record {
  at_key = λ k. elim (Bool-cases (str_eq j.dedup_key k)) [
    | inl e ↦
        let free : count (holds_key k) js ≡ 0 =
          subst (λ (key : String). count (holds_key key) js ≡ 0) ((str_eq_iff j.dedup_key k).0 e)
            none_held in
        omega (arith, count-append (holds_key k) js (j ∷ []), count_one k j)
    | inr e ↦ omega (arith, count-append (holds_key k) js (j ∷ []), count_none k j e, h.at_key k)
  ];
}

revives_none :
    (p : Job → Bool) (f : Job → Job) (k : String) (j : Job)
    → (f j).dedup_key ≡ j.dedup_key
    → (p j ≡ true → is_live (f j).state ≡ true → is_live j.state ≡ true)
    → holds_key k (update_row p f j) ≡ true
    → holds_key k j ≡ true
unfolding holds_key update_row
revives_none p f k j keep revive h = elim (Bool-cases (p j)) [
  | inl e ↦ ground (arith, revive e, ap (λ (key : String). str_eq key k) keep)
  | inr e ↦ ground arith
]

-- The write revives no finished job.
abbrev pub RevivesNone : (Job → Bool) → (Job → Job) → Job → Type 0
RevivesNone p f j = p j ≡ true → is_live (f j).state ≡ true → is_live j.state ≡ true

count-update_le :
    (p : Job → Bool) (f : Job → Job) (k : String) (js : List Job)
    → ((j : Job) → (f j).dedup_key ≡ j.dedup_key)
    → All (RevivesNone p f) js
    → count (holds_key k) (map (update_row p f) js) ≤ count (holds_key k) js
count-update_le p f k [] keep revive = omega arith
count-update_le p f k (j ∷ js) keep revive =
    ground (arith, revives_none p f k j (keep j) revive.0, count-update_le p f k js keep revive.1)

-- Under one key, live jobs do not appear by an UPDATE that keeps keys and revives no finished job.
pub update_jobs-IsDeduplicated :
    (p : Job → Bool) (f : Job → Job) (db : Archive)
    → ((j : Job) → (f j).dedup_key ≡ j.dedup_key)
    → All (RevivesNone p f) db.jobs
    → IsDeduplicated db.jobs
    → IsDeduplicated (update_jobs p f db).jobs
unfolding update_jobs
update_jobs-IsDeduplicated p f db keep revive h = record {
  at_key = λ k. omega (arith, count-update_le p f k db.jobs keep revive, h.at_key k);
}

insert_result-eq-ok :
    (o : Option (Archive × ℕ)) (db' : Archive) (result : EnqueueResult)
    → insert_result o ≡ ok (db', result)
    → (o ≡ some (db', result.job_id)) × (result.inserted ≡ true)
insert_result-eq-ok none db' result e = (absurd (ground arith), ground arith)
insert_result-eq-ok (some (db, id)) db' result e = (ground arith, ground arith)

-- A new job is inserted only where the backlog has room.
pub enqueue_new-eq-ok :
    (room : Backlog) (s : Session) (db db' : Archive) (r : Request) (kind : JobKind)
    (dedup : String) (result : EnqueueResult)
    → enqueue_new room s db r kind dedup none ≡ ok (db', result)
    → (has_backlog_room room (inherited_budget s db r) db ≡ true)
      × (insert_job s (new_job r kind dedup) db ≡ some (db', result.job_id))
      × (result.inserted ≡ true)
unfolding enqueue_new
enqueue_new-eq-ok room s db db' r kind dedup result e =
    let b : Bool = has_backlog_room room (inherited_budget s db r) db in
    let o : Option (Archive × ℕ) = insert_job s (new_job r kind dedup) db in
    elim (Bool-cases b) [
      | inl roomy ↦
          let kept : insert_result o ≡ ok (db', result) = ground arith in
          let (stored, fresh) = insert_result-eq-ok o db' result kept in (roomy, stored, fresh)
      | inr full ↦ absurd (ground arith)
    ]

new_row-IsDeduplicated :
    (s : Session) (db db' : Archive) (r : Request) (kind : JobKind) (dedup : String) (id : ℕ)
    → find (matches_key dedup r.reuse_terminal) db.jobs ≡ none
    → insert_job s (new_job r kind dedup) db ≡ some (db', id)
    → IsDeduplicated db.jobs
    → IsDeduplicated db'.jobs
unfolding new_job inserted
new_row-IsDeduplicated s db db' r kind dedup id n e h =
    let (j, owned, free, result, given) = insert_job-eq-some s (new_job r kind dedup) db db' id e in
    let (same, state, same_id) =
      own_job-keeps s db (record (new_job r kind dedup) { id = db.next_job_id; revision = 1 }) j
        owned in
    let none_held : count (holds_key j.dedup_key) db.jobs ≡ 0 =
      subst (λ (key : String). count (holds_key key) db.jobs ≡ 0) (sym same)
        (count_of_find-none dedup r.reuse_terminal db.jobs n) in
    subst (λ (a : Archive). IsDeduplicated a.jobs) (sym result)
      (insert-IsDeduplicated db.jobs j none_held h)

enqueue_found-IsDeduplicated :
    (room : Backlog) (s : Session) (db db' : Archive) (r : Request) (kind : JobKind)
    (dedup : String) (result : EnqueueResult) (found : Option Job)
    → find (matches_key dedup r.reuse_terminal) db.jobs ≡ found
    → enqueue_new room s db r kind dedup found ≡ ok (db', result)
    → IsDeduplicated db.jobs
    → IsDeduplicated db'.jobs
unfolding enqueue_new
enqueue_found-IsDeduplicated room s db db' r kind dedup result none q e h =
    let (roomy, stored, fresh) = enqueue_new-eq-ok room s db db' r kind dedup result e in
    new_row-IsDeduplicated s db db' r kind dedup result.job_id q stored h
enqueue_found-IsDeduplicated room s db db' r kind dedup result (some j) q e h =
    let same : db ≡ db' = ground arith in subst (λ (a : Archive). IsDeduplicated a.jobs) same h

-- A successful enqueue_job keeps at most one live job under each key.
pub enqueue_job-IsDeduplicated :
    (digest : Digest) (room : Backlog) (s : Session) (r : Request) (db db' : Archive)
    (result : EnqueueResult)
    → enqueue_job digest room s r db ≡ ok (db', result)
    → IsDeduplicated db.jobs
    → IsDeduplicated db'.jobs
unfolding enqueue_job
enqueue_job-IsDeduplicated digest room s r db db' result e h =
    let (kind, valid, rest) = >>=-eq-ok (validate_schedulable_job r.provider r.kind) _ e in
    enqueue_found-IsDeduplicated room s db db' r kind (request_key digest r) result
      (find (matches_key (request_key digest r) r.reuse_terminal) db.jobs) refl rest h
