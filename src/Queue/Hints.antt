-- ===== src/Queue/Hints.antt =====
-- Dispatch hints: the outbox that the triggers keep beside discovery_jobs.
use chess_crawl.Prelude.{
  ℕ, ◌+◌, ◌≡◌, refl, sym, ap, subst, Bool, true, false, some, List, [], ◌∷◌, ◌++◌, map, arith, any,
  All, Bool-cases, All-append, inl, inr, ==_refl,
}
use chess_crawl.Queue.Model.{Archive, Dispatch, Job, Outbox, same_state_iff}
use chess_crawl.Queue.Write.Inversion.{insert_job-eq-some}
use chess_crawl.Queue.Write.{
  Session, tracked_same, set_job_revision, schedulable, schedulable_state, names_revision,
  supersede_row, supersede, hint, publish, record_dispatch_event, row_hint, update_row,
  update_hints, update_jobs, inserted, insert_job,
}

-- Some hint of the outbox names the job at its current revision.
abbrev pub hinted : Outbox → Job → Bool
hinted o j = any (names_revision j.id j.revision) o.rows

-- A job that can be scheduled has such a hint.
abbrev pub IsCovered : Outbox → Job → Type 0
IsCovered o j = schedulable j ≡ true → hinted o j ≡ true

any-append {ℓ} :
    {A : Type ℓ} (p : A → Bool) (xs ys : List A) → any p xs ≡ true → any p (xs ++ ys) ≡ true
any-append p [] ys h = ground arith
any-append p (x ∷ xs) ys h = ground (arith, any-append p xs ys)

any-append_last {ℓ} :
    {A : Type ℓ} (p : A → Bool) (xs : List A) (y : A) → p y ≡ true → any p (xs ++ y ∷ []) ≡ true
any-append_last p [] y h = ground arith
any-append_last p (x ∷ xs) y h = ground (arith, any-append_last p xs y h)

any-supersede :
    (clock job rev id n : ℕ) (ds : List Dispatch)
    → any (names_revision id n) (map (supersede_row clock job rev) ds)
      ≡ any (names_revision id n) ds
unfolding supersede_row
any-supersede clock job rev id n [] = refl
any-supersede clock job rev id n (d ∷ ds) = ground (arith, any-supersede clock job rev id n ds)

hinted-publish : (o : Outbox) (j k : Job) → hinted o k ≡ true → hinted (publish j o) k ≡ true
unfolding publish
hinted-publish o j k h =
    ground (arith, any-append (names_revision k.id k.revision) o.rows (hint j o.next_id ∷ []) h)

publish-hinted : (o : Outbox) (j : Job) → schedulable j ≡ true → hinted (publish j o) j ≡ true
unfolding publish
publish-hinted o j h = ground (
  arith,
  any-append_last (names_revision j.id j.revision) o.rows (hint j o.next_id),
  ==_refl j.id,
  ==_refl j.revision,
)

hinted-record :
    (clock : ℕ) (old new k : Job) (o : Outbox)
    → hinted o k ≡ true
    → hinted (record_dispatch_event clock old new o) k ≡ true
unfolding record_dispatch_event
hinted-record clock old new k o h = ground (
  arith,
  hinted-publish (supersede clock old.id old.revision o) new k,
  any-supersede clock old.id old.revision k.id k.revision o.rows,
)

hinted-row_hint :
    (clock : ℕ) (p : Job → Bool) (f : Job → Job) (j : Job) (o : Outbox) (k : Job)
    → hinted o k ≡ true
    → hinted (row_hint clock p f j o) k ≡ true
unfolding row_hint
hinted-row_hint clock p f j o k h =
    ground (arith, hinted-record clock j (set_job_revision j (f j)) k o h)

hinted-update :
    (clock : ℕ) (p : Job → Bool) (f : Job → Job) (js : List Job) (o : Outbox) (k : Job)
    → hinted o k ≡ true
    → hinted (update_hints clock p f js o) k ≡ true
unfolding update_hints
hinted-update clock p f [] o k h = h
hinted-update clock p f (j ∷ js) o k h =
    hinted-update clock p f js (row_hint clock p f j o) k (hinted-row_hint clock p f j o k h)

All-IsCovered-mono :
    (o o' : Outbox) (js : List Job)
    → ((k : Job) → hinted o k ≡ true → hinted o' k ≡ true)
    → All (IsCovered o) js
    → All (IsCovered o') js
All-IsCovered-mono o o' [] h a = tt
All-IsCovered-mono o o' (j ∷ js) h a = (λ s. h j (a.0 s), All-IsCovered-mono o o' js h a.1)

-- The trigger's comparison sees whatever makes a job schedulable.
schedulable_of_tracked :
    (old new : Job) → tracked_same old new ≡ true → schedulable new ≡ schedulable old
unfolding tracked_same schedulable_state
schedulable_of_tracked old new h = ground (arith, same_state_iff new.state old.state)

record-IsCovered :
    (clock : ℕ) (j new : Job) (o : Outbox)
    → new.id ≡ j.id
    → tracked_same j new ≡ true
    → IsCovered o j
    → IsCovered (record_dispatch_event clock j (set_job_revision j new) o) (set_job_revision j new)
unfolding record_dispatch_event set_job_revision
record-IsCovered clock j new o same t c s = ground (
  arith,
  schedulable_of_tracked j new t,
  ==_refl j.revision,
  ap (λ (id : ℕ). any (names_revision id j.revision) o.rows) same,
)

record_changed-IsCovered :
    (clock : ℕ) (j new : Job) (o : Outbox)
    → tracked_same j new ≡ false
    → IsCovered (record_dispatch_event clock j (set_job_revision j new) o) (set_job_revision j new)
unfolding record_dispatch_event set_job_revision
record_changed-IsCovered clock j new o t s = ground (
  arith,
  publish-hinted (supersede clock j.id j.revision o) (record new { revision = j.revision + 1 }),
)

-- One row of an UPDATE that keeps the row's id is covered after its own trigger.
row_hint-IsCovered :
    (clock : ℕ) (p : Job → Bool) (f : Job → Job) (j : Job) (o : Outbox)
    → (f j).id ≡ j.id
    → IsCovered o j
    → IsCovered (row_hint clock p f j o) (update_row p f j)
unfolding row_hint update_row
row_hint-IsCovered clock p f j o same c = elim (Bool-cases (p j)) [
  | inr e ↦ rw e c
  | inl e ↦ elim (Bool-cases (tracked_same j (f j))) [
    | inl t ↦ rw e (record-IsCovered clock j (f j) o same t c)
    | inr t ↦ rw e (record_changed-IsCovered clock j (f j) o t)
  ]
]

update_hints-IsCovered :
    (clock : ℕ) (p : Job → Bool) (f : Job → Job) (js : List Job) (o : Outbox)
    → ((j : Job) → (f j).id ≡ j.id)
    → All (IsCovered o) js
    → All (IsCovered (update_hints clock p f js o)) (map (update_row p f) js)
unfolding update_hints
update_hints-IsCovered clock p f [] o same c = tt
update_hints-IsCovered clock p f (j ∷ js) o same c =
    let o' : Outbox = row_hint clock p f j o in
    (
      λ s.
          hinted-update clock p f js o' (update_row p f j)
            (row_hint-IsCovered clock p f j o (same j) c.0 s),
      update_hints-IsCovered clock p f js o' same
          (All-IsCovered-mono o o' js (λ k h. hinted-row_hint clock p f j o k h) c.1),
    )

-- What every write of the queue keeps: all jobs covered.
abbrev pub IsHinted : Archive → Type 0
IsHinted db = All (IsCovered db.outbox) db.jobs

pub update_jobs-IsHinted :
    (p : Job → Bool) (f : Job → Job) (db : Archive)
    → ((j : Job) → (f j).id ≡ j.id)
    → IsHinted db
    → IsHinted (update_jobs p f db)
unfolding update_jobs
update_jobs-IsHinted p f db same h = update_hints-IsCovered db.clock p f db.jobs db.outbox same h

inserted-IsCovered :
    (o : Outbox) (js : List Job) (j : Job)
    → All (IsCovered o) js
    → All (IsCovered (publish j o)) (js ++ j ∷ [])
inserted-IsCovered o js j h =
    All-append (IsCovered (publish j o)) js (j ∷ [])
      (All-IsCovered-mono o (publish j o) js (λ k. hinted-publish o j k) h) (publish-hinted o j, tt)

pub insert_job-IsHinted :
    (s : Session) (row : Job) (db db' : Archive) (id : ℕ)
    → insert_job s row db ≡ some (db', id)
    → IsHinted db
    → IsHinted db'
unfolding inserted
insert_job-IsHinted s row db db' id e h =
    let (j, owned, free, result, given) = insert_job-eq-some s row db db' id e in
    subst IsHinted (sym result) (inserted-IsCovered db.outbox db.jobs j h)
