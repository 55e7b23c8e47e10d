-- ===== src/Queue/Soundness.antt =====
-- The invariant of the queue's tables, and the ways of writing that keep it.
use mathlib.Core.Path.{subst₃}
use chess_crawl.Prelude.{
  ℕ, ◌+◌, ◌≤◌, ◌<◌, ◌≡◌, ◌≢◌, refl, subst, Bool, not, ◌&&◌, List, [], ◌∷◌, ◌++◌, map, arith, ◌==◌,
  count, count-append, All, Bool-cases, inl, inr,
}
use chess_crawl.Queue.Model.{Archive, Job, Outbox, is_live}
use chess_crawl.Queue.Write.{has_id, set_job_revision, update_row, update_jobs}
use chess_crawl.Queue.Hints.{IsCovered, update_jobs-IsHinted}
use chess_crawl.Queue.Dedup.{IsDeduplicated, RevivesNone, update_jobs-IsDeduplicated}

-- Job ids are the table's primary key.
pub record HasUniqueIds (js : List Job) : Type 0 where
  pub at_id : (id : ℕ) → count (has_id id) js ≤ 1

-- The identity sequence has passed every id.
abbrev pub IsNumbered : ℕ → List Job → Type 0
IsNumbered next = All (λ (j : Job). j.id < next)

-- Every schedulable job has a dispatch hint for its revision; a key has one live job at most; ids
-- are unique and drawn from the sequence.
pub record IsSoundTable (js : List Job) (o : Outbox) (next : ℕ) : Type 0 where
  pub hinted : All (IsCovered o) js
  pub single : IsDeduplicated js
  pub unique : HasUniqueIds js
  pub numbered : IsNumbered next js

abbrev pub IsSound : Archive → Type 0
IsSound db = IsSoundTable db.jobs db.outbox db.next_job_id

-- A write to other tables.
pub IsSound-other :
    (db db' : Archive)
    → db.jobs ≡ db'.jobs
    → db.outbox ≡ db'.outbox
    → db.next_job_id ≡ db'.next_job_id
    → IsSound db
    → IsSound db'
IsSound-other db db' jobs outbox next h = subst₃ IsSoundTable jobs outbox next h

count-update_id :
    (p : Job → Bool) (f : Job → Job) (id : ℕ) (js : List Job)
    → ((j : Job) → (f j).id ≡ j.id)
    → count (has_id id) (map (update_row p f) js) ≡ count (has_id id) js
unfolding update_row set_job_revision
count-update_id p f id [] same = refl
count-update_id p f id (j ∷ js) same = ground (arith, same j, count-update_id p f id js same)

IsNumbered-update :
    (p : Job → Bool) (f : Job → Job) (next : ℕ) (js : List Job)
    → ((j : Job) → (f j).id ≡ j.id)
    → IsNumbered next js
    → IsNumbered next (map (update_row p f) js)
unfolding update_row set_job_revision
IsNumbered-update p f next [] same h = tt
IsNumbered-update p f next (j ∷ js) same h =
    (ground (arith, same j), IsNumbered-update p f next js same h.1)

pub update_jobs-IsSound :
    (p : Job → Bool) (f : Job → Job) (db : Archive)
    → ((j : Job) → (f j).id ≡ j.id)
    → ((j : Job) → (f j).dedup_key ≡ j.dedup_key)
    → All (RevivesNone p f) db.jobs
    → IsSound db
    → IsSound (update_jobs p f db)
update_jobs-IsSound p f db same keep revive h = record {
  hinted = update_jobs-IsHinted p f db same h.hinted;
  single = update_jobs-IsDeduplicated p f db keep revive h.single;
  unique = record {
    at_id = λ id.
        unfold update_jobs in omega (arith, count-update_id p f id db.jobs same, h.unique.at_id id);
  };
  numbered = unfold update_jobs in IsNumbered-update p f db.next_job_id db.jobs same h.numbered;
}

All-RevivesNone :
    (p : Job → Bool) (f : Job → Job) (js : List Job)
    → ((j : Job) → RevivesNone p f j)
    → All (RevivesNone p f) js
All-RevivesNone p f [] h = tt
All-RevivesNone p f (j ∷ js) h = (h j, All-RevivesNone p f js h)

-- A write that revives nothing, whatever the row.
pub update_jobs-IsSound_all :
    (p : Job → Bool) (f : Job → Job) (db : Archive)
    → ((j : Job) → (f j).id ≡ j.id)
    → ((j : Job) → (f j).dedup_key ≡ j.dedup_key)
    → ((j : Job) → RevivesNone p f j)
    → IsSound db
    → IsSound (update_jobs p f db)
update_jobs-IsSound_all p f db same keep revive =
    update_jobs-IsSound p f db same keep (All-RevivesNone p f db.jobs revive)

count-none :
    (p q : Job → Bool) (js : List Job)
    → count p js + count q js ≤ 1
    → 0 < count p js
    → count q js ≡ 0
count-none p q js h some_p = omega arith

live_count :
    (id : ℕ) (js : List Job)
    → count (λ (j : Job). has_id id j && is_live j.state) js
        + count (λ (j : Job). has_id id j && not (is_live j.state)) js
      ≡ count (has_id id) js
live_count id [] = refl
live_count id (j ∷ js) = ground (arith, live_count id js)

revives_of_count :
    (id : ℕ) (f : Job → Job) (js : List Job)
    → count (λ (j : Job). has_id id j && not (is_live j.state)) js ≡ 0
    → All (RevivesNone (has_id id) f) js
revives_of_count id f [] h = tt
revives_of_count id f (j ∷ js) h =
    (λ same live. ground arith, revives_of_count id f js (ground arith))

-- A write to the row of a live job revives nothing.
pub live_row-RevivesNone :
    (id : ℕ) (f : Job → Job) (js : List Job)
    → HasUniqueIds js
    → 0 < count (λ (j : Job). has_id id j && is_live j.state) js
    → All (RevivesNone (has_id id) f) js
live_row-RevivesNone id f js unique live =
    revives_of_count id f js (omega (arith, live_count id js, unique.at_id id))

fresh_id : (next : ℕ) (js : List Job) → IsNumbered next js → count (has_id next) js ≡ 0
fresh_id next [] h = refl
fresh_id next (j ∷ js) h = ground (arith, fresh_id next js h.1)

pub IsNumbered-mono : (next : ℕ) (js : List Job) → IsNumbered next js → IsNumbered (next + 1) js
IsNumbered-mono next [] h = tt
IsNumbered-mono next (j ∷ js) h = (omega arith, IsNumbered-mono next js h.1)

one_row : (id : ℕ) (j : Job) → count (has_id id) (j ∷ []) ≤ 1
one_row id j = ground arith

no_row : (id : ℕ) (j : Job) → j.id ≢ id → count (has_id id) (j ∷ []) ≡ 0
no_row id j ne = ground arith

pub inserted_unique :
    (next : ℕ) (js : List Job) (j : Job)
    → j.id ≡ next
    → IsNumbered next js
    → HasUniqueIds js
    → HasUniqueIds (js ++ j ∷ [])
inserted_unique next js j same numbered h = record {
  at_id = λ id. elim (Bool-cases (next == id)) [
    | inl e ↦
        let eq : next ≡ id = ground arith in
        omega (
          arith,
          count-append (has_id id) js (j ∷ []),
          one_row id j,
          subst (λ (n : ℕ). count (has_id n) js ≡ 0) eq (fresh_id next js numbered),
        )
    | inr e ↦
        omega
          (arith, count-append (has_id id) js (j ∷ []), no_row id j (λ q. ground arith), h.at_id id)
  ];
}
