-- ===== src/Queue/Write/Inversion.antt =====
-- What an accepted INSERT did.
use chess_crawl.Prelude.{ℕ, ◌≡◌, refl, Option, none, some, arith, false, any}
use mathlib.Core.Option
use chess_crawl.Queue.Model.{Archive, Job}
use chess_crawl.Queue.Write.{Session, own_job, check_row, dedup_conflict, inserted, insert_job}

check_row-eq-some :
    (db : Archive) (o : Option Job) (j : Job)
    → check_row db o ≡ some j
    → (o ≡ some j) × (any (dedup_conflict j) db.jobs ≡ false)
unfolding check_row
check_row-eq-some db none j e = ground arith
check_row-eq-some db (some k) j e = ground arith

result-eq-some :
    (o : Option Job) (db db' : Archive) (id : ℕ)
    → Option.map {B = Archive × ℕ} (λ j. (inserted j db, db.next_job_id)) o ≡ some (db', id)
    → (j : Job) × (o ≡ some j) × (db' ≡ inserted j db) × (id ≡ db.next_job_id)
result-eq-some none db db' id e = absurd (ground arith)
result-eq-some (some j) db db' id e = (j, refl, ground arith, ground arith)

-- The row that was added, its owners set, met every constraint.
pub insert_job-eq-some :
    (s : Session) (row : Job) (db db' : Archive) (id : ℕ)
    → insert_job s row db ≡ some (db', id)
    → (j : Job) × (own_job s db (record row { id = db.next_job_id; revision = 1 }) ≡ some j)
      × (any (dedup_conflict j) db.jobs ≡ false)
      × (db' ≡ inserted j db)
      × (id ≡ db.next_job_id)
unfolding insert_job
insert_job-eq-some s row db db' id e =
    let new : Job = record row { id = db.next_job_id; revision = 1 } in
    let (j, checked, result, given) =
      result-eq-some (check_row db (own_job s db new)) db db' id e in
    let (owned, free) = check_row-eq-some db (own_job s db new) j checked in
    (j, owned, free, result, given)

-- The triggers leave the key, the state and the id of a new row alone.
pub own_job-keeps :
    (s : Session) (db : Archive) (j j' : Job)
    → own_job s db j ≡ some j'
    → (j'.dedup_key ≡ j.dedup_key) × (j'.state ≡ j.state) × (j'.id ≡ j.id)
unfolding own_job
own_job-keeps s db j j' h = ground arith
