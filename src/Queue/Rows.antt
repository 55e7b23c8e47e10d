-- ===== src/Queue/Rows.antt =====
-- The row of a job after a write to the rows of one id.
use chess_crawl.Prelude.{ℕ, ◌≡◌, ap, some, List, [], ◌∷◌, map, arith, Bool-cases, inl, inr}
use chess_crawl.Queue.Model.{Archive, Job}
use chess_crawl.Queue.Write.{find_job, has_id, update_row, update_jobs, set_job_revision}

module _ (id : ℕ) (f : Job → Job) (same : (j : Job) → (f j).id ≡ j.id) where
  find-update_row :
      (js : List Job) (row : Job)
      → find_job id js ≡ some row
      → find_job id (map (update_row (has_id id) f) js) ≡ some (set_job_revision row (f row))
  unfolding update_row set_job_revision
  find-update_row [] row h = absurd (ground arith)
  find-update_row (j ∷ js) row h = elim (Bool-cases (has_id id j)) [
    | inl e ↦
        let found : j ≡ row = ground arith in
        ground (arith, same j, ap (λ (x : Job). set_job_revision x (f x)) found)
    | inr e ↦ ground (arith, find-update_row js row)
  ]

  pub find-update_jobs :
      (db : Archive) (row : Job)
      → find_job id db.jobs ≡ some row
      → find_job id (update_jobs (has_id id) f db).jobs ≡ some (set_job_revision row (f row))
  unfolding update_jobs
  find-update_jobs db row h = find-update_row db.jobs row h
