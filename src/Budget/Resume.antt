-- ===== src/Budget/Resume.antt =====
-- Resuming a run's budget against the queue.
use chess_crawl.Prelude.{ℕ, ◌≡◌, refl, subst, String, false, Option, arith}
use chess_crawl.Queue.Model.{Archive, Job, is_live}
use chess_crawl.Queue.Write.{update_jobs}
use chess_crawl.Queue.Dedup.{RevivesNone}
use chess_crawl.Queue.Soundness.{IsSound, update_jobs-IsSound_all}
use chess_crawl.Budget.Policy.{BudgetPolicy, ok, >>=-eq-ok}
use chess_crawl.Budget.Ledger.{WorkBudget, Ledger, workspace_policy}
use chess_crawl.Budget.Administer.{run_budget}
use chess_crawl.Budget.Jobs.{
  is_exhausted, released_job, extended_row, extend_shared, owned_row, resume_run_budget,
}

released-RevivesNone : (budget : ℕ) (j : Job) → RevivesNone (is_exhausted budget) released_job j
unfolding is_exhausted is_live
released-RevivesNone budget j e live = ground arith

-- Resuming a run's budget keeps the queue sound: the jobs that it releases get their dispatch
-- hints, and no key gets a second live job.
pub resume_run_budget-IsSound :
    (run : ℕ) (w : String) (policy : BudgetPolicy) (now : ℕ) (db db' : Archive) (l l' : Ledger)
    (b : Option WorkBudget)
    → resume_run_budget run w policy now db l ≡ ok (db', l', b)
    → IsSound db
    → IsSound db'
unfolding resume_run_budget
resume_run_budget-IsSound run w policy now db db' l l' b h sound =
    let (row, owned, h1) = >>=-eq-ok (owned_row (run_budget run w l)) _ h in
    let (p, stored, h2) =
      >>=-eq-ok (workspace_policy w row.policy now false false (extended_row row policy l)) _ h1 in
    let (shared, extended, result) = >>=-eq-ok (extend_shared w p.1 policy now p.0) _ h2 in
    let last : update_jobs (is_exhausted row.id) released_job db ≡ db' = ground arith in
    subst IsSound last (
      update_jobs-IsSound_all (is_exhausted row.id) released_job db
        (λ j. unfold released_job in refl) (λ j. unfold released_job in refl)
        (released-RevivesNone row.id) sound)
