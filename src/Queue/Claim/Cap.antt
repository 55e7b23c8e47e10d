-- ===== src/Queue/Claim/Cap.antt =====
-- The cap on a workspace's jobs in progress.
use chess_crawl.Prelude.{
  ℕ, ◌+◌, ◌≤◌, ◌≡◌, sym, subst, Bool, true, ◌&&◌, Option, List, [], ◌∷◌, map, arith, str_eq, count,
  ltb→lt,
}
use chess_crawl.Queue.Model.{Archive, Job, in_progress, same_state}
use chess_crawl.Queue.Write.{Session, has_id, update_row, update_jobs}
use chess_crawl.Queue.Admission.{claim_admission, below_active_cap, active_jobs, active_cap}
use chess_crawl.Queue.Soundness.{HasUniqueIds}
use chess_crawl.Queue.Claim.{
  Environment, ClaimOptions, job_claimed, start_attempt, claim_row, claim_next_job,
}
use chess_crawl.Queue.Claim.Soundness.{Took, claim_next_job-Took}

-- Writing the rows of one id adds at most those rows to a count.
count-update :
    (q p : Job → Bool) (f : Job → Job) (js : List Job)
    → count q (map (update_row p f) js) ≤ count q js + count p js
unfolding update_row
count-update q p f [] = omega arith
count-update q p f (j ∷ js) = ground (arith, count-update q p f js)

admitted_below_cap :
    (now cap : ℕ) (db : Archive) (c : Job)
    → claim_admission now cap db c ≡ true
    → below_active_cap cap db c ≡ true
unfolding claim_admission
admitted_below_cap now cap db c h = ground arith

-- With unique job ids, after a claim the workspace of the claimed row has no more jobs in progress
-- than its cap.
pub claim_next_job-cap :
    (e : Environment) (o : ClaimOptions) (s : Session) (db db' : Archive) (s' : Session)
    (j : Option Job)
    → HasUniqueIds db.jobs
    → (claim : claim_next_job e o s db ≡ job_claimed db' s' j)
    → let workspace = (claim_next_job-Took e o s db db' s' j claim).row.workspace_id in
      active_jobs workspace db'.jobs ≤ active_cap o.cap db workspace
claim_next_job-cap e o s db db' s' j ids claim =
    let t : Took e o s db db' s' j = claim_next_job-Took e o s db db' s' j claim in
    let c : Job = t.row in
    let below : below_active_cap o.cap db c ≡ true =
      admitted_below_cap o.now o.cap db c t.admitted in
    subst (λ (a : Archive). active_jobs c.workspace_id a.jobs ≤ active_cap o.cap db c.workspace_id)
      (sym t.written)
      (unfold claim_row update_jobs below_active_cap active_jobs in
        omega (
          arith,
          ids.at_id c.id,
          ltb→lt _ _ below,
          count-update
              (λ (a : Job). str_eq a.workspace_id c.workspace_id && same_state a.state in_progress)
              (has_id c.id) (start_attempt e o s) db.jobs,
        ))
