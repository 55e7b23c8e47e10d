-- ===== src/Queue/Admission/Reasons.antt =====
-- The waiting reason of storage/job_admission.py against the claim's condition.
use chess_crawl.Prelude.{ℕ, ◌≡◌, true, arith, ◌↔◌}
use chess_crawl.Queue.Model.{Archive, Job}
use chess_crawl.Queue.Admission.{eligible, claim_admission, waiting_reason}

-- A job is reported as eligible exactly if the claim admits it.
pub waiting_reason-eligible :
    (now cap : ℕ) (db : Archive) (j : Job)
    → waiting_reason now cap db j ≡ eligible ↔ claim_admission now cap db j ≡ true
unfolding waiting_reason claim_admission
waiting_reason-eligible now cap db j = (λ h. ground arith, λ h. ground arith)
