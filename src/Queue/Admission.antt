-- ===== src/Queue/Admission.antt =====
-- storage/job_admission.py: which jobs the database lets a worker claim, and why a job waits.
pub mod Reasons
use chess_crawl.Prelude.{
  ℕ, ◌+◌, String, Bool, true, false, not, ◌||◌, ◌&&◌, Option, none, some, List, [], ◌∷◌, ◌==◌,
  str_eq, if◌then◌else◌, ltb, leb, is_value, is_text, any, count, find,
}
use chess_crawl.Queue.Model.{
  Archive, Cooldown, Job, JobState, JobKind, Params, Run, RunStatus, Value, text, number, flag,
  null, get_param, in_progress, same_state, same_kind, is_live, is_terminal, is_processing_kind,
  fetch_user_games, crawl_opponents, normalize_payload, expand_opponents,
}
use chess_crawl.Queue.Write.{schedulable}

abbrev pub is_cancelled : RunStatus → Bool
is_cancelled RunStatus.cancelled = true
is_cancelled _ = false

-- RUN_ALLOWS_WORK_SQL
unfoldable pub run_allows_work : Archive → Job → Bool
run_allows_work db j =
    not (any (λ (r : Run). is_value j.crawl_run_id r.id && is_cancelled r.status) db.runs)

-- COALESCE(params_json::jsonb->>'collection_mode','bounded')='bounded'
unfoldable pub collects_bounded : Params → Bool
collects_bounded p = elim (get_param "collection_mode" p) [
  | null ↦ true
  | text mode ↦ str_eq mode "bounded"
  | number _ ↦ false
  | flag _ ↦ false
]

unfoldable pub unfinished_normalization : Job → Job → Bool
unfinished_normalization j child =
    is_value child.parent_job_id j.id
    && same_kind child.kind normalize_payload
    && is_live child.state

unfoldable pub finished_parent : Job → Job → Bool
finished_parent j parent = is_value j.parent_job_id parent.id && is_terminal parent.state

-- PROCESSING_READY_SQL
unfoldable pub processing_ready : Archive → Job → Bool
unfolding collects_bounded unfinished_normalization finished_parent
processing_ready db j =
    not (
      (same_kind j.kind fetch_user_games || same_kind j.kind crawl_opponents)
      && collects_bounded j.params
      && any (unfinished_normalization j) db.jobs)
    && (not (same_kind j.kind expand_opponents) || any (finished_parent j) db.jobs)

-- next_attempt_at IS NULL OR next_attempt_at<=now
unfoldable pub retry_due : ℕ → Job → Bool
retry_due now j = elim j.next_attempt_at [ none ↦ true | some at ↦ leb at now ]

unfoldable pub provider_ready : ℕ → Archive → Job → Bool
provider_ready now db j =
    is_processing_kind j.kind
    || not
        (any (λ (c : Cooldown). is_text j.provider c.provider && ltb now c.not_before) db.cooldowns)

-- The jobs that a workspace has in progress.
unfoldable pub active_jobs : String → List Job → ℕ
active_jobs workspace js =
    count (λ (a : Job). str_eq a.workspace_id workspace && same_state a.state in_progress) js

-- The stored cap of a workspace, or the operator's.
unfoldable pub active_cap : ℕ → Archive → String → ℕ
active_cap default db workspace =
    elim (find (λ (c : String × ℕ). str_eq c.0 workspace) db.active_caps) [
      | none ↦ default
      | some c ↦ c.1
    ]

unfoldable pub below_active_cap : ℕ → Archive → Job → Bool
below_active_cap default db j =
    ltb (active_jobs j.workspace_id db.jobs) (active_cap default db j.workspace_id)

pub data WaitingReason : Type 0 where
  cancelled paused retry processing_dependency provider_cooldown workspace_active_cap :
      WaitingReason
  eligible : WaitingReason

pub record AdmissionCondition : Type 0 where
  pub waiting_reason : WaitingReason
  pub holds : Bool

-- The checks in the order in which waiting work is attributed.
unfoldable pub admission_conditions : ℕ → ℕ → Archive → Job → List AdmissionCondition
admission_conditions now cap db j =
    record { waiting_reason = cancelled; holds = run_allows_work db j }
    ∷ record { waiting_reason = paused; holds = schedulable j }
    ∷ record { waiting_reason = retry; holds = retry_due now j }
    ∷ record { waiting_reason = processing_dependency; holds = processing_ready db j }
    ∷ record { waiting_reason = provider_cooldown; holds = provider_ready now db j }
    ∷ record { waiting_reason = workspace_active_cap; holds = below_active_cap cap db j }
    ∷ []

abbrev conjunction : List AdmissionCondition → Bool
conjunction [] = true
conjunction (c ∷ cs) = c.holds && conjunction cs

-- The conjunction of the conditions.
unfoldable pub claim_admission : ℕ → ℕ → Archive → Job → Bool
unfolding admission_conditions
claim_admission now cap db j = conjunction (admission_conditions now cap db j)

abbrev first_failing : List AdmissionCondition → WaitingReason
first_failing [] = eligible
first_failing (c ∷ cs) = let later = first_failing cs in if c.holds then later else c.waiting_reason

-- CASE WHEN NOT (…) THEN reason … ELSE 'eligible' END
unfoldable pub waiting_reason : ℕ → ℕ → Archive → Job → WaitingReason
unfolding admission_conditions
waiting_reason now cap db j = first_failing (admission_conditions now cap db j)
