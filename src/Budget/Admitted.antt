-- ===== src/Budget/Admitted.antt =====
-- A run is admitted once.
use chess_crawl.Prelude.{
  ℕ, ◌+◌, ◌≡◌, refl, sym, ap, subst, ◌∙◌, String, true, false, not, ◌&&◌, Option, some, List, [],
  ◌∷◌, ◌++◌, map, any, arith, ◌==◌, leb, str_eq, if◌then◌else◌, is_value, Bool-cases, Option-cases,
  inl, inr,
}
use chess_crawl.Queue.Model.{Archive, Run}
use chess_crawl.Queue.Write.{find_run, update_jobs}
use chess_crawl.Queue.Runs.{internal_strategy}
use chess_crawl.Budget.Policy.{
  BudgetPolicy, not_owned, queued_jobs, duplicate_budget, ok, guard, >>=-eq-ok,
}
use chess_crawl.Budget.Ledger.{WorkBudget, Ledger, require, workspace_policy, period_row}
use chess_crawl.Budget.Accounting.{require-eq-ok}
use chess_crawl.Budget.Administer.{
  run_budget, run_row, assign_budget, admission_policy, require_quota, metered, has_no_provider,
  queued, admit_new, admit_run_budget,
}

find-assigned :
    (run id : ℕ) (rs : List Run) (r : Run)
    → find_run run rs ≡ some r
    → find_run run
        (map (λ (x : Run). if x.id == run then record x { work_budget_id = some id } else x) rs)
      ≡ some (record r { work_budget_id = some id })
find-assigned run id [] r h = absurd (ground arith)
find-assigned run id (x ∷ xs) r h = elim (Bool-cases (x.id == run)) [
  | inl e ↦
      let same : x ≡ r = ground arith in
      ground (arith, ap (λ (y : Run). record y { work_budget_id = some id }) same)
  | inr e ↦ ground (arith, find-assigned run id xs r)
]

-- A run that has a budget keeps it.
admitted_before :
    (run n : ℕ) (w : String) (policy : BudgetPolicy) (now : ℕ) (db : Archive) (l : Ledger) (r : Run)
    → find_run run db.runs ≡ some r
    → str_eq r.workspace_id w ≡ true
    → r.work_budget_id ≡ some n
    → admit_run_budget run w policy now db l ≡ ok (db, l, run_budget run w l)
unfolding admit_run_budget
admitted_before run n w policy now db l r found mine budget =
    rw (found, admit_run_budget) (rw mine (rw budget refl))

-- What the admission of a new run returns.
admit_new-assigns :
    (r : Run) (run : ℕ) (w : String) (policy : BudgetPolicy) (now : ℕ) (db db' : Archive)
    (l l' : Ledger) (b : Option WorkBudget)
    → admit_new r run w policy now db l ≡ ok (db', l', b)
    → (id : ℕ) × (db' ≡ assign_budget run id db) × (b ≡ run_budget run w l')
unfolding admit_new
admit_new-assigns r run w policy now db db' l l' b h =
    let (p, effective, h1) = >>=-eq-ok (workspace_policy w policy now true false l) _ h in
    let (admitted, chosen, h2) = >>=-eq-ok (admission_policy w policy p.0) _ h1 in
    let (period, row, h3) = >>=-eq-ok (period_row w now p.0) _ h2 in
    let (u, quota, h4) =
      >>=-eq-ok
        (require_quota p.1 period.1 (metered (has_no_provider r && internal_strategy r.params))) _
        h3 in
    let (u', room, h5) =
      >>=-eq-ok
        (guard
          (leb (queued w db.jobs) (p.1.workspace_max_queued_jobs + p.1.workspace_max_active_jobs))
          (queued_jobs period.1.period_end))
        _ h4 in
    let (u'', single, h6) =
      >>=-eq-ok
        (guard (not (any (λ (x : WorkBudget). is_value x.crawl_run_id run) period.0.budgets))
          duplicate_budget)
        _ h5 in
    let id : ℕ = period.0.next_budget in
    let booked : Ledger = record period.0 {
      budgets = period.0.budgets ++ run_row run w admitted.0 admitted.1 now id ∷ [];
      next_budget = id + 1;
    } in
    let stored : booked ≡ l' = ground arith in
    let returned : run_budget run w booked ≡ b = ground arith in
    (id, ground arith, sym returned ∙ ap (run_budget run w) stored)

-- A run that was admitted to a budget is admitted to no other: the next admission, at any time and
-- under any policy, changes nothing and returns the same budget.
pub admit_run_budget-again :
    (run : ℕ) (w : String) (policy again : BudgetPolicy) (now later : ℕ) (db db' : Archive)
    (l l' : Ledger) (b : Option WorkBudget)
    → admit_run_budget run w policy now db l ≡ ok (db', l', b)
    → admit_run_budget run w again later db' l' ≡ ok (db', l', b)
unfolding admit_run_budget
admit_run_budget-again run w policy again now later db db' l l' b h =
    let (r, found, rest) = >>=-eq-ok (require (find_run run db.runs)) _ h in
    let (u, mine, rest') = >>=-eq-ok (guard (str_eq r.workspace_id w) not_owned) _ rest in
    let here : find_run run db.runs ≡ some r = require-eq-ok found in
    let owned : str_eq r.workspace_id w ≡ true = ground arith in
    elim (Option-cases r.work_budget_id) [
      | inr (n, budget) ↦
          let same_db : db ≡ db' = ground arith in
          let same_l : l ≡ l' = ground arith in
          let same_b : run_budget run w l ≡ b = ground arith in
          subst (λ (x : Archive). admit_run_budget run w again later x l' ≡ ok (x, l', b)) same_db
            (subst (λ (x : Ledger). admit_run_budget run w again later db x ≡ ok (db, x, b)) same_l
              (admitted_before run n w again later db l r here owned budget
                ∙ ap (λ (x : Option WorkBudget). ok (db, l, x)) same_b))
      | inl fresh ↦
          let new : admit_new r run w policy now db l ≡ ok (db', l', b) = ground arith in
          let (id, stored, returned) = admit_new-assigns r run w policy now db db' l l' b new in
          subst (λ (x : Archive). admit_run_budget run w again later x l' ≡ ok (x, l', b))
            (sym stored)
            (admitted_before run id w again later (assign_budget run id db) l'
                (record r { work_budget_id = some id })
                (unfold assign_budget update_jobs in find-assigned run id db.runs r here) owned refl
              ∙ ap (λ (x : Option WorkBudget). ok (assign_budget run id db, l', x)) (sym returned))
    ]
