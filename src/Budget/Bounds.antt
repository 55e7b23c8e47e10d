-- ===== src/Budget/Bounds.antt =====
-- What a granted reservation leaves below its ceilings.
use chess_crawl.Prelude.{
  ℕ, ◌-◌, ◌≤◌, ◌≡◌, sym, ap, subst, ◌∙◌, String, true, false, some, List, [], ◌∷◌, arith, ◌==◌,
  find, find-holds, Bool-cases, inl, inr, ==→eq,
}
use chess_crawl.Budget.Policy.{
  BudgetPolicy, Dimension, games, normalization_units, remote_bytes, remote_requests, job_max,
  workspace_max, ok, >>=-eq-ok,
}
use chess_crawl.Budget.Calendar.{monthly_period}
use chess_crawl.Budget.Ledger.{
  Usage, used, WorkBudget, Period, WorkspacePolicy, ensure_period, ensure_policy, Ledger, Locked,
  find_budget, is_period, is_policy, period_row, workspace_policy, locked_budget, require,
}
use chess_crawl.Budget.Reserve.{
  remaining, charge_budget, charge_period, charge_request, response_limit, reserved_bytes,
  book_request, admit_request, reserve_request,
}
use chess_crawl.Budget.Accounting.{locked_budget-SameBooks, require-eq-ok}

-- A granted amount fits both ceilings, and what is left is returned.
remaining-eq-ok :
    (d : Dimension) (n : ℕ) (k : Locked) (left : ℕ)
    → remaining d n k ≡ ok left
    → (n ≤ job_max d k.budget.policy - used d k.budget.usage)
      × (n ≤ workspace_max d k.workspace_policy - used d k.usage.usage)
      × (left ≤ job_max d k.budget.policy - used d k.budget.usage)
      × (left ≤ workspace_max d k.workspace_policy - used d k.usage.usage)
unfolding remaining
remaining-eq-ok d n k left h = (ground arith, ground arith, ground arith, ground arith)

-- The reserved bytes are no more than the bytes that were available.
reserved_le_available :
    (policy : BudgetPolicy) (available : ℕ)
    → 2 ≤ available
    → reserved_bytes (response_limit policy available) ≤ available
unfolding reserved_bytes response_limit
reserved_le_available policy available h = ground arith

-- A usage within the ceilings of a policy's owner.
pub record IsWithin (limit : Dimension → ℕ) (u : Usage) : Type 0 where
  pub bytes : u.remote_bytes ≤ limit remote_bytes
  pub requests : u.remote_requests ≤ limit remote_requests
  pub units : u.normalization_units ≤ limit normalization_units

pub ceilings_of_job : BudgetPolicy → Dimension → ℕ
ceilings_of_job p d = job_max d p

pub ceilings_of_workspace : BudgetPolicy → Dimension → ℕ
ceilings_of_workspace p d = workspace_max d p

admitted-IsWithin :
    (k : Locked) (limit : ℕ)
    → admit_request k ≡ ok limit
    → IsWithin
        (ceilings_of_job k.budget.policy)
        (charge_request (reserved_bytes limit) k.budget.usage)
      × IsWithin
          (ceilings_of_workspace k.workspace_policy)
          (charge_request (reserved_bytes limit) k.usage.usage)
unfolding admit_request charge_request used job_max workspace_max ceilings_of_job
    ceilings_of_workspace
admitted-IsWithin k limit h =
    let (a, requests, h1) = >>=-eq-ok (remaining remote_requests 1 k) _ h in
    let (b, game, h2) = >>=-eq-ok (remaining games 1 k) _ h1 in
    let (c, units, h3) = >>=-eq-ok (remaining normalization_units 1 k) _ h2 in
    let (available, bytes, h4) = >>=-eq-ok (remaining remote_bytes 1 k) _ h3 in
    let r = remaining-eq-ok remote_requests 1 k a requests in
    let u = remaining-eq-ok normalization_units 1 k c units in
    let y = remaining-eq-ok remote_bytes 1 k available bytes in
    let enough : 2 ≤ available = ground arith in
    let fits : reserved_bytes (response_limit k.budget.policy available) ≤ available =
      reserved_le_available k.budget.policy available enough in
    let granted : response_limit k.budget.policy available ≡ limit = ground arith in
    let booked : reserved_bytes limit ≤ available =
      subst (λ (n : ℕ). reserved_bytes n ≤ available) granted fits in
    (
      record { bytes = omega arith; requests = omega arith; units = omega arith },
      record { bytes = omega arith; requests = omega arith; units = omega arith },
    )

pub find-charge_budget :
    (id : ℕ) (f : Usage → Usage) (bs : List WorkBudget) (b : WorkBudget)
    → find_budget id bs ≡ some b
    → find_budget id (charge_budget id f bs) ≡ some (record b { usage = f b.usage })
find-charge_budget id f [] b h = absurd (ground arith)
find-charge_budget id f (x ∷ xs) b h = elim (Bool-cases (x.id == id)) [
  | inl e ↦
      let eq : x ≡ b = ground arith in
      ground (arith, ap (λ (w : WorkBudget). record w { usage = f w.usage }) eq)
  | inr e ↦ ground (arith, find-charge_budget id f xs b)
]

pub find-charge_period :
    (w : String) (start : ℕ) (f : Usage → Usage) (ps : List Period) (p : Period)
    → find (is_period w start) ps ≡ some p
    → find (is_period w start) (charge_period w start f ps) ≡ some (record p { usage = f p.usage })
find-charge_period w start f [] p h = absurd (ground arith)
find-charge_period w start f (x ∷ xs) p h = elim (Bool-cases (is_period w start x)) [
  | inl e ↦
      let eq : x ≡ p = ground arith in
      ground (arith, ap (λ (w : Period). record w { usage = f w.usage }) eq)
  | inr e ↦ ground (arith, find-charge_period w start f xs p)
]

period_row-found :
    (w : String) (now : ℕ) (l l' : Ledger) (p : Period)
    → period_row w now l ≡ ok (l', p)
    → (find (is_period w p.period_start) l'.periods ≡ some p)
      × (l'.policies ≡ l.policies)
      × (p.period_start ≡ (monthly_period now).0)
unfolding period_row
period_row-found w now l l' p h =
    let start : ℕ = (monthly_period now).0 in
    let (q, found, result) =
      >>=-eq-ok
        (require
          (find (is_period w start) (ensure_period w start (monthly_period now).1 l.periods)))
        _ h in
    let row : find (is_period w start) (ensure_period w start (monthly_period now).1 l.periods)
        ≡ some q =
      require-eq-ok found in
    let holds : is_period w start q ≡ true = find-holds (is_period w start) _ row in
    let at : q.period_start ≡ start = ground arith in
    let mine : q ≡ p = ground arith in
    let kept : l'.periods ≡ ensure_period w start (monthly_period now).1 l.periods = ground arith in
    let start_of_p : start ≡ p.period_start = sym at ∙ ap (λ (x : Period). x.period_start) mine in
    (
      subst (λ (n : ℕ). find (is_period w n) l'.periods ≡ some p) start_of_p
          (ap (find (is_period w start)) kept ∙ row ∙ ap some mine),
      ground arith,
      sym start_of_p,
    )

map_found :
    (w : String) (policy : BudgetPolicy) (now : ℕ) (l l' : Ledger) (p : BudgetPolicy)
    → workspace_policy w policy now false false l ≡ ok (l', p)
    → (row : WorkspacePolicy) × (find (is_policy w) l'.policies ≡ some row) × (row.policy ≡ p)
unfolding workspace_policy
map_found w policy now l l' p h =
    let (row, found, result) =
      >>=-eq-ok (require (find (is_policy w) (ensure_policy w policy now false l.policies))) _ h in
    let here : find (is_policy w) (ensure_policy w policy now false l.policies) ≡ some row =
      require-eq-ok found in
    let kept : l'.policies ≡ ensure_policy w policy now false l.policies = ground arith in
    (row, ap (find (is_policy w)) kept ∙ here, ground arith)

-- The rows that a locked budget stands for are those of the tables.
record IsLocked (id now : ℕ) (l : Ledger) (k : Locked) : Type 0 where
  budget : find_budget id l.budgets ≡ some k.budget
  period : find (is_period k.budget.workspace_id k.usage.period_start) l.periods ≡ some k.usage
  row : WorkspacePolicy
  policy : find (is_policy k.budget.workspace_id) l.policies ≡ some row
  same : row.policy ≡ k.workspace_policy
  current : k.usage.period_start ≡ (monthly_period now).0

locked_budget-IsLocked :
    (id now : ℕ) (l l' : Ledger) (k : Locked)
    → locked_budget id now l ≡ ok (l', k)
    → IsLocked id now l' k
unfolding locked_budget
locked_budget-IsLocked id now l l' k h =
    let (b, found, rest) = >>=-eq-ok (require (find_budget id l.budgets)) _ h in
    let (w, policy, rest') =
      >>=-eq-ok (workspace_policy b.workspace_id b.policy now false false l) _ rest in
    let (p, period, result) = >>=-eq-ok (period_row b.workspace_id now w.0) _ rest' in
    let (books, here) = locked_budget-SameBooks id now l l' k h in
    let (row, stored, same) = map_found b.workspace_id b.policy now l w.0 w.1 policy in
    let (there, policies, current) = period_row-found b.workspace_id now w.0 p.0 p.1 period in
    let last : p.0 ≡ l' = ground arith in
    let mine : b ≡ k.budget = ground arith in
    let used_row : p.1 ≡ k.usage = ground arith in
    let shared : w.1 ≡ k.workspace_policy = ground arith in
    record {
      budget = ap (find_budget id) books.budgets ∙ here;
      period =
          subst
            (λ (x : Ledger).
              find (is_period k.budget.workspace_id k.usage.period_start) x.periods ≡ some k.usage)
            last
            (subst
              (λ (x : WorkBudget).
                find (is_period x.workspace_id k.usage.period_start) p.0.periods ≡ some k.usage)
              mine
              (subst
                (λ (x : Period).
                  find (is_period b.workspace_id x.period_start) p.0.periods ≡ some x)
                used_row there));
      row = row;
      policy =
          subst (λ (x : Ledger). find (is_policy k.budget.workspace_id) x.policies ≡ some row) last
            (subst (λ (x : WorkBudget). find (is_policy x.workspace_id) p.0.policies ≡ some row)
              mine (ap (find (is_policy b.workspace_id)) policies ∙ stored));
      same = same ∙ shared;
      current = ap (λ (x : Period). x.period_start) (sym used_row) ∙ current;
    }

-- The budget, the row of its workspace for the month of the time `now`, and the workspace's policy.
pub record IsFunded (id now : ℕ) (l : Ledger) : Type 0 where
  pub budget : WorkBudget
  pub period : Period
  pub row : WorkspacePolicy
  pub budget_found : find_budget id l.budgets ≡ some budget
  pub period_found :
      find (is_period budget.workspace_id period.period_start) l.periods ≡ some period
  pub current : period.period_start ≡ (monthly_period now).0
  pub row_found : find (is_policy budget.workspace_id) l.policies ≡ some row
  pub own : IsWithin (ceilings_of_job budget.policy) budget.usage
  pub shared : IsWithin (ceilings_of_workspace row.policy) period.usage

book_request-IsFunded :
    (id now limit : ℕ) (k : Locked) (l : Ledger)
    → IsLocked id now l k
    → admit_request k ≡ ok limit
    → IsFunded id now (book_request now limit k l).0
unfolding book_request
book_request-IsFunded id now limit k l locked admitted =
    let charge : Usage → Usage = charge_request (reserved_bytes limit) in
    let (own, shared) = admitted-IsWithin k limit admitted in
    let same : k.budget.id ≡ id =
      ==→eq k.budget.id id (find-holds (λ (b : WorkBudget). b.id == id) l.budgets locked.budget) in
    record {
      budget = record k.budget { usage = charge k.budget.usage };
      period = record k.usage { usage = charge k.usage.usage };
      row = locked.row;
      budget_found =
          subst
            (λ (n : ℕ).
              find_budget id (charge_budget n charge l.budgets)
              ≡ some (record k.budget { usage = charge k.budget.usage }))
            (sym same) (find-charge_budget id charge l.budgets k.budget locked.budget);
      period_found =
          find-charge_period k.budget.workspace_id k.usage.period_start charge l.periods k.usage
            locked.period;
      current = locked.current;
      row_found = locked.policy;
      own = own;
      shared =
          subst (λ (p : BudgetPolicy). IsWithin (ceilings_of_workspace p) (charge k.usage.usage))
            (sym locked.same) shared;
    }

-- After a granted reservation the budget is within the ceilings of its own policy, and the row of
-- its workspace for the calendar month of the time of the reservation is within those of the
-- workspace, in requests, bytes and interpretation units.
pub reserve_request-IsFunded :
    (id now : ℕ) (l l' : Ledger) (reservation limit : ℕ)
    → reserve_request id now l ≡ ok (l', reservation, limit)
    → IsFunded id now l'
unfolding reserve_request
reserve_request-IsFunded id now l l' reservation limit e =
    let (k, locked, rest) = >>=-eq-ok (locked_budget id now l) _ e in
    let (granted, admitted, result) = >>=-eq-ok (admit_request k.1) _ rest in
    let stored : (book_request now granted k.1 k.0).0 ≡ l' = ground arith in
    subst (IsFunded id now) stored (
      book_request-IsFunded id now granted k.1 k.0 (locked_budget-IsLocked id now l k.0 k.1 locked)
        admitted)
