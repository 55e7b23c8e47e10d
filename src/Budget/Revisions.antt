-- ===== src/Budget/Revisions.antt =====
-- Administration is optimistic, and a run is admitted once.
use chess_crawl.Prelude.{
  ℕ, ◌+◌, ◌^◌, ◌≡◌, refl, sym, ap, subst, ◌∙◌, String, Bool, true, false, Option, none, some, List,
  [], ◌∷◌, ◌++◌, any, find, find-holds, arith, ◌==◌, ==→eq, ltb, str_eq, str_eq_iff, Bool-cases,
  inl, inr,
}
use chess_crawl.Budget.Policy.{
  BudgetPolicy, version_changed, workspace_missing, ok, err, guard, >>=-eq-ok,
}
use chess_crawl.Budget.Ledger.{
  WorkspacePolicy, Ledger, is_policy, map_policy, ensure_policy, replace_workspace_policy,
  workspace_policy,
}
use chess_crawl.Budget.Administer.{
  set_workspace_policy, create_policy, revise_policy, validate_workspace,
}

-- The version that a workspace's policy has, if it has one.
find-replaced :
    (w : String) (row : WorkspacePolicy) (ps : List WorkspacePolicy) (old : WorkspacePolicy)
    → is_policy w row ≡ true
    → find (is_policy w) ps ≡ some old
    → find (is_policy w) (map_policy w (λ _. row) ps) ≡ some row
find-replaced w row [] old same h = absurd (ground arith)
find-replaced w row (p ∷ ps) old same h = elim (Bool-cases (is_policy w p)) [
  | inl e ↦ ground arith
  | inr e ↦ ground (arith, find-replaced w row ps old same)
]

find-ensured :
    (w : String) (policy : BudgetPolicy) (now : ℕ) (ps : List WorkspacePolicy)
    → find (is_policy w) ps ≡ none
    → (any (is_policy w) ps ≡ false)
      × ((row : WorkspacePolicy)
          → is_policy w row ≡ true
          → find (is_policy w) (ps ++ row ∷ []) ≡ some row)
find-ensured w policy now [] h = (refl, λ row same. ground arith)
find-ensured w policy now (p ∷ ps) h =
    let (absent, rest) = find-ensured w policy now ps (ground arith) in
    (ground arith, λ row same. ground (arith, rest row same))

-- What a change leaves: a row with the next version.
record IsRevised (w : String) (expected : ℕ) (l : Ledger) : Type 0 where
  row : WorkspacePolicy
  found : find (is_policy w) l.policies ≡ some row
  next : row.version ≡ expected + 1

replaced-IsRevised :
    (w : String) (policy : BudgetPolicy) (now : ℕ) (managed : Bool) (l l' : Ledger) (v : ℕ)
    (row : WorkspacePolicy)
    → find (is_policy w) l.policies ≡ some row
    → replace_workspace_policy w policy now managed l ≡ ok (l', v)
    → IsRevised w row.version l'
unfolding replace_workspace_policy
replaced-IsRevised w policy now managed l l' v row found h =
    let revised : WorkspacePolicy = record row {
      policy = policy;
      updated_at = now;
      managed = managed;
      version = row.version + 1;
    } in
    let mine : is_policy w row ≡ true = find-holds (is_policy w) l.policies found in
    let stored : l'.policies ≡ map_policy w (λ _. revised) l.policies = ground arith in
    record {
      row = revised;
      found = ap (find (is_policy w)) stored ∙ find-replaced w revised l.policies row mine found;
      next = refl;
    }

created-IsRevised :
    (w : String) (policy : BudgetPolicy) (now : ℕ) (l l' : Ledger) (p : BudgetPolicy)
    → find (is_policy w) l.policies ≡ none
    → workspace_policy w policy now false true l ≡ ok (l', p)
    → IsRevised w 0 l'
unfolding workspace_policy ensure_policy
created-IsRevised w policy now l l' p absent h =
    let first : WorkspacePolicy = record {
      workspace_id = w;
      policy = policy;
      version = 1;
      managed = true;
      updated_at = now;
    } in
    let (none_there, then_found) = find-ensured w policy now l.policies absent in
    let here : find (is_policy w) (l.policies ++ first ∷ []) ≡ some first =
      then_found first ((str_eq_iff w w).1 refl) in
    let stored : l'.policies ≡ l.policies ++ first ∷ [] = ground arith in
    record { row = first; found = ap (find (is_policy w)) stored ∙ here; next = refl }

revised :
    (workspaces : List String) (w : String) (policy : BudgetPolicy) (expected now : ℕ)
    (l l' : Ledger) (v : ℕ) (o : Option WorkspacePolicy)
    → find (is_policy w) l.policies ≡ o
    → revise_policy workspaces w policy expected now l o ≡ ok (l', v)
    → IsRevised w expected l'
unfolding revise_policy create_policy
revised workspaces w policy expected now l l' v none absent h = elim (Bool-cases (expected == 0)) [
  | inr e ↦ absurd (ground arith)
  | inl e ↦
      let change : create_policy workspaces w policy now l ≡ ok (l', v) = ground arith in
      let (u, present, rest) =
        >>=-eq-ok (guard (any (str_eq w) workspaces) workspace_missing) _ change in
      let (created, made, result) = >>=-eq-ok (workspace_policy w policy now false true l) _ rest in
      let same : created.0 ≡ l' = ground arith in
      subst (λ (n : ℕ). IsRevised w n l') (sym (==→eq expected 0 e))
        (subst (IsRevised w 0) same
          (created-IsRevised w policy now l created.0 created.1 absent made))
]
revised workspaces w policy expected now l l' v (some row) found h =
    elim (Bool-cases (row.version == expected)) [
      | inr e ↦ absurd (ground arith)
      | inl e ↦
          let change : replace_workspace_policy w policy now true l ≡ ok (l', v) = ground arith in
          subst (λ (n : ℕ). IsRevised w n l') (==→eq row.version expected e)
            (replaced-IsRevised w policy now true l l' v row found change)
    ]

refused :
    (workspaces : List String) (w : String) (policy : BudgetPolicy) (expected now : ℕ) (l : Ledger)
    → validate_workspace w ≡ true
    → ltb expected (2 ^ 63) ≡ true
    → IsRevised w expected l
    → set_workspace_policy workspaces w policy expected now l ≡ err version_changed
unfolding set_workspace_policy revise_policy
refused workspaces w policy expected now l valid small r =
    let other : (r.row.version == expected) ≡ false = ground (arith, r.next) in
    rw (valid, set_workspace_policy) (rw small (rw r.found (rw other refl)))

-- After a change of a workspace's policy that succeeded, another one with the same expected version
-- fails with version_changed.
pub set_workspace_policy-again :
    (workspaces : List String) (w : String) (policy again : BudgetPolicy) (expected now later : ℕ)
    (l l' : Ledger) (v : ℕ)
    → set_workspace_policy workspaces w policy expected now l ≡ ok (l', v)
    → set_workspace_policy workspaces w again expected later l' ≡ err version_changed
unfolding set_workspace_policy
set_workspace_policy-again workspaces w policy again expected now later l l' v h =
    let (u, valid, rest) = >>=-eq-ok (guard (validate_workspace w) _) _ h in
    let (u', small, change) = >>=-eq-ok (guard (ltb expected (2 ^ 63)) _) _ rest in
    refused workspaces w again expected later l' (ground arith) (ground arith)
      (revised workspaces w policy expected now l l' v (find (is_policy w) l.policies) refl change)
