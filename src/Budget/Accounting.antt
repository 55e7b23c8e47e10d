-- ===== src/Budget/Accounting.antt =====
-- The bytes and requests of a budget are those of its reservations.
use chess_crawl.Prelude.{
  ℕ, ◌+◌, ◌-◌, ◌≤◌, ◌<◌, ◌≡◌, refl, sym, ap, subst, ◌∙◌, String, Bool, false, Option, none, some,
  List, [], ◌∷◌, ◌++◌, map, arith, ◌==◌, ==→eq, if◌then◌else◌, coalesce, find, find-holds, count,
  count-append, All, All-append, Bool-cases, Option-cases, ◌≢◌, inl, inr,
}
use chess_crawl.Budget.Policy.{BudgetPolicy, ok, >>=-eq-ok}
use chess_crawl.Budget.Ledger.{
  WorkBudget, Period, Reservation, Ledger, Locked, find_budget, period_row, workspace_policy,
  replace_workspace_policy, locked_budget, require,
}
use chess_crawl.Budget.Reserve.{
  charge_budget, charge_request, reserved_bytes, book_request, admit_request, reserve_request,
  has_reservation, refund, settle_row, settle_request,
}

pub require-eq-ok {ℓ} : {A : Type ℓ} {o : Option A} {a : A} → require o ≡ ok a → o ≡ some a
require-eq-ok {o = none} h = absurd (ground arith)
require-eq-ok {o = some b} h = ground arith

-- What locking a budget leaves alone.
pub record SameBooks (l l' : Ledger) : Type 0 where
  pub budgets : l'.budgets ≡ l.budgets
  pub reservations : l'.reservations ≡ l.reservations
  pub next : l'.next_reservation ≡ l.next_reservation

period_row-SameBooks :
    (w : String) (now : ℕ) (l l' : Ledger) (p : Period)
    → period_row w now l ≡ ok (l', p)
    → SameBooks l l'
unfolding period_row
period_row-SameBooks w now l l' p h = ground arith

replace-SameBooks :
    (w : String) (policy : BudgetPolicy) (now : ℕ) (managed : Bool) (l l' : Ledger) (v : ℕ)
    → replace_workspace_policy w policy now managed l ≡ ok (l', v)
    → SameBooks l l'
unfolding replace_workspace_policy
replace-SameBooks w policy now managed l l' v h = ground arith

workspace_policy-SameBooks :
    (w : String) (policy : BudgetPolicy) (now : ℕ) (t managed : Bool) (l l' : Ledger)
    (p : BudgetPolicy)
    → workspace_policy w policy now t managed l ≡ ok (l', p)
    → SameBooks l l'
unfolding workspace_policy
workspace_policy-SameBooks w policy now t managed l l' p h = ground arith

pub locked_budget-SameBooks :
    (id now : ℕ) (l l' : Ledger) (k : Locked)
    → locked_budget id now l ≡ ok (l', k)
    → SameBooks l l' × (find_budget id l.budgets ≡ some k.budget)
unfolding locked_budget
locked_budget-SameBooks id now l l' k h =
    let (b, found, rest) = >>=-eq-ok (require (find_budget id l.budgets)) _ h in
    let (w, policy, rest') =
      >>=-eq-ok (workspace_policy b.workspace_id b.policy now false false l) _ rest in
    let (p, period, result) = >>=-eq-ok (period_row b.workspace_id now w.0) _ rest' in
    let first : SameBooks l w.0 =
      workspace_policy-SameBooks b.workspace_id b.policy now false false l w.0 w.1 policy in
    let second : SameBooks w.0 p.0 = period_row-SameBooks b.workspace_id now w.0 p.0 p.1 period in
    let last : p.0 ≡ l' = ground arith in
    let mine : b ≡ k.budget = ground arith in
    (
      record {
        budgets = ap (λ (x : Ledger). x.budgets) (sym last) ∙ second.budgets ∙ first.budgets;
        reservations =
            ap (λ (x : Ledger). x.reservations) (sym last)
            ∙ second.reservations
            ∙ first.reservations;
        next = ap (λ (x : Ledger). x.next_reservation) (sym last) ∙ second.next ∙ first.next;
      },
      require-eq-ok found ∙ ap some mine,
    )

-- The bytes that a reservation stands for: those it read, or all of them until it is settled.
unfoldable pub charge : Reservation → ℕ
charge r = coalesce r.consumed_bytes r.reserved_bytes

abbrev pub is_of : ℕ → Reservation → Bool
is_of budget r = r.budget_id == budget

unfoldable pub charged : ℕ → List Reservation → ℕ
unfolding charge
charged budget [] = 0
charged budget (r ∷ rs) =
    let rest = charged budget rs in if is_of budget r then charge r + rest else rest

-- A budget's bytes and requests are what its reservations stand for.
abbrev pub IsBooked : List Reservation → WorkBudget → Type 0
IsBooked rs b =
    (b.usage.remote_bytes ≡ charged b.id rs) × (b.usage.remote_requests ≡ count (is_of b.id) rs)

pub record IsAccounted (l : Ledger) : Type 0 where
  pub booked : All (IsBooked l.reservations) l.budgets
  pub unique : (id : ℕ) → count (has_reservation id) l.reservations ≤ 1
  pub numbered : All (λ (r : Reservation). r.id < l.next_reservation) l.reservations

charged-append :
    (b : ℕ) (rs qs : List Reservation) → charged b (rs ++ qs) ≡ charged b rs + charged b qs
unfolding charged
charged-append b [] qs = omega arith
charged-append b (r ∷ rs) qs = ground (arith, charged-append b rs qs)

-- A new reservation is charged to its budget and to no other.
book-IsBooked :
    (id reserved : ℕ) (bs : List WorkBudget) (rs : List Reservation) (r : Reservation)
    → r.budget_id ≡ id
    → r.reserved_bytes ≡ reserved
    → r.consumed_bytes ≡ none
    → All (IsBooked rs) bs
    → All (IsBooked (rs ++ r ∷ [])) (charge_budget id (charge_request reserved) bs)
unfolding charge_request charged
book-IsBooked id reserved [] rs r mine amount open_row h = tt
book-IsBooked id reserved (b ∷ bs) rs r mine amount open_row h = (
  ground (arith, charged-append b.id rs (r ∷ []), count-append (is_of b.id) rs (r ∷ [])),
  book-IsBooked id reserved bs rs r mine amount open_row h.1,
)

module _ (id consumed : ℕ) where
  abbrev consume : Reservation → Reservation
  consume q = if has_reservation id q then record q { consumed_bytes = some consumed } else q

  consume_none :
      (b : ℕ) (rs : List Reservation)
      → count (has_reservation id) rs ≡ 0
      → charged b (map consume rs) ≡ charged b rs
  unfolding charged
  consume_none b [] h = refl
  consume_none b (r ∷ rs) h = ground (arith, consume_none b rs)

  -- Settling the one row of an id takes its refund from its budget's charges.
  charged-consume :
      (b : ℕ) (rs : List Reservation) (r : Reservation)
      → find (has_reservation id) rs ≡ some r
      → r.consumed_bytes ≡ none
      → consumed ≤ r.reserved_bytes
      → count (has_reservation id) rs ≤ 1
      → charged b (map consume rs) + (if is_of b r then r.reserved_bytes - consumed else 0)
        ≡ charged b rs
  unfolding charged
  charged-consume b [] r found open_row fits unique = absurd (ground arith)
  charged-consume b (x ∷ xs) r found open_row fits unique =
      elim (Bool-cases (has_reservation id x)) [
        | inl e ↦
            let eq : x ≡ r = ground arith in
            let alone : count (has_reservation id) xs ≡ 0 = ground arith in
            let none_read : x.consumed_bytes ≡ none =
              ap (λ (q : Reservation). q.consumed_bytes) eq ∙ open_row in
            ground (
              arith,
              consume_none b xs alone,
              ap (λ (q : Reservation). q.reserved_bytes) eq,
              ap (λ (q : Reservation). q.budget_id) eq,
            )
        | inr e ↦ ground (arith, charged-consume b xs r)
      ]

  count-consume :
      (p : Reservation → Bool) (rs : List Reservation)
      → ((q : Reservation) → p (record q { consumed_bytes = some consumed }) ≡ p q)
      → count p (map consume rs) ≡ count p rs
  count-consume p [] h = refl
  count-consume p (r ∷ rs) h = ground (arith, h r, count-consume p rs h)

  consume-numbered :
      (next : ℕ) (rs : List Reservation)
      → All (λ (q : Reservation). q.id < next) rs
      → All (λ (q : Reservation). q.id < next) (map consume rs)
  consume-numbered next [] h = tt
  consume-numbered next (r ∷ rs) h = (ground arith, consume-numbered next rs h.1)

settle-IsBooked :
    (r : Reservation) (consumed : ℕ) (rs : List Reservation) (bs : List WorkBudget)
    → find (has_reservation r.id) rs ≡ some r
    → r.consumed_bytes ≡ none
    → consumed ≤ r.reserved_bytes
    → count (has_reservation r.id) rs ≤ 1
    → All (IsBooked rs) bs
    → All
        (IsBooked (map (consume r.id consumed) rs))
        (charge_budget r.budget_id (refund (r.reserved_bytes - consumed)) bs)
unfolding refund
settle-IsBooked r consumed rs [] found open_row fits unique h = tt
settle-IsBooked r consumed rs (b ∷ bs) found open_row fits unique h = (
  ground (
    arith,
    charged-consume r.id consumed b.id rs r found open_row fits unique,
    count-consume r.id consumed (is_of b.id) rs (λ q. refl),
  ),
  settle-IsBooked r consumed rs bs found open_row fits unique h.1,
)

fresh_reservation :
    (next : ℕ) (rs : List Reservation)
    → All (λ (r : Reservation). r.id < next) rs
    → count (has_reservation next) rs ≡ 0
fresh_reservation next [] h = refl
fresh_reservation next (r ∷ rs) h = ground (arith, fresh_reservation next rs h.1)

numbered_mono :
    (next : ℕ) (rs : List Reservation)
    → All (λ (r : Reservation). r.id < next) rs
    → All (λ (r : Reservation). r.id < next + 1) rs
numbered_mono next [] h = tt
numbered_mono next (r ∷ rs) h = (omega arith, numbered_mono next rs h.1)

one_reservation : (id : ℕ) (r : Reservation) → count (has_reservation id) (r ∷ []) ≤ 1
one_reservation id r = ground arith

other_reservation : (id : ℕ) (r : Reservation) → r.id ≢ id → count (has_reservation id) (r ∷ []) ≡ 0
other_reservation id r ne = ground arith

append_unique :
    (next : ℕ) (rs : List Reservation) (r : Reservation)
    → r.id ≡ next
    → All (λ (q : Reservation). q.id < next) rs
    → ((id : ℕ) → count (has_reservation id) rs ≤ 1)
    → (id : ℕ) → count (has_reservation id) (rs ++ r ∷ []) ≤ 1
append_unique next rs r same numbered unique id = elim (Bool-cases (next == id)) [
  | inl e ↦ omega (
    arith,
    count-append (has_reservation id) rs (r ∷ []),
    one_reservation id r,
    subst (λ (n : ℕ). count (has_reservation n) rs ≡ 0) (==→eq next id e)
        (fresh_reservation next rs numbered),
  )
  | inr e ↦ omega (
    arith,
    count-append (has_reservation id) rs (r ∷ []),
    other_reservation id r (λ q. ground arith),
    unique id,
  )
]

book_request-IsAccounted :
    (now limit : ℕ) (k : Locked) (l : Ledger)
    → IsAccounted l
    → IsAccounted (book_request now limit k l).0
unfolding book_request
book_request-IsAccounted now limit k l h = record {
  booked =
      book-IsBooked k.budget.id (reserved_bytes limit) l.budgets l.reservations _ refl refl refl
        h.booked;
  unique = append_unique l.next_reservation l.reservations _ refl h.numbered h.unique;
  numbered =
      All-append (λ (r : Reservation). r.id < l.next_reservation + 1) l.reservations _
        (numbered_mono l.next_reservation l.reservations h.numbered) (omega arith, tt);
}

SameBooks-IsAccounted : (l l' : Ledger) → SameBooks l l' → IsAccounted l → IsAccounted l'
SameBooks-IsAccounted l l' same h = record {
  booked =
      subst (λ (rs : List Reservation). All (IsBooked rs) l'.budgets) (sym same.reservations)
        (subst (λ (bs : List WorkBudget). All (IsBooked l.reservations) bs) (sym same.budgets)
          h.booked);
  unique = λ id.
      subst (λ (rs : List Reservation). count (has_reservation id) rs ≤ 1) (sym same.reservations)
        (h.unique id);
  numbered =
      subst (λ (n : ℕ). All (λ (r : Reservation). r.id < n) l'.reservations) (sym same.next)
        (subst (λ (rs : List Reservation). All (λ (r : Reservation). r.id < l.next_reservation) rs)
          (sym same.reservations) h.numbered);
}

-- A granted reservation keeps the books: the bytes of each budget are those read by its settled
-- requests and reserved by its open ones, its request counter is the number of its reservations,
-- and reservation ids stay unique.
pub reserve_request-IsAccounted :
    (id now : ℕ) (l l' : Ledger) (reservation limit : ℕ)
    → reserve_request id now l ≡ ok (l', reservation, limit)
    → IsAccounted l
    → IsAccounted l'
unfolding reserve_request
reserve_request-IsAccounted id now l l' reservation limit e h =
    let (k, locked, rest) = >>=-eq-ok (locked_budget id now l) _ e in
    let (granted, admitted, result) = >>=-eq-ok (admit_request k.1) _ rest in
    let (same, found) = locked_budget-SameBooks id now l k.0 k.1 locked in
    let stored : (book_request now granted k.1 k.0).0 ≡ l' = ground arith in
    subst IsAccounted stored
      (book_request-IsAccounted now granted k.1 k.0 (SameBooks-IsAccounted l k.0 same h))

settle_row-IsAccounted :
    (r : Reservation) (consumed : ℕ) (l : Ledger)
    → find (has_reservation r.id) l.reservations ≡ some r
    → r.consumed_bytes ≡ none
    → consumed ≤ r.reserved_bytes
    → IsAccounted l
    → IsAccounted (settle_row r consumed l)
unfolding settle_row
settle_row-IsAccounted r consumed l found open_row fits h = record {
  booked =
      settle-IsBooked r consumed l.reservations l.budgets found open_row fits (h.unique r.id)
        h.booked;
  unique = λ id. omega (
    arith,
    count-consume r.id consumed (has_reservation id) l.reservations (λ q. refl),
    h.unique id,
  );
  numbered = consume-numbered r.id consumed l.next_reservation l.reservations h.numbered;
}

-- A settlement keeps the books: budgets go on having the bytes and requests of their reservations.
pub settle_request-IsAccounted :
    (id consumed : ℕ) (l l' : Ledger)
    → settle_request id consumed l ≡ ok l'
    → IsAccounted l
    → IsAccounted l'
unfolding settle_request
settle_request-IsAccounted id consumed l l' e h =
    let (r, found, rest) = >>=-eq-ok (require (find (has_reservation id) l.reservations)) _ e in
    let here : find (has_reservation id) l.reservations ≡ some r = require-eq-ok found in
    let same : r.id ≡ id = ==→eq r.id id (find-holds (has_reservation id) l.reservations here) in
    let own : find (has_reservation r.id) l.reservations ≡ some r =
      subst (λ (n : ℕ). find (has_reservation n) l.reservations ≡ some r) (sym same) here in
    elim (Option-cases r.consumed_bytes) [
      | inr (n, settled) ↦ let kept : l ≡ l' = ground arith in subst IsAccounted kept h
      | inl open_row ↦
          let fits : consumed ≤ r.reserved_bytes = ground arith in
          let written : settle_row r consumed l ≡ l' = ground arith in
          subst IsAccounted written (settle_row-IsAccounted r consumed l own open_row fits h)
    ]
