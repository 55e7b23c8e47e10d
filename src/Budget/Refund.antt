-- ===== src/Budget/Refund.antt =====
-- What a settlement returns: to the budget of a reservation and to the month of its workspace.
use chess_crawl.Prelude.{
  ℕ, ◌+◌, ◌-◌, ◌≤◌, ◌≡◌, refl, sym, ap, subst, ◌∙◌, none, some, List, [], ◌∷◌, arith, ◌==◌, ==→eq,
  find, find-holds, find-All, Bool-cases, inl, inr,
}
use chess_crawl.Budget.Policy.{ok}
use chess_crawl.Budget.Ledger.{
  Usage, WorkBudget, Period, Reservation, Ledger, find_budget, is_period,
}
use chess_crawl.Budget.Reserve.{has_reservation, refund, settle_row, settle_request}
use chess_crawl.Budget.Accounting.{
  IsAccounted, IsBooked, charge, charged, settle_request-IsAccounted,
}
use chess_crawl.Budget.Bounds.{find-charge_budget, find-charge_period}
use chess_crawl.Budget.Settle.{find-consume}

-- An open reservation of a budget is part of the budget's charges.
charge_le_charged :
    (id : ℕ) (rs : List Reservation) (r : Reservation)
    → find (has_reservation id) rs ≡ some r
    → r.consumed_bytes ≡ none
    → r.reserved_bytes ≤ charged r.budget_id rs
unfolding charged charge
charge_le_charged id [] r found open_row = absurd (ground arith)
charge_le_charged id (q ∷ rs) r found open_row = elim (Bool-cases (has_reservation id q)) [
  | inl e ↦
      let eq : q ≡ r = ground arith in
      subst (λ (x : Reservation). r.reserved_bytes ≤ charged r.budget_id (x ∷ rs)) (sym eq)
        (ground arith)
  | inr e ↦ ground (arith, charge_le_charged id rs r)
]

-- The usage `new` is the usage `old` in all but the remote bytes.
abbrev SameButBytes : Usage → Usage → Type 0
SameButBytes old new =
    (new.games ≡ old.games)
    × (new.normalization_units ≡ old.normalization_units)
    × (new.remote_requests ≡ old.remote_requests)

-- The ledger after the settlement of the open reservation `r` of the budget `b` in the month `p`.
pub record IsReturned (consumed : ℕ) (r : Reservation) (b : WorkBudget) (p : Period) (l' : Ledger)
    : Type 0 where
  pub own : Usage
  pub shared : Usage
  pub settled :
      find (has_reservation r.id) l'.reservations
      ≡ some (record r { consumed_bytes = some consumed })
  pub budget : find_budget r.budget_id l'.budgets ≡ some (record b { usage = own })
  pub period :
      find (is_period r.workspace_id r.period_start) l'.periods ≡ some (record p { usage = shared })
  pub own_bytes : own.remote_bytes + r.reserved_bytes ≡ b.usage.remote_bytes + consumed
  pub shared_bytes : shared.remote_bytes ≡ p.usage.remote_bytes - (r.reserved_bytes - consumed)
  pub own_rest : SameButBytes b.usage own
  pub shared_rest : SameButBytes p.usage shared
  pub accounted : IsAccounted l'

module _ (consumed : ℕ) (l l' : Ledger) (r : Reservation) (b : WorkBudget) (p : Period) where
  settle_row-IsReturned :
      find (has_reservation r.id) l.reservations ≡ some r
      → r.consumed_bytes ≡ none
      → consumed ≤ r.reserved_bytes
      → find_budget r.budget_id l.budgets ≡ some b
      → find (is_period r.workspace_id r.period_start) l.periods ≡ some p
      → IsAccounted l
      → IsAccounted (settle_row r consumed l)
      → IsReturned consumed r b p (settle_row r consumed l)
  unfolding settle_row refund
  settle_row-IsReturned found open_row fits funded dated h h' =
      let back : ℕ = r.reserved_bytes - consumed in
      let booked : IsBooked l.reservations b =
        find-All (IsBooked l.reservations) (λ (w : WorkBudget). w.id == r.budget_id) l.budgets
          h.booked funded in
      let same : b.id ≡ r.budget_id =
        ==→eq b.id r.budget_id
          (find-holds (λ (w : WorkBudget). w.id == r.budget_id) l.budgets funded) in
      let part : r.reserved_bytes ≤ charged r.budget_id l.reservations =
        charge_le_charged r.id l.reservations r found open_row in
      let held : b.usage.remote_bytes ≡ charged r.budget_id l.reservations =
        booked.0 ∙ ap (λ (n : ℕ). charged n l.reservations) same in
      record {
        own = refund back b.usage;
        shared = refund back p.usage;
        settled = find-consume r.id consumed l.reservations r found;
        budget = find-charge_budget r.budget_id (refund back) l.budgets b funded;
        period = find-charge_period r.workspace_id r.period_start (refund back) l.periods p dated;
        own_bytes = omega (arith, held, part, fits);
        shared_bytes = refl;
        own_rest = (refl, refl, refl);
        shared_rest = (refl, refl, refl);
        accounted = h';
      }

  -- Where the books are accounted for, a successful settlement of an open reservation with a stored
  -- budget and month marks the reservation with the consumed bytes, takes the bytes reserved but
  -- not consumed from the remote bytes of its budget and of the month of its workspace, leaves
  -- their games, requests and interpretation units, and keeps the books accounted for: every budget
  -- has the bytes and requests of its reservations.
  pub settle_request-IsReturned :
      find (has_reservation r.id) l.reservations ≡ some r
      → r.consumed_bytes ≡ none
      → find_budget r.budget_id l.budgets ≡ some b
      → find (is_period r.workspace_id r.period_start) l.periods ≡ some p
      → settle_request r.id consumed l ≡ ok l'
      → IsAccounted l
      → IsReturned consumed r b p l'
  unfolding settle_request
  settle_request-IsReturned found open_row funded dated e h =
      let done : settle_request r.id consumed l ≡ ok l' = e in
      let fits : consumed ≤ r.reserved_bytes = ground arith in
      let written : settle_row r consumed l ≡ l' = ground arith in
      let books : IsAccounted (settle_row r consumed l) =
        subst IsAccounted (sym written) (settle_request-IsAccounted r.id consumed l l' e h) in
      subst (IsReturned consumed r b p) written
        (settle_row-IsReturned found open_row fits funded dated h books)
