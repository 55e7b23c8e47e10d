-- ===== src/Budget/Reserve.antt =====
-- The reservations of storage/work_budgets.py: requests before they are sent, interpretation and
-- games before they are written. A raised error rolls the transaction back, so only `ok` changes
-- the ledger.
use chess_crawl.Prelude.{
  ℕ, ◌+◌, ◌-◌, ◌/◌, min, String, Bool, false, ◌&&◌, Option, none, some, List, [], ◌∷◌, ◌++◌, map,
  ◌==◌, ltb, leb, str_eq, if◌then◌else◌, find, any,
}
use chess_crawl.Budget.Policy.{
  BudgetPolicy, Dimension, games, normalization_units, remote_bytes, remote_requests, job_max,
  workspace_max, budget_exceeded, quota_exceeded, payload_bytes, payload_missing, bad_consumption,
  bad_units, Result, ok, err, guard, ◌>>=◌, ◌>>◌,
}
use chess_crawl.Budget.Ledger.{
  Usage, used, WorkBudget, Period, Reservation, Ledger, Locked, find_budget, is_period, require,
  locked_budget,
}

-- _remaining: what both ceilings leave, or the first that leaves less than was asked for.
unfoldable pub remaining : Dimension → ℕ → Locked → Result ℕ
unfolding job_max workspace_max used
remaining d requested k =
    let own : ℕ = job_max d k.budget.policy - used d k.budget.usage in
    let shared : ℕ = workspace_max d k.workspace_policy - used d k.usage.usage in
    if ltb own requested
    then err (budget_exceeded d own)
    else if ltb shared requested
    then err (quota_exceeded d shared k.usage.period_end)
    else ok (min own shared)

-- UPDATE work_budgets … WHERE id, and UPDATE workspace_budget_periods … WHERE workspace and start.
abbrev pub charge_budget : ℕ → (Usage → Usage) → List WorkBudget → List WorkBudget
charge_budget id f =
    map (λ (b : WorkBudget). if b.id == id then record b { usage = f b.usage } else b)

abbrev pub charge_period : String → ℕ → (Usage → Usage) → List Period → List Period
charge_period workspace start f =
    map (λ (p : Period). if is_period workspace start p then record p { usage = f p.usage } else p)

unfoldable pub charge_request : ℕ → Usage → Usage
charge_request reserved u = record u {
  remote_requests = u.remote_requests + 1;
  remote_bytes = u.remote_bytes + reserved;
  normalization_units = u.normalization_units + 1;
}

-- The bytes of the response that a request may read, with room for one more read.
unfoldable pub response_limit : BudgetPolicy → ℕ → ℕ
response_limit policy available =
    min policy.max_response_bytes
      (if ltb available 131072 then available / 2 else available - 65536)

unfoldable pub reserved_bytes : ℕ → ℕ
reserved_bytes limit = limit + min 65536 limit

unfoldable pub book_request : ℕ → ℕ → Locked → Ledger → Ledger × ℕ
unfolding charge_request reserved_bytes
book_request now limit k l =
    let reserved : ℕ = reserved_bytes limit in
    let b : WorkBudget = k.budget in
    (
      record l {
        budgets = charge_budget b.id (charge_request reserved) l.budgets;
        periods =
            charge_period b.workspace_id k.usage.period_start (charge_request reserved) l.periods;
        reservations =
            l.reservations
            ++ record {
              id = l.next_reservation;
              budget_id = b.id;
              workspace_id = b.workspace_id;
              period_start = k.usage.period_start;
              reserved_bytes = reserved;
              consumed_bytes = none;
              created_at = now;
            }
              ∷ [];
        next_reservation = l.next_reservation + 1;
      },
      l.next_reservation,
    )

-- The four ceilings of a request and the bytes that it may read.
unfoldable pub admit_request : Locked → Result ℕ
unfolding remaining response_limit
admit_request k = do
  remaining remote_requests 1 k
  remaining games 1 k
  remaining normalization_units 1 k
  available ← remaining remote_bytes 1 k
  guard (leb 2 available) (budget_exceeded remote_bytes available)
  ok (response_limit k.budget.policy available)

-- reserve_request, with the reservation's id and the limit.
unfoldable pub reserve_request : ℕ → ℕ → Ledger → Result (Ledger × ℕ × ℕ)
unfolding locked_budget admit_request book_request
reserve_request id now l = do
  k ← locked_budget id now l
  limit ← admit_request k.1
  let booked = book_request now limit k.1 k.0
  ok (booked.0, booked.1, limit)

abbrev pub has_reservation : ℕ → Reservation → Bool
has_reservation id r = r.id == id

unfoldable pub refund : ℕ → Usage → Usage
refund n u = record u { remote_bytes = u.remote_bytes - n }

-- The writes of settle_request for a reservation that is still open.
unfoldable pub settle_row : Reservation → ℕ → Ledger → Ledger
unfolding refund
settle_row r consumed l =
    let back : ℕ = r.reserved_bytes - consumed in
    record l {
      budgets = charge_budget r.budget_id (refund back) l.budgets;
      periods = charge_period r.workspace_id r.period_start (refund back) l.periods;
      reservations =
          map
            (λ (q : Reservation).
              if has_reservation r.id q then record q { consumed_bytes = some consumed } else q)
            l.reservations;
    }

unfoldable pub settle_request : ℕ → ℕ → Ledger → Result Ledger
unfolding settle_row
settle_request id consumed l = do
  r ← require (find (has_reservation id) l.reservations)
  elim r.consumed_bytes [
    | some _ ↦ ok l
    | none ↦ do guard (leb consumed r.reserved_bytes) bad_consumption; ok (settle_row r consumed l)
  ]

-- normalization_allowance
unfoldable pub normalization_allowance : ℕ → ℕ → Ledger → Result (Ledger × ℕ)
unfolding locked_budget
normalization_allowance id now l = do
  k ← locked_budget id now l
  ok (
    k.0,
    min (k.1.budget.policy.job_max_normalization_units - k.1.budget.usage.normalization_units) (
        k.1.workspace_policy.workspace_max_normalization_units
        - k.1.usage.usage.normalization_units),
  )

abbrev pub is_item : ℕ → String → ℕ × String → Bool
is_item id key item = item.0 == id && str_eq item.1 key

unfoldable pub charge_work : ℕ → ℕ → Usage → Usage
charge_work units new_games u = record u {
  normalization_units = u.normalization_units + units;
  games = u.games + new_games;
}

unfoldable pub book_work : ℕ → ℕ → ℕ → Locked → Ledger → Ledger
unfolding charge_work
book_work now units new_games k l =
    let b : WorkBudget = k.budget in
    record l {
      budgets =
          map
            (λ (w : WorkBudget).
              if w.id == b.id
              then record w { usage = charge_work units new_games w.usage; updated_at = now }
              else w)
            l.budgets;
      periods =
          charge_period b.workspace_id k.usage.period_start (charge_work units new_games) l.periods;
    }

-- The interpretation units are checked only where some are asked for.
unfoldable pub admit_units : ℕ → Locked → Result ℕ
unfolding remaining
admit_units units k = if units == 0 then ok 0 else remaining normalization_units units k

-- A game that the budget has not met needs room for one more.
unfoldable pub admit_game : Option String → Locked → Ledger → Result (Ledger × ℕ)
unfolding remaining
admit_game none k l = ok (l, 0)
admit_game (some key) k l = if any (is_item k.budget.id key) l.game_items then ok (l, 0) else (do
  remaining games 1 k
  ok (record l { game_items = l.game_items ++ (k.budget.id, key) ∷ [] }, 1))

-- _reserve_processing_work
unfoldable pub reserve_processing_work : ℕ → Option String → ℕ → ℕ → Ledger → Result (Ledger × Bool)
unfolding locked_budget admit_units admit_game book_work
reserve_processing_work id key units now l = do
  k ← locked_budget id now l
  admit_units units k.1
  g ← admit_game key k.1 k.0
  if units == 0 && g.1 == 0 then ok (g.0, false) else ok (book_work now units g.1 k.1 g.0, g.1 == 1)

unfoldable pub reserve_normalization : ℕ → Option String → ℕ → ℕ → Ledger → Result (Ledger × Bool)
unfolding reserve_processing_work
reserve_normalization id key units now l = do
  guard (leb 1 units) bad_units
  reserve_processing_work id key units now l

unfoldable pub reserve_game : ℕ → String → ℕ → Ledger → Result (Ledger × Bool)
unfolding reserve_processing_work
reserve_game id key now l = reserve_processing_work id (some key) 0 now l

-- reserve_payload_read: the payload's size is looked up by the caller's table; the second number is
-- the connection's prepaid reads.
unfoldable pub reserve_payload_read : ℕ → Option ℕ → ℕ → ℕ → Ledger → Result (Ledger × ℕ)
unfolding reserve_normalization
reserve_payload_read id body_bytes credits now l = do
  b ← require (find_budget id l.budgets)
  elim body_bytes [
    | none ↦ err payload_missing
    | some size ↦ do
      guard (leb size b.policy.max_response_bytes) payload_bytes
      if ltb 0 credits
          then ok (l, credits - 1)
          else (do r ← reserve_normalization id none 1 now l; ok (r.0, credits))
  ]

unfoldable pub exhaust_budget : ℕ → Dimension → ℕ → Ledger → Ledger
exhaust_budget id d now l = record l {
  budgets =
      map
        (λ (b : WorkBudget).
          if b.id == id
          then record b { exhausted_dimension = some d; exhausted_at = some now; updated_at = now }
          else b)
        l.budgets;
}
