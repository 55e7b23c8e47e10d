-- ===== src/Budget/Settle.antt =====
-- Settling a reservation twice.
use chess_crawl.Prelude.{
  ℕ, ◌≡◌, refl, sym, ap, subst, some, List, [], ◌∷◌, map, arith, if◌then◌else◌, find, find-holds,
  Bool-cases, Option-cases, inl, inr, ==→eq,
}
use chess_crawl.Budget.Policy.{ok, >>=-eq-ok}
use chess_crawl.Budget.Ledger.{Reservation, Ledger, require}
use chess_crawl.Budget.Reserve.{has_reservation, settle_row, settle_request}
use chess_crawl.Budget.Accounting.{require-eq-ok}

pub find-consume :
    (id consumed : ℕ) (rs : List Reservation) (r : Reservation)
    → find (has_reservation id) rs ≡ some r
    → find (has_reservation id) (
        map
          (λ (q : Reservation).
            if has_reservation id q then record q { consumed_bytes = some consumed } else q)
          rs)
      ≡ some (record r { consumed_bytes = some consumed })
find-consume id consumed [] r h = absurd (ground arith)
find-consume id consumed (q ∷ rs) r h = elim (Bool-cases (has_reservation id q)) [
  | inl e ↦
      let same : q ≡ r = ground arith in
      ground (arith, ap (λ (x : Reservation). record x { consumed_bytes = some consumed }) same)
  | inr e ↦ ground (arith, find-consume id consumed rs r)
]

already_settled :
    (id again n : ℕ) (l : Ledger) (r : Reservation)
    → find (has_reservation id) l.reservations ≡ some r
    → r.consumed_bytes ≡ some n
    → settle_request id again l ≡ ok l
unfolding settle_request
already_settled id again n l r found settled = rw found (rw settled refl)

-- Settling a reservation a second time, whatever amount is reported then, changes nothing.
pub settle_request-again :
    (id consumed again : ℕ) (l l' : Ledger)
    → settle_request id consumed l ≡ ok l'
    → settle_request id again l' ≡ ok l'
unfolding settle_request settle_row
settle_request-again id consumed again l l' e =
    let (r, found, rest) = >>=-eq-ok (require (find (has_reservation id) l.reservations)) _ e in
    let here : find (has_reservation id) l.reservations ≡ some r = require-eq-ok found in
    let same : r.id ≡ id = ==→eq r.id id (find-holds (has_reservation id) l.reservations here) in
    elim (Option-cases r.consumed_bytes) [
      | inr (n, settled) ↦
          let kept : l ≡ l' = ground arith in
          subst (λ (x : Ledger). settle_request id again x ≡ ok x) kept
            (already_settled id again n l r here settled)
      | inl open_row ↦
          let written : settle_row r consumed l ≡ l' = ground arith in
          subst (λ (x : Ledger). settle_request id again x ≡ ok x) written
            (already_settled id again consumed (settle_row r consumed l)
              (record r { consumed_bytes = some consumed })
              (subst
                (λ (n : ℕ).
                  find (has_reservation id) (
                    map
                      (λ (q : Reservation).
                        if has_reservation n q
                        then record q { consumed_bytes = some consumed }
                        else q)
                      l.reservations)
                  ≡ some (record r { consumed_bytes = some consumed }))
                (sym same) (find-consume id consumed l.reservations r here))
              refl)
    ]
