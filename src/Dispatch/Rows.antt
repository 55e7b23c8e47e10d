-- ===== src/Dispatch/Rows.antt =====
-- The rows that a query of storage/execution.py joins, and the primary key of dispatch_outbox.
use chess_crawl.Prelude.{
  some_eq, ℕ, ◌≡◌, refl, sym, ap, subst, ◌∙◌, Bool, true, false, Option, none, some, List, [], ◌∷◌,
  map, arith, find, All, Bool-cases, inl, inr, ◌==◌, ==→eq,
}
use chess_crawl.Queue.Model.{Dispatch, Job}
use chess_crawl.Queue.Write.{find_job}
use chess_crawl.Dispatch.{Joined, join_row, joined, has_dispatch}

-- The row of a join: its hint has what every row of the table has, and its job is the one named.
pub record IsJoined {κ} (P : Dispatch → Type κ) (row_locked : ℕ → Bool) (js : List Job) (r : Joined)
    : Type κ where
  pub row : P r.hint
  pub of_job : find_job r.hint.job_id js ≡ some r.job
  pub unlocked : row_locked r.hint.id ≡ false

join_row-IsJoined {κ} :
    (P : Dispatch → Type κ) (row_locked : ℕ → Bool) (js : List Job) (d : Dispatch)
    → (rest : List Joined) (o : Option Job) → P d
    → find_job d.job_id js ≡ o
    → All (IsJoined P row_locked js) rest
    → All (IsJoined P row_locked js) (join_row row_locked d rest o)
join_row-IsJoined P row_locked js d rest none row same all = all
join_row-IsJoined P row_locked js d rest (some j) row same all =
    elim (Bool-cases (row_locked d.id)) [
      | inl e ↦ ground (arith, all)
      | inr e ↦
          let shown : IsJoined P row_locked js (record { hint = d; job = j }) = record {
            row = row;
            of_job = same;
            unlocked = e;
          } in
          ground (arith, shown, all)
    ]

pub joined-IsJoined {κ} :
    (P : Dispatch → Type κ) (row_locked : ℕ → Bool) (js : List Job) (ds : List Dispatch)
    → All P ds
    → All (IsJoined P row_locked js) (joined row_locked js ds)
unfolding joined
joined-IsJoined P row_locked js [] all = tt
joined-IsJoined P row_locked js (d ∷ ds) all =
    join_row-IsJoined P row_locked js d (joined row_locked js ds) (find_job d.job_id js) all.0 refl
      (joined-IsJoined P row_locked js ds all.1)

abbrev pub IsKeyed : List Dispatch → Type 0
IsKeyed rows = All (λ (d : Dispatch). find (has_dispatch d.id) rows ≡ some d) rows

-- The primary key: two rows with one id are one row.
pub IsKeyed-same :
    (rows : List Dispatch) (d e : Dispatch)
    → find (has_dispatch d.id) rows ≡ some d
    → find (has_dispatch e.id) rows ≡ some e
    → (d.id == e.id) ≡ true
    → d ≡ e
IsKeyed-same rows d e hd he same =
    some_eq (sym hd ∙ ap (λ (n : ℕ). find (has_dispatch n) rows) (==→eq d.id e.id same) ∙ he)

module _ (f : Dispatch → Dispatch) (keeps : (d : Dispatch) → (f d).id ≡ d.id) where
  find-update :
      (id : ℕ) (rows : List Dispatch) {d : Dispatch}
      → find (has_dispatch id) rows ≡ some d
      → find (has_dispatch id) (map f rows) ≡ some (f d)
  find-update id [] h = absurd (ground arith)
  find-update id (e ∷ rows) {d} h = elim (Bool-cases (e.id == id)) [
    | inl same ↦
        let found : e ≡ d = some_eq {a = e} {b = d} (ground arith) in
        subst (λ d'. find (has_dispatch id) (map f (e ∷ rows)) ≡ some (f d')) found
          (ground (arith, keeps e))
    | inr other ↦
        let later : find (has_dispatch id) rows ≡ some d = ground arith in
        ground (arith, keeps e, find-update id rows {d = d} later)
  ]

  IsKeyed-map :
      (rows ds : List Dispatch)
      → All (λ (d : Dispatch). find (has_dispatch d.id) rows ≡ some d) ds
      → All (λ (d : Dispatch). find (has_dispatch d.id) (map f rows) ≡ some d) (map f ds)
  IsKeyed-map rows [] all = tt
  IsKeyed-map rows (d ∷ ds) all = (
    subst (λ (n : ℕ). find (has_dispatch n) (map f rows) ≡ some (f d)) (sym (keeps d))
        (find-update d.id rows all.0),
    IsKeyed-map rows ds all.1,
  )

  pub IsKeyed-update : (rows : List Dispatch) → IsKeyed rows → IsKeyed (map f rows)
  IsKeyed-update rows all = IsKeyed-map rows rows all
