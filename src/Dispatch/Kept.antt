-- ===== src/Dispatch/Kept.antt =====
-- Maintenance of the outbox against the jobs: what maintain_dispatch of storage/execution.py leaves
-- in place. `primary key` is read as: every row is the one that its id finds.
use chess_crawl.Prelude.{
  some_eq, ℕ, ◌≡◌, refl, sym, ap, subst, ◌∙◌, Bool, true, false, not, ◌&&◌, some, List, [], ◌∷◌,
  map, arith, any, find, select, All, All-take, All-select, All-sort_by, All-select_holds, All-map,
  any-none, any-map, any-select, Bool-cases, inl, inr, ◌==◌, ==→eq,
}
use mathlib.Core.Path.{subst₂}
use chess_crawl.Queue.Model.{Archive, Dispatch, Job}
use chess_crawl.Queue.Write.{find_job, is_open, names_revision, schedulable}
use chess_crawl.Dispatch.Rows.{IsJoined, joined-IsJoined, IsKeyed, IsKeyed-same, IsKeyed-update}
use chess_crawl.Dispatch.{
  Joined, joined, current_dispatch, retired, is_kept, has_dispatch, is_obsolete,
  retire_obsolete_dispatch, is_expired, expired_hints, prune_hints, closed_before, id_before,
  maintenance_window, maintain_dispatch,
}

-- An open hint of the job's current revision.
abbrev pub offers : Job → Dispatch → Bool
offers j d = names_revision j.id j.revision d && is_open d

abbrev pub open_hint : List Dispatch → Job → Bool
open_hint rows j = any (offers j) rows

retired-current :
    (rs : List Joined) (now : ℕ) (d : Dispatch) → is_obsolete rs d ≡ false → retired rs now d ≡ d
unfolding retired
retired-current rs now d h = ground arith

closed-absent :
    (rows : List Dispatch) (d e : Dispatch)
    → find (has_dispatch e.id) rows ≡ some e
    → find (has_dispatch d.id) rows ≡ some d
    → is_open e ≡ false
    → is_open d ≡ true
    → has_dispatch d.id e ≡ false
closed-absent rows d e he hd closed still = elim (Bool-cases (e.id == d.id)) [
  | inr other ↦ other
  | inl same ↦
      let one : e ≡ d = IsKeyed-same rows e d he hd same in absurd (ground (arith, ap is_open one))
]

is_expired-closed :
    (now retention : ℕ) (d : Dispatch) → is_expired now retention d ≡ true → is_open d ≡ false
unfolding is_expired is_open
is_expired-closed now retention d h = ground arith

module _ (js : List Job) (j : Job) (named : find_job j.id js ≡ some j)
    (live : schedulable j ≡ true) where
  current_dispatch-offered :
      (d : Dispatch) → offers j d ≡ true → current_dispatch (record { hint = d; job = j }) ≡ true
  unfolding current_dispatch names_revision
  current_dispatch-offered d offer = ground arith

  -- A row of the join with the id of such a hint is that hint, and is current.
  is_obsolete-offered :
      (row_locked : ℕ → Bool) (rows : List Dispatch) (rs : List Joined) (d : Dispatch)
      → find (has_dispatch d.id) rows ≡ some d
      → offers j d ≡ true
      → All (IsJoined (λ (e : Dispatch). find (has_dispatch e.id) rows ≡ some e) row_locked js) rs
      → is_obsolete rs d ≡ false
  unfolding is_obsolete current_dispatch names_revision
  is_obsolete-offered row_locked rows [] d key offer all = refl
  is_obsolete-offered row_locked rows (r ∷ rs) d key offer all =
      let rest = is_obsolete-offered row_locked rows rs d key offer all.1 in
      elim (Bool-cases (r.hint.id == d.id)) [
        | inr other ↦ ground (arith, rest)
        | inl same ↦
            let one : r.hint ≡ d = IsKeyed-same rows r.hint d all.0.row key same in
            let its_job : d.job_id ≡ j.id = ==→eq d.job_id j.id (ground arith) in
            let job : r.job ≡ j = some_eq (
              sym all.0.of_job
              ∙ ap (λ (n : ℕ). find_job n js) (ap (λ (e : Dispatch). e.job_id) one ∙ its_job)
              ∙ named) in
            let current : current_dispatch r ≡ true =
              subst₂
                (λ (e : Dispatch) (k : Job). current_dispatch (record { hint = e; job = k }) ≡ true)
                (sym one) (sym job) (current_dispatch-offered d offer) in
            ground (arith, rest)
      ]

  retired-offered :
      (row_locked : ℕ → Bool) (now : ℕ) (rows : List Dispatch) (rs : List Joined)
      (ds : List Dispatch)
      → All (IsJoined (λ (e : Dispatch). find (has_dispatch e.id) rows ≡ some e) row_locked js) rs
      → All (λ (d : Dispatch). find (has_dispatch d.id) rows ≡ some d) ds
      → All (λ (d : Dispatch). offers j d ≡ true → offers j (retired rs now d) ≡ true) ds
  retired-offered row_locked now rows rs [] all keys = tt
  retired-offered row_locked now rows rs (d ∷ ds) all keys = (
    λ offer.
        subst (λ (d' : Dispatch). offers j d' ≡ true)
          (sym
            (retired-current rs now d (is_obsolete-offered row_locked rows rs d keys.0 offer all)))
          offer,
    retired-offered row_locked now rows rs ds all keys.1,
  )

  -- The rows that are pruned are closed.
  kept-offered :
      (rows gone ds : List Dispatch)
      → All (λ (e : Dispatch). (find (has_dispatch e.id) rows ≡ some e) × (is_open e ≡ false)) gone
      → All (λ (d : Dispatch). find (has_dispatch d.id) rows ≡ some d) ds
      → All (λ (d : Dispatch). offers j d ≡ true → is_kept gone d ≡ true) ds
  kept-offered rows gone [] closed keys = tt
  kept-offered rows gone (d ∷ ds) closed keys = (
    λ offer.
        let absent : any (has_dispatch d.id) gone ≡ false = any-none (has_dispatch d.id) gone (
          All-map (λ (e : Dispatch). (find (has_dispatch e.id) rows ≡ some e) × (is_open e ≡ false))
            (λ (e : Dispatch). has_dispatch d.id e ≡ false)
            (λ e row. closed-absent rows d e row.0 keys.0 row.1 (ground arith)) gone closed) in
        ground arith,
    kept-offered rows gone ds closed keys.1,
  )

retired_id : (rs : List Joined) (now : ℕ) (d : Dispatch) → (retired rs now d).id ≡ d.id
unfolding retired
retired_id rs now d = ground arith

-- The rows that are pruned stand in the table, closed.
expired_hints-closed :
    (row_locked : ℕ → Bool) (now retention limit : ℕ) (rows : List Dispatch)
    → IsKeyed rows
    → All
        (λ (e : Dispatch). (find (has_dispatch e.id) rows ≡ some e) × (is_open e ≡ false))
        (expired_hints row_locked now retention limit rows)
unfolding expired_hints
expired_hints-closed row_locked now retention limit rows keyed =
    let Row : Dispatch → Type 0 =
      λ e. (find (has_dispatch e.id) rows ≡ some e) × (is_open e ≡ false) in
    let chosen : Dispatch → Bool = λ d. is_expired now retention d && not (row_locked d.id) in
    All-take Row limit _ (
      All-sort_by Row closed_before _ (
        All-map (λ (e : Dispatch). (find (has_dispatch e.id) rows ≡ some e) × (chosen e ≡ true)) Row
          (λ e row. (row.0, is_expired-closed now retention e (ground (arith, row.1))))
          (select chosen rows)
          (All-select_holds (λ (e : Dispatch). find (has_dispatch e.id) rows ≡ some e) chosen rows
            keyed)))

-- With unique hint ids, a schedulable job that has an open hint of its current revision has one
-- after maintain_dispatch too, whatever is retired and pruned.
pub maintain_dispatch-open_hint :
    (row_locked : ℕ → Bool) (now retention limit after : ℕ) (db : Archive) (j : Job)
    → IsKeyed db.outbox.rows
    → find_job j.id db.jobs ≡ some j
    → schedulable j ≡ true
    → open_hint db.outbox.rows j ≡ true
    → open_hint (maintain_dispatch row_locked now retention limit after db).0.outbox.rows j ≡ true
unfolding maintain_dispatch retire_obsolete_dispatch prune_hints expired_hints maintenance_window
maintain_dispatch-open_hint row_locked now retention limit after db j keyed named live offered =
    let rows : List Dispatch = db.outbox.rows in
    let window : List Dispatch = maintenance_window row_locked limit after rows in
    let rs : List Joined = joined (λ id. false) db.jobs window in
    let swept : List Dispatch = map (retired rs now) rows in
    let gone : List Dispatch = expired_hints row_locked now retention limit swept in
    let swept_keyed : IsKeyed swept =
      IsKeyed-update (retired rs now) (retired_id rs now) rows keyed in
    let of_window =
      joined-IsJoined (λ (e : Dispatch). find (has_dispatch e.id) rows ≡ some e) (λ id. false)
        db.jobs window
        (All-take (λ (e : Dispatch). find (has_dispatch e.id) rows ≡ some e) limit _
          (All-sort_by (λ (e : Dispatch). find (has_dispatch e.id) rows ≡ some e) id_before _
            (All-select (λ (e : Dispatch). find (has_dispatch e.id) rows ≡ some e) _ rows
              keyed))) in
    any-select (offers j) (is_kept gone) swept
      (kept-offered db.jobs j named live swept gone swept
        (expired_hints-closed row_locked now retention limit swept swept_keyed) swept_keyed)
      (any-map (offers j) (retired rs now) rows
        (retired-offered db.jobs j named live (λ id. false) now rows rs rows of_window keyed)
        offered)
