-- ===== src/Workers/Liveness.antt =====
-- Which workers count as alive after they start, beat and stop.
use chess_crawl.Prelude.{
  ℕ, ◌+◌, ◌<◌, ◌≡◌, refl, sym, subst, String, Bool, true, false, not, Option, List, [], ◌∷◌, ◌++◌,
  map, arith, str_eq_iff, if◌then◌else◌, any, count, select, All, All-append, All-take, All-sort_by,
  All-select, select-holds, Bool-cases, inl, inr,
}
use chess_crawl.Workers.{
  Heartbeat, is_active, is_worker, is_expired, older, expired_batch, prune_worker_heartbeats,
  worker_prune_limit, started, first_start, start_row, start_worker, beaten, beats,
  heartbeat_worker, ended, stop_worker, worker_alive,
}

-- A row of the worker is active.
abbrev IsActive : String → Heartbeat → Type 0
IsActive id h = is_worker id h ≡ true → is_active h.status ≡ true

-- A row of the worker is terminal.
abbrev IsEnded : String → Heartbeat → Type 0
IsEnded id h = is_worker id h ≡ true → is_active h.status ≡ false

-- The other way round, a write that makes every row of the worker so.
All-IsEnded :
    (id : String) (crashed : Bool) (now : ℕ) (hs : List Heartbeat)
    → All
        (IsEnded id)
        (map (λ (h : Heartbeat). if is_worker id h then ended crashed now h else h) hs)
unfolding ended is_active
All-IsEnded id crashed now [] = tt
All-IsEnded id crashed now (h ∷ hs) = (λ e. ground arith, All-IsEnded id crashed now hs)

ended_none_beats :
    (id : String) (hs : List Heartbeat) → All (IsEnded id) hs → count (beats id) hs ≡ 0
ended_none_beats id [] a = refl
ended_none_beats id (h ∷ hs) a = ground (arith, a.0, ended_none_beats id hs a.1)

ended_none_alive :
    (id : String) (t : ℕ) (hs : List Heartbeat) → All (IsEnded id) hs → worker_alive id t hs ≡ false
unfolding worker_alive
ended_none_alive id t [] a = refl
ended_none_alive id t (h ∷ hs) a = ground (arith, a.0, ended_none_alive id t hs a.1)

none_deleted :
    (id : String) (batch : List Heartbeat)
    → All (IsActive id) batch
    → All (λ (h : Heartbeat). is_active h.status ≡ false) batch
    → any (is_worker id) batch ≡ false
none_deleted id [] a b = refl
none_deleted id (h ∷ hs) a b = ground (arith, a.0, b.0, none_deleted id hs a.1 b.1)

same_id :
    (id : String) (h : Heartbeat) (batch : List Heartbeat)
    → is_worker id h ≡ true
    → any (is_worker id) batch ≡ false
    → any (is_worker h.worker_id) batch ≡ false
same_id id h batch e none_left =
    subst (λ (k : String). any (is_worker k) batch ≡ false) (sym ((str_eq_iff h.worker_id id).0 e))
      none_left

alive_kept :
    (id : String) (t : ℕ) (batch hs : List Heartbeat)
    → any (is_worker id) batch ≡ false
    → worker_alive id t hs ≡ true
    → worker_alive id t (select (λ (h : Heartbeat). not (any (is_worker h.worker_id) batch)) hs)
      ≡ true
unfolding worker_alive
alive_kept id t batch [] none_left a = absurd (ground arith)
alive_kept id t batch (h ∷ hs) none_left a = elim (Bool-cases (is_worker id h)) [
  | inl e ↦ ground (arith, same_id id h batch e none_left, alive_kept id t batch hs none_left)
  | inr e ↦ ground (arith, alive_kept id t batch hs none_left)
]

module _ (before : String → String → Bool) (row_locked : String → Bool) where
  -- Only terminal rows are pruned.
  batch_ended :
      (now : ℕ) (hs : List Heartbeat)
      → All (λ (h : Heartbeat). is_active h.status ≡ false) (expired_batch before row_locked now hs)
  unfolding expired_batch is_expired
  batch_ended now hs =
      All-take _ worker_prune_limit _
        (All-sort_by _ (older before) _ (select-holds _ _ hs (λ h e. ground arith)))

  pruned_alive :
      (id : String) (t now : ℕ) (hs : List Heartbeat)
      → All (IsActive id) hs
      → worker_alive id t hs ≡ true
      → worker_alive id t (prune_worker_heartbeats before row_locked now hs).0 ≡ true
  unfolding prune_worker_heartbeats
  pruned_alive id t now hs active alive =
      let batch : List Heartbeat = expired_batch before row_locked now hs in
      let of_hs : All (IsActive id) batch =
        unfold expired_batch in
        All-take _ worker_prune_limit _
          (All-sort_by _ (older before) _ (All-select _ _ hs active)) in
      alive_kept id t batch hs (none_deleted id batch of_hs (batch_ended now hs)) alive

  -- A worker that stopped is not alive at any time, however it stopped.
  pub stop_worker-dead :
      (id : String) (crashed : Bool) (now t : ℕ) (hs : List Heartbeat)
      → worker_alive id t (stop_worker before row_locked id crashed now hs) ≡ false
  unfolding stop_worker prune_worker_heartbeats
  stop_worker-dead id crashed now t hs =
      ended_none_alive id t _ (All-select _ _ _ (All-IsEnded id crashed now hs))

  beat_changes_none :
      (id : String) (max_age : ℕ) (job : Option ℕ) (halting : Bool) (now : ℕ) (hs : List Heartbeat)
      → All (IsEnded id) hs
      → All
          (IsEnded id)
          (map (λ (h : Heartbeat). if beats id h then beaten max_age job halting now h else h) hs)
  unfolding beaten
  beat_changes_none id max_age job halting now [] a = tt
  beat_changes_none id max_age job halting now (h ∷ hs) a =
      (λ e. ground (arith, a.0), beat_changes_none id max_age job halting now hs a.1)

  -- A heartbeat that arrives after its worker stopped reports that the row is no longer owned, and
  -- does not bring the worker back at any time.
  pub heartbeat_worker-stopped :
      (id : String) (crashed : Bool) (now max_age : ℕ) (job : Option ℕ) (halting : Bool)
      (later t : ℕ) (hs : List Heartbeat)
      → let late =
          heartbeat_worker before row_locked id max_age job halting later
            (stop_worker before row_locked id crashed now hs) in
        (late.1 ≡ false) × (worker_alive id t late.0 ≡ false)
  unfolding heartbeat_worker stop_worker prune_worker_heartbeats
  heartbeat_worker-stopped id crashed now max_age job halting later t hs =
      let gone : All (IsEnded id) (stop_worker before row_locked id crashed now hs) =
        All-select _ _ _ (All-IsEnded id crashed now hs) in
      (
        ground (arith, ended_none_beats id _ gone),
        ended_none_alive id t _
            (All-select _ _ _ (beat_changes_none id max_age job halting later _ gone)),
      )

  started-IsActive :
      (id : String) (max_age now : ℕ) (hs : List Heartbeat)
      → All
          (IsActive id)
          (map (λ (h : Heartbeat). if is_worker id h then started id max_age now h else h) hs)
  unfolding started is_active
  started-IsActive id max_age now [] = tt
  started-IsActive id max_age now (h ∷ hs) = (λ e. ground arith, started-IsActive id max_age now hs)

  started_alive :
      (id : String) (max_age now t : ℕ) (hs : List Heartbeat)
      → any (is_worker id) hs ≡ true
      → t < now + max_age
      → worker_alive id t
          (map (λ (h : Heartbeat). if is_worker id h then started id max_age now h else h) hs)
        ≡ true
  unfolding started is_active worker_alive
  started_alive id max_age now t [] h lt = absurd (ground arith)
  started_alive id max_age now t (x ∷ xs) h lt = ground (arith, started_alive id max_age now t xs)

  absent-IsActive :
      (id : String) (hs : List Heartbeat) → any (is_worker id) hs ≡ false → All (IsActive id) hs
  absent-IsActive id [] h = tt
  absent-IsActive id (x ∷ xs) h = (λ e. absurd (ground arith), absent-IsActive id xs (ground arith))

  appended_alive :
      (id : String) (max_age now t : ℕ) (hs : List Heartbeat)
      → t < now + max_age
      → worker_alive id t (hs ++ first_start id max_age now ∷ []) ≡ true
  unfolding worker_alive is_active
  appended_alive id max_age now t [] lt = ground (arith, (str_eq_iff id id).1 refl)
  appended_alive id max_age now t (x ∷ xs) lt =
      ground (arith, appended_alive id max_age now t xs lt)

  -- A worker that starts is alive until its first heartbeat expires, whatever its row was before
  -- and whatever rows are pruned.
  pub start_worker-alive :
      (id : String) (max_age now t : ℕ) (hs : List Heartbeat)
      → t < now + max_age
      → worker_alive id t (start_worker before row_locked id max_age now hs) ≡ true
  unfolding start_worker start_row
  start_worker-alive id max_age now t hs lt = elim (Bool-cases (any (is_worker id) hs)) [
    | inl e ↦ rw e (
        pruned_alive id t now _ (started-IsActive id max_age now hs)
          (started_alive id max_age now t hs e lt))
    | inr e ↦ rw e (
        pruned_alive id t now _
          (All-append (IsActive id) hs _ (absent-IsActive id hs e)
            (unfold is_active in λ x. refl, tt))
          (appended_alive id max_age now t hs lt))
  ]
