-- ===== src/Http/Bounded.antt =====
-- How often HttpClient.request sends.
use chess_crawl.Prelude.{
  ℕ, zero, suc, ◌+◌, ◌≤◌, Bool, true, false, ◌||◌, Option, none, some, List, [], ◌∷◌, ◌++◌, arith,
  if◌then◌else◌, refl, ◌≡◌, count, count-append, Bool-cases, inl, inr,
}
use chess_crawl.Http.{
  Attempt, Effect, FetchPolicy, Round, Run, Tried, attempt_effects, attempt_loop, attempt_run,
  conclude, granted_run, halted, is_final, is_zero, persist, raised, request, result, send, settle,
  sleep, wait_each, hook_effects, Hook, returns, stops, fails, stopped_run, try_request,
  retry_delay_s,
}

abbrev pub is_send : Effect → Bool
is_send send = true
is_send _ = false

count-wait_each : (ns : List ℕ) → count is_send (wait_each ns) ≡ 0
count-wait_each [] = refl
count-wait_each (n ∷ ns) = count-wait_each ns

count-hook_effects : (hook : Hook) → count is_send (hook_effects hook) ≡ 0
count-hook_effects (returns ns) = count-wait_each ns
count-hook_effects (stops ns) = count-wait_each ns
count-hook_effects (fails ns) = count-wait_each ns

count-attempt_effects :
    (hook : Hook) (limit : Option ℕ) (a : Attempt)
    → count is_send (attempt_effects hook limit a) ≤ 1
count-attempt_effects hook none a =
    let tail : List Effect = if a.sent then send ∷ [] else [] in
    let least : count is_send tail ≤ 1 = elim (Bool-cases a.sent) [
      | inl e ↦ rw e (omega arith)
      | inr e ↦ rw e (omega arith)
    ] in
    omega (arith, count-append is_send (hook_effects hook) tail, count-hook_effects hook, least)
count-attempt_effects hook (some n) a =
    let tail : List Effect =
      if a.sent then send ∷ settle a.received ∷ [] else settle a.received ∷ [] in
    let least : count is_send tail ≤ 1 = elim (Bool-cases a.sent) [
      | inl e ↦ rw e (omega arith)
      | inr e ↦ rw e (omega arith)
    ] in
    omega (arith, count-append is_send (hook_effects hook) tail, count-hook_effects hook, least)

conclude-count :
    (p : FetchPolicy) (is_last : Bool) (r : Round) (n : ℕ) (last : Option ℕ) (next : ℕ → Run)
    → (es : List Effect) (t : Tried) (k : ℕ) → count is_send es ≤ 1
    → ((status : ℕ) → count is_send (next status).effects ≤ k)
    → count is_send (conclude p is_last r n last next es t).effects ≤ suc k
unfolding conclude
conclude-count p is_last r n last next es halted k one later = omega (arith, one)
conclude-count p is_last r n last next es (raised e) k one later = omega (arith, one)
conclude-count p is_last r n last next es (result status retry_after) k one later =
    let delay : ℕ = retry_delay_s p status retry_after n in
    let pause : List Effect = persist delay ∷ sleep delay ∷ [] in
    elim (Bool-cases (is_final status)) [
      | inl e1 ↦ rw e1 (omega (arith, one, count-append is_send es (persist p.min_delay_s ∷ [])))
      | inr e1 ↦ elim (Bool-cases (is_last || r.stopped_after)) [
        | inl e2 ↦ rw (e1, e2) (omega (arith, one, count-append is_send es (persist delay ∷ [])))
        | inr e2 ↦ elim (Bool-cases r.stopped_slept) [
          | inl e3 ↦ rw (e1, e2, e3) (omega (arith, one, count-append is_send es pause))
          | inr e3 ↦
              rw (e1, e2, e3)
                (omega (
                  arith,
                  one,
                  later status,
                  count-append is_send (es ++ pause) (next status).effects,
                  count-append is_send es pause,
                ))
        ]
      ]
    ]

granted_run-count :
    (p : FetchPolicy) (is_last : Bool) (r : Round) (n : ℕ) (last : Option ℕ) (next : ℕ → Run)
    → (budgeted : Bool) (grant : Option ℕ) (k : ℕ)
    → ((status : ℕ) → count is_send (next status).effects ≤ k)
    → count is_send (granted_run p is_last r n last next budgeted grant).effects ≤ suc k
unfolding granted_run attempt_run
granted_run-count p is_last r n last next false grant k later =
    let a : Attempt = try_request r.before_request r.stopped_fenced none r.transport in
    conclude-count p is_last r n last next (attempt_effects r.before_request none a) a.tried k
      (count-attempt_effects r.before_request none a) later
granted_run-count p is_last r n last next true none k later = omega arith
granted_run-count p is_last r n last next true (some limit) k later =
    let a : Attempt = try_request r.before_request r.stopped_fenced (some limit) r.transport in
    conclude-count p is_last r n last next (attempt_effects r.before_request (some limit) a) a.tried
      k (count-attempt_effects r.before_request (some limit) a) later

stopped_run-count :
    (stopped : Bool) (last : Option ℕ) (run : Run) (k : ℕ)
    → count is_send run.effects ≤ k
    → count is_send (stopped_run stopped last run).effects ≤ k
stopped_run-count true last run k h = omega arith
stopped_run-count false last run k h = h

attempt_loop-count :
    (p : FetchPolicy) (budgeted : Bool) (rounds : ℕ → Round) (k n : ℕ) (last : Option ℕ)
    → count is_send (attempt_loop p budgeted rounds k n last).effects ≤ k
unfolding attempt_loop
attempt_loop-count p budgeted rounds zero n last = omega arith
attempt_loop-count p budgeted rounds (suc k) n last =
    stopped_run-count (rounds n).stopped_before last _ (suc k) (
      granted_run-count p (is_zero k) (rounds n) n last _ budgeted (rounds n).grant k
        (λ status. attempt_loop-count p budgeted rounds k (n + 1) (some status)))

-- HttpClient.request sends at most one request more than the policy's retries.
pub count-request :
    (p : FetchPolicy) (budgeted : Bool) (rounds : ℕ → Round)
    → count is_send (request p budgeted rounds).effects ≤ p.max_retries + 1
unfolding request
count-request p budgeted rounds =
    let most = attempt_loop-count p budgeted rounds (suc p.max_retries) 1 none in
    omega (arith, most)
