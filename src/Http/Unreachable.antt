-- ===== src/Http/Unreachable.antt =====
-- The end of the loop of HttpClient.request, which raises "unreachable HTTP retry state".
use chess_crawl.Prelude.{
  ℕ, zero, suc, ◌+◌, ◌≡◌, ◌≢◌, refl, subst, Bool, true, false, ◌||◌, Option, none, some, List, [],
  ◌∷◌, arith, Bool-cases, inl, inr, ltb,
}
use chess_crawl.Http.{
  Attempt, attempt_effects, Chunk, Effect, Ending, FetchPolicy, Hook, RequestOutcome, RequestError,
  Round, Run, Transport, Tried, attempt_loop, attempt_run, conclude, failed_request, granted_run,
  halted, is_final, raised, request, request_within, fenced_request, request_stopped,
  response_too_large, response_encoding, read_chunks, budgeted_request, plain_request, late_or,
  end_stream, no_response, responds, stream_ends, stream_breaks, returns, stops, fails,
  response_deadline, result, stopped_run, try_request, unreachable, hook_error,
}

abbrev is_unreachable : RequestOutcome → Bool
is_unreachable (failed_request unreachable) = true
is_unreachable _ = false

abbrev ends_loop : Tried → Bool
ends_loop (raised unreachable) = true
ends_loop _ = false

late_or-ends_loop :
    (late : Bool) (t : Tried) → ends_loop t ≡ false → ends_loop (late_or late t) ≡ false
late_or-ends_loop true t h = refl
late_or-ends_loop false t h = h

end_stream-ends_loop :
    (e : Ending) (status : ℕ) (retry_after : Option ℕ)
    → ends_loop (end_stream e status retry_after) ≡ false
end_stream-ends_loop (stream_ends late) status retry_after = late_or-ends_loop late _ refl
end_stream-ends_loop (stream_breaks late) status retry_after = late_or-ends_loop late _ refl

read_chunks-ends_loop :
    (limit status : ℕ) (retry_after : Option ℕ) (e : Ending) (received : ℕ) (cs : List Chunk)
    → ends_loop (read_chunks limit status retry_after e received cs).tried ≡ false
unfolding read_chunks
read_chunks-ends_loop limit status retry_after e received [] =
    end_stream-ends_loop e status retry_after
read_chunks-ends_loop limit status retry_after e received (c ∷ cs) =
    elim (Bool-cases c.expired_before) [
      | inl e1 ↦ rw e1 refl
      | inr e1 ↦ elim (Bool-cases (ltb limit (received + c.size))) [
        | inl e2 ↦ rw (e1, e2) refl
        | inr e2 ↦ elim (Bool-cases c.expired_after) [
          | inl e3 ↦ rw (e1, e2, e3) refl
          | inr e3 ↦
              rw (e1, e2, e3)
                (read_chunks-ends_loop limit status retry_after e (received + c.size) cs)
        ]
      ]
    ]

request_within-ends_loop :
    (limit : Option ℕ) (t : Transport) → ends_loop (request_within limit t).tried ≡ false
unfolding request_within budgeted_request plain_request
request_within-ends_loop none (no_response late) = refl
request_within-ends_loop none (responds status retry_after encoded cs (stream_ends late)) = refl
request_within-ends_loop none (responds status retry_after encoded cs (stream_breaks late)) = refl
request_within-ends_loop (some zero) t = refl
request_within-ends_loop (some (suc n)) (no_response late) = late_or-ends_loop late _ refl
request_within-ends_loop (some (suc n)) (responds status retry_after true cs e) = refl
request_within-ends_loop (some (suc n)) (responds status retry_after false cs e) =
    read_chunks-ends_loop (suc n) status retry_after e 0 cs

try_request-ends_loop :
    (hook : Hook) (stopped : Bool) (limit : Option ℕ) (t : Transport)
    → ends_loop (try_request hook stopped limit t).tried ≡ false
unfolding try_request fenced_request
try_request-ends_loop (returns _) true limit t = refl
try_request-ends_loop (returns _) false limit t = request_within-ends_loop limit t
try_request-ends_loop (stops _) stopped limit t = refl
try_request-ends_loop (fails _) stopped limit t = refl

raised-unreachable :
    (e : RequestError) → ends_loop (raised e) ≡ false → is_unreachable (failed_request e) ≡ false
raised-unreachable unreachable h = absurd (ground (arith, h))
raised-unreachable request_stopped h = refl
raised-unreachable response_too_large h = refl
raised-unreachable response_deadline h = refl
raised-unreachable response_encoding h = refl
raised-unreachable hook_error h = refl

-- Only a turn that is not the last one goes on.
conclude-unreachable :
    (p : FetchPolicy) (is_last : Bool) (r : Round) (n : ℕ) (last : Option ℕ) (next : ℕ → Run)
    → (es : List Effect) (t : Tried) → ends_loop t ≡ false
    → (is_last ≡ false → (status : ℕ) → is_unreachable (next status).outcome ≡ false)
    → is_unreachable (conclude p is_last r n last next es t).outcome ≡ false
unfolding conclude
conclude-unreachable p is_last r n none next es halted h later = refl
conclude-unreachable p is_last r n (some s) next es halted h later = refl
conclude-unreachable p is_last r n last next es (raised e) h later = raised-unreachable e h
conclude-unreachable p is_last r n last next es (result status retry_after) h later =
    elim (Bool-cases (is_final status)) [
      | inl e1 ↦ rw e1 refl
      | inr e1 ↦ elim (Bool-cases (is_last || r.stopped_after)) [
        | inl e2 ↦ rw (e1, e2) refl
        | inr e2 ↦ elim (Bool-cases r.stopped_slept) [
          | inl e3 ↦ rw (e1, e2, e3) refl
          | inr e3 ↦ rw (e1, e2, e3) (later (ground (arith, e2)) status)
        ]
      ]
    ]

granted_run-unreachable :
    (p : FetchPolicy) (is_last : Bool) (r : Round) (n : ℕ) (last : Option ℕ) (next : ℕ → Run)
    → (budgeted : Bool) (grant : Option ℕ)
    → (is_last ≡ false → (status : ℕ) → is_unreachable (next status).outcome ≡ false)
    → is_unreachable (granted_run p is_last r n last next budgeted grant).outcome ≡ false
unfolding granted_run attempt_run
granted_run-unreachable p is_last r n last next false grant later =
    let a : Attempt = try_request r.before_request r.stopped_fenced none r.transport in
    conclude-unreachable p is_last r n last next (attempt_effects r.before_request none a) a.tried
      (try_request-ends_loop r.before_request r.stopped_fenced none r.transport) later
granted_run-unreachable p is_last r n last next true none later = refl
granted_run-unreachable p is_last r n last next true (some limit) later =
    let a : Attempt = try_request r.before_request r.stopped_fenced (some limit) r.transport in
    conclude-unreachable p is_last r n last next (attempt_effects r.before_request (some limit) a)
      a.tried (try_request-ends_loop r.before_request r.stopped_fenced (some limit) r.transport)
      later

stopped_run-unreachable :
    (stopped : Bool) (last : Option ℕ) (run : Run)
    → is_unreachable run.outcome ≡ false
    → is_unreachable (stopped_run stopped last run).outcome ≡ false
stopped_run-unreachable true none run h = refl
stopped_run-unreachable true (some s) run h = refl
stopped_run-unreachable false last run h = h

attempt_loop-unreachable :
    (p : FetchPolicy) (budgeted : Bool) (rounds : ℕ → Round) (k n : ℕ) (last : Option ℕ)
    → is_unreachable (attempt_loop p budgeted rounds (suc k) n last).outcome ≡ false
unfolding attempt_loop
attempt_loop-unreachable p budgeted rounds zero n last =
    stopped_run-unreachable (rounds n).stopped_before last _ (
      granted_run-unreachable p true (rounds n) n last
        (λ status. attempt_loop p budgeted rounds zero (n + 1) (some status)) budgeted
        (rounds n).grant (λ more. absurd (ground (arith, more))))
attempt_loop-unreachable p budgeted rounds (suc k) n last =
    stopped_run-unreachable (rounds n).stopped_before last _ (
      granted_run-unreachable p false (rounds n) n last _ budgeted (rounds n).grant
        (λ more status. attempt_loop-unreachable p budgeted rounds k (n + 1) (some status)))

-- The loop of HttpClient.request returns or raises within its attempts: it never reaches the error
-- behind it.
pub request-ne-unreachable :
    (p : FetchPolicy) (budgeted : Bool) (rounds : ℕ → Round)
    → (request p budgeted rounds).outcome ≢ failed_request unreachable
unfolding request
request-ne-unreachable p budgeted rounds = λ h.
    let reached : is_unreachable (failed_request unreachable) ≡ false =
      subst (λ (o : RequestOutcome). is_unreachable o ≡ false) h
        (attempt_loop-unreachable p budgeted rounds p.max_retries 1 none) in
    absurd (ground (arith, reached))
