-- ===== src/Http.antt =====
-- The requests of a provider client: HttpClient.request of providers/http.py, and the delays of
-- FetchPolicy in providers/base.py. What an attempt meets (the budget, the fence, the transport, the
-- clock and the stop signal) is a parameter; times are in whole seconds. Of a result only the status
-- is kept. `budgeted` is whether reserve_request and finish_request are configured.
pub mod Settled
pub mod Bounded
pub mod Unreachable
pub mod Examples
use chess_crawl.Prelude.{
  ℕ, zero, suc, ◌+◌, ◌-◌, ◌*◌, ◌^◌, max, Bool, true, false, not, ◌&&◌, ◌||◌, Option, none, some,
  List, [], ◌∷◌, ◌++◌, ◌==◌, ltb, leb, if◌then◌else◌, coalesce,
}

pub record FetchPolicy : Type 0 where
  pub min_delay_s : ℕ
  pub honor_retry_after : Bool
  pub fixed_429_backoff_s : Option ℕ
  pub max_retries : ℕ

-- next_delay of FetchPolicy, for 429.
unfoldable pub next_delay : FetchPolicy → Option ℕ → ℕ
next_delay p retry_after = elim p.fixed_429_backoff_s [
  | some fixed ↦ max fixed (coalesce retry_after 0)
  | none ↦ elim retry_after [
    | none ↦ p.min_delay_s
    | some after ↦ if p.honor_retry_after then max p.min_delay_s after else p.min_delay_s
  ]
]

-- _retry_delay; the first attempt is number 1.
unfoldable pub retry_delay_s : FetchPolicy → ℕ → Option ℕ → ℕ → ℕ
unfolding next_delay
retry_delay_s p status retry_after attempt =
    if status == 429
    then next_delay p retry_after
    else max (max p.min_delay_s 1 * 2 ^ (attempt - 1)) (coalesce retry_after 0)

pub data RequestError : Type 0 where
  request_stopped response_too_large response_deadline response_encoding : RequestError
  hook_error unreachable : RequestError  -- what a hook raises, and the end of the loop

-- before_request, with the waits that it makes: it returns, raises ProviderRequestStopped, or raises
-- something else.
pub data Hook : Type 0 where
  returns stops fails : List ℕ → Hook

-- The shared deadline of the provider, as provider_ready_at reads it, and the clock.
pub record DeadlineReading : Type 0 where
  pub ready : Option ℕ
  pub clock : ℕ

abbrev pub waits_first : ℕ → Hook → Hook
waits_first n (returns ns) = returns (n ∷ ns)
waits_first n (stops ns) = stops (n ∷ ns)
waits_first n (fails ns) = fails (n ∷ ns)

-- _before_provider_request of jobs/runner.py, which the runner configures as the hook: what its
-- turns read until a stop is requested, where no read raises. It waits inside the attempt, whose reservation is held.
unfoldable pub before_provider_request : List DeadlineReading → Hook
before_provider_request [] = stops []
before_provider_request (r ∷ rs) =
    let rest = before_provider_request rs in
    let deadline : ℕ = coalesce r.ready 0 in
    if leb deadline r.clock then returns [] else waits_first (deadline - r.clock) rest

-- A slice that _bounded_response_chunks yields, with the deadline before and after it is read.
pub record Chunk : Type 0 where
  pub expired_before : Bool
  pub size : ℕ
  pub expired_after : Bool

pub data Ending : Type 0 where
  stream_ends : Bool → Ending  -- whether the deadline has passed then
  stream_breaks : Bool → Ending  -- an httpx.RequestError

-- What the transport does with a request.
pub data Transport : Type 0 where
  no_response : Bool → Transport  -- an httpx.RequestError, and whether the deadline has passed
  responds : ℕ → Option ℕ → Bool → List Chunk → Ending → Transport

-- What one turn of the loop meets; the budget's grant, or nothing where it raises.
pub record Round : Type 0 where
  pub stopped_before : Bool
  pub grant : Option ℕ
  pub before_request : Hook
  pub stopped_fenced : Bool
  pub transport : Transport
  pub stopped_after : Bool
  pub stopped_slept : Bool

pub data Effect : Type 0 where
  reserve : ℕ → Effect
  send : Effect
  settle : ℕ → Effect
  wait : ℕ → Effect  -- a wait of before_request
  sleep : ℕ → Effect
  persist : ℕ → Effect  -- persist_deadline, as the delay from the clock

-- What the `try` of an attempt ends with: a result of a status, or an error that leaves the loop.
pub data Tried : Type 0 where
  result : ℕ → Option ℕ → Tried
  halted : Tried  -- ProviderRequestStopped
  raised : RequestError → Tried

-- The bytes received, whether a request was sent, and how the attempt ended.
pub record Attempt : Type 0 where
  pub received : ℕ
  pub sent : Bool
  pub tried : Tried

abbrev pub late_or : Bool → Tried → Tried
late_or true t = raised response_deadline
late_or false t = t

abbrev pub end_stream : Ending → ℕ → Option ℕ → Tried
end_stream (stream_ends late) status retry_after = late_or late (result status retry_after)
end_stream (stream_breaks late) status retry_after = late_or late (result 0 none)

-- The reading loop, within the granted limit.
unfoldable pub read_chunks : ℕ → ℕ → Option ℕ → Ending → ℕ → List Chunk → Attempt
read_chunks limit status retry_after ending received [] = record {
  received = received;
  sent = true;
  tried = end_stream ending status retry_after;
}
read_chunks limit status retry_after ending received (c ∷ cs) =
    let rest = read_chunks limit status retry_after ending (received + c.size) cs in
    if c.expired_before
    then record { received = received; sent = true; tried = raised response_deadline }
    else if ltb limit (received + c.size)
    then record { received = received + c.size; sent = true; tried = raised response_too_large }
    else if c.expired_after
    then record { received = received + c.size; sent = true; tried = raised response_deadline }
    else rest

-- A request within a budget. `true` is an encoding other than identity.
unfoldable pub budgeted_request : ℕ → Transport → Attempt
unfolding read_chunks
budgeted_request zero t = record { received = 0; sent = false; tried = raised response_too_large }
budgeted_request (suc limit) (no_response late) = record {
  received = 0;
  sent = true;
  tried = late_or late (result 0 none);
}
budgeted_request (suc limit) (responds status retry_after true chunks ending) = record {
  received = 0;
  sent = true;
  tried = raised response_encoding;
}
budgeted_request (suc limit) (responds status retry_after false chunks ending) =
    read_chunks (suc limit) status retry_after ending 0 chunks

-- Without a budget the body is read by the transport; an error of it is a result of status 0.
unfoldable pub plain_request : Transport → Attempt
plain_request (no_response late) = record { received = 0; sent = true; tried = result 0 none }
plain_request (responds status retry_after encoded chunks (stream_ends late)) = record {
  received = 0;
  sent = true;
  tried = result status retry_after;
}
plain_request (responds status retry_after encoded chunks (stream_breaks late)) = record {
  received = 0;
  sent = true;
  tried = result 0 none;
}

abbrev pub request_within : Option ℕ → Transport → Attempt
unfolding budgeted_request plain_request
request_within none t = plain_request t
request_within (some limit) t = budgeted_request limit t

abbrev pub unsent : Tried → Attempt
unsent t = record { received = 0; sent = false; tried = t }

abbrev pub fenced_request : Bool → Option ℕ → Transport → Attempt
unfolding request_within
fenced_request true limit t = unsent halted
fenced_request false limit t = request_within limit t

-- The `try` of one attempt.
unfoldable pub try_request : Hook → Bool → Option ℕ → Transport → Attempt
unfolding fenced_request
try_request (returns _) stopped limit t = fenced_request stopped limit t
try_request (stops _) stopped limit t = unsent halted
try_request (fails _) stopped limit t = unsent (raised hook_error)

-- status not in {0, 429} and not 500 <= status <= 599
unfoldable pub is_final : ℕ → Bool
is_final status = not (status == 0 || status == 429) && not (leb 500 status && leb status 599)

-- The status that is returned, or the error; and what was done, in order.
pub data RequestOutcome : Type 0 where
  returned : ℕ → RequestOutcome
  failed_request : RequestError → RequestOutcome

pub record Run : Type 0 where
  pub outcome : RequestOutcome
  pub effects : List Effect

-- `if last_result is not None: return last_result`, else ProviderRequestStopped.
abbrev pub last_or_stopped : Option ℕ → RequestOutcome
last_or_stopped none = failed_request request_stopped
last_or_stopped (some status) = returned status

abbrev pub after : List Effect → Run → Run
after es r = record { outcome = r.outcome; effects = es ++ r.effects }

abbrev pub ends : RequestOutcome → List Effect → Run
ends o es = record { outcome = o; effects = es }

abbrev pub wait_each : List ℕ → List Effect
wait_each [] = []
wait_each (n ∷ ns) = wait n ∷ wait_each ns

abbrev pub hook_effects : Hook → List Effect
hook_effects (returns ns) = wait_each ns
hook_effects (stops ns) = wait_each ns
hook_effects (fails ns) = wait_each ns

-- What an attempt does: the reservation, the waits of the hook, the request, if it is sent, and the
-- settlement.
abbrev pub attempt_effects : Hook → Option ℕ → Attempt → List Effect
attempt_effects hook none a = hook_effects hook ++ (if a.sent then send ∷ [] else [])
attempt_effects hook (some limit) a =
    reserve limit ∷ hook_effects hook
    ++ (if a.sent then send ∷ settle a.received ∷ [] else settle a.received ∷ [])

-- What follows an attempt. `next` is the rest of the loop, after a result of that status.
unfoldable pub conclude :
    FetchPolicy → Bool → Round → ℕ → Option ℕ → (ℕ → Run) → List Effect → Tried → Run
unfolding is_final retry_delay_s
conclude p is_last r n last next es halted = ends (last_or_stopped last) es
conclude p is_last r n last next es (raised e) = ends (failed_request e) es
conclude p is_last r n last next es (result status retry_after) =
    let delay : ℕ = retry_delay_s p status retry_after n in
    let rest : Run = next status in
    if is_final status
    then ends (returned status) (es ++ persist p.min_delay_s ∷ [])
    else if is_last || r.stopped_after
    then ends (returned status) (es ++ persist delay ∷ [])
    else if r.stopped_slept
    then ends (returned status) (es ++ persist delay ∷ sleep delay ∷ [])
    else after (es ++ persist delay ∷ sleep delay ∷ []) rest

unfoldable pub attempt_run : FetchPolicy → Bool → Round → ℕ → Option ℕ → (ℕ → Run) → Option ℕ → Run
unfolding try_request conclude
attempt_run p is_last r n last next limit =
    let a : Attempt = try_request r.before_request r.stopped_fenced limit r.transport in
    conclude p is_last r n last next (attempt_effects r.before_request limit a) a.tried

-- reserve_request, which is outside the `try`.
unfoldable pub granted_run :
    FetchPolicy → Bool → Round → ℕ → Option ℕ → (ℕ → Run) → Bool → Option ℕ → Run
unfolding attempt_run
granted_run p is_last r n last next false grant = attempt_run p is_last r n last next none
granted_run p is_last r n last next true none = ends (failed_request hook_error) []
granted_run p is_last r n last next true (some limit) =
    attempt_run p is_last r n last next (some limit)

abbrev pub is_zero : ℕ → Bool
is_zero zero = true
is_zero (suc k) = false

abbrev pub stopped_run : Bool → Option ℕ → Run → Run
stopped_run true last run = ends (last_or_stopped last) []
stopped_run false last run = run

-- The turns of the loop that are left, from attempt n on. The pacing before a turn,
-- _respect_serial_delay, and the hooks that are not configured are part of what the turn meets.
unfoldable pub attempt_loop : FetchPolicy → Bool → (ℕ → Round) → ℕ → ℕ → Option ℕ → Run
unfolding granted_run
attempt_loop p budgeted rounds zero n last = ends (failed_request unreachable) []
attempt_loop p budgeted rounds (suc k) n last =
    let next : ℕ → Run = λ status. attempt_loop p budgeted rounds k (n + 1) (some status) in
    stopped_run (rounds n).stopped_before last
      (granted_run p (is_zero k) (rounds n) n last next budgeted (rounds n).grant)

-- HttpClient.request
unfoldable pub request : FetchPolicy → Bool → (ℕ → Round) → Run
unfolding attempt_loop
request p budgeted rounds = attempt_loop p budgeted rounds (suc p.max_retries) 1 none
