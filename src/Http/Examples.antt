-- ===== src/Http/Examples.antt =====
-- Two attempts within a budget: a 503, then a body that is larger than the second grant.
use chess_crawl.Prelude.{
  ℕ, zero, suc, ◌+◌, ◌≤◌, ◌≡◌, ◌≢◌, refl, true, false, none, some, List, [], ◌∷◌, count,
}
use chess_crawl.Http.{
  Chunk, FetchPolicy, DeadlineReading, before_provider_request, wait, Round, responds, stream_ends,
  reserve, send, settle, persist, sleep, request, failed_request, response_too_large, unreachable,
}
use chess_crawl.Http.Settled.{is_settled_run, request-is_settled_run}
use chess_crawl.Http.Bounded.{is_send, count-request}
use chess_crawl.Http.Unreachable.{request-ne-unreachable}

abbrev policy : FetchPolicy
policy = record {
  min_delay_s = 1;
  honor_retry_after = true;
  fixed_429_backoff_s = none;
  max_retries = 2;
}

-- The deadline of the provider is extended once while the hook waits for it.
abbrev readings : List DeadlineReading
readings =
    record { ready = some 105; clock = 100 }
    ∷ record { ready = some 107; clock = 105 }
    ∷ record { ready = some 107; clock = 107 }
    ∷ []

abbrev round_of : ℕ → List Chunk → Round
round_of status chunks = record {
  stopped_before = false;
  grant = some 100;
  before_request = before_provider_request readings;
  stopped_fenced = false;
  transport = responds status none false chunks (stream_ends false);
  stopped_after = false;
  stopped_slept = false;
}

abbrev chunk : Chunk
chunk = record { expired_before = false; size = 60; expired_after = false }

abbrev rounds : ℕ → Round
rounds zero = round_of 200 []
rounds (suc zero) = round_of 503 []
rounds (suc (suc n)) = round_of 200 (chunk ∷ chunk ∷ [])

-- The retry waits a second; the second body is cut off at its second slice.
requested : request policy true rounds ≡ record {
  outcome = failed_request response_too_large;
  effects =
      reserve 100
      ∷ wait 5
      ∷ wait 2
      ∷ send
      ∷ settle 0
      ∷ persist 1
      ∷ sleep 1
      ∷ reserve 100
      ∷ wait 5
      ∷ wait 2
      ∷ send
      ∷ settle 120
      ∷ [];
}
unfolding request before_provider_request
requested = refl

request-is_settled_run_example :
    is_settled_run true false (request policy true rounds).effects ≡ true
request-is_settled_run_example = request-is_settled_run policy true rounds

count-request_example : count is_send (request policy true rounds).effects ≤ policy.max_retries + 1
count-request_example = count-request policy true rounds

request-ne-unreachable_example : (request policy true rounds).outcome ≢ failed_request unreachable
request-ne-unreachable_example = request-ne-unreachable policy true rounds
