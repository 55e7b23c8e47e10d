-- ===== src/Workers/Examples.antt =====
-- One worker that started at 0, and is stopped at 40.
use chess_crawl.Prelude.{◌+◌, ◌<◌, ◌≡◌, String, Bool, true, false, none, some, List, [], ◌∷◌, arith}
use chess_crawl.Workers.{
  Heartbeat, running, start_worker, heartbeat_worker, stop_worker, worker_alive,
}
use chess_crawl.Workers.Liveness.{heartbeat_worker-stopped, start_worker-alive}

abbrev before : String → String → Bool
before a b = false

abbrev row_locked : String → Bool
row_locked id = false

abbrev one_worker : List Heartbeat
one_worker =
    record {
      worker_id = "w1";
      started_at = 0;
      heartbeat_at = 30;
      heartbeat_expires_at = 50;
      stopped_at = none;
      current_job_id = some 4;
      status = running;
    }
    ∷ []

heartbeat_worker-stopped_example :
    let late =
      heartbeat_worker before row_locked "w1" 20 none false 41
        (stop_worker before row_locked "w1" false 40 one_worker) in
    (late.1 ≡ false) × (worker_alive "w1" 45 late.0 ≡ false)
heartbeat_worker-stopped_example =
    heartbeat_worker-stopped before row_locked "w1" false 40 20 none false 41 45 one_worker

soon : 60 < 50 + 20
soon = omega arith

start_worker-alive_example :
    worker_alive "w1" 60 (start_worker before row_locked "w1" 20 50 one_worker) ≡ true
start_worker-alive_example = start_worker-alive before row_locked "w1" 20 50 60 one_worker soon
