-- ===== src/Sessions/Examples.antt =====
-- A process that opens one session and closes it twice.
use chess_crawl.Prelude.Fallible.{ok}
use chess_crawl.Prelude.{◌≡◌, refl, true, false, none, some, [], ◌∷◌, arith}
use chess_crawl.Sessions.{
  SessionPermit, Process, DatabaseAdmissionSettings, process_session_admission, acquire, release,
}
use chess_crawl.Sessions.Balance.{IsBalanced, release-IsBalanced}
use chess_crawl.Sessions.Reach.{
  here, next, registered, acquired, sessions-IsBalanced, release-again,
}

abbrev settings : DatabaseAdmissionSettings
settings = record { max_connections = 2; admission_timeout_s = 5 }

abbrev new_process : Process
new_process = record { admissions = []; permits = []; current = none }

abbrev permit : SessionPermit
permit = record { admission = 0; released = false }

abbrev one_session : Process
one_session = record {
  admissions = record { settings = settings; active = 1 } ∷ [];
  permits = permit ∷ [];
  current = some 0;
}

abbrev closed_session : Process
closed_session = record {
  admissions = record { settings = settings; active = 0 } ∷ [];
  permits = record permit { released = true } ∷ [];
  current = some 0;
}

opened : acquire 0 (process_session_admission settings new_process).0 ≡ ok (one_session, 0)
unfolding acquire process_session_admission
opened = refl

closed : release 0 one_session ≡ ok closed_session
unfolding release
closed = refl

new-IsBalanced : IsBalanced new_process
new-IsBalanced = record { counted = λ a x found. absurd (ground arith); known = tt }

one_session-IsBalanced : IsBalanced one_session
one_session-IsBalanced =
    sessions-IsBalanced new-IsBalanced
      (next (next here (registered settings)) (acquired 0 0 opened))

sessions-IsBalanced_example : IsBalanced one_session
sessions-IsBalanced_example =
    sessions-IsBalanced new-IsBalanced
      (next (next here (registered settings)) (acquired 0 0 opened))

release-IsBalanced_example : (p' : Process) × (release 0 one_session ≡ ok p') × IsBalanced p'
release-IsBalanced_example = release-IsBalanced 0 one_session permit one_session-IsBalanced refl

release-again_example : release 0 closed_session ≡ ok closed_session
release-again_example = release-again 0 one_session closed_session closed
