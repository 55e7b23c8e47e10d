-- ===== src/Events/Examples.antt =====
-- Two pending events behind one that was delivered: the first goes out, the second is refused.
use chess_crawl.Prelude.{◌≡◌, refl, true, false, none, some, List, [], ◌∷◌, arith, Option}
use chess_crawl.Events.{Event, Turn, Batch, MercureSettings, publish_pending}
use chess_crawl.Events.Order.{IsInOrder, pending_ids, publish_pending-IsInOrder}

abbrev done_event : Event
done_event = record {
  id = 1;
  occurred_at = 10;
  attempts = 1;
  next_attempt_at = 0;
  delivered_at = some 11;
  last_error = none;
}

abbrev events : List Event
events =
    done_event
    ∷ record done_event { id = 2; attempts = 0; delivered_at = none }
    ∷ record done_event { id = 3; attempts = 0; delivered_at = none }
    ∷ []

abbrev settings : MercureSettings
settings = record { retry_base_s = 1; retry_max_s = 300 }

abbrev accepted_turn : Turn
accepted_turn = record {
  held_before = true;
  now = 20;
  result = record { succeeded = true; error = none; retry_after_s = none };
  held_after = true;
  settled_at = 21;
}

abbrev refused_turn : Turn
refused_turn = record accepted_turn {
  result = record { succeeded = false; error = some "http_503"; retry_after_s = some 7 };
}

abbrev turns : List Turn
turns = accepted_turn ∷ refused_turn ∷ accepted_turn ∷ []

abbrev or_empty : Option Batch → Batch
or_empty none = record { events = []; delivered = 0; sent = []; lease_lost = false }
or_empty (some b) = b

abbrev published : Batch
published = or_empty (publish_pending settings turns events)

-- The third turn is not reached.
published_sent : (published.sent ≡ 2 ∷ 3 ∷ []) × (published.delivered ≡ 1)
unfolding publish_pending
published_sent = (refl, refl)

publish_pending-IsInOrder_example : IsInOrder (pending_ids events) published
unfolding publish_pending
publish_pending-IsInOrder_example =
    publish_pending-IsInOrder settings turns 1 events {b = published}
      (omega arith, (omega arith, (omega arith, tt))) refl
