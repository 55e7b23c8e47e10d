-- ===== src/Events.antt =====
-- The event outbox of storage/events.py, and the publisher of events/publisher.py with the delays of
-- events/mercure.py. The hub's answer is a parameter of each turn; times are in units of the clock.
pub mod Order
pub mod Examples
use chess_crawl.Prelude.{
  ℕ, ◌+◌, ◌-◌, ◌*◌, ◌^◌, min, max, String, Bool, true, false, not, ◌&&◌, ◌||◌, Option, none, some,
  List, [], ◌∷◌, map, ◌==◌, ltb, leb, if◌then◌else◌, find, select, take, any, length, sort_by,
  coalesce,
}

-- A row of event_outbox: what its delivery reads and writes.
pub record Event : Type 0 where
  pub id : ℕ
  pub occurred_at : ℕ
  pub attempts : ℕ
  pub next_attempt_at : ℕ
  pub delivered_at : Option ℕ
  pub last_error : Option String

abbrev pub is_pending : Event → Bool
is_pending e = elim e.delivered_at [ none ↦ true | some at ↦ false ]

-- next_pending_event; the rows are in the order of their ids.
unfoldable pub next_pending_event : List Event → Option Event
next_pending_event = find is_pending

abbrev pub is_target : ℕ → Event → Bool
is_target id e = e.id == id && is_pending e

unfoldable pub acknowledged : ℕ → ℕ → Event → Event
acknowledged id now e =
    if is_target id e
    then record e { delivered_at = some now; attempts = e.attempts + 1; last_error = none }
    else e

unfoldable pub acknowledge_event : ℕ → ℕ → List Event → List Event
unfolding acknowledged
acknowledge_event id now = map (acknowledged id now)

unfoldable pub deferred : ℕ → ℕ → String → Event → Event
deferred id next_attempt_at error e =
    if is_target id e
    then record e {
      attempts = e.attempts + 1;
      next_attempt_at = next_attempt_at;
      last_error = some error;
    }
    else e

unfoldable pub defer_event : ℕ → ℕ → String → List Event → List Event
unfolding deferred
defer_event id next_attempt_at error = map (deferred id next_attempt_at error)

pub record DeliveryResult : Type 0 where
  pub succeeded : Bool
  pub error : Option String
  pub retry_after_s : Option ℕ

pub record MercureSettings : Type 0 where
  pub retry_base_s : ℕ
  pub retry_max_s : ℕ

-- retry_delay of MercurePublisher
unfoldable pub event_retry_delay : MercureSettings → ℕ → Option ℕ → ℕ
event_retry_delay s attempts retry_after =
    max (min s.retry_max_s (s.retry_base_s * 2 ^ min attempts 30)) (coalesce retry_after 0)

-- One turn of publish_pending: what the lease, the clock and the hub give in it.
pub record Turn : Type 0 where
  pub held_before : Bool
  pub now : ℕ
  pub result : DeliveryResult
  pub held_after : Bool
  pub settled_at : ℕ

-- What has been published, in order, and whether the loop ended by a lease that was lost.
pub record Batch : Type 0 where
  pub events : List Event
  pub delivered : ℕ
  pub sent : List ℕ
  pub lease_lost : Bool

abbrev pub no_batch : List Event → Bool → Batch
no_batch events lost = record { events = events; delivered = 0; sent = []; lease_lost = lost }

abbrev pub after_delivery : ℕ → Batch → Batch
after_delivery id b = record b { delivered = b.delivered + 1; sent = id ∷ b.sent }

abbrev pub failed_delivery : MercureSettings → Turn → Event → List Event → List Event
unfolding defer_event event_retry_delay
failed_delivery s t e events =
    defer_event e.id (t.settled_at + event_retry_delay s e.attempts t.result.retry_after_s)
      (coalesce t.result.error "delivery_error") events

-- What a turn makes of the oldest event, before the turns that follow a delivery.
unfoldable pub settle_turn : MercureSettings → Turn → Event → List Event → Batch → Batch
unfolding failed_delivery
settle_turn s t e events rest =
    if not t.held_before
    then no_batch events true
    else if ltb t.now e.next_attempt_at
    then no_batch events false
    else if not t.held_after
    then record { events = events; delivered = 0; sent = e.id ∷ []; lease_lost = true }
    else if t.result.succeeded
    then after_delivery e.id rest
    else record {
      events = failed_delivery s t e events;
      delivered = 0;
      sent = e.id ∷ [];
      lease_lost = false;
    }

-- The loop of publish_pending; the list has as many turns as `limit`.
unfoldable pub publish_turns : MercureSettings → List Turn → List Event → Batch
unfolding next_pending_event acknowledge_event settle_turn
publish_turns s [] events = no_batch events false
publish_turns s (t ∷ ts) events = elim (next_pending_event events) [
  | none ↦ no_batch events (not t.held_before)
  | some e ↦
      let rest : Batch = publish_turns s ts (acknowledge_event e.id t.settled_at events) in
      settle_turn s t e events rest
]

-- ValueError where `limit < 1`.
unfoldable pub publish_pending : MercureSettings → List Turn → List Event → Option Batch
unfolding publish_turns
publish_pending s [] events = none
publish_pending s (t ∷ ts) events = some (publish_turns s (t ∷ ts) events)

pub record Health : Type 0 where
  pub pending : ℕ
  pub oldest_pending_at : Option ℕ
  pub highest_attempts : Option ℕ

abbrev pub least : List ℕ → Option ℕ
least [] = none
least (n ∷ ns) = elim (least ns) [ none ↦ some n | some m ↦ some (min n m) ]

abbrev pub greatest : List ℕ → Option ℕ
greatest [] = none
greatest (n ∷ ns) = elim (greatest ns) [ none ↦ some n | some m ↦ some (max n m) ]

unfoldable pub delivery_health : List Event → Health
delivery_health events =
    let pending = select is_pending events in
    record {
      pending = length pending;
      oldest_pending_at = least (map (λ (e : Event). e.occurred_at) pending);
      highest_attempts = greatest (map (λ (e : Event). e.attempts) pending);
    }

abbrev pub before_cutoff : ℕ → Option ℕ → Bool
before_cutoff cutoff none = false
before_cutoff cutoff (some at) = ltb at cutoff

abbrev pub delivered_first : Event → Event → Bool
delivered_first d e = elim d.delivered_at [
  | none ↦ false
  | some a ↦ elim e.delivered_at [ none ↦ true | some b ↦ ltb a b || (a == b && ltb d.id e.id) ]
]

abbrev pub occurred_first : Event → Event → Bool
occurred_first d e =
    ltb d.occurred_at e.occurred_at || (d.occurred_at == e.occurred_at && ltb d.id e.id)

abbrev pub without : List Event → List Event → List Event
without gone events = select (λ (e : Event). not (any (λ (g : Event). g.id == e.id) gone)) events

unfoldable pub delivered_batch : (ℕ → Bool) → ℕ → ℕ → List Event → List Event
delivered_batch row_locked cutoff limit events = take limit (
    sort_by delivered_first
      (select (λ (e : Event). before_cutoff cutoff e.delivered_at && not (row_locked e.id)) events))

-- No second DELETE where there is no cutoff.
unfoldable pub pending_batch : (ℕ → Bool) → Option ℕ → ℕ → List Event → List Event
pending_batch row_locked none limit events = []
pending_batch row_locked (some cutoff) limit events = take limit (
    sort_by occurred_first (
      select (λ (e : Event). is_pending e && ltb e.occurred_at cutoff && not (row_locked e.id))
        events))

-- prune_events, by a session that owns event delivery; none where a check raises.
unfoldable pub prune_events :
    (ℕ → Bool) → Bool → ℕ → Option ℕ → ℕ → List Event → Option (List Event × ℕ × ℕ)
unfolding delivered_batch pending_batch
prune_events row_locked owns delivered_before discard_before limit events =
    let removed = delivered_batch row_locked delivered_before limit events in
    let left = without removed events in
    let pending = pending_batch row_locked discard_before (limit - length removed) left in
    if leb 1 limit && leb limit 10000 && owns
    then some (without pending left, length removed, length pending)
    else none
