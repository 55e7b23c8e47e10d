-- ===== src/Events/Order.antt =====
-- The order in which events/publisher.py delivers.
use chess_crawl.Prelude.{
  ℕ, zero, suc, ◌+◌, ◌≤◌, ◌≡◌, refl, sym, ap, String, subst, ◌∙◌, Bool, true, false, not, some,
  List, [], ◌∷◌, arith, take, length, Bool-cases, Option-cases, inl, inr, ==_refl, if◌then◌else◌,
  ltb, some_eq,
}
use chess_crawl.Events.{
  Event, Turn, Batch, MercureSettings, is_pending, is_target, next_pending_event, acknowledged,
  acknowledge_event, publish_turns, publish_pending, deferred, defer_event, failed_delivery,
  settle_turn, no_batch, after_delivery,
}

-- The primary key, in order.
abbrev pub IsOrdered : ℕ → List Event → Type 0
IsOrdered n [] = Unit
IsOrdered n (e ∷ es) = (n ≤ e.id) × IsOrdered (e.id + 1) es

-- The ids of what is still to be delivered, oldest first.
abbrev pub pending_ids : List Event → List ℕ
pending_ids [] = []
pending_ids (e ∷ es) = let rest = pending_ids es in if is_pending e then e.id ∷ rest else rest

abbrev pub drop {ℓ} : {A : Type ℓ} → ℕ → List A → List A
drop zero xs = xs
drop (suc n) [] = []
drop (suc n) (x ∷ xs) = drop n xs

acknowledged-other : (id now : ℕ) (e : Event) → is_target id e ≡ false → acknowledged id now e ≡ e
unfolding acknowledged
acknowledged-other id now e h = rw h refl

acknowledged-later :
    (id now n : ℕ) (es : List Event)
    → id + 1 ≤ n
    → IsOrdered n es
    → pending_ids (acknowledge_event id now es) ≡ pending_ids es
unfolding acknowledge_event
acknowledged-later id now n [] lt ordered = refl
acknowledged-later id now n (e ∷ es) lt ordered =
    let later = acknowledged-later id now (e.id + 1) es (omega (arith, lt, ordered.0)) ordered.1 in
    rw (acknowledged-other id now e (ground (arith, lt, ordered.0)))
      (ap (λ (ids : List ℕ). if is_pending e then e.id ∷ ids else ids) later)

acknowledged-target :
    (now : ℕ) (e : Event) → is_pending e ≡ true → is_pending (acknowledged e.id now e) ≡ false
unfolding acknowledged
acknowledged-target now e h = ground (arith, ==_refl e.id)

acknowledge_event-head :
    (now : ℕ) (e : Event) (es : List Event)
    → is_pending e ≡ true
    → IsOrdered (e.id + 1) es
    → pending_ids (e ∷ es) ≡ e.id ∷ pending_ids (acknowledge_event e.id now (e ∷ es))
unfolding acknowledge_event
acknowledge_event-head now e es p ordered =
    let later = acknowledged-later e.id now (e.id + 1) es (omega arith) ordered in
    rw (acknowledged-target now e p, p) (ap (λ (ids : List ℕ). e.id ∷ ids) (sym later))

-- The oldest pending event leaves the queue, and no other.
acknowledge_event-next :
    (now n : ℕ) (es : List Event) {e : Event}
    → IsOrdered n es
    → next_pending_event es ≡ some e
    → pending_ids es ≡ e.id ∷ pending_ids (acknowledge_event e.id now es)
unfolding acknowledge_event next_pending_event
acknowledge_event-next now n [] ordered h = absurd (ground (arith, h))
acknowledge_event-next now n (f ∷ es) {e} ordered h = elim (Bool-cases (is_pending f)) [
  | inl p ↦
      let found : f ≡ e = some_eq (ground (arith, h)) in
      subst
        (λ (g : Event).
          pending_ids (f ∷ es) ≡ g.id ∷ pending_ids (acknowledge_event g.id now (f ∷ es)))
        found (acknowledge_event-head now f es p ordered.1)
  | inr p ↦
      let later : next_pending_event es ≡ some e = ground (arith, h) in
      rw (acknowledged-other e.id now f (ground arith), p)
        (acknowledge_event-next now (f.id + 1) es {e = e} ordered.1 later)
]

acknowledged-id : (id now : ℕ) (e : Event) → (acknowledged id now e).id ≡ e.id
unfolding acknowledged
acknowledged-id id now e = ground arith

acknowledge_event-IsOrdered :
    (id now n : ℕ) (es : List Event) → IsOrdered n es → IsOrdered n (acknowledge_event id now es)
unfolding acknowledge_event
acknowledge_event-IsOrdered id now n [] ordered = tt
acknowledge_event-IsOrdered id now n (e ∷ es) ordered =
    rw (acknowledged-id id now e)
      (ordered.0, acknowledge_event-IsOrdered id now (e.id + 1) es ordered.1)

deferred-ids :
    (id at : ℕ) (error : String) (es : List Event)
    → pending_ids (defer_event id at error es) ≡ pending_ids es
unfolding defer_event deferred
deferred-ids id at error [] = refl
deferred-ids id at error (e ∷ es) = elim (Bool-cases (is_target id e)) [
  | inl h ↦ rw h (
      ap (λ (ids : List ℕ). if is_pending e then e.id ∷ ids else ids) (deferred-ids id at error es))
  | inr h ↦ rw h (
      ap (λ (ids : List ℕ). if is_pending e then e.id ∷ ids else ids) (deferred-ids id at error es))
]

-- What is still pending is what was, but for the first `delivered`.
pub record IsInOrder (before : List ℕ) (b : Batch) : Type 0 where
  pub left : pending_ids b.events ≡ drop b.delivered before
  pub first : b.sent ≡ take (length b.sent) before
  pub tried : length b.sent ≤ b.delivered + 1
  pub acknowledged_sent : b.delivered ≤ length b.sent

IsInOrder-none : (es : List Event) (lost : Bool) → IsInOrder (pending_ids es) (no_batch es lost)
IsInOrder-none es lost = record {
  left = refl;
  first = refl;
  tried = omega arith;
  acknowledged_sent = omega arith;
}

-- A turn that sends the oldest event and stops.
IsInOrder-one :
    (ids rest : List ℕ) (id : ℕ) (es : List Event) (lost : Bool)
    → ids ≡ id ∷ rest
    → pending_ids es ≡ ids
    → IsInOrder ids (record { events = es; delivered = 0; sent = id ∷ []; lease_lost = lost })
IsInOrder-one ids rest id es lost oldest same = record {
  left = same;
  first = ap (take 1) (sym oldest);
  tried = omega arith;
  acknowledged_sent = omega arith;
}

succ : (k : ℕ) → suc k ≡ k + 1
succ k = omega arith

IsInOrder-after :
    (id : ℕ) (rest : List ℕ) (b : Batch)
    → IsInOrder rest b
    → IsInOrder (id ∷ rest) (after_delivery id b)
IsInOrder-after id rest b h = record {
  left = h.left ∙ ap (λ (k : ℕ). drop k (id ∷ rest)) (succ b.delivered);
  first = ap (λ (ids : List ℕ). id ∷ ids) h.first;
  tried = let lt = h.tried in omega (arith, lt);
  acknowledged_sent = let lt = h.acknowledged_sent in omega (arith, lt);
}

settle_turn-IsInOrder :
    (s : MercureSettings) (t : Turn) (e : Event) (es : List Event) (ids : List ℕ) (rest : Batch)
    → pending_ids es ≡ e.id ∷ ids
    → IsInOrder ids rest
    → IsInOrder (pending_ids es) (settle_turn s t e es rest)
unfolding settle_turn failed_delivery
settle_turn-IsInOrder s t e es ids rest oldest later = elim (Bool-cases t.held_before) [
  | inr e1 ↦ rw e1 (IsInOrder-none es true)
  | inl e1 ↦ elim (Bool-cases (ltb t.now e.next_attempt_at)) [
    | inl e2 ↦ rw (e1, e2) (IsInOrder-none es false)
    | inr e2 ↦ elim (Bool-cases t.held_after) [
      | inr e3 ↦ rw (e1, e2, e3) (IsInOrder-one (pending_ids es) ids e.id es true oldest refl)
      | inl e3 ↦ elim (Bool-cases t.result.succeeded) [
        | inl e4 ↦
            rw (e1, e2, e3, e4)
              (subst (λ (all : List ℕ). IsInOrder all (after_delivery e.id rest)) (sym oldest)
                (IsInOrder-after e.id ids rest later))
        | inr e4 ↦
            rw (e1, e2, e3, e4)
              (IsInOrder-one (pending_ids es) ids e.id _ false oldest (deferred-ids e.id _ _ es))
      ]
    ]
  ]
]

publish_turns-IsInOrder :
    (s : MercureSettings) (ts : List Turn) (n : ℕ) (es : List Event)
    → IsOrdered n es
    → IsInOrder (pending_ids es) (publish_turns s ts es)
unfolding publish_turns
publish_turns-IsInOrder s [] n es ordered = IsInOrder-none es false
publish_turns-IsInOrder s (t ∷ ts) n es ordered = elim (Option-cases (next_pending_event es)) [
  | inl none_left ↦ rw (none_left, publish_turns) (IsInOrder-none es (not t.held_before))
  | inr (e, found) ↦
      let after = acknowledge_event e.id t.settled_at es in
      rw (found, publish_turns)
        (settle_turn-IsInOrder s t e es (pending_ids after) (publish_turns s ts after)
          (acknowledge_event-next t.settled_at n es ordered found)
          (publish_turns-IsInOrder s ts n after
            (acknowledge_event-IsOrdered e.id t.settled_at n es ordered)))
]

-- With events in the order of their ids, a batch of publish_pending sends and delivers in that
-- order: what it sent is the oldest pending events, at most one more than it delivered, and exactly
-- the oldest `delivered` ones are pending no longer, whatever is delayed, refused or lost.
pub publish_pending-IsInOrder :
    (s : MercureSettings) (ts : List Turn) (n : ℕ) (es : List Event) {b : Batch}
    → IsOrdered n es
    → publish_pending s ts es ≡ some b
    → IsInOrder (pending_ids es) b
unfolding publish_pending
publish_pending-IsInOrder s [] n es ordered h = cc
publish_pending-IsInOrder s (t ∷ ts) n es ordered h =
    subst (λ (b : Batch). IsInOrder (pending_ids es) b) (some_eq h)
      (publish_turns-IsInOrder s (t ∷ ts) n es ordered)
