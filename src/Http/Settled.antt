-- ===== src/Http/Settled.antt =====
-- The attempts of HttpClient.request and the reservations that they settle.
use mathlib.Core.List.{append_assoc, append-nil}
use chess_crawl.Prelude.{
  ℕ, zero, suc, ◌+◌, ◌≡◌, refl, sym, subst, Bool, true, false, not, ◌&&◌, ◌||◌, Option, none, some,
  List, [], ◌∷◌, ◌++◌, if◌then◌else◌, Bool-cases, inl, inr,
}
use chess_crawl.Http.{
  Attempt, Effect, FetchPolicy, Round, Run, Tried, attempt_effects, attempt_loop, attempt_run,
  conclude, granted_run, halted, is_final, is_zero, persist, raised, request, reserve, result, send,
  settle, sleep, wait, wait_each, hook_effects, Hook, returns, stops, fails, stopped_run,
  try_request, retry_delay_s,
}

abbrev same_bool : Bool → Bool → Bool
same_bool true b = b
same_bool false b = not b

-- Every reservation is settled, once, before anything else is reserved, persisted or slept for; only
-- the hook waits under it. A request within a budget is sent only under a reservation. The second
-- argument is whether one is held.
unfoldable pub is_settled_run : Bool → Bool → List Effect → Bool
is_settled_run budgeted held [] = not held
is_settled_run budgeted held (reserve n ∷ es) = not held && is_settled_run budgeted true es
is_settled_run budgeted held (send ∷ es) =
    same_bool budgeted held && is_settled_run budgeted held es
is_settled_run budgeted held (settle n ∷ es) = held && is_settled_run budgeted false es
is_settled_run budgeted held (wait n ∷ es) = is_settled_run budgeted held es
is_settled_run budgeted held (sleep n ∷ es) = not held && is_settled_run budgeted held es
is_settled_run budgeted held (persist n ∷ es) = not held && is_settled_run budgeted held es

-- The reservation that an attempt holds, or none where there is no budget.
abbrev has_limit : Option ℕ → Bool
has_limit none = false
has_limit (some n) = true

wait_each-settled :
    (budgeted held : Bool) (ns : List ℕ) (es : List Effect)
    → is_settled_run budgeted held es ≡ true
    → is_settled_run budgeted held (wait_each ns ++ es) ≡ true
unfolding is_settled_run
wait_each-settled budgeted held [] es h = h
wait_each-settled budgeted held (n ∷ ns) es h = wait_each-settled budgeted held ns es h

hook_effects-settled :
    (budgeted held : Bool) (hook : Hook) (es : List Effect)
    → is_settled_run budgeted held es ≡ true
    → is_settled_run budgeted held (hook_effects hook ++ es) ≡ true
hook_effects-settled budgeted held (returns ns) es h = wait_each-settled budgeted held ns es h
hook_effects-settled budgeted held (stops ns) es h = wait_each-settled budgeted held ns es h
hook_effects-settled budgeted held (fails ns) es h = wait_each-settled budgeted held ns es h

attempt_effects-settled :
    (hook : Hook) (limit : Option ℕ) (a : Attempt) (es : List Effect)
    → is_settled_run (has_limit limit) false es ≡ true
    → is_settled_run (has_limit limit) false (attempt_effects hook limit a ++ es) ≡ true
unfolding is_settled_run
attempt_effects-settled hook none a es h =
    let tail : List Effect = if a.sent then send ∷ [] else [] in
    subst (λ (fs : List Effect). is_settled_run false false fs ≡ true)
      (sym (append_assoc (hook_effects hook) tail es))
      (hook_effects-settled false false hook (tail ++ es)
        (elim (Bool-cases a.sent) [ inl e ↦ rw e h | inr e ↦ rw e h ]))
attempt_effects-settled hook (some n) a es h =
    let tail : List Effect =
      if a.sent then send ∷ settle a.received ∷ [] else settle a.received ∷ [] in
    subst (λ (fs : List Effect). is_settled_run true true fs ≡ true)
      (sym (append_assoc (hook_effects hook) tail es))
      (hook_effects-settled true true hook (tail ++ es)
        (elim (Bool-cases a.sent) [ inl e ↦ rw e h | inr e ↦ rw e h ]))

module _ (budgeted : Bool) where
  abbrev Settled : Run → Type 0
  Settled r = is_settled_run budgeted false r.effects ≡ true

  -- The effects of the attempt, ahead of what follows it.
  abbrev Leads : List Effect → Type 0
  Leads es =
      (fs : List Effect)
      → is_settled_run budgeted false fs ≡ true
      → is_settled_run budgeted false (es ++ fs) ≡ true

  Leads-end : (es : List Effect) → Leads es → is_settled_run budgeted false es ≡ true
  unfolding is_settled_run
  Leads-end es lead =
      subst (λ (fs : List Effect). is_settled_run budgeted false fs ≡ true) (append-nil es)
        (lead [] refl)

  conclude-Settled :
      (p : FetchPolicy) (is_last : Bool) (r : Round) (n : ℕ) (last : Option ℕ) (next : ℕ → Run)
      → (es : List Effect) (t : Tried) → Leads es
      → ((status : ℕ) → Settled (next status))
      → Settled (conclude p is_last r n last next es t)
  unfolding conclude is_settled_run
  conclude-Settled p is_last r n last next es halted lead later = Leads-end es lead
  conclude-Settled p is_last r n last next es (raised e) lead later = Leads-end es lead
  conclude-Settled p is_last r n last next es (result status retry_after) lead later =
      elim (Bool-cases (is_final status)) [
        | inl e1 ↦ rw e1 (lead _ refl)
        | inr e1 ↦ elim (Bool-cases (is_last || r.stopped_after)) [
          | inl e2 ↦ rw (e1, e2) (lead _ refl)
          | inr e2 ↦ elim (Bool-cases r.stopped_slept) [
            | inl e3 ↦ rw (e1, e2, e3) (lead _ refl)
            | inr e3 ↦
                let delay : ℕ = retry_delay_s p status retry_after n in
                rw (e1, e2, e3)
                  (subst (λ (fs : List Effect). is_settled_run budgeted false fs ≡ true)
                    (sym (append_assoc es (persist delay ∷ sleep delay ∷ []) (next status).effects))
                    (lead _ (later status)))
          ]
        ]
      ]

nothing_settled : (budgeted : Bool) → is_settled_run budgeted false [] ≡ true
unfolding is_settled_run
nothing_settled budgeted = refl

granted_run-Settled :
    (p : FetchPolicy) (is_last : Bool) (r : Round) (n : ℕ) (last : Option ℕ) (next : ℕ → Run)
    → (budgeted : Bool) (grant : Option ℕ) → ((status : ℕ) → Settled budgeted (next status))
    → Settled budgeted (granted_run p is_last r n last next budgeted grant)
unfolding granted_run attempt_run
granted_run-Settled p is_last r n last next false grant later =
    conclude-Settled false p is_last r n last next
      (attempt_effects r.before_request none
        (try_request r.before_request r.stopped_fenced none r.transport))
      (try_request r.before_request r.stopped_fenced none r.transport).tried
      (attempt_effects-settled r.before_request none
        (try_request r.before_request r.stopped_fenced none r.transport))
      later
granted_run-Settled p is_last r n last next true none later = nothing_settled true
granted_run-Settled p is_last r n last next true (some limit) later =
    conclude-Settled true p is_last r n last next
      (attempt_effects r.before_request (some limit)
        (try_request r.before_request r.stopped_fenced (some limit) r.transport))
      (try_request r.before_request r.stopped_fenced (some limit) r.transport).tried
      (attempt_effects-settled r.before_request (some limit)
        (try_request r.before_request r.stopped_fenced (some limit) r.transport))
      later

stopped_run-Settled :
    (budgeted stopped : Bool) (last : Option ℕ) (run : Run)
    → Settled budgeted run
    → Settled budgeted (stopped_run stopped last run)
unfolding is_settled_run
stopped_run-Settled budgeted true last run h = refl
stopped_run-Settled budgeted false last run h = h

attempt_loop-Settled :
    (p : FetchPolicy) (budgeted : Bool) (rounds : ℕ → Round) (k n : ℕ) (last : Option ℕ)
    → Settled budgeted (attempt_loop p budgeted rounds k n last)
unfolding attempt_loop
attempt_loop-Settled p budgeted rounds zero n last = nothing_settled budgeted
attempt_loop-Settled p budgeted rounds (suc k) n last =
    stopped_run-Settled budgeted (rounds n).stopped_before last _ (
      granted_run-Settled p (is_zero k) (rounds n) n last _ budgeted (rounds n).grant
        (λ status. attempt_loop-Settled p budgeted rounds k (n + 1) (some status)))

-- On every path of HttpClient.request, errors and stops included, each reservation that the budget
-- grants is settled exactly once, before anything else is reserved, before a deadline is persisted
-- and before the wait for a retry; only the waits of before_request happen while it is held. Within
-- a budget nothing is sent without a reservation.
pub request-is_settled_run :
    (p : FetchPolicy) (budgeted : Bool) (rounds : ℕ → Round)
    → is_settled_run budgeted false (request p budgeted rounds).effects ≡ true
unfolding request
request-is_settled_run p budgeted rounds =
    attempt_loop-Settled p budgeted rounds (suc p.max_retries) 1 none
