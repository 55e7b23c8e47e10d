-- ===== src/Sessions/Reach.antt =====
-- Runs of a process.
use chess_crawl.Prelude.Fallible.{ok}
use chess_crawl.Prelude.{
  ℕ, zero, suc, ◌≤◌, ◌<◌, ◌≡◌, refl, sym, ap, subst, ◌∙◌, Option, none, some, List, [], ◌∷◌, ◌++◌,
  length, get_elem?, arith, All, Bool-cases, Option-cases, inl, inr, length-append,
}
use chess_crawl.Sessions.{
  SessionAdmission, SessionPermit, Process, DatabaseAdmissionSettings, set_at, mark_released,
  process_session_admission, acquire, release_admission, release, reset_session_admission,
  after_fork,
}
use chess_crawl.Sessions.Balance.{
  held, IsCounted, IsBalanced, get-append, acquire-IsBalanced, release-IsBalanced,
}

-- One call of a thread that returns.
pub data Step : Process → Process → Type 0 where
  registered :
      {p : Process} (settings : DatabaseAdmissionSettings)
      → Step p (process_session_admission settings p).0
  acquired : {p p' : Process} (a permit : ℕ) → acquire a p ≡ ok (p', permit) → Step p p'
  returned :
      {p p' : Process} (i : ℕ) (q : SessionPermit)
      → get_elem? p.permits i ≡ some q
      → release i p ≡ ok p'
      → Step p p'
  reset : {p p' : Process} → reset_session_admission p ≡ ok p' → Step p p'
  forked : {p : Process} → Step p (after_fork p)

pub data Reach (start : Process) : Process → Type 0 where
  here : Reach start start
  next : {p p' : Process} → Reach start p → Step p p' → Reach start p'

none_held :
    (a : ℕ) (ps : List SessionPermit)
    → All (λ (q : SessionPermit). q.admission < a) ps
    → held a ps ≡ 0
none_held a [] h = refl
none_held a (q ∷ ps) h = ground (arith, h.0, none_held a ps h.1)

known_more :
    (m n : ℕ) (ps : List SessionPermit)
    → m ≤ n
    → All (λ (q : SessionPermit). q.admission < m) ps
    → All (λ (q : SessionPermit). q.admission < n) ps
known_more m n [] le h = tt
known_more m n (q ∷ ps) le h = (omega (arith, h.0), known_more m n ps le h.1)

-- A change of the reference to the current admission.
current-IsBalanced :
    (p : Process) (c : Option ℕ) → IsBalanced p → IsBalanced (record p { current = c })
current-IsBalanced p c h = record { counted = h.counted; known = h.known }

registered-IsBalanced :
    (settings : DatabaseAdmissionSettings) (p : Process)
    → IsBalanced p
    → IsBalanced (process_session_admission settings p).0
unfolding process_session_admission
registered-IsBalanced settings p h = elim (Option-cases p.current) [
  | inr (a, there) ↦ rw there (current-IsBalanced p (some a) h)
  | inl fresh ↦
      let new : SessionAdmission = record { settings = settings; active = 0 } in
      rw fresh (record {
        counted = λ a x found. elim (get-append p.admissions new x a found) [
          | inl old ↦ h.counted a x old
          | inr (last, same) ↦ subst (IsCounted p.permits a) same (
              subst (λ (n : ℕ). IsCounted p.permits n new) (sym last)
                (sym (none_held (length p.admissions) p.permits h.known), omega arith))
        ];
        known =
            known_more (length p.admissions) (length (p.admissions ++ new ∷ [])) p.permits
              (omega (arith, length-append p.admissions (new ∷ []))) h.known;
      })
]

reset-IsBalanced :
    (p p' : Process) → reset_session_admission p ≡ ok p' → IsBalanced p → IsBalanced p'
unfolding reset_session_admission
reset-IsBalanced p p' e h = elim (Option-cases p.current) [
  | inl empty ↦ let same : p ≡ p' = ground arith in subst IsBalanced same h
  | inr (a, there) ↦ elim (Option-cases (get_elem? p.admissions a)) [
    | inl gone ↦ absurd (ground arith)
    | inr (adm, present) ↦
        let cleared : record p { current = none } ≡ p' = ground arith in
        subst IsBalanced cleared (current-IsBalanced p none h)
  ]
]

Step-IsBalanced : {p p' : Process} → Step p p' → IsBalanced p → IsBalanced p'
Step-IsBalanced {p} (registered settings) h = registered-IsBalanced settings p h
Step-IsBalanced {p} {p'} (acquired a permit e) h = acquire-IsBalanced a p p' permit h e
Step-IsBalanced {p} {p'} (returned i q found e) h =
    let (p'', result, balanced) = release-IsBalanced i p q h found in
    let both : ok p'' ≡ ok p' = sym result ∙ e in
    let same : p'' ≡ p' = ground arith in subst IsBalanced same balanced
Step-IsBalanced {p} {p'} (reset e) h = reset-IsBalanced p p' e h
Step-IsBalanced {p} forked h = unfold after_fork in current-IsBalanced p none h

-- In every run of a process that starts balanced, through registrations, acquisitions, releases,
-- resets and forks, each admission's active count is the number of its permits that are not
-- released, and is within its capacity.
pub sessions-IsBalanced : {start p : Process} → IsBalanced start → Reach start p → IsBalanced p
sessions-IsBalanced h here = h
sessions-IsBalanced h (next r s) = Step-IsBalanced s (sessions-IsBalanced h r)

get-mark :
    (i : ℕ) (ps : List SessionPermit) (q : SessionPermit)
    → get_elem? ps i ≡ some q
    → get_elem? (set_at i mark_released ps) i ≡ some (mark_released q)
get-mark i [] q h = absurd (ground arith)
get-mark zero (p ∷ ps) q h =
    let same : p ≡ q = ground arith in ap (λ (x : SessionPermit). some (mark_released x)) same
get-mark (suc i) (p ∷ ps) q h = get-mark i ps q h

-- A permit returns its admission once: releasing it again after a release that succeeded changes
-- nothing.
pub release-again : (i : ℕ) (p p' : Process) → release i p ≡ ok p' → release i p' ≡ ok p'
unfolding release release_admission
release-again i p p' e = elim (Option-cases (get_elem? p.permits i)) [
  | inl gone ↦ absurd (ground arith)
  | inr (q, found) ↦ elim (Bool-cases q.released) [
    | inl done ↦
        let same : p ≡ p' = ground arith in
        subst (λ (x : Process). release i x ≡ ok x) same (rw (found, release) (rw done refl))
    | inr out ↦
        let marked : p'.permits ≡ set_at i mark_released p.permits = ground arith in
        let there : get_elem? p'.permits i ≡ some (mark_released q) =
          ap (λ (ps : List SessionPermit). get_elem? ps i) marked ∙ get-mark i p.permits q found in
        rw (there, release) refl
  ]
]
