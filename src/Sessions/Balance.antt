-- ===== src/Sessions/Balance.antt =====
-- An admission counts the permits that are out.
use chess_crawl.Prelude.Fallible.{ok}
use chess_crawl.Prelude.{
  ℕ, zero, suc, ◌+◌, ◌-◌, ◌≤◌, ◌<◌, ◌≡◌, refl, sym, ap, subst, ◌∙◌, Bool, true, false, not, ◌&&◌,
  some, List, [], ◌∷◌, ◌++◌, length, get_elem?, arith, ltb, ltb→lt, ◌==◌, ==→eq, if◌then◌else◌,
  count, count-append, All, All-append, Bool-cases, Option-cases, ◌⊎◌, inl, inr,
}
use chess_crawl.Sessions.{
  SessionAdmission, SessionPermit, Process, set_at, mark_released, acquire, release_admission,
  release,
}

abbrev pub is_out : ℕ → SessionPermit → Bool
is_out a q = q.admission == a && not q.released

-- The permits of an admission that are not released.
abbrev pub held : ℕ → List SessionPermit → ℕ
held a = count (is_out a)

abbrev pub IsCounted : List SessionPermit → ℕ → SessionAdmission → Type 0
IsCounted ps a x = (x.active ≡ held a ps) × (x.active ≤ x.settings.max_connections)

-- Each admission counts its permits and stays within its capacity, and no permit is of an admission
-- that does not exist.
pub record IsBalanced (p : Process) : Type 0 where
  pub counted :
      (a : ℕ) (x : SessionAdmission) → get_elem? p.admissions a ≡ some x → IsCounted p.permits a x
  pub known : All (λ (q : SessionPermit). q.admission < length p.admissions) p.permits

module _ {ℓ} {A : Type ℓ} where
  get-set_at :
      (i j : ℕ) (f : A → A) (xs : List A) (y : A)
      → get_elem? (set_at i f xs) j ≡ some y
      → (x : A) × (get_elem? xs j ≡ some x) × (y ≡ (if i == j then f x else x))
  get-set_at i j f [] y h = absurd (ground arith)
  get-set_at zero zero f (x ∷ xs) y h = (x, refl, ground arith)
  get-set_at zero (suc j) f (x ∷ xs) y h = (y, h, ground arith)
  get-set_at (suc i) zero f (x ∷ xs) y h = (x, refl, ground arith)
  get-set_at (suc i) (suc j) f (x ∷ xs) y h =
      let (z, found, same) = get-set_at i j f xs y h in (z, found, ground arith)

  length-set_at : (i : ℕ) (f : A → A) (xs : List A) → length (set_at i f xs) ≡ length xs
  length-set_at i f [] = refl
  length-set_at zero f (x ∷ xs) = refl
  length-set_at (suc i) f (x ∷ xs) = ap suc (length-set_at i f xs)

  pub get_lt : (xs : List A) (i : ℕ) (y : A) → get_elem? xs i ≡ some y → i < length xs
  get_lt [] i y h = absurd (ground arith)
  get_lt (x ∷ xs) zero y h = omega arith
  get_lt (x ∷ xs) (suc i) y h = omega (arith, get_lt xs i y h)

  pub lt_get : (xs : List A) (i : ℕ) → i < length xs → (y : A) × (get_elem? xs i ≡ some y)
  lt_get [] i h = absurd (omega arith)
  lt_get (x ∷ xs) zero h = (x, refl)
  lt_get (x ∷ xs) (suc i) h = lt_get xs i (omega arith)

  pub get-append :
      (xs : List A) (x y : A) (i : ℕ)
      → get_elem? (xs ++ x ∷ []) i ≡ some y
      → (get_elem? xs i ≡ some y) ⊎ ((i ≡ length xs) × (x ≡ y))
  get-append [] x y zero h = inr (refl, ground arith)
  get-append [] x y (suc i) h = absurd (ground arith)
  get-append (z ∷ xs) x y zero h = inl h
  get-append (z ∷ xs) x y (suc i) h = elim (get-append xs x y i h) [
    | inl found ↦ inl found
    | inr (last, same) ↦ inr (ap suc last, same)
  ]

held-release :
    (a i : ℕ) (ps : List SessionPermit) (q : SessionPermit)
    → get_elem? ps i ≡ some q
    → q.released ≡ false
    → held a ps ≡ held a (set_at i mark_released ps) + (if q.admission == a then 1 else 0)
held-release a i [] q h out = absurd (ground arith)
held-release a zero (p ∷ ps) q h out =
    let same : p ≡ q = ground arith in
    let mine : p.released ≡ false = ap (λ (x : SessionPermit). x.released) same ∙ out in
    ground (arith, ap (λ (x : SessionPermit). x.admission) same)
held-release a (suc i) (p ∷ ps) q h out = ground (arith, held-release a i ps q h out)

known-release :
    (n i : ℕ) (ps : List SessionPermit)
    → All (λ (q : SessionPermit). q.admission < n) ps
    → All (λ (q : SessionPermit). q.admission < n) (set_at i mark_released ps)
known-release n i [] h = tt
known-release n zero (p ∷ ps) h = h
known-release n (suc i) (p ∷ ps) h = (h.0, known-release n i ps h.1)

known_get :
    (n i : ℕ) (ps : List SessionPermit) (q : SessionPermit)
    → All (λ (x : SessionPermit). x.admission < n) ps
    → get_elem? ps i ≡ some q
    → q.admission < n
known_get n i [] q h found = absurd (ground arith)
known_get n zero (p ∷ ps) q h found =
    let same : p ≡ q = ground arith in subst (λ (x : SessionPermit). x.admission < n) same h.0
known_get n (suc i) (p ∷ ps) q h found = known_get n i ps q h.1 found

same_entry :
    (p : Process) (a b : ℕ) (x y : SessionAdmission)
    → (a == b) ≡ true
    → get_elem? p.admissions a ≡ some x
    → get_elem? p.admissions b ≡ some y
    → x ≡ y
same_entry p a b x y e there found =
    let both : some x ≡ some y = sym there ∙ ap (get_elem? p.admissions) (==→eq a b e) ∙ found in
    ground arith

acquired_entry :
    (a b : ℕ) (x : SessionAdmission) (ps : List SessionPermit)
    → IsCounted ps b x
    → ((a == b) ≡ true → x.active < x.settings.max_connections)
    → IsCounted
        (ps ++ record { admission = a; released = false } ∷ [])
        b
        (if a == b then record x { active = x.active + 1 } else x)
acquired_entry a b x ps h room =
    let more = count-append (is_out b) ps (record { admission = a; released = false } ∷ []) in
    elim (Bool-cases (a == b)) [
      | inl e ↦ let free = room e in (ground (arith, more), ground arith)
      | inr e ↦ (ground (arith, more), ground arith)
    ]

released_entry :
    (b i : ℕ) (q : SessionPermit) (x : SessionAdmission) (ps : List SessionPermit)
    → IsCounted ps b x
    → get_elem? ps i ≡ some q
    → q.released ≡ false
    → IsCounted
        (set_at i mark_released ps)
        b
        (if q.admission == b then record x { active = x.active - 1 } else x)
released_entry b i q x ps h found out =
    let less = held-release b i ps q found out in
    elim (Bool-cases (q.admission == b)) [
      | inl e ↦ (ground (arith, less), ground arith)
      | inr e ↦ (ground (arith, less), ground arith)
    ]

changed-IsBalanced :
    (p : Process) (a : ℕ) (f : SessionAdmission → SessionAdmission) (ps : List SessionPermit)
    → ((b : ℕ) (x : SessionAdmission)
        → get_elem? p.admissions b ≡ some x
        → IsCounted ps b (if a == b then f x else x))
    → All (λ (q : SessionPermit). q.admission < length p.admissions) ps
    → IsBalanced (record p { admissions = set_at a f p.admissions; permits = ps })
changed-IsBalanced p a f ps each known = record {
  counted = λ b y found.
      let (x, there, same) = get-set_at a b f p.admissions y found in
      subst (IsCounted ps b) (sym same) (each b x there);
  known =
      subst (λ (n : ℕ). All (λ (q : SessionPermit). q.admission < n) ps)
        (sym (length-set_at a f p.admissions)) known;
}

-- ?
pub acquire-IsBalanced :
    (a : ℕ) (p p' : Process) (permit : ℕ)
    → IsBalanced p
    → acquire a p ≡ ok (p', permit)
    → IsBalanced p'
unfolding acquire
acquire-IsBalanced a p p' permit h e = elim (Option-cases (get_elem? p.admissions a)) [
  | inl gone ↦ absurd (ground arith)
  | inr (adm, there) ↦ elim (Bool-cases (ltb adm.active adm.settings.max_connections)) [
    | inr full ↦ absurd (ground arith)
    | inl room ↦
        let f : SessionAdmission → SessionAdmission = λ x. record x { active = x.active + 1 } in
        let ps : List SessionPermit =
          p.permits ++ record { admission = a; released = false } ∷ [] in
        let written : record p { admissions = set_at a f p.admissions; permits = ps } ≡ p' =
          ground arith in
        subst IsBalanced written (
          changed-IsBalanced p a f ps
            (λ b x found. acquired_entry a b x p.permits (h.counted b x found) (λ same.
              subst (λ (y : SessionAdmission). y.active < y.settings.max_connections)
                (same_entry p a b adm x same there found) (ltb→lt _ _ room)))
            (All-append _ p.permits _ h.known (get_lt p.admissions a adm there, tt)))
  ]
]

-- In a balanced process the release of any permit that exists succeeds, so it is never a release
-- without ownership, and leaves the process balanced.
pub release-IsBalanced :
    (i : ℕ) (p : Process) (q : SessionPermit)
    → IsBalanced p
    → get_elem? p.permits i ≡ some q
    → (p' : Process) × (release i p ≡ ok p') × IsBalanced p'
unfolding release release_admission
release-IsBalanced i p q h found = elim (Bool-cases q.released) [
  | inl done ↦ (p, ground arith, h)
  | inr out ↦
      let (adm, there) =
        lt_get p.admissions q.admission
          (known_get (length p.admissions) i p.permits q h.known found) in
      let old : IsCounted p.permits q.admission adm = h.counted q.admission adm there in
      let less = held-release q.admission i p.permits q found out in
      let busy : (adm.active == 0) ≡ false = ground arith in
      let f : SessionAdmission → SessionAdmission = λ x. record x { active = x.active - 1 } in
      (
        record p {
          admissions = set_at q.admission f p.admissions;
          permits = set_at i mark_released p.permits;
        },
        rw (found, release) (rw out (rw (there, release_admission) (rw busy refl))),
        changed-IsBalanced p q.admission f (set_at i mark_released p.permits)
            (λ b x there'. released_entry b i q x p.permits (h.counted b x there') found out)
            (known-release (length p.admissions) i p.permits h.known),
      )
]
