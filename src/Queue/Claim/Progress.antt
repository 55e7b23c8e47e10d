-- ===== src/Queue/Claim/Progress.antt =====
-- claim_next_job returns: each further round excludes a provider that some job names.
use chess_crawl.Prelude.{
  ℕ, zero, suc, ◌+◌, ◌≤◌, ◌<◌, ◌≡◌, ◌≢◌, refl, ap, Bool, true, false, not, ◌&&◌, ◌||◌, Option, none,
  some, String, List, [], ◌∷◌, ◌++◌, arith, same_text, length, length-append, count, any, All,
  Bool-cases, inl, inr, str_eq_iff,
}
use chess_crawl.Queue.Model.{Archive, Job, LockKey, is_processing_kind}
use chess_crawl.Queue.Write.{Session}
use chess_crawl.Queue.Claim.{
  Environment, ClaimOptions, Excluded, is_excluded, candidates, Pass, claimed, declined, exhausted,
  take_candidate, own_job_lock, Visit, skip, exclude, take_with, visit, claim_pass, Claim,
  out_of_fuel, is_empty, next_round, known_stage, claim_loop, claim_next_job,
}
use chess_crawl.Queue.Claim.Soundness.{IsRow, candidates-IsRow}

-- Acquisition jobs whose provider is not excluded yet.
unfoldable is_left : Excluded → Job → Bool
unfolding is_excluded
is_left excluded j = not (is_processing_kind j.kind) && not (is_excluded excluded j.provider)

module _ (js : List Job) where
  abbrev left : Excluded → ℕ
  left excluded = count (is_left excluded) js

-- Counting the jobs that an exclusion removes.
count_split :
    (p q : Job → Bool) (js : List Job)
    → ((j : Job) → q j ≡ true → p j ≡ true)
    → count q js + count (λ j. p j && not (q j)) js ≡ count p js
count_split p q [] h = refl
count_split p q (j ∷ js) h = ground (arith, h j, count_split p q js h)

any-append_or {ℓ} :
    {A : Type ℓ} (p : A → Bool) (xs : List A) (y : A) → any p (xs ++ y ∷ []) ≡ (any p xs || p y)
any-append_or p [] y = ground arith
any-append_or p (x ∷ xs) y = ground (arith, any-append_or p xs y)

same_text_refl : (o : Option String) → same_text o o ≡ true
same_text_refl none = refl
same_text_refl (some s) = (str_eq_iff s s).1 refl

exclude_shrinks :
    (js : List Job) (excluded : Excluded) (c : Job)
    → IsRow js c
    → is_left excluded c ≡ true
    → left js (excluded ++ c.provider ∷ []) < left js excluded
exclude_shrinks js excluded c row h =
    let more : Excluded = excluded ++ c.provider ∷ [] in
    let gone : is_left more c ≡ false =
      unfold is_left in
      ground (
        arith,
        any-append_or (same_text c.provider) excluded c.provider,
        same_text_refl c.provider,
      ) in
    let kept : (j : Job) → is_left more j ≡ true → is_left excluded j ≡ true = λ j l.
      unfold is_left in ground (arith, any-append_or (same_text j.provider) excluded c.provider) in
    omega (
      arith,
      count_split (is_left excluded) (is_left more) js kept,
      row (λ j. is_left excluded j && not (is_left more j)) (ground arith),
    )

module _ (e : Environment) (o : ClaimOptions) (s : Session) (db : Archive) where
  -- A provider is excluded only from an acquisition job that was left.
  visit-exclude :
      (excluded : Excluded) (c : Job) → visit e o excluded c ≡ exclude → is_left excluded c ≡ true
  unfolding visit own_job_lock is_left
  visit-exclude excluded c h = ground arith

  take_candidate-ne-exhausted :
      (c : Job) (keys : List LockKey) (x : Excluded) → take_candidate e o s db c keys ≢ exhausted x
  unfolding take_candidate
  take_candidate-ne-exhausted c keys x h = ground arith

  -- What a pass excludes, it takes away from the jobs that are left.
  abbrev Spends : Excluded → Excluded → Type 0
  Spends excluded x =
      (left db.jobs x + length x ≤ left db.jobs excluded + length excluded)
      × (length excluded ≤ length x)

  visited-Spends :
      (excluded x : Excluded) (c : Job) (cs : List Job) (v : Visit)
      → IsRow db.jobs c
      → (claim_pass e o s db excluded cs ≡ exhausted x → Spends excluded x)
      → (claim_pass e o s db (excluded ++ c.provider ∷ []) cs ≡ exhausted x
          → Spends (excluded ++ c.provider ∷ []) x)
      → visit e o excluded c ≡ v
      → elim v [
        | skip ↦ claim_pass e o s db excluded cs
        | exclude ↦ claim_pass e o s db (excluded ++ c.provider ∷ []) cs
        | take_with keys ↦ take_candidate e o s db c keys
      ]
        ≡ exhausted x
      → Spends excluded x
  visited-Spends excluded x c cs skip row skipped left_out q h = skipped h
  visited-Spends excluded x c cs exclude row skipped left_out q h = omega (
    arith,
    left_out h,
    exclude_shrinks db.jobs excluded c row (visit-exclude excluded c q),
    length-append excluded (c.provider ∷ []),
  )
  visited-Spends excluded x c cs (take_with keys) row skipped left_out q h =
      absurd (take_candidate-ne-exhausted c keys x h)

  claim_pass-Spends :
      (excluded x : Excluded) (cs : List Job)
      → All (IsRow db.jobs) cs
      → claim_pass e o s db excluded cs ≡ exhausted x
      → Spends excluded x
  unfolding claim_pass
  claim_pass-Spends excluded x [] rows h =
      let same : excluded ≡ x = ground arith in
      omega (arith, ap (left db.jobs) same, ap length same)
  claim_pass-Spends excluded x (c ∷ cs) rows h =
      visited-Spends excluded x c cs (visit e o excluded c) rows.0
        (claim_pass-Spends excluded x cs rows.1)
        (claim_pass-Spends (excluded ++ c.provider ∷ []) x cs rows.1) refl h

  next_round-eq-out_of_fuel :
      (again : Excluded → Claim) (excluded : Excluded) (p : Pass)
      → next_round again excluded p ≡ out_of_fuel
      → (x : Excluded) × (p ≡ exhausted x) × (length x ≢ length excluded) × (again x ≡ out_of_fuel)
  unfolding next_round
  next_round-eq-out_of_fuel again excluded (claimed db' s' j) h = absurd (ground arith)
  next_round-eq-out_of_fuel again excluded declined h = absurd (ground arith)
  next_round-eq-out_of_fuel again excluded (exhausted x) h =
      (x, refl, λ same. ground arith, ground arith)

  claim_loop-ne-out_of_fuel :
      (fuel : ℕ) (excluded : Excluded)
      → left db.jobs excluded < fuel
      → claim_loop fuel e o s db excluded ≢ out_of_fuel
  unfolding claim_loop
  claim_loop-ne-out_of_fuel zero excluded enough h = absurd (omega arith)
  claim_loop-ne-out_of_fuel (suc fuel) excluded enough h =
      let window : List Job = candidates e o db excluded in
      let p : Pass = claim_pass e o s db excluded window in
      let again : Excluded → Claim = λ x. claim_loop fuel e o s db x in
      elim (Bool-cases (is_empty window)) [
        | inl empty ↦ absurd (ground arith)
        | inr some_left ↦
            let (x, q, more, later) = next_round-eq-out_of_fuel again excluded p (ground arith) in
            claim_loop-ne-out_of_fuel fuel x
              (omega (
                arith,
                claim_pass-Spends excluded x window (candidates-IsRow e o db excluded) q,
                more,
              ))
              later
      ]

  left_le_length : (excluded : Excluded) (js : List Job) → left js excluded ≤ length js
  left_le_length excluded [] = omega arith
  left_le_length excluded (j ∷ js) = ground (arith, left_le_length excluded js)

  -- The rounds of a claim never exceed the number of jobs plus one: each further round has excluded
  -- one more provider.
  pub claim_next_job-ne-out_of_fuel : claim_next_job e o s db ≢ out_of_fuel
  unfolding claim_next_job
  claim_next_job-ne-out_of_fuel h = elim (Bool-cases (known_stage o.stage)) [
    | inl known ↦
        claim_loop-ne-out_of_fuel (length db.jobs + 1) [] (omega (arith, left_le_length [] db.jobs))
          (ground arith)
    | inr unknown ↦ absurd (ground arith)
  ]
