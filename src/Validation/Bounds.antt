-- ===== src/Validation/Bounds.antt =====
-- What a request that application/validation.py accepts satisfies, whatever it held before.
use chess_crawl.Prelude.{
  ℕ, ◌-◌, ◌*◌, ◌≤◌, ◌<◌, ◌≡◌, ◌↔◌, refl, sym, ap, subst, ◌∙◌, String, Bool, true, false, not, ◌&&◌,
  ◌||◌, Option, none, some, arith, ltb, Bool-cases, inl, inr,
}
use chess_crawl.Prelude.Fallible.{Fallible, ok, err, guard, >>=-eq-ok}
use chess_crawl.Validation.{
  Accepted, Common, CrawlRequest, Limits, Value, int, negative, not_int, invalid_integer,
  invalid_date_window, validate_common, validate_given, validate_integer, validate_provider,
  validate_username, valid_window, is_given, max_timestamp,
}
use chess_crawl.Validation.Requests.{common_of_crawl, validate_crawl}

-- A value is an int of Python within the bounds.
pub data IsWithin (low high : ℕ) : Value → Type 0 where
  within : (n : ℕ) → low ≤ n → n ≤ high → IsWithin low high (int n)

IsWithin-int : (n low high : ℕ) → IsWithin low high (int n) → (low ≤ n) × (n ≤ high)
IsWithin-int n low high (within _ l h) = (l, h)

validate_integer-IsWithin :
    (v : Value) (name : String) (low high : ℕ) {n : ℕ}
    → validate_integer v name low (some high) ≡ ok n
    → IsWithin low high v
unfolding validate_integer
validate_integer-IsWithin (int n) name low high h = elim (Bool-cases (ltb n low || ltb high n)) [
  | inl e ↦ absurd (ground (arith, h))
  | inr e ↦ within n (ground arith) (ground arith)
]
validate_integer-IsWithin (negative n) name low high h = cc
validate_integer-IsWithin not_int name low high h = cc

-- validate_integer raises the error of the value's name exactly if the value is not an integer
-- within the bounds.
pub validate_integer-eq-err :
    (v : Value) (name : String) (low high : ℕ)
    → (validate_integer v name low (some high) ≡ err (invalid_integer name)) ↔ ¬ IsWithin low high v
unfolding validate_integer
validate_integer-eq-err (int n) name low high = (
  λ e w. let bounds = IsWithin-int n low high w in absurd (ground (arith, e, bounds.0, bounds.1)),
  λ outside. elim (Bool-cases (ltb n low || ltb high n)) [
    | inl e ↦ ground arith
    | inr e ↦ absurd (outside (within n (ground arith) (ground arith)))
  ],
)
validate_integer-eq-err (negative n) name low high = (λ e w. elim w [ ], λ e. refl)
validate_integer-eq-err not_int name low high = (λ e w. elim w [ ], λ e. refl)

abbrev ok_value : {E : Type 0} {A : Type 0} → A → Fallible E A → A
ok_value default (err e) = default
ok_value default (ok a) = a

ok_eq : {E : Type 0} {A : Type 0} {a b : A} {m : Fallible E A} → m ≡ ok a → m ≡ ok b → a ≡ b
ok_eq {a = a} h g = ap (ok_value a) (sym h ∙ g)

-- Two ends of a bounded window: whole seconds, in order, within the span.
pub data IsWindow (span : ℕ) : Option Value → Option Value → Type 0 where
  window :
      (since until : ℕ)
      → since < until
      → until - since ≤ span * 86400
      → until ≤ max_timestamp
      → IsWindow span (some (int since)) (some (int until))

guard-eq-ok : {E : Type 0} (b : Bool) (e : E) {u : Unit {0}} → guard b e ≡ ok u → b ≡ true
guard-eq-ok false e h = cc
guard-eq-ok true e h = refl

validate_given-int :
    (a : ℕ) (name : String) (low high : ℕ) {s : Option ℕ}
    → validate_given (some (int a)) name low high ≡ ok s
    → (a ≤ high) × (s ≡ some a)
unfolding validate_given validate_integer
validate_given-int a name low high {s} h = elim (Bool-cases (ltb a low || ltb high a)) [
  | inl e ↦ absurd (ground (arith, h))
  | inr e ↦ let same : s ≡ some a = ground (arith, h) in (ground arith, same)
]

valid_window-IsWindow :
    (a b span : ℕ)
    → b ≤ max_timestamp
    → valid_window true span (some a) (some b) ≡ true
    → IsWindow span (some (int a)) (some (int b))
unfolding valid_window
valid_window-IsWindow a b span high h = window a b (ground arith) (ground arith) high

given-ends :
    (since until : Option Value) (span : ℕ) {s u : Option ℕ}
    → is_given since ≡ true
    → is_given until ≡ true
    → validate_given since "since" 0 (max_timestamp - 1) ≡ ok s
    → validate_given until "until" 1 max_timestamp ≡ ok u
    → valid_window true span s u ≡ true
    → IsWindow span since until
unfolding validate_given validate_integer valid_window
given-ends none until span given given' hs hu ok' = absurd (ground arith)
given-ends (some v) none span given given' hs hu ok' = absurd (ground arith)
given-ends (some (int a)) (some (int b)) span {s} {u} given given' hs hu ok' =
    let since = validate_given-int a "since" 0 (max_timestamp - 1) hs in
    let until = validate_given-int b "until" 1 max_timestamp hu in
    valid_window-IsWindow a b span until.0 (
      subst (λ (u' : Option ℕ). valid_window true span (some a) u' ≡ true) until.1
        (subst (λ (s' : Option ℕ). valid_window true span s' u ≡ true) since.1 ok'))
given-ends (some (int a)) (some (negative b)) span given given' hs hu ok' = cc
given-ends (some (int a)) (some not_int) span given given' hs hu ok' = cc
given-ends (some (negative a)) (some v) span given given' hs hu ok' = cc
given-ends (some not_int) (some v) span given given' hs hu ok' = cc

validate_common-IsWindow :
    (r : Common) (limits : Limits) {accepted : Accepted}
    → r.bounded ≡ true
    → validate_common r limits ≡ ok accepted
    → IsWindow limits.max_date_span_days r.since r.until × IsWithin 1 limits.max_games r.max_games
unfolding validate_common
validate_common-IsWindow r limits bounded h =
    let (provider, hp, h1) = >>=-eq-ok (validate_provider r.provider) _ h in
    let (username, hu, h2) = >>=-eq-ok (validate_username r.username) _ h1 in
    let (u, given, h3) =
      >>=-eq-ok
        (guard (not (r.bounded && (not (is_given r.since) || not (is_given r.until))))
          invalid_date_window)
        _ h2 in
    let (since, hs, h4) = >>=-eq-ok (validate_given r.since "since" 0 (max_timestamp - 1)) _ h3 in
    let (until, ht, h5) = >>=-eq-ok (validate_given r.until "until" 1 max_timestamp) _ h4 in
    let (v, good, h6) =
      >>=-eq-ok
        (guard (valid_window r.bounded limits.max_date_span_days since until) invalid_date_window) _
        h5 in
    let (max_games, hm, h7) =
      >>=-eq-ok (validate_integer r.max_games "max_games" 1 (some limits.max_games)) _ h6 in
    let both : (is_given r.since && is_given r.until) ≡ true =
      ground (arith, bounded, guard-eq-ok _ invalid_date_window given) in
    let in_order = guard-eq-ok _ invalid_date_window good in
    (
      given-ends r.since r.until limits.max_date_span_days (ground arith) (ground arith) hs ht (
          subst (λ (b : Bool). valid_window b limits.max_date_span_days since until ≡ true) bounded
            in_order),
      validate_integer-IsWithin r.max_games "max_games" 1 limits.max_games hm,
    )

-- The bounds of an accepted crawl.
pub record IsBoundedCrawl (limits : Limits) (r : CrawlRequest) : Type 0 where
  pub dates : IsWindow limits.max_date_span_days r.since r.until
  pub games : IsWithin 1 limits.max_games r.max_games
  pub depth : IsWithin 0 limits.max_depth r.max_depth
  pub users : IsWithin 1 limits.max_users r.max_users
  pub jobs : IsWithin 1 limits.max_jobs r.max_jobs

-- A crawl request that is accepted is bounded by the limits: its dates are whole seconds in order
-- within the span, and its games, depth, users and jobs are integers within their bounds.
pub validate_crawl-IsBoundedCrawl :
    (r : CrawlRequest) (limits : Limits) {r' : CrawlRequest}
    → validate_crawl r limits ≡ ok r'
    → IsBoundedCrawl limits r'
unfolding validate_crawl
validate_crawl-IsBoundedCrawl r limits {r'} h =
    let (accepted, common, h1) = >>=-eq-ok (validate_common (common_of_crawl r) limits) _ h in
    let (d, depth, h2) =
      >>=-eq-ok (validate_integer r.max_depth "max_depth" 0 (some limits.max_depth)) _ h1 in
    let (u, users, h3) =
      >>=-eq-ok (validate_integer r.max_users "max_users" 1 (some limits.max_users)) _ h2 in
    let (j, jobs, same) =
      >>=-eq-ok (validate_integer r.max_jobs "max_jobs" 1 (some limits.max_jobs)) _ h3 in
    let shown = validate_common-IsWindow (common_of_crawl r) limits refl common in
    let made : CrawlRequest = record r {
      provider = some accepted.provider;
      username = some accepted.username;
    } in
    let bounded : IsBoundedCrawl limits made = record {
      dates = shown.0;
      games = shown.1;
      depth = validate_integer-IsWithin r.max_depth "max_depth" 0 limits.max_depth depth;
      users = validate_integer-IsWithin r.max_users "max_users" 1 limits.max_users users;
      jobs = validate_integer-IsWithin r.max_jobs "max_jobs" 1 limits.max_jobs jobs;
    } in
    let returned : made ≡ r' = ok_eq refl same in
    subst (λ (q : CrawlRequest). IsBoundedCrawl limits q) returned bounded
