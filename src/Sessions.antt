-- ===== src/Sessions.antt =====
-- storage/session_admission.py: the permits of one process for PostgreSQL sessions. The objects are
-- entries of lists, and a reference is an index. Each method runs under its lock, so that a run of
-- the process is a sequence of calls; an acquisition that waited is the call at which its wait ended.
pub mod Balance
pub mod Reach
pub mod Examples
use chess_crawl.Prelude.Fallible.{Fallible, ok, err}
use chess_crawl.Prelude.{
  ℕ, zero, suc, ◌+◌, ◌-◌, Bool, true, false, not, ◌&&◌, Option, none, some, List, [], ◌∷◌, ◌++◌,
  length, get_elem?, ltb, leb, ◌==◌, if◌then◌else◌,
}

-- DatabaseAdmissionSettings, with whole seconds.
pub record DatabaseAdmissionSettings : Type 0 where
  pub max_connections : ℕ
  pub admission_timeout_s : ℕ

-- __post_init__; `timeout_max` is threading.TIMEOUT_MAX.
unfoldable pub is_valid : ℕ → DatabaseAdmissionSettings → Bool
is_valid timeout_max s =
    leb 1 s.max_connections && ltb 0 s.admission_timeout_s && leb s.admission_timeout_s timeout_max

unfoldable pub require_worker_capacity : DatabaseAdmissionSettings → Bool
require_worker_capacity s = leb 2 s.max_connections

-- The OperationalError of a full process, and the RuntimeErrors.
pub data SessionError : Type 0 where
  capacity_occupied released_without_ownership still_active no_object : SessionError

pub record SessionAdmission : Type 0 where
  pub settings : DatabaseAdmissionSettings
  pub active : ℕ

pub record SessionPermit : Type 0 where
  pub admission : ℕ
  pub released : Bool

-- The objects of a process; `current` is the module's _admission.
pub record Process : Type 0 where
  pub admissions : List SessionAdmission
  pub permits : List SessionPermit
  pub current : Option ℕ

abbrev pub set_at {ℓ} : {A : Type ℓ} → ℕ → (A → A) → List A → List A
set_at i f [] = []
set_at zero f (x ∷ xs) = f x ∷ xs
set_at (suc i) f (x ∷ xs) = x ∷ set_at i f xs

-- process_session_admission, with the index that it returns.
unfoldable pub process_session_admission : DatabaseAdmissionSettings → Process → Process × ℕ
process_session_admission settings p = elim p.current [
  | some a ↦ (p, a)
  | none ↦ (
    record p {
      admissions = p.admissions ++ record { settings = settings; active = 0 } ∷ [];
      current = some (length p.admissions);
    },
    length p.admissions,
  )
]

-- SessionAdmission.acquire, with the index of the permit.
unfoldable pub acquire : ℕ → Process → Fallible SessionError (Process × ℕ)
acquire a p = elim (get_elem? p.admissions a) [
  | none ↦ err no_object
  | some admission ↦
      if ltb admission.active admission.settings.max_connections
      then ok (
        record p {
          admissions =
              set_at a (λ (x : SessionAdmission). record x { active = x.active + 1 }) p.admissions;
          permits = p.permits ++ record { admission = a; released = false } ∷ [];
        },
        length p.permits,
      )
      else err capacity_occupied
]

-- SessionAdmission.release
unfoldable pub release_admission : ℕ → Process → Fallible SessionError Process
release_admission a p = elim (get_elem? p.admissions a) [
  | none ↦ err no_object
  | some admission ↦
      if admission.active == 0
      then err released_without_ownership
      else ok (record p {
        admissions =
            set_at a (λ (x : SessionAdmission). record x { active = x.active - 1 }) p.admissions;
      })
]

abbrev pub mark_released : SessionPermit → SessionPermit
mark_released x = record x { released = true }

-- SessionPermit.release
unfoldable pub release : ℕ → Process → Fallible SessionError Process
unfolding release_admission
release i p = elim (get_elem? p.permits i) [
  | none ↦ err no_object
  | some permit ↦
      if permit.released
      then ok p
      else release_admission permit.admission
          (record p { permits = set_at i mark_released p.permits })
]

-- reset_session_admission
unfoldable pub reset_session_admission : Process → Fallible SessionError Process
reset_session_admission p = elim p.current [
  | none ↦ ok p
  | some a ↦ elim (get_elem? p.admissions a) [
    | none ↦ err no_object
    | some admission ↦
        if admission.active == 0 then ok (record p { current = none }) else err still_active
  ]
]

unfoldable pub after_fork : Process → Process
after_fork p = record p { current = none }

-- SessionAdmission.active, of the process's own admission.
unfoldable pub active_sessions : Process → ℕ
active_sessions p = elim p.current [
  | none ↦ 0
  | some a ↦ elim (get_elem? p.admissions a) [ none ↦ 0 | some admission ↦ admission.active ]
]
