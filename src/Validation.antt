-- ===== src/Validation.antt =====
-- application/validation.py and the requests and limits of application/models.py: what a request
-- must be before storage is opened. A value that JSON gives is an integer or something else.
pub mod Requests
pub mod Bounds
pub mod Canonical
pub mod Examples
use chess_crawl.Prelude.{
  ℕ, ◌+◌, ◌-◌, ◌*◌, String, Bool, true, false, not, ◌&&◌, ◌||◌, Option, none, some, List, [], ◌∷◌,
  ◌==◌, ltb, leb, str_eq, length, any, if◌then◌else◌, Text, codes, text_eq, lower, strip, min,
}
use chess_crawl.Prelude.Fallible.{Fallible, ok, err, ◌>>=◌, ◌>>◌, guard}

-- A value of any type: an int of Python (never a bool), by its sign, or something else.
pub data Value : Type 0 where
  int : ℕ → Value
  negative : ℕ → Value  -- -(n + 1)
  not_int : Value

-- ValidationError, by its code.
pub data ValidationError : Type 0 where
  invalid_provider invalid_username invalid_idempotency_key : ValidationError
  unsupported_resource invalid_game_id invalid_collection_mode : ValidationError
  invalid_max_jobs invalid_date_window : ValidationError
  invalid_integer : String → ValidationError  -- invalid_<name>

abbrev pub Checked {ℓ} : Type ℓ → Type ℓ
Checked A = Fallible ValidationError A

pub record ImportRequest : Type 0 where
  pub provider : Option Text  -- none: not a str
  pub username : Option Text
  pub since : Option Value
  pub until : Option Value
  pub max_games : Value
  pub collection_mode : Option String
  pub batch_size : Value

pub record CrawlRequest : Type 0 where
  pub provider : Option Text
  pub username : Option Text
  pub since : Option Value
  pub until : Option Value
  pub max_games : Value
  pub max_depth : Value
  pub max_users : Value
  pub max_jobs : Value

pub record Limits : Type 0 where
  pub max_games : ℕ
  pub max_depth : ℕ
  pub max_users : ℕ
  pub max_jobs : ℕ
  pub page_size : ℕ
  pub max_date_span_days : ℕ
  pub max_working_set_members : ℕ
  pub max_analysis_results : ℕ
  pub max_analysis_result_bytes : ℕ

abbrev pub default_limits : Limits
default_limits = record {
  max_games = 1000;
  max_depth = 2;
  max_users = 100;
  max_jobs = 200;
  page_size = 100;
  max_date_span_days = 366;
  max_working_set_members = 10000;
  max_analysis_results = 1000;
  max_analysis_result_bytes = 67108864;
}

-- __post_init__ of Limits
unfoldable pub valid_limits : Limits → Bool
valid_limits l =
    leb 1 l.max_games
    && leb 1 l.max_users
    && leb 1 l.max_jobs
    && leb 1 l.page_size
    && leb 1 l.max_date_span_days
    && leb 1 l.max_working_set_members
    && leb 1 l.max_analysis_results
    && leb 1 l.max_analysis_result_bytes
    && ltb l.max_analysis_results 9223372036854775808
    && ltb l.max_analysis_result_bytes 9223372036854775808

-- known_keys of the registry
abbrev pub known_keys : List Text
known_keys = codes "chess.com" ∷ codes "lichess" ∷ []

unfoldable pub validate_provider : Option Text → Checked Text
validate_provider none = err invalid_provider
validate_provider (some provider) =
    if any (text_eq (lower (strip provider))) known_keys
    then ok (lower (strip provider))
    else err invalid_provider

abbrev pub is_between : ℕ → ℕ → ℕ → Bool
is_between low high c = leb low c && leb c high

-- [A-Za-z0-9]
unfoldable pub is_alphanumeric : ℕ → Bool
is_alphanumeric c = is_between b'A' b'Z' c || is_between b'a' b'z' c || is_between b'0' b'9' c

-- [A-Za-z0-9_-]
unfoldable pub is_username_code : ℕ → Bool
unfolding is_alphanumeric
is_username_code c = is_alphanumeric c || c == b'_' || c == b'-'

abbrev pub all_codes : (ℕ → Bool) → Text → Bool
all_codes p [] = true
all_codes p (c ∷ t) = p c && all_codes p t

-- _USERNAME.fullmatch
unfoldable pub is_username : Text → Bool
unfolding is_username_code
is_username t = leb 1 (length t) && leb (length t) 100 && all_codes is_username_code t

unfoldable pub validate_username : Option Text → Checked Text
unfolding is_username
validate_username none = err invalid_username
validate_username (some username) =
    if is_username (strip username) then ok (lower (strip username)) else err invalid_username

unfoldable pub validate_idempotency_key : Option Text → Checked Text
validate_idempotency_key none = err invalid_idempotency_key
validate_idempotency_key (some key) =
    if leb 1 (length key) && leb (length key) 128 && all_codes (is_between 33 126) key
    then ok key
    else err invalid_idempotency_key

unfoldable pub validate_player_refresh : Option Text → Option Text → Bool → Checked (Text × Text)
unfolding validate_provider validate_username
validate_player_refresh provider username statistics = do
  provider' ← validate_provider provider
  username' ← validate_username username
  guard (not statistics || text_eq provider' (codes "chess.com")) unsupported_resource
  ok (provider', username')

unfoldable pub is_game_id : Text → Bool
unfolding is_alphanumeric
is_game_id t = length t == 8 && all_codes is_alphanumeric t

unfoldable pub validate_game_id : Option Text → Checked Text
unfolding is_game_id
validate_game_id none = err invalid_game_id
validate_game_id (some game_id) = if is_game_id game_id then ok game_id else err invalid_game_id

unfoldable pub validate_game_collection : Option Text → Option Text → Checked (Text × Text)
unfolding validate_provider validate_game_id
validate_game_collection provider game_id = do
  provider' ← validate_provider provider
  guard (text_eq provider' (codes "lichess")) unsupported_resource
  game_id' ← validate_game_id game_id
  ok (provider', game_id')

-- value > maximum, where there is a maximum.
abbrev pub is_above : Option ℕ → ℕ → Bool
is_above none n = false
is_above (some maximum) n = ltb maximum n

-- The value that is returned, which no minimum below 0 lets be negative.
unfoldable pub validate_integer : Value → String → ℕ → Option ℕ → Checked ℕ
validate_integer (int n) name minimum maximum =
    if ltb n minimum || is_above maximum n then err (invalid_integer name) else ok n
validate_integer (negative n) name minimum maximum = err (invalid_integer name)
validate_integer not_int name minimum maximum = err (invalid_integer name)

abbrev pub max_timestamp : ℕ
max_timestamp = 253402300800

-- `if value is not None: validate_integer(…)`
unfoldable pub validate_given : Option Value → String → ℕ → ℕ → Checked (Option ℕ)
unfolding validate_integer
validate_given none name minimum maximum = ok none
validate_given (some v) name minimum maximum =
    validate_integer v name minimum (some maximum) >>= λ n. ok (some n)

-- The checks where both ends are given.
unfoldable pub valid_window : Bool → ℕ → Option ℕ → Option ℕ → Bool
valid_window bounded span none until = true
valid_window bounded span (some since) none = true
valid_window bounded span (some since) (some until) =
    ltb since until && not (bounded && ltb (span * 86400) (until - since))

abbrev pub is_given {ℓ} : {A : Type ℓ} → Option A → Bool
is_given none = false
is_given (some a) = true

-- What _validate_common reads of either request.
pub record Common : Type 0 where
  pub provider : Option Text
  pub username : Option Text
  pub since : Option Value
  pub until : Option Value
  pub max_games : Value
  pub bounded : Bool

-- The provider and the username of the result, and the integers that were read.
pub record Accepted : Type 0 where
  pub provider : Text
  pub username : Text
  pub since : Option ℕ
  pub until : Option ℕ
  pub max_games : ℕ

unfoldable pub validate_common : Common → Limits → Checked Accepted
unfolding validate_provider validate_username validate_given valid_window validate_integer
validate_common r limits = do
  provider ← validate_provider r.provider
  username ← validate_username r.username
  guard (not (r.bounded && (not (is_given r.since) || not (is_given r.until)))) invalid_date_window
  since ← validate_given r.since "since" 0 (max_timestamp - 1)
  until ← validate_given r.until "until" 1 max_timestamp
  guard (valid_window r.bounded limits.max_date_span_days since until) invalid_date_window
  max_games ← validate_integer r.max_games "max_games" 1 (some limits.max_games)
  ok (record {
    provider = provider;
    username = username;
    since = since;
    until = until;
    max_games = max_games;
  })
