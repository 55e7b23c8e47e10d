-- ===== src/Validation/Requests.antt =====
-- validate_import, validate_crawl and validate_page of application/validation.py. `replace` keeps
-- the fields that it does not name.
use chess_crawl.Prelude.{ℕ, String, Bool, true, ◌||◌, Option, none, some, leb, min, is_text}
use chess_crawl.Prelude.Fallible.{ok, ◌>>=◌, ◌>>◌, guard}
use chess_crawl.Validation.{
  Checked, Common, CrawlRequest, ImportRequest, Limits, Value, invalid_collection_mode,
  invalid_max_jobs, validate_common, validate_integer,
}

-- {"bounded", "full", "incremental", "backfill"}
unfoldable pub is_collection_mode : Option String → Bool
is_collection_mode mode =
    is_text mode "bounded"
    || is_text mode "full"
    || is_text mode "incremental"
    || is_text mode "backfill"

abbrev pub common_of_import : ImportRequest → Common
common_of_import r = record {
  provider = r.provider;
  username = r.username;
  since = r.since;
  until = r.until;
  max_games = r.max_games;
  bounded = is_text r.collection_mode "bounded";
}

-- A crawl has no collection mode: it is bounded.
abbrev pub common_of_crawl : CrawlRequest → Common
common_of_crawl r = record {
  provider = r.provider;
  username = r.username;
  since = r.since;
  until = r.until;
  max_games = r.max_games;
  bounded = true;
}

unfoldable pub validate_import : ImportRequest → Limits → Checked ImportRequest
unfolding validate_common is_collection_mode validate_integer
validate_import r limits = do
  accepted ← validate_common (common_of_import r) limits
  guard (is_collection_mode r.collection_mode) invalid_collection_mode
  validate_integer r.batch_size "batch_size" 1 (some 12)
  guard (leb 2 limits.max_jobs) invalid_max_jobs
  ok (record r { provider = some accepted.provider; username = some accepted.username })

unfoldable pub validate_crawl : CrawlRequest → Limits → Checked CrawlRequest
unfolding validate_common validate_integer
validate_crawl r limits = do
  accepted ← validate_common (common_of_crawl r) limits
  validate_integer r.max_depth "max_depth" 0 (some limits.max_depth)
  validate_integer r.max_users "max_users" 1 (some limits.max_users)
  validate_integer r.max_jobs "max_jobs" 1 (some limits.max_jobs)
  ok (record r { provider = some accepted.provider; username = some accepted.username })

abbrev pub page_cursor : Option Value → Checked ℕ
unfolding validate_integer
page_cursor none = ok 0
page_cursor (some after) = validate_integer after "cursor" 0 (some 9223372036854775807)

abbrev pub size_of_page : Option Value → Limits → Checked ℕ
unfolding validate_integer
size_of_page none limits = ok (min 50 limits.page_size)
size_of_page (some limit) limits = validate_integer limit "limit" 1 (some limits.page_size)

unfoldable pub validate_page : Option Value → Option Value → Limits → Checked (ℕ × ℕ)
unfolding page_cursor size_of_page
validate_page after limit limits = do
  cursor ← page_cursor after
  size ← size_of_page limit limits
  ok (cursor, size)
