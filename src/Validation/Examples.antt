-- ===== src/Validation/Examples.antt =====
-- A crawl of a month, a username with blanks around it, and an integer out of range.
use chess_crawl.Prelude.Texts.{lower, strip}
use chess_crawl.Prelude.{◌≡◌, ◌↔◌, refl, codes, some}
use chess_crawl.Prelude.Fallible.{ok, err}
use chess_crawl.Validation.{
  CrawlRequest, int, default_limits, invalid_integer, validate_integer, validate_username,
}
use chess_crawl.Validation.Requests.{validate_crawl}
use chess_crawl.Validation.Canonical.{validate_username-again}
use chess_crawl.Validation.Bounds.{
  IsBoundedCrawl, IsWithin, validate_crawl-IsBoundedCrawl, validate_integer-eq-err,
}

abbrev crawl : CrawlRequest
crawl = record {
  provider = some (codes " Lichess");
  username = some (codes "Thibault ");
  since = some (int 1700000000);
  until = some (int 1702592000);
  max_games = int 500;
  max_depth = int 1;
  max_users = int 20;
  max_jobs = int 40;
}

abbrev accepted_crawl : CrawlRequest
accepted_crawl = record crawl {
  provider = some (codes "lichess");
  username = some (codes "thibault");
}

validate_crawl-IsBoundedCrawl_example : IsBoundedCrawl default_limits accepted_crawl
unfolding validate_crawl lower strip
validate_crawl-IsBoundedCrawl_example =
    validate_crawl-IsBoundedCrawl crawl default_limits {r' = accepted_crawl} refl

validate_username-again_example :
    validate_username (some (codes "thibault")) ≡ ok (codes "thibault")
unfolding validate_username lower strip
validate_username-again_example =
    validate_username-again (some (codes " Thibault ")) {name = codes "thibault"} refl

validate_integer-eq-err_example :
    (validate_integer (int 13) "batch_size" 1 (some 12) ≡ err (invalid_integer "batch_size"))
    ↔ ¬ IsWithin 1 12 (int 13)
validate_integer-eq-err_example = validate_integer-eq-err (int 13) "batch_size" 1 12
