-- ===== src/Codes/Examples.antt =====
-- A game in progress, and a variant of each kind.
use chess_crawl.Prelude.{◌≡◌, refl, codes, true, none, some, [], coalesce}
use chess_crawl.Codes.{is_one_of, live_statuses, lichess_outcome, map_variant, variants}
use chess_crawl.Codes.Outcomes.{lichess_outcome-live, map_variant-known}

in_play : (lichess_outcome none (some (codes "started"))).1 ≡ true
unfolding lichess_outcome
in_play = refl

lichess_outcome-live_example :
    ((lichess_outcome none (some (codes "started"))).0 ≡ none)
    × (is_one_of live_statuses (coalesce (some (codes "started")) []) ≡ true)
lichess_outcome-live_example = lichess_outcome-live none (some (codes "started")) in_play

mapped : (map_variant "lichess" (some (codes "kingOfTheHill"))).1 ≡ true
unfolding map_variant
mapped = refl

map_variant-known_example :
    is_one_of variants (map_variant "lichess" (some (codes "kingOfTheHill"))).0 ≡ true
map_variant-known_example = map_variant-known "lichess" (some (codes "kingOfTheHill")) mapped
