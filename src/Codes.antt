-- ===== src/Codes.antt =====
-- normalize/codes.py: the code maps that the providers' parsers share. A status, a variant or a name
-- is a text; the outcomes are the three of providers/base.py.
pub mod Outcomes
pub mod Examples
use chess_crawl.Prelude.{
  String, Text, codes, text_eq, lower, strip, Bool, true, false, ◌||◌, Option, none, some, List, [],
  ◌∷◌, any, coalesce, is_text, str_eq, if◌then◌else◌,
}

pub data Outcome : Type 0 where
  white_win black_win draw : Outcome

abbrev pub is_one_of : List String → Text → Bool
is_one_of names t = any (λ (s : String). text_eq (codes s) t) names

-- The provider's name and ours, in the order of the dictionary.
abbrev pub lookup : List (String × String) → Text → Option Text
lookup [] t = none
lookup ((k, v) ∷ rest) t =
    let later = lookup rest t in if text_eq (codes k) t then some (codes v) else later

abbrev pub chesscom_variants : List (String × String)
chesscom_variants =
    ("chess", "standard")
    ∷ ("chess960", "chess960")
    ∷ ("crazyhouse", "crazyhouse")
    ∷ ("kingofthehill", "kingofthehill")
    ∷ ("threecheck", "threecheck")
    ∷ ("bughouse", "bughouse")
    ∷ []

abbrev pub lichess_variants : List (String × String)
lichess_variants =
    ("standard", "standard")
    ∷ ("chess960", "chess960")
    ∷ ("crazyhouse", "crazyhouse")
    ∷ ("antichess", "antichess")
    ∷ ("atomic", "atomic")
    ∷ ("horde", "horde")
    ∷ ("kingOfTheHill", "kingofthehill")
    ∷ ("racingKings", "racingkings")
    ∷ ("threeCheck", "threecheck")
    ∷ ("fromPosition", "fromposition")
    ∷ []

abbrev pub variants : List String
variants =
    "standard" ∷ "chess960" ∷ "crazyhouse" ∷ "antichess" ∷ "atomic" ∷ "horde" ∷ "kingofthehill"
    ∷ "racingkings" ∷ "threecheck" ∷ "bughouse" ∷ "fromposition" ∷ []

abbrev pub chesscom_draw_results : List String
chesscom_draw_results =
    "agreed" ∷ "repetition" ∷ "stalemate" ∷ "insufficient" ∷ "50move" ∷ "timevsinsufficient"
    ∷ "timeoutvsinsufficient" ∷ "threecheck" ∷ []

abbrev pub lichess_draw_statuses : List String
lichess_draw_statuses =
    "draw" ∷ "stalemate" ∷ "outoftime" ∷ "mate" ∷ "resign" ∷ "timeout" ∷ "variantEnd" ∷ []

abbrev pub lichess_null_outcome_statuses : List String
lichess_null_outcome_statuses = "aborted" ∷ "unknownfinish" ∷ "noStart" ∷ "created" ∷ "started" ∷ []

abbrev pub live_statuses : List String
live_statuses = "created" ∷ "started" ∷ []

abbrev pub is_blank : Text → Bool
is_blank [] = true
is_blank (_ ∷ _) = false

unfoldable pub normalize_username : Option Text → Option Text
normalize_username none = none
normalize_username (some name) = if is_blank (strip name) then none else some (lower (strip name))

-- Every branch of the source returns the lowered name but those of two families.
unfoldable pub normalize_time_class : Text → Text
normalize_time_class value =
    let lowered = lower (strip value) in
    if is_one_of ("daily" ∷ "correspondence" ∷ []) lowered
    then codes "correspondence"
    else if is_one_of ("ultrabullet" ∷ "bullet" ∷ []) lowered
    then codes "bullet"
    else lowered

abbrev pub provider_variant : String → Text → Option Text
provider_variant provider native =
    if str_eq provider "chess.com"
    then lookup chesscom_variants native
    else if str_eq provider "lichess"
    then lookup lichess_variants native
    else none

abbrev pub or_lowered : Text → Option Text → Text × Bool
or_lowered native none = (lower (strip native), false)
or_lowered native (some mapped) = (mapped, true)

-- The variant, and whether it is one of the mapped ones. `not native` holds of None and of ''.
unfoldable pub map_variant : String → Option Text → Text × Bool
map_variant provider none = (codes "standard", false)
map_variant provider (some []) = (codes "standard", false)
map_variant provider (some (c ∷ native)) =
    or_lowered (c ∷ native) (provider_variant provider (c ∷ native))

abbrev pub result_text : Option Text → Text
result_text r = lower (strip (coalesce r []))

-- The outcome, and whether the game is live.
unfoldable pub chesscom_outcome : Option Text → Option Text → Option Outcome × Bool
chesscom_outcome white_result black_result =
    let white = result_text white_result in
    let black = result_text black_result in
    if text_eq (codes "win") white
    then (some white_win, false)
    else if text_eq (codes "win") black
    then (some black_win, false)
    else if is_one_of chesscom_draw_results white || is_one_of chesscom_draw_results black
    then (some draw, false)
    else (none, false)

abbrev pub names : Option Text → String → Bool
names none s = false
names (some t) s = text_eq (codes s) t

unfoldable pub lichess_outcome : Option Text → Option Text → Option Outcome × Bool
lichess_outcome winner status =
    let value = coalesce status [] in
    if names winner "white"
    then (some white_win, false)
    else if names winner "black"
    then (some black_win, false)
    else if is_one_of lichess_draw_statuses value
    then (some draw, false)
    else if is_one_of lichess_null_outcome_statuses value
    then (none, is_one_of live_statuses value)
    else (none, false)
