-- ===== src/Codes/Outcomes.antt =====
-- What the code maps guarantee to the tables that store their results.
use chess_crawl.Prelude.{
  ◌≡◌, refl, String, Text, codes, text_eq, Bool, true, false, ◌&&◌, Option, none, some, List, [],
  ◌∷◌, coalesce, if◌then◌else◌, str_eq, arith, Bool-cases, inl, inr, ap, sym, ◌∙◌,
}
use chess_crawl.Codes.{
  Outcome, or_lowered, white_win, black_win, draw, is_one_of, names, live_statuses,
  lichess_draw_statuses, lichess_null_outcome_statuses, lichess_outcome, lookup, variants,
  map_variant, provider_variant, chesscom_variants, lichess_variants,
}

-- The tests of lichess_outcome in their order, on what they came to.
abbrev by_tests : Bool → Bool → Bool → Bool → Bool → Option Outcome × Bool
by_tests white black drawn open_status live =
    if white
    then (some white_win, false)
    else if black
    then (some black_win, false)
    else if drawn
    then (some draw, false)
    else if open_status
    then (none, live)
    else (none, false)

decided :
    (white black drawn open_status live : Bool)
    → (by_tests white black drawn open_status live).1 ≡ true
    → ((by_tests white black drawn open_status live).0 ≡ none) × (live ≡ true)
decided true black drawn open_status live h = cc
decided false true drawn open_status live h = cc
decided false false true open_status live h = cc
decided false false false false live h = cc
decided false false false true live h = (refl, h)

-- A game of lichess that is reported as live has no outcome, and its status is a live one.
pub lichess_outcome-live :
    (winner status : Option Text)
    → (lichess_outcome winner status).1 ≡ true
    → ((lichess_outcome winner status).0 ≡ none)
      × (is_one_of live_statuses (coalesce status []) ≡ true)
unfolding lichess_outcome
lichess_outcome-live winner status h =
    let value : Text = coalesce status [] in
    decided (names winner "white") (names winner "black") (is_one_of lichess_draw_statuses value)
      (is_one_of lichess_null_outcome_statuses value) (is_one_of live_statuses value) h

-- The values of a dictionary all pass a test.
all_pass : (Text → Bool) → List (String × String) → Bool
all_pass good [] = true
all_pass good ((k, v) ∷ rest) = good (codes v) && all_pass good rest

lookup-passes :
    (good : Text → Bool) (d : List (String × String)) (t v : Text)
    → all_pass good d ≡ true
    → lookup d t ≡ some v
    → good v ≡ true
unfolding all_pass
lookup-passes good [] t v a h = absurd (ground arith)
lookup-passes good ((k, w) ∷ rest) t v a h = elim (Bool-cases (text_eq (codes k) t)) [
  | inl e ↦ let same : codes w ≡ v = ground arith in ap good (sym same) ∙ ground arith
  | inr e ↦ lookup-passes good rest t v (ground arith) (ground arith)
]

chesscom_known : all_pass (is_one_of variants) chesscom_variants ≡ true
unfolding all_pass
chesscom_known = refl

lichess_known : all_pass (is_one_of variants) lichess_variants ≡ true
unfolding all_pass
lichess_known = refl

-- The choice of the dictionary, on what the tests of the provider came to.
chosen-passes :
    (good : Text → Bool) (first second : Bool) (a b : Option Text) (v : Text)
    → (a ≡ some v → good v ≡ true)
    → (b ≡ some v → good v ≡ true)
    → (if first then a else if second then b else none) ≡ some v
    → good v ≡ true
chosen-passes good true second a b v f g h = f h
chosen-passes good false true a b v f g h = g h
chosen-passes good false false a b v f g h = cc

provider_variant-known :
    (provider : String) (native v : Text)
    → provider_variant provider native ≡ some v
    → is_one_of variants v ≡ true
provider_variant-known provider native v =
    chosen-passes (is_one_of variants) (str_eq provider "chess.com") (str_eq provider "lichess")
      (lookup chesscom_variants native) (lookup lichess_variants native) v
      (lookup-passes (is_one_of variants) chesscom_variants native v chesscom_known)
      (lookup-passes (is_one_of variants) lichess_variants native v lichess_known)

mapped-known :
    (good : Text → Bool) (native : Text) (found : Option Text)
    → ((v : Text) → found ≡ some v → good v ≡ true)
    → (or_lowered native found).1 ≡ true
    → good (or_lowered native found).0 ≡ true
mapped-known good native none f h = cc
mapped-known good native (some v) f h = f v refl

-- A variant that is reported as mapped is one of the archive's variants.
pub map_variant-known :
    (provider : String) (native : Option Text)
    → (map_variant provider native).1 ≡ true
    → is_one_of variants (map_variant provider native).0 ≡ true
unfolding map_variant
map_variant-known provider none h = cc
map_variant-known provider (some []) h = cc
map_variant-known provider (some (c ∷ native)) h =
    mapped-known (is_one_of variants) (c ∷ native) (provider_variant provider (c ∷ native))
      (provider_variant-known provider (c ∷ native)) h
