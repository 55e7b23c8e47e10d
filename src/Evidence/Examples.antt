-- ===== src/Evidence/Examples.antt =====
-- A game of two moves with a variation on the first: "e4 (d4) e5 *".
use chess_crawl.Prelude.Texts.{strip}
use chess_crawl.Prelude.{
  ℕ, ◌≡◌, refl, true, none, some, List, [], ◌∷◌, ◌+◌, codes, arith, map, Option,
}
use chess_crawl.Evidence.{Match, pawn_to_rank, start_rav, end_rav, game_termination}
use chess_crawl.Evidence.Reading.{Reader, Reading}
use chess_crawl.Evidence.Parser.{parse_tokens, start_reading}
use chess_crawl.Evidence.Blanks.{no_blanks}
use chess_crawl.Evidence.Lossless.{joined_text, parse_tokens-joined}
use chess_crawl.Evidence.Growth.{Grown, shape}
use chess_crawl.Evidence.Tree.{parse_tokens-Grown}

abbrev reader : Reader ℕ
reader = record {
  text = codes "e4 (d4) e5 *";
  supported = true;
  variant_key = codes "standard";
  start_fen = codes "8/8 w - - 0 1";
  add_token = λ v offset. (v + 1, none);
  set_game_error = λ v. 0;
  is_playing = λ v. true;
  game_ok = λ v. true;
  board_fen = λ v. codes "8/8 b - - 0 1";
  position_delta = λ v. record { removed = []; placed = [] };
  sha256 = λ t. [];
  annotations = λ t. [];
}

abbrev matches : List Match
matches =
    record { group = pawn_to_rank; start = 0; finish = 2 }
    ∷ record { group = start_rav; start = 3; finish = 4 }
    ∷ record { group = pawn_to_rank; start = 4; finish = 6 }
    ∷ record { group = end_rav; start = 6; finish = 7 }
    ∷ record { group = pawn_to_rank; start = 8; finish = 10 }
    ∷ record { group = game_termination; start = 11; finish = 12 }
    ∷ []

abbrev begun : Reading ℕ
begun = start_reading reader 0 (some (codes "8/8 w - - 0 1")) []

shapes_of : Option (Reading ℕ) → List (ℕ × Option ℕ × ℕ)
shapes_of none = []
shapes_of (some st) = map shape st.nodes

-- The variation hangs from the root, and the main line goes on below the first move.
parsed_shapes :
    shapes_of (parse_tokens reader matches begun)
    ≡ (0, none, 0) ∷ (1, some 0, 1) ∷ (2, some 0, 1) ∷ (3, some 1, 2) ∷ []
unfolding parse_tokens start_reading shapes_of strip
parsed_shapes = refl

abbrev or_begun : Option (Reading ℕ) → Reading ℕ
or_begun none = begun
or_begun (some st) = st

abbrev finished : Reading ℕ
finished = or_begun (parse_tokens reader matches begun)

parse_tokens-joined_example : no_blanks (joined_text finished.tokens) ≡ no_blanks reader.text
unfolding parse_tokens start_reading strip
parse_tokens-joined_example =
    parse_tokens-joined reader 0 (some (codes "8/8 w - - 0 1")) [] matches {end = finished}
      (
        omega arith,
        omega arith,
        (
          omega arith,
          omega arith,
          (
            omega arith,
            omega arith,
            (omega arith, omega arith, (omega arith, omega arith, (omega arith, omega arith, tt))),
          ),
        ),
      )
      refl

parse_tokens-Grown_example :
    (end : Reading ℕ) × (parse_tokens reader matches (start_reading reader 0 none []) ≡ some end)
    × Grown (map shape end.nodes)
parse_tokens-Grown_example = parse_tokens-Grown reader 0 none [] matches
