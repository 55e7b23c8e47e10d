-- ===== src/Evidence/Reading.antt =====
-- The local variables of parse_game_evidence, and what its loop does with a match before and at a
-- variation: the tokens, the validator, and the stack of variations. `none` is the IndexError of a
-- node that is not there.
use chess_crawl.Prelude.{
  ℕ, zero, suc, ◌+◌, ◌-◌, ◌*◌, Bool, true, false, Option, none, some, List, [], ◌∷◌, ◌++◌, ◌==◌,
  length, get_elem?, if◌then◌else◌, Text, strip,
}
use mathlib.Core.Option
use chess_crawl.Evidence.{
  Annotation, Delta, Issue, Match, MoveNode, Token, is_empty, kind_of, slice, unknown_gap, parsed,
  preserved, unrecognized_gap, parser_error, variation_without_move, unmatched_variation_end,
}

-- The text with what pgn_read's validator, the digest and the pattern _ANNOTATION say of it.
pub record Reader (V : Type 0) : Type 0 where
  pub text : Text
  pub supported : Bool
  pub variant_key : Text
  pub start_fen : Text
  pub add_token : V → ℕ → V × Option Text  -- the error that is raised, if any
  pub set_game_error : V → V
  pub is_playing : V → Bool  -- state is None
  pub game_ok : V → Bool
  pub board_fen : V → Text
  pub position_delta : V → Delta  -- position_deltas[-1]
  pub sha256 : Text → Text
  pub annotations : Text → List (Text × Text × Text)  -- the command, the value and the match

-- The local variables of parse_game_evidence.
pub record Reading (V : Type 0) : Type 0 where
  pub tokens : List Token
  pub nodes : List MoveNode
  pub current : ℕ
  pub rav : List ℕ  -- the last one first
  pub children : List (ℕ × ℕ)
  pub pending_comments : List Text
  pub at_variation_start : Bool
  pub terminated : Bool
  pub previous_end : ℕ
  pub parse_issues : List Issue
  pub validator : V

abbrev pub update_at : ℕ → (MoveNode → MoveNode) → List MoveNode → List MoveNode
update_at i f [] = []
update_at zero f (n ∷ ns) = f n ∷ ns
update_at (suc i) f (n ∷ ns) = n ∷ update_at i f ns

-- children.get(current, 0)
abbrev pub child_count : ℕ → List (ℕ × ℕ) → ℕ
child_count i [] = 0
child_count i ((k, n) ∷ rest) = let later = child_count i rest in if k == i then n else later

-- int(token[1:]) of a glyph
abbrev pub number_from : ℕ → Text → ℕ
number_from n [] = n
number_from n (c ∷ t) = number_from (n * 10 + (c - b'0')) t

-- comment[1:-1]
abbrev pub drop_last : Text → Text
drop_last [] = []
drop_last (c ∷ []) = []
drop_last (c ∷ d ∷ t) = c ∷ drop_last (d ∷ t)

abbrev pub numbered_annotations : ℕ → ℕ → List (Text × Text × Text) → List Annotation
numbered_annotations token place [] = []
numbered_annotations token place ((command, value, raw) ∷ rest) =
    record { command = command; value = value; raw_text = raw; token = token; place = place }
    ∷ numbered_annotations token (place + 1) rest

module _ {V : Type 0} (r : Reader V) where
  -- A gap that holds more than blanks becomes a token.
  unfoldable pub lex_gap : Match → Reading V → Reading V
  lex_gap m st =
      let gap : Text = slice st.previous_end m.start r.text in
      if is_empty (strip gap) then record st { previous_end = m.finish } else record st {
        parse_issues = st.parse_issues ++ unrecognized_gap st.previous_end m.start ∷ [];
        tokens =
            st.tokens
            ++ record {
              token_index = length st.tokens;
              kind = unknown_gap;
              token_text = gap;
              start_offset = st.previous_end;
              end_offset = m.start;
              interpretation_status = preserved;
            }
              ∷ [];
        previous_end = m.finish;
      }

  abbrev pub token_of : Match → ℕ → Token
  unfolding kind_of
  token_of m index = record {
    token_index = index;
    kind = kind_of m.group;
    token_text = slice m.start m.finish r.text;
    start_offset = m.start;
    end_offset = m.finish;
    interpretation_status = if r.supported then parsed else preserved;
  }

  -- What the validator makes of the token.
  abbrev pub settle_validator : ℕ → V × Option Text → Reading V → Reading V
  settle_validator index (v, none) st = record st { validator = v }
  settle_validator index (v, some detail) st = record st {
    validator = r.set_game_error v;
    parse_issues = st.parse_issues ++ parser_error index detail ∷ [];
  }

  -- `if supported`
  abbrev pub validated : Bool → ℕ → Match → Reading V → Reading V
  validated false index m st = st
  validated true index m st = settle_validator index (r.add_token st.validator m.start) st

  unfoldable pub lex_token : Match → Reading V → Reading V
  unfolding token_of
  lex_token m st =
      validated r.supported (length st.tokens) m
        (record st { tokens = st.tokens ++ token_of m (length st.tokens) ∷ [] })

  abbrev pub leave_parent : ℕ → Reading V → Option ℕ → Reading V
  leave_parent index st (some parent) = record st {
    rav = st.current ∷ st.rav;
    current = parent;
    at_variation_start = true;
  }
  leave_parent index st none = record st {
    rav = st.current ∷ st.rav;
    parse_issues = st.parse_issues ++ variation_without_move index ∷ [];
    current = 0;
    at_variation_start = true;
  }

  unfoldable pub start_variation : ℕ → Reading V → Option (Reading V)
  start_variation index st =
      Option.map (λ (n : MoveNode). leave_parent index st n.parent_index)
        (get_elem? st.nodes st.current)

  abbrev pub pop_variation : ℕ → Reading V → List ℕ → Reading V
  pop_variation index st [] = record st {
    parse_issues = st.parse_issues ++ unmatched_variation_end index ∷ [];
    at_variation_start = false;
  }
  pop_variation index st (n ∷ ns) = record st { current = n; rav = ns; at_variation_start = false }

  unfoldable pub end_variation : ℕ → Reading V → Reading V
  end_variation index st = pop_variation index st st.rav
