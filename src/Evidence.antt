-- ===== src/Evidence.antt =====
-- The evidence of a game's notation, normalize/game_evidence.py: its data, and the functions on
-- FENs, board changes and annotations. The grammar, the validator of moves and the digest are
-- parameters (pgn_read and hashlib).
pub mod Reading
pub mod Parser
pub mod Blanks
pub mod Lossless
pub mod Growth
pub mod Tree
pub mod Examples
use mathlib.Core.List.{reverse}
use chess_crawl.Prelude.{
  ℕ, zero, suc, ◌+◌, ◌-◌, ◌*◌, ◌%◌, Bool, true, false, not, ◌&&◌, ◌||◌, Option, none, some, List,
  [], ◌∷◌, ◌++◌, ◌==◌, ltb, leb, length, get_elem?, take, select, if◌then◌else◌, Text, codes,
  text_eq, lower, strip, is_space, is_upper, lower_code, xor,
}

-- The group of import_format that a match ended with.
pub data Group : Type 0 where
  piece_move piece_destination pawn_to_rank pawn_promote_to_rank : Group
  pawn_promote_piece castles pass end_tag game_termination move_number : Group
  dots comment comment_to_eol start_rav end_rav numeric_annotation_glyph : Group
  traditional_annotation check_indicator escape reserved end_of_file_marker : Group
  other_group : Group

pub data Kind : Type 0 where
  header result_kind number_kind dots_kind comment_kind comment_eol : Kind
  variation_start variation_end nag symbolic_nag check escape_kind reserved_kind : Kind
  eof_marker move unknown byte_order_mark unknown_gap unknown_tail : Kind

-- "move" if group in _MOVES else _KINDS.get(group, "unknown")
unfoldable pub kind_of : Group → Kind
kind_of piece_move = move
kind_of piece_destination = move
kind_of pawn_to_rank = move
kind_of pawn_promote_to_rank = move
kind_of pawn_promote_piece = move
kind_of castles = move
kind_of pass = move
kind_of end_tag = header
kind_of game_termination = result_kind
kind_of move_number = number_kind
kind_of dots = dots_kind
kind_of comment = comment_kind
kind_of comment_to_eol = comment_eol
kind_of start_rav = variation_start
kind_of end_rav = variation_end
kind_of numeric_annotation_glyph = nag
kind_of traditional_annotation = symbolic_nag
kind_of check_indicator = check
kind_of escape = escape_kind
kind_of reserved = reserved_kind
kind_of end_of_file_marker = eof_marker
kind_of other_group = unknown

abbrev pub is_pass : Group → Bool
is_pass pass = true
is_pass _ = false

-- A match of import_format.finditer.
pub record Match : Type 0 where
  pub group : Group
  pub start : ℕ
  pub finish : ℕ

pub data Interpretation : Type 0 where
  parsed preserved invalid unmapped : Interpretation

pub record Token : Type 0 where
  pub token_index : ℕ
  pub kind : Kind
  pub token_text : Text
  pub start_offset : ℕ
  pub end_offset : ℕ
  pub interpretation_status : Interpretation

pub data Side : Type 0 where
  white black : Side

pub data Nag : Type 0 where
  numeric : ℕ → Nag
  symbolic : Text → Nag

-- An annotation of a comment, by its token and its place in the comment.
pub record Annotation : Type 0 where
  pub command : Text
  pub value : Text
  pub raw_text : Text
  pub token : ℕ
  pub place : ℕ

pub record MoveNode : Type 0 where
  pub node_index : ℕ
  pub parent_index : Option ℕ
  pub variation_index : ℕ
  pub ply : ℕ
  pub is_mainline : Bool
  pub mover : Option Side
  pub move_uci : Option Text
  pub move_san : Option Text
  pub fen_before : Option Text
  pub fen_after : Option Text
  pub position_key_before : Option Text
  pub position_key_after : Option Text
  pub comments : List Text
  pub starting_comments : List Text
  pub nags : List Nag
  pub annotations : List Annotation

pub data Issue : Type 0 where
  unrecognized_gap : ℕ → ℕ → Issue
  parser_error : ℕ → Text → Issue
  variation_without_move : ℕ → Issue
  unmatched_variation_end : ℕ → Issue
  invalid_move : ℕ → Text → Issue
  multiple_games : ℕ → Issue
  uninterpreted_token : ℕ → Text → Issue
  unrecognized_tail : ℕ → Issue
  unclosed_variation : ℕ → Issue
  missing_result : Issue
  variant_rules_unavailable : Issue
  invalid_starting_position : Issue

abbrev pub drop : ℕ → Text → Text
drop zero t = t
drop (suc n) [] = []
drop (suc n) (c ∷ t) = drop n t

-- text[start:end]
abbrev pub slice : ℕ → ℕ → Text → Text
slice start finish t = take (finish - start) (drop start t)

-- The truth of `t.strip()`.
abbrev pub is_empty : Text → Bool
is_empty [] = true
is_empty (c ∷ t) = false

abbrev pub flush_word : Text → List Text → List Text
flush_word [] words = words
flush_word (c ∷ w) words = reverse (c ∷ w) ∷ words

-- str.split(): the words, with the one that is being read in reverse.
split_from : Text → Text → List Text
split_from word [] = flush_word word []
split_from word (c ∷ t) =
    let ended = split_from [] t in
    let longer = split_from (c ∷ word) t in if is_space c then flush_word word ended else longer

unfoldable pub split : Text → List Text
unfolding split_from
split t = split_from [] t

abbrev pub is_white_field : Option Text → Bool
is_white_field none = false
is_white_field (some w) = text_eq w (codes "w")

-- A FEN of generate_fen_for_position has six fields, so the index is in range.
unfoldable pub mover_from_fen : Text → Side
unfolding split
mover_from_fen fen = if is_white_field (get_elem? (split fen) 1) then white else black

-- `fen` is never absent or empty here: _initial_fen has a default.
unfoldable pub mover_for_ply : Text → ℕ → Side
unfolding split
mover_for_ply fen ply =
    let is_white =
      is_empty fen || ltb (length (split fen)) 2 || is_white_field (get_elem? (split fen) 1) in
    if xor is_white (ply % 2 == 1) then white else black

abbrev pub join_words : List Text → Text
join_words [] = []
join_words (w ∷ []) = w
join_words (w ∷ v ∷ ws) = w ++ codes " " ++ join_words (v ∷ ws)

-- The prefix of the key is followed by the hexadecimal digest.
unfoldable pub position_key : (Text → Text) → Option Text → Text → Option Text
unfolding split
position_key sha256 none variant = none
position_key sha256 (some fen) variant =
    if is_empty fen
    then none
    else some (
        codes "fen-state-v1:sha256:"
        ++ sha256 (variant ++ codes "\n" ++ join_words (take 4 (split fen))))

-- The pieces that a move removed and placed: their squares and the letters that name them.
pub record Delta : Type 0 where
  pub removed : List (Text × ℕ)
  pub placed : List (Text × ℕ)

abbrev pub is_white_side : Option Side → Bool
is_white_side (some white) = true
is_white_side _ = false

unfoldable pub of_side : Bool → Text × ℕ → Bool
of_side is_white p = not (xor (is_upper p.1) is_white)

unfoldable pub is_king : Text × ℕ → Bool
is_king p = lower_code p.1 == b'k'

unfoldable pub promotion : ℕ → ℕ → Text
promotion before after =
    if lower_code before == b'p' && not (lower_code after == b'p')
    then lower_code after ∷ []
    else []

unfoldable pub uci : List (Text × ℕ) → List (Text × ℕ) → Option Text
unfolding promotion
uci ((origin, before) ∷ []) ((destination, after) ∷ []) =
    some (origin ++ destination ++ promotion before after)
uci _ _ = none

-- _uci_from_delta
unfoldable pub uci_from_delta : Delta → Option Side → Option Text
unfolding of_side is_king uci
uci_from_delta d mover =
    let origins = select (of_side (is_white_side mover)) d.removed in
    let destinations = select (of_side (is_white_side mover)) d.placed in
    if ltb 1 (length origins)
    then uci (select is_king origins) (select is_king destinations)
    else uci origins destinations
