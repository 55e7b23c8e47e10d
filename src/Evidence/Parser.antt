-- ===== src/Evidence/Parser.antt =====
-- The loop of parse_game_evidence over the matches of import_format: the tree of moves, and what
-- follows the last match.
use chess_crawl.Prelude.{
  ℕ, ◌+◌, Bool, true, false, not, ◌&&◌, ◌||◌, Option, none, some, List, [], ◌∷◌, ◌++◌, ◌==◌, length,
  get_elem?, if◌then◌else◌, Text, strip,
}
use mathlib.Core.Option
use chess_crawl.Evidence.{
  Group, Issue, Kind, Match, MoveNode, Side, Token, drop, is_empty, is_pass, kind_of, mover_for_ply,
  mover_from_fen, position_key, slice, uci_from_delta, result_kind, comment_kind, comment_eol,
  variation_start, variation_end, nag, symbolic_nag, check, move, unknown, unknown_tail, parsed,
  preserved, invalid, byte_order_mark, invalid_move, multiple_games, uninterpreted_token,
  unrecognized_tail, unclosed_variation, missing_result, numeric, symbolic, Nag,
}
use chess_crawl.Evidence.Reading.{
  Reader, Reading, child_count, drop_last, end_variation, lex_gap, lex_token, number_from,
  numbered_annotations, start_variation, update_at,
}

-- lexical["interpretation_status"] = …, of the token that was added last.
abbrev pub mark_last : List Token → List Token
mark_last [] = []
mark_last (t ∷ []) = record t { interpretation_status = invalid } ∷ []
mark_last (t ∷ u ∷ ts) = t ∷ mark_last (u ∷ ts)

-- MoveNode(0, None, 0, 0, True, fen_after=…)
abbrev pub root_node : Option Text → MoveNode
root_node fen = record {
  node_index = 0;
  parent_index = none;
  variation_index = 0;
  ply = 0;
  is_mainline = true;
  mover = none;
  move_uci = none;
  move_san = none;
  fen_before = none;
  fen_after = fen;
  position_key_before = none;
  position_key_after = none;
  comments = [];
  starting_comments = [];
  nags = [];
  annotations = [];
}

abbrev pub mark_preserved : List Token → List Token
mark_preserved [] = []
mark_preserved (t ∷ []) = record t { interpretation_status = preserved } ∷ []
mark_preserved (t ∷ u ∷ ts) = t ∷ mark_preserved (u ∷ ts)

abbrev pub is_nil : List ℕ → Bool
is_nil [] = true
is_nil (n ∷ ns) = false

abbrev pub drop_first : Text → Text
drop_first [] = []
drop_first (c ∷ t) = t

module _ {V : Type 0} (r : Reader V) where
  abbrev pub side_before : Option Text → ℕ → Side
  unfolding mover_from_fen mover_for_ply
  side_before none ply = mover_for_ply r.start_fen ply
  side_before (some fen) ply =
      if is_empty fen then mover_for_ply r.start_fen ply else mover_from_fen fen

  -- The node of a move, before the validator is asked.
  unfoldable pub new_node : Text → Reading V → MoveNode → MoveNode
  unfolding side_before
  new_node token st parent = record {
    node_index = length st.nodes;
    parent_index = some st.current;
    variation_index = child_count st.current st.children;
    ply = parent.ply + 1;
    is_mainline = is_nil st.rav;
    mover = some (side_before parent.fen_after parent.ply);
    move_uci = none;
    move_san = some (strip token);
    fen_before = parent.fen_after;
    fen_after = none;
    position_key_before = none;
    position_key_after = none;
    comments = [];
    starting_comments = st.pending_comments;
    nags = [];
    annotations = [];
  }

  -- A legal move of a supported variant has its positions.
  abbrev pub is_legal : Group → V → Bool
  is_legal g v = r.supported && r.is_playing v && not (is_pass g)

  unfoldable pub with_position : V → MoveNode → MoveNode
  unfolding uci_from_delta position_key
  with_position v n = record n {
    fen_after = some (r.board_fen v);
    move_uci = uci_from_delta (r.position_delta v) n.mover;
    position_key_before = position_key r.sha256 n.fen_before r.variant_key;
    position_key_after = position_key r.sha256 (some (r.board_fen v)) r.variant_key;
  }

  unfoldable pub add_node : Group → Text → ℕ → Reading V → MoveNode → Reading V
  unfolding new_node with_position
  add_node g token index st parent =
      let node : MoveNode = new_node token st parent in
      let refused : Bool = r.supported && not (is_legal g st.validator) in
      record st {
        nodes =
            st.nodes
            ++ (if is_legal g st.validator then with_position st.validator node else node) ∷ [];
        children = (st.current, node.variation_index + 1) ∷ st.children;
        pending_comments = [];
        current = length st.nodes;
        at_variation_start = false;
        tokens = if refused then mark_last st.tokens else st.tokens;
        parse_issues =
            if refused then st.parse_issues ++ invalid_move index token ∷ [] else st.parse_issues;
      }

  unfoldable pub add_move : Group → Text → ℕ → Reading V → Option (Reading V)
  unfolding add_node
  add_move g token index st = Option.map (add_node g token index st) (get_elem? st.nodes st.current)

  abbrev pub update_node : ℕ → (MoveNode → MoveNode) → Reading V → Reading V
  update_node i f st = record st { nodes = update_at i f st.nodes }

  -- The annotations of a comment, on the node that it stands at: the root for a pending one.
  unfoldable pub comment_observations : ℕ → Text → ℕ → Reading V → Reading V
  comment_observations i text index = update_node i λ (n : MoveNode). record n {
    annotations = n.annotations ++ numbered_annotations index 0 (r.annotations text);
  }

  unfoldable pub add_comment : Text → ℕ → Reading V → Reading V
  unfolding comment_observations
  add_comment text index st =
      if st.at_variation_start
      then comment_observations 0 text index
          (record st { pending_comments = st.pending_comments ++ text ∷ [] })
      else comment_observations st.current text index (
          update_node st.current (λ (n : MoveNode). record n { comments = n.comments ++ text ∷ [] })
            st)

  unfoldable pub add_nag : Nag → Reading V → Reading V
  add_nag g st = update_node st.current (λ (n : MoveNode). record n { nags = n.nags ++ g ∷ [] }) st

  abbrev pub or_empty : Option Text → Text
  or_empty none = []
  or_empty (some t) = t

  -- `and current`: a check at the root is passed over.
  unfoldable pub add_check : Text → Reading V → Reading V
  add_check token st =
      if st.current == 0
      then st
      else update_node st.current
          (λ (n : MoveNode). record n { move_san = some (or_empty n.move_san ++ token) }) st

  unfoldable pub add_result : ℕ → Reading V → Reading V
  add_result index st = record st {
    parse_issues =
        if st.terminated then st.parse_issues ++ multiple_games index ∷ [] else st.parse_issues;
    terminated = is_nil st.rav || st.terminated;
  }

  -- The branches on the kind of a match.
  unfoldable pub interpret : Kind → Match → ℕ → Reading V → Option (Reading V)
  unfolding start_variation end_variation add_move add_comment add_nag add_check add_result
  interpret variation_start m index st = start_variation r index st
  interpret variation_end m index st = some (end_variation r index st)
  interpret move m index st = add_move m.group (slice m.start m.finish r.text) index st
  interpret comment_kind m index st =
      some (add_comment (drop_last (drop_first (slice m.start m.finish r.text))) index st)
  interpret comment_eol m index st =
      some (add_comment (drop_first (slice m.start m.finish r.text)) index st)
  interpret nag m index st =
      some (add_nag (numeric (number_from 0 (drop_first (slice m.start m.finish r.text)))) st)
  interpret symbolic_nag m index st = some (add_nag (symbolic (slice m.start m.finish r.text)) st)
  interpret check m index st = some (add_check (slice m.start m.finish r.text) st)
  interpret result_kind m index st = some (add_result index st)
  interpret unknown m index st = some (record st {
    tokens = mark_preserved st.tokens;
    parse_issues =
        st.parse_issues ++ uninterpreted_token index (slice m.start m.finish r.text) ∷ [];
  })
  interpret _ m index st = some st

  abbrev pub has_bom : Text → Bool
  has_bom [] = false
  has_bom (c ∷ t) = c == 65279

  -- What parse_game_evidence holds when its loop starts.
  unfoldable pub start_reading : V → Option Text → List Issue → Reading V
  start_reading v start_position issues = record {
    tokens =
        if has_bom r.text
        then record {
          token_index = 0;
          kind = byte_order_mark;
          token_text = slice 0 1 r.text;
          start_offset = 0;
          end_offset = 1;
          interpretation_status = parsed;
        }
          ∷ []
        else [];
    nodes = root_node start_position ∷ [];
    current = 0;
    rav = [];
    children = [];
    pending_comments = [];
    at_variation_start = false;
    terminated = false;
    previous_end = if has_bom r.text then 1 else 0;
    parse_issues = issues;
    validator = v;
  }

  -- One turn of the loop.
  unfoldable pub step : Match → Reading V → Option (Reading V)
  unfolding lex_gap lex_token interpret kind_of
  step m st =
      let gap : Reading V = lex_gap r m st in
      interpret (kind_of m.group) m (length gap.tokens) (lex_token r m gap)

  unfoldable pub read : List Match → Reading V → Option (Reading V)
  unfolding step
  read [] st = some st
  read (m ∷ ms) st = elim (step m st) [ none ↦ none | some next ↦ read ms next ]

  -- What follows the loop, before the provider's observations.
  unfoldable pub end_tail : Reading V → Reading V
  end_tail st =
      let rest : Text = drop st.previous_end r.text in
      if is_empty (strip rest) then st else record st {
        parse_issues = st.parse_issues ++ unrecognized_tail st.previous_end ∷ [];
        tokens =
            st.tokens
            ++ record {
              token_index = length st.tokens;
              kind = unknown_tail;
              token_text = rest;
              start_offset = st.previous_end;
              end_offset = length r.text;
              interpretation_status = preserved;
            }
              ∷ [];
      }

  unfoldable pub end_structure : Reading V → Reading V
  end_structure st = record st {
    parse_issues =
        st.parse_issues
        ++ (if is_nil st.rav then [] else unclosed_variation (length st.rav) ∷ [])
        ++ (if st.terminated then [] else missing_result ∷ []);
    nodes =
        update_at 0
          (λ (n : MoveNode). record n {
            starting_comments = n.starting_comments ++ st.pending_comments;
          })
          st.nodes;
  }

  -- The loop and its end.
  unfoldable pub parse_tokens : List Match → Reading V → Option (Reading V)
  unfolding read end_tail end_structure
  parse_tokens ms st = Option.map (λ (end : Reading V). end_structure (end_tail end)) (read ms st)
