-- ===== src/Evidence/Tree.antt =====
-- The tree of moves that the loop of parse_game_evidence builds.
use mathlib.Core.Option
use chess_crawl.Prelude.{
  ℕ, ◌<◌, ◌≡◌, refl, ap, Bool, true, false, Option, none, some, List, [], ◌∷◌, map, arith, length,
  get_elem?, All, Bool-cases, inl, inr, Text, ◌==◌, strip,
}
use chess_crawl.Evidence.{
  Group, Issue, Kind, Match, MoveNode, slice, kind_of, is_empty, drop, header, result_kind,
  comment_kind, comment_eol, variation_start, variation_end, nag, symbolic_nag, check, move,
  unknown, unknown_gap, unknown_tail, byte_order_mark, number_kind, dots_kind, escape_kind,
  reserved_kind, eof_marker,
}
use chess_crawl.Evidence.Reading.{
  Reader, Reading, lex_gap, lex_token, settle_validator, validated, start_variation, end_variation,
  leave_parent, pop_variation,
}
use chess_crawl.Evidence.Parser.{
  add_move, add_node, new_node, with_position, is_legal, add_comment, add_check, add_nag,
  add_result, interpret, step, read, end_tail, end_structure, parse_tokens, start_reading,
  comment_observations, update_node,
}
use chess_crawl.Evidence.Growth.{
  Grown, root, shape, IsRead, IsTree-parent, IsTree-update, IsTree-grow, get_elem?-lt,
}

module _ {V : Type 0} (r : Reader V) where
  -- It returns, and keeps the tree.
  abbrev Reads : Option (Reading V) → Type 0
  Reads o = (st : Reading V) × (o ≡ some st) × IsRead st

  Reads-map :
      (o : Option MoveNode) (f : MoveNode → Reading V) (n : MoveNode)
      → o ≡ some n
      → IsRead (f n)
      → Reads (Option.map f o)
  Reads-map o f n h t = (f n, ap (Option.map f) h, t)

  leave_parent-IsTree :
      (index : ℕ) (st : Reading V) (o : Option ℕ)
      → ((p : ℕ) → o ≡ some p → p < length st.nodes)
      → IsRead st
      → IsRead (leave_parent r index st o)
  leave_parent-IsTree index st none lt t = record {
    grown = t.grown;
    here = let lt' = t.here in omega (arith, lt');
    back = (t.here, t.back);
  }
  leave_parent-IsTree index st (some p) lt t = record {
    grown = t.grown;
    here = lt p refl;
    back = (t.here, t.back);
  }

  start_variation-Reads :
      (index : ℕ) (st : Reading V) → IsRead st → Reads (start_variation r index st)
  unfolding start_variation
  start_variation-Reads index st t =
      let (n, h) = get_elem?-lt st.nodes st.current t.here in
      Reads-map (get_elem? st.nodes st.current) _ n h (
        leave_parent-IsTree index st n.parent_index
          (λ p e. IsTree-parent st.nodes st.current st.rav st.current p t h e) t)

  pop_variation-IsTree :
      (index : ℕ) (st : Reading V) (ns : List ℕ)
      → All (λ (n : ℕ). n < length st.nodes) ns
      → st.rav ≡ ns
      → IsRead st
      → IsRead (pop_variation r index st ns)
  pop_variation-IsTree index st [] back same t = record {
    grown = t.grown;
    here = t.here;
    back = t.back;
  }
  pop_variation-IsTree index st (n ∷ ns) back same t = record {
    grown = t.grown;
    here = back.0;
    back = back.1;
  }

  add_move-Reads :
      (g : Group) (token : Text) (index : ℕ) (st : Reading V)
      → IsRead st
      → Reads (add_move r g token index st)
  unfolding add_move add_node new_node with_position
  add_move-Reads g token index st t =
      let (n, h) = get_elem?-lt st.nodes st.current t.here in
      Reads-map (get_elem? st.nodes st.current) (add_node r g token index st) n h (
        IsTree-grow st.nodes st.current st.rav n _ t h
          (elim (Bool-cases (is_legal r g st.validator)) [ inl e ↦ rw e refl | inr e ↦ rw e refl ]))

  update_node-IsTree :
      (i : ℕ) (f : MoveNode → MoveNode) (st : Reading V)
      → ((n : MoveNode) → shape (f n) ≡ shape n)
      → IsRead st
      → IsRead (update_node r i f st)
  update_node-IsTree i f st same t = IsTree-update i f st.nodes st.current st.rav same t

  add_comment-IsTree :
      (text : Text) (index : ℕ) (st : Reading V) → IsRead st → IsRead (add_comment r text index st)
  unfolding add_comment comment_observations
  add_comment-IsTree text index st t = elim (Bool-cases st.at_variation_start) [
    | inl e ↦ rw e (IsTree-update 0 _ st.nodes st.current st.rav (λ n. refl) t)
    | inr e ↦ rw e (
        IsTree-update st.current _ _ st.current st.rav (λ n. refl)
          (IsTree-update st.current _ st.nodes st.current st.rav (λ n. refl) t))
  ]

  add_check-IsTree : (token : Text) (st : Reading V) → IsRead st → IsRead (add_check r token st)
  unfolding add_check
  add_check-IsTree token st t = elim (Bool-cases (st.current == 0)) [
    | inl e ↦ rw e t
    | inr e ↦ rw e (update_node-IsTree st.current _ st (λ n. refl) t)
  ]

  interpret-Reads :
      (k : Kind) (m : Match) (index : ℕ) (st : Reading V)
      → IsRead st
      → Reads (interpret r k m index st)
  unfolding interpret end_variation add_nag add_result
  interpret-Reads variation_start m index st t = start_variation-Reads index st t
  interpret-Reads variation_end m index st t =
      (_, refl, pop_variation-IsTree index st st.rav t.back refl t)
  interpret-Reads move m index st t =
      add_move-Reads m.group (slice m.start m.finish r.text) index st t
  interpret-Reads comment_kind m index st t = (_, refl, add_comment-IsTree _ index st t)
  interpret-Reads comment_eol m index st t = (_, refl, add_comment-IsTree _ index st t)
  interpret-Reads check m index st t = (_, refl, add_check-IsTree _ st t)
  interpret-Reads nag m index st t = (_, refl, update_node-IsTree st.current _ st (λ n. refl) t)
  interpret-Reads symbolic_nag m index st t =
      (_, refl, update_node-IsTree st.current _ st (λ n. refl) t)
  interpret-Reads unknown m index st t = (_, refl, t)
  interpret-Reads result_kind m index st t = (_, refl, t)
  interpret-Reads header m index st t = (_, refl, t)
  interpret-Reads number_kind m index st t = (_, refl, t)
  interpret-Reads dots_kind m index st t = (_, refl, t)
  interpret-Reads escape_kind m index st t = (_, refl, t)
  interpret-Reads reserved_kind m index st t = (_, refl, t)
  interpret-Reads eof_marker m index st t = (_, refl, t)
  interpret-Reads byte_order_mark m index st t = (_, refl, t)
  interpret-Reads unknown_gap m index st t = (_, refl, t)
  interpret-Reads unknown_tail m index st t = (_, refl, t)

  lex_gap-IsTree : (m : Match) (st : Reading V) → IsRead st → IsRead (lex_gap r m st)
  unfolding lex_gap
  lex_gap-IsTree m st t =
      elim (Bool-cases (is_empty (strip (slice st.previous_end m.start r.text)))) [
        | inl e ↦ rw e t
        | inr e ↦ rw e t
      ]

  settle_validator-IsTree :
      (index : ℕ) (v : V × Option Text) (st : Reading V)
      → IsRead st
      → IsRead (settle_validator r index v st)
  settle_validator-IsTree index (v, none) st t = record {
    grown = t.grown;
    here = t.here;
    back = t.back;
  }
  settle_validator-IsTree index (v, some e) st t = record {
    grown = t.grown;
    here = t.here;
    back = t.back;
  }

  validated-IsTree :
      (b : Bool) (index : ℕ) (m : Match) (st : Reading V)
      → IsRead st
      → IsRead (validated r b index m st)
  validated-IsTree false index m st t = t
  validated-IsTree true index m st t =
      settle_validator-IsTree index (r.add_token st.validator m.start) st t

  step-Reads : (m : Match) (st : Reading V) → IsRead st → Reads (step r m st)
  unfolding step lex_token
  step-Reads m st t =
      let gap : Reading V = lex_gap r m st in
      interpret-Reads (kind_of m.group) m (length gap.tokens) (lex_token r m gap)
        (validated-IsTree r.supported (length gap.tokens) m _ (lex_gap-IsTree m st t))

  read-Reads : (ms : List Match) (st : Reading V) → IsRead st → Reads (read r ms st)
  unfolding read
  read-Reads [] st t = (st, refl, t)
  read-Reads (m ∷ ms) st t =
      let (next, h, t') = step-Reads m st t in rw (h, read) (read-Reads ms next t')

  end_tail-IsTree : (st : Reading V) → IsRead st → IsRead (end_tail r st)
  unfolding end_tail
  end_tail-IsTree st t = elim (Bool-cases (is_empty (strip (drop st.previous_end r.text)))) [
    | inl e ↦ rw e t
    | inr e ↦ rw e t
  ]

  end-IsTree : (st : Reading V) → IsRead st → IsRead (end_structure r (end_tail r st))
  unfolding end_structure
  end-IsTree st t =
      IsTree-update 0 _ (end_tail r st).nodes (end_tail r st).current (end_tail r st).rav
        (λ n. refl) (end_tail-IsTree st t)

  -- The loop of parse_game_evidence returns on any matches, balanced or not, and whatever the
  -- validator says; its nodes are a tree grown from the root, each new node with the next index, an
  -- earlier node as its parent and the ply after that node's.
  pub parse_tokens-Grown :
      (v : V) (fen : Option Text) (issues : List Issue) (ms : List Match)
      → (end : Reading V) × (parse_tokens r ms (start_reading r v fen issues) ≡ some end)
        × Grown (map shape end.nodes)
  unfolding parse_tokens start_reading
  parse_tokens-Grown v fen issues ms =
      let begun : IsRead (start_reading r v fen issues) = record {
        grown = root;
        here = omega arith;
        back = tt;
      } in
      let (last, h, t) = read-Reads ms (start_reading r v fen issues) begun in
      (
        end_structure r (end_tail r last),
        ap (Option.map (λ (s : Reading V). end_structure r (end_tail r s))) h,
        (end-IsTree last t).grown,
      )
