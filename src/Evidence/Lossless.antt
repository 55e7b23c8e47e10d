-- ===== src/Evidence/Lossless.antt =====
-- The tokens of parse_game_evidence against the text they were read from.
use mathlib.Core.List.{append_assoc, append-nil}
use chess_crawl.Prelude.Texts.{strip}
use chess_crawl.Evidence.Blanks.{
  no_blanks, no_blanks-append, no_blanks-empty, take-slice, take-drop,
}
use chess_crawl.Prelude.{
  ℕ, ◌≤◌, ◌≡◌, refl, sym, ap, subst, ◌∙◌, Bool, true, false, Option, none, some, List, [], ◌∷◌,
  ◌++◌, arith, take, length, Bool-cases, Option-cases, inl, inr, if◌then◌else◌, Text, get_elem?,
  some_eq, ◌==◌,
}
use mathlib.Core.Option
use chess_crawl.Evidence.{
  Group, Issue, Kind, Match, Token, drop, slice, is_empty, kind_of, MoveNode, unknown_gap, header,
  result_kind, comment_kind, comment_eol, variation_start, variation_end, nag, symbolic_nag, check,
  move, unknown, unknown_tail, byte_order_mark, number_kind, dots_kind, escape_kind, reserved_kind,
  eof_marker,
}
use chess_crawl.Evidence.Reading.{
  Reader, Reading, lex_gap, lex_token, settle_validator, validated, start_variation, end_variation,
  leave_parent, pop_variation, token_of,
}
use chess_crawl.Evidence.Parser.{
  mark_last, mark_preserved, add_move, add_node, add_comment, add_check, add_nag, add_result,
  interpret, step, read, end_tail, end_structure, parse_tokens, start_reading, comment_observations,
  has_bom,
}

abbrev pub joined_text : List Token → Text
joined_text [] = []
joined_text (t ∷ ts) = t.token_text ++ joined_text ts

joined_text-append :
    (ts us : List Token) → joined_text (ts ++ us) ≡ joined_text ts ++ joined_text us
joined_text-append [] us = refl
joined_text-append (t ∷ ts) us =
    ap (λ (s : Text). t.token_text ++ s) (joined_text-append ts us)
    ∙ sym (append_assoc t.token_text (joined_text ts) (joined_text us))

joined_text-last : (ts : List Token) → joined_text (mark_last ts) ≡ joined_text ts
joined_text-last [] = refl
joined_text-last (t ∷ []) = refl
joined_text-last (t ∷ u ∷ ts) = ap (λ (s : Text). t.token_text ++ s) (joined_text-last (u ∷ ts))

joined_text-preserved : (ts : List Token) → joined_text (mark_preserved ts) ≡ joined_text ts
joined_text-preserved [] = refl
joined_text-preserved (t ∷ []) = refl
joined_text-preserved (t ∷ u ∷ ts) =
    ap (λ (s : Text). t.token_text ++ s) (joined_text-preserved (u ∷ ts))

joined_text-snoc :
    (ts : List Token) (t : Token) → joined_text (ts ++ t ∷ []) ≡ joined_text ts ++ t.token_text
joined_text-snoc ts t =
    joined_text-append ts (t ∷ [])
    ∙ ap (λ (s : Text). joined_text ts ++ s) (append-nil t.token_text)

-- One more slice of the text on either side.
no_blanks-extend :
    (s e : ℕ) (t u : Text)
    → s ≤ e
    → no_blanks (take s t) ≡ no_blanks u
    → no_blanks (take e t) ≡ no_blanks (u ++ slice s e t)
no_blanks-extend s e t u le same =
    ap no_blanks (take-slice s e t le)
    ∙ no_blanks-append (take s t) (slice s e t)
    ∙ ap (λ (v : Text). v ++ no_blanks (slice s e t)) same
    ∙ sym (no_blanks-append u (slice s e t))

no_blanks-pass :
    (s e : ℕ) (t u : Text)
    → s ≤ e
    → no_blanks (slice s e t) ≡ []
    → no_blanks (take s t) ≡ no_blanks u
    → no_blanks (take e t) ≡ no_blanks u
no_blanks-pass s e t u le blank same =
    no_blanks-extend s e t u le same
    ∙ no_blanks-append u (slice s e t)
    ∙ ap (λ (v : Text). no_blanks u ++ v) blank
    ∙ append-nil (no_blanks u)

-- finditer: the matches do not overlap, and stand from left to right.
abbrev pub IsOrdered : ℕ → List Match → Type 0
IsOrdered end [] = Unit
IsOrdered end (m ∷ ms) = (end ≤ m.start) × (m.start ≤ m.finish) × IsOrdered m.finish ms

module _ {V : Type 0} (r : Reader V) where
  -- The text up to the position is the tokens' texts, blanks aside.
  abbrev Covers : ℕ → List Token → Type 0
  Covers end ts = no_blanks (take end r.text) ≡ no_blanks (joined_text ts)

  lex_gap-Covers :
      (m : Match) (st : Reading V)
      → st.previous_end ≤ m.start
      → Covers st.previous_end st.tokens
      → Covers m.start (lex_gap r m st).tokens × ((lex_gap r m st).previous_end ≡ m.finish)
  unfolding lex_gap
  lex_gap-Covers m st le same =
      let gap : Text = slice st.previous_end m.start r.text in
      elim (Bool-cases (is_empty (strip gap))) [
        | inl e ↦ rw e (
          no_blanks-pass st.previous_end m.start r.text (joined_text st.tokens) le
              (no_blanks-empty gap e) same,
          refl,
        )
        | inr e ↦ rw e (
          no_blanks-extend st.previous_end m.start r.text (joined_text st.tokens) le same
              ∙ ap no_blanks (sym (joined_text-snoc st.tokens _)),
          refl,
        )
      ]

  settle_validator-same :
      (index : ℕ) (v : V × Option Text) (st : Reading V)
      → ((settle_validator r index v st).tokens ≡ st.tokens)
        × ((settle_validator r index v st).previous_end ≡ st.previous_end)
  settle_validator-same index (v, none) st = (refl, refl)
  settle_validator-same index (v, some e) st = (refl, refl)

  validated-same :
      (b : Bool) (index : ℕ) (m : Match) (st : Reading V)
      → ((validated r b index m st).tokens ≡ st.tokens)
        × ((validated r b index m st).previous_end ≡ st.previous_end)
  validated-same false index m st = (refl, refl)
  validated-same true index m st = settle_validator-same index (r.add_token st.validator m.start) st

  lex_token-Covers :
      (m : Match) (st : Reading V)
      → m.start ≤ m.finish
      → Covers m.start st.tokens
      → Covers m.finish (lex_token r m st).tokens
        × ((lex_token r m st).previous_end ≡ st.previous_end)
  unfolding lex_token
  lex_token-Covers m st le same =
      let grown : Reading V = record st {
        tokens = st.tokens ++ token_of r m (length st.tokens) ∷ [];
      } in
      let kept = validated-same r.supported (length st.tokens) m grown in
      (
        no_blanks-extend m.start m.finish r.text (joined_text st.tokens) le same
            ∙ ap no_blanks (sym (joined_text-snoc st.tokens (token_of r m (length st.tokens))))
            ∙ ap (λ (ts : List Token). no_blanks (joined_text ts)) (sym kept.0),
        kept.1,
      )

  -- What interprets a token changes at most the status of the last one.
  abbrev Keeps : Reading V → Reading V → Type 0
  Keeps st st' =
      (joined_text st'.tokens ≡ joined_text st.tokens) × (st'.previous_end ≡ st.previous_end)

  Keeps-some :
      (st next : Reading V) {st' : Reading V} → Keeps st next → some next ≡ some st' → Keeps st st'
  Keeps-some st next kept h = subst (λ (s : Reading V). Keeps st s) (some_eq h) kept

  Keeps-map :
      (st : Reading V) (f : MoveNode → Reading V) (o : Option MoveNode) {st' : Reading V}
      → ((n : MoveNode) → Keeps st (f n))
      → Option.map f o ≡ some st'
      → Keeps st st'
  Keeps-map st f none kept h = cc
  Keeps-map st f (some n) kept h = Keeps-some st (f n) (kept n) h

  leave_parent-Keeps :
      (index : ℕ) (st : Reading V) (o : Option ℕ) → Keeps st (leave_parent r index st o)
  leave_parent-Keeps index st none = (refl, refl)
  leave_parent-Keeps index st (some n) = (refl, refl)

  pop_variation-Keeps :
      (index : ℕ) (st : Reading V) (ns : List ℕ) → Keeps st (pop_variation r index st ns)
  pop_variation-Keeps index st [] = (refl, refl)
  pop_variation-Keeps index st (n ∷ ns) = (refl, refl)

  joined_text-if :
      (b : Bool) (ts : List Token) → joined_text (if b then mark_last ts else ts) ≡ joined_text ts
  joined_text-if true ts = joined_text-last ts
  joined_text-if false ts = refl

  add_node-Keeps :
      (g : Group) (token : Text) (index : ℕ) (st : Reading V) (n : MoveNode)
      → Keeps st (add_node r g token index st n)
  unfolding add_node
  add_node-Keeps g token index st n = (joined_text-if _ st.tokens, refl)

  add_comment-Keeps :
      (text : Text) (index : ℕ) (st : Reading V) → Keeps st (add_comment r text index st)
  unfolding add_comment comment_observations
  add_comment-Keeps text index st = elim (Bool-cases st.at_variation_start) [
    | inl e ↦ rw e (refl, refl)
    | inr e ↦ rw e (refl, refl)
  ]

  add_check-Keeps : (token : Text) (st : Reading V) → Keeps st (add_check r token st)
  unfolding add_check
  add_check-Keeps token st = elim (Bool-cases (st.current == 0)) [
    | inl e ↦ rw e (refl, refl)
    | inr e ↦ rw e (refl, refl)
  ]

  interpret-Keeps :
      (k : Kind) (m : Match) (index : ℕ) (st : Reading V) {st' : Reading V}
      → interpret r k m index st ≡ some st'
      → Keeps st st'
  unfolding interpret start_variation end_variation add_move add_nag add_result
  interpret-Keeps variation_start m index st h =
      Keeps-map st _ (get_elem? st.nodes st.current)
        (λ n. leave_parent-Keeps index st n.parent_index) h
  interpret-Keeps variation_end m index st h =
      Keeps-some st _ (pop_variation-Keeps index st st.rav) h
  interpret-Keeps move m index st h =
      Keeps-map st _ (get_elem? st.nodes st.current)
        (λ n. add_node-Keeps m.group (slice m.start m.finish r.text) index st n) h
  interpret-Keeps comment_kind m index st h = Keeps-some st _ (add_comment-Keeps _ index st) h
  interpret-Keeps comment_eol m index st h = Keeps-some st _ (add_comment-Keeps _ index st) h
  interpret-Keeps check m index st h = Keeps-some st _ (add_check-Keeps _ st) h
  interpret-Keeps unknown m index st h = Keeps-some st _ (joined_text-preserved st.tokens, refl) h
  interpret-Keeps nag m index st h = Keeps-some st _ (refl, refl) h
  interpret-Keeps symbolic_nag m index st h = Keeps-some st _ (refl, refl) h
  interpret-Keeps result_kind m index st h = Keeps-some st _ (refl, refl) h
  interpret-Keeps header m index st h = Keeps-some st _ (refl, refl) h
  interpret-Keeps number_kind m index st h = Keeps-some st _ (refl, refl) h
  interpret-Keeps dots_kind m index st h = Keeps-some st _ (refl, refl) h
  interpret-Keeps escape_kind m index st h = Keeps-some st _ (refl, refl) h
  interpret-Keeps reserved_kind m index st h = Keeps-some st _ (refl, refl) h
  interpret-Keeps eof_marker m index st h = Keeps-some st _ (refl, refl) h
  interpret-Keeps byte_order_mark m index st h = Keeps-some st _ (refl, refl) h
  interpret-Keeps unknown_gap m index st h = Keeps-some st _ (refl, refl) h
  interpret-Keeps unknown_tail m index st h = Keeps-some st _ (refl, refl) h

  step-Covers :
      (m : Match) (st : Reading V) {st' : Reading V}
      → st.previous_end ≤ m.start
      → m.start ≤ m.finish
      → Covers st.previous_end st.tokens
      → step r m st ≡ some st'
      → Covers m.finish st'.tokens × (st'.previous_end ≡ m.finish)
  unfolding step
  step-Covers m st before le same h =
      let gap : Reading V = lex_gap r m st in
      let passed = lex_gap-Covers m st before same in
      let added = lex_token-Covers m gap le passed.0 in
      let kept = interpret-Keeps (kind_of m.group) m (length gap.tokens) (lex_token r m gap) h in
      (added.0 ∙ ap no_blanks (sym kept.0), kept.1 ∙ added.1 ∙ passed.1)

  read-Covers :
      (ms : List Match) (st : Reading V) {st' : Reading V}
      → IsOrdered st.previous_end ms
      → Covers st.previous_end st.tokens
      → read r ms st ≡ some st'
      → Covers st'.previous_end st'.tokens
  unfolding read
  read-Covers [] st ordered same h =
      subst (λ (s : Reading V). Covers s.previous_end s.tokens) (some_eq h) same
  read-Covers (m ∷ ms) st {st'} ordered same h = elim (Option-cases (step r m st)) [
    | inl e ↦ absurd (ground (arith, e, h))
    | inr (next, e) ↦
        let made = step-Covers m st ordered.0 ordered.1 same e in
        read-Covers ms next (subst (λ (n : ℕ). IsOrdered n ms) (sym made.1) ordered.2)
          (subst (λ (n : ℕ). Covers n next.tokens) (sym made.1) made.0)
          (subst
            (λ (o : Option (Reading V)). elim o [ none ↦ none | some n ↦ read r ms n ] ≡ some st') e
            h)
  ]

  end_tail-joined :
      (st : Reading V)
      → Covers st.previous_end st.tokens
      → no_blanks r.text ≡ no_blanks (joined_text (end_tail r st).tokens)
  unfolding end_tail
  end_tail-joined st same =
      let rest : Text = drop st.previous_end r.text in
      let whole : no_blanks r.text ≡ no_blanks (joined_text st.tokens) ++ no_blanks rest =
        ap no_blanks (take-drop st.previous_end r.text)
        ∙ no_blanks-append (take st.previous_end r.text) rest
        ∙ ap (λ (t : Text). t ++ no_blanks rest) same in
      elim (Bool-cases (is_empty (strip rest))) [
        | inl e ↦ rw e (
            whole
            ∙ ap (λ (t : Text). no_blanks (joined_text st.tokens) ++ t) (no_blanks-empty rest e)
            ∙ append-nil (no_blanks (joined_text st.tokens)))
        | inr e ↦ rw e (
            whole
            ∙ sym (no_blanks-append (joined_text st.tokens) rest)
            ∙ ap no_blanks (sym (joined_text-snoc st.tokens _)))
      ]

  start_reading-Covers :
      (v : V) (fen : Option Text) (issues : List Issue)
      → Covers (start_reading r v fen issues).previous_end (start_reading r v fen issues).tokens
  unfolding start_reading
  start_reading-Covers v fen issues = elim (Bool-cases (has_bom r r.text)) [
    | inl e ↦ rw e (ap no_blanks (sym (append-nil (slice 0 1 r.text))))
    | inr e ↦ rw e refl
  ]

  -- Where the matches stand in order and do not overlap, and the loop of parse_game_evidence
  -- returns, the texts of the tokens, gaps and tail included, joined in their order are the source
  -- text but for blanks.
  pub parse_tokens-joined :
      (v : V) (fen : Option Text) (issues : List Issue) (ms : List Match) {end : Reading V}
      → IsOrdered (start_reading r v fen issues).previous_end ms
      → parse_tokens r ms (start_reading r v fen issues) ≡ some end
      → no_blanks (joined_text end.tokens) ≡ no_blanks r.text
  unfolding parse_tokens end_structure
  parse_tokens-joined v fen issues ms {end} ordered h =
      let first : Reading V = start_reading r v fen issues in
      elim (Option-cases (read r ms first)) [
        | inl e ↦ absurd (ground (arith, e, h))
        | inr (last, e) ↦
            let covered = read-Covers ms first ordered (start_reading-Covers v fen issues) e in
            let ended : end_structure r (end_tail r last) ≡ end = some_eq (
              subst
                (λ (o : Option (Reading V)).
                  Option.map (λ (s : Reading V). end_structure r (end_tail r s)) o ≡ some end)
                e h) in
            subst (λ (s : Reading V). no_blanks (joined_text s.tokens) ≡ no_blanks r.text) ended
              (sym (end_tail-joined last covered))
      ]
