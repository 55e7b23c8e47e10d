-- ===== src/Evidence/Blanks.antt =====
-- Texts without their blanks, and the slices that make up a text.
use mathlib.Core.List.{append-nil, reverse, reverse-cons, reverse-reverse}
use chess_crawl.Prelude.Texts.{strip, lstrip}
use chess_crawl.Prelude.{
  ℕ, zero, suc, ◌-◌, ◌≤◌, ◌≡◌, refl, sym, ap, ◌∙◌, Bool, true, false, not, List, [], ◌∷◌, ◌++◌,
  arith, select, take, Bool-cases, inl, inr, if◌then◌else◌, Text, is_space,
}
use chess_crawl.Evidence.{drop, slice, is_empty}

abbrev pub no_blanks : Text → Text
no_blanks t = select (λ (c : ℕ). not (is_space c)) t

select-append {ℓ} :
    {A : Type ℓ} (p : A → Bool) (xs ys : List A) → select p (xs ++ ys) ≡ select p xs ++ select p ys
select-append p [] ys = refl
select-append p (x ∷ xs) ys = elim (Bool-cases (p x)) [
  | inl e ↦ rw e (ap (λ zs. x ∷ zs) (select-append p xs ys))
  | inr e ↦ rw e (select-append p xs ys)
]

select-reverse {ℓ} :
    {A : Type ℓ} (p : A → Bool) (xs : List A) → select p (reverse xs) ≡ reverse (select p xs)
select-reverse p [] = refl
select-reverse p (x ∷ xs) =
    ap (select p) (reverse-cons x xs)
    ∙ select-append p (reverse xs) (x ∷ [])
    ∙ ap (λ zs. zs ++ select p (x ∷ [])) (select-reverse p xs)
    ∙ elim (Bool-cases (p x)) [
      | inl e ↦ rw e (sym (reverse-cons x (select p xs)))
      | inr e ↦ rw e (append-nil (reverse (select p xs)))
    ]

pub no_blanks-append : (s t : Text) → no_blanks (s ++ t) ≡ no_blanks s ++ no_blanks t
no_blanks-append s t = select-append (λ (c : ℕ). not (is_space c)) s t

no_blanks-reverse : (t : Text) → no_blanks (reverse t) ≡ reverse (no_blanks t)
no_blanks-reverse t = select-reverse (λ (c : ℕ). not (is_space c)) t

-- Any test of blanks, so that it stays closed.
select-skip :
    (blank : Bool) (c : ℕ) (t rest kept : Text) (p : ℕ → Bool)
    → p c ≡ not blank
    → select p rest ≡ select p t
    → select p (if blank then rest else c ∷ t) ≡ (if p c then c ∷ select p t else select p t)
select-skip true c t rest kept p h same = rw h same
select-skip false c t rest kept p h same = rw h refl

no_blanks-lstrip : (t : Text) → no_blanks (lstrip t) ≡ no_blanks t
unfolding lstrip
no_blanks-lstrip [] = refl
no_blanks-lstrip (c ∷ t) =
    select-skip (is_space c) c t (lstrip t) [] (λ (c' : ℕ). not (is_space c')) refl
      (no_blanks-lstrip t)

no_blanks-strip : (t : Text) → no_blanks (strip t) ≡ no_blanks t
unfolding strip
no_blanks-strip t =
    no_blanks-reverse (lstrip (reverse (lstrip t)))
    ∙ ap reverse (no_blanks-lstrip (reverse (lstrip t)) ∙ no_blanks-reverse (lstrip t))
    ∙ reverse-reverse (no_blanks (lstrip t))
    ∙ no_blanks-lstrip t

is_empty-eq : (t : Text) → is_empty t ≡ true → t ≡ []
is_empty-eq [] h = refl
is_empty-eq (c ∷ t) h = absurd (ground arith)

-- A text that strips to nothing is all blanks.
pub no_blanks-empty : (t : Text) → is_empty (strip t) ≡ true → no_blanks t ≡ []
no_blanks-empty t h = sym (no_blanks-strip t) ∙ ap no_blanks (is_empty-eq (strip t) h)

take-nil : (n : ℕ) → take {A = ℕ} n [] ≡ []
take-nil zero = refl
take-nil (suc n) = refl

pub take-slice : (s e : ℕ) (t : Text) → s ≤ e → take e t ≡ take s t ++ slice s e t
take-slice zero e t h = ap (λ n. take n t) (omega arith)
take-slice (suc s) zero t h = absurd (ground arith)
take-slice (suc s) (suc e) [] h = ground (arith, take-nil (e - s))
take-slice (suc s) (suc e) (c ∷ t) h =
    let shorter : suc e - suc s ≡ e - s = omega arith in
    ap (λ (u : Text). c ∷ u) (take-slice s e t (omega (arith, h)))
    ∙ ap (λ n. c ∷ (take s t ++ take n (drop s t))) (sym shorter)

pub take-drop : (s : ℕ) (t : Text) → t ≡ take s t ++ drop s t
take-drop zero t = refl
take-drop (suc s) [] = refl
take-drop (suc s) (c ∷ t) = ap (λ (u : Text). c ∷ u) (take-drop s t)
