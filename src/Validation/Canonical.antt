-- ===== src/Validation/Canonical.antt =====
-- The canonical form of a username: what application/validation.py returns passes again unchanged.
use mathlib.Core.List.{reverse, reverse-cons, reverse-reverse}
use chess_crawl.Prelude.Texts.{lower, strip, lstrip}
use chess_crawl.Prelude.{
  ℕ, ◌≡◌, refl, sym, ap, subst, ◌∙◌, Bool, true, false, Option, none, some, [], ◌∷◌, ◌++◌, length,
  arith, Bool-cases, inl, inr, Text, lower_code, lower-lower, is_space,
}
use chess_crawl.Prelude.Fallible.{ok}
use chess_crawl.Validation.{
  all_codes, is_alphanumeric, is_username_code, is_username, validate_username,
}

is_username_code-lower :
    (c : ℕ) → is_username_code c ≡ true → is_username_code (lower_code c) ≡ true
unfolding is_username_code is_alphanumeric
is_username_code-lower c h = ground arith

is_username_code-space : (c : ℕ) → is_username_code c ≡ true → is_space c ≡ false
unfolding is_username_code is_alphanumeric
is_username_code-space c h = ground arith

all_codes-lower :
    (t : Text) → all_codes is_username_code t ≡ true → all_codes is_username_code (lower t) ≡ true
unfolding lower
all_codes-lower [] h = refl
all_codes-lower (c ∷ t) h = ground (arith, is_username_code-lower c, all_codes-lower t)

length-lower : (t : Text) → length (lower t) ≡ length t
unfolding lower
length-lower [] = refl
length-lower (c ∷ t) = ground (arith, length-lower t)

lstrip-name : (t : Text) → all_codes is_username_code t ≡ true → lstrip t ≡ t
unfolding lstrip
lstrip-name [] h = refl
lstrip-name (c ∷ t) h = ground (arith, is_username_code-space c)

all_codes-append :
    (p : ℕ → Bool) (s t : Text)
    → all_codes p s ≡ true
    → all_codes p t ≡ true
    → all_codes p (s ++ t) ≡ true
all_codes-append p [] t hs ht = ht
all_codes-append p (c ∷ s) t hs ht = ground (arith, all_codes-append p s t)

all_codes-reverse :
    (p : ℕ → Bool) (t : Text) → all_codes p t ≡ true → all_codes p (reverse t) ≡ true
all_codes-reverse p [] h = refl
all_codes-reverse p (c ∷ t) h =
    subst (λ (s : Text). all_codes p s ≡ true) (sym (reverse-cons c t))
      (all_codes-append p (reverse t) (c ∷ []) (all_codes-reverse p t (ground arith))
        (ground arith))

strip-name : (t : Text) → all_codes is_username_code t ≡ true → strip t ≡ t
unfolding strip
strip-name t h =
    ap (λ (s : Text). reverse (lstrip (reverse s))) (lstrip-name t h)
    ∙ ap reverse (lstrip-name (reverse t) (all_codes-reverse is_username_code t h))
    ∙ reverse-reverse t

-- A name in lower case is its own canonical form.
validate_username-lower :
    (t : Text) → is_username t ≡ true → validate_username (some (lower t)) ≡ ok (lower t)
unfolding validate_username is_username
validate_username-lower t h =
    let named : all_codes is_username_code (lower t) ≡ true = all_codes-lower t (ground arith) in
    rw (strip-name (lower t) named, lower-lower t, length-lower t, named) (ground (arith, h))

-- A username that was accepted is canonical: validating it again accepts it unchanged.
pub validate_username-again :
    (username : Option Text) {name : Text}
    → validate_username username ≡ ok name
    → validate_username (some name) ≡ ok name
unfolding validate_username
validate_username-again none h = cc
validate_username-again (some t) {name} h = elim (Bool-cases (is_username (strip t))) [
  | inl e ↦
      let same : lower (strip t) ≡ name = ground (arith, h) in
      subst (λ (n : Text). validate_username (some n) ≡ ok n) same
        (validate_username-lower (strip t) e)
  | inr e ↦ absurd (ground (arith, h))
]
