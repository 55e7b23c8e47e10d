-- ===== src/Prelude/Members.antt =====
-- What holds of some member of a list, or of all, after a query or an update of the rows.
use mathlib.Core.Path.{◌≡◌, refl}
use mathlib.Core.Logic.{inl, inr}
use mathlib.Core.Bool.{Bool, true, false}
use mathlib.Core.List.{List, [], ◌∷◌, map}
use mathlib.Core.Option.{some}
use native.Mathlib.Omega.{arith}
use chess_crawl.Prelude.Tests.{Bool-cases}
use chess_crawl.Prelude.Lists.{any, select, All}

pub any-map {ℓ} :
    {A : Type ℓ} (p : A → Bool) (f : A → A) (xs : List A)
    → All (λ x. p x ≡ true → p (f x) ≡ true) xs
    → any p xs ≡ true
    → any p (map f xs) ≡ true
any-map p f [] all h = h
any-map p f (x ∷ xs) all h = elim (Bool-cases (p x)) [
  | inl e ↦ ground (arith, all.0 e)
  | inr e ↦ ground (arith, any-map p f xs all.1 (ground arith))
]

pub any-select {ℓ} :
    {A : Type ℓ} (p q : A → Bool) (xs : List A)
    → All (λ x. p x ≡ true → q x ≡ true) xs
    → any p xs ≡ true
    → any p (select q xs) ≡ true
any-select p q [] all h = h
any-select p q (x ∷ xs) all h = elim (Bool-cases (p x)) [
  | inl e ↦ ground (arith, all.0 e)
  | inr e ↦ ground (arith, any-select p q xs all.1 (ground arith))
]

pub any-none {ℓ} :
    {A : Type ℓ} (p : A → Bool) (xs : List A) → All (λ x. p x ≡ false) xs → any p xs ≡ false
any-none p [] all = refl
any-none p (x ∷ xs) all = ground (arith, all.0, any-none p xs all.1)

pub All-map {ℓ κ} :
    {A : Type ℓ} (P Q : A → Type κ) → ((x : A) → P x → Q x) → (xs : List A) → All P xs → All Q xs
All-map P Q f [] all = tt
All-map P Q f (x ∷ xs) all = (f x all.0, All-map P Q f xs all.1)

-- The rows of a query have what every row has, and pass its condition.
pub All-select_holds {ℓ κ} :
    {A : Type ℓ} (P : A → Type κ) (p : A → Bool) (xs : List A)
    → All P xs
    → All (λ x. P x × (p x ≡ true)) (select p xs)
All-select_holds P p [] all = tt
All-select_holds P p (x ∷ xs) all = elim (Bool-cases (p x)) [
  | inl e ↦ rw e ((all.0, e), All-select_holds P p xs all.1)
  | inr e ↦ rw e (All-select_holds P p xs all.1)
]

pub some_eq {ℓ} : {A : Type ℓ} {a b : A} → some a ≡ some b → a ≡ b
some_eq h = ground (arith, h)
