-- ===== src/Evidence/Growth.antt =====
-- Trees of moves as their indices, parents and plies, and the lists of nodes that hold one: what
-- parse_game_evidence does to its nodes.
use chess_crawl.Prelude.{
  ℕ, zero, suc, ◌+◌, ◌<◌, ◌≡◌, refl, sym, ap, subst, ◌∙◌, Option, none, some, List, [], ◌∷◌, ◌++◌,
  map, arith, length, length-append, get_elem?, All, All-append, All-map, some_eq,
}
use chess_crawl.Evidence.{MoveNode}
use chess_crawl.Evidence.Reading.{Reading, update_at}

-- The index, the parent and the ply of a node.
abbrev pub Shape : Type 0
Shape = ℕ × Option ℕ × ℕ

abbrev pub shape : MoveNode → Shape
shape n = (n.node_index, n.parent_index, n.ply)

-- The trees that grow from the root: a new node has the next index, some earlier node as its
-- parent, and the ply after that node's.
pub data Grown : List Shape → Type 0 where
  root : Grown ((0, none, 0) ∷ [])
  grow :
      (ss : List Shape) (p i ply : ℕ) (q : Option ℕ)
      → Grown ss
      → get_elem? ss p ≡ some (i, q, ply)
      → Grown (ss ++ (length ss, some p, ply + 1) ∷ [])

pub get_elem?-lt {ℓ} :
    {A : Type ℓ} (xs : List A) (i : ℕ) → i < length xs → (a : A) × (get_elem? xs i ≡ some a)
get_elem?-lt [] i h = absurd (omega (arith, h))
get_elem?-lt (x ∷ xs) zero h = (x, refl)
get_elem?-lt (x ∷ xs) (suc i) h = get_elem?-lt xs i (omega (arith, h))

get_elem?-some {ℓ} :
    {A : Type ℓ} (xs : List A) (i : ℕ) {a : A} → get_elem? xs i ≡ some a → i < length xs
get_elem?-some [] i h = absurd (ground (arith, h))
get_elem?-some (x ∷ xs) zero h = omega arith
get_elem?-some (x ∷ xs) (suc i) h = omega (arith, get_elem?-some xs i h)

length-map {ℓ κ} :
    {A : Type ℓ} {B : Type κ} (f : A → B) (xs : List A) → length (map f xs) ≡ length xs
length-map f [] = refl
length-map f (x ∷ xs) = ap suc (length-map f xs)

get_elem?-map {ℓ κ} :
    {A : Type ℓ} {B : Type κ} (f : A → B) (xs : List A) (i : ℕ) {a : A}
    → get_elem? xs i ≡ some a
    → get_elem? (map f xs) i ≡ some (f a)
get_elem?-map f [] i h = absurd (ground (arith, h))
get_elem?-map f (x ∷ xs) zero h = ap (λ a. some (f a)) (some_eq h)
get_elem?-map f (x ∷ xs) (suc i) h = get_elem?-map f xs i h

map-update_at :
    (i : ℕ) (f : MoveNode → MoveNode) (ns : List MoveNode)
    → ((n : MoveNode) → shape (f n) ≡ shape n)
    → map shape (update_at i f ns) ≡ map shape ns
map-update_at i f [] same = refl
map-update_at zero f (n ∷ ns) same = ap (λ (s : Shape). s ∷ map shape ns) (same n)
map-update_at (suc i) f (n ∷ ns) same =
    ap (λ (ss : List Shape). shape n ∷ ss) (map-update_at i f ns same)

map-append {ℓ κ} :
    {A : Type ℓ} {B : Type κ} (f : A → B) (xs ys : List A) → map f (xs ++ ys) ≡ map f xs ++ map f ys
map-append f [] ys = refl
map-append f (x ∷ xs) ys = ap (λ zs. f x ∷ zs) (map-append f xs ys)

-- A parent stands before the end.
abbrev HasParent : ℕ → Shape → Type 0
HasParent end s = (p : ℕ) → s.1 ≡ some p → p < end

parent-lt : (p n : ℕ) → p < n → (p' : ℕ) → some p ≡ some p' → p' < n + 1
parent-lt p n h p' e = let same : p ≡ p' = some_eq e in omega (arith, h, same)

pub Grown-HasParent : (ss : List Shape) → Grown ss → All (HasParent (length ss)) ss
Grown-HasParent _ root = (λ p h. absurd (ground (arith, h)), tt)
Grown-HasParent _ (grow ss p i ply q g h) =
    subst (λ (n : ℕ). All (HasParent n) (ss ++ (length ss, some p, ply + 1) ∷ []))
      (sym (length-append ss ((length ss, some p, ply + 1) ∷ [])))
      (All-append (HasParent (length ss + 1)) ss ((length ss, some p, ply + 1) ∷ [])
        (All-map (HasParent (length ss)) (HasParent (length ss + 1))
          (λ s before p' e. let lt = before p' e in omega (arith, lt)) ss (Grown-HasParent ss g))
        (parent-lt p (length ss) (get_elem?-some ss p h), tt))

All-get_elem? {ℓ κ} :
    {A : Type ℓ} (P : A → Type κ) (xs : List A) (i : ℕ) {a : A}
    → All P xs
    → get_elem? xs i ≡ some a
    → P a
All-get_elem? P [] i all h = absurd (ground (arith, h))
All-get_elem? P (x ∷ xs) zero all h = subst P (some_eq h) all.0
All-get_elem? P (x ∷ xs) (suc i) all h = All-get_elem? P xs i all.1 h

-- The tree with the node that is read and those that end a variation.
pub record IsTree (ns : List MoveNode) (current : ℕ) (rav : List ℕ) : Type 0 where
  pub grown : Grown (map shape ns)
  pub here : current < length ns
  pub back : All (λ (n : ℕ). n < length ns) rav

abbrev pub IsRead : {V : Type 0} → Reading V → Type 0
IsRead {V} st = IsTree st.nodes st.current st.rav

pub IsTree-parent :
    (ns : List MoveNode) (current : ℕ) (rav : List ℕ) (i : ℕ) {n : MoveNode} (p : ℕ)
    → IsTree ns current rav
    → get_elem? ns i ≡ some n
    → n.parent_index ≡ some p
    → p < length ns
IsTree-parent ns current rav i {n} p t h e =
    subst (λ (k : ℕ). p < k) (length-map shape ns)
      (All-get_elem? (HasParent (length (map shape ns))) (map shape ns) i
        (Grown-HasParent (map shape ns) t.grown) (get_elem?-map shape ns i h) p e)

pub IsTree-update :
    (i : ℕ) (f : MoveNode → MoveNode) (ns : List MoveNode) (current : ℕ) (rav : List ℕ)
    → ((n : MoveNode) → shape (f n) ≡ shape n)
    → IsTree ns current rav
    → IsTree (update_at i f ns) current rav
IsTree-update i f ns current rav same t =
    let shapes : map shape (update_at i f ns) ≡ map shape ns = map-update_at i f ns same in
    let size : length (update_at i f ns) ≡ length ns =
      sym (length-map shape (update_at i f ns)) ∙ ap length shapes ∙ length-map shape ns in
    record {
      grown = subst Grown (sym shapes) t.grown;
      here = subst (λ (k : ℕ). current < k) (sym size) t.here;
      back = subst (λ (k : ℕ). All (λ (n : ℕ). n < k) rav) (sym size) t.back;
    }

-- A move at the node that is read.
pub IsTree-grow :
    (ns : List MoveNode) (current : ℕ) (rav : List ℕ) (parent n : MoveNode)
    → IsTree ns current rav
    → get_elem? ns current ≡ some parent
    → shape n ≡ (length ns, some current, parent.ply + 1)
    → IsTree (ns ++ n ∷ []) (length ns) rav
IsTree-grow ns current rav parent n t h same =
    let sized : shape n ≡ (length (map shape ns), some current, parent.ply + 1) =
      same ∙ ap (λ (k : ℕ). (k, some current, parent.ply + 1)) (sym (length-map shape ns)) in
    let size : length (ns ++ n ∷ []) ≡ length ns + 1 = length-append ns (n ∷ []) in
    record {
      grown =
          subst Grown
            (sym (map-append shape ns (n ∷ []) ∙ ap (λ (s : Shape). map shape ns ++ s ∷ []) sized))
            (grow (map shape ns) current parent.node_index parent.ply parent.parent_index t.grown
              (get_elem?-map shape ns current h));
      here = omega (arith, size);
      back =
          All-map (λ (k : ℕ). k < length ns) (λ (k : ℕ). k < length (ns ++ n ∷ []))
            (λ k lt. omega (arith, lt, size)) rav t.back;
    }
