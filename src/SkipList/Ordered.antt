-- ===== src/SkipList/Ordered.antt =====
-- The order of the nodes of a skip list, and what its search then finds.
use ymd.Common.{
  ℕ, ◌+◌, ◌≤◌, ◌<◌, ◌≡◌, inl, inr, refl, subst, arith, if◌then◌else◌, Bool-cases, Bool, true, false,
  none, some, List, [], ◌∷◌, length, In,
}
use ymd.Common.Int.{pos, ltb_ℤ}
use ymd.Chunk.{Variable}
use ymd.HashMap.{is_nil}
use ymd.SkipList.{Sknd, Skls, Order}

-- compare(a, b) < 0
abbrev pub less : Order → Variable → Variable → Bool
less order a b = ltb_ℤ (order.compare a b) (pos 0)

abbrev pub Less : Order → Variable → Variable → Type 0
Less order a b = less order a b ≡ true

-- What the list needs of the keys: a strict order, in which keys that neither precedes are equal.
pub record IsLawful (order : Order) : Type 0 where
  pub not_nil : (a : Variable) → order.usable a ≡ true → is_nil a ≡ false
  pub asym :
      (a b : Variable)
      → order.usable a ≡ true
      → order.usable b ≡ true
      → Less order a b
      → Less order b a
      → ⊥
  pub trans :
      (a b c : Variable)
      → order.usable a ≡ true
      → order.usable b ≡ true
      → order.usable c ≡ true
      → Less order a b
      → Less order b c
      → Less order a c
  pub total :
      (a b : Variable)
      → order.usable a ≡ true
      → order.usable b ≡ true
      → less order a b ≡ false
      → order.equals a b ≡ false
      → Less order b a
  pub less_equals :
      (a b c : Variable)
      → order.usable a ≡ true
      → order.usable b ≡ true
      → order.usable c ≡ true
      → Less order a b
      → order.equals c b ≡ true
      → Less order a c
  pub same :
      (a b c : Variable)
      → order.usable a ≡ true
      → order.usable b ≡ true
      → order.usable c ≡ true
      → order.equals a b ≡ true
      → order.equals a c ≡ order.equals b c
  pub equals_less :
      (a b c : Variable)
      → order.usable a ≡ true
      → order.usable b ≡ true
      → order.usable c ≡ true
      → Less order a b
      → order.equals b c ≡ true
      → Less order a c

-- The lowest level leads from `x` through the nodes of the list to its end.
abbrev pub Along : (ℕ → Sknd) → ℕ → List ℕ → Type 0
Along node x [] = (node x).fwd 0 ≡ none
Along node x (y ∷ ys) = ((node x).fwd 0 ≡ some y) × Along node y ys

abbrev pub Ascending : Order → (ℕ → Sknd) → List ℕ → Type 0
Ascending order node [] = Unit
Ascending order node (x ∷ xs) =
    ((y : ℕ) → In y xs → Less order (node x).k (node y).k) × Ascending order node xs

-- The list runs through `nodes` in ascending order, and every level leads forward.
pub record IsOrdered (order : Order) (list : Skls) (nodes : List ℕ) : Type 0 where
  pub along : Along list.node list.head nodes
  pub ascending : Ascending order list.node nodes
  pub usable : (x : ℕ) → In x nodes → order.usable (list.node x).k ≡ true
  pub inside : (i x y : ℕ) → In x (list.head ∷ nodes) → (list.node x).fwd i ≡ some y → In y nodes
  pub forward :
      (i x y : ℕ)
      → In x nodes
      → (list.node x).fwd i ≡ some y
      → Less order (list.node x).k (list.node y).k
  pub high : (i x : ℕ) → list.lv ≤ i → In x (list.head ∷ nodes) → (list.node x).fwd i ≡ none
  pub apart : In list.head nodes → ⊥
  pub old : (x : ℕ) → In x (list.head ∷ nodes) → x < list.fresh
  pub size : length nodes ≤ list.count

-- How many nodes have a greater key.
pub above : Order → (ℕ → Sknd) → Variable → List ℕ → ℕ
above order node a [] = 0
above order node a (x ∷ xs) =
    let rest = above order node a xs in if less order a (node x).k then rest + 1 else rest

module _ (order : Order) (node : ℕ → Sknd) where
  above_le :
      (a b : Variable) (xs : List ℕ)
      → ((z : ℕ) → In z xs → Less order b (node z).k → Less order a (node z).k)
      → above order node b xs ≤ above order node a xs
  unfolding above
  above_le a b [] h = omega arith
  above_le a b (x ∷ xs) h =
      let r = above_le a b xs (λ z p. h z (inr p)) in
      elim (Bool-cases (less order b (node x).k)) [
        | inl e ↦ rw (e, h x (inl refl) e) (omega arith)
        | inr e ↦ rw e (ground arith)
      ]

  pub above_lt :
      (a b : Variable) (y : ℕ) (xs : List ℕ)
      → ((z : ℕ) → In z xs → Less order b (node z).k → Less order a (node z).k)
      → In y xs
      → Less order a (node y).k
      → less order b (node y).k ≡ false
      → above order node b xs < above order node a xs
  unfolding above
  above_lt a b y [] h p l n = elim p [ ]
  above_lt a b y (x ∷ xs) h (inl e) l n =
      let r = above_le a b xs (λ z p. h z (inr p)) in
      let l' : Less order a (node x).k = subst (λ t. Less order a (node t).k) e l in
      let n' : less order b (node x).k ≡ false = subst (λ t. less order b (node t).k ≡ false) e n in
      rw (l', n') (omega arith)
  above_lt a b y (x ∷ xs) h (inr p) l n =
      let r = above_lt a b y xs (λ z q. h z (inr q)) p l n in
      elim (Bool-cases (less order b (node x).k)) [
        | inl e ↦ rw (e, h x (inl refl) e) (omega arith)
        | inr e ↦ rw e (ground arith)
      ]

  above_le_length : (a : Variable) (xs : List ℕ) → above order node a xs ≤ length xs
  unfolding above
  above_le_length a [] = omega arith
  above_le_length a (x ∷ xs) = ground (arith, above_le_length a xs)

  pub above_lt_length :
      (a : Variable) (y : ℕ) (xs : List ℕ)
      → In y xs
      → less order a (node y).k ≡ false
      → above order node a xs < length xs
  unfolding above
  above_lt_length a y [] p n = elim p [ ]
  above_lt_length a y (x ∷ xs) (inl e) n =
      let n' : less order a (node x).k ≡ false = subst (λ t. less order a (node t).k ≡ false) e n in
      let r = above_le_length a xs in rw n' (omega arith)
  above_lt_length a y (x ∷ xs) (inr p) n = ground (arith, above_lt_length a y xs p n)
