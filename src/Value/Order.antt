-- ===== src/Value/Order.antt =====
-- compare of value.c with dyay_compare and hmap_compare, on two variables at different addresses.
use ymd.Common.{
  ◌↔◌, ℕ, zero, suc, ◌+◌, ◌≡◌, refl, sym, ap, ◌∙◌, arith, ltb, ◌==◌, ==_iff, ◌^◌, if◌then◌else◌,
  Bool-cases, inl, inr, Bool, true, false, Option, none, some, List, [], ◌∷◌, get_elem?,
}
use ymd.Common.Int.{ℤ, pos, negsuc, ltb_ℤ, pos_part, neg_part, sub_ℕ}
use ymd.Kstr.{Kstr, kz_compare, first_difference, kstr_compare}
use ymd.Kstr.Order.{Compared, before, equal, behind, kz_compare-Compared}
use ymd.Dyay.{Dyay}
use ymd.Chunk.{Variable, nil, int, bool, ext, kstr, func, dyay, hmap, skls, mand}
use ymd.HashMap.{Hmap, Keys, taken, hfind}
use ymd.Value.{Heap, keys_of, usable}
use ymd.Value.Lawful.{Alike, equals→Alike, Alike→equals, kstr-usable}

-- T_NIL to T_MAND
abbrev pub type_of : Variable → ℕ
type_of nil = 0
type_of (int i) = 1
type_of (bool i) = 2
type_of (ext p) = 3
type_of (kstr kz) = 4
type_of (func p) = 5
type_of (dyay p) = 6
type_of (hmap p) = 7
type_of (skls p) = 8
type_of (mand p) = 9

-- safe_compare, on ints and on the numbers of types.
unfoldable pub safe_compare : ℤ → ℤ → ℤ
safe_compare l r = if ltb_ℤ l r then negsuc 0 else if ltb_ℤ r l then pos 1 else pos 0

-- rv + c, without a bound.
abbrev add : ℤ → ℤ → ℤ
add a b = sub_ℕ (pos_part a + pos_part b) (neg_part a + neg_part b)

module _ (compare_vars : Variable → Variable → ℤ) where
  -- The loop of dyay_compare, with `n` rounds to go from the index i.
  unfoldable pub compare_elems : ℕ → ℕ → List Variable → List Variable → Option ℤ
  compare_elems zero i xs ys = none
  compare_elems (suc n) i xs ys =
      let rest = compare_elems n (i + 1) xs ys in
      elim (get_elem? xs i) [
        | some x ↦ elim (get_elem? ys i) [
          | some y ↦
              if ltb_ℤ (compare_vars x y) (pos 0)
              then some (negsuc 0)
              else if ltb_ℤ (pos 0) (compare_vars x y)
              then some (pos 1)
              else rest
          | none ↦ none
        ]
        | none ↦ none
      ]

  -- dyay_compare, where `same` tells whether the two pointers are equal.
  unfoldable pub dyay_compare : Bool → Dyay Variable → Dyay Variable → ℤ
  unfolding compare_elems
  dyay_compare same arr rhs =
      let k = if ltb arr.count rhs.count then arr.count else rhs.count in
      if same then pos 0 else elim (compare_elems k 0 arr.elem rhs.elem) [
        | some rv ↦ rv
        | none ↦
            if ltb arr.count rhs.count
            then negsuc 0
            else if ltb rhs.count arr.count
            then pos 1
            else pos 0
      ]

  -- The loop of hmap_compare, with `n` items to go.
  unfoldable pub compare_items : Keys → ℕ → Hmap → Hmap → ℤ → ℤ
  compare_items keys zero map rhs rv = rv
  compare_items keys (suc i) map rhs rv = compare_items keys i map rhs (
      if taken (map.item i).flag
      then elim (hfind keys rhs (map.item i).k) [
        | some v ↦ add rv (compare_vars (map.item i).v v)
        | none ↦ rv
      ]
      else rv)

  unfoldable pub hmap_compare : Keys → Bool → Hmap → Hmap → ℤ
  unfolding compare_items
  hmap_compare keys same map rhs =
      if same then pos 0 else compare_items keys (2 ^ map.shift) map rhs (pos 0)

  abbrev pub compare_with : Keys → Heap → Variable → Variable → ℤ
  compare_with keys heap (int i) (int j) = safe_compare i j
  compare_with keys heap (bool i) (bool j) = safe_compare i j
  compare_with keys heap (kstr kz) (kstr rhs) = kstr_compare kz rhs
  compare_with keys heap (dyay p) (dyay q) = dyay_compare (p == q) (heap.dyay_at p) (heap.dyay_at q)
  compare_with keys heap (hmap p) (hmap q) =
      hmap_compare keys (p == q) (heap.hmap_at p) (heap.hmap_at q)
  compare_with keys heap (skls p) (skls q) = heap.skls_compare p q
  compare_with keys heap a b = safe_compare (pos (type_of a)) (pos (type_of b))

-- compare, on containers nested to the depth.
unfoldable pub compare : ℕ → (ℕ → List ℕ) → Heap → Variable → Variable → ℤ
compare zero text heap a b = pos 0
compare (suc depth) text heap a b =
    compare_with (compare depth text heap) (keys_of depth text heap) heap a b

abbrev pub opposite : ℤ → ℤ
opposite (pos zero) = pos 0
opposite (pos (suc n)) = negsuc n
opposite (negsuc n) = pos (suc n)

abbrev pub is_ext : Variable → Bool
is_ext (ext p) = true
is_ext _ = false

safe_compare-swap : (l r : ℤ) → safe_compare r l ≡ opposite (safe_compare l r)
unfolding safe_compare
safe_compare-swap l r = ground arith

safe_compare-zero : (l r : ℤ) → safe_compare l r ≡ pos 0 → l ≡ r
unfolding safe_compare
safe_compare-zero (pos m) (pos n) e = ground arith
safe_compare-zero (negsuc m) (negsuc n) e = ground arith
safe_compare-zero (pos m) (negsuc n) e = ground arith
safe_compare-zero (negsuc m) (pos n) e = ground arith

safe_compare_refl : (l : ℤ) → safe_compare l l ≡ pos 0
unfolding safe_compare
safe_compare_refl l = ground arith

kz_compare-swap : (z1 z2 : List ℕ) → kz_compare false z2 z1 ≡ opposite (kz_compare false z1 z2)
unfolding kz_compare first_difference
kz_compare-swap [] [] = refl
kz_compare-swap [] (d ∷ z2) = ground arith
kz_compare-swap (c ∷ z1) [] = ground arith
kz_compare-swap (c ∷ z1) (d ∷ z2) = ground (arith, kz_compare-swap z1 z2)

kz_compare-zero : (z1 z2 : List ℕ) → kz_compare false z1 z2 ≡ pos 0 → z1 ≡ z2
kz_compare-zero z1 z2 e = same (kz_compare false z1 z2) (kz_compare-Compared z1 z2) e
  where
    same : (rv : ℤ) → Compared z1 z2 rv → rv ≡ pos 0 → z1 ≡ z2
    same rv (before p) e = cc e
    same rv (equal p) e = p
    same rv (behind p) e = cc e

kz_compare_refl : (z : List ℕ) → kz_compare false z z ≡ pos 0
unfolding kz_compare first_difference
kz_compare_refl [] = refl
kz_compare_refl (c ∷ z) = ground (arith, kz_compare_refl z)

address_swap : (p q : ℕ) → (q == p) ≡ (p == q)
address_swap p q = ground arith

kstr_compare-swap : (kz rhs : Kstr) → kstr_compare rhs kz ≡ opposite (kstr_compare kz rhs)
unfolding kstr_compare
kstr_compare-swap kz rhs = elim (Bool-cases (kz.address == rhs.address)) [
  | inl s ↦ rw (s, address_swap kz.address rhs.address ∙ s)
  | inr s ↦ rw (s, address_swap kz.address rhs.address ∙ s) (kz_compare-swap kz.land rhs.land)
]

kstr_compare_same : (kz rhs : Kstr) → kz.land ≡ rhs.land → kstr_compare kz rhs ≡ pos 0
unfolding kstr_compare kz_compare
kstr_compare_same kz rhs e = elim (Bool-cases (kz.address == rhs.address)) [
  | inl s ↦ rw s
  | inr s ↦ rw (s, e) (kz_compare_refl rhs.land)
]

module _ (text : ℕ → List ℕ) (depth : ℕ) (heap : Heap) where
  kstr_compare-zero :
      (kz rhs : Kstr)
      → usable text (kstr kz) ≡ true
      → usable text (kstr rhs) ≡ true
      → kstr_compare kz rhs ≡ pos 0
      → kz.land ≡ rhs.land
  unfolding kstr_compare
  kstr_compare-zero kz rhs u u' e = elim (Bool-cases (kz.address == rhs.address)) [
    | inl s ↦
        sym (kstr-usable text kz u).0
        ∙ ap text ((==_iff kz.address rhs.address).0 s)
        ∙ (kstr-usable text rhs u').0
    | inr s ↦ kz_compare-zero kz.land rhs.land (sym (rw s) ∙ e)
  ]

  abbrev cmp : Variable → Variable → ℤ
  cmp = compare (suc depth) text heap

  compare-swap :
      (a b : Variable) → usable text a ≡ true → usable text b ≡ true → cmp b a ≡ opposite (cmp a b)
  unfolding compare safe_compare
  compare-swap (int i) (int j) u u' = safe_compare-swap i j
  compare-swap (bool i) (bool j) u u' = safe_compare-swap i j
  compare-swap (ext p) (ext q) u u' = refl
  compare-swap (kstr kz) (kstr rhs) u u' = kstr_compare-swap kz rhs
  compare-swap a b u u' = ground arith

  compare-zero :
      (a b : Variable)
      → usable text a ≡ true
      → usable text b ≡ true
      → is_ext a ≡ false
      → cmp a b ≡ pos 0
      → Alike text a b
  unfolding compare safe_compare
  compare-zero (int i) (int j) u u' n e = safe_compare-zero i j e
  compare-zero (bool i) (bool j) u u' n e = safe_compare-zero i j e
  compare-zero (kstr kz) (kstr rhs) u u' n e = kstr_compare-zero kz rhs u u' e
  compare-zero a b u u' n e = absurd (ground arith)

  Alike-compare :
      (a b : Variable)
      → usable text a ≡ true
      → usable text b ≡ true
      → Alike text a b
      → cmp a b ≡ pos 0
  unfolding compare safe_compare
  Alike-compare (int i) (int j) u u' h = rw h (safe_compare_refl j)
  Alike-compare (bool i) (bool j) u u' h = rw h (safe_compare_refl j)
  Alike-compare (ext p) (ext q) u u' h = refl
  Alike-compare (kstr kz) (kstr rhs) u u' h = kstr_compare_same kz rhs h
  Alike-compare a b u u' h = absurd h

  -- On two scalars or strings as they stand on the heap, the first of them no naked pointer, the order
  -- one way is the opposite of the order the other way, and they compare as 0 exactly when they are
  -- equal.
  pub compare-equals :
      (a b : Variable)
      → usable text a ≡ true
      → usable text b ≡ true
      → is_ext a ≡ false
      → (compare (suc depth) text heap b a ≡ opposite (compare (suc depth) text heap a b))
        × ((compare (suc depth) text heap a b ≡ pos 0)
            ↔ ((keys_of (suc depth) text heap).equals a b ≡ true))
  compare-equals a b u u' n = (
    compare-swap a b u u',
    (
      λ e. Alike→equals text depth heap a b (compare-zero a b u u' n e),
      λ e. Alike-compare a b u u' (equals→Alike text depth heap a b u u' e),
    ),
  )
