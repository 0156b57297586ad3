-- ===== src/Chunk/Constants.antt =====
-- The table of constants: each constant is stored once, at an index that stays.
use ymd.Common.{
  ℕ, zero, suc, ◌+◌, ◌^◌, ◌<◌, ◌≡◌, ◌∙◌, refl, sym, ap, arith, Bool, true, false, Bool-cases,
  Option-cases, inl, inr, none, some, List, [], ◌∷◌, ◌++◌, length, get_elem?, take, ==_iff,
}
use ymd.Common.Int.{ℤ, pos, negsuc}
use ymd.Chunk.{
  Chunk, Variable, nil, int, bool, ext, kstr, func, dyay, hmap, skls, mand, find_constant,
  add_constant, blk_ki, is_int, same_int,
}

-- The count of constants is that of the table, and does not wrap at the next one.
pub record HasRoom (core : Chunk) : Type 0 where
  pub counted : length core.kval ≡ core.kkval
  pub room : core.kkval + 1 < 2 ^ 16

module _ (test : Variable → Bool) where
  find_here :
      (n : ℕ) (kval : List Variable) (var : Variable)
      → get_elem? kval n ≡ some var
      → test var ≡ true
      → find_constant test (suc n) kval ≡ some n
  unfolding find_constant
  find_here n kval var there t = rw (there, find_constant, t)

  find_below :
      (n : ℕ) (kval : List Variable) (var : Variable)
      → get_elem? kval n ≡ some var
      → test var ≡ false
      → find_constant test (suc n) kval ≡ find_constant test n kval
  unfolding find_constant
  find_below n kval var there f = rw (there, find_constant, f)

  find_absent :
      (n : ℕ) (kval : List Variable)
      → get_elem? kval n ≡ none
      → find_constant test (suc n) kval ≡ find_constant test n kval
  unfolding find_constant
  find_absent n kval absent = rw (absent, find_constant)

  -- An index that is found is one of an entry that passes the test.
  pub find_constant-some :
      (n i : ℕ) (kval : List Variable)
      → find_constant test n kval ≡ some i
      → (i < n) × ((var : Variable) × (get_elem? kval i ≡ some var) × (test var ≡ true))
  unfolding find_constant
  find_constant-some zero i kval e = absurd (cc)
  find_constant-some (suc n) i kval e = elim (Option-cases (get_elem? kval n)) [
    | inl absent ↦ weaken (find_constant-some n i kval (sym (find_absent n kval absent) ∙ e))
    | inr (var, there) ↦ elim (Bool-cases (test var)) [
      | inl t ↦
          let same : n ≡ i = some_inj (sym (find_here n kval var there t) ∙ e) in
          (omega arith, (var, ap (get_elem? kval) (sym same) ∙ there, t))
      | inr f ↦ weaken (find_constant-some n i kval (sym (find_below n kval var there f) ∙ e))
    ]
  ]
    where
      some_inj : {a b : ℕ} → some a ≡ some b → a ≡ b
      some_inj h = cc

      weaken :
          (i < n) × ((var : Variable) × (get_elem? kval i ≡ some var) × (test var ≡ true))
          → (i < suc n) × ((var : Variable) × (get_elem? kval i ≡ some var) × (test var ≡ true))
      weaken (l, rest) = (omega arith, rest)

same_int-eq : (i n : ℤ) → same_int i n ≡ true → i ≡ n
unfolding same_int
same_int-eq (pos m) (pos n) e = ap pos ((==_iff m n).0 e)
same_int-eq (negsuc m) (negsuc n) e = ap negsuc ((==_iff m n).0 e)
same_int-eq (pos m) (negsuc n) e = absurd (cc)
same_int-eq (negsuc m) (pos n) e = absurd (cc)

same_int_self : (n : ℤ) → same_int n n ≡ true
unfolding same_int
same_int_self (pos m) = ground arith
same_int_self (negsuc m) = ground arith

is_int_self : (n : ℤ) → is_int n (int n) ≡ true
unfolding is_int
is_int_self n = same_int_self n

pub is_int-eq : (n : ℤ) (var : Variable) → is_int n var ≡ true → var ≡ int n
unfolding is_int
is_int-eq n (int i) e = ap int (same_int-eq i n e)
is_int-eq n nil e = absurd (cc)
is_int-eq n (bool _) e = absurd (cc)
is_int-eq n (ext _) e = absurd (cc)
is_int-eq n (kstr _) e = absurd (cc)
is_int-eq n (func _) e = absurd (cc)
is_int-eq n (dyay _) e = absurd (cc)
is_int-eq n (hmap _) e = absurd (cc)
is_int-eq n (skls _) e = absurd (cc)
is_int-eq n (mand _) e = absurd (cc)

pub get_elem?-append_below :
    (xs ys : List Variable) (i : ℕ) → i < length xs → get_elem? (xs ++ ys) i ≡ get_elem? xs i
get_elem?-append_below [] ys i h = absurd (omega arith)
get_elem?-append_below (x ∷ xs) ys zero h = refl
get_elem?-append_below (x ∷ xs) ys (suc i) h = get_elem?-append_below xs ys i (omega arith)

pub get_elem?-append_end :
    (xs : List Variable) (v : Variable) → get_elem? (xs ++ v ∷ []) (length xs) ≡ some v
get_elem?-append_end [] v = refl
get_elem?-append_end (x ∷ xs) v = get_elem?-append_end xs v

take_whole : (xs : List Variable) → take (length xs) xs ≡ xs
take_whole [] = refl
take_whole (x ∷ xs) = ap (◌∷◌ x) (take_whole xs)

pub take_all :
    (core : Chunk) → length core.kval ≡ core.kkval → take core.kkval core.kval ≡ core.kval
take_all core h = ap (λ (n : ℕ). take n core.kval) (sym h) ∙ take_whole core.kval

take-append : (xs ys : List Variable) → take (length xs) (xs ++ ys) ≡ xs
take-append [] ys = refl
take-append (x ∷ xs) ys = ap (◌∷◌ x) (take-append xs ys)

-- On a table with room, a constant is added behind the others.
add_constant_lem :
    (core : Chunk) (v : Variable)
    → HasRoom core
    → ((add_constant core v).0.kkval ≡ core.kkval + 1)
      × (get_elem? (add_constant core v).0.kval core.kkval ≡ some v)
      × (take core.kkval (add_constant core v).0.kval ≡ core.kval)
add_constant_lem core v h = (
  omega (arith, h.room),
  ap (λ (xs : List Variable). get_elem? (xs ++ v ∷ []) core.kkval) all
      ∙ ap (get_elem? (core.kval ++ v ∷ [])) (sym h.counted)
      ∙ get_elem?-append_end core.kval v,
  ap (λ (xs : List Variable). take core.kkval (xs ++ v ∷ [])) all
      ∙ ap (λ (n : ℕ). take n (core.kval ++ v ∷ [])) (sym h.counted)
      ∙ take-append core.kval (v ∷ []),
)
  where
    all : take core.kkval core.kval ≡ core.kval
    all = take_all core h.counted

pub ki_hit :
    (core : Chunk) (n : ℤ) (i : ℕ)
    → find_constant (is_int n) core.kkval core.kval ≡ some i
    → blk_ki core n ≡ (core, i)
unfolding blk_ki
ki_hit core n i e = rw (e, blk_ki)

pub ki_miss :
    (core : Chunk) (n : ℤ)
    → find_constant (is_int n) core.kkval core.kval ≡ none
    → blk_ki core n ≡ add_constant core (int n)
unfolding blk_ki
ki_miss core n e = rw (e, blk_ki)

-- On a table of constants with room, an empty one included, blk_ki returns the index of the integer,
-- keeps the constants that were there at their indices, and returns the same index when it is asked
-- again, with no second entry.
pub blk_ki_lem :
    (core : Chunk) (n : ℤ)
    → HasRoom core
    → (get_elem? (blk_ki core n).0.kval (blk_ki core n).1 ≡ some (int n))
      × (take core.kkval (blk_ki core n).0.kval ≡ core.kval)
      × (blk_ki (blk_ki core n).0 n ≡ blk_ki core n)
blk_ki_lem core n h = elim (Option-cases (find_constant (is_int n) core.kkval core.kval)) [
  | inr (i, e) ↦
      let (below, (var, there, t)) = find_constant-some (is_int n) core.kkval i core.kval e in
      rw (ki_hit core n i e)
        (there ∙ ap some (is_int-eq n var t), take_all core h.counted, ki_hit core n i e)
  | inl e ↦
      let (count, there, kept) = add_constant_lem core (int n) h in
      rw (ki_miss core n e) (there, kept, again count there)
]
  where
    next : Chunk
    next = (add_constant core (int n)).0

    again :
        next.kkval ≡ core.kkval + 1
        → get_elem? next.kval core.kkval ≡ some (int n)
        → blk_ki next n ≡ (next, core.kkval)
    again count there = ki_hit next n core.kkval (
        ap (λ (k : ℕ). find_constant (is_int n) k next.kval) size
        ∙ find_here (is_int n) core.kkval next.kval (int n) there (is_int_self n))
      where
        size : next.kkval ≡ suc core.kkval
        size = omega (arith, count)
