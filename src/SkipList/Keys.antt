-- ===== src/SkipList/Keys.antt =====
-- compare and equals of value.c as the order of a skip list.
use ymd.Common.{
  ℕ, suc, ◌≡◌, refl, sym, ap, ◌∙◌, arith, inl, inr, Bool-cases, true, false, not, ◌&&◌, some, ◌>>=◌,
  List,
}
use ymd.Chunk.{Variable, nil, int, bool, ext, kstr}
use ymd.Value.{Heap, keys_of, usable}
use ymd.Value.Lawful.{Alike, equals→Alike, keys_of-IsLawful}
use ymd.Value.Order.{compare, opposite, is_ext, type_of, safe_compare, compare-equals}
use ymd.SkipList.{Order, skls_new, skls_get}
use ymd.SkipList.Ordered.{Less, IsLawful}
use ymd.SkipList.Refine.{Store, Usable, put_all, last_value, skls_get-lawful}
use ymd.SkipList.Precedes.{
  number_of, bytes_of, Precedes, negative, Precedes-trans, safe_compare-ltb_ℤ, negative-opposite,
  opposite-negative, kstr_compare→Before, Before→kstr_compare,
}

-- The order of the keys of a list: the integers, the booleans, and the strings as they stand on the
-- heap. The others are no keys of it: compare takes any two naked pointers for equal.
abbrev pub order_of : (ℕ → List ℕ) → ℕ → Heap → Order
order_of text depth heap = record {
  compare = compare (suc depth) text heap;
  equals = (keys_of (suc depth) text heap).equals;
  usable = λ v. usable text v && not (is_ext v);
}

module _ (text : ℕ → List ℕ) (depth : ℕ) (heap : Heap) where
  abbrev order : Order
  order = order_of text depth heap

  usable_key : (a : Variable) → order.usable a ≡ true → (usable text a ≡ true) × (is_ext a ≡ false)
  usable_key a u = ground arith

  Less→Precedes :
      (a b : Variable)
      → order.usable a ≡ true
      → order.usable b ≡ true
      → Less order a b
      → Precedes a b
  unfolding compare safe_compare
  Less→Precedes (int i) (int j) u u' l = inr (refl, inl (sym (safe_compare-ltb_ℤ i j) ∙ l))
  Less→Precedes (bool i) (bool j) u u' l = inr (refl, inl (sym (safe_compare-ltb_ℤ i j) ∙ l))
  Less→Precedes (kstr kz) (kstr rhs) u u' l =
      inr (refl, inr (refl, kstr_compare→Before text kz rhs l))
  Less→Precedes a b u u' l = ground arith

  Precedes→Less :
      (a b : Variable)
      → order.usable a ≡ true
      → order.usable b ≡ true
      → Precedes a b
      → Less order a b
  unfolding compare safe_compare
  Precedes→Less (int i) (int j) u u' (inl p) = absurd (omega arith)
  Precedes→Less (int i) (int j) u u' (inr (_, inl p)) = safe_compare-ltb_ℤ i j ∙ p
  Precedes→Less (int i) (int j) u u' (inr (_, inr (_, p))) = absurd p
  Precedes→Less (bool i) (bool j) u u' (inl p) = absurd (omega arith)
  Precedes→Less (bool i) (bool j) u u' (inr (_, inl p)) = safe_compare-ltb_ℤ i j ∙ p
  Precedes→Less (bool i) (bool j) u u' (inr (_, inr (_, p))) = absurd p
  Precedes→Less (kstr kz) (kstr rhs) u u' (inl p) = absurd (omega arith)
  Precedes→Less (kstr kz) (kstr rhs) u u' (inr (_, inl p)) = absurd (cc)
  Precedes→Less (kstr kz) (kstr rhs) u u' (inr (_, inr (_, p))) =
      Before→kstr_compare text kz rhs (usable_key (kstr kz) u).0 (usable_key (kstr rhs) u').0 p
  Precedes→Less a b u u' p = ground arith

  -- Equal keys look the same to compare.
  equals-same :
      (a b : Variable)
      → order.usable a ≡ true
      → order.usable b ≡ true
      → order.equals a b ≡ true
      → (type_of a ≡ type_of b) × (number_of a ≡ number_of b) × (bytes_of a ≡ bytes_of b)
  equals-same a b u u' e =
      same a b (equals→Alike text depth heap a b (usable_key a u).0 (usable_key b u').0 e)
    where
      same :
          (a b : Variable)
          → Alike text a b
          → (type_of a ≡ type_of b) × (number_of a ≡ number_of b) × (bytes_of a ≡ bytes_of b)
      same (int i) (int j) h = (refl, h, refl)
      same (bool i) (bool j) h = (refl, h, refl)
      same (ext p) (ext q) h = (refl, refl, refl)
      same (kstr kz) (kstr rhs) h = (refl, refl, h)
      same a b h = absurd h

  swapped :
      (a b : Variable)
      → order.usable a ≡ true
      → order.usable b ≡ true
      → order.compare b a ≡ opposite (order.compare a b)
  swapped a b u u' =
      let (v, n) = usable_key a u in (compare-equals text depth heap a b v (usable_key b u').0 n).0

  Precedes-equals :
      (a b c : Variable)
      → order.usable b ≡ true
      → order.usable c ≡ true
      → order.equals b c ≡ true
      → Precedes a b
      → Precedes a c
  Precedes-equals a b c u u' e p =
      let (t, n, m) = equals-same b c u u' e in rw (sym t, sym n, sym m) p

  equals_sym :
      (a b : Variable)
      → order.usable a ≡ true
      → order.usable b ≡ true
      → order.equals a b ≡ true
      → order.equals b a ≡ true
  unfolding keys_of
  equals_sym a b u u' =
      (keys_of-IsLawful text depth heap).equals_sym a b (usable_key a u).0 (usable_key b u').0

  equals_trans :
      (a b c : Variable)
      → order.usable a ≡ true
      → order.usable b ≡ true
      → order.usable c ≡ true
      → order.equals a b ≡ true
      → order.equals b c ≡ true
      → order.equals a c ≡ true
  unfolding keys_of
  equals_trans a b c u u' u'' =
      (keys_of-IsLawful text depth heap).equals_trans a b c (usable_key a u).0 (usable_key b u').0
        (usable_key c u'').0

  Less-equals :
      (a b c : Variable)
      → order.usable a ≡ true
      → order.usable b ≡ true
      → order.usable c ≡ true
      → Less order a b
      → order.equals b c ≡ true
      → Less order a c
  Less-equals a b c u u' u'' l e =
      Precedes→Less a c u u'' (Precedes-equals a b c u' u'' e (Less→Precedes a b u u' l))

  pub order_of-IsLawful : IsLawful order
  unfolding keys_of
  order_of-IsLawful = record {
    not_nil = λ a u. (keys_of-IsLawful text depth heap).usable_not_nil a (usable_key a u).0;
    asym = λ a b u u' l m.
        negative-opposite (order.compare a b) l (ap negative (sym (swapped a b u u')) ∙ m);
    trans = λ a b c u u' u'' l m.
        Precedes→Less a c u u''
          (Precedes-trans a b c (Less→Precedes a b u u' l) (Less→Precedes b c u' u'' m));
    total = λ a b u u' l e.
        let (v, n) = usable_key a u in
        let zero_equals = (compare-equals text depth heap a b v (usable_key b u').0 n).1.0 in
        ap negative (swapped a b u u')
        ∙ opposite-negative (order.compare a b) l (λ z. cc (zero_equals z, e));
    less_equals = λ a b c u u' u'' l e. Less-equals a b c u u' u'' l (equals_sym c b u'' u' e);
    same = λ a b c u u' u'' e. elim (Bool-cases (order.equals b c)) [
      | inl t ↦ equals_trans a b c u u' u'' e t ∙ sym t
      | inr f ↦ elim (Bool-cases (order.equals a c)) [
        | inr f' ↦ f' ∙ sym f
        | inl t' ↦ cc (equals_trans b a c u' u u'' (equals_sym a b u u' e) t', f)
      ]
    ];
    equals_less = Less-equals;
  }

  -- After any stores to a new list under integers, booleans and strings as they stand on the heap,
  -- whatever rand and time return, every one of them succeeds, and skls_get of such a key gives the
  -- value of the last store with an equal key, or nil where there is none.
  pub skls_get-put_all :
      (address : ℕ) (puts : List Store) (key : Variable)
      → Usable (order_of text depth heap) puts
      → (order_of text depth heap).usable key ≡ true
      → (put_all (order_of text depth heap) (skls_new address) puts >>= λ list.
          skls_get (order_of text depth heap) list key)
        ≡ some (last_value (order_of text depth heap) puts key nil)
  skls_get-put_all address puts key u ok =
      skls_get-lawful order order_of-IsLawful key ok address puts u
