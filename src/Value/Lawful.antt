-- ===== src/Value/Lawful.antt =====
-- hash and equals keep the laws that the hash map needs of its keys.
use ymd.Common.{
  ℕ, suc, ◌≡◌, refl, sym, ap, ◌∙◌, arith, ◌==◌, ==_iff, Bool-cases, inl, inr, true, false, List, [],
  ◌∷◌,
}
use ymd.Common.Int.{ℤ, pos, negsuc}
use ymd.Kstr.{Kstr, kz_hash, same_bytes, kstr_equals}
use ymd.Chunk.{Variable, nil, int, bool, ext, kstr, same_int}
use ymd.HashMap.{is_nil}
use ymd.HashMap.Valid.{IsLawful}
use ymd.Value.{Heap, keys_of, usable, equals_with, hash_of_kstr}

same_int→≡ : (i j : ℤ) → same_int i j ≡ true → i ≡ j
unfolding same_int
same_int→≡ (pos m) (pos n) e = ap pos ((==_iff m n).0 e)
same_int→≡ (negsuc m) (negsuc n) e = ap negsuc ((==_iff m n).0 e)
same_int→≡ (pos m) (negsuc n) e = cc e
same_int→≡ (negsuc m) (pos n) e = cc e

same_int_refl : (i : ℤ) → same_int i i ≡ true
unfolding same_int
same_int_refl (pos m) = (==_iff m m).1 refl
same_int_refl (negsuc m) = (==_iff m m).1 refl

same_bytes→≡ : (xs ys : List ℕ) → same_bytes xs ys ≡ true → xs ≡ ys
unfolding same_bytes
same_bytes→≡ [] [] e = refl
same_bytes→≡ [] (y ∷ ys) e = cc e
same_bytes→≡ (x ∷ xs) [] e = cc e
same_bytes→≡ (x ∷ xs) (y ∷ ys) e = ground (arith, same_bytes→≡ xs ys)

same_bytes_refl : (xs : List ℕ) → same_bytes xs xs ≡ true
unfolding same_bytes
same_bytes_refl [] = refl
same_bytes_refl (x ∷ xs) = ground (arith, same_bytes_refl xs)

module _ (text : ℕ → List ℕ) where
  -- A string in use is the text at its address, and its hash, if there is one, is that of the text.
  pub kstr-usable :
      (kz : Kstr)
      → usable text (kstr kz) ≡ true
      → (text kz.address ≡ kz.land) × (hash_of_kstr kz ≡ kz_hash kz.land)
  kstr-usable kz u = (same_bytes→≡ (text kz.address) kz.land (ground arith), ground arith)

  kstr_equals_lem :
      (kz rhs : Kstr)
      → usable text (kstr kz) ≡ true
      → usable text (kstr rhs) ≡ true
      → kstr_equals kz rhs ≡ true
      → kz.land ≡ rhs.land
  unfolding kstr_equals
  kstr_equals_lem kz rhs u u' e = elim (Bool-cases (kz.address == rhs.address)) [
    | inl s ↦
        sym (kstr-usable kz u).0
        ∙ ap text ((==_iff kz.address rhs.address).0 s)
        ∙ (kstr-usable rhs u').0
    | inr s ↦ same_bytes→≡ kz.land rhs.land (ground arith)
  ]

  kstr_equals_same : (kz rhs : Kstr) → kz.land ≡ rhs.land → kstr_equals kz rhs ≡ true
  unfolding kstr_equals
  kstr_equals_same kz rhs e =
      let s : same_bytes kz.land rhs.land ≡ true = rw e (same_bytes_refl rhs.land) in ground arith

  -- What two equal variables have in common.
  abbrev pub Alike : Variable → Variable → Type 0
  Alike (int i) (int j) = i ≡ j
  Alike (bool i) (bool j) = i ≡ j
  Alike (ext p) (ext q) = p ≡ q
  Alike (kstr kz) (kstr rhs) = kz.land ≡ rhs.land
  Alike _ _ = ⊥

  module _ (depth : ℕ) (heap : Heap) where
    pub equals→Alike :
        (a b : Variable)
        → usable text a ≡ true
        → usable text b ≡ true
        → (keys_of (suc depth) text heap).equals a b ≡ true
        → Alike a b
    unfolding keys_of equals_with
    equals→Alike (int i) (int j) u u' e = same_int→≡ i j e
    equals→Alike (bool i) (bool j) u u' e = same_int→≡ i j e
    equals→Alike (ext p) (ext q) u u' e = (==_iff p q).0 e
    equals→Alike (kstr kz) (kstr rhs) u u' e = kstr_equals_lem kz rhs u u' e
    equals→Alike a b u u' e = absurd (ground arith)

    pub Alike→equals :
        (a b : Variable) → Alike a b → (keys_of (suc depth) text heap).equals a b ≡ true
    unfolding keys_of equals_with
    Alike→equals (int i) (int j) h = rw h (same_int_refl j)
    Alike→equals (bool i) (bool j) h = rw h (same_int_refl j)
    Alike→equals (ext p) (ext q) h = (==_iff p q).1 h
    Alike→equals (kstr kz) (kstr rhs) h = kstr_equals_same kz rhs h
    Alike→equals a b h = absurd h

    Alike→hash :
        (a b : Variable)
        → usable text a ≡ true
        → usable text b ≡ true
        → Alike a b
        → (keys_of (suc depth) text heap).hash a ≡ (keys_of (suc depth) text heap).hash b
    unfolding keys_of
    Alike→hash (int i) (int j) u u' h = rw h
    Alike→hash (bool i) (bool j) u u' h = rw h
    Alike→hash (ext p) (ext q) u u' h = rw h
    Alike→hash (kstr kz) (kstr rhs) u u' h =
        (kstr-usable kz u).1 ∙ ap kz_hash h ∙ sym (kstr-usable rhs u').1
    Alike→hash a b u u' h = absurd h

  Alike-sym : (a b : Variable) → Alike a b → Alike b a
  Alike-sym (int i) (int j) h = sym h
  Alike-sym (bool i) (bool j) h = sym h
  Alike-sym (ext p) (ext q) h = sym h
  Alike-sym (kstr kz) (kstr rhs) h = sym h
  Alike-sym a b h = absurd h

  Alike-trans : (a b c : Variable) → Alike a b → Alike b c → Alike a c
  Alike-trans (int i) (int j) (int k) h h' = h ∙ h'
  Alike-trans (bool i) (bool j) (bool k) h h' = h ∙ h'
  Alike-trans (ext p) (ext q) (ext r) h h' = h ∙ h'
  Alike-trans (kstr kz) (kstr rhs) (kstr r) h h' = h ∙ h'
  Alike-trans a b c h h' = absurd (ground arith)

  usable_not_nil : (a : Variable) → usable text a ≡ true → is_nil a ≡ false
  usable_not_nil nil u = cc u
  usable_not_nil a u = refl

  -- On the scalars and the strings, equality is symmetric and transitive, and equal variables have one
  -- hash, whatever the containers of the heap.
  pub keys_of-IsLawful : (depth : ℕ) (heap : Heap) → IsLawful (keys_of (suc depth) text heap)
  unfolding keys_of
  keys_of-IsLawful depth heap = record {
    usable_not_nil = usable_not_nil;
    equals_sym = λ a b u u' e.
        Alike→equals depth heap b a (Alike-sym a b (equals→Alike depth heap a b u u' e));
    equals_trans = λ a b c u u' u'' e e'. Alike→equals depth heap a c (
        Alike-trans a b c (equals→Alike depth heap a b u u' e)
          (equals→Alike depth heap b c u' u'' e'));
    equals-hash = λ a b u u' e. Alike→hash depth heap a b u u' (equals→Alike depth heap a b u u' e);
  }
