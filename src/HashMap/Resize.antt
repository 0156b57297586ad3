-- ===== src/HashMap/Resize.antt =====
-- The store on a table that may be full, and is then grown: the loop of resize puts each old item
-- into the new table, which has room for all.
use ymd.Common.{
  ℕ, zero, suc, ◌+◌, ◌-◌, ◌*◌, ◌^◌, ◌≤◌, ◌<◌, ◌≡◌, ◌≢◌, inl, inr, refl, sym, ap, subst, ◌∙◌, arith,
  Bool-cases, true, false, Option, none, some, [], ◌>>=◌,
}
use native.Mathlib.Decide.{ℕ_discrete}
use ymd.Chunk.{Variable}
use ymd.HashMap.{
  taken, Item, Hmap, Keys, zeroed, written, hmap_count, count_below, alloc_free, hindex, put_with,
  rehash, resize,
}
use ymd.HashMap.Count.{alloc_from-none}
use ymd.HashMap.Valid.{IsLawful, IsValid, pow_pos}
use ymd.HashMap.Stored.{IsCopy, onto-cases}
use ymd.HashMap.Put.{Puts}
use ymd.HashMap.Move.{Indexes-hindex_with}

-- A table of zero bytes.
abbrev pub empty : ℕ → Hmap
empty shift = record { shift = shift; item = λ _. zeroed; free = 2 ^ shift - 1 }

count_below-zeroed : (n : ℕ) → count_below (λ _. zeroed) n ≡ 0
unfolding count_below
count_below-zeroed zero = refl
count_below-zeroed (suc n) = count_below-zeroed n

module _ (keys : Keys) (laws : IsLawful keys) where
  pub empty-IsValid : (shift : ℕ) → 0 < shift → IsValid keys (empty shift)
  empty-IsValid shift h = record {
    chains = λ _. [];
    chained = record {
      linked = λ p. tt;
      distinct = λ p. tt;
      headed = λ p e. cc e;
      headless = λ p n. refl;
      belongs = λ p i w. elim w [ ];
      covered = λ i t. cc t;
      short = λ p. omega arith;
      hashed = λ i t. cc t;
      unique = λ i j t u e. cc t;
      usable = λ i t. cc t;
      below = λ i t. cc t;
      clear = λ i t. refl;
    };
    last = refl;
    grown = h;
  }

  pub Puts-IsValid :
      (m m' : Hmap) (key v : Variable)
      → keys.usable key ≡ true
      → IsValid keys m
      → Puts keys m key v m'
      → IsValid keys m'
  Puts-IsValid m m' key v n w p = record {
    chains = p.chains;
    chained = p.chained;
    last = rw (p.same_free, p.same_shift) w.last;
    grown = rw p.same_shift w.grown;
  }

  module _ (m : Hmap) (w : IsValid keys m) where
    -- A table with two items unused has one to give out.
    room : hmap_count m + 1 < 2 ^ m.shift → alloc_free m ≢ none
    unfolding hmap_count alloc_free
    room h e =
        let f = alloc_from-none m.item m.free e in
        let same : suc m.free ≡ 2 ^ m.shift = let p = pow_pos m.shift in omega (arith, w.last) in
        let f' : m.free ≤ count_below m.item (2 ^ m.shift) =
          subst (λ k. m.free ≤ count_below m.item k) same f in
        absurd (omega (arith, w.last))

    module _ (key v : Variable) (ok : keys.usable key ≡ true) where
      pub put_room :
          hmap_count m + 1 < 2 ^ m.shift
          → (fuel : ℕ)
          → (m' : Hmap) × (put_with (hindex keys (suc fuel)) m key v ≡ some m')
            × Puts keys m key v m'
      unfolding put_with hindex
      put_room h fuel =
          elim (Indexes-hindex_with keys laws m w.chained w.last key ok (λ (full : Hmap).
            resize (hindex keys fuel) full (full.shift + 1) >>= λ map'.
            hindex keys fuel map' key)) [
              | inl (m', i, e, p) ↦ (written m' i key v, rw (laws.usable_not_nil key ok, e), p v)
              | inr (_, full) ↦ absurd (room h full)
            ]

pub pow_add_one : (n : ℕ) → 2 ^ (n + 1) ≡ 2 * 2 ^ n
pow_add_one n = ap (λ (t : ℕ). 2 ^ t) {x = n + 1} {y = suc n} (omega arith) ∙ omega arith

pub IsCopy-trans : (a b d : Item) → IsCopy a b → IsCopy b d → IsCopy a d
IsCopy-trans a b d p q = record {
  used = q.used;
  same_k = q.same_k ∙ p.same_k;
  same_v = q.same_v ∙ p.same_v;
  same_hash = q.same_hash ∙ p.same_hash;
}

-- The items in use are copies of those among the first `n` of the old block.
pub record Moved (bak : ℕ → Item) (n : ℕ) (map : Hmap) : Type 0 where
  pub kept : (j : ℕ) → j < n → taken (bak j).flag ≡ true → (i : ℕ) × IsCopy (bak j) (map.item i)
  pub onto :
      (i : ℕ)
      → taken (map.item i).flag ≡ true
      → (j : ℕ) × (j < n) × (taken (bak j).flag ≡ true) × IsCopy (bak j) (map.item i)

module _ (keys : Keys) (laws : IsLawful keys) (old : Hmap) (w : IsValid keys old) (fuel : ℕ) where
  -- What the loop of resize has made of the first `n` items.
  pub record Rehashed (n : ℕ) (r : Option Hmap) : Type 0 where
    pub result : Hmap
    pub returns : r ≡ some result
    pub valid : IsValid keys result
    pub counted : hmap_count result ≤ n
    pub shifted : result.shift ≡ old.shift + 1
    pub moved : Moved old.item n result

  module _ (n : ℕ) (t : taken (old.item n).flag ≡ true) (m m' : Hmap) (v : IsValid keys m)
      (moved : Moved old.item n m) (p : Puts keys m (old.item n).k (old.item n).v m') where
    other_key :
        (i : ℕ) → taken (m.item i).flag ≡ true → keys.equals (m.item i).k (old.item n).k ≡ false
    other_key i u = elim (Bool-cases (keys.equals (m.item i).k (old.item n).k)) [
      | inr e ↦ e
      | inl e ↦
          let (j, below, u', copy) = moved.onto i u in
          let same : j ≡ n = w.chained.unique j n u' t (rw (← copy.same_k) e) in
          absurd (omega arith)
    ]

    new-IsCopy : IsCopy (old.item n) (m'.item p.at)
    new-IsCopy = record {
      used = p.stored.used;
      same_k = p.stored.has_k;
      same_v = p.stored.has_v;
      same_hash = p.stored.has_hash ∙ sym (w.chained.hashed n t);
    }

    Moved-suc : Moved old.item (suc n) m'
    Moved-suc = record {
      kept = λ j below u. elim (ℕ_discrete j n) [
        | yes e ↦ (p.at, subst (λ i. IsCopy (old.item i) (m'.item p.at)) (sym e) new-IsCopy)
        | no other ↦
            let (i, copy) = moved.kept j (omega arith) u in
            (p.moves i, IsCopy-trans _ _ _ copy (p.stored.kept i copy.used (other_key i copy.used)))
      ];
      onto = λ i u.
          elim (onto-cases keys laws m m' v.chained p.moves p.at _ _ (w.chained.usable n t) p.stored
            i u) [
              | inl e ↦ (
                n,
                omega arith,
                t,
                subst (λ j. IsCopy (old.item n) (m'.item j)) (sym e) new-IsCopy,
              )
              | inr (k, u', _, _, copy) ↦
                  let (j, below, u'', copy') = moved.onto k u' in
                  (j, omega arith, u'', IsCopy-trans _ _ _ copy' copy)
            ];
    }

  Moved-skip :
      (n : ℕ)
      → taken (old.item n).flag ≡ false
      → (m : Hmap) → Moved old.item n m
      → Moved old.item (suc n) m
  Moved-skip n f m moved = record {
    kept = λ j below u. elim (ℕ_discrete j n) [
      | yes e ↦ cc (u, f, ap (λ (k : ℕ). taken (old.item k).flag) e)
      | no other ↦ moved.kept j (omega arith) u
    ];
    onto = λ i u. let (j, below, u', copy) = moved.onto i u in (j, omega arith, u', copy);
  }

  pub rehash_lem :
      (n : ℕ)
      → n ≤ 2 ^ old.shift
      → Rehashed n (rehash (hindex keys (suc fuel)) old.item n (empty (old.shift + 1)))
  unfolding rehash hmap_count
  rehash_lem zero h = record {
    result = empty (old.shift + 1);
    returns = refl;
    valid = empty-IsValid keys laws (old.shift + 1) (omega arith);
    counted = omega (arith, count_below-zeroed (2 ^ (old.shift + 1)));
    shifted = refl;
    moved = record { kept = λ j below. absurd (omega arith); onto = λ i t. cc t };
  }
  rehash_lem (suc n) h =
      let r = rehash_lem n (omega arith) in
      elim (Bool-cases (taken (old.item n).flag)) [
        | inr f ↦ record {
          result = r.result;
          returns = rw r.returns (rw f);
          valid = r.valid;
          counted = omega (arith, r.counted);
          shifted = r.shifted;
          moved = Moved-skip n f r.result r.moved;
        }
        | inl t ↦
            let (m', e, p) =
              put_room keys laws r.result r.valid (old.item n).k (old.item n).v
                (w.chained.usable n t)
                (omega (arith, r.counted, pow_add_one old.shift, ap (λ (t : ℕ). 2 ^ t) r.shifted))
                fuel in
            record {
              result = m';
              returns = rw r.returns (rw t e);
              valid = Puts-IsValid keys laws r.result m' _ _ (w.chained.usable n t) r.valid p;
              counted = omega (arith, r.counted, p.counted);
              shifted = p.same_shift ∙ r.shifted;
              moved = Moved-suc n t r.result m' r.valid r.moved p;
            }
      ]
