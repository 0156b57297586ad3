-- ===== src/HashMap/Refine.antt =====
-- The hash map against the function from keys to values that it stands for.
use ymd.Common.{
  ℕ, zero, suc, ◌+◌, ◌^◌, ◌≤◌, ◌<◌, ◌≡◌, inl, inr, refl, sym, ap, ◌∙◌, arith, Bool-cases, true,
  false, Option, some, List, [], ◌∷◌, ◌>>=◌, All, if◌then◌else◌, ltb, lt→ltb, ◌==◌,
}
use native.Mathlib.Decide.{ℕ_discrete}
use ymd.Chunk.{Variable, nil}
use ymd.HashMap.{
  Hmap, Keys, written, hmap_count, log2x_loop, log2x, hmap_new, hindex_with, hindex, put_with,
  resize, hmap_put, hmap_get, hfind,
}
use ymd.HashMap.Valid.{IsLawful, IsValid, Holds-cases, hfind_hit, hfind_miss, pow_pos}
use ymd.HashMap.Stored.{Stored-hfind}
use ymd.HashMap.Put.{Puts}
use ymd.HashMap.Move.{Indexes-hindex_with}
use ymd.HashMap.Resize.{
  empty, empty-IsValid, Puts-IsValid, put_room, Moved, rehash_lem, pow_add_one,
}

-- The stores, one after the other.
unfoldable pub put_all : Keys → Hmap → List (Variable × Variable) → Option Hmap
put_all keys map [] = some map
put_all keys map ((key, v) ∷ puts) = hmap_put keys map key v >>= λ map'. put_all keys map' puts

-- The function after a store, and after all.
abbrev pub extend : Keys → (Variable → Variable) → Variable → Variable → Variable → Variable
extend keys f key v k = if keys.equals key k then v else f k

unfoldable pub extend_all :
    Keys → (Variable → Variable) → List (Variable × Variable) → Variable → Variable
extend_all keys f [] = f
extend_all keys f ((key, v) ∷ puts) = extend_all keys (extend keys f key v) puts

-- The map stands for the function.
pub record Represents (keys : Keys) (map : Hmap) (f : Variable → Variable) : Type 0 where
  pub valid : IsValid keys map
  pub finds : (k : Variable) → keys.usable k ≡ true → hfind keys map k ≡ some (f k)

not_last : (i n : ℕ) → i ≤ 30 → n < 2 ^ 30 → ltb n (2 ^ i) ≡ false → i + 1 ≤ 30
not_last i n h small p = elim (ℕ_discrete i 30) [
  | no ne ↦ omega arith
  | yes e ↦ let t : ltb n (2 ^ i) ≡ true = rw e (lt→ltb n (2 ^ 30) small) in cc (t, p)
]

shift_pos : (j n : ℕ) → suc n < 2 ^ j → 0 < j
shift_pos zero n h = absurd (omega arith)
shift_pos (suc j) n h = omega arith

log2x_loop_lem :
    (r i n : ℕ)
    → i + r ≡ 32
    → i ≤ 30
    → n < 2 ^ 30
    → (j : ℕ) × (log2x_loop r i n ≡ some j) × (n < 2 ^ j)
unfolding log2x_loop
log2x_loop_lem zero i n e h small = absurd (omega arith)
log2x_loop_lem (suc r) i n e h small = elim (Bool-cases (ltb n (2 ^ i))) [
  | inl p ↦ (i, rw (lt→ltb i 31 (omega arith), p), ground arith)
  | inr p ↦
      let q = log2x_loop_lem r (i + 1) n (omega arith) (not_last i n h small p) small in
      (q.0, rw (lt→ltb i 31 (omega arith), p) q.1, q.2)
]

hmap_new-suc :
    (n j : ℕ) → log2x_loop 32 0 (suc n) ≡ some j → 0 < j → hmap_new (suc n) ≡ some (empty j)
unfolding hmap_new log2x
hmap_new-suc n j e p = let f : (suc n == 0) ≡ false = ground arith in rw (f, e) (rw (lt→ltb 0 j p))

two_le_pow : (s : ℕ) → 0 < s → 2 ≤ 2 ^ s
two_le_pow zero h = absurd (omega arith)
two_le_pow (suc s) h = omega (arith, pow_pos s)

-- hmap_new makes an empty table for a count below 2^30.
hmap_new_lem :
    (count : ℕ) → count < 2 ^ 30 → (shift : ℕ) × (hmap_new count ≡ some (empty shift)) × (0 < shift)
unfolding hmap_new log2x
hmap_new_lem zero h = (5, refl, omega arith)
hmap_new_lem (suc n) h =
    let (j, e, fits) = log2x_loop_lem 32 0 (suc n) (omega arith) (omega arith) h in
    let p = shift_pos j n fits in (j, hmap_new-suc n j e p, p)

module _ (keys : Keys) (laws : IsLawful keys) where
  -- The grown table finds what the old one found.
  Moved-hfind :
      (old m : Hmap)
      → IsValid keys old
      → IsValid keys m
      → Moved old.item (2 ^ old.shift) m
      → (k : Variable) → keys.usable k ≡ true
      → hfind keys m k ≡ hfind keys old k
  Moved-hfind old m w w' moved k ok = elim (Holds-cases keys laws old w.chained k ok) [
    | inl (j, (t, e)) ↦
        let (i, copy) = moved.kept j (w.chained.below j t) t in
        hfind_hit keys laws m w'.chained k ok i (copy.used, rw copy.same_k e)
        ∙ ap some copy.same_v
        ∙ sym (hfind_hit keys laws old w.chained k ok j (t, e))
    | inr out ↦
        hfind_miss keys laws m w'.chained k ok (λ i held.
          let (j, _, t, copy) = moved.onto i held.0 in out j (t, rw (← copy.same_k) held.1))
        ∙ sym (hfind_miss keys laws old w.chained k ok out)
  ]

  Puts-Represents :
      (m m' : Hmap) (f : Variable → Variable) (key v : Variable)
      → keys.usable key ≡ true
      → Represents keys m f
      → Puts keys m key v m'
      → Represents keys m' (extend keys f key v)
  Puts-Represents m m' f key v n r p = record {
    valid = Puts-IsValid keys laws m m' key v n r.valid p;
    finds = λ k ok'.
        Stored-hfind keys laws m m' r.valid.chained p.moves p.at key v n p.stored p.chained k ok'
        ∙ elim (Bool-cases (keys.equals key k)) [ inl e ↦ rw e | inr e ↦ rw e (r.finds k ok') ];
  }

  module _ (m : Hmap) (w : IsValid keys m) (fuel : ℕ) where
    -- resize makes a table with room that finds the same.
    resize_lem :
        (m' : Hmap) × (resize (hindex keys (suc fuel)) m (m.shift + 1) ≡ some m')
        × IsValid keys m'
        × (hmap_count m' + 1 < 2 ^ m'.shift)
        × ((k : Variable) → keys.usable k ≡ true → hfind keys m' k ≡ hfind keys m k)
    unfolding resize
    resize_lem =
        let not_zero : (m.shift == 0) ≡ false = let g = w.grown in ground arith in
        let r = rehash_lem keys laws m w fuel (2 ^ m.shift) (omega arith) in
        (
          r.result,
          rw (lt→ltb m.shift (m.shift + 1) (omega arith), not_zero) r.returns,
          r.valid,
          omega (
            arith,
            r.counted,
            pow_add_one m.shift,
            ap (λ (t : ℕ). 2 ^ t) r.shifted,
            two_le_pow m.shift w.grown,
          ),
          Moved-hfind m r.result w r.valid r.moved,
        )

  hindex_two :
      (m : Hmap) (key : Variable)
      → hindex keys 2 m key
        ≡ hindex_with keys
            (λ (full : Hmap).
              resize (hindex keys 1) full (full.shift + 1) >>= λ map'. hindex keys 1 map' key)
            m
            key
  unfolding hindex
  hindex_two m key = refl

  put_grown :
      (m m' : Hmap) (key v : Variable)
      → hindex_with keys
          (λ (full : Hmap).
            resize (hindex keys 1) full (full.shift + 1) >>= λ map'. hindex keys 1 map' key)
          m
          key
        ≡ hindex keys 1 m' key
      → hmap_put keys m key v ≡ put_with (hindex keys 1) m' key v
  unfolding hmap_put put_with
  put_grown m m' key v e = rw (hindex_two m key, e)

  -- hmap_put always returns, and what the map then stands for has the value under the key.
  pub hmap_put-Represents :
      (m : Hmap) (f : Variable → Variable) (key v : Variable)
      → keys.usable key ≡ true
      → Represents keys m f
      → (m' : Hmap) × (hmap_put keys m key v ≡ some m') × Represents keys m' (extend keys f key v)
  unfolding hmap_put put_with hindex
  hmap_put-Represents m f key v n r =
      elim (Indexes-hindex_with keys laws m r.valid.chained r.valid.last key n (λ (full : Hmap).
        resize (hindex keys 1) full (full.shift + 1) >>= λ map'. hindex keys 1 map' key)) [
          | inl (m', i, e, p) ↦ (
            written m' i key v,
            rw (laws.usable_not_nil key n, e),
            Puts-Represents m (written m' i key v) f key v n r (p v),
          )
          | inr (e, full) ↦
              let (m', back, w, roomy, same) = resize_lem m r.valid 0 in
              let (m'', e', p) = put_room keys laws m' w key v n roomy 0 in
              let found : Represents keys m' f = record {
                valid = w;
                finds = λ k ok. same k ok ∙ r.finds k ok;
              } in
              (
                m'',
                put_grown m m' key v (e ∙ rw back) ∙ e',
                Puts-Represents m' m'' f key v n found p,
              )
        ]

  put_all-Represents :
      (m : Hmap) (f : Variable → Variable) (puts : List (Variable × Variable))
      → All (λ p. keys.usable p.0 ≡ true) puts
      → Represents keys m f
      → (m' : Hmap) × (put_all keys m puts ≡ some m') × Represents keys m' (extend_all keys f puts)
  unfolding put_all extend_all
  put_all-Represents m f [] ns r = (m, refl, r)
  put_all-Represents m f ((key, v) ∷ puts) (n, ns) r =
      let (m', e, r') = hmap_put-Represents m f key v n r in
      let (m'', e', r'') = put_all-Represents m' (extend keys f key v) puts ns r' in
      (m'', rw e e', r'')

  pub empty-Represents : (shift : ℕ) → 0 < shift → Represents keys (empty shift) (λ _. nil)
  empty-Represents shift h = record {
    valid = empty-IsValid keys laws shift h;
    finds = λ k ok.
        hfind_miss keys laws (empty shift) (empty-IsValid keys laws shift h).chained k ok
          (λ i held. cc (held.0));
  }

  -- In a map that hmap_new made for a count below 2^30, any number of stores under usable keys
  -- succeed, the growth of the table included, and hmap_get of a usable key then returns the value of
  -- the last store under an equal key, or nil where there is none. The condition is that on usable
  -- keys, none of them nil, `equals` is symmetric and transitive, and equal keys have one hash.
  pub hmap_get-put_all :
      (count : ℕ) (puts : List (Variable × Variable)) (key : Variable)
      → count < 2 ^ 30
      → All (λ p. keys.usable p.0 ≡ true) puts
      → keys.usable key ≡ true
      → (new map : Hmap) × (hmap_new count ≡ some new)
        × (put_all keys new puts ≡ some map)
        × (hmap_get keys map key ≡ some (extend_all keys (λ _. nil) puts key))
  unfolding hmap_get
  hmap_get-put_all count puts key small ns n =
      let (shift, e, h) = hmap_new_lem count small in
      let (map, e', r) =
        put_all-Represents (empty shift) (λ _. nil) puts ns (empty-Represents shift h) in
      (empty shift, map, e, e', rw (laws.usable_not_nil key n) (r.finds key n))
