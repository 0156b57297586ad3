-- ===== src/Kstr/Pool.antt =====
-- What kpool_resize, kpool_index and kstr_fetch do to the contents of the string pool.
use ymd.Common.{
  ℕ, zero, suc, ◌+◌, ◌%◌, ◌^◌, ◌<◌, ◌≡◌, ◌≢◌, ◌∙◌, refl, sym, ap, subst, arith, ltb, leb,
  if◌then◌else◌, Bool, true, false, Bool-cases, Option, Option-cases, inl, inr, none, some, or_else,
  List, [], ◌∷◌, length, replicate, length-replicate,
}
use ymd.Kstr.{
  Kstr, Kpool, bucket, kz_hash, kstr_hash, kpool_copy2, kpool_resize, find, same_bytes, kpool_index,
  kpool_insert, with_room, kstr_new, kpool_init, kstr_fetch, max_kpool_len,
}
use ymd.Kstr.Buckets.{
  IsBucket, IsTable, lookup, lookup-copy2, kpool_copy2-IsTable, find-IsBucket, same_bytes_self,
  same_bytes→≡, kstr_hash_done,
}
use ymd.Kstr.Copies.{find_slots, find_slots-bucket, AreBuckets, copy_slots_lem}

bucket-replicate : (n j : ℕ) → bucket (replicate n []) j ≡ []
bucket-replicate zero j = refl
bucket-replicate (suc n) zero = refl
bucket-replicate (suc n) (suc j) = bucket-replicate n j

empty-IsTable : (shift : ℕ) → IsTable (replicate (2 ^ shift) []) shift
empty-IsTable shift = record {
  whole = length-replicate (2 ^ shift) [];
  buckets = λ j. subst (IsBucket shift j) (sym (bucket-replicate (2 ^ shift) j)) tt;
}

lookup-empty : (shift : ℕ) (z : List ℕ) → lookup (replicate (2 ^ shift) []) shift z ≡ none
unfolding find
lookup-empty shift z = rw (bucket-replicate (2 ^ shift) (kz_hash z % 2 ^ shift))

AreBuckets-from :
    (old o : ℕ) (bak : List (List Kstr))
    → ((k : ℕ) → IsBucket old (o + k) (bucket bak k))
    → AreBuckets old o bak
AreBuckets-from old o [] h = tt
AreBuckets-from old o (list ∷ bak) h = (
  subst (λ (n : ℕ). IsBucket old n list) (omega arith) (h 0),
  AreBuckets-from old (suc o) bak
      (λ k. subst (λ (n : ℕ). IsBucket old n (bucket bak k)) (omega arith) (h (suc k))),
)

or_else-none : (a : Option Kstr) → or_else a none ≡ a
or_else-none none = refl
or_else-none (some a) = refl

-- The buckets of the pool are as kpool_index expects them.
abbrev pub IsPool : Kpool → Type 0
IsPool kt = IsTable kt.slot kt.shift

abbrev pub fetched : Kpool → List ℕ → Option Kstr
fetched kt z = lookup kt.slot kt.shift z

-- kpool_resize keeps the pool well formed, and keeps for every string the object that is found.
pub kpool_resize_lem :
    (kt : Kpool) (shift : ℕ)
    → IsPool kt
    → IsPool (kpool_resize kt shift)
      × ((z : List ℕ) → fetched (kpool_resize kt shift) z ≡ fetched kt z)
unfolding kpool_resize
kpool_resize_lem kt shift pool =
    let bak = AreBuckets-from kt.shift 0 kt.slot (λ k.
      subst (λ (n : ℕ). IsBucket kt.shift n (bucket kt.slot k)) (omega arith) (pool.buckets k)) in
    let (t, l) =
      copy_slots_lem shift kt.shift 0 kt.slot (replicate (2 ^ shift) []) bak (empty-IsTable shift)
        (λ z. inr (lookup-empty shift z)) in
    (
      t,
      λ z.
          l z
          ∙ ap (or_else (find_slots z kt.slot)) (lookup-empty shift z)
          ∙ or_else-none (find_slots z kt.slot)
          ∙ find_slots-bucket kt.shift 0 (kz_hash z % 2 ^ kt.shift) z kt.slot bak (omega arith),
    )

with_room_lem :
    (kt : Kpool)
    → IsPool kt
    → IsPool (with_room kt) × ((z : List ℕ) → fetched (with_room kt) z ≡ fetched kt z)
with_room_lem kt pool = elim (Bool-cases (leb (2 ^ kt.shift) kt.used)) [
  | inl t ↦ rw t (kpool_resize_lem kt (kt.shift + 1) pool)
  | inr f ↦ rw f (pool, λ z. refl)
]

-- The object that a new string becomes.
abbrev interned : ℕ → List ℕ → Kstr
interned address z = record { address = address; hash = kz_hash z; land = z }

kpool_insert_lem :
    (a : ℕ) (z : List ℕ) (kt : Kpool)
    → IsPool kt
    → fetched kt z ≡ none
    → ((kpool_insert a z kt).0 ≡ interned a z)
      × IsPool (kpool_insert a z kt).1
      × ((w : List ℕ)
          → fetched (kpool_insert a z kt).1 w
            ≡ (if same_bytes z w then some (interned a z) else fetched kt w))
unfolding kpool_insert kpool_copy2 kstr_hash
kpool_insert_lem a z kt pool new =
    let (room, same) = with_room_lem kt pool in
    let r = with_room kt in
    (
      refl,
      subst (λ slot. IsTable slot r.shift) (copied r)
          (kpool_copy2-IsTable r.shift r.slot room (interned a z) refl (same z ∙ new)),
      λ w.
          ap (λ slot. lookup slot r.shift w) (sym (copied r))
          ∙ lookup-copy2 r.shift r.slot room (interned a z) refl w
          ∙ ap (λ (f : Option Kstr). if same_bytes z w then some (interned a z) else f) (same w),
    )
  where
    copied :
        (r : Kpool)
        → kpool_copy2 r.slot (interned a z) r.shift ≡ kpool_copy2 r.slot (kstr_new a z) r.shift
    copied r = rw (kstr_hash_done (interned a z) refl)

index_hit :
    (a : ℕ) (z : List ℕ) (kt : Kpool) (x : Kstr)
    → fetched kt z ≡ some x
    → kpool_index a z kt ≡ (x, kt)
unfolding kpool_index
index_hit a z kt x e = rw (e, kpool_index)

index_miss :
    (a : ℕ) (z : List ℕ) (kt : Kpool)
    → fetched kt z ≡ none
    → kpool_index a z kt ≡ kpool_insert a z kt
unfolding kpool_index kpool_insert
index_miss a z kt e = rw (e, kpool_index)

-- On a well-formed pool kpool_index returns an object with the bytes asked for, which the pool then
-- holds for them; the pool stays well formed, and holds for all other strings what it held.
pub kpool_index_lem :
    (a : ℕ) (z : List ℕ) (kt : Kpool) (w : List ℕ)
    → IsPool kt
    → w ≢ z
    → ((kpool_index a z kt).0.land ≡ z)
      × IsPool (kpool_index a z kt).1
      × (fetched (kpool_index a z kt).1 z ≡ some (kpool_index a z kt).0)
      × (fetched (kpool_index a z kt).1 w ≡ fetched kt w)
kpool_index_lem a z kt w pool ne = elim (Option-cases (fetched kt z)) [
  | inr (x, e) ↦
      rw (index_hit a z kt x e)
        ((find-IsBucket kt.shift _ z x _ (pool.buckets _) e).1, pool, e, refl)
  | inl e ↦
      let (object, valid, held) = kpool_insert_lem a z kt pool e in
      rw (index_miss a z kt e) (
        ap (λ (x : Kstr). x.land) object,
        valid,
        held z
            ∙ ap (λ b. if b then some (interned a z) else fetched kt z) (same_bytes_self z)
            ∙ ap some (sym object),
        held w
            ∙ ap (λ b. if b then some (interned a z) else fetched kt w)
                (differs (same_bytes z w) refl),
      )
]
  where
    differs : (b : Bool) → same_bytes z w ≡ b → b ≡ false
    differs true t = absurd (ne (sym (same_bytes→≡ z w t)))
    differs false f = refl

-- What the pool holds stays: kpool_index on any bytes keeps the object of every string.
kpool_index_keeps :
    (a : ℕ) (z : List ℕ) (kt : Kpool) (w : List ℕ) (x : Kstr)
    → IsPool kt
    → fetched kt w ≡ some x
    → fetched (kpool_index a z kt).1 w ≡ some x
kpool_index_keeps a z kt w x pool h = elim (Option-cases (fetched kt z)) [
  | inr (y, e) ↦ rw (index_hit a z kt y e) h
  | inl e ↦
      let (object, valid, held) = kpool_insert_lem a z kt pool e in
      rw (index_miss a z kt e) (
        held w
        ∙ ap (λ b. if b then some (interned a z) else fetched kt w)
            (differs (same_bytes z w) refl e)
        ∙ h)
]
  where
    differs : (b : Bool) → same_bytes z w ≡ b → fetched kt z ≡ none → b ≡ false
    differs true t e = absurd (clash (sym h ∙ ap (fetched kt) (sym (same_bytes→≡ z w t)) ∙ e))
      where
        clash : {y : Kstr} → some y ≡ none → ⊥
        clash c = cc
    differs false f e = refl

fetch_short :
    (a : ℕ) (z : List ℕ) (kt : Kpool)
    → length z < max_kpool_len
    → kstr_fetch a z kt ≡ kpool_index a z kt
unfolding kstr_fetch
fetch_short a z kt h = ground arith

kstr_fetch_keeps :
    (a : ℕ) (z : List ℕ) (kt : Kpool) (w : List ℕ) (x : Kstr)
    → IsPool kt
    → fetched kt w ≡ some x
    → fetched (kstr_fetch a z kt).1 w ≡ some x
unfolding kstr_fetch
kstr_fetch_keeps a z kt w x pool h = elim (Bool-cases (ltb (length z) max_kpool_len)) [
  | inl t ↦ rw t (kpool_index_keeps a z kt w x pool h)
  | inr f ↦ rw f h
]

-- On a well-formed pool, fetching a string of less than 40 characters again gives the same object,
-- whatever string is fetched in between.
pub kstr_fetch-kstr_fetch :
    (a b c : ℕ) (z w : List ℕ) (kt : Kpool)
    → IsPool kt
    → length z < max_kpool_len
    → (kstr_fetch c z (kstr_fetch b w (kstr_fetch a z kt).1).1).0 ≡ (kstr_fetch a z kt).0
kstr_fetch-kstr_fetch a b c z w kt pool h =
    rw (fetch_short a z kt h)
      (ap (λ r. r.0) (fetch_short c z _ h ∙ index_hit c z _ (kpool_index a z kt).0 held))
  where
    first :
        IsPool (kpool_index a z kt).1
        × (fetched (kpool_index a z kt).1 z ≡ some (kpool_index a z kt).0)
    first = let r = kpool_index_lem a z kt (0 ∷ z) pool (longer z) in (r.1, r.2)
      where
        longer : (l : List ℕ) → (0 ∷ l) ≢ l
        longer l e = absurd (omega (arith, ap length e))

    held : fetched (kstr_fetch b w (kpool_index a z kt).1).1 z ≡ some (kpool_index a z kt).0
    held = kstr_fetch_keeps b w (kpool_index a z kt).1 z (kpool_index a z kt).0 first.0 first.1

-- The pool starts well formed.
pub kpool_init-IsPool : IsPool kpool_init
unfolding kpool_init
kpool_init-IsPool = empty-IsTable 8
