-- ===== src/Kstr/Buckets.antt =====
-- The invariant of the buckets of the string pool, and what copying a node does to them.
use ymd.Common.{
  ℕ, ◌%◌, ◌^◌, ◌<◌, ◌≡◌, ◌∙◌, refl, sym, ap, subst, arith, ◌==◌, ==_iff, if◌then◌else◌, true, false,
  Bool-cases, Option, inl, inr, none, some, List, [], ◌∷◌, length, set, length-set,
  get_elem?-set_self, get_elem?-set_ne,
}
use native.Mathlib.Nat.{mod-lt}
use ymd.Common.Bits.{one-le-two_pow}
use ymd.Kstr.{Kstr, bucket, kz_hash, kstr_hash, kpool_copy2, find, same_bytes}

some_inj : {x y : Kstr} → some x ≡ some y → x ≡ y
some_inj e = cc

pub same_bytes_self : (z : List ℕ) → same_bytes z z ≡ true
unfolding same_bytes
same_bytes_self [] = refl
same_bytes_self (c ∷ z) = ground (arith, same_bytes_self z)

pub same_bytes→≡ : (z1 z2 : List ℕ) → same_bytes z1 z2 ≡ true → z1 ≡ z2
unfolding same_bytes
same_bytes→≡ [] [] h = refl
same_bytes→≡ [] (d ∷ z2) h = absurd (cc)
same_bytes→≡ (c ∷ z1) [] h = absurd (cc)
same_bytes→≡ (c ∷ z1) (d ∷ z2) h = grind (arith, same_bytes→≡ z1 z2)

-- The objects of bucket `j` have their own hash, which leads to the bucket, and no two have the same
-- bytes.
abbrev pub IsBucket : ℕ → ℕ → List Kstr → Type 0
IsBucket shift j [] = Unit
IsBucket shift j (x ∷ xs) =
    (x.hash ≡ kz_hash x.land)
    × (x.hash % 2 ^ shift ≡ j)
    × (find x.land xs ≡ none)
    × IsBucket shift j xs

pub record IsTable (slot : List (List Kstr)) (shift : ℕ) : Type 0 where
  pub whole : length slot ≡ 2 ^ shift
  pub buckets : (j : ℕ) → IsBucket shift j (bucket slot j)

-- What the pool holds for the bytes `z`.
abbrev pub lookup : List (List Kstr) → ℕ → List ℕ → Option Kstr
lookup slot shift z = find z (bucket slot (kz_hash z % 2 ^ shift))

bucket-set :
    (slot : List (List Kstr)) (i j : ℕ) (list : List Kstr)
    → i < length slot
    → bucket (set slot i list) j ≡ (if i == j then list else bucket slot j)
bucket-set slot i j list h =
    ground (arith, get_elem?-set_self slot i list h, get_elem?-set_ne slot i j list)

pub kstr_hash_done : (x : Kstr) → x.hash ≡ kz_hash x.land → kstr_hash x ≡ x
unfolding kstr_hash
kstr_hash_done x e = elim (Bool-cases (x.hash == 0)) [
  | inl t ↦ rw t (ap (λ (n : ℕ). record x { hash = n }) (sym e))
  | inr f ↦ rw f
]

pub find_hit :
    (z : List ℕ) (x : Kstr) (xs : List Kstr) → same_bytes x.land z ≡ true → find z (x ∷ xs) ≡ some x
unfolding find
find_hit z x xs e = rw e

pub find_miss :
    (z : List ℕ) (x : Kstr) (xs : List Kstr)
    → same_bytes x.land z ≡ false
    → find z (x ∷ xs) ≡ find z xs
unfolding find
find_miss z x xs e = rw e

pub find_self : (x : Kstr) (xs : List Kstr) → find x.land (x ∷ xs) ≡ some x
find_self x xs = find_hit x.land x xs (same_bytes_self x.land)

-- What a bucket holds for `z` leads there.
pub find-IsBucket :
    (shift j : ℕ) (z : List ℕ) (x : Kstr) (xs : List Kstr)
    → IsBucket shift j xs
    → find z xs ≡ some x
    → (kz_hash z % 2 ^ shift ≡ j) × (x.land ≡ z)
unfolding find
find-IsBucket shift j z x [] h e = absurd (cc)
find-IsBucket shift j z x (y ∷ ys) (hashed, placed, fresh, rest) e =
    elim (Bool-cases (same_bytes y.land z)) [
      | inl t ↦
          let l = same_bytes→≡ y.land z t in
          let first : y ≡ x = some_inj (sym (find_hit z y ys t) ∙ e) in
          (
            ap (λ b. kz_hash b % 2 ^ shift) (sym l)
                ∙ ap (λ (n : ℕ). n % 2 ^ shift) (sym hashed)
                ∙ placed,
            ap (λ (b : Kstr). b.land) (sym first) ∙ l,
          )
      | inr f ↦ find-IsBucket shift j z x ys rest (sym (find_miss z y ys f) ∙ e)
    ]

module _ (shift : ℕ) (slot : List (List Kstr)) (table : IsTable slot shift) (x : Kstr)
    (hashed : x.hash ≡ kz_hash x.land) where
  bucket-copy2 :
      (j : ℕ)
      → bucket (kpool_copy2 slot x shift) j
        ≡ (if x.hash % 2 ^ shift == j then x ∷ bucket slot j else bucket slot j)
  unfolding kpool_copy2
  bucket-copy2 j =
      rw (kstr_hash_done x hashed)
        (bucket-set slot (x.hash % 2 ^ shift) j _ in_range ∙ ground (arith))
    where
      in_range : x.hash % 2 ^ shift < length slot
      in_range =
          omega (
            arith,
            mod-lt x.hash {m = 2 ^ shift} (omega (arith, one-le-two_pow shift)),
            table.whole,
          )

  pub lookup-copy2 :
      (z : List ℕ)
      → lookup (kpool_copy2 slot x shift) shift z
        ≡ (if same_bytes x.land z then some x else lookup slot shift z)
  lookup-copy2 z = elim (Bool-cases (same_bytes x.land z)) [
    | inl t ↦
        let l : x.land ≡ z = same_bytes→≡ x.land z t in
        let here : x.hash % 2 ^ shift ≡ kz_hash z % 2 ^ shift =
          ap (λ (n : ℕ). n % 2 ^ shift) (hashed ∙ ap kz_hash l) in
        rw t (
          ap (find z) (bucket-copy2 (kz_hash z % 2 ^ shift))
          ∙ ground (arith, here, find_hit z x (bucket slot (kz_hash z % 2 ^ shift)) t))
    | inr f ↦ rw f (
        ap (find z) (bucket-copy2 (kz_hash z % 2 ^ shift))
        ∙ ground (arith, find_miss z x (bucket slot (kz_hash z % 2 ^ shift)) f))
  ]

  pub kpool_copy2-IsTable :
      lookup slot shift x.land ≡ none → IsTable (kpool_copy2 slot x shift) shift
  unfolding kpool_copy2
  kpool_copy2-IsTable fresh = record {
    whole = length-set slot _ _ ∙ table.whole;
    buckets = λ j. subst (IsBucket shift j) (sym (bucket-copy2 j)) (either j);
  }
    where
      at : x.hash % 2 ^ shift ≡ kz_hash x.land % 2 ^ shift
      at = ap (λ (n : ℕ). n % 2 ^ shift) hashed

      either :
          (j : ℕ)
          → IsBucket shift j (if x.hash % 2 ^ shift == j then x ∷ bucket slot j else bucket slot j)
      either j = elim (Bool-cases (x.hash % 2 ^ shift == j)) [
        | inl t ↦
            let e : x.hash % 2 ^ shift ≡ j = (==_iff _ _).0 t in
            rw t (
              hashed,
              e,
              ap (λ (n : ℕ). find x.land (bucket slot n)) (sym e ∙ at) ∙ fresh,
              table.buckets j,
            )
        | inr f ↦ rw f (table.buckets j)
      ]
