-- ===== src/Kstr/Copies.antt =====
-- What the loops of kpool_resize do to the contents of the string pool.
use ymd.Common.{
  ℕ, zero, suc, ◌+◌, ◌%◌, ◌^◌, ◌<◌, ◌≡◌, ◌∙◌, refl, sym, ap, subst, arith, if◌then◌else◌, true,
  Bool-cases, Option, Option-cases, ◌⊎◌, inl, inr, none, some, or_else, List, [], ◌∷◌,
}
use ymd.Kstr.{Kstr, bucket, kz_hash, kpool_copy2, copy_list, copy_slots, find, same_bytes}
use ymd.Kstr.Buckets.{
  IsBucket, IsTable, lookup, lookup-copy2, kpool_copy2-IsTable, find-IsBucket, find_hit, find_miss,
  find_self, same_bytes→≡,
}

-- No string is found in both.
abbrev pub Apart : (List ℕ → Option Kstr) → (List ℕ → Option Kstr) → Type 0
Apart f g = (z : List ℕ) → (f z ≡ none) ⊎ (g z ≡ none)

module _ (shift : ℕ) (slot : List (List Kstr)) (table : IsTable slot shift) (x : Kstr)
    (xs : List Kstr) (hashed : x.hash ≡ kz_hash x.land) (alone : find x.land xs ≡ none)
    (apart : Apart (λ z. find z (x ∷ xs)) (lookup slot shift)) where
  first_fresh : lookup slot shift x.land ≡ none
  first_fresh = elim (apart x.land) [
    | inl e ↦ absurd (some-none (sym (find_self x xs) ∙ e))
    | inr e ↦ e
  ]
    where
      some-none : {a : Kstr} → some a ≡ none → ⊥
      some-none e = cc

  missed : (z : List ℕ) → same_bytes x.land z ≡ true → find z xs ≡ none
  missed z t = subst (λ b. find b xs ≡ none) (same_bytes→≡ x.land z t) alone

  copied-Apart : Apart (λ z. find z xs) (lookup (kpool_copy2 slot x shift) shift)
  copied-Apart z = elim (Bool-cases (same_bytes x.land z)) [
    | inl t ↦ inl (missed z t)
    | inr f ↦ elim (apart z) [
      | inl e ↦ inl (sym (find_miss z x xs f) ∙ e)
      | inr e ↦ inr (
          lookup-copy2 shift slot table x hashed z
          ∙ ap (λ b. if b then some x else lookup slot shift z) f
          ∙ e)
    ]
  ]

  copied_or_else :
      (z : List ℕ)
      → or_else (find z xs) (lookup (kpool_copy2 slot x shift) shift z)
        ≡ or_else (find z (x ∷ xs)) (lookup slot shift z)
  copied_or_else z = elim (Bool-cases (same_bytes x.land z)) [
    | inl t ↦ rw (missed z t, lookup-copy2 shift slot table x hashed z, t, find_hit z x xs t)
    | inr f ↦ rw (lookup-copy2 shift slot table x hashed z, f, find_miss z x xs f)
  ]

-- Copying a bucket adds its strings to the contents.
copy_list_lem :
    (shift old j : ℕ) (xs : List Kstr) (slot : List (List Kstr))
    → IsBucket old j xs
    → IsTable slot shift
    → Apart (λ z. find z xs) (lookup slot shift)
    → IsTable (copy_list xs slot shift) shift
      × ((z : List ℕ)
          → lookup (copy_list xs slot shift) shift z ≡ or_else (find z xs) (lookup slot shift z))
unfolding copy_list find
copy_list_lem shift old j [] slot b table apart = (table, λ z. refl)
copy_list_lem shift old j (x ∷ xs) slot (hashed, placed, alone, rest) table apart =
    let fresh = first_fresh shift slot table x xs hashed alone apart in
    let (t, l) =
      copy_list_lem shift old j xs (kpool_copy2 slot x shift) rest
        (kpool_copy2-IsTable shift slot table x hashed fresh)
        (copied-Apart shift slot table x xs hashed alone apart) in
    (t, λ z. l z ∙ copied_or_else shift slot table x xs hashed alone apart z)

-- The first string found in a list of buckets.
abbrev pub find_slots : List ℕ → List (List Kstr) → Option Kstr
find_slots z [] = none
find_slots z (list ∷ bak) = or_else (find z list) (find_slots z bak)

-- The buckets from number `o` on.
abbrev pub AreBuckets : ℕ → ℕ → List (List Kstr) → Type 0
AreBuckets old o [] = Unit
AreBuckets old o (list ∷ bak) = IsBucket old o list × AreBuckets old (suc o) bak

find_slots-before :
    (old o : ℕ) (z : List ℕ) (bak : List (List Kstr))
    → AreBuckets old o bak
    → kz_hash z % 2 ^ old < o
    → find_slots z bak ≡ none
find_slots-before old o z [] b h = refl
find_slots-before old o z (list ∷ bak) (here, rest) h = elim (Option-cases (find z list)) [
  | inl e ↦ rw e (find_slots-before old (suc o) z bak rest (omega arith))
  | inr (x, e) ↦ absurd (omega (arith, (find-IsBucket old o z x list here e).0))
]

-- The buckets are searched at the place of the hash alone.
pub find_slots-bucket :
    (old o k : ℕ) (z : List ℕ) (bak : List (List Kstr))
    → AreBuckets old o bak
    → kz_hash z % 2 ^ old ≡ o + k
    → find_slots z bak ≡ find z (bucket bak k)
unfolding find
find_slots-bucket old o k z [] b h = refl
find_slots-bucket old o zero z (list ∷ bak) (here, rest) h =
    rw (find_slots-before old (suc o) z bak rest (omega arith)) (last (find z list))
  where
    last : (a : Option Kstr) → or_else a none ≡ a
    last none = refl
    last (some a) = refl
find_slots-bucket old o (suc k) z (list ∷ bak) (here, rest) h = elim (Option-cases (find z list)) [
  | inl e ↦ rw e (find_slots-bucket old (suc o) k z bak rest (omega arith))
  | inr (x, e) ↦ absurd (omega (arith, (find-IsBucket old o z x list here e).0))
]

module _ (shift old o : ℕ) (slot : List (List Kstr)) (list : List Kstr) (bak : List (List Kstr))
    (here : IsBucket old o list) (rest : AreBuckets old (suc o) bak)
    (apart : Apart (λ z. find_slots z (list ∷ bak)) (lookup slot shift)) where
  list-Apart : Apart (λ z. find z list) (lookup slot shift)
  list-Apart z = elim (apart z) [ inl e ↦ inl (left (find z list) _ e) | inr e ↦ inr e ]
    where
      left : (a b : Option Kstr) → or_else a b ≡ none → a ≡ none
      left none b e = refl
      left (some a) b e = absurd (cc)

  beyond : (z : List ℕ) (x : Kstr) → find z list ≡ some x → find_slots z bak ≡ none
  beyond z x e =
      find_slots-before old (suc o) z bak rest
        (omega (arith, (find-IsBucket old o z x list here e).0))

  module _ (next : List (List Kstr))
      (copied : (z : List ℕ)
        → lookup next shift z ≡ or_else (find z list) (lookup slot shift z)) where
    bak-Apart : Apart (λ z. find_slots z bak) (lookup next shift)
    bak-Apart z = elim (Option-cases (find z list)) [
      | inl e ↦ elim (apart z) [
        | inl h ↦ inl (ap (λ a. or_else a (find_slots z bak)) (sym e) ∙ h)
        | inr h ↦ inr (copied z ∙ ap (λ a. or_else a (lookup slot shift z)) e ∙ h)
      ]
      | inr (x, e) ↦ inl (beyond z x e)
    ]

    bak_or_else :
        (z : List ℕ)
        → or_else (find_slots z bak) (lookup next shift z)
          ≡ or_else (find_slots z (list ∷ bak)) (lookup slot shift z)
    bak_or_else z = elim (Option-cases (find z list)) [
      | inl e ↦ rw (copied z, e)
      | inr (x, e) ↦ rw (copied z, beyond z x e, e)
    ]

-- Copying all buckets adds their strings to the contents.
pub copy_slots_lem :
    (shift old o : ℕ) (bak slot : List (List Kstr))
    → AreBuckets old o bak
    → IsTable slot shift
    → Apart (λ z. find_slots z bak) (lookup slot shift)
    → IsTable (copy_slots bak slot shift) shift
      × ((z : List ℕ)
          → lookup (copy_slots bak slot shift) shift z
            ≡ or_else (find_slots z bak) (lookup slot shift z))
unfolding copy_slots
copy_slots_lem shift old o [] slot b table apart = (table, λ z. refl)
copy_slots_lem shift old o (list ∷ bak) slot (here, rest) table apart =
    let (t, l) =
      copy_list_lem shift old o list slot here table
        (list-Apart shift old o slot list bak here rest apart) in
    let next = copy_list list slot shift in
    let (t', l') =
      copy_slots_lem shift old (suc o) bak next rest t
        (bak-Apart shift old o slot list bak here rest apart next l) in
    (t', λ z. l' z ∙ bak_or_else shift old o slot list bak here rest apart next l z)
