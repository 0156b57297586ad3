-- ===== src/Dyay/Contents.antt =====
-- The operations of the array on the elements in use.
use ymd.Common.{
  ℕ, zero, suc, ◌+◌, ◌-◌, ◌*◌, ◌/◌, ◌≡◌, ◌≤◌, ◌<◌, ◌∙◌, refl, ap, arith, ltb, leb, ◌==◌,
  if◌then◌else◌, Option-cases, inl, inr, some, List, [], ◌∷◌, ◌++◌, length, get_elem?,
  length-append, length-set, get_elem?-set_self, get_elem?-set_ne, get_elem?-some,
}
use ymd.Dyay.{Dyay, Memory, with_room, resize, copy_up, shift_up}

-- The block has `max` slots, and no more are in use.
pub record IsValid {ℓ} {A : Type ℓ} (arr : Dyay A) : Type ℓ where
  pub fits : arr.count ≤ arr.max
  pub whole : length arr.elem ≡ arr.max

module _ {A : Type 0} where
  length-copy_up : (elem : List A) (j : ℕ) → length (copy_up elem j) ≡ length elem
  unfolding copy_up
  length-copy_up elem j = elim (Option-cases (get_elem? elem j)) [
    | inl e ↦ rw (e, copy_up)
    | inr (v, e) ↦ rw (e, copy_up) (length-set elem (suc j) v)
  ]

  get_elem?-copy_up :
      (elem : List A) (j k : ℕ)
      → suc j < length elem
      → get_elem? (copy_up elem j) k ≡ (if k == suc j then get_elem? elem j else get_elem? elem k)
  unfolding copy_up
  get_elem?-copy_up elem j k h =
      let found = get_elem?-some elem j (omega arith) in
      let v = found.0 in
      let e : get_elem? elem j ≡ some v = found.1 in
      rw (e, copy_up)
        (ground (arith, get_elem?-set_self elem (suc j) v h, get_elem?-set_ne elem (suc j) k v))

  get_elem?-append :
      (xs ys : List A) (i : ℕ) → i < length xs → get_elem? (xs ++ ys) i ≡ get_elem? xs i
  get_elem?-append [] ys i h = absurd (omega arith)
  get_elem?-append (x ∷ xs) ys zero h = refl
  get_elem?-append (x ∷ xs) ys (suc i) h = get_elem?-append xs ys i (omega arith)

  pub length-shift_up : (n i : ℕ) (elem : List A) → length (shift_up n i elem) ≡ length elem
  unfolding shift_up
  length-shift_up zero i elem = refl
  length-shift_up (suc n) i elem = length-shift_up n i _ ∙ length-copy_up elem (i + n)

  -- The loop moves the elements from `i` on up by one slot.
  pub get_elem?-shift_up :
      (n i k : ℕ) (elem : List A)
      → i + n < length elem
      → get_elem? (shift_up n i elem) k ≡ (
          if ltb i k
          then if leb k (i + n) then get_elem? elem (k - 1) else get_elem? elem k
          else get_elem? elem k)
  unfolding shift_up
  get_elem?-shift_up zero i k elem h = ground arith
  get_elem?-shift_up (suc n) i k elem h = ground (
    arith,
    get_elem?-shift_up n i k (copy_up elem (i + n)),
    length-copy_up elem (i + n),
    get_elem?-copy_up elem (i + n) k,
    get_elem?-copy_up elem (i + n) (k - 1),
    ap (get_elem? elem) {x = k - 1} {y = i + n},
  )

  -- Making room keeps the elements in use, and leaves a slot for one more.
  module _ (m : Memory A) (arr : Dyay A) (v : IsValid arr) where
    length-grown :
        arr.max ≤ arr.count
        → length (arr.elem ++ m.slots (arr.count * 3 / 2 + 16 - arr.max)) ≡ arr.count * 3 / 2 + 16
    length-grown full = omega (
      arith,
      length-append arr.elem (m.slots (arr.count * 3 / 2 + 16 - arr.max)),
      m.length-slots (arr.count * 3 / 2 + 16 - arr.max),
    )

    pub with_room-IsValid : IsValid (with_room m arr)
    unfolding resize
    with_room-IsValid = ground (arith, length-grown)

    pub with_room-room :
        ((with_room m arr).count < (with_room m arr).max) × ((with_room m arr).count ≡ arr.count)
    unfolding resize
    with_room-room = ground arith

    pub with_room-keeps :
        (k : ℕ) → k < arr.count → get_elem? (with_room m arr).elem k ≡ get_elem? arr.elem k
    unfolding resize
    with_room-keeps k h =
        ground (arith, get_elem?-append arr.elem (m.slots (arr.count * 3 / 2 + 16 - arr.max)) k)
