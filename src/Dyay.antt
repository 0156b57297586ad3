-- ===== src/Dyay.antt =====
-- dynamic_array.c: the growing array. The memory block is a list of `max` slots, of which the first
-- `count` are in use. An operation that returns a pointer into the block returns its index.
pub mod Contents
pub mod Order
mod Tests
use ymd.Common.{
  ℕ, zero, suc, ◌+◌, ◌-◌, ◌*◌, ◌/◌, ◌≡◌, ltb, leb, ◌==◌, if◌then◌else◌, Bool, true, false, ◌&&◌,
  Option, none, some, List, [], ◌∷◌, ◌++◌, length, get_elem?, set, replicate,
}
use ymd.Common.Int.{ℤ, pos, negsuc}

pub record Dyay {ℓ} (A : Type ℓ) : Type ℓ where
  pub count : ℕ
  pub max : ℕ
  pub elem : List A

-- What realloc hands out beyond the old block: `n` slots of any content.
pub record Memory {ℓ} (A : Type ℓ) : Type ℓ where
  pub slots : ℕ → List A
  pub length-slots : (n : ℕ) → length (slots n) ≡ n

-- MAX_ADD
abbrev pub max_add : ℕ
max_add = 16

module _ {ℓ} {A : Type ℓ} where
  -- The writes through a pointer that an operation returned.
  abbrev pub store : Dyay A → ℕ → A → Dyay A
  store arr i v = record arr { elem = set arr.elem i v }

  -- dyay_get; `none` is the failed assertion.
  unfoldable pub dyay_get : Dyay A → ℕ → Option A
  dyay_get arr i = if ltb i arr.count then get_elem? arr.elem i else none

  -- dyay_final, without the call of mm_free.
  unfoldable pub dyay_final : Dyay A → Dyay A
  dyay_final arr = elim arr.elem [ [] ↦ arr | _ ∷ _ ↦ record { count = 0; max = 0; elem = [] } ]

  -- One round of the loop of dyay_insert: arr->elem[j + 1] = arr->elem[j].
  unfoldable pub copy_up : List A → ℕ → List A
  copy_up elem j = elim (get_elem? elem j) [ some v ↦ set elem (suc j) v | none ↦ elem ]

  -- while (j-- > i), with `n` rounds to go: j is i + n at the test.
  unfoldable pub shift_up : ℕ → ℕ → List A → List A
  shift_up zero i elem = elem
  shift_up (suc n) i elem = shift_up n i (copy_up elem (i + n))

  module _ (nil : A) where
    -- dyay_new: mm_zalloc gives slots of zero bytes, which are nil.
    unfoldable pub dyay_new : ℕ → Dyay A
    dyay_new max = record { count = 0; max = max; elem = replicate max nil }

  module _ (m : Memory A) where
    unfoldable pub resize : Dyay A → Dyay A
    resize arr =
        let max = arr.count * 3 / 2 + max_add in
        record { count = arr.count; max = max; elem = arr.elem ++ m.slots (max - arr.max) }

    abbrev pub with_room : Dyay A → Dyay A
    with_room arr = if leb arr.max arr.count then resize arr else arr

    -- dyay_add: the new slot is cleared, and its index returned.
    unfoldable pub dyay_add : A → Dyay A → Dyay A × ℕ
    dyay_add nil arr =
        let r = with_room arr in
        (record r { count = r.count + 1; elem = set r.elem r.count nil }, r.count)

    -- dyay_insert; `none` is the failed assertion on the index.
    unfoldable pub dyay_insert : Dyay A → ℕ → Option (Dyay A × ℕ)
    dyay_insert arr i =
        let r = with_room arr in
        if ltb i r.count
        then some (record r { count = r.count + 1; elem = shift_up (r.count - i) i r.elem }, i)
        else none

  -- dyay_equals: `same` tells whether the two pointers are equal. The loop goes from the last element
  -- down to the first.
  module _ (same : Bool) (equals : A → A → Bool) where
    unfoldable pub equals_below : ℕ → List A → List A → Bool
    equals_below zero xs ys = true
    equals_below (suc i) xs ys =
        let rest = equals_below i xs ys in
        elim (get_elem? xs i) [
          | some x ↦ elim (get_elem? ys i) [
            | some y ↦ if equals x y then rest else false
            | none ↦ false
          ]
          | none ↦ false
        ]

    unfoldable pub dyay_equals : Dyay A → Dyay A → Bool
    unfolding equals_below
    dyay_equals arr rhs =
        if same
        then true
        else if arr.count == rhs.count
        then equals_below arr.count arr.elem rhs.elem
        else false
