-- ===== src/Dyay/Order.antt =====
-- Adding, inserting and comparing, in terms of what dyay_get reads.
use ymd.Common.{
  ℕ, ◌+◌, ◌-◌, ◌≡◌, ◌≤◌, ◌<◌, arith, ltb, ◌==◌, if◌then◌else◌, Option, none, some, get_elem?, set,
  length-set, get_elem?-set_self, get_elem?-set_ne,
}
use ymd.Dyay.{Dyay, Memory, store, with_room, dyay_get, shift_up, dyay_add, dyay_insert}
use ymd.Dyay.Contents.{
  IsValid, with_room-IsValid, with_room-room, with_room-keeps, length-shift_up, get_elem?-shift_up,
}

module _ {A : Type 0} (m : Memory A) (arr : Dyay A) (v : IsValid arr) where
  pub dyay_add-IsValid : (nil : A) → IsValid (dyay_add m nil arr).0
  unfolding dyay_add
  dyay_add-IsValid nil = omega (
    arith,
    with_room-room m arr v,
    with_room-IsValid m arr v,
    length-set (with_room m arr).elem (with_room m arr).count nil,
  )

  -- After a write through the returned pointer the new element is the last, and the others are as
  -- before; past it there is none.
  pub dyay_get-dyay_add :
      (nil x : A) (k : ℕ)
      → dyay_get (store (dyay_add m nil arr).0 (dyay_add m nil arr).1 x) k
        ≡ (if k == arr.count then some x else dyay_get arr k)
  unfolding dyay_get dyay_add
  dyay_get-dyay_add nil x k =
      added (with_room m arr) (with_room-room m arr v) (with_room-IsValid m arr v)
        (with_room-keeps m arr v k)
    where
      added :
          (r : Dyay A)
          → (r.count < r.max) × (r.count ≡ arr.count)
          → IsValid r
          → (k < arr.count → get_elem? r.elem k ≡ get_elem? arr.elem k)
          → (if ltb k (r.count + 1)
              then get_elem? (set (set r.elem r.count nil) r.count x) k
              else none)
            ≡ (if k == arr.count
                then some x
                else if ltb k arr.count
                then get_elem? arr.elem k
                else none)
      added r (room, same) w keeps = ground (
        arith,
        length-set r.elem r.count nil,
        get_elem?-set_self (set r.elem r.count nil) r.count x,
        get_elem?-set_ne (set r.elem r.count nil) r.count k x,
        get_elem?-set_ne r.elem r.count k nil,
      )

  -- dyay_insert at an index in use makes room there: after a write through the returned pointer the
  -- new element stands at the index, those before it are as before, and the others one further.
  pub dyay_insert_lem :
      (i : ℕ)
      → i < arr.count
      → (out : Dyay A) × (dyay_insert m arr i ≡ some (out, i))
        × IsValid out
        × ((x : A) (k : ℕ)
            → dyay_get (store out i x) k ≡ (
                if k == i
                then some x
                else if ltb k i
                then dyay_get arr k
                else dyay_get arr (k - 1)))
  unfolding dyay_insert dyay_get
  dyay_insert_lem i h =
      inserted (with_room m arr) (with_room-room m arr v) (with_room-IsValid m arr v)
        (with_room-keeps m arr v)
    where
      inserted :
          (r : Dyay A)
          → (r.count < r.max) × (r.count ≡ arr.count)
          → IsValid r
          → ((k : ℕ) → k < arr.count → get_elem? r.elem k ≡ get_elem? arr.elem k)
          → (out : Dyay A) × (if◌then◌else◌ {A = Option (Dyay A × ℕ)}
                (ltb i r.count)
                (some (record r { count = r.count + 1; elem = shift_up (r.count - i) i r.elem }, i))
                none
              ≡ some (out, i))
            × IsValid out
            × ((x : A) (k : ℕ)
                → (if ltb k out.count then get_elem? (set out.elem i x) k else none) ≡ (
                    if k == i
                    then some x
                    else if ltb k i
                    then (if ltb k arr.count then get_elem? arr.elem k else none)
                    else (if ltb (k - 1) arr.count then get_elem? arr.elem (k - 1) else none)))
      inserted r (room, same) w keeps = (
        record r { count = r.count + 1; elem = shift_up (r.count - i) i r.elem },
        ground arith,
        omega (arith, length-shift_up (r.count - i) i r.elem),
        λ x k. ground (
          arith,
          length-shift_up (r.count - i) i r.elem,
          get_elem?-shift_up (r.count - i) i k r.elem,
          get_elem?-set_self (shift_up (r.count - i) i r.elem) i x,
          get_elem?-set_ne (shift_up (r.count - i) i r.elem) i k x,
          keeps k,
          keeps (k - 1),
        ),
      )

  -- An index that is not in use is refused.
  pub dyay_insert_out : (i : ℕ) → arr.count ≤ i → dyay_insert m arr i ≡ none
  unfolding dyay_insert
  dyay_insert_out i h = ground (arith, with_room-room m arr v)
