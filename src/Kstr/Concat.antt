-- ===== src/Kstr/Concat.antt =====
-- state.c: vm_strcat, the concatenation of strings, on the pool.
use ymd.Common.{
  ℕ, ◌<◌, ◌≡◌, ◌≢◌, ◌∙◌, refl, sym, ap, arith, ltb, Bool-cases, inl, inr, List, ◌∷◌, ◌++◌, length,
}
use mathlib.Core.List.{append_assoc}
use ymd.Kstr.{Kstr, Kpool, kstr_fetch, max_kpool_len}
use ymd.Kstr.Pool.{IsPool, kpool_index_lem, kstr_fetch-kstr_fetch}

-- `address` is that of the block that the allocator hands out for a new string.
unfoldable pub vm_strcat : ℕ → Kstr → Kstr → Kpool → Kstr × Kpool
unfolding kstr_fetch
vm_strcat address lhs rhs kt = kstr_fetch address (lhs.land ++ rhs.land) kt

longer : (z : List ℕ) → 0 ∷ z ≢ z
longer z e = absurd (omega (arith, ap length e))

fetch_lem :
    (a : ℕ) (z : List ℕ) (kt : Kpool)
    → IsPool kt
    → ((kstr_fetch a z kt).0.land ≡ z) × IsPool (kstr_fetch a z kt).1
unfolding kstr_fetch
fetch_lem a z kt pool = elim (Bool-cases (ltb (length z) max_kpool_len)) [
  | inl short ↦
      let (land, valid, held, others) = kpool_index_lem a z kt (0 ∷ z) pool (longer z) in
      rw (short, kstr_fetch) (land, valid)
  | inr long ↦ rw (long, kstr_fetch) (refl, pool)
]

-- On a well-formed pool, where three strings have less than 40 characters together, joining the first
-- two, and then the third, gives their characters in this order, and joining the first with what joins
-- the other two then gives the very same object.
pub vm_strcat_assoc :
    (a b c : Kstr) (kt : Kpool) (i j k m : ℕ)
    → IsPool kt
    → length (a.land ++ b.land ++ c.land) < max_kpool_len
    → let ab : Kstr × Kpool = vm_strcat i a b kt in
      let ab_c : Kstr × Kpool = vm_strcat j ab.0 c ab.1 in
      let bc : Kstr × Kpool = vm_strcat k b c ab_c.1 in
      (ab.0.land ≡ a.land ++ b.land)
      × (ab_c.0.land ≡ a.land ++ b.land ++ c.land)
      × ((vm_strcat m a bc.0 bc.1).0 ≡ ab_c.0)
unfolding vm_strcat
vm_strcat_assoc a b c kt i j k m pool short =
    let (land, valid) = fetch_lem i (a.land ++ b.land) kt pool in
    let kt' : Kpool = (kstr_fetch i (a.land ++ b.land) kt).1 in
    let z : List ℕ = (kstr_fetch i (a.land ++ b.land) kt).0.land ++ c.land in
    let whole : z ≡ a.land ++ b.land ++ c.land = ap (λ (x : List ℕ). x ++ c.land) land in
    let (land', valid') = fetch_lem j z kt' valid in
    let (tail, rest) = fetch_lem k (b.land ++ c.land) (kstr_fetch j z kt').1 valid' in
    (
      land,
      land' ∙ whole,
      ap
            (λ (x : List ℕ).
              (kstr_fetch m x (kstr_fetch k (b.land ++ c.land) (kstr_fetch j z kt').1).1).0)
            (ap (λ (x : List ℕ). a.land ++ x) tail
              ∙ sym (append_assoc a.land b.land c.land)
              ∙ sym whole)
          ∙ kstr_fetch-kstr_fetch j k m z (b.land ++ c.land) kt' valid
              (omega (arith, ap length whole, short)),
    )
