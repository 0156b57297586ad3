-- ===== src/Kstr/Tests.antt =====
-- Runs of the string functions, and the theorems at concrete inputs.
use ymd.Common.{◌++◌, ◌≡◌, ◌≢◌, refl, ap, arith, false, length, List, [], ◌∷◌, ℕ, some}
use ymd.Common.Int.{negsuc}
use ymd.Kstr.Concat.{vm_strcat, vm_strcat_assoc}
use ymd.Kstr.{
  Kstr, kz_hash, kz_compare, first_difference, kpool_init, kpool_index, kpool_resize, kstr_fetch,
  Kpool,
}
use ymd.Kstr.Order.{Compared, kz_compare-Compared}
use ymd.Kstr.Pool.{
  IsPool, fetched, kpool_init-IsPool, kpool_index_lem, kpool_resize_lem, kstr_fetch-kstr_fetch,
}

abbrev abc : List ℕ
abc = b'a' ∷ b'b' ∷ b'c' ∷ []

abbrev ab : List ℕ
ab = b'a' ∷ b'b' ∷ []

hash_empty : kz_hash [] ≡ 1315423911
unfolding kz_hash
hash_empty = refl

compare_prefix : kz_compare false (b'a' ∷ []) abc ≡ negsuc 0
unfolding kz_compare first_difference
compare_prefix = refl

ab-differs : ab ≢ abc
ab-differs e = absurd (omega (arith, ap length e))

kz_compare-Compared_example : Compared abc ab (kz_compare false abc ab)
kz_compare-Compared_example = kz_compare-Compared abc ab

abbrev pool : Kpool
pool = (kpool_index 64 abc kpool_init).1

pool-IsPool : IsPool pool
pool-IsPool = (kpool_index_lem 64 abc kpool_init ab kpool_init-IsPool ab-differs).1

kpool_resize_lem_example :
    IsPool (kpool_resize pool 9) × ((z : List ℕ) → fetched (kpool_resize pool 9) z ≡ fetched pool z)
kpool_resize_lem_example = kpool_resize_lem pool 9 pool-IsPool

kpool_index_lem_example :
    ((kpool_index 64 abc kpool_init).0.land ≡ abc)
    × IsPool (kpool_index 64 abc kpool_init).1
    × (fetched (kpool_index 64 abc kpool_init).1 abc ≡ some (kpool_index 64 abc kpool_init).0)
    × (fetched (kpool_index 64 abc kpool_init).1 ab ≡ fetched kpool_init ab)
kpool_index_lem_example = kpool_index_lem 64 abc kpool_init ab kpool_init-IsPool ab-differs

kstr_fetch-kstr_fetch_example :
    (kstr_fetch 192 abc (kstr_fetch 128 ab (kstr_fetch 64 abc kpool_init).1).1).0
    ≡ (kstr_fetch 64 abc kpool_init).0
kstr_fetch-kstr_fetch_example =
    kstr_fetch-kstr_fetch 64 128 192 abc ab kpool_init kpool_init-IsPool (omega arith)

abbrev joined : ℕ → List ℕ → Kstr
joined n z = record { address = n; hash = 0; land = z }

-- "ab" and "abc", then "ab", joined to the left and to the right.
abbrev left : Kstr × Kpool
left = vm_strcat 1 (joined 1 ab) (joined 2 abc) pool

abbrev whole : Kstr × Kpool
whole = vm_strcat 2 left.0 (joined 5 ab) left.1

abbrev right : Kstr × Kpool
right = vm_strcat 3 (joined 2 abc) (joined 5 ab) whole.1

vm_strcat_assoc_example :
    (left.0.land ≡ ab ++ abc)
    × (whole.0.land ≡ ab ++ abc ++ ab)
    × ((vm_strcat 4 (joined 1 ab) right.0 right.1).0 ≡ whole.0)
vm_strcat_assoc_example =
    vm_strcat_assoc (joined 1 ab) (joined 2 abc) (joined 5 ab) pool 1 2 3 4 pool-IsPool
      (omega arith)
