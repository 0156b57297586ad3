-- ===== src/Value/Tests.antt =====
-- The hash map with the hash and the equality of variables, at concrete inputs.
use ymd.Common.{◌↔◌, ℕ, ◌≡◌, refl, arith, true, false, Option, some, ◌>>=◌, List, [], ◌∷◌}
use ymd.Common.Int.{pos, negsuc}
use ymd.Kstr.{kz_hash, kz_hash_loop, kstr_equals, same_bytes}
use ymd.Chunk.{Variable, nil, int, bool, ext, kstr, same_int}
use ymd.HashMap.{
  Hmap, Keys, zeroed, log2x_loop, log2x, hmap_new, hmap_get, hmap_put, put_with, hindex,
  hindex_with, index_if_head, index_if_node, alloc_free, alloc_from, find_prev, search_chain,
  position, hfind, resize, rehash, modify, hmap_count, count_below,
}
use ymd.HashMap.Valid.{IsLawful}
use ymd.HashMap.Refine.{put_all, extend_all, hmap_get-put_all}
use ymd.Value.{Heap, keys_of, equals_with, hmap_equals, equal_items, hash_hmap, hash_items}
use ymd.Value.Lawful.{keys_of-IsLawful}
use ymd.Value.Order.{compare, opposite, safe_compare, compare-equals}

abbrev no_heap : Heap
no_heap = record {
  dyay_at = λ _. record { count = 0; max = 0; elem = [] };
  hmap_at = λ _. record { shift = 0; item = λ _. zeroed; free = 0 };
  skls_at = λ _. [];
  mand_at = λ _. record { final = 0; land = [] };
  skls_equals = λ _ _. false;
  skls_compare = λ _ _. pos 0;
}

-- The string "ab" is at the address 8.
abbrev text : ℕ → List ℕ
text _ = 97 ∷ 98 ∷ []

abbrev ab : Variable
ab = kstr (record { address = 8; hash = 0; land = 97 ∷ 98 ∷ [] })

abbrev keys : Keys
keys = keys_of 1 text no_heap

-- Keys that share a position, one that stands where another moved to, and one stored twice.
abbrev puts : List (Variable × Variable)
puts =
    (int (pos 2), int (pos 20))
    ∷ (int (pos 6), int (pos 60))
    ∷ (int (pos 4), int (pos 40))
    ∷ (ab, bool (pos 1))
    ∷ (int (pos 6), int (pos 61))
    ∷ (int (negsuc 0), nil)
    ∷ []

abbrev lookup : ℕ → Variable → Option Variable
lookup count key = hmap_new count >>= λ new. put_all keys new puts >>= λ map. hmap_get keys map key

grown_six : lookup 1 (int (pos 6)) ≡ some (int (pos 61))
unfolding keys_of equals_with hmap_new hmap_put put_with hindex hindex_with index_if_head
    index_if_node alloc_free alloc_from find_prev search_chain position hfind resize rehash modify
    put_all hmap_get log2x_loop log2x kz_hash kz_hash_loop kstr_equals same_bytes same_int
grown_six = refl

grown_none : lookup 3 (int (pos 7)) ≡ some nil
unfolding keys_of equals_with hmap_new hmap_put put_with hindex hindex_with index_if_head
    index_if_node alloc_free alloc_from find_prev search_chain position hfind resize rehash modify
    put_all hmap_get log2x_loop log2x kz_hash kz_hash_loop kstr_equals same_bytes same_int
grown_none = refl

-- Two maps that hmap_equals takes for equal, with two hashes: the hash follows the order of the items.
abbrev two_first : List (Variable × Variable)
two_first = (int (pos 2), int (pos 1)) ∷ (int (pos 6), int (pos 3)) ∷ []

abbrev six_first : List (Variable × Variable)
six_first = (int (pos 6), int (pos 3)) ∷ (int (pos 2), int (pos 1)) ∷ []

abbrev map_of : List (Variable × Variable) → Option Hmap
map_of stores = hmap_new 3 >>= λ new. put_all keys new stores

equal_maps :
    (do a ← map_of two_first; b ← map_of six_first; some (hmap_equals keys false a b)) ≡ some true
unfolding keys_of equals_with hmap_new hmap_put put_with hindex hindex_with index_if_head
    index_if_node alloc_free alloc_from find_prev search_chain position hfind resize rehash modify
    put_all log2x_loop log2x same_int hmap_equals equal_items hmap_count count_below
equal_maps = refl

abbrev hash_of : List (Variable × Variable) → Option ℕ
hash_of stores = map_of stores >>= λ a. some (hash_hmap keys.hash a)

hash_two_first : hash_of two_first ≡ some 6
unfolding keys_of equals_with hmap_new hmap_put put_with hindex hindex_with index_if_head
    index_if_node alloc_free alloc_from find_prev search_chain position hfind resize rehash modify
    put_all log2x_loop log2x same_int hash_hmap hash_items
hash_two_first = refl

hash_six_first : hash_of six_first ≡ some 10
unfolding keys_of equals_with hmap_new hmap_put put_with hindex hindex_with index_if_head
    index_if_node alloc_free alloc_from find_prev search_chain position hfind resize rehash modify
    put_all log2x_loop log2x same_int hash_hmap hash_items
hash_six_first = refl

hmap_get-put_all_example :
    (new map : Hmap) × (hmap_new 1 ≡ some new)
    × (put_all keys new puts ≡ some map)
    × (hmap_get keys map (int (pos 6)) ≡ some (extend_all keys (λ _. nil) puts (int (pos 6))))
unfolding keys_of same_bytes
hmap_get-put_all_example =
    hmap_get-put_all keys (keys_of-IsLawful text 0 no_heap) 1 puts (int (pos 6)) (omega arith)
      (refl, (refl, (refl, (refl, (refl, (refl, tt)))))) refl

keys_of-IsLawful_example : IsLawful (keys_of 1 text no_heap)
keys_of-IsLawful_example = keys_of-IsLawful text 0 no_heap

-- -1 stands before 2.
compare-equals_example :
    (compare 1 text no_heap (int (pos 2)) (int (negsuc 0))
      ≡ opposite (compare 1 text no_heap (int (negsuc 0)) (int (pos 2))))
    × ((compare 1 text no_heap (int (negsuc 0)) (int (pos 2)) ≡ pos 0)
        ↔ (keys.equals (int (negsuc 0)) (int (pos 2)) ≡ true))
compare-equals_example = compare-equals text 0 no_heap (int (negsuc 0)) (int (pos 2)) refl refl refl

-- Two naked pointers compare as 0, and are not equal.
ext_compare : compare 1 text no_heap (ext 8) (ext 16) ≡ pos 0
unfolding compare safe_compare
ext_compare = refl

ext_equals : keys.equals (ext 8) (ext 16) ≡ false
unfolding keys_of equals_with
ext_equals = refl
