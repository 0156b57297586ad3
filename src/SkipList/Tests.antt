-- ===== src/SkipList/Tests.antt =====
-- Runs of the skip list with the order and the equality of variables. A list of stores has the level
-- that is drawn for a new node with each.
use ymd.Common.{ℕ, ◌≡◌, refl, ltb, if◌then◌else◌, false, Option, some, ◌>>=◌, List, [], ◌∷◌}
use ymd.Common.Int.{pos, negsuc}
use ymd.Kstr.{same_bytes, kstr_equals}
use ymd.SkipList.Refine.{Store, put_all}
use ymd.SkipList.Keys.{order_of, skls_get-put_all}
use ymd.Chunk.{Variable, nil, int, ext, kstr, bool, same_int}
use ymd.HashMap.{zeroed}
use ymd.Value.{Heap, keys_of, equals_with}
use ymd.Value.Order.{compare, safe_compare}
use ymd.SkipList.{
  Order, rand_range, randlv_loop, randlv, set_node, set_fwd, skls_new, link_levels, append,
  skls_count, advance, descend, skfind, skindex, skls_put, skls_get,
}

abbrev no_heap : Heap
no_heap = record {
  dyay_at = λ _. record { count = 0; max = 0; elem = [] };
  hmap_at = λ _. record { shift = 0; item = λ _. zeroed; free = 0 };
  skls_at = λ _. [];
  mand_at = λ _. record { final = 0; land = [] };
  skls_equals = λ _ _. false;
  skls_compare = λ _ _. pos 0;
}

abbrev text : ℕ → List ℕ
text _ = 97 ∷ []

abbrev order : Order
order = order_of text 0 no_heap

-- What rand and time return for a level.
abbrev level : ℕ → ℕ → ℕ × ℕ
level n lvl = (0, if ltb lvl n then 0 else 50)

abbrev lookup : List Store → Variable → Option Variable
lookup puts key = put_all order (skls_new 100) puts >>= λ list. skls_get order list key

abbrev puts : List Store
puts =
    (level 1, int (pos 5), int (pos 50))
    ∷ (level 3, int (negsuc 1), int (pos 20))
    ∷ (level 2, int (pos 9), int (pos 90))
    ∷ (level 1, int (pos 5), int (pos 51))
    ∷ (level 2, int (pos 7), nil)
    ∷ (level 4, kstr (record { address = 8; hash = 0; land = 97 ∷ [] }), int (pos 1))
    ∷ (level 1, bool (pos 1), int (pos 2))
    ∷ []

five : lookup puts (int (pos 5)) ≡ some (int (pos 51))
unfolding randlv randlv_loop rand_range skls_put skls_get skindex skfind descend advance append
    link_levels set_fwd set_node skls_new compare safe_compare keys_of equals_with same_int
five = refl

nine : lookup puts (int (pos 9)) ≡ some (int (pos 90))
unfolding randlv randlv_loop rand_range skls_put skls_get skindex skfind descend advance append
    link_levels set_fwd set_node skls_new compare safe_compare keys_of equals_with same_int
nine = refl

absent : lookup puts (int (pos 6)) ≡ some nil
unfolding randlv randlv_loop rand_range skls_put skls_get skindex skfind descend advance append
    link_levels set_fwd set_node skls_new compare safe_compare keys_of equals_with same_int
absent = refl

-- The second of two naked pointers hides the first.
abbrev pointers : List Store
pointers = (level 1, ext 8, int (pos 1)) ∷ (level 1, ext 16, int (pos 2)) ∷ []

hidden : lookup pointers (ext 8) ≡ some nil
unfolding randlv randlv_loop rand_range skls_put skls_get skindex skfind descend advance append
    link_levels set_fwd set_node skls_new compare safe_compare keys_of equals_with same_int
hidden = refl

six_nodes :
    (put_all order (skls_new 100) puts >>= λ list. skls_count 10 list.node list.head 0) ≡ some 6
unfolding randlv randlv_loop rand_range skls_put skindex descend advance append link_levels set_fwd
    set_node skls_new compare safe_compare keys_of equals_with same_int skls_count
six_nodes = refl

-- Draws of 0 raise the level as far as it goes.
highest : randlv (λ _. (0, 0)) ≡ 16
unfolding randlv randlv_loop rand_range
highest = refl

skls_get-put_all_example : lookup puts (int (pos 5)) ≡ some (int (pos 51))
unfolding keys_of same_bytes equals_with kstr_equals same_int
skls_get-put_all_example =
    skls_get-put_all text 0 no_heap 100 puts (int (pos 5))
      (refl, (refl, (refl, (refl, (refl, (refl, (refl, tt))))))) refl
