-- ===== src/Members/Tests.antt =====
-- Members of maps and arrays, at concrete objects.
use ymd.Common.{ℕ, ◌≡◌, refl, arith, ◌==◌, if◌then◌else◌, ◌&&◌, false, none, some, [], ◌∷◌}
use ymd.Common.Int.{pos}
use ymd.Chunk.{nil, int, dyay, hmap, mand}
use ymd.Dyay.{dyay_get}
use ymd.HashMap.{Keys}
use ymd.HashMap.Resize.{empty}
use ymd.HashMap.Refine.{empty-Represents}
use ymd.Value.{Heap, keys_of}
use ymd.Value.Lawful.{keys_of-IsLawful}
use ymd.Vm.State.{done, panic, fault}
use ymd.Members.{Objects, Lists, vm_at, put_dyay, get_member, put_member, vm_get, vm_put}
use ymd.Members.Laws.{direct, through, vm_get-vm_put}

abbrev no_heap : Heap
no_heap = record {
  dyay_at = λ _. record { count = 0; max = 0; elem = [] };
  hmap_at = λ _. empty 5;
  skls_at = λ _. [];
  mand_at = λ _. record { final = 0; land = [] };
  skls_equals = λ _ _. false;
  skls_compare = λ _ _. pos 0;
}

abbrev keys : Keys
keys = keys_of 1 (λ _. []) no_heap

abbrev no_lists : Lists ℕ
no_lists = record { skls_get = λ _ _ _. none; skls_put = λ _ _ _ _. none }

-- Empty maps, arrays of one element, and managed data with the map at 7 as their metatable.
abbrev objects : Objects ℕ
objects = record {
  dyay_at = λ _. record { count = 1; max = 1; elem = int (pos 5) ∷ [] };
  hmap_at = λ _. empty 5;
  proto = λ _. some (hmap 7);
  global = 7;
  lists = 0;
}

array_get : vm_get keys no_lists objects (dyay 3) (int (pos 0)) ≡ done (int (pos 5))
unfolding vm_get get_member vm_at dyay_get
array_get = refl

-- A load past the end panics; a store there fails an assertion.
array_get_past : vm_get keys no_lists objects (dyay 3) (int (pos 1)) ≡ panic
unfolding vm_get get_member vm_at
array_get_past = refl

array_put_past : vm_put keys no_lists objects (dyay 3) (int (pos 1)) nil ≡ fault
unfolding vm_put put_member put_dyay dyay_get
array_put_past = refl

-- A store to managed data is found in its metatable.
vm_get-vm_put_example :
    (o' : Objects ℕ) × (vm_put keys no_lists objects (mand 9) (int (pos 2)) (int (pos 20))
      ≡ done o')
    × (vm_get keys no_lists o' (hmap 7) (int (pos 2))
        ≡ done (if (7 == 7) && keys.equals (int (pos 2)) (int (pos 2)) then int (pos 20) else nil))
unfolding keys_of
vm_get-vm_put_example =
    vm_get-vm_put keys (keys_of-IsLawful (λ _. []) 0 no_heap) no_lists objects (λ _ _. nil)
      (λ _. empty-Represents keys (keys_of-IsLawful (λ _. []) 0 no_heap) 5 (omega arith))
      (through 9 7 refl) (int (pos 2)) (int (pos 20)) refl (direct 7) (int (pos 2)) refl
