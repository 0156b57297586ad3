-- ===== src/Members.antt =====
-- state.c and value.c: the members of hash maps, arrays and managed data, and the globals. A pointer
-- that is returned and written through is the value that is written. The skip lists are taken as a
-- record of operations on a state of theirs.
pub mod Laws
mod Tests
use ymd.Common.{ℕ, ◌≡◌, ltb, ◌==◌, if◌then◌else◌, Option, none, some}
use ymd.Common.Int.{ℤ, pos, negsuc}
use ymd.Chunk.{Variable, nil, dyay, hmap, skls, mand}
use ymd.Dyay
use ymd.Dyay.{Dyay, dyay_get}
use ymd.HashMap.{Hmap, Keys, is_nil, hmap_get, hmap_put}
use ymd.Vm.State.{Result, done, panic, fault, ◌>>=◌, or_fault, int_of}

-- skls_get and skls_put, with the address of the list.
pub record Lists (S : Type 0) : Type 0 where
  pub skls_get : S → ℕ → Variable → Option Variable
  pub skls_put : S → ℕ → Variable → Variable → Option S

-- The objects of the heap by their addresses; `proto` is the metatable of managed data, and `global`
-- the address of vm->global.
pub record Objects (S : Type 0) : Type 0 where
  pub dyay_at : ℕ → Dyay Variable
  pub hmap_at : ℕ → Hmap
  pub proto : ℕ → Option Variable
  pub global : ℕ
  pub lists : S

-- vm_at
unfoldable pub vm_at : Dyay Variable → ℤ → Result Variable
vm_at arr (pos i) = if ltb i arr.count then or_fault (dyay_get arr i) else panic
vm_at arr (negsuc i) = panic

module _ {S : Type 0} where
  -- The writes to one object.
  abbrev pub set_hmap : Objects S → ℕ → Hmap → Objects S
  set_hmap o p map = record o { hmap_at = λ q. if q == p then map else o.hmap_at q }

  abbrev pub set_dyay : Objects S → ℕ → Dyay Variable → Objects S
  set_dyay o p arr = record o { dyay_at = λ q. if q == p then arr else o.dyay_at q }

  module _ (keys : Keys) (ops : Lists S) where
    -- *hmap_put(vm, o, key) = v on the map at an address.
    unfoldable pub put_hmap : Objects S → ℕ → Variable → Variable → Result (Objects S)
    put_hmap o p key v = do
      map ← or_fault (hmap_put keys (o.hmap_at p) key v)
      done (set_hmap o p map)

    unfoldable pub put_skls : Objects S → ℕ → Variable → Variable → Result (Objects S)
    put_skls o p key v = do
      lists ← or_fault (ops.skls_put o.lists p key v)
      done (record o { lists = lists })

    -- A store through dyay_get, which only asserts the bounds.
    unfoldable pub put_dyay : Objects S → ℕ → ℤ → Variable → Result (Objects S)
    put_dyay o p (negsuc i) v = fault
    put_dyay o p (pos i) v = do
      _ ← or_fault (dyay_get (o.dyay_at p) i)
      done (set_dyay o p (Dyay.store (o.dyay_at p) i v))

    -- mand_get and mand_put, with the metatable if there is one. What mand_put returns without one is
    -- the shared nil, and a store to it is a fault here.
    unfoldable pub mand_get : Objects S → Option Variable → Variable → Result Variable
    mand_get o none key = done nil
    mand_get o (some (hmap q)) key = or_fault (hmap_get keys (o.hmap_at q) key)
    mand_get o (some (skls q)) key = or_fault (ops.skls_get o.lists q key)
    mand_get o _ key = fault

    unfoldable pub mand_put : Objects S → Option Variable → Variable → Variable → Result (Objects S)
    mand_put o none key v = fault
    mand_put o (some (hmap q)) key v = put_hmap o q key v
    mand_put o (some (skls q)) key v = put_skls o q key v
    mand_put o _ key v = fault

    -- The switch of vm_get.
    unfoldable pub get_member : Objects S → Variable → Variable → Result Variable
    get_member o (skls p) key = or_fault (ops.skls_get o.lists p key)
    get_member o (hmap p) key = or_fault (hmap_get keys (o.hmap_at p) key)
    get_member o (dyay p) key = int_of key >>= λ i. vm_at (o.dyay_at p) i
    get_member o (mand p) key = elim (o.proto p) [ none ↦ panic | some t ↦ mand_get o (some t) key ]
    get_member o _ key = panic

    unfoldable pub vm_get : Objects S → Variable → Variable → Result Variable
    vm_get o var key = if is_nil key then panic else get_member o var key

    -- The switch of vm_put.
    unfoldable pub put_member : Objects S → Variable → Variable → Variable → Result (Objects S)
    put_member o (skls p) key v = put_skls o p key v
    put_member o (hmap p) key v = put_hmap o p key v
    put_member o (dyay p) key v = int_of key >>= λ i. put_dyay o p i v
    put_member o (mand p) key v = elim (o.proto p) [
      | none ↦ panic
      | some t ↦ mand_put o (some t) key v
    ]
    put_member o _ key v = panic

    unfoldable pub vm_put : Objects S → Variable → Variable → Variable → Result (Objects S)
    vm_put o var key v = if is_nil key then panic else put_member o var key v

    -- vm_getg and vm_putg, with the string of the name.
    unfoldable pub vm_getg : Objects S → Variable → Result Variable
    vm_getg o name = or_fault (hmap_get keys (o.hmap_at o.global) name)

    unfoldable pub vm_putg : Objects S → Variable → Variable → Result (Objects S)
    vm_putg o name v = put_hmap o o.global name v
