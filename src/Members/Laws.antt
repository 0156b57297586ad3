-- ===== src/Members/Laws.antt =====
-- A store through vm_put, and a load through vm_get after it.
use ymd.Common.{
  ℕ, ◌≡◌, sym, ap, ◌∙◌, ◌==◌, ==_iff, if◌then◌else◌, ◌&&◌, Bool-cases, inl, inr, true, false, some,
}
use ymd.Chunk.{Variable, hmap, mand}
use ymd.HashMap.{Hmap, Keys, is_nil, hmap_get}
use ymd.HashMap.Valid.{IsLawful}
use ymd.HashMap.Refine.{Represents, extend, hmap_put-Represents}
use ymd.Vm.State.{done, or_fault}
use ymd.Members.{
  Objects, Lists, set_hmap, put_hmap, mand_get, mand_put, get_member, put_member, vm_get, vm_put,
}

-- A load or a store through the variable goes to the map at `p`: the variable is that map, or managed
-- data with that map as its metatable.
pub data Reaches {S : Type 0} (o : Objects S) : Variable → ℕ → Type 0 where
  direct : (p : ℕ) → Reaches o (hmap p) p
  through : (a p : ℕ) → o.proto a ≡ some (hmap p) → Reaches o (mand a) p

module _ {S : Type 0} (keys : Keys) (laws : IsLawful keys) (ops : Lists S) where
  put_reached :
      (o : Objects S) {var : Variable} {p : ℕ}
      → Reaches o var p
      → (key v : Variable) → is_nil key ≡ false
      → vm_put keys ops o var key v ≡ put_hmap keys ops o p key v
  unfolding vm_put put_member mand_put
  put_reached o (direct p) key v n = rw n
  put_reached o (through a p e) key v n = rw n (rw (e, put_member))

  get_reached :
      (o : Objects S) {var : Variable} {p : ℕ}
      → Reaches o var p
      → (key : Variable) → is_nil key ≡ false
      → vm_get keys ops o var key ≡ or_fault (hmap_get keys (o.hmap_at p) key)
  unfolding vm_get get_member mand_get
  get_reached o (direct p) key n = rw n
  get_reached o (through a p e) key n = rw n (rw (e, get_member))

  still_reached :
      (o : Objects S) {var : Variable} {p : ℕ} (q : ℕ) (m : Hmap)
      → Reaches o var p
      → Reaches (set_hmap o q m) var p
  still_reached o q m (direct p) = direct p
  still_reached o q m (through a p e) = through a p e

  Represents-get :
      (m : Hmap) (f : Variable → Variable) (key : Variable)
      → Represents keys m f
      → keys.usable key ≡ true
      → or_fault (hmap_get keys m key) ≡ done (f key)
  unfolding hmap_get
  Represents-get m f key r ok = rw (laws.usable_not_nil key ok, r.finds key ok)

  -- Where each map of the heap stands for a function: a store under a usable key, to a map or to
  -- managed data that has a map as its metatable, always succeeds; a load from any map then gives the
  -- value if the map is the same and the key equal, and what it gave before if not.
  pub vm_get-vm_put :
      (o : Objects S) (f : ℕ → Variable → Variable)
      → ((p : ℕ) → Represents keys (o.hmap_at p) (f p))
      → {var : Variable} {p : ℕ} → Reaches o var p
      → (key v : Variable) → keys.usable key ≡ true
      → {var' : Variable} {q : ℕ} → Reaches o var' q
      → (key' : Variable) → keys.usable key' ≡ true
      → (o' : Objects S) × (vm_put keys ops o var key v ≡ done o')
        × (vm_get keys ops o' var' key'
            ≡ done (if (q == p) && keys.equals key key' then v else f q key'))
  unfolding put_hmap
  vm_get-vm_put o f w {var} {p} r key v ok {var'} {q} r' key' ok' =
      let (m, e, found) = hmap_put-Represents keys laws (o.hmap_at p) (f p) key v ok (w p) in
      (
        set_hmap o p m,
        put_reached o r key v (laws.usable_not_nil key ok) ∙ rw e,
        get_reached (set_hmap o p m) (still_reached o p m r') key' (laws.usable_not_nil key' ok')
            ∙ loaded m found,
      )
    where
      loaded :
          (m : Hmap)
          → Represents keys m (extend keys (f p) key v)
          → or_fault (hmap_get keys (if q == p then m else o.hmap_at q) key')
            ≡ done (if (q == p) && keys.equals key key' then v else f q key')
      loaded m found = elim (Bool-cases (q == p)) [
        | inl s ↦ rw s (
            Represents-get m (extend keys (f p) key v) key' found ok'
            ∙ ap (λ (t : ℕ). done (if keys.equals key key' then v else f t key'))
                (sym ((==_iff q p).0 s)))
        | inr s ↦ rw s (Represents-get (o.hmap_at q) (f q) key' (w q) ok')
      ]
