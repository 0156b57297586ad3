-- ===== src/SkipList/Append.antt =====
-- append of a skip list in order, with the key and the value that skls_put writes to the new node.
use ymd.Common.{
  ℕ, zero, suc, ◌+◌, ◌-◌, ◌≤◌, ◌<◌, ◌≡◌, ◌≢◌, refl, ap, ◌∙◌, arith, ◌==◌, ==_iff, if◌then◌else◌,
  Bool-cases, ltb, false, inl, inr,
}
use ymd.Chunk.{Variable}
use ymd.SkipList.{
  randlv_loop, randlv, max_level, Sknd, Skls, Order, mknode, set_node, append, link_levels,
}
use ymd.SkipList.Insert.{Linked, link_levels_lem}
use ymd.SkipList.Place.{Inserts}

module _ (node : ℕ → Sknd) (x : ℕ) (y : Sknd) where
  pub set_node_self : set_node node x y x ≡ y
  unfolding set_node
  set_node_self = rw ((==_iff x x).1 refl)

  pub set_node_ne : (z : ℕ) → z ≢ x → set_node node x y z ≡ node z
  unfolding set_node
  set_node_ne z n = let f : (z == x) ≡ false = ground arith in rw f

-- The node before the new one on each level, as append completes `update`.
abbrev pub update_all : Skls → (ℕ → ℕ) → ℕ → ℕ
update_all list update i = if ltb i list.lv then update i else list.head

-- *x = { key, v }
abbrev pub written : Skls → ℕ → Variable → Variable → Skls
written list x key v = record list {
  node = set_node list.node x (record (list.node x) { k = key; v = v });
}

randlv_loop_lem :
    (draws : ℕ → ℕ × ℕ) (r lvl : ℕ)
    → (lvl ≤ randlv_loop draws r lvl) × (randlv_loop draws r lvl ≤ lvl + r)
unfolding randlv_loop
randlv_loop_lem draws zero lvl = omega arith
randlv_loop_lem draws (suc r) lvl = ground (arith, randlv_loop_lem draws r (lvl + 1))

-- A level that is drawn is at least 1, and at most MAX_LEVEL.
pub randlv_lem : (draws : ℕ → ℕ × ℕ) → (0 < randlv draws) × (randlv draws ≤ max_level)
unfolding randlv
randlv_lem draws =
    let (low, high) = randlv_loop_lem draws (max_level - 1) 1 in (omega arith, omega arith)

module _ (order : Order) (list : Skls) (update : ℕ → ℕ) (draws : ℕ → ℕ × ℕ) (key v : Variable)
    (apart : (j : ℕ) → update_all list update j ≢ list.fresh) where
  abbrev pub lvl : ℕ
  lvl = randlv draws

  abbrev start : ℕ → Sknd
  start = set_node list.node list.fresh (mknode lvl)

  abbrev linked : ℕ → Sknd
  linked = link_levels (update_all list update) list.fresh lvl start

  abbrev last : Sknd
  last = record (linked list.fresh) { k = key; v = v }

  links : Linked start (update_all list update) list.fresh lvl linked
  links = link_levels_lem start (update_all list update) list.fresh apart lvl

  new_node : set_node linked list.fresh last list.fresh ≡ last
  new_node = set_node_self linked list.fresh last

  other : (z : ℕ) → z ≢ list.fresh → set_node linked list.fresh last z ≡ linked z
  other = set_node_ne linked list.fresh last

  first : (z : ℕ) → z ≢ list.fresh → start z ≡ list.node z
  first = set_node_ne list.node list.fresh (mknode lvl)

  taller :
      (list.lv ≤ (if ltb list.lv lvl then lvl else list.lv))
      × (lvl ≤ (if ltb list.lv lvl then lvl else list.lv))
  taller = elim (Bool-cases (ltb list.lv lvl)) [
    | inl e ↦ rw e (ground arith)
    | inr e ↦ rw e (ground arith)
  ]

  pub append-Inserts :
      Inserts order list
        (written (append draws list update).0 list.fresh key v)
        (update_all list update)
        list.fresh
        lvl
        key
        v
  unfolding append
  append-Inserts = record {
    new_k = ap (λ (y : Sknd). y.k) new_node;
    new_v = ap (λ (y : Sknd). y.v) new_node;
    same_k = λ z n.
        ap (λ (y : Sknd). y.k) (other z n) ∙ links.same_k z ∙ ap (λ (y : Sknd). y.k) (first z n);
    same_v = λ z n.
        ap (λ (y : Sknd). y.v) (other z n) ∙ links.same_v z ∙ ap (λ (y : Sknd). y.v) (first z n);
    new_fwd = λ j h.
        ap (λ (y : Sknd). y.fwd j) new_node
        ∙ links.new_fwd j h
        ∙ ap (λ (y : Sknd). y.fwd j) (first (update_all list update j) (apart j));
    new_high = λ j h.
        ap (λ (y : Sknd). y.fwd j) new_node
        ∙ links.new_high j h
        ∙ ap (λ (y : Sknd). y.fwd j) (set_node_self list.node list.fresh (mknode lvl));
    led = λ j h.
        ap (λ (y : Sknd). y.fwd j) (other (update_all list update j) (apart j)) ∙ links.led j h;
    kept = λ z j n h.
        ap (λ (y : Sknd). y.fwd j) (other z n)
        ∙ links.kept z j n h
        ∙ ap (λ (y : Sknd). y.fwd j) (first z n);
    same_head = refl;
    highest = taller;
    counted = refl;
    newer = (omega arith, omega arith);
    is_fresh = refl;
    levels = (randlv_lem draws).0;
  }
