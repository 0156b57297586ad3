-- ===== src/HashMap/Walk.antt =====
-- The items of a chain, and the loops of the hash map that walk along one.
use ymd.Common.{
  ℕ, zero, suc, ◌≤◌, ◌≡◌, ◌≢◌, ◌⊎◌, inl, inr, refl, sym, ap, subst, ◌∙◌, arith, ◌==◌, Bool-cases,
  ==_iff, true, false, none, some, List, [], ◌∷◌, ◌++◌, length, map, In, IsDistinct,
}
use ymd.Chunk.{Variable}
use ymd.HashMap.{Item, Keys, Search, found, missed, matches, search_chain, find_prev}
use mathlib.Core.Option as O
use ymd.HashMap.Chains.{Linked, first-map}

module _ (item : ℕ → Item) where
  -- What an item points to stands behind it.
  In-next :
      (i j t : ℕ) (is : List ℕ)
      → Linked item (i ∷ is)
      → In j (i ∷ is)
      → (item j).next ≡ some t
      → In t is
  In-next i j t [] (e, l) (inl p) h = cc (ap (λ (x : ℕ). (item x).next) p)
  In-next i j t [] (e, l) (inr p) h = elim p [ ]
  In-next i j t (k ∷ is) (e, l) (inl p) h = inl (ground (arith, ap (λ (x : ℕ). (item x).next) p))
  In-next i j t (k ∷ is) (e, l) (inr p) h = inr (In-next k j t is l p h)

  pub In-linked :
      (j t : ℕ) (is : List ℕ) → Linked item is → In j is → (item j).next ≡ some t → In t is
  In-linked j t [] l h e = elim h [ ]
  In-linked j t (i ∷ is) l h e = inr (In-next i j t is l h e)

  -- Two items of a chain do not point to the same one.
  pub next_unique :
      (i j s : ℕ) (is : List ℕ)
      → Linked item is
      → IsDistinct is
      → In i is
      → In j is
      → (item i).next ≡ some s
      → (item j).next ≡ some s
      → i ≡ j
  next_unique i j s [] l d p q hi hj = elim p [ ]
  next_unique i j s (x ∷ is) (e, l) (out, d) (inl p) (inl q) hi hj = p ∙ sym q
  next_unique i j s (x ∷ []) (e, l) (out, d) (inl p) (inr q) hi hj = elim q [ ]
  next_unique i j s (x ∷ y ∷ is) (e, l) (out, d) (inl p) (inr q) hi hj = absurd (
      d.0 (
        subst (λ t. In t is) (ground (arith, ap (λ (x : ℕ). (item x).next) p))
          (In-next y j s is l q hj)))
  next_unique i j s (x ∷ []) (e, l) (out, d) (inr p) (inl q) hi hj = elim p [ ]
  next_unique i j s (x ∷ y ∷ is) (e, l) (out, d) (inr p) (inl q) hi hj = absurd (
      d.0 (
        subst (λ t. In t is) (ground (arith, ap (λ (x : ℕ). (item x).next) q))
          (In-next y i s is l p hi)))
  next_unique i j s (x ∷ is) (e, l) (out, d) (inr p) (inr q) hi hj =
      next_unique i j s is l d p q hi hj

  pub next-ne_self :
      (j : ℕ) (is : List ℕ) → Linked item is → IsDistinct is → In j is → (item j).next ≢ some j
  next-ne_self j [] l d h e = elim h [ ]
  next-ne_self j (i ∷ is) l (out, d) (inl p) e =
      out (subst (λ t. In t is) p (In-next i j j is l (inl p) e))
  next-ne_self j (i ∷ is) (_, l) (_, d) (inr h) e = next-ne_self j is l d h e

  -- The loop of index_if_node finds the item that points to a later one of the chain.
  pub find_prev_lem :
      (fuel s i : ℕ) (is : List ℕ)
      → length (i ∷ is) ≤ fuel
      → Linked item (i ∷ is)
      → In s is
      → (j : ℕ) × (find_prev fuel item s i ≡ some j) × In j (i ∷ is) × ((item j).next ≡ some s)
  unfolding find_prev
  find_prev_lem zero s i is short l h = absurd (omega arith)
  find_prev_lem (suc fuel) s i [] short l h = elim h [ ]
  find_prev_lem (suc fuel) s i (k ∷ is) short (e, l) h = elim (Bool-cases (k == s)) [
    | inl p ↦
        let same : k ≡ s = (==_iff k s).0 p in
        (i, rw (e, find_prev) (rw p), inl refl, e ∙ ap some same)
    | inr p ↦
        let later : In s is = elim h [ inl q ↦ cc (p, (==_iff k s).1 (sym q)) | inr q ↦ q ] in
        let r = find_prev_lem fuel s k is (omega arith) l later in
        (r.0, rw (e, find_prev) (rw p r.1), inr r.2, r.3)
  ]

module _ (item item' : ℕ → Item) where
  pub Linked-same :
      (is : List ℕ)
      → ((j : ℕ) → In j is → (item' j).next ≡ (item j).next)
      → Linked item is
      → Linked item' is
  Linked-same [] same l = tt
  Linked-same (i ∷ is) same (e, l) =
      (same i (inl refl) ∙ e, Linked-same is (λ j h. same j (inr h)) l)

  pub Linked-map :
      (f : ℕ → ℕ) (is : List ℕ)
      → ((j : ℕ) → In j is → (item' (f j)).next ≡ O.map f (item j).next)
      → Linked item is
      → Linked item' (map f is)
  Linked-map f [] same l = tt
  Linked-map f (i ∷ is) same (e, l) = (
    same i (inl refl) ∙ ap (O.map f) e ∙ sym (first-map f is),
    Linked-map f is (λ j h. same j (inr h)) l,
  )

  -- A new last item.
  pub Linked-append_last :
      (fnd i : ℕ) (is : List ℕ)
      → ((j t : ℕ) → (item j).next ≡ some t → (item' j).next ≡ some t)
      → ((j : ℕ) → In j (i ∷ is) → (item j).next ≡ none → (item' j).next ≡ some fnd)
      → (item' fnd).next ≡ none
      → Linked item (i ∷ is)
      → Linked item' ((i ∷ is) ++ fnd ∷ [])
  Linked-append_last fnd i [] keep tail new (e, l) = (tail i (inl refl) e, (new, tt))
  Linked-append_last fnd i (k ∷ is) keep tail new (e, l) =
      (keep i k e, Linked-append_last fnd k is keep (λ j h. tail j (inr h)) new l)

module _ (keys : Keys) (item : ℕ → Item) (h : ℕ) (key : Variable) where
  -- The search ends at an item of the chain that matches.
  pub record IsHit (is : List ℕ) (r : Search) : Type 0 where
    pub at : ℕ
    pub ends : r ≡ found at
    pub inside : In at is
    pub hit : matches keys (item at) h key ≡ true

  -- No item of the chain matches, and the search ends at the last one.
  pub record IsMiss (is : List ℕ) (r : Search) : Type 0 where
    pub at : ℕ
    pub ends : r ≡ missed at
    pub inside : In at is
    pub end : (item at).next ≡ none
    pub last : (j : ℕ) → In j is → (item j).next ≡ none → j ≡ at
    pub none_hit : (j : ℕ) → In j is → matches keys (item j) h key ≡ false

  pub search_chain_lem :
      (fuel i : ℕ) (is : List ℕ)
      → length (i ∷ is) ≤ fuel
      → Linked item (i ∷ is)
      → IsHit (i ∷ is) (search_chain keys fuel item h key i)
        ⊎ IsMiss (i ∷ is) (search_chain keys fuel item h key i)
  unfolding search_chain
  search_chain_lem zero i is short l = absurd (omega arith)
  search_chain_lem (suc fuel) i [] short (e, l) = elim (Bool-cases (matches keys (item i) h key)) [
    | inl p ↦ inl (record { at = i; ends = rw p; inside = inl refl; hit = p })
    | inr p ↦ inr (record {
      at = i;
      ends = rw (e, search_chain) (rw p);
      inside = inl refl;
      end = e;
      last = λ j q _. elim q [ inl r ↦ r | inr r ↦ elim r [ ] ];
      none_hit = λ j q. elim q [
        | inl r ↦ subst (λ t. matches keys (item t) h key ≡ false) (sym r) p
        | inr r ↦ elim r [ ]
      ];
    })
  ]
  search_chain_lem (suc fuel) i (k ∷ is) short (e, l) =
      elim (Bool-cases (matches keys (item i) h key)) [
        | inl p ↦ inl (record { at = i; ends = rw p; inside = inl refl; hit = p })
        | inr p ↦ elim (search_chain_lem fuel k is (omega arith) l) [
          | inl r ↦ inl (record {
            at = r.at;
            ends = rw (e, search_chain) (rw p r.ends);
            inside = inr r.inside;
            hit = r.hit;
          })
          | inr r ↦ inr (record {
            at = r.at;
            ends = rw (e, search_chain) (rw p r.ends);
            inside = inr r.inside;
            end = r.end;
            last = λ j q n. elim q [
              | inl f ↦ cc (e, n, ap (λ (x : ℕ). (item x).next) f)
              | inr f ↦ r.last j f n
            ];
            none_hit = λ j q. elim q [
              | inl f ↦ subst (λ t. matches keys (item t) h key ≡ false) (sym f) p
              | inr f ↦ r.none_hit j f
            ];
          })
        ]
      ]
