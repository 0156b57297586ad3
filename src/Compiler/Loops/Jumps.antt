-- ===== src/Compiler/Loops/Jumps.antt =====
-- compiler.c: where the jumps of a loop lead.
use ymd.Common.{
  ℕ, ◌+◌, ◌-◌, ◌%◌, ◌^◌, ◌<◌, ◌≤◌, ◌≡◌, ◌⊎◌, inl, inr, ◌∙◌, refl, sym, ap, subst, arith, true,
  false, Option, some, List, [], ◌∷◌, ◌++◌, length, length-append, length-set, get_elem?-set_self,
  get_elem?-set_ne, le→leb, get_elem?, set, All, In,
}
use ymd.Asm.{asm_build}
use ymd.Asm.Opcodes.{Op, op_code}
use ymd.Compiler.Emit.{ok, Parser, Loop, ymk_hack_jmp, ymk_emit_jmp}
use ymd.Compiler.Emission.{emitted, hacked, emit_ofp_lem, hack_jmp_lem, ymk_hack_lem}
use ymd.Compiler.Loops.{hack_breaks, ymk_loop_leave}

-- The jump from `i` on to `target`, and the one from `i` back to it.
abbrev pub forward : ℕ → ℕ → ℕ
forward i target = asm_build (op_code Op.jmp) 0 (target - i)

abbrev pub backward : ℕ → ℕ → ℕ
backward i target = asm_build (op_code Op.jmp) 1 (i - target)

-- One break becomes a jump to the end.
hack_one :
    (p : Parser) (i : ℕ)
    → i < length p.blk.inst
    → length p.blk.inst < 2 ^ 16
    → ymk_hack_jmp p i Op.jmp false
      ≡ ok (hacked p (set p.blk.inst i (forward i (length p.blk.inst))))
hack_one p i h small =
    hack_jmp_lem p i Op.jmp h
    ∙ ymk_hack_lem p i _ h
    ∙ ap (λ (n : ℕ). ok (hacked p (set p.blk.inst i (asm_build (op_code Op.jmp) 0 n))))
        {x = (length p.blk.inst - i) % 2 ^ 16} {y = length p.blk.inst - i} (omega arith)

-- What has become of the instructions when the breaks are filled in.
pub record Filled (jmt : List ℕ) (inst inst' : List ℕ) : Type 0 where
  pub same_length : length inst' ≡ length inst
  pub breaks : (i : ℕ) → In i jmt → get_elem? inst' i ≡ some (forward i (length inst))
  pub others : (i : ℕ) → (In i jmt → ⊥) → get_elem? inst' i ≡ get_elem? inst i

eq-cases : (i j : ℕ) → (i ≡ j) ⊎ ((j < i) ⊎ (i < j))
eq-cases i j = grind arith

In-cases : (i : ℕ) (js : List ℕ) → In i js ⊎ (In i js → ⊥)
In-cases i [] = inr (λ h. h)
In-cases i (j ∷ js) = elim (eq-cases i j) [
  | inl e ↦ inl (inl e)
  | inr apart ↦ elim (In-cases i js) [
    | inl h ↦ inl (inr h)
    | inr n ↦ inr (λ h. elim h [ inl e ↦ absurd (omega (arith, e, apart)) | inr h' ↦ n h' ])
  ]
]

Filled-cons :
    (inst inst' : List ℕ) (i : ℕ) (jmt : List ℕ)
    → i < length inst
    → Filled jmt (set inst i (forward i (length inst))) inst'
    → Filled (i ∷ jmt) inst inst'
Filled-cons inst inst' i jmt h f = record {
  same_length = f.same_length ∙ length-set inst i v;
  breaks = λ j k. elim (In-cases j jmt) [
    | inl found ↦ f.breaks j found ∙ ap (λ (n : ℕ). some (forward j n)) (length-set inst i v)
    | inr absent ↦ f.others j absent ∙ first j k absent
  ];
  others = λ j absent. f.others j (λ k. absent (inr k)) ∙ elim (eq-cases i j) [
    | inl e ↦ absurd (absent (inl (sym e)))
    | inr apart ↦ get_elem?-set_ne inst i j v (λ e. absurd (omega (arith, e, apart)))
  ];
}
  where
    v : ℕ
    v = forward i (length inst)

    first :
        (j : ℕ)
        → In j (i ∷ jmt)
        → (In j jmt → ⊥)
        → get_elem? (set inst i v) j ≡ some (forward j (length inst))
    first j (inl e) absent =
        subst (λ (k : ℕ). get_elem? (set inst i v) k ≡ some (forward k (length inst))) (sym e)
          (get_elem?-set_self inst i v h)
    first j (inr k) absent = absurd (absent k)

pub hack_breaks_lem :
    (limit : ℕ) (jmt : List ℕ) (p : Parser)
    → All (λ i. i ≤ limit) jmt
    → limit < length p.blk.inst
    → length p.blk.inst < 2 ^ 16
    → (q : Parser) × (hack_breaks limit jmt p ≡ ok q) × Filled jmt p.blk.inst q.blk.inst
unfolding hack_breaks
hack_breaks_lem limit [] p h below small =
    (p, refl, record { same_length = refl; breaks = λ i k. absurd k; others = λ i k. refl })
hack_breaks_lem limit (i ∷ jmt) p (hi, hs) below small =
    let inst : List ℕ = set p.blk.inst i (forward i (length p.blk.inst)) in
    let size : length inst ≡ length p.blk.inst = length-set p.blk.inst i _ in
    let (q, e, f) =
      hack_breaks_lem limit jmt (hacked p inst) hs (omega (arith, size, below))
        (omega (arith, size, small)) in
    (
      q,
      rw (le→leb i limit hi, hack_one p i (omega (arith, hi, below)) small, hack_breaks) e,
      Filled-cons p.blk.inst q.blk.inst i jmt (omega (arith, hi, below)) f,
    )

emit_jmp_back :
    (p : Parser) (target : ℕ)
    → target ≤ length p.blk.inst
    → length p.blk.inst < 2 ^ 16
    → ymk_emit_jmp p target true ≡ ok (emitted p (backward (length p.blk.inst) target))
unfolding ymk_emit_jmp
emit_jmp_back p target h small =
    rw (le→leb target (length p.blk.inst) h)
      (emit_ofp_lem p Op.jmp 1 (length p.blk.inst - target) (omega arith) (omega (arith, small)))

-- The parser inside the loop `l`.
abbrev pub inside : Parser → Loop → Parser
inside p l = record p { loop = some l }

leave_lem :
    (p : Parser) (outer : Option Loop) (l : Loop) (q r : Parser)
    → ymk_emit_jmp (inside p l) l.i_retry true ≡ ok q
    → hack_breaks (length p.blk.inst) l.jmt q ≡ ok r
    → l.death ≡ true
    → ymk_loop_leave outer (inside p l) ≡ ok (record r { loop = outer })
unfolding ymk_loop_leave
leave_lem p outer l q r jump filled death = rw (jump, filled, death)

-- The end of a loop with no condition: the jump back, and the breaks behind it.
pub ymk_loop_leave_lem :
    (p : Parser) (outer : Option Loop) (l : Loop)
    → l.death ≡ true
    → l.i_retry ≤ length p.blk.inst
    → All (λ i. i ≤ length p.blk.inst) l.jmt
    → length p.blk.inst + 1 < 2 ^ 16
    → (q : Parser) × (ymk_loop_leave outer (inside p l) ≡ ok q)
      × Filled l.jmt (p.blk.inst ++ backward (length p.blk.inst) l.i_retry ∷ []) q.blk.inst
ymk_loop_leave_lem p outer l death back breaks small =
    let n : ℕ = length p.blk.inst in
    let p' : Parser = emitted (inside p l) (backward n l.i_retry) in
    let size : length p'.blk.inst ≡ n + 1 = length-append p.blk.inst (backward n l.i_retry ∷ []) in
    let (q, filled, f) =
      hack_breaks_lem n l.jmt p' breaks (omega (arith, size)) (omega (arith, size, small)) in
    (
      record q { loop = outer },
      leave_lem p outer l p' q (emit_jmp_back (inside p l) l.i_retry back (omega (arith, small)))
          filled death,
      f,
    )
