-- ===== src/Chunk/Growth.antt =====
-- closure.c: what blk_ki leaves as it was, also on an empty table of constants.
use ymd.Common.{
  ℕ, ◌+◌, ◌^◌, ◌≤◌, ◌<◌, ◌≡◌, ◌∙◌, refl, sym, ap, arith, Option-cases, inl, inr, some, List, [],
  ◌∷◌, ◌++◌, length, length-append, get_elem?,
}
use ymd.Common.Int.{ℤ}
use ymd.Kstr.{Kstr}
use ymd.Chunk.{Chunk, Variable, int, blk_ki, find_constant, add_constant, is_int}
use ymd.Chunk.Constants.{
  HasRoom, find_constant-some, is_int-eq, ki_hit, ki_miss, take_all, get_elem?-append_below,
  get_elem?-append_end,
}

-- The names of the locals with their count; the tables of constants and of names with theirs.
abbrev pub names : Chunk → List Kstr × ℕ
names core = (core.lz, core.klz)

abbrev pub tables : Chunk → (List Variable × ℕ) × (List Kstr × ℕ)
tables core = ((core.kval, core.kkval), names core)

-- The constants of a chunk are those of another one, and at most `n` more; the names are the same.
pub record Grows (n : ℕ) (core core' : Chunk) : Type 0 where
  pub counted : length core'.kval ≡ core'.kkval
  pub from : core.kkval ≤ core'.kkval
  pub to : core'.kkval ≤ core.kkval + n
  pub kept : (j : ℕ) → j < core.kkval → get_elem? core'.kval j ≡ get_elem? core.kval j
  pub same_names : names core' ≡ names core

pub Grows-refl : (core : Chunk) → length core.kval ≡ core.kkval → Grows 0 core core
Grows-refl core h = record {
  counted = h;
  from = omega arith;
  to = omega arith;
  kept = λ j l. refl;
  same_names = refl;
}

pub Grows-trans : {m n : ℕ} {a b c : Chunk} → Grows m a b → Grows n b c → Grows (m + n) a c
Grows-trans g k = record {
  counted = k.counted;
  from = omega (arith, g.from, k.from);
  to = omega (arith, g.to, k.to);
  kept = λ j l. k.kept j (omega (arith, g.from)) ∙ g.kept j l;
  same_names = k.same_names ∙ g.same_names;
}

-- The index of an integer, in a table that has room for it.
pub record Holds (core : Chunk) (n : ℤ) (r : Chunk × ℕ) : Type 0 where
  pub grows : Grows 1 core r.0
  pub inst : r.0.inst ≡ core.inst
  pub below : r.1 < 2 ^ 16
  pub there : get_elem? r.0.kval r.1 ≡ some (int n)

add_constant-Holds :
    (core : Chunk) (n : ℤ) → HasRoom core → Holds core n (add_constant core (int n))
add_constant-Holds core n h = record {
  grows = record {
    counted =
        ap (λ (xs : List Variable). length (xs ++ int n ∷ [])) (take_all core h.counted)
        ∙ length-append core.kval (int n ∷ [])
        ∙ omega (arith, h.counted, h.room);
    from = omega (arith, h.room);
    to = omega (arith, h.room);
    kept = λ j l.
        ap (λ (xs : List Variable). get_elem? (xs ++ int n ∷ []) j) (take_all core h.counted)
        ∙ get_elem?-append_below core.kval (int n ∷ []) j (omega (arith, h.counted));
    same_names = refl;
  };
  inst = refl;
  below = omega (arith, h.room);
  there =
      ap (λ (xs : List Variable). get_elem? (xs ++ int n ∷ []) core.kkval) (take_all core h.counted)
      ∙ ap (get_elem? (core.kval ++ int n ∷ [])) (sym h.counted)
      ∙ get_elem?-append_end core.kval (int n);
}

pub blk_ki-Holds : (core : Chunk) (n : ℤ) → HasRoom core → Holds core n (blk_ki core n)
blk_ki-Holds core n h = elim (Option-cases (find_constant (is_int n) core.kkval core.kval)) [
  | inr (i, e) ↦
      let (below, (var, there, t)) = find_constant-some (is_int n) core.kkval i core.kval e in
      rw (ki_hit core n i e) (record {
        grows = record {
          counted = h.counted;
          from = omega arith;
          to = omega arith;
          kept = λ j l. refl;
          same_names = refl;
        };
        inst = refl;
        below = omega (arith, below, h.room);
        there = there ∙ ap some (is_int-eq n var t);
      })
  | inl e ↦ rw (ki_miss core n e) (add_constant-Holds core n h)
]

-- The instructions of a chunk do not matter.
pub Grows-same : {n : ℕ} {core a b : Chunk} → tables b ≡ tables a → Grows n core a → Grows n core b
Grows-same {core = core} e g = record {
  counted =
      ap (λ (t : (List Variable × ℕ) × (List Kstr × ℕ)). length t.0.0) e
      ∙ g.counted
      ∙ sym (ap (λ (t : (List Variable × ℕ) × (List Kstr × ℕ)). t.0.1) e);
  from = omega (arith, ap (λ (t : (List Variable × ℕ) × (List Kstr × ℕ)). t.0.1) e, g.from);
  to = omega (arith, ap (λ (t : (List Variable × ℕ) × (List Kstr × ℕ)). t.0.1) e, g.to);
  kept =
      λ j l. ap (λ (t : (List Variable × ℕ) × (List Kstr × ℕ)). get_elem? t.0.0 j) e ∙ g.kept j l;
  same_names = ap (λ (t : (List Variable × ℕ) × (List Kstr × ℕ)). t.1) e ∙ g.same_names;
}
