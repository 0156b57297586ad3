-- ===== src/Asm/Opcodes.antt =====
-- assembly.h: the operations of the machine and the numbers that encode them, and the flags.
use ymd.Common.{
  ℕ, ◌<◌, ◌%◌, arith, ◌==◌, ◌≡◌, refl, if◌then◌else◌, Option, none, some, List, [], ◌∷◌,
}

pub data Op : Type 0 where
  panic : Op
  selfcall : Op
  store : Op
  ret : Op
  jne : Op
  jmp : Op
  foreach : Op
  setf : Op
  push : Op
  test : Op
  jnt : Op
  jnn : Op
  typeof : Op
  inv : Op
  mul : Op
  div : Op
  add : Op
  sub : Op
  mod_ : Op
  pow : Op
  andb : Op
  orb : Op
  xorb : Op
  invb : Op
  shift : Op
  call : Op
  newmap : Op
  newskl : Op
  newdya : Op
  bind : Op
  getf : Op
  not : Op

unfoldable pub op_code : Op → ℕ
op_code panic = 0
op_code selfcall = 5
op_code store = 10
op_code ret = 15
op_code jne = 20
op_code jmp = 25
op_code foreach = 30
op_code setf = 35
op_code push = 40
op_code test = 45
op_code jnt = 50
op_code jnn = 55
op_code typeof = 60
op_code inv = 65
op_code mul = 70
op_code div = 75
op_code add = 80
op_code sub = 85
op_code mod_ = 90
op_code pow = 95
op_code andb = 100
op_code orb = 105
op_code xorb = 110
op_code invb = 115
op_code shift = 120
op_code call = 125
op_code newmap = 130
op_code newskl = 135
op_code newdya = 140
op_code bind = 145
op_code getf = 155
op_code not = 160

abbrev ops : List Op
ops =
    panic ∷ selfcall ∷ store ∷ ret ∷ jne ∷ jmp ∷ foreach ∷ setf ∷ push ∷ test ∷ jnt ∷ jnn ∷ typeof
    ∷ inv ∷ mul ∷ div ∷ add ∷ sub ∷ mod_ ∷ pow ∷ andb ∷ orb ∷ xorb ∷ invb ∷ shift ∷ call ∷ newmap
    ∷ newskl ∷ newdya ∷ bind ∷ getf ∷ not ∷ []

find_op : ℕ → List Op → Option Op
find_op n [] = none
find_op n (o ∷ os) = let rest = find_op n os in if op_code o == n then some o else rest

-- The case of a switch over an opcode.
unfoldable pub op_of : ℕ → Option Op
unfolding find_op op_code
op_of n = find_op n ops

-- Flags of jumps.
abbrev pub f_forward : ℕ
f_forward = 0

abbrev pub f_backward : ℕ
f_backward = 1

-- Flags of push and store.
abbrev pub f_kval : ℕ
f_kval = 1

abbrev pub f_local : ℕ
f_local = 2

abbrev pub f_bool : ℕ
f_bool = 3

abbrev pub f_nil : ℕ
f_nil = 4

abbrev pub f_off : ℕ
f_off = 5

-- Flags of test.
abbrev pub f_eq : ℕ
f_eq = 0

abbrev pub f_ne : ℕ
f_ne = 1

abbrev pub f_gt : ℕ
f_gt = 2

abbrev pub f_ge : ℕ
f_ge = 3

abbrev pub f_lt : ℕ
f_lt = 4

abbrev pub f_le : ℕ
f_le = 5

abbrev pub f_match : ℕ
f_match = 6

-- Flags of shift.
abbrev pub f_left : ℕ
f_left = 0

abbrev pub f_right_l : ℕ
f_right_l = 1

abbrev pub f_right_a : ℕ
f_right_a = 2

-- Flags of setf and getf.
abbrev pub f_stack : ℕ
f_stack = 0

abbrev pub f_fast : ℕ
f_fast = 1

-- The code of an operation leads back to it, and is a multiple of five, as blk_emit requires.
pub op_of-op_code : (o : Op) → op_of (op_code o) ≡ some o
unfolding op_of op_code
op_of-op_code panic = refl
op_of-op_code selfcall = refl
op_of-op_code store = refl
op_of-op_code _ = refl

-- A code fits a byte, and blk_emit takes it.
pub op_code_lt : (o : Op) → op_code o < 256
unfolding op_code
op_code_lt panic = omega arith
op_code_lt _ = omega arith

pub op_code-mod : (o : Op) → op_code o % 5 ≡ 0
unfolding op_code
op_code-mod panic = refl
op_code-mod _ = refl
