-- ===== src/Chunk/Tests.antt =====
-- Runs on chunks, and the theorems at concrete inputs.
use ymd.Common.{◌*◌, ◌^◌, ◌≡◌, refl, arith, some, none, [], ◌∷◌, get_elem?, take}
use ymd.Common.Int.{pos, negsuc}
use ymd.Asm.{asm_op}
use ymd.Chunk.{Chunk, int, func, blk_emit, blk_ki, blk_find_lz}
use ymd.Chunk.Constants.{HasRoom, blk_ki_lem}

abbrev core : Chunk
core = record {
  inst = [];
  line = [];
  kval = int (pos 7) ∷ func 64 ∷ [];
  kkval = 2;
  lz = [];
  klz = 0;
  kargs = 0;
}

find_no_local : blk_find_lz core (b'x' ∷ []) ≡ negsuc 0
unfolding blk_find_lz
find_no_local = refl

emit_bad_opcode : blk_emit core (7 * 2 ^ 24) 1 ≡ none
unfolding blk_emit asm_op
emit_bad_opcode = refl

core-HasRoom : HasRoom core
core-HasRoom = record { counted = refl; room = omega arith }

blk_ki_lem_example :
    (get_elem? (blk_ki core (negsuc 4)).0.kval (blk_ki core (negsuc 4)).1 ≡ some (int (negsuc 4)))
    × (take 2 (blk_ki core (negsuc 4)).0.kval ≡ int (pos 7) ∷ func 64 ∷ [])
    × (blk_ki (blk_ki core (negsuc 4)).0 (negsuc 4) ≡ blk_ki core (negsuc 4))
blk_ki_lem_example = blk_ki_lem core (negsuc 4) core-HasRoom
