-- ===== src/Compiler/Endless.antt =====
-- compiler.c: `with`, which is a keyword and has no parser.
use ymd.Common.{ℕ, zero, suc, ◌≡◌, ◌∙◌, refl, ap, List}
use ymd.Compiler.Emit.{Parse, ok, out_of_fuel, ◌>>=◌, Parser, ymc_peek}
use ymd.Compiler.Loops.{ymk_emit_end}
use ymd.Compiler.Function.{ymk_chunk_reserved}
use ymd.Compiler.Program.{with_token, parse_stmt, program_loop, ymc_compile}

module _ (decimal : ℕ → List ℕ) where
  parse_stmt-with :
      (fuel : ℕ) (p : Parser) → ymc_peek p ≡ with_token → parse_stmt decimal (suc fuel) p ≡ ok p
  unfolding parse_stmt
  parse_stmt-with fuel p e = rw (e, parse_stmt)

  loop_step :
      (fuel : ℕ) (p : Parser)
      → ymc_peek p ≡ with_token
      → program_loop decimal (suc fuel) p
        ≡ (parse_stmt decimal (suc fuel) p >>= program_loop decimal fuel)
  unfolding program_loop
  loop_step fuel p e = rw (e, program_loop)

  program_loop-with :
      (fuel : ℕ) (p : Parser) → ymc_peek p ≡ with_token → program_loop decimal fuel p ≡ out_of_fuel
  unfolding program_loop
  program_loop-with zero p e = refl
  program_loop-with (suc fuel) p e =
      loop_step fuel p e
      ∙ ap {B = Parse Parser} (λ (r : Parse Parser). r >>= program_loop decimal fuel)
          (parse_stmt-with fuel p e)
      ∙ program_loop-with fuel p e

  -- A program that starts with the keyword `with` is never compiled: ymc_compile comes to no end,
  -- whatever the fuel.
  pub ymc_compile-with :
      (fuel : ℕ) (p : Parser) → ymc_peek p ≡ with_token → ymc_compile decimal fuel p ≡ out_of_fuel
  unfolding ymc_compile ymk_chunk_reserved
  ymc_compile-with fuel p e =
      ap {B = Parse Parser} (λ (r : Parse Parser). r >>= ymk_emit_end)
        (program_loop-with fuel (ymk_chunk_reserved p) e)
