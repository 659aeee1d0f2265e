-- ===== src/Cpu/Cycles/Modes.antt =====
-- The ticks of an addressing mode and of its dummy reads.
use chippy.Prelude.{ℕ, Bool, not, ◌||◌, ◌==◌, if◌then◌else◌}
use chippy.Cpu.State.{Bus, Regs}
use chippy.Cpu.Addressing.{
  AddrMode, imp, acc, imm, zp, zpx, zpy, rel, abs, abx, aby, ind, izx, izy, izp, iax, zpr, jsrabs,
  bump_pc, operand_byte, operand_word, read_word, zero_page_indexed, absolute_indexed, indirect,
  resolve,
}
use chippy.Cpu.Instr.{Instr}
use chippy.Cpu.Step.{dummy_read_indexed, operandless_dummy, addr_dummies_at, addr_dummies}
use chippy.Cpu.Cycles.Counts.{Counts, Counts-pure, Counts-either, counts_rules}
use chippy.Cpu.Cycles.Accesses.{access_counts}

unfoldable pub resolve_ticks : AddrMode → ℕ
resolve_ticks imp = 0
resolve_ticks acc = 0
resolve_ticks imm = 0
resolve_ticks zp = 1
resolve_ticks zpx = 2
resolve_ticks zpy = 2
resolve_ticks rel = 1
resolve_ticks abs = 2
resolve_ticks abx = 2
resolve_ticks aby = 2
resolve_ticks ind = 4
resolve_ticks izx = 4
resolve_ticks izy = 3
resolve_ticks izp = 3
resolve_ticks iax = 5
resolve_ticks zpr = 0
resolve_ticks jsrabs = 1

unfoldable pub dummy_ticks : AddrMode → ℕ → Bool → ℕ
dummy_ticks imp cycles fix_up = if cycles == 2 then 1 else 0
dummy_ticks acc cycles fix_up = if cycles == 2 then 1 else 0
dummy_ticks abx cycles fix_up = if fix_up then 1 else 0
dummy_ticks aby cycles fix_up = if fix_up then 1 else 0
dummy_ticks izy cycles fix_up = if fix_up then 1 else 0
dummy_ticks _ cycles fix_up = 0

module _ {W : Type 0} {w : Bool} where
  pub Counts-bump_pc : (n : ℕ) → Counts {W = W} w 0 (bump_pc n)
  unfolding bump_pc
  Counts-bump_pc n = search counts_rules

ruleset mode_rules = (access_counts, Counts-bump_pc)

module _ {W : Type 0} {w : Bool} (bus : Bus W) where
  pub Counts-operand_byte : Counts w 1 (operand_byte bus)
  unfolding operand_byte
  Counts-operand_byte = search mode_rules depth 20

  pub Counts-operand_word : Counts w 2 (operand_word bus)
  unfolding operand_word
  Counts-operand_word = search mode_rules depth 20

  pub Counts-read_word : (lo hi : ℕ) → Counts w 2 (read_word bus lo hi)
  unfolding read_word
  Counts-read_word lo hi = search mode_rules depth 20

  Counts-zero_page_indexed : (f : Regs → ℕ) → Counts w 2 (zero_page_indexed bus f)
  unfolding zero_page_indexed
  Counts-zero_page_indexed f = search (mode_rules, Counts-operand_byte) depth 20

  Counts-absolute_indexed : (f : Regs → ℕ) → Counts w 2 (absolute_indexed bus f)
  unfolding absolute_indexed
  Counts-absolute_indexed f = search (mode_rules, Counts-operand_word) depth 20

  Counts-indirect : (ptr : ℕ) → Counts w 2 (indirect bus ptr)
  unfolding indirect
  Counts-indirect ptr = search (mode_rules, Counts-read_word) depth 20

  pub Counts-resolve : (m : AddrMode) → Counts w (resolve_ticks m) (resolve bus m)
  unfolding resolve resolve_ticks
  Counts-resolve imp = search mode_rules
  Counts-resolve _ =
      search
        (
          mode_rules, Counts-operand_byte, Counts-operand_word, Counts-read_word,
          Counts-zero_page_indexed, Counts-absolute_indexed, Counts-indirect,
        )
        depth 20

  Counts-operandless_dummy :
      (i : Instr) → Counts w (if i.cycles == 2 then 1 else 0) (operandless_dummy bus i)
  unfolding operandless_dummy
  Counts-operandless_dummy i =
      Counts-either (i.cycles == 2) 1 0 _ _ (search access_counts depth 9) (search access_counts)

  Counts-dummy_read_indexed :
      (i : Instr) (addr : ℕ) (crossed : Bool) (f : Regs → ℕ)
      → Counts w
          (if not i.page_add || crossed then 1 else 0)
          (dummy_read_indexed bus i addr crossed f)
  unfolding dummy_read_indexed
  Counts-dummy_read_indexed i addr crossed f =
      Counts-either (not i.page_add || crossed) 1 0 _ _ (search access_counts depth 20)
        (search access_counts)

  Counts-addr_dummies_at :
      (m : AddrMode) (i : Instr) (addr : ℕ) (crossed : Bool)
      → Counts w
          (dummy_ticks m i.cycles (not i.page_add || crossed))
          (addr_dummies_at bus m i addr crossed)
  unfolding addr_dummies_at dummy_ticks
  Counts-addr_dummies_at imp i addr crossed = Counts-operandless_dummy i
  Counts-addr_dummies_at acc i addr crossed = Counts-operandless_dummy i
  Counts-addr_dummies_at abx i addr crossed = Counts-dummy_read_indexed i addr crossed _
  Counts-addr_dummies_at aby i addr crossed = Counts-dummy_read_indexed i addr crossed _
  Counts-addr_dummies_at izy i addr crossed = Counts-dummy_read_indexed i addr crossed _
  Counts-addr_dummies_at _ i addr crossed = Counts-pure tt

  pub Counts-addr_dummies :
      (i : Instr) (addr : ℕ) (crossed : Bool)
      → Counts w
          (dummy_ticks i.mode i.cycles (not i.page_add || crossed))
          (addr_dummies bus i addr crossed)
  unfolding addr_dummies
  Counts-addr_dummies i addr crossed = Counts-addr_dummies_at i.mode i addr crossed
