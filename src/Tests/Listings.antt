-- ===== src/Tests/Listings.antt =====
-- The way back in a listing, a file of symbols, and the ranges of a run.
use chippy.Prelude.{true, false, ℕ, ◌<◌, ◌≡◌, refl, List, [], ◌∷◌, some, ◌==◌, if◌then◌else◌, arith}
use chippy.Cpu.State.{nmos}
use chippy.Cpu.Table
use chippy.Cpu.Disasm.{walk_back}
use chippy.Cpu.Disasm.Walk.{IsWalk, walk_back-IsWalk}
use chippy.Dap.Dirty.{flush, mark, ranges_from, span_end}
use chippy.Dap.Dirty.Covers.{Event, wrote, reported, covered, tracked, unreported, flush-covered}
use chippy.Memory.{contains}
use chippy.Symbols.{Text}
use chippy.Symbols.Table.{line_entry, no_symbols, or_empty, lookup_addr, lookup_name, load_lines}
use chippy.Symbols.First.{entries, address_of, name_at, load_lines-first}

-- INC $0605,X at 0x0600, NOPs elsewhere
abbrev listed : ℕ → ℕ
listed a = if a == 0x0600 then 0xFE else if a == 0x0601 then 5 else if a == 0x0602 then 6 else 0xEA

listed-byte : (a : ℕ) → listed a < 256
listed-byte a = ground arith

walk_back-IsWalk_example :
    IsWalk (Table.table nmos) listed 0x0605 3 (walk_back (Table.table nmos) listed 0x0605 3)
walk_back-IsWalk_example = walk_back-IsWalk nmos listed 0x0605 3 listed-byte (omega arith)

-- sym name="_a",val=$10
abbrev a_line : Text
a_line =
    115 ∷ 121 ∷ 109 ∷ 32 ∷ 110 ∷ 97 ∷ 109 ∷ 101 ∷ 61 ∷ 34 ∷ 95 ∷ 97 ∷ 34 ∷ 44 ∷ 118 ∷ 97 ∷ 108 ∷ 61
    ∷ 36 ∷ 49 ∷ 48 ∷ []

load_lines-first_example :
    (lookup_name (load_lines (a_line ∷ a_line ∷ []) no_symbols) (97 ∷ [])
      ≡ address_of (97 ∷ []) (entries (a_line ∷ a_line ∷ [])))
    × (lookup_addr (load_lines (a_line ∷ a_line ∷ []) no_symbols) 16
        ≡ or_empty (name_at 16 (entries (a_line ∷ a_line ∷ []))))
load_lines-first_example = load_lines-first (a_line ∷ a_line ∷ []) (97 ∷ []) 16

-- The line defines the symbol.
a_line_defines : address_of (97 ∷ []) (entries (a_line ∷ [])) ≡ some 16
unfolding address_of entries line_entry
a_line_defines = refl

-- Writes to 7 and 5, a report, and writes to 9, 6 and 5.
abbrev run_events : List Event
run_events = wrote 5 ∷ wrote 6 ∷ wrote 9 ∷ reported (λ a. 0) ∷ wrote 5 ∷ wrote 7 ∷ []

written_low : (a : ℕ) → contains (unreported run_events) a ≡ true → a < 0xFFFF
unfolding contains unreported
written_low a e = ground (arith, e)

flush-covered_example :
    covered (flush (λ a. 0) (tracked run_events)).0 7 ≡ contains (5 ∷ 6 ∷ 9 ∷ []) 7
unfolding unreported
flush-covered_example = flush-covered (λ a. 0) run_events written_low 7

-- A write to 0xFFFF is reported as a range that ends at 0, and is covered by none.
top_lost : covered (flush (λ a. 0) (tracked (wrote 0xFFFF ∷ []))).0 0xFFFF ≡ false
unfolding covered flush tracked mark ranges_from span_end
top_lost = refl
