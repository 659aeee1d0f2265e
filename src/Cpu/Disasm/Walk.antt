-- ===== src/Cpu/Disasm/Walk.antt =====
-- What WalkBack finds: the longest way of instructions that hits the address.
use chippy.Prelude.{
  ℕ, zero, suc, if-elim, leb, each_below, each_below_at, ◌+◌, ◌-◌, ◌≤◌, ◌<◌, ◌≡◌, ◌⊎◌, inl, inr,
  refl, sym, subst, ◌∙◌, Bool, true, Option, none, some, List, [], length, drop, length-drop, ltb,
  ◌==◌, ◌||◌, if◌then◌else◌, Bool-cases, arith,
}
use chippy.Cpu.State.{Variant, nmos, cmos65c02, nes}
use chippy.Cpu.Instr.{Instr}
use chippy.Cpu.Table.{opcodes, opcodes_cmos, table as opcode_table}
use chippy.Cpu.Disasm.{better, chosen, max_look, disasm_with_table, decode_to, best_from, walk_back}
use chippy.Cpu.Disasm.Ways.{Leads, arrived, size, Leads-drop, decode_to-Leads, decode_to-finds}

module _ (table : ℕ → Instr) (read : ℕ → ℕ) (pc : ℕ) where
  -- A way within reach, as long as every one that starts fewer than `limit` bytes back.
  record IsLongest (limit : ℕ) (best : List ℕ) : Type 0 where
    start : ℕ
    near : pc ≤ start + max_look
    way : Leads table read pc start best
    longest :
        (b : ℕ) (l : List ℕ)
        → 1 ≤ b
        → b < limit
        → b ≤ pc
        → Leads table read pc (pc - b) l
        → length l ≤ length best

  chosen-length : (o : Option (List ℕ)) (best : List ℕ) → length best ≤ length (chosen o best)
  unfolding chosen better
  chosen-length none best = omega arith
  chosen-length (some seq) best = ground arith

  chosen-takes : (seq best : List ℕ) → length seq ≤ length (chosen (some seq) best)
  unfolding chosen better
  chosen-takes seq best = ground arith

  chosen-way :
      (back : ℕ) (o : Option (List ℕ)) (best : List ℕ)
      → back ≤ max_look
      → ((seq : List ℕ) → o ≡ some seq → Leads table read pc (pc - back) seq)
      → (a : ℕ) × (pc ≤ a + max_look) × Leads table read pc a best
      → (a : ℕ) × (pc ≤ a + max_look) × Leads table read pc a (chosen o best)
  unfolding chosen
  chosen-way back none best reach found old = old
  chosen-way back (some seq) best reach found old =
      if-elim (λ l. (a : ℕ) × (pc ≤ a + max_look) × Leads table read pc a l) (better seq best) seq
        best (λ e. (pc - back, omega (arith, reach), found seq refl)) (λ e. old)

  module _ (top : pc < 65536) (pos : (a : ℕ) → 1 ≤ size table read pc a) where
    -- The round for a start `back` bytes before `pc`.
    chosen-IsLongest :
        (back : ℕ) (best : List ℕ)
        → back ≤ pc
        → back ≤ max_look
        → IsLongest back best
        → IsLongest (back + 1) (chosen (decode_to table read pc (back + 1) (pc - back)) best)
    chosen-IsLongest back best le reach h =
        let o = decode_to table read pc (back + 1) (pc - back) in
        let (a, near, way) =
          chosen-way back o best reach
            (λ seq e. decode_to-Leads table read pc (back + 1) (pc - back) seq top e)
            (h.start, h.near, h.way) in
        record {
          start = a;
          near = near;
          way = way;
          longest = λ b l one lt inside ahead. elim (Bool-cases (b == back)) [
            | inl last ↦
                let same : b ≡ back = ground (arith, last) in
                let found : o ≡ some l =
                  decode_to-finds table read pc (back + 1) (pc - back) l top pos (omega (arith, le))
                    (subst (λ i. Leads table read pc (pc - i) l) same ahead) in
                subst (λ q. length l ≤ length (chosen q best)) (sym found) (chosen-takes l best)
            | inr earlier ↦ omega (
              arith,
              h.longest b l one (ground (arith, earlier, lt)) inside ahead,
              chosen-length o best,
            )
          ];
        }

    best_from-IsLongest :
        (rounds back : ℕ) (best : List ℕ)
        → rounds + back ≡ max_look + 1
        → IsLongest back best
        → IsLongest (max_look + 1) (best_from table read pc rounds back best)
    unfolding best_from
    best_from-IsLongest zero back best e h =
        let same : back ≡ max_look + 1 = omega (arith, e) in subst (λ n. IsLongest n best) same h
    best_from-IsLongest (suc rounds) back best e h =
        if-elim (IsLongest (max_look + 1)) (ltb pc back) best
          (best_from table read pc rounds (back + 1)
            (chosen (decode_to table read pc (back + 1) (pc - back)) best))
          (λ over. record {
            start = h.start;
            near = h.near;
            way = h.way;
            longest = λ b l one lt inside ahead.
                h.longest b l one (ground (arith, over, inside)) inside ahead;
          })
          (λ more.
            best_from-IsLongest rounds (back + 1)
              (chosen (decode_to table read pc (back + 1) (pc - back)) best) (omega (arith, e))
              (chosen-IsLongest back best (ground (arith, more)) (omega (arith, e)) h))

  -- Instruction starts from `start` to `pc`, at most `n`, and as many as any start within 64 bytes has, or `n`.
  pub record IsWalk (n : ℕ) (result : List ℕ) : Type 0 where
    pub start : ℕ
    pub near : pc ≤ start + max_look
    pub way : Leads table read pc start result
    pub short : length result ≤ n
    pub longest :
        (b : ℕ) (l : List ℕ)
        → 1 ≤ b
        → b ≤ max_look
        → b ≤ pc
        → Leads table read pc (pc - b) l
        → (length l ≤ length result) ⊎ (length result ≡ n)

  module _ (top : pc < 65536) (pos : (a : ℕ) → 1 ≤ size table read pc a) (n : ℕ) where
    trimmed :
        (best : List ℕ)
        → IsLongest (max_look + 1) best
        → IsWalk n (if ltb n (length best) then drop (length best - n) best else best)
    trimmed best h =
        if-elim (IsWalk n) (ltb n (length best)) (drop (length best - n) best) best
          (λ more.
            let (a, le, way) = Leads-drop table read pc (length best - n) h.way in
            let size : length (drop (length best - n) best) ≡ n =
              length-drop (length best - n) best ∙ ground (arith, more) in
            record {
              start = a;
              near = omega (arith, le, h.near);
              way = way;
              short = omega (arith, size);
              longest = λ b l one lt inside ahead. inr size;
            })
          (λ fits. record {
            start = h.start;
            near = h.near;
            way = h.way;
            short = ground (arith, fits);
            longest =
                λ b l one lt inside ahead. inl (h.longest b l one (omega (arith, lt)) inside ahead);
          })

    nothing : n ≡ 0 → IsWalk n []
    nothing none_asked = record {
      start = pc;
      near = omega arith;
      way = arrived;
      short = omega arith;
      longest = λ b l one lt inside ahead. inr (sym none_asked);
    }

    at_zero : pc ≡ 0 → IsWalk n []
    at_zero zero_pc = record {
      start = pc;
      near = omega arith;
      way = arrived;
      short = omega arith;
      longest = λ b l one lt inside ahead. absurd (omega (arith, zero_pc, one, inside));
    }

    walked : IsWalk n (walk_back table read pc n)
    unfolding walk_back
    walked =
        if-elim (IsWalk n) (n == 0 || pc == 0) [] _
          (λ nil. elim (Bool-cases (n == 0)) [
            | inl none_asked ↦ nothing (ground (arith, none_asked))
            | inr some_asked ↦ at_zero (ground (arith, nil, some_asked))
          ])
          (λ e. trimmed (best_from table read pc max_look 1 []) (
            best_from-IsLongest top pos max_look 1 [] (omega arith) (record {
              start = pc;
              near = omega arith;
              way = arrived;
              longest = λ b l one lt inside ahead. absurd (omega (arith, one, lt));
            })))

-- The opcode tables list a byte at least for each opcode.
has_bytes : Variant → ℕ → Bool
has_bytes v code = leb 1 (opcode_table v code).bytes

all_have_bytes : (v : Variant) → each_below 256 (has_bytes v) ≡ true
unfolding each_below has_bytes opcode_table opcodes opcodes_cmos
all_have_bytes nmos = refl
all_have_bytes cmos65c02 = refl
all_have_bytes nes = refl

-- On each variant, for each address below 0x10000 and each number n, WalkBack's answer is the instruction
-- starts on a way of decoding that hits the address and begins at most 64 bytes before it; they are at most
-- n, and no such way has more, unless they are n.
pub walk_back-IsWalk :
    (v : Variant) (read : ℕ → ℕ) (pc n : ℕ)
    → ((a : ℕ) → read a < 256)
    → pc < 65536
    → IsWalk (opcode_table v) read pc n (walk_back (opcode_table v) read pc n)
unfolding disasm_with_table has_bytes
walk_back-IsWalk v read pc n bytes top =
    walked (opcode_table v) read pc top
      (λ a.
        let listed = each_below_at 256 (has_bytes v) (read a) (all_have_bytes v) (bytes a) in
        ground (arith, listed))
      n
