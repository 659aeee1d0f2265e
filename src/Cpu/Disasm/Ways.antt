-- ===== src/Cpu/Disasm/Ways.antt =====
-- Ways of decoding that hit an address, and the loop of WalkBack that finds them.
use chippy.Prelude.{
  ℕ, zero, suc, ◌+◌, ◌≤◌, ◌<◌, ◌≡◌, inl, inr, refl, sym, ap, subst, ◌∙◌, Option, none, some, List,
  [], ◌∷◌, length, drop, ltb, ◌==◌, u16, Bool-cases, arith,
}
use chippy.Cpu.Instr.{Instr}
use chippy.Cpu.Disasm.{consed, disasm_with_table, decode_to}

module _ (table : ℕ → Instr) (read : ℕ → ℕ) (pc : ℕ) where
  abbrev pub size : ℕ → ℕ
  size cur = (disasm_with_table table none read cur).1

  -- Decoding from the first address goes through these instructions and then hits `pc`.
  pub data Leads : ℕ → List ℕ → Type 0 where
    arrived : Leads pc []
    onward : {cur : ℕ} {l : List ℕ} → cur < pc → Leads (cur + size cur) l → Leads cur (cur ∷ l)

  pub Leads-le : {a : ℕ} {l : List ℕ} → Leads a l → a ≤ pc
  Leads-le arrived = omega arith
  Leads-le (onward lt h) = omega (arith, lt)

  consed-some :
      (cur : ℕ) (r : Option (List ℕ)) (l : List ℕ)
      → consed cur r ≡ some l
      → (l' : List ℕ) × (r ≡ some l') × (l ≡ cur ∷ l')
  consed-some cur none l e = cc
  consed-some cur (some l') l e = (l', refl, cc)

  -- Where decoding succeeds, it is such a way.
  pub decode_to-Leads :
      (fuel cur : ℕ) (l : List ℕ)
      → pc < 65536
      → decode_to table read pc fuel cur ≡ some l
      → Leads cur l
  unfolding decode_to
  decode_to-Leads zero cur l top e = cc
  decode_to-Leads (suc fuel) cur l top e = elim (Bool-cases (ltb cur pc)) [
    | inl before ↦ elim (Bool-cases (ltb pc (cur + size cur))) [
      | inl beyond ↦ absurd (ground (arith, e, before, beyond))
      | inr within ↦
          let next : u16 (cur + size cur) ≡ cur + size cur = ground (arith, within, top) in
          let ahead : consed cur (decode_to table read pc fuel (u16 (cur + size cur))) ≡ some l =
            ground (arith, e, before, within) in
          let (l', rest, whole) =
            consed-some cur (decode_to table read pc fuel (u16 (cur + size cur))) l ahead in
          let h : Leads (u16 (cur + size cur)) l' =
            decode_to-Leads fuel (u16 (cur + size cur)) l' top rest in
          subst (Leads cur) (sym whole)
            (onward (ground (arith, before)) (subst (λ a. Leads a l') next h))
    ]
    | inr behind ↦ elim (Bool-cases (cur == pc)) [
      | inl here ↦
          let same : pc ≡ cur = ground (arith, here) in
          let done : [] ≡ l = ground (arith, e, behind, here) in
          subst (Leads cur) done (subst (λ a. Leads a []) same arrived)
      | inr past ↦ absurd (ground (arith, e, behind, past))
    ]
  ]

  -- And every such way is found.
  pub decode_to-finds :
      (fuel cur : ℕ) (l : List ℕ)
      → pc < 65536
      → ((a : ℕ) → 1 ≤ size a)
      → pc < fuel + cur
      → Leads cur l
      → decode_to table read pc fuel cur ≡ some l
  unfolding decode_to
  decode_to-finds zero cur l top pos enough h = absurd (omega (arith, enough, Leads-le h))
  decode_to-finds (suc fuel) cur l top pos enough arrived = ground arith
  decode_to-finds (suc fuel) cur l top pos enough (onward {l = l'} lt h) =
      let le : cur + size cur ≤ pc = Leads-le h in
      let next : u16 (cur + size cur) ≡ cur + size cur = omega (arith, le, top) in
      let rest : decode_to table read pc fuel (u16 (cur + size cur)) ≡ some l' =
        ap (decode_to table read pc fuel) next
        ∙ decode_to-finds fuel (cur + size cur) l' top pos (omega (arith, enough, pos cur)) h in
      let ahead : consed cur (decode_to table read pc fuel (u16 (cur + size cur)))
          ≡ some (cur ∷ l') =
        ap (consed cur) rest in
      ground (arith, lt, le, ahead)

  pub Leads-here : {a : ℕ} {l : List ℕ} → pc ≤ a → Leads a l → length l ≡ 0
  Leads-here le arrived = refl
  Leads-here le (onward lt h) = absurd (omega (arith, lt, le))

  -- The rest of a way is one, from a later address.
  pub Leads-drop : (k : ℕ) {a : ℕ} {l : List ℕ} → Leads a l → (b : ℕ) × (a ≤ b) × Leads b (drop k l)
  Leads-drop zero {a} h = (a, omega arith, h)
  Leads-drop (suc k) arrived = (pc, omega arith, arrived)
  Leads-drop (suc k) (onward {cur} lt h) =
      let (b, le, rest) = Leads-drop k h in (b, omega (arith, le), rest)
