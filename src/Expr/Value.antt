-- ===== src/Expr/Value.antt =====
-- expr.go's evaluators: the closures that the parser builds, by operator and by name.
use chippy.Prelude.{
  ℕ, ◌+◌, ◌-◌, ◌*◌, ◌/◌, ◌%◌, ◌^◌, Bool, true, false, ◌&&◌, Option, none, some, List, [], ◌∷◌, u8,
  u16, bit_and, nonzero, leb, ◌==◌, if◌then◌else◌,
}
use chippy.Cpu.State.{M, Bus, Env, Regs, ◌>>=◌, pure, gets}
use chippy.Cpu.Access.Dma.{raw_read}

abbrev pub u32 : ℕ → ℕ
u32 n = n % 2 ^ 32

-- A value from the CPU and its bus; reading the bus may change the devices.
abbrev pub EvalFn : Type 0 → Type 0
EvalFn W = Bus W → M W ℕ

abbrev pub truth : Bool → ℕ
truth true = 1
truth false = 0

module _ {W : Type 0} where
  unfoldable pub number : ℕ → EvalFn W
  number v bus = pure v

  unfoldable pub logical_or : EvalFn W → EvalFn W → EvalFn W
  logical_or l r bus =
      l bus >>= λ lv. if nonzero lv then pure 1 else r bus >>= λ rv. pure (truth (nonzero rv))

  unfoldable pub logical_and : EvalFn W → EvalFn W → EvalFn W
  logical_and l r bus =
      l bus >>= λ lv. if nonzero lv then (r bus >>= λ rv. pure (truth (nonzero rv))) else pure 0

  -- The operators that compute the left operand and then the right one.
  unfoldable pub strict : (ℕ → ℕ → ℕ) → EvalFn W → EvalFn W → EvalFn W
  strict op l r bus = l bus >>= λ lv. r bus >>= λ rv. pure (op lv rv)

  -- `*` and `/` compute the right operand first, and a division by 0 not the left one.
  unfoldable pub multiply : EvalFn W → EvalFn W → EvalFn W
  multiply l r bus = r bus >>= λ rv. l bus >>= λ lv. pure (u32 (lv * rv))

  unfoldable pub divide : EvalFn W → EvalFn W → EvalFn W
  divide l r bus = r bus >>= λ rv. if rv == 0 then pure 0 else l bus >>= λ lv. pure (lv / rv)

  unfoldable pub logical_not : EvalFn W → EvalFn W
  logical_not x bus = x bus >>= λ v. pure (truth (v == 0))

-- `0 - v` in the smallest width that holds `v`.
unfoldable pub negated : ℕ → ℕ
negated v =
    if v == 0
    then 0
    else if leb v 0xFF
    then u8 (256 - v)
    else if leb v 0xFFFF
    then u16 (65536 - v)
    else u32 (2 ^ 32 - v)

unfoldable pub shift_left : ℕ → ℕ → ℕ
shift_left l r = u32 (l * 2 ^ bit_and r 31)

unfoldable pub shift_right : ℕ → ℕ → ℕ
shift_right l r = l / 2 ^ bit_and r 31

unfoldable pub add : ℕ → ℕ → ℕ
add l r = u32 (l + r)

unfoldable pub subtract : ℕ → ℕ → ℕ
subtract l r = u32 (l + 2 ^ 32 - r)

-- Names are byte strings: an identifier has letters, digits and `_` alone.
unfoldable pub bytes_eq : List ℕ → List ℕ → Bool
bytes_eq [] [] = true
bytes_eq (a ∷ s) (b ∷ t) = a == b && bytes_eq s t
bytes_eq s t = false

unfoldable pub to_upper : List ℕ → List ℕ
to_upper [] = []
to_upper (c ∷ s) = (if leb 97 c && leb c 122 then c - 32 else c) ∷ to_upper s

module _ {W : Type 0} where
  unfoldable pub negate : EvalFn W → EvalFn W
  unfolding negated
  negate x bus = x bus >>= λ v. pure (negated v)

  unfoldable pub deref : EvalFn W → EvalFn W
  deref x bus = x bus >>= λ v. raw_read bus (bit_and v 0xFFFF)

  unfoldable pub flag_bit : ℕ → EvalFn W
  flag_bit mask bus = gets λ c. truth (nonzero (bit_and c.regs.p mask))

  unfoldable pub register : (Regs → ℕ) → EvalFn W
  register field bus = gets λ c. field c.regs

  -- The case on `strings.ToUpper(name)`, A to C.
  unfoldable pub builtin : List ℕ → Option (EvalFn W)
  unfolding bytes_eq flag_bit register
  builtin s =
      if bytes_eq s (65 ∷ [])
      then some (register λ r. r.a)
      else if bytes_eq s (88 ∷ [])
      then some (register λ r. r.x)
      else if bytes_eq s (89 ∷ [])
      then some (register λ r. r.y)
      else if bytes_eq s (80 ∷ [])
      then some (register λ r. r.p)
      else if bytes_eq s (83 ∷ 80 ∷ [])
      then some (register λ r. r.sp)
      else if bytes_eq s (83 ∷ [])
      then some (register λ r. r.sp)
      else if bytes_eq s (80 ∷ 67 ∷ [])
      then some (register λ r. r.pc)
      else if bytes_eq s (78 ∷ [])
      then some (flag_bit 0x80)
      else if bytes_eq s (86 ∷ [])
      then some (flag_bit 0x40)
      else if bytes_eq s (66 ∷ [])
      then some (flag_bit 0x10)
      else if bytes_eq s (68 ∷ [])
      then some (flag_bit 0x08)
      else if bytes_eq s (73 ∷ [])
      then some (flag_bit 0x04)
      else if bytes_eq s (90 ∷ [])
      then some (flag_bit 0x02)
      else if bytes_eq s (67 ∷ [])
      then some (flag_bit 0x01)
      else none

  -- `host` and `syms` are the resolvers that the caller passes to Compile.
  unfoldable pub ident_eval :
      (List ℕ → Option (Env W → ℕ)) → (List ℕ → Option ℕ) → List ℕ → Option (EvalFn W)
  unfolding builtin to_upper
  ident_eval host syms name = elim (builtin (to_upper name)) [
    | some f ↦ some f
    | none ↦ elim (host name) [
      | some get ↦ some (λ bus. gets λ c. get c.env)
      | none ↦ elim (syms name) [ some addr ↦ some (number addr) | none ↦ none ]
    ]
  ]
