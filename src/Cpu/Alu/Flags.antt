-- ===== src/Cpu/Alu/Flags.antt =====
-- The flags that an arithmetic instruction leaves, in each order in which the source sets them.
use chippy.Prelude.{
  ℕ, ◌<◌, ◌≡◌, refl, Bool, true, false, not, ◌&&◌, nonzero, bit_and, ltb, subst, ◌==◌, ==_iff,
  each_below, each_below_at, sym, arith,
}
use chippy.Cpu.State.{Regs}
use chippy.Cpu.Flags.{with_flag, has_flag, flag_c, flag_z, flag_v, flag_n}

-- C, V, Z and N of `r'` are the four values, the other four bits are those of `r`.
pub record HasNvzc (r r' : Regs) (c v z n : Bool) : Type 0 where
  pub carry : has_flag flag_c r' ≡ c
  pub overflow : has_flag flag_v r' ≡ v
  pub zero : has_flag flag_z r' ≡ z
  pub negative : has_flag flag_n r' ≡ n
  pub others : bit_and r'.p 0x3C ≡ bit_and r.p 0x3C
  pub in_range : r'.p < 256

abbrev pub same : Bool → Bool → Bool
same true b = b
same false b = not b

pub same-eq : (a b : Bool) → same a b ≡ true → b ≡ a
same-eq true b h = h
same-eq false true h = cc
same-eq false false h = refl

-- The check of one status byte against the one before.
flags_ok : ℕ → ℕ → Bool → Bool → Bool → Bool → Bool
flags_ok p p' c v z n =
    same c (nonzero (bit_and p' 1))
    && same v (nonzero (bit_and p' 64))
    && same z (nonzero (bit_and p' 2))
    && same n (nonzero (bit_and p' 128))
    && bit_and p' 0x3C == bit_and p 0x3C
    && ltb p' 256

flags_ok-HasNvzc :
    (r r' : Regs) (c v z n : Bool) → flags_ok r.p r'.p c v z n ≡ true → HasNvzc r r' c v z n
unfolding flags_ok has_flag
flags_ok-HasNvzc r r' c v z n h = record {
  carry = ground arith;
  overflow = ground arith;
  zero = ground arith;
  negative = ground arith;
  others = ground arith;
  in_range = ground arith;
}

-- All 16 settings of the four flags.
all_settings : (Bool → Bool → Bool → Bool → Bool) → Bool
all_settings t =
    let two = λ (f : Bool → Bool). f true && f false in
    two λ c. two λ v. two λ z. two λ n. t c v z n

all_settings_sound :
    (t : Bool → Bool → Bool → Bool → Bool) (c v z n : Bool)
    → all_settings t ≡ true
    → t c v z n ≡ true
unfolding all_settings
all_settings_sound t c v z n h = ground arith

-- A status byte computed from the one before and from the four flags.
abbrev Order : Type 0
Order = (p : ℕ) (c v z n : Bool) → ℕ

order_ok : Order → ℕ → Bool
order_ok f p = all_settings λ c v z n. flags_ok p (f p c v z n) c v z n

order_ok-HasNvzc :
    (f : Order) (r r' : Regs) (c v z n : Bool)
    → each_below 256 (order_ok f) ≡ true
    → r.p < 256
    → r'.p ≡ f r.p c v z n
    → HasNvzc r r' c v z n
unfolding order_ok
order_ok-HasNvzc f r r' c v z n table lt e = flags_ok-HasNvzc r r' c v z n (
    subst (λ p'. flags_ok r.p p' c v z n ≡ true) (sym e)
      (all_settings_sound _ c v z n (each_below_at 256 (order_ok f) r.p table lt)))

unfoldable pub cvzn : Order
unfolding with_flag
cvzn p c v z n = with_flag 128 n (with_flag 2 z (with_flag 64 v (with_flag 1 c p)))

unfoldable pub nvzc : Order
unfolding with_flag
nvzc p c v z n = with_flag 1 c (with_flag 2 z (with_flag 64 v (with_flag 128 n p)))

unfoldable pub cvnz : Order
unfolding with_flag
cvnz p c v z n = with_flag 2 z (with_flag 128 n (with_flag 64 v (with_flag 1 c p)))

unfoldable pub vczn : Order
unfolding with_flag
vczn p c v z n = with_flag 128 n (with_flag 2 z (with_flag 1 c (with_flag 64 v p)))

cvzn_ok : each_below 256 (order_ok cvzn) ≡ true
unfolding cvzn each_below order_ok all_settings flags_ok
cvzn_ok = refl

nvzc_ok : each_below 256 (order_ok nvzc) ≡ true
unfolding nvzc each_below order_ok all_settings flags_ok
nvzc_ok = refl

cvnz_ok : each_below 256 (order_ok cvnz) ≡ true
unfolding cvnz each_below order_ok all_settings flags_ok
cvnz_ok = refl

vczn_ok : each_below 256 (order_ok vczn) ≡ true
unfolding vczn each_below order_ok all_settings flags_ok
vczn_ok = refl

module _ (r r' : Regs) (c v z n : Bool) (lt : r.p < 256) where
  pub cvzn-HasNvzc : r'.p ≡ cvzn r.p c v z n → HasNvzc r r' c v z n
  cvzn-HasNvzc = order_ok-HasNvzc cvzn r r' c v z n cvzn_ok lt

  pub nvzc-HasNvzc : r'.p ≡ nvzc r.p c v z n → HasNvzc r r' c v z n
  nvzc-HasNvzc = order_ok-HasNvzc nvzc r r' c v z n nvzc_ok lt

  pub cvnz-HasNvzc : r'.p ≡ cvnz r.p c v z n → HasNvzc r r' c v z n
  cvnz-HasNvzc = order_ok-HasNvzc cvnz r r' c v z n cvnz_ok lt

  pub vczn-HasNvzc : r'.p ≡ vczn r.p c v z n → HasNvzc r r' c v z n
  vczn-HasNvzc = order_ok-HasNvzc vczn r r' c v z n vczn_ok lt

-- The comparison leaves V alone.
kept_ok : ℕ → Bool
unfolding cvzn with_flag
kept_ok p = all_settings λ c v z n.
    with_flag 128 n (with_flag 2 z (with_flag 1 c p)) == cvzn p c (nonzero (bit_and p 64)) z n

kept_table : each_below 256 kept_ok ≡ true
unfolding each_below kept_ok all_settings
kept_table = refl

pub czn-cvzn :
    (p : ℕ) (c z n : Bool)
    → p < 256
    → with_flag 128 n (with_flag 2 z (with_flag 1 c p)) ≡ cvzn p c (nonzero (bit_and p 64)) z n
unfolding kept_ok
czn-cvzn p c z n lt =
    (==_iff _ _).0 (all_settings_sound _ c false z n (each_below_at 256 kept_ok p kept_table lt))
