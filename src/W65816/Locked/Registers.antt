-- ===== src/W65816/Locked/Registers.antt =====
-- The operations on registers that change what the modes lock.
use chippy.Prelude.{
  ℕ, ◌+◌, ◌≡◌, refl, Bool, true, false, u8, u16, hi_byte, if-elim, if◌then◌else◌, arith,
}
use chippy.W65816.State.{Regs}
use chippy.W65816.Width.{x_wide, set_sp16, sp16}
use chippy.W65816.Access.{pred16}
use chippy.W65816.Kept.{Kept, Kept-trans}
use chippy.W65816.Locked.Rules.{IsLocked, Kept-IsLocked}
use chippy.W65816.Transfer.{
  Index, index_x, index_y, set_index, set_index_lo, put_index16, put_index8, load_index,
  inc_dec_index, transfer_to_index, txs, tcs, tcd,
}
use chippy.W65816.Stack.{sp_up, sp_down, sp_set_raw, sp_reforce_regs}
use chippy.W65816.Counted.Calm.{set_zn-Kept, set_zn16-Kept}

-- A change of registers that are not locked.
pub Kept-free :
    (a b x y sp dbr pbr pc : ℕ) (r : Regs)
    → Kept (record r { a = a; b = b; x = x; y = y; sp = sp; dbr = dbr; pbr = pbr; pc = pc }) r
Kept-free a b x y sp dbr pbr pc r = record {
  d = refl;
  e = refl;
  m_bit = refl;
  x_bit = refl;
  sp_hi = refl;
  xh = refl;
  yh = refl;
}

forced : {t : Bool} (hi : ℕ) (e : Bool) → t ≡ true → e ≡ true → (if e then 1 else hi) ≡ 1
forced hi e t h = ground (arith, h)

set_index_lo-Kept : (i : Index) (v : ℕ) (r : Regs) → Kept (set_index_lo i v r) r
unfolding set_index_lo
set_index_lo-Kept index_x v r = Kept-free r.a r.b v r.y r.sp r.dbr r.pbr r.pc r
set_index_lo-Kept index_y v r = Kept-free r.a r.b r.x v r.sp r.dbr r.pbr r.pc r

module _ {s : Bool} where
  set_index-IsLocked :
      (i : Index) (v : ℕ) (r : Regs) → x_wide r ≡ true → IsLocked s r → IsLocked s (set_index i v r)
  unfolding set_index x_wide
  set_index-IsLocked index_x v r w h = record {
    page = h.page;
    m_set = h.m_set;
    xh_clear = λ n. cc;
    yh_clear = h.yh_clear;
  }
  set_index-IsLocked index_y v r w h = record {
    page = h.page;
    m_set = h.m_set;
    xh_clear = h.xh_clear;
    yh_clear = λ n. cc;
  }

  pub put_index16-IsLocked :
      (i : Index) (v : ℕ) (r : Regs)
      → x_wide r ≡ true
      → IsLocked s r
      → IsLocked s (put_index16 i v r)
  unfolding put_index16
  put_index16-IsLocked i v r w h = Kept-IsLocked (set_zn16-Kept v _) (set_index-IsLocked i v r w h)

  pub put_index8-IsLocked :
      (i : Index) (v : ℕ) (r : Regs) → IsLocked s r → IsLocked s (put_index8 i v r)
  unfolding put_index8
  put_index8-IsLocked i v r h =
      Kept-IsLocked (Kept-trans (set_zn-Kept v _) (set_index_lo-Kept i v r)) h

  -- An index register takes a value at its width.
  put_index-IsLocked :
      (i : Index) (v w : ℕ) (r : Regs)
      → IsLocked s r
      → IsLocked s (if x_wide r then put_index16 i v r else put_index8 i w r)
  put_index-IsLocked i v w r h =
      if-elim (IsLocked s) (x_wide r) (put_index16 i v r) (put_index8 i w r)
        (λ t. put_index16-IsLocked i v r t h) (λ _. put_index8-IsLocked i w r h)

  pub load_index-IsLocked :
      (i : Index) (v : ℕ) (r : Regs) → IsLocked s r → IsLocked s (load_index i v r)
  unfolding load_index
  load_index-IsLocked i v r h = put_index-IsLocked i _ _ r h

  pub inc_dec_index-IsLocked :
      (i : Index) (v : ℕ) (r : Regs) → IsLocked s r → IsLocked s (inc_dec_index i v r)
  unfolding inc_dec_index
  inc_dec_index-IsLocked i v r h = put_index-IsLocked i _ _ r h

  pub transfer_to_index-IsLocked :
      (i : Index) (lo hi : ℕ) (r : Regs) → IsLocked s r → IsLocked s (transfer_to_index i lo hi r)
  unfolding transfer_to_index
  transfer_to_index-IsLocked i lo hi r h = put_index-IsLocked i _ _ r h

  -- A stack pointer in page 1 while E is set.
  sp-IsLocked :
      {t : Bool} (sp sp_hi : ℕ) (r : Regs)
      → (t ≡ true → r.e ≡ true → sp_hi ≡ 1)
      → IsLocked s r
      → IsLocked t (record r { sp = sp; sp_hi = sp_hi })
  unfolding x_wide
  sp-IsLocked sp sp_hi r page h = record {
    page = page;
    m_set = h.m_set;
    xh_clear = h.xh_clear;
    yh_clear = h.yh_clear;
  }

  pub txs-IsLocked : (r : Regs) → IsLocked s r → IsLocked s (txs r)
  unfolding txs
  txs-IsLocked r h = sp-IsLocked _ _ r (forced r.xh r.e) h

  pub tcs-IsLocked : (r : Regs) → IsLocked s r → IsLocked s (tcs r)
  unfolding tcs
  tcs-IsLocked r h = sp-IsLocked _ _ r (forced r.b r.e) h

  set_sp16-IsLocked : (v : ℕ) (r : Regs) → IsLocked s r → IsLocked s (set_sp16 v r)
  unfolding set_sp16
  set_sp16-IsLocked v r h = sp-IsLocked _ _ r (forced (hi_byte v) r.e) h

  pub sp_up-IsLocked : (r : Regs) → IsLocked s r → IsLocked s (sp_up r)
  unfolding sp_up
  sp_up-IsLocked r h =
      if-elim (IsLocked s) r.e (record r { sp = u8 (r.sp + 1) }) (set_sp16 (u16 (sp16 r + 1)) r)
        (λ _. sp-IsLocked (u8 (r.sp + 1)) r.sp_hi r h.page h) (λ _. set_sp16-IsLocked _ r h)

  pub sp_down-IsLocked : (r : Regs) → IsLocked s r → IsLocked s (sp_down r)
  unfolding sp_down
  sp_down-IsLocked r h =
      if-elim (IsLocked s) r.e (record r { sp = u8 (r.sp + 0xFF) }) (set_sp16 (pred16 (sp16 r)) r)
        (λ _. sp-IsLocked (u8 (r.sp + 0xFF)) r.sp_hi r h.page h) (λ _. set_sp16-IsLocked _ r h)

pub sp_set_raw-IsLocked : (v : ℕ) (r : Regs) → IsLocked false r → IsLocked false (sp_set_raw v r)
unfolding sp_set_raw
sp_set_raw-IsLocked v r h = sp-IsLocked _ _ r (λ t. cc) h

pub sp_reforce_regs-IsLocked :
    {t : Bool} (r : Regs) → IsLocked false r → IsLocked t (sp_reforce_regs r)
unfolding sp_reforce_regs
sp_reforce_regs-IsLocked r h = sp-IsLocked r.sp _ r (forced r.sp_hi r.e) h

-- D is not locked.
pub d-IsLocked : {s : Bool} (v : ℕ) (r : Regs) → IsLocked s r → IsLocked s (record r { d = v })
unfolding x_wide
d-IsLocked v r h = record {
  page = h.page;
  m_set = h.m_set;
  xh_clear = h.xh_clear;
  yh_clear = h.yh_clear;
}

pub tcd-IsLocked : {s : Bool} (r : Regs) → IsLocked s r → IsLocked s (tcd r)
unfolding tcd
tcd-IsLocked r h = Kept-IsLocked (set_zn16-Kept _ _) (d-IsLocked _ r h)
