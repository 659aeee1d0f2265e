-- ===== src/W65816/Locked/Status.antt =====
-- XCE, SEP, REP and PLP keep the locked registers: they change E and the width bits.
use chippy.Prelude.{
  ℕ, ◌≡◌, ◌∙◌, refl, sym, Bool, true, false, digit, digit-lt, digit-bit_and, digit-bit_or, mask-16,
  bit_and, bit_or, bit_xor, and_not8, if-elim, arith, if◌then◌else◌,
}
use chippy.Cpu.Flags.{with_flag, flag_c}
use chippy.W65816.State.{Regs}
use chippy.W65816.Width.{flag_m, flag_x, x_wide, has_flag, set_flag, lock_widths}
use chippy.W65816.Transfer.{xce, sep_mask, rep_mask}
use chippy.W65816.Stack.{apply_width_truncation}
use chippy.W65816.Locked.Rules.{IsLocked}
use chippy.W65816.Counted.Calm.{with_flag-digit, Spares}

narrow_e : (r : Regs) → r.e ≡ true → x_wide r ≡ false
unfolding x_wide
narrow_e r h = ground (arith, h)

narrow_bit : (r : Regs) → digit 4 r.p ≡ 1 → x_wide r ≡ false
unfolding x_wide
narrow_bit r h = ground (arith, h, mask-16 r.p)

bit_of_narrow : (r : Regs) → r.e ≡ false → x_wide r ≡ false → digit 4 r.p ≡ 1
unfolding x_wide
bit_of_narrow r h j = ground (arith, h, j, mask-16 r.p, digit-lt 4 r.p)

-- What is known of the registers before the high bytes are cleared.
record HasModes (s : Bool) (r : Regs) : Type 0 where
  page : s ≡ true → r.e ≡ true → r.sp_hi ≡ 1
  m_set : r.e ≡ true → digit 5 r.p ≡ 1

lock_widths-m : (r : Regs) → digit 5 (lock_widths r).p ≡ 1
unfolding lock_widths set_flag with_flag digit
lock_widths-m r =
    omega
      (arith, digit-bit_or 5 (bit_or r.p flag_m) flag_x, digit-bit_or 5 r.p flag_m, digit-lt 5 r.p)

module _ {s : Bool} where
  lock_widths-HasModes :
      (r : Regs) → (s ≡ true → r.e ≡ true → r.sp_hi ≡ 1) → HasModes s (lock_widths r)
  unfolding lock_widths set_flag
  lock_widths-HasModes r page = record { page = page; m_set = λ e. lock_widths-m r }

  locked-HasModes :
      (r : Regs)
      → (s ≡ true → r.e ≡ true → r.sp_hi ≡ 1)
      → HasModes s (if r.e then lock_widths r else r)
  locked-HasModes r page =
      if-elim (HasModes s) r.e (lock_widths r) r (λ _. lock_widths-HasModes r page)
        (λ f. record { page = λ t e. cc; m_set = λ e. cc })

  truncated-IsLocked :
      (r : Regs) → HasModes s r → IsLocked s (if x_wide r then r else record r { xh = 0; yh = 0 })
  truncated-IsLocked r h =
      if-elim (IsLocked s) (x_wide r) r (record r { xh = 0; yh = 0 })
        (λ w. record { page = h.page; m_set = h.m_set; xh_clear = λ n. cc; yh_clear = λ n. cc })
        (λ w. record { page = h.page; m_set = h.m_set; xh_clear = λ n. refl; yh_clear = λ n. refl })

  pub apply_width_truncation-IsLocked :
      (r : Regs) → (s ≡ true → r.e ≡ true → r.sp_hi ≡ 1) → IsLocked s (apply_width_truncation r)
  unfolding apply_width_truncation
  apply_width_truncation-IsLocked r page = truncated-IsLocked _ (locked-HasModes r page)

  pub sep-IsLocked :
      (mask : ℕ) (r : Regs) → IsLocked s r → IsLocked s (apply_width_truncation (sep_mask mask r))
  unfolding sep_mask
  sep-IsLocked mask r h = apply_width_truncation-IsLocked _ h.page

  pub plp-IsLocked :
      (p : ℕ) (r : Regs) → IsLocked s r → IsLocked s (apply_width_truncation (record r { p = p }))
  plp-IsLocked p r h = apply_width_truncation-IsLocked _ h.page

  -- The widths locked again: the high bytes were clear before.
  relocked-IsLocked :
      (r : Regs)
      → (s ≡ true → r.e ≡ true → r.sp_hi ≡ 1)
      → r.xh ≡ 0
      → r.yh ≡ 0
      → IsLocked s (lock_widths r)
  unfolding lock_widths set_flag
  relocked-IsLocked r page x y = record {
    page = page;
    m_set = λ e. lock_widths-m r;
    xh_clear = λ n. x;
    yh_clear = λ n. y;
  }

  -- In native mode only the high bytes are locked, and by the bit X alone.
  native-IsLocked :
      (r v : Regs)
      → r.e ≡ false
      → (digit 4 r.p ≡ 1 → digit 4 v.p ≡ 1)
      → r.xh ≡ v.xh
      → r.yh ≡ v.yh
      → IsLocked s v
      → IsLocked s r
  native-IsLocked r v f bit x y h =
      let narrow = λ (n : x_wide r ≡ false). narrow_bit v (bit (bit_of_narrow r f n)) in
      record {
        page = λ t e. cc;
        m_set = λ e. cc;
        xh_clear = λ n. x ∙ h.xh_clear (narrow n);
        yh_clear = λ n. y ∙ h.yh_clear (narrow n);
      }

  pub rep_mask-IsLocked : (mask : ℕ) (r : Regs) → IsLocked s r → IsLocked s (rep_mask mask r)
  unfolding rep_mask and_not8
  rep_mask-IsLocked mask r h =
      let r1 : Regs = record r { p = bit_and r.p (bit_xor mask 0xFF) } in
      if-elim (IsLocked s) r.e (lock_widths r1) r1
        (λ e. relocked-IsLocked r1 h.page (h.xh_clear (narrow_e r e)) (h.yh_clear (narrow_e r e)))
        (λ f.
          native-IsLocked r1 r f
            (λ b. omega (
              arith,
              digit-bit_and 4 r.p (bit_xor mask 0xFF),
              digit-lt 4 r.p,
              digit-lt 4 (bit_xor mask 0xFF),
              b,
            ))
            refl refl h)

  pub xce-IsLocked : (r : Regs) → IsLocked s r → IsLocked s (xce r)
  unfolding xce set_flag digit
  xce-IsLocked r h =
      let on = has_flag flag_c r in
      let r1 : Regs = record r { p = with_flag flag_c r.e r.p; e = on } in
      let spares : Spares 4 flag_c = record { set = refl; clear = refl } in
      if-elim (IsLocked s) on (lock_widths (record r1 { sp_hi = 1; xh = 0; yh = 0 })) r1
        (λ e. relocked-IsLocked (record r1 { sp_hi = 1; xh = 0; yh = 0 }) (λ t e. refl) refl refl)
        (λ f.
          native-IsLocked r1 r f (λ b. sym (with_flag-digit 4 flag_c r.e r.p spares) ∙ b) refl refl
            h)
