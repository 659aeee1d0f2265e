-- ===== src/Mmio/Dispatch.antt =====
-- Each address is served by the device that was registered for it.
use chippy.Prelude.{
  ℕ, ◌≡◌, refl, false, some, List, [], ◌∷◌, ◌++◌, ltb, if◌then◌else◌, Bool-cases, inl, inr, arith,
}
use chippy.Cpu.State.{Env}
use chippy.Mmio.{
  Peripheral, Mmio, covers, any_overlaps, register, find_peripheral, read, dispatch_write,
}

module _ {W : Type 0} where
  -- A device that overlaps none of the list is found behind it.
  find-append :
      (p : Peripheral W) (l : List (Peripheral W)) (addr : ℕ)
      → any_overlaps p l ≡ false
      → find_peripheral addr (l ++ p ∷ [])
        ≡ (if covers p addr then some p else find_peripheral addr l)
  unfolding find_peripheral any_overlaps
  find-append p [] addr h = refl
  find-append p (q ∷ l) addr h = ground (arith, find-append p l addr)

  -- Where registering a device succeeds, every read and every dispatched write in its range goes to
  -- the device, and every other goes where it went before.
  pub register-serves :
      (p : Peripheral W) (m m' : Mmio W) (addr v : ℕ) (e : Env W)
      → register p m ≡ some m'
      → (read m' addr e ≡ (if covers p addr then p.read addr e else read m addr e))
        × (dispatch_write m' addr v e
            ≡ (if covers p addr then p.write addr v e else dispatch_write m addr v e))
  unfolding register read dispatch_write
  register-serves p m m' addr v e h = elim (Bool-cases (ltb p.hi p.lo)) [
    | inl empty ↦ ground (arith, h, empty)
    | inr valid ↦ elim (Bool-cases (any_overlaps p m.peripherals)) [
      | inl taken ↦ ground (arith, h, valid, taken)
      | inr free ↦
          let found = find-append p m.peripherals addr free in
          (ground (arith, h, valid, free, found), ground (arith, h, valid, free, found))
    ]
  ]
