-- ===== src/Peripheral/Acia/Saved.antt =====
-- The saved state of the serial port.
use chippy.Prelude.{
  ◌*◌, ◌<◌, ◌≡◌, refl, ◌∙◌, Bool, true, false, ◌++◌, u8, hi_byte, bit_or, length, length-append,
  take-append_length, drop-append_length, ltb, if◌then◌else◌, arith, nonzero,
}
use chippy.Cpu.Addressing.Pages.{join}
use chippy.Peripheral.Acia.{Acia, snapshot, restore}

flag_of_byte : (f : Bool) → nonzero (if f then 1 else 0) ≡ f
flag_of_byte true = refl
flag_of_byte false = refl

-- Restoring a snapshot, taken with less than 64 KiB of received bytes pending, into any port brings
-- back both registers, the interrupt flag and both queues; the port's address, wiring and capacity stay.
pub restore-snapshot :
    (a b : Acia)
    → length a.rxq < 65536
    → restore (snapshot a) b ≡ record a { base = b.base; wired = b.wired; tx_cap = b.tx_cap }
unfolding snapshot restore
restore-snapshot a b small =
    let n : bit_or (hi_byte (length a.rxq) * 256) (u8 (length a.rxq)) ≡ length a.rxq =
      join (hi_byte (length a.rxq)) (u8 (length a.rxq)) (omega arith) (omega arith) ∙ omega arith in
    let fits = length-append a.rxq a.tx in
    let front = take-append_length a.rxq a.tx in
    let back = drop-append_length a.rxq a.tx in
    let k : (if ltb (length (a.rxq ++ a.tx)) (length a.rxq)
          then length (a.rxq ++ a.tx)
          else length a.rxq)
        ≡ length a.rxq =
      ground (arith, fits) in
    let flag = flag_of_byte a.irq_flag in cc
