-- ===== src/Dap/Dirty.antt =====
-- dap/steps.go: the memory that a run writes, reported as ranges (installDirtyHook, flushDirtyRanges).
pub mod Covers
use chippy.Prelude.{
  ℕ, zero, suc, ◌+◌, ◌-◌, Bool, true, false, List, [], ◌∷◌, u16, ltb, ◌==◌, if◌then◌else◌,
}

-- `above` is dirtyHi + 1, so that 0 stands for -1.
pub record Dirty : Type 0 where
  pub dirty : ℕ → Bool
  pub lo : ℕ
  pub above : ℕ

pub record MemRange : Type 0 where
  pub start : ℕ
  pub end : ℕ
  pub bytes : List ℕ

abbrev pub fresh : Dirty
fresh = record { dirty = λ a. false; lo = 0x10000; above = 0 }

-- What the access hook does with a write.
unfoldable pub mark : ℕ → Dirty → Dirty
mark a d = record {
  dirty = λ b. if a == b then true else d.dirty b;
  lo = if ltb a d.lo then a else d.lo;
  above = if ltb d.above (a + 1) then a + 1 else d.above;
}

-- The bytes of `n` addresses.
unfoldable pub bytes_of : (ℕ → ℕ) → ℕ → ℕ → List ℕ
bytes_of read at zero = []
bytes_of read at (suc n) = read at ∷ bytes_of read (at + 1) n

-- `for i <= s.dirtyHi && s.dirty[i]`, with the number of addresses up to dirtyHi.
unfoldable pub span_end : (ℕ → Bool) → ℕ → ℕ → ℕ
span_end dirty zero i = i
span_end dirty (suc left) i = let e = span_end dirty left (i + 1) in if dirty i then e else i

-- The outer loop; each round goes on by an address at least.
unfoldable pub ranges_from : (ℕ → ℕ) → (ℕ → Bool) → ℕ → ℕ → ℕ → List MemRange
unfolding span_end bytes_of
ranges_from read dirty above zero i = []
ranges_from read dirty above (suc fuel) i =
    let more = ranges_from read dirty above fuel (i + 1) in
    let e : ℕ = span_end dirty (above - i) i in
    let after = ranges_from read dirty above fuel e in
    if ltb i above
    then (if dirty i
        then record { start = u16 i; end = u16 e; bytes = bytes_of read i (e - i) } ∷ after
        else more)
    else []

unfoldable pub flush : (ℕ → ℕ) → Dirty → List MemRange × Dirty
unfolding ranges_from
flush read d =
    if ltb d.lo d.above
    then (
      ranges_from read d.dirty d.above (d.above - d.lo) d.lo,
      record {
        dirty = λ a. if ltb a d.lo then d.dirty a else if ltb a d.above then false else d.dirty a;
        lo = 0x10000;
        above = 0;
      },
    )
    else ([], d)
