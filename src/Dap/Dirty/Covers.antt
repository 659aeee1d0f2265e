-- ===== src/Dap/Dirty/Covers.antt =====
-- The reported ranges have the written addresses, and no others.
use chippy.Prelude.{
  ℕ, zero, suc, ◌+◌, ◌-◌, ◌≤◌, ◌<◌, ◌≡◌, refl, ap, ◌∙◌, Bool, true, false, ◌&&◌, ◌||◌, List, [],
  ◌∷◌, ltb, leb, ◌==◌, ==_iff, Bool-cases, inl, inr, arith,
}
use chippy.Memory.{contains}
use chippy.Dap.Dirty.{Dirty, MemRange, fresh, mark, span_end, ranges_from, flush}

-- The address lies in one of the half-open ranges.
unfoldable pub covered : List MemRange → ℕ → Bool
covered [] a = false
covered (r ∷ l) a = leb r.start a && ltb a r.end || covered l a

module _ (dirty : ℕ → Bool) where
  span_end-ge : (left i : ℕ) → i ≤ span_end dirty left i
  unfolding span_end
  span_end-ge zero i = omega arith
  span_end-ge (suc left) i = ground (arith, span_end-ge left (i + 1))

  span_end-le : (left i : ℕ) → span_end dirty left i ≤ i + left
  unfolding span_end
  span_end-le zero i = omega arith
  span_end-le (suc left) i = ground (arith, span_end-le left (i + 1))

  span_end-dirty : (left i a : ℕ) → i ≤ a → a < span_end dirty left i → dirty a ≡ true
  unfolding span_end
  span_end-dirty zero i a ge lt = absurd (omega (arith, ge, lt))
  span_end-dirty (suc left) i a ge lt = elim (Bool-cases (dirty i)) [
    | inl on ↦ elim (Bool-cases (a == i)) [
      | inl same ↦ ap dirty ((==_iff a i).0 same) ∙ on
      | inr other ↦
          span_end-dirty left (i + 1) a (ground (arith, other, ge)) (ground (arith, lt, on))
    ]
    | inr off ↦ absurd (ground (arith, lt, off, ge))
  ]

  span_end-after : (left i : ℕ) → 1 ≤ left → dirty i ≡ true → i < span_end dirty left i
  unfolding span_end
  span_end-after zero i some_left on = absurd (omega (arith, some_left))
  span_end-after (suc left) i some_left on = ground (arith, on, span_end-ge left (i + 1))

  module _ (read : ℕ → ℕ) (above : ℕ) (low : above < 65536) where
    ranges_from-covered :
        (fuel i a : ℕ)
        → above ≤ fuel + i
        → covered (ranges_from read dirty above fuel i) a ≡ (leb i a && ltb a above && dirty a)
    unfolding covered ranges_from
    ranges_from-covered zero i a enough = ground (arith, enough)
    ranges_from-covered (suc fuel) i a enough = elim (Bool-cases (ltb i above)) [
      | inr out ↦ ground (arith, out)
      | inl inside ↦ elim (Bool-cases (dirty i)) [
        | inr off ↦
            let rest = ranges_from-covered fuel (i + 1) a (omega (arith, enough)) in
            elim (Bool-cases (a == i)) [
              | inl same ↦
                  let clean : dirty a ≡ false = ap dirty ((==_iff a i).0 same) ∙ off in
                  ground (arith, rest, clean, inside, off, same)
              | inr other ↦ ground (arith, rest, inside, off, other)
            ]
        | inl on ↦
            let e : ℕ = span_end dirty (above - i) i in
            let beyond : i < e = span_end-after (above - i) i (ground (arith, inside)) on in
            let within : e ≤ above = ground (arith, span_end-le (above - i) i, inside) in
            let rest = ranges_from-covered fuel e a (omega (arith, enough, beyond)) in
            elim (Bool-cases (leb i a && ltb a e)) [
              | inl hit ↦
                  let marked : dirty a ≡ true =
                    span_end-dirty (above - i) i a (ground (arith, hit)) (ground (arith, hit)) in
                  ground (arith, hit, marked, inside, on, within, low)
              | inr miss ↦ ground (arith, miss, rest, inside, on, beyond, within, low)
            ]
      ]
    ]

-- What happens to the tracker in a run: a write, or a report with the memory that it reads.
pub data Event : Type 0 where
  wrote : ℕ → Event
  reported : (ℕ → ℕ) → Event

-- The tracker after the events, the newest first, from a new run on.
unfoldable pub tracked : List Event → Dirty
tracked [] = fresh
tracked (wrote a ∷ l) = mark a (tracked l)
tracked (reported read ∷ l) = (flush read (tracked l)).1

-- The addresses written since the last report.
unfoldable pub unreported : List Event → List ℕ
unreported [] = []
unreported (wrote a ∷ l) = a ∷ unreported l
unreported (reported _ ∷ l) = []

-- Every written address is below `n`.
abbrev AllBelow : ℕ → List ℕ → Type 0
AllBelow n ws = (a : ℕ) → contains ws a ≡ true → a < n

-- `d` has the marks of the writes, and bounds that are no wider than the writes make them.
record Tracks (ws : List ℕ) (d : Dirty) : Type 0 where
  marked : (a : ℕ) → d.dirty a ≡ contains ws a
  lo_le : (a : ℕ) → contains ws a ≡ true → d.lo ≤ a
  lt_above : (a : ℕ) → contains ws a ≡ true → a < d.above
  above_le : (n : ℕ) → AllBelow n ws → d.above ≤ n

mark-Tracks : (w : ℕ) (ws : List ℕ) (d : Dirty) → Tracks ws d → Tracks (w ∷ ws) (mark w d)
unfolding mark contains
mark-Tracks w ws d h = record {
  marked = λ a. ground (arith, h.marked a);
  lo_le = λ a e. elim (Bool-cases (w == a)) [
    | inl same ↦ ground (arith, same)
    | inr other ↦ let before = h.lo_le a (ground (arith, e, other)) in ground (arith, before)
  ];
  lt_above = λ a e. elim (Bool-cases (w == a)) [
    | inl same ↦ ground (arith, same)
    | inr other ↦ let before = h.lt_above a (ground (arith, e, other)) in ground (arith, before)
  ];
  above_le = λ n low.
      let last : w < n = low w (ground arith) in
      let before = h.above_le n (λ a e. low a (ground (arith, e))) in ground (arith, last, before);
}

-- A report leaves no mark: all of them are within the bounds.
flush-Tracks : (read : ℕ → ℕ) (ws : List ℕ) (d : Dirty) → Tracks ws d → Tracks [] (flush read d).1
unfolding flush contains
flush-Tracks read ws d h = record {
  marked = λ a. elim (Bool-cases (contains ws a)) [
    | inl written ↦ ground (arith, h.lo_le a written, h.lt_above a written)
    | inr clean ↦ ground (arith, h.marked a, clean)
  ];
  lo_le = λ a e. cc;
  lt_above = λ a e. cc;
  above_le = λ n _. elim (Bool-cases (ltb d.lo d.above)) [
    | inl some_range ↦ ground (arith, some_range)
    | inr empty ↦
        let none_written : d.above ≤ 0 =
          h.above_le 0 λ a e. absurd (ground (arith, empty, h.lo_le a e, h.lt_above a e)) in
        ground (arith, none_written)
  ];
}

tracked-Tracks : (l : List Event) → Tracks (unreported l) (tracked l)
unfolding tracked unreported contains
tracked-Tracks [] = record {
  marked = λ a. refl;
  lo_le = λ a e. cc;
  lt_above = λ a e. cc;
  above_le = λ n _. omega arith;
}
tracked-Tracks (wrote a ∷ l) = mark-Tracks a (unreported l) (tracked l) (tracked-Tracks l)
tracked-Tracks (reported read ∷ l) = flush-Tracks read (unreported l) (tracked l) (tracked-Tracks l)

-- In a run of any writes and reports, where those written since the last report are below 0xFFFF, the
-- half-open ranges of the next report cover exactly the addresses written since the last one.
pub flush-covered :
    (read : ℕ → ℕ) (l : List Event)
    → ((a : ℕ) → contains (unreported l) a ≡ true → a < 0xFFFF)
    → (a : ℕ) → covered (flush read (tracked l)).0 a ≡ contains (unreported l) a
unfolding flush covered
flush-covered read l low a =
    let d : Dirty = tracked l in
    let ws = unreported l in
    let t : Tracks ws d = tracked-Tracks l in
    let below : d.above < 65536 = omega (arith, t.above_le 0xFFFF low) in
    let found =
      ranges_from-covered d.dirty read d.above below (d.above - d.lo) d.lo a (omega arith) in
    elim (Bool-cases (contains ws a)) [
      | inl written ↦
          ground (arith, written, found, t.marked a, t.lo_le a written, t.lt_above a written)
      | inr clean ↦ ground (arith, clean, found, t.marked a)
    ]
