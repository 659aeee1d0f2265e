-- ===== src/Rewind/Ring/Refines.antt =====
-- Push and Pop of a ring on the list of its entries, the newest in front.
use chippy.Prelude.{
  ℕ, zero, suc, ◌+◌, ◌-◌, ◌%◌, ◌<◌, ◌≡◌, refl, sym, ap, ◌∙◌, Option, none, some, List, [], ◌∷◌,
  ◌==◌, if◌then◌else◌, if-elim, arith,
}
use chippy.Rewind.Ring.{Ring, push_on, pop_from}
use chippy.Rewind.Ring.Stack.{
  IsRing, behind, behind-eq, wrap, next-lt, tabulate, tabulate-shift, contents, take, old, new,
  push-list,
}

unfoldable pub first : {A : Type 0} → List A → Option A
first [] = none
first (x ∷ l) = some x

unfoldable pub rest : {A : Type 0} → List A → List A
rest [] = []
rest (x ∷ l) = l

behind-back :
    (cap head j : ℕ)
    → head < cap
    → (head + cap - 1) % cap ≡ (if head == 0 then cap - 1 else head - 1)
    → j < cap - 1
    → behind cap head (j + 1) ≡ behind cap ((head + cap - 1) % cap) j
behind-back cap head j lh back small =
    let lt : (head + cap - 1) % cap < cap = ground (arith, back, lh) in
    ground (
      arith,
      back,
      behind-eq cap head (j + 1) lh (omega (arith, small)),
      behind-eq cap ((head + cap - 1) % cap) j lt (omega (arith, small)),
    )

module _ {A : Type 0} where
  pushed :
      (buf : ℕ → A) (head size cap : ℕ) (s : A)
      → IsRing (record { buf = buf; head = head; size = size; cap = cap })
      → let r : Ring A = record { buf = buf; head = head; size = size; cap = cap } in
        IsRing (push_on s r) × (contents (push_on s r) ≡ take cap (s ∷ contents r))
  unfolding push_on contents take
  pushed buf head size zero s h = absurd (omega (arith, h.room))
  pushed buf head size (suc c) s h =
      let r : Ring A = record { buf = buf; head = head; size = size; cap = suc c } in
      if-elim (λ (q : Ring A). IsRing q × (contents q ≡ take (suc c) (s ∷ contents r))) (suc c == 0)
        _ _ (λ e. absurd (ground (arith, e)))
        λ _. (
          record {
            room = h.room;
            head_lt = next-lt (suc c) head h.head_lt;
            size_le = ground (arith, h.size_le);
          },
          unfold old new in push-list buf head c s h.head_lt size h.size_le,
        )

  -- On a ring in order, Push keeps it so and puts the new entry in front, while of the others the
  -- oldest is forgotten as soon as the capacity is reached.
  pub push_on-contents :
      (s : A) (r : Ring A)
      → IsRing r
      → IsRing (push_on s r) × (contents (push_on s r) ≡ take r.cap (s ∷ contents r))
  push_on-contents s r h = pushed r.buf r.head r.size r.cap s h

  popped :
      (buf : ℕ → A) (head size cap : ℕ)
      → IsRing (record { buf = buf; head = head; size = size; cap = cap })
      → let r : Ring A = record { buf = buf; head = head; size = size; cap = cap } in
        let p = pop_from r in
        IsRing p.1 × (p.0 ≡ first (contents r)) × (contents p.1 ≡ rest (contents r))
  unfolding pop_from contents tabulate first rest
  popped buf head zero cap h = (h, refl, refl)
  popped buf head (suc n) cap h =
      let room = h.room in
      let lh = h.head_lt in
      let le = h.size_le in
      let back : (head + cap - 1) % cap ≡ (if head == 0 then cap - 1 else head - 1) =
        ground (arith, wrap (head + cap - 1) cap room (omega (arith, room, lh))) in
      let lt : (head + cap - 1) % cap < cap = ground (arith, back, lh, room) in
      let older : tabulate (λ i. buf (behind cap ((head + cap - 1) % cap) i)) 0 n
          ≡ tabulate (λ i. buf (behind cap head i)) 1 n =
        sym (
          tabulate-shift _ _ 1 0 n (cap - 1) (omega (arith, le))
            λ j small. ap buf (behind-back cap head j lh back small)) in
      let r : Ring A = record { buf = buf; head = head; size = suc n; cap = cap } in
      if-elim
        (λ (p : Option A × Ring A).
          IsRing p.1 × (p.0 ≡ first (contents r)) × (contents p.1 ≡ rest (contents r)))
        (suc n == 0) _ _ (λ e. absurd (ground (arith, e)))
        λ _. (
          record { room = room; head_lt = lt; size_le = omega (arith, le) },
          ap (λ i. some (buf (i % cap))) (omega (arith, room)),
          ap (tabulate (λ i. buf (behind cap ((head + cap - 1) % cap) i)) 0) (omega arith) ∙ older,
        )

  -- On a ring in order, Pop keeps it so, returns the newest entry, and leaves the others; on an
  -- empty ring it returns nothing.
  pub pop_from-contents :
      (r : Ring A)
      → IsRing r
      → let p = pop_from r in
        IsRing p.1 × (p.0 ≡ first (contents r)) × (contents p.1 ≡ rest (contents r))
  pop_from-contents r h = popped r.buf r.head r.size r.cap h
