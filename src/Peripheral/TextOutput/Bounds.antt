-- ===== src/Peripheral/TextOutput/Bounds.antt =====
-- The text port's buffer stays within its capacity and holds the end of what was printed.
use chippy.Prelude.{
  ℕ, ◌≡◌, ◌≤◌, refl, sym, ap, subst, ◌∙◌, Bool, true, false, not, ◌&&◌, List, [], ◌∷◌, ◌++◌, length,
  drop, length-append, length-drop, drop-append, drop-drop, ltb, ◌==◌, if◌then◌else◌, arith, ◌+◌,
  ◌-◌, ◌/◌,
}
use chippy.Peripheral.Acia.{make_room}
use chippy.Peripheral.TextOutput.{TextOutput, shown, write}

-- The bytes that a sequence of writes to the port prints, the dropped ones included.
unfoldable pub transcript : ℕ → List (ℕ × ℕ) → List ℕ → List ℕ
transcript addr [] out = out
transcript addr ((a, v) ∷ ws) out =
    transcript addr ws (if a == addr then out ++ shown v ∷ [] else out)

unfoldable pub write_all : List (ℕ × ℕ) → TextOutput → TextOutput
write_all [] t = t
write_all ((a, v) ∷ ws) t = write_all ws (write a v t)

-- The buffer is what is left of the transcript after the first `lost` bytes, at most the capacity.
pub record IsTail (out : List ℕ) (t : TextOutput) : Type 0 where
  pub lost : ℕ
  pub lost_le : lost ≤ length out
  pub fits : length t.buf ≤ t.cap
  pub tail : t.buf ≡ drop lost out

module _ (addr cap v lost : ℕ) (out buf : List ℕ) (pos : 1 ≤ cap) (le : lost ≤ length out)
    (fits : length buf ≤ cap) (tail : buf ≡ drop lost out) where
  -- Bytes dropped from the front of a full buffer are lost from the transcript.
  dropped :
      (k : ℕ)
      → 1 ≤ k
      → k ≤ length buf
      → IsTail (out ++ v ∷ []) (record { addr = addr; cap = cap; buf = drop k buf ++ v ∷ [] })
  dropped k one inside =
      let size : length buf ≡ length out - lost = ap length tail ∙ length-drop lost out in
      record {
        lost = lost + k;
        lost_le = omega (arith, size, le, inside, length-append out (v ∷ []));
        fits =
            omega
              (arith, length-append (drop k buf) (v ∷ []), length-drop k buf, inside, one, fits);
        tail =
            ap (λ l. drop k l ++ v ∷ []) tail
            ∙ ap (λ l. l ++ v ∷ []) (drop-drop k lost out)
            ∙ sym (drop-append (lost + k) out (v ∷ []) (omega (arith, size, le, inside)));
      }

  kept :
      ltb (length buf) cap ≡ true
      → IsTail (out ++ v ∷ []) (record { addr = addr; cap = cap; buf = buf ++ v ∷ [] })
  kept below = record {
    lost = lost;
    lost_le = omega (arith, le, length-append out (v ∷ []));
    fits = ground (arith, length-append buf (v ∷ []), below);
    tail = ap (λ l. l ++ v ∷ []) tail ∙ sym (drop-append lost out (v ∷ []) le);
  }

  append-IsTail :
      (full quarter : Bool)
      → full ≡ ltb 0 cap && not (ltb (length buf) cap)
      → quarter ≡ ltb (cap / 4) 1
      → IsTail (out ++ v ∷ []) (record {
        addr = addr;
        cap = cap;
        buf = (if full then drop (if quarter then 1 else cap / 4) buf else buf) ++ v ∷ [];
      })
  append-IsTail true true f q = dropped 1 (omega arith) (ground (arith, f))
  append-IsTail true false f q = dropped (cap / 4) (ground (arith, q)) (ground (arith, f))
  append-IsTail false quarter f q = kept (ground (arith, f, pos))

write_if-IsTail :
    (hit : Bool) (v : ℕ) (out : List ℕ) (t : TextOutput)
    → 1 ≤ t.cap
    → IsTail out t
    → IsTail
        (if hit then out ++ shown v ∷ [] else out)
        (if hit then record t { buf = make_room t.cap t.buf ++ shown v ∷ [] } else t)
unfolding make_room
write_if-IsTail true v out t pos h =
    append-IsTail t.addr t.cap (shown v) h.lost out t.buf pos h.lost_le h.fits h.tail
      (ltb 0 t.cap && not (ltb (length t.buf) t.cap)) (ltb (t.cap / 4) 1) refl refl
write_if-IsTail false v out t pos h = h

write-IsTail :
    (a v : ℕ) (out : List ℕ) (t : TextOutput)
    → 1 ≤ t.cap
    → IsTail out t
    → IsTail (if a == t.addr then out ++ shown v ∷ [] else out) (write a v t)
unfolding write
write-IsTail a v out t pos h = write_if-IsTail (a == t.addr) v out t pos h

write-cap : (a v : ℕ) (t : TextOutput) → (write a v t).cap ≡ t.cap
unfolding write
write-cap a v t = ground arith

write-addr : (a v : ℕ) (t : TextOutput) → (write a v t).addr ≡ t.addr
unfolding write
write-addr a v t = ground arith

-- Whatever is written to whatever addresses, a text port with a positive capacity that holds the end
-- of the text printed so far, within its capacity, still does: bytes are lost from the front alone.
pub write_all-IsTail :
    (ws : List (ℕ × ℕ)) (out : List ℕ) (t : TextOutput)
    → 1 ≤ t.cap
    → IsTail out t
    → IsTail (transcript t.addr ws out) (write_all ws t)
unfolding transcript write_all
write_all-IsTail [] out t pos h = h
write_all-IsTail ((a, v) ∷ ws) out t pos h =
    let printed : List ℕ = if a == t.addr then out ++ shown v ∷ [] else out in
    subst (λ d. IsTail (transcript d ws printed) (write_all ws (write a v t))) (write-addr a v t)
      (write_all-IsTail ws printed (write a v t) (omega (arith, pos, write-cap a v t))
        (write-IsTail a v out t pos h))
