-- ===== src/Memory/Load.antt =====
-- Load copies a program into RAM, and panics when it does not fit.
use chippy.Prelude.{
  ℕ, ◌+◌, ◌<◌, ◌≤◌, ◌≡◌, refl, ap, ◌∙◌, sym, none, some, List, [], ◌∷◌, length, ltb, lt→ltb, ◌==◌,
  if◌then◌else◌, if-elim, Bool-cases, false, inl, inr, arith,
}
use chippy.Memory.{Ram, load, put_byte}

-- The byte at `a` when the program stands at `addr`.
unfoldable pub overlaid : (ℕ → ℕ) → ℕ → List ℕ → ℕ → ℕ
unfolding put_byte
overlaid bytes addr [] a = bytes a
overlaid bytes addr (b ∷ l) a = if a == addr then b else overlaid bytes (addr + 1) l a

-- The result of Load: memory is overlaid with the data, shadow and freeze set are kept.
pub record IsLoaded (r : Ram) (addr : ℕ) (program : List ℕ) (r' : Ram) : Type 0 where
  pub bytes : (a : ℕ) → r'.bytes a ≡ overlaid r.bytes addr program a
  pub shadow : r'.shadow ≡ r.shadow
  pub frozen : r'.frozen ≡ r.frozen

overlaid-below :
    (bytes : ℕ → ℕ) (addr : ℕ) (l : List ℕ) (a : ℕ) → a < addr → overlaid bytes addr l a ≡ bytes a
unfolding overlaid
overlaid-below bytes addr [] a lt = refl
overlaid-below bytes addr (b ∷ l) a lt =
    ground (arith, lt, overlaid-below bytes (addr + 1) l a (omega (arith, lt)))

overlaid-away :
    (bytes : ℕ → ℕ) (at v addr : ℕ) (l : List ℕ) (a : ℕ)
    → (a == at) ≡ false
    → overlaid (put_byte bytes at v) addr l a ≡ overlaid bytes addr l a
unfolding overlaid
overlaid-away bytes at v addr [] a other = ap (λ b. if b then v else bytes a) other
overlaid-away bytes at v addr (b ∷ l) a other =
    ap (λ n. if a == addr then b else n) (overlaid-away bytes at v (addr + 1) l a other)

overlaid-put :
    (bytes : ℕ → ℕ) (addr b : ℕ) (l : List ℕ) (a : ℕ)
    → overlaid (put_byte bytes addr b) (addr + 1) l a ≡ overlaid bytes addr (b ∷ l) a
unfolding overlaid
overlaid-put bytes addr b l a = elim (Bool-cases (a == addr)) [
  | inl same ↦
      overlaid-below (put_byte bytes addr b) (addr + 1) l a (ground (arith, same))
      ∙ unfold put_byte in ground (arith, same)
  | inr other ↦
      overlaid-away bytes addr b (addr + 1) l a other
      ∙ sym (ap (λ t. if t then b else overlaid bytes (addr + 1) l a) other)
]

overrun :
    (program : List ℕ) (r : Ram) (addr : ℕ)
    → addr ≤ 0x10000
    → 0x10000 < addr + length program
    → load r addr program ≡ none
unfolding load
overrun [] r addr le over = absurd (omega (arith, le, over))
overrun (b ∷ l) r addr le over =
    let next : Ram = record r { bytes = put_byte r.bytes addr b } in
    if-elim (λ o. o ≡ none) (ltb addr 0x10000) (load next (addr + 1) l) none
      (λ small. overrun l next (addr + 1) (ground (arith, small)) (omega (arith, over))) (λ _. refl)

-- A program that ends at 0x10000 or below is loaded byte by byte at its address; the other bytes,
-- the shadow and the freeze set are kept.
pub load-IsLoaded :
    (program : List ℕ) (r : Ram) (addr : ℕ)
    → addr + length program ≤ 0x10000
    → (r' : Ram) × (load r addr program ≡ some r') × IsLoaded r addr program r'
unfolding load
load-IsLoaded [] r addr fits =
    (r, refl, record { bytes = λ a. unfold overlaid in refl; shadow = refl; frozen = refl })
load-IsLoaded (b ∷ l) r addr fits =
    let next : Ram = record r { bytes = put_byte r.bytes addr b } in
    let (r', e, h) = load-IsLoaded l next (addr + 1) (omega (arith, fits)) in
    (
      r',
      ap (λ t. if t then load next (addr + 1) l else none)
            (lt→ltb addr 0x10000 (omega (arith, fits)))
          ∙ e,
      record {
        bytes = λ a. h.bytes a ∙ overlaid-put r.bytes addr b l a;
        shadow = h.shadow;
        frozen = h.frozen;
      },
    )

-- Load panics on a program that goes on beyond 0x10000.
pub load-refuses :
    (program : List ℕ) (r : Ram) (addr : ℕ)
    → addr < 0x10000
    → 0x10000 < addr + length program
    → load r addr program ≡ none
load-refuses program r addr le over = overrun program r addr (omega (arith, le)) over
